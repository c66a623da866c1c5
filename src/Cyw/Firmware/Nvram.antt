-- ===== src/Cyw/Firmware/Nvram.antt =====
-- The packing of the NVRAM text: its length, its end, and what it makes of the lines.
use free_bsd15_rpi5_modules.Base.{
  ℕ, zero, suc, ◌+◌, ◌-◌, ◌*◌, ◌/◌, ◌%◌, ◌≤◌, ◌≡◌, ◌≢◌, inl, inr, refl, true, false, not, ◌&&◌,
  List, [], ◌∷◌, ◌++◌, arith, ◌==◌, if◌then◌else◌, Bool-cases, if_rule, length, get_or,
}
use free_bsd15_rpi5_modules.Cyw.Firmware.{
  Pack, is_open, close, take_byte, take_bytes, start, zeros, pad, packed, parse_nvram, alloc_len,
}

close-le : (out : List ℕ) → length (close out) ≤ suc (length out)
close-le out =
    if_rule (λ l. length l ≤ suc (length out)) (is_open out) _ _ (λ e. omega arith)
      (λ e. omega arith)

-- A byte of the text adds at most one to the buffer.
take_byte-le : (c : ℕ) (p : Pack) → length (take_byte c p).out ≤ suc (length p.out)
take_byte-le c p =
    if_rule (λ (q : Pack). length q.out ≤ suc (length p.out)) (c == 13) _ _ (λ e. omega arith)
      (λ e.
        if_rule (λ (q : Pack). length q.out ≤ suc (length p.out)) (c == 10) _ _
          (λ g.
            if_rule (λ l. length l ≤ suc (length p.out)) (not p.in_comment && not p.at_bol) _ _
              (λ h. close-le p.out) (λ h. omega arith))
          (λ g.
            if_rule (λ (q : Pack). length q.out ≤ suc (length p.out)) (p.at_bol && c == 35) _ _
              (λ h. omega arith)
              (λ h.
                if_rule (λ l. length l ≤ suc (length p.out)) p.in_comment _ _ (λ i. omega arith)
                  (λ i. omega arith))))

take_bytes-le : (cs : List ℕ) (p : Pack) → length (take_bytes cs p).out ≤ length p.out + length cs
unfolding take_bytes
take_bytes-le [] p = omega arith
take_bytes-le (c ∷ cs) p = omega (arith, take_byte-le c p, take_bytes-le cs (take_byte c p))

length-zeros : (n : ℕ) (out : List ℕ) → length (zeros n out) ≡ n + length out
length-zeros zero out = omega arith
length-zeros (suc n) out = omega (arith, length-zeros n out)

length-pad : (out : List ℕ) → length (pad out) ≡ (length out + 3) / 4 * 4
length-pad out = omega (arith, length-zeros ((4 - length out % 4) % 4) out)

length-packed :
    (raw : List ℕ)
    → (length (packed raw) % 4 ≡ 0) × (length (packed raw) + 4 ≤ alloc_len (length raw))
length-packed raw =
    let out = (take_bytes raw start).out in
    (
      omega (arith, length-pad (0 ∷ close out)),
      omega (arith, length-pad (0 ∷ close out), close-le out, take_bytes-le raw start),
    )

-- The packed text fits the buffer that is allocated for it, to the last byte of the token; its length is a
-- multiple of four; and the last word, little endian, holds in its lower half the number of words before
-- it, modulo 65536, and in the upper half the complement.
pub parse_nvram_fits :
    (raw : List ℕ)
    → (length (parse_nvram raw) ≤ alloc_len (length raw))
      × (length (parse_nvram raw) % 4 ≡ 0)
      × (get_or (parse_nvram raw) 3 0 + 256 * get_or (parse_nvram raw) 2 0
          ≡ (length (parse_nvram raw) - 4) / 4 % 65536)
      × (get_or (parse_nvram raw) 1 0 + 256 * get_or (parse_nvram raw) 0 0
          ≡ 65535 - (length (parse_nvram raw) - 4) / 4 % 65536)
unfolding parse_nvram
parse_nvram_fits raw =
    let (words, fits) = length-packed raw in
    (omega (arith, fits), omega (arith, words), omega arith, omega arith)

-- A line of the text: it has no newline and no NUL.
abbrev pub IsLine : List ℕ → Type 0
IsLine [] = Unit {0}
IsLine (c ∷ cs) = (c ≢ 10) × (c ≢ 0) × IsLine cs

abbrev pub AllLines : List (List ℕ) → Type 0
AllLines [] = Unit {0}
AllLines (l ∷ ls) = IsLine l × AllLines ls

-- The text of lines that each end in a newline.
abbrev pub text : List (List ℕ) → List ℕ
text [] = []
text (l ∷ ls) = l ++ (10 ∷ text ls)

-- A line without its carriage returns.
abbrev pub strip : List ℕ → List ℕ
strip [] = []
strip (c ∷ cs) = let rest = strip cs in if c == 13 then rest else c ∷ rest

-- What is kept of a stripped line: nothing of an empty one or of a comment, otherwise the line and a NUL.
abbrev pub kept : List ℕ → List ℕ
kept [] = []
kept (c ∷ cs) = if c == 35 then [] else (c ∷ cs) ++ (0 ∷ [])

abbrev pub tokens : List (List ℕ) → List ℕ
tokens [] = []
tokens (l ∷ ls) = kept (strip l) ++ tokens ls

-- Bytes on top of a buffer that is held last byte first.
abbrev pub onto : List ℕ → List ℕ → List ℕ
onto [] out = out
onto (c ∷ cs) out = onto cs (c ∷ out)

-- A line's bytes, in a comment, up to its newline.
in_comment :
    (l rest out : List ℕ)
    → IsLine l
    → take_bytes (l ++ (10 ∷ rest)) (record { out = out; in_comment = true; at_bol = false })
      ≡ take_bytes rest (record { out = out; in_comment = false; at_bol = true })
unfolding take_bytes
in_comment [] rest out k = refl
in_comment (c ∷ l) rest out k = elim (Bool-cases (c == 13)) [
  | inl e ↦ rw (take_bytes, e) (in_comment l rest out k.2)
  | inr e ↦
      let other : (c == 10) ≡ false = ground (arith, k.0) in
      rw (take_bytes, e, other) (in_comment l rest out k.2)
]
