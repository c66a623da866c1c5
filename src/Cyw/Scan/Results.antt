-- ===== src/Cyw/Scan/Results.antt =====
-- cyw_escan_result_handler: which entries of a result are added.
use free_bsd15_rpi5_modules.Base.{
  ℕ, zero, suc, ◌+◌, ◌*◌, ◌≤◌, ◌<◌, ◌≡◌, inl, inr, refl, ap, ◌∙◌, false, ◌||◌, List, [], ◌∷◌, arith,
  ltb, Bool-cases, length,
}
use free_bsd15_rpi5_modules.Cyw.{Buf}
use free_bsd15_rpi5_modules.Cyw.Scan.{entries, bi_length}

-- Each entry starts where the last one ended, has at least the fixed part, and is no longer than
-- `buflen`.
abbrev pub AreConsecutive : ℕ → ℕ → List (ℕ × ℕ) → Type 0
AreConsecutive buflen at [] = 0 ≤ at
AreConsecutive buflen at (e ∷ es) =
    (e.0 ≡ at) × (128 ≤ e.1) × (e.1 ≤ buflen) × AreConsecutive buflen (at + e.1) es

-- The entries that are added follow each other from the first one on, are each between 128 bytes and
-- `buflen` long, and are at most as many as the event says.
entries-AreConsecutive :
    (bss_count : ℕ) (b : Buf) (buflen at : ℕ)
    → AreConsecutive buflen at (entries bss_count b buflen at)
      × (length (entries bss_count b buflen at) ≤ bss_count)
unfolding entries
entries-AreConsecutive zero b buflen at = (omega arith, omega arith)
entries-AreConsecutive (suc n) b buflen at =
    elim (Bool-cases (ltb (bi_length b at) 128 || ltb buflen (bi_length b at))) [
      | inl e ↦ rw e (omega arith, omega arith)
      | inr e ↦
          let (follow, few) = entries-AreConsecutive n b buflen (at + bi_length b at) in
          rw e ((refl, ground (arith, e), ground (arith, e), follow), omega (arith, few))
    ]

-- The entries of one length, one after the other.
abbrev row : ℕ → ℕ → ℕ → List (ℕ × ℕ)
row zero len at = []
row (suc n) len at = (at, len) ∷ row n len (at + len)

-- A result whose entries, as many as it says, all give one length, from 128 bytes to `buflen`,
-- has every one of them added, one after the other: the loop never takes an added entry's length
-- off `buflen`, so that the last one ends `bss_count` times that length after the first one's
-- start, whatever `buflen` is.
entries-row :
    (bss_count : ℕ) (b : Buf) (buflen len at : ℕ)
    → 128 ≤ len
    → len ≤ buflen
    → ((k : ℕ) → k < bss_count → bi_length b (at + k * len) ≡ len)
    → entries bss_count b buflen at ≡ row bss_count len at
unfolding entries
entries-row zero b buflen len at l h same = refl
entries-row (suc n) b buflen len at l h same =
    let first : bi_length b at ≡ len = ap (bi_length b) (here at len) ∙ same 0 (omega arith) in
    let guards : (ltb (bi_length b at) 128 || ltb buflen (bi_length b at)) ≡ false = ground arith in
    let rest =
      entries-row n b buflen len (at + len) l h
        (λ k lt. ap (bi_length b) (next at len k) ∙ same (suc k) (omega arith)) in
    rw (guards, first, rest) refl
  where
    here : (at len : ℕ) → at ≡ at + 0 * len
    here at len = omega arith

    next : (at len k : ℕ) → at + len + k * len ≡ at + suc k * len
    next at len k = omega arith
