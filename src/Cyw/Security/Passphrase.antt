-- ===== src/Cyw/Security/Passphrase.antt =====
-- From the psk sysctl to the payload that the firmware gets.
use free_bsd15_rpi5_modules.Base.{
  ℕ, zero, suc, ◌+◌, ◌-◌, ◌%◌, ◌≤◌, ◌≡◌, refl, ap, ◌∙◌, true, false, some, List, [], ◌∷◌, ◌++◌,
  arith, ltb, length, take, replicate, length-append,
}
use free_bsd15_rpi5_modules.Cyw.Security.{Psk, Pmk, Request, padded, set_pmk, sysctl_psk}

take-append : {A : Type 0} → (xs ys : List A) → take (length xs) (xs ++ ys) ≡ xs
take-append [] ys = refl
take-append (x ∷ xs) ys = ap (λ r. x ∷ r) (take-append xs ys)

length-replicate : (n : ℕ) → length {A = ℕ} (replicate n 0) ≡ n
length-replicate zero = refl
length-replicate (suc n) = ap suc (length-replicate n)

-- A passphrase of 8 to 63 characters that a sysctl request writes without an error is stored in
-- the 64 bytes, and what the firmware is then sent has its length, the flag for a passphrase, and
-- its characters followed by zeros.
psk_round_trip :
    (psk : Psk) (req : Request) (cmd : Pmk → ℕ)
    → req.error ≡ 0
    → req.newptr ≡ true
    → 8 ≤ length req.text
    → length req.text ≤ 63
    → let stored = sysctl_psk psk req in
      (stored.0 ≡ 0)
      × (length stored.1.key ≡ 64)
      × ((set_pmk cmd stored.1.key stored.1.len).1
          ≡ some (record { key_len = length req.text; flags = 1; key = padded req.text }))
unfolding sysctl_psk set_pmk
psk_round_trip psk req cmd ok writes lo hi =
    let kept : take (length req.text) (padded req.text) ≡ req.text =
      take-append req.text (replicate (64 - length req.text) 0) in
    let all : length (padded req.text) ≡ 64 =
      length-append req.text (replicate (64 - length req.text) 0) ∙ fills in
    let small : ltb (length req.text) 8 ≡ false = ground arith in
    let word : length req.text % 65536 ≡ length req.text = omega arith in
    let fits : ltb 64 (length req.text) ≡ false = ground arith in
    let big : ltb 63 (length req.text) ≡ false = ground arith in
    rw (ok, writes, small, big) (refl, all, rw (word, fits, kept) refl)
  where
    fills : length req.text + length {A = ℕ} (replicate (64 - length req.text) 0) ≡ 64
    fills = let r = length-replicate (64 - length req.text) in omega (arith, hi, r)
