-- ===== src/Eth/Filter/Hash.antt =====
-- The hash of an address: six parities of every sixth bit.
use free_bsd15_rpi5_modules.Base.{
  ℕ, ◌∙◌, zero, suc, ◌+◌, ◌/◌, ◌%◌, ◌^◌, ◌≤◌, ◌<◌, ◌≡◌, inl, inr, refl, ap, Bool, true, false, not,
  arith, if◌then◌else◌, Bool-cases, bit, toggle_bit,
}
use free_bsd15_rpi5_modules.Eth.Filter.{hash_column, hash_rows, mac_hash}

abbrev xor : Bool → Bool → Bool
xor true b = not b
xor false b = b

-- Whether an odd number of the address bits j, j + 6, ... is set, of as many as are asked for.
abbrev pub parity : ℕ → ℕ → (ℕ → ℕ) → Bool
parity zero j eaddr = false
parity (suc n) j eaddr = xor (bit (eaddr (j / 8)) (j % 8)) (parity n (j + 6) eaddr)

-- A parity as the bit i of a word.
abbrev pub weight : Bool → ℕ → ℕ
weight b i = if b then 2 ^ i else 0

-- The bit i on top of a word below 2 ^ i is toggled.
toggle-weight :
    (i old : ℕ) (b : Bool)
    → i < 6
    → old < 2 ^ i
    → toggle_bit (old + weight b i) i ≡ old + weight (not b) i
toggle-weight zero old true l h = ground arith
toggle-weight zero old false l h = ground arith
toggle-weight (suc zero) old true l h = ground arith
toggle-weight (suc zero) old false l h = ground arith
toggle-weight (suc (suc zero)) old true l h = ground arith
toggle-weight (suc (suc zero)) old false l h = ground arith
toggle-weight (suc (suc (suc zero))) old true l h = ground arith
toggle-weight (suc (suc (suc zero))) old false l h = ground arith
toggle-weight (suc (suc (suc (suc zero)))) old true l h = ground arith
toggle-weight (suc (suc (suc (suc zero)))) old false l h = ground arith
toggle-weight (suc (suc (suc (suc (suc zero))))) old true l h = ground arith
toggle-weight (suc (suc (suc (suc (suc zero))))) old false l h = ground arith
toggle-weight (suc (suc (suc (suc (suc (suc i)))))) old b l h = absurd (omega (arith, l))

column :
    (n j i old : ℕ) (b : Bool) (eaddr : ℕ → ℕ)
    → i < 6
    → old < 2 ^ i
    → hash_column n j eaddr i (old + weight b i) ≡ old + weight (xor b (parity n j eaddr)) i
column zero j i old true eaddr l h = refl
column zero j i old false eaddr l h = refl
column (suc n) j i old b eaddr l h = elim (Bool-cases (bit (eaddr (j / 8)) (j % 8))) [
  | inl e ↦
      rw (e, toggle-weight i old b l h)
        (column n (j + 6) i old (not b) eaddr l h
          ∙ ap (λ x. old + weight x i) (flip b (parity n (j + 6) eaddr)))
  | inr e ↦ rw e (column n (j + 6) i old b eaddr l h)
]
  where
    flip : (x y : Bool) → xor (not x) y ≡ xor x (not y)
    flip true true = refl
    flip true false = refl
    flip false y = refl

row :
    (i old : ℕ) (eaddr : ℕ → ℕ)
    → i < 6
    → old < 2 ^ i
    → hash_column 8 i eaddr i old ≡ old + weight (parity 8 i eaddr) i
row i old eaddr l h =
    let zero_on_top : old ≡ old + 0 = omega arith in
    ap (hash_column 8 i eaddr i) zero_on_top ∙ column 8 i i old false eaddr l h

weight-le : (b : Bool) (i : ℕ) → weight b i ≤ 2 ^ i
weight-le true i = omega arith
weight-le false i = omega arith

-- cgem_mac_hash is the index that the controller computes: for each i below 6, bit i is the parity of the
-- eight address bits i, i + 6, ..., i + 42; so it is below 64.
pub mac_hash_lem :
    (eaddr : ℕ → ℕ)
    → (mac_hash eaddr
        ≡ weight (parity 8 0 eaddr) 0
          + weight (parity 8 1 eaddr) 1
          + weight (parity 8 2 eaddr) 2
          + weight (parity 8 3 eaddr) 3
          + weight (parity 8 4 eaddr) 4
          + weight (parity 8 5 eaddr) 5)
      × (mac_hash eaddr < 64)
unfolding mac_hash
mac_hash_lem eaddr =
    let w : ℕ → ℕ = λ i. weight (parity 8 i eaddr) i in
    let b : (i : ℕ) → weight (parity 8 i eaddr) i ≤ 2 ^ i = λ i. weight-le (parity 8 i eaddr) i in
    let first : hash_column 8 0 eaddr 0 0 ≡ w 0 =
      row 0 0 eaddr (omega arith) (omega arith) ∙ omega arith in
    let total =
      ap (hash_rows 5 eaddr) first
      ∙ ap (hash_rows 4 eaddr) (row 1 (w 0) eaddr (omega arith) (omega (arith, b 0)))
      ∙ ap (hash_rows 3 eaddr) (row 2 (w 0 + w 1) eaddr (omega arith) (omega (arith, b 0, b 1)))
      ∙ ap (hash_rows 2 eaddr)
          (row 3 (w 0 + w 1 + w 2) eaddr (omega arith) (omega (arith, b 0, b 1, b 2)))
      ∙ ap (hash_rows 1 eaddr)
          (row 4 (w 0 + w 1 + w 2 + w 3) eaddr (omega arith) (omega (arith, b 0, b 1, b 2, b 3)))
      ∙ row 5 (w 0 + w 1 + w 2 + w 3 + w 4) eaddr (omega arith)
          (omega (arith, b 0, b 1, b 2, b 3, b 4)) in
    (total, omega (arith, total, b 0, b 1, b 2, b 3, b 4, b 5))
