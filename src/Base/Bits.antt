-- ===== src/Base/Bits.antt =====
-- The laws of single bits of a word: what setting, clearing and toggling one does to each.
use Prim.Native.Nat.{ℕ, zero, suc, ◌+◌, ◌-◌, ◌*◌, ◌/◌, ◌%◌, ◌^◌, ◌≤◌, ◌<◌}
use native.Mathlib.Nat.{pow-succ', one-le-pow, div-div-eq-div-mul}
use native.Mathlib.Omega.{arith}
use mathlib.Core.Path.{◌≡◌, refl, sym, ap, ◌∙◌}
use mathlib.Core.Logic.{◌≢◌, inl, inr}
use mathlib.Core.Bool.{Bool, true, false, not, ◌&&◌, ◌||◌}
use mathlib.Core.List.{List, [], ◌∷◌}
use free_bsd15_rpi5_modules.Base.Tests.{◌==◌, if◌then◌else◌, Bool-cases}
use free_bsd15_rpi5_modules.Base.Words.{bit, set_bit, clear_bit}

-- `x ^ (1 << k)`.
abbrev pub toggle_bit : ℕ → ℕ → ℕ
toggle_bit x k = if bit x k then x - 2 ^ k else x + 2 ^ k

two_pow_pos : (k : ℕ) → 0 < 2 ^ k
two_pow_pos k = one-le-pow k 2 (omega arith)

two_pow_suc : (k : ℕ) → 2 ^ suc k ≡ 2 * 2 ^ k
two_pow_suc k = pow-succ' 2 k

bit-half : (x k : ℕ) → bit x (suc k) ≡ bit (x / 2) k
bit-half x k =
    ap (λ y. y % 2 == 1) (ap (λ p. x / p) (two_pow_suc k) ∙ sym (div-div-eq-div-mul x 2 (2 ^ k)))

bit_zero : (x : ℕ) → bit x 0 ≡ (x % 2 == 1)
bit_zero x = ground arith

-- A set bit counts for its power of two.
above : (x k : ℕ) → bit x k ≡ true → 2 ^ k ≤ x
above x zero b = ground (arith, b)
above x (suc k) b = omega (arith, two_pow_suc k, above (x / 2) k (sym (bit-half x k) ∙ b))

half-add : (x k : ℕ) → (x + 2 ^ suc k) / 2 ≡ x / 2 + 2 ^ k
half-add x k = omega (arith, two_pow_suc k)

half-sub : (x k : ℕ) → (x - 2 ^ suc k) / 2 ≡ x / 2 - 2 ^ k
half-sub x k = omega (arith, two_pow_suc k)

bit-add_self : (x k : ℕ) → bit (x + 2 ^ k) k ≡ not (bit x k)
bit-add_self x zero = ground arith
bit-add_self x (suc k) =
    bit-half (x + 2 ^ suc k) k
    ∙ ap (λ y. bit y k) (half-add x k)
    ∙ bit-add_self (x / 2) k
    ∙ ap not (sym (bit-half x k))

bit-sub_self : (x k : ℕ) → bit x k ≡ true → bit (x - 2 ^ k) k ≡ false
bit-sub_self x zero b = ground (arith, b)
bit-sub_self x (suc k) b =
    bit-half (x - 2 ^ suc k) k
    ∙ ap (λ y. bit y k) (half-sub x k)
    ∙ bit-sub_self (x / 2) k (sym (bit-half x k) ∙ b)

bit-add_ne : (x j k : ℕ) → bit x j ≡ false → j ≢ k → bit (x + 2 ^ j) k ≡ bit x k
bit-add_ne x zero zero b n = absurd (n refl)
bit-add_ne x zero (suc k) b n =
    let half : (x + 2 ^ 0) / 2 ≡ x / 2 = ground (arith, b) in
    bit-half (x + 2 ^ 0) k ∙ ap (λ y. bit y k) half ∙ sym (bit-half x k)
bit-add_ne x (suc j) zero b n =
    let even : (x + 2 ^ suc j) % 2 ≡ x % 2 = omega (arith, two_pow_suc j) in
    bit_zero (x + 2 ^ suc j) ∙ ap (λ y. y == 1) even ∙ sym (bit_zero x)
bit-add_ne x (suc j) (suc k) b n =
    bit-half (x + 2 ^ suc j) k
    ∙ ap (λ y. bit y k) (half-add x j)
    ∙ bit-add_ne (x / 2) j k (sym (bit-half x j) ∙ b) (λ e. n (ap suc e))
    ∙ sym (bit-half x k)

bit-sub_ne : (x j k : ℕ) → bit x j ≡ true → j ≢ k → bit (x - 2 ^ j) k ≡ bit x k
bit-sub_ne x zero zero b n = absurd (n refl)
bit-sub_ne x zero (suc k) b n =
    let half : (x - 2 ^ 0) / 2 ≡ x / 2 = ground (arith, b) in
    bit-half (x - 2 ^ 0) k ∙ ap (λ y. bit y k) half ∙ sym (bit-half x k)
bit-sub_ne x (suc j) zero b n =
    let even : (x - 2 ^ suc j) % 2 ≡ x % 2 = omega (arith, two_pow_suc j, above x (suc j) b) in
    bit_zero (x - 2 ^ suc j) ∙ ap (λ y. y == 1) even ∙ sym (bit_zero x)
bit-sub_ne x (suc j) (suc k) b n =
    bit-half (x - 2 ^ suc j) k
    ∙ ap (λ y. bit y k) (half-sub x j)
    ∙ bit-sub_ne (x / 2) j k (sym (bit-half x j) ∙ b) (λ e. n (ap suc e))
    ∙ sym (bit-half x k)

pub bit-set_self : (x k : ℕ) → bit (set_bit x k) k ≡ true
bit-set_self x k = elim (Bool-cases (bit x k)) [
  | inl e ↦ rw e e
  | inr e ↦ rw e (bit-add_self x k ∙ ap not e)
]

pub bit-set_ne : (x j k : ℕ) → j ≢ k → bit (set_bit x j) k ≡ bit x k
bit-set_ne x j k n = elim (Bool-cases (bit x j)) [
  | inl e ↦ rw e refl
  | inr e ↦ rw e (bit-add_ne x j k e n)
]

pub bit-clear_self : (x k : ℕ) → bit (clear_bit x k) k ≡ false
bit-clear_self x k = elim (Bool-cases (bit x k)) [
  | inl e ↦ rw e (bit-sub_self x k e)
  | inr e ↦ rw e e
]

pub bit-clear_ne : (x j k : ℕ) → j ≢ k → bit (clear_bit x j) k ≡ bit x k
bit-clear_ne x j k n = elim (Bool-cases (bit x j)) [
  | inl e ↦ rw e (bit-sub_ne x j k e n)
  | inr e ↦ rw e refl
]

pub bit-toggle_self : (x k : ℕ) → bit (toggle_bit x k) k ≡ not (bit x k)
bit-toggle_self x k = elim (Bool-cases (bit x k)) [
  | inl e ↦ rw e (bit-sub_self x k e)
  | inr e ↦ rw e (bit-add_self x k ∙ ap not e)
]

pub bit-toggle_ne : (x j k : ℕ) → j ≢ k → bit (toggle_bit x j) k ≡ bit x k
bit-toggle_ne x j k n = elim (Bool-cases (bit x j)) [
  | inl e ↦ rw e (bit-sub_ne x j k e n)
  | inr e ↦ rw e (bit-add_ne x j k e n)
]

pub bit-none : (k : ℕ) → bit 0 k ≡ false
bit-none zero = refl
bit-none (suc k) = bit-half 0 k ∙ bit-none k

-- A mask of several bits, which are listed.
abbrev pub set_bits : List ℕ → ℕ → ℕ
set_bits [] x = x
set_bits (k ∷ ks) x = set_bit (set_bits ks x) k

abbrev pub clear_bits : List ℕ → ℕ → ℕ
clear_bits [] x = x
clear_bits (k ∷ ks) x = clear_bit (clear_bits ks x) k

abbrev pub lists : List ℕ → ℕ → Bool
lists [] k = false
lists (j ∷ ks) k = j == k || lists ks k

pub bit-set_bits : (ks : List ℕ) (x k : ℕ) → bit (set_bits ks x) k ≡ (lists ks k || bit x k)
bit-set_bits [] x k = refl
bit-set_bits (j ∷ ks) x k = elim (Bool-cases (j == k)) [
  | inl e ↦
      let same : j ≡ k = ground (arith, e) in
      rw e (ap (λ i. bit (set_bit (set_bits ks x) i) k) same ∙ bit-set_self (set_bits ks x) k)
  | inr e ↦ rw e (bit-set_ne (set_bits ks x) j k (λ z. ground (arith, e, z)) ∙ bit-set_bits ks x k)
]

pub bit-clear_bits :
    (ks : List ℕ) (x k : ℕ) → bit (clear_bits ks x) k ≡ (not (lists ks k) && bit x k)
bit-clear_bits [] x k = refl
bit-clear_bits (j ∷ ks) x k = elim (Bool-cases (j == k)) [
  | inl e ↦
      let same : j ≡ k = ground (arith, e) in
      rw e
        (ap (λ i. bit (clear_bit (clear_bits ks x) i) k) same ∙ bit-clear_self (clear_bits ks x) k)
  | inr e ↦
      rw e (bit-clear_ne (clear_bits ks x) j k (λ z. ground (arith, e, z)) ∙ bit-clear_bits ks x k)
]
