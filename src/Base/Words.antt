-- ===== src/Base/Words.antt =====
-- C's unsigned words as native numbers, single bits of a word, and register windows.
-- `x & (1 << k)`, `x | (1 << k)` and `x & ~(1 << k)` are `bit`, `set_bit` and `clear_bit`; a mask of
-- the low k bits is `% 2 ^ k`, a right shift is a division.
use native.Mathlib.Omega.{arith}
use mathlib.Core.Path.{◌≡◌}
use mathlib.Core.Logic.{◌≢◌}
use Prim.Native.Nat.{ℕ, ◌+◌, ◌-◌, ◌/◌, ◌%◌, ◌^◌}
use mathlib.Core.Bool.{Bool}
use free_bsd15_rpi5_modules.Base.Tests.{◌==◌, if◌then◌else◌}

abbrev pub u8 : ℕ → ℕ
u8 n = n % 256

abbrev pub u16 : ℕ → ℕ
u16 n = n % 65536

abbrev pub u32 : ℕ → ℕ
u32 n = n % 4294967296

abbrev pub u64 : ℕ → ℕ
u64 n = n % 18446744073709551616

-- `a - b` on uint32_t, for a and b below 2 ^ 32.
abbrev pub sub32 : ℕ → ℕ → ℕ
sub32 a b = (a + 4294967296 - b) % 4294967296

-- `a - b` on a 64-bit size_t.
abbrev pub sub64 : ℕ → ℕ → ℕ
sub64 a b = (a + 2 ^ 64 - b) % 2 ^ 64

abbrev pub bit : ℕ → ℕ → Bool
bit x k = x / 2 ^ k % 2 == 1

abbrev pub set_bit : ℕ → ℕ → ℕ
set_bit x k = if bit x k then x else x + 2 ^ k

abbrev pub clear_bit : ℕ → ℕ → ℕ
clear_bit x k = if bit x k then x - 2 ^ k else x

-- A window of memory-mapped registers.
abbrev pub Regs : Type 0
Regs = ℕ → ℕ

abbrev pub update {ℓ} : {A : Type ℓ} → (ℕ → A) → ℕ → A → ℕ → A
update r a v x = if x == a then v else r x

module _ {ℓ} {A : Type ℓ} where
  pub update_self : (r : ℕ → A) (a : ℕ) (v : A) (j : ℕ) → j ≡ a → update r a v j ≡ v
  update_self r a v j e = ground arith

  pub update_ne : (r : ℕ → A) (a : ℕ) (v : A) (j : ℕ) → j ≢ a → update r a v j ≡ r j
  update_ne r a v j n = ground arith
