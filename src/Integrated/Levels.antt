-- ===== src/Integrated/Levels.antt =====
-- The state ladder of rpi5_update_fan_state: one level at a time, with hysteresis, and it settles.
use free_bsd15_rpi5_modules.Base.{
  ℕ, zero, suc, ◌+◌, ◌≤◌, ◌<◌, ◌≡◌, ◌⊎◌, inr, arith, ◌==◌, if◌then◌else◌,
}
use native.Mathlib.Decide.{dec_le}
use free_bsd15_rpi5_modules.Fan.{CoolingFan}
use free_bsd15_rpi5_modules.Integrated.{next_state, speed_to_duty}

-- What the handlers admit, kept below the thresholds so that no subtraction wraps.
pub record IsTuned (f : CoolingFan) : Type 0 where
  pub word0 : f.fan_temp0 < 4294967296
  pub word1 : f.fan_temp1 < 4294967296
  pub word2 : f.fan_temp2 < 4294967296
  pub word3 : f.fan_temp3 < 4294967296
  pub fits0 : f.fan_temp0_hyst ≤ f.fan_temp0
  pub fits1 : f.fan_temp1_hyst ≤ f.fan_temp1
  pub fits2 : f.fan_temp2_hyst ≤ f.fan_temp2
  pub fits3 : f.fan_temp3_hyst ≤ f.fan_temp3

-- From a level of 0 to 4, an update moves by at most one level, and never past 4.
next_state_one_level :
    (f : CoolingFan) (temp state : ℕ)
    → state ≤ 4
    → (next_state f temp state ≤ 4)
      × (next_state f temp state ≤ state + 1)
      × (state ≤ next_state f temp state + 1)
unfolding next_state
next_state_one_level f temp zero h = (ground arith, ground arith, ground arith)
next_state_one_level f temp (suc zero) h = (ground arith, ground arith, ground arith)
next_state_one_level f temp (suc (suc zero)) h = (ground arith, ground arith, ground arith)
next_state_one_level f temp (suc (suc (suc zero))) h = (ground arith, ground arith, ground arith)
next_state_one_level f temp (suc (suc (suc (suc zero)))) h =
    (ground arith, ground arith, ground arith)
next_state_one_level f temp (suc (suc (suc (suc (suc n))))) h = absurd (omega arith)

-- The threshold to leave a level upwards, and the hysteresis on the way back.
unfoldable pub up_at : CoolingFan → ℕ → ℕ
up_at f state =
    if state == 0
    then f.fan_temp0
    else if state == 1
    then f.fan_temp1
    else if state == 2
    then f.fan_temp2
    else f.fan_temp3

unfoldable pub band : CoolingFan → ℕ → ℕ
band f state =
    if state == 0
    then f.fan_temp0_hyst
    else if state == 1
    then f.fan_temp1_hyst
    else if state == 2
    then f.fan_temp2_hyst
    else f.fan_temp3_hyst

-- Hysteresis: where thresholds are 32-bit words and none is below its hysteresis, a fan that went
-- up from a level below 4 does not come back to it at a later temperature that is less than the
-- hysteresis below the threshold that it passed.
pub next_state_hysteresis :
    (f : CoolingFan) (state temp later : ℕ)
    → IsTuned f
    → state < 4
    → next_state f temp state ≡ state + 1
    → up_at f state ≤ later + band f state
    → state + 1 ≤ next_state f later (state + 1)
unfolding next_state up_at band
next_state_hysteresis f zero temp later t h up stay = ground arith
next_state_hysteresis f (suc zero) temp later t h up stay = ground arith
next_state_hysteresis f (suc (suc zero)) temp later t h up stay = ground arith
next_state_hysteresis f (suc (suc (suc zero))) temp later t h up stay = ground arith
next_state_hysteresis f (suc (suc (suc (suc n)))) temp later t h up stay = absurd (omega arith)

-- A reading that makes the fan rise never makes it fall at the next update, nor the other way round.
rising_kept :
    (f : CoolingFan) (temp state : ℕ)
    → IsTuned f
    → state ≤ 4
    → state ≤ next_state f temp state
    → next_state f temp state ≤ next_state f temp (next_state f temp state)
unfolding next_state
rising_kept f temp zero t h r = ground arith
rising_kept f temp (suc zero) t h r = ground arith
rising_kept f temp (suc (suc zero)) t h r = ground arith
rising_kept f temp (suc (suc (suc zero))) t h r = ground arith
rising_kept f temp (suc (suc (suc (suc zero)))) t h r = ground arith
rising_kept f temp (suc (suc (suc (suc (suc n))))) t h r = absurd (omega arith)

falling_kept :
    (f : CoolingFan) (temp state : ℕ)
    → IsTuned f
    → state ≤ 4
    → next_state f temp state ≤ state
    → next_state f temp (next_state f temp state) ≤ next_state f temp state
unfolding next_state
falling_kept f temp zero t h r = ground arith
falling_kept f temp (suc zero) t h r = ground arith
falling_kept f temp (suc (suc zero)) t h r = ground arith
falling_kept f temp (suc (suc (suc zero))) t h r = ground arith
falling_kept f temp (suc (suc (suc (suc zero)))) t h r = ground arith
falling_kept f temp (suc (suc (suc (suc (suc n))))) t h r = absurd (omega arith)

-- The state after `k` updates at one temperature.
unfoldable pub updates : CoolingFan → ℕ → ℕ → ℕ → ℕ
updates f temp zero state = state
updates f temp (suc k) state = next_state f temp (updates f temp k state)

module _ (f : CoolingFan) (temp : ℕ) (t : IsTuned f) where
  abbrev IsFixed : ℕ → Type 0
  IsFixed s = next_state f temp s ≡ s

  climb :
      (k state : ℕ)
      → state ≤ 4
      → state ≤ next_state f temp state
      → let s = updates f temp k state in
        (s ≤ 4) × (s ≤ next_state f temp s) × (IsFixed s ⊎ (state + k ≤ s))
  unfolding updates
  climb zero state h r = (h, r, inr (omega arith))
  climb (suc k) state h r =
      let (le, rises, far) = climb k state h r in
      let s = updates f temp k state in
      ground (arith, rising_kept f temp s t le rises, next_state_one_level f temp s le)

  descend :
      (k state : ℕ)
      → state ≤ 4
      → next_state f temp state ≤ state
      → let s = updates f temp k state in
        (s ≤ 4) × (next_state f temp s ≤ s) × (IsFixed s ⊎ (s + k ≤ state))
  unfolding updates
  descend zero state h r = (h, r, inr (omega arith))
  descend (suc k) state h r =
      let (le, falls, far) = descend k state h r in
      let s = updates f temp k state in
      ground (arith, falling_kept f temp s t le falls, next_state_one_level f temp s le)

  -- Where thresholds are 32-bit words and none is below its hysteresis, at a constant temperature the
  -- state settles within four updates, from any level of 0 to 4.
  pub next_state_settles :
      (state : ℕ) → state ≤ 4 → next_state f temp (updates f temp 4 state) ≡ updates f temp 4 state
  next_state_settles state h = elim (dec_le state (next_state f temp state)) [
    | yes r ↦
        ground (arith, climb 4 state h r, next_state_one_level f temp (updates f temp 4 state))
    | no r ↦ ground (
      arith,
      descend 4 state h (omega arith),
      next_state_one_level f temp (updates f temp 4 state),
    )
  ]

-- The duty never exceeds the period, and a larger speed gives a larger or equal duty.
speed_to_duty_bounds :
    (a b : ℕ) → a ≤ b → b ≤ 255 → (speed_to_duty a ≤ speed_to_duty b) × (speed_to_duty b ≤ 41566)
unfolding speed_to_duty
speed_to_duty_bounds a b h l = omega arith
