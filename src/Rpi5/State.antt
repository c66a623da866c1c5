-- ===== src/Rpi5/State.antt =====
-- The state that rpi5_update_fan_state chooses.
use free_bsd15_rpi5_modules.Base.{ℕ, ◌≤◌, ◌<◌, ◌≡◌, leb, ◌==◌, if◌then◌else◌, arith}
use free_bsd15_rpi5_modules.Fan.{CoolingFan}
use free_bsd15_rpi5_modules.Rpi5.{new_state}

-- Words of 32 bits, and no hysteresis above its threshold, so that no subtraction wraps.
pub record IsTuned (f : CoolingFan) : Type 0 where
  pub word0 : f.fan_temp0 < 4294967296
  pub word1 : f.fan_temp1 < 4294967296
  pub word2 : f.fan_temp2 < 4294967296
  pub fits0 : f.fan_temp0_hyst ≤ f.fan_temp0
  pub fits1 : f.fan_temp1_hyst ≤ f.fan_temp1
  pub fits2 : f.fan_temp2_hyst ≤ f.fan_temp2

-- The level of a temperature by the four thresholds alone.
abbrev pub level : CoolingFan → ℕ → ℕ
level f t =
    if leb f.fan_temp3 t
    then 4
    else if leb f.fan_temp2 t
    then 3
    else if leb f.fan_temp1 t
    then 2
    else if leb f.fan_temp0 t
    then 1
    else 0

-- Where thresholds are 32-bit words and none is below its hysteresis, the state depends on the
-- temperature and the thresholds alone: neither the hysteresis values nor the previous state have
-- an effect.
pub new_state-eq-level : (f : CoolingFan) → IsTuned f → new_state f ≡ level f f.cpu_temp
unfolding new_state
new_state-eq-level f t = ground arith

level_mono : (f : CoolingFan) (s t : ℕ) → s ≤ t → level f s ≤ level f t
level_mono f s t h = ground arith

-- So a hotter reading never gives a lower state.
new_state_mono :
    (f : CoolingFan) (t : ℕ)
    → IsTuned f
    → f.cpu_temp ≤ t
    → new_state f ≤ new_state (record f { cpu_temp = t })
new_state_mono f t tuned h =
    let hot : IsTuned (record f { cpu_temp = t }) = omega arith in
    rw (new_state-eq-level f tuned, new_state-eq-level (record f { cpu_temp = t }) hot)
      (level_mono f f.cpu_temp t h)

-- Whatever the tunables are, the state is at most 4, the maximum exactly from the top threshold on, and
-- never above what the thresholds alone give.
pub new_state_bounds :
    (f : CoolingFan)
    → (new_state f ≤ level f f.cpu_temp)
      × (level f f.cpu_temp ≤ 4)
      × ((new_state f == 4) ≡ leb f.fan_temp3 f.cpu_temp)
unfolding new_state
new_state_bounds f = (ground arith, ground arith, ground arith)

-- A hysteresis above the threshold of level 3 wraps, and a fan whose previous state was 3 or
-- more, at a temperature of at most 120000 between the thresholds of levels 3 and 4, leaves level
-- 3 although it is hot enough, the hysteresis being 120000 or less.
new_state_wraps :
    (f : CoolingFan)
    → f.fan_temp2 < f.fan_temp2_hyst
    → f.fan_temp2_hyst ≤ 120000
    → 3 ≤ f.fan_prev_state
    → f.fan_temp2 ≤ f.cpu_temp
    → f.cpu_temp < f.fan_temp3
    → f.cpu_temp ≤ 120000
    → new_state f < 3
unfolding new_state
new_state_wraps f a b c d e h = ground arith
