-- ===== src/Bcm2712/Thermal.antt =====
-- The conversion of bcm2712_thermal_read_raw and what its readers get.
use free_bsd15_rpi5_modules.Base.{
  if◌then◌else◌, ℕ, ◌+◌, ◌-◌, ◌*◌, ◌%◌, ◌≤◌, ◌<◌, ◌≡◌, refl, true, min, arith, bit,
}
use free_bsd15_rpi5_modules.Bcm2712.{
  Softc, temp_reg, temp_word, clamp_temp, thermal_read_raw, thermal_update, thermal_sysctl_temp,
}

-- Unsigned wrap-around, the int32_t conversion and the clamp give 450000 - 550 c, kept in range.
clamp_temp-temp_word :
    (code : ℕ) → code < 1024 → clamp_temp (temp_word code) ≡ min (450000 - 550 * code) 120000
unfolding clamp_temp
clamp_temp-temp_word code h = ground arith

-- With the AVS window mapped, a reading with bit 16 set gives 450000 - 550 * code millidegrees for
-- its ten-bit code, cut off at 0 and at 120000; a reading with bit 16 clear gives the cached value.
thermal_read_raw_calibration :
    (sc : Softc)
    → sc.avs_mapped ≡ true
    → sc.avs_vaddr ≡ true
    → let raw = sc.avs_regs temp_reg in
      thermal_read_raw sc
      ≡ (if bit raw 16 then min (450000 - 550 * (raw % 1024)) 120000 else sc.cached_temp_mc)
unfolding thermal_read_raw
thermal_read_raw_calibration sc m v =
    ground (arith, clamp_temp-temp_word (sc.avs_regs temp_reg % 1024) (omega arith))

-- A hotter sensor has a smaller code: the conversion is antitone.
clamp_temp_antitone :
    (c d : ℕ) → c ≤ d → d < 1024 → clamp_temp (temp_word d) ≤ clamp_temp (temp_word c)
clamp_temp_antitone c d h k =
    omega (arith, clamp_temp-temp_word c (omega arith), clamp_temp-temp_word d k)

abbrev pub InRange : Softc → Type 0
InRange sc = sc.cached_temp_mc ≤ 120000

-- An update keeps the cached temperature at 120000 millidegrees or less, whatever the sensor reads,
-- and touches neither the PWM registers nor the channels.
pub thermal_update-InRange :
    (sc : Softc) (now : ℕ)
    → InRange sc
    → InRange (thermal_update sc now)
      × ((thermal_update sc now).pwm_regs ≡ sc.pwm_regs)
      × ((thermal_update sc now).channels ≡ sc.channels)
unfolding thermal_update thermal_read_raw
thermal_update-InRange sc now h = (ground arith, refl, refl)

-- While the cache is in range, the sysctl reports between 273.1 K and 393.1 K, in tenths, and the
-- reader of the cached value in millidegrees differs from it by less than a tenth.
thermal_sysctl_temp_bounds :
    (sc : Softc)
    → InRange sc
    → (2731 ≤ thermal_sysctl_temp sc)
      × (thermal_sysctl_temp sc ≤ 3931)
      × (100 * thermal_sysctl_temp sc ≤ sc.cached_temp_mc + 273100)
      × (sc.cached_temp_mc + 273100 < 100 * thermal_sysctl_temp sc + 100)
unfolding thermal_sysctl_temp
thermal_sysctl_temp_bounds sc h = omega arith
