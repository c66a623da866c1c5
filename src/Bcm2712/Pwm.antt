-- ===== src/Bcm2712/Pwm.antt =====
-- What bcm2712_pwm_set_config and bcm2712_pwm_enable do to the PWM1 registers.
use free_bsd15_rpi5_modules.Base.{
  ℕ, zero, suc, ◌+◌, ◌-◌, ◌*◌, ◌/◌, ◌%◌, ◌^◌, ◌≤◌, ◌<◌, ◌≡◌, ◌≢◌, ◌⊎◌, refl, ltb, Bool, true, false,
  Option, none, some, arith, bit, set_bit, clear_bit, u32, einval, enodev, if◌then◌else◌,
}
use free_bsd15_rpi5_modules.Bcm2712.{
  Softc, global_ctrl, chan_ctrl, range_reg, duty_reg, ticks, program, switch, pwm_set_config,
  pwm_enable, pwm_nchannels,
}

-- The fan's period is 255 ticks of the PWM clock, and the duty that rpi5.c derives from a speed of
-- 0 to 255 is exactly that speed in ticks.
pub ticks_speed :
    (speed : ℕ) → speed ≤ 255 → (ticks 41566 ≡ 255) × (ticks (u32 (speed * 41566) / 255) ≡ speed)
unfolding ticks
ticks_speed speed h = omega arith

-- Ticks round to the nearest multiple of 163 ns, for a time that does not wrap.
ticks_nearest :
    (ns : ℕ) → ns < 2 ^ 32 - 81 → (163 * ticks ns ≤ ns + 81) × (ns < 163 * ticks ns + 82)
unfolding ticks
ticks_nearest ns h = omega arith

-- The registers of one channel after a call, and what the call leaves alone.
pub record Programmed (sc sc' : Softc) (channel other period_ns duty_ns : ℕ) : Type 0 where
  pub range : sc'.pwm_regs (range_reg channel) ≡ ticks period_ns
  pub duty : sc'.pwm_regs (duty_reg channel) ≡ ticks duty_ns
  pub mode : sc'.pwm_regs (chan_ctrl channel) % 512 ≡ 0x109
  pub mode_kept : sc'.pwm_regs (chan_ctrl channel) / 512 ≡ sc.pwm_regs (chan_ctrl channel) / 512
  pub committed : bit (sc'.pwm_regs global_ctrl) 31 ≡ true
  pub enables_kept : sc'.pwm_regs global_ctrl % 16 ≡ sc.pwm_regs global_ctrl % 16
  pub period_stored : (sc'.channels channel).period ≡ period_ns
  pub duty_stored : (sc'.channels channel).duty_a ≡ duty_ns
  pub enabled_kept : (sc'.channels channel).enabled ≡ (sc.channels channel).enabled
  pub channel_kept : sc'.channels other ≡ sc.channels other
  pub duty_kept : sc'.pwm_regs (duty_reg other) ≡ sc.pwm_regs (duty_reg other)
  pub range_kept : sc'.pwm_regs (range_reg other) ≡ sc.pwm_regs (range_reg other)

program-Programmed :
    (sc : Softc) (channel other period_ns duty_ns : ℕ)
    → channel < 4
    → other ≢ channel
    → Programmed sc (program sc channel period_ns duty_ns) channel other period_ns duty_ns
unfolding program
program-Programmed sc channel other period_ns duty_ns h ne = record {
  range = ground arith;
  duty = ground arith;
  mode = ground arith;
  mode_kept = ground arith;
  committed = ground arith;
  enables_kept = ground arith;
  period_stored = ground arith;
  duty_stored = ground arith;
  enabled_kept = ground arith;
  channel_kept = ground arith;
  duty_kept = ground arith;
  range_kept = ground arith;
}

-- On a mapped controller and a channel below 4 the call succeeds: it sets the channel's range, duty
-- and mode and commits them, and keeps the enable bits and any other channel.
pwm_set_config_lem :
    (sc : Softc) (channel other period_ns duty_ns : ℕ)
    → channel < pwm_nchannels
    → other ≢ channel
    → sc.pwm_mapped ≡ true
    → (sc' : Softc) × (pwm_set_config (some sc) channel period_ns duty_ns ≡ (some sc', 0))
      × Programmed sc sc' channel other period_ns duty_ns
unfolding pwm_set_config
pwm_set_config_lem sc channel other period_ns duty_ns h ne m = (
  program sc channel period_ns duty_ns,
  ground arith,
  program-Programmed sc channel other period_ns duty_ns h ne,
)

-- The registers of one channel after bcm2712_pwm_enable.
pub record Switched (sc sc' : Softc) (channel other : ℕ) (enable : Bool) : Type 0 where
  pub enable_bit : bit (sc'.pwm_regs global_ctrl) channel ≡ enable
  pub committed : bit (sc'.pwm_regs global_ctrl) 31 ≡ true
  pub stored : (sc'.channels channel).enabled ≡ enable
  pub config_kept : (sc'.channels channel).period ≡ (sc.channels channel).period
  pub duty_kept : (sc'.channels channel).duty_a ≡ (sc.channels channel).duty_a
  pub other_bit : bit (sc'.pwm_regs global_ctrl) other ≡ bit (sc.pwm_regs global_ctrl) other
  pub other_kept : sc'.channels other ≡ sc.channels other
  pub duty_reg_kept : sc'.pwm_regs (duty_reg channel) ≡ sc.pwm_regs (duty_reg channel)
  pub range_reg_kept : sc'.pwm_regs (range_reg channel) ≡ sc.pwm_regs (range_reg channel)

-- The word that bcm2712_pwm_enable writes to GLOBAL_CTRL.
abbrev flipped : ℕ → ℕ → Bool → ℕ
flipped w k enable = set_bit (if enable then set_bit w k else clear_bit w k) 31

flipped_self :
    (w k : ℕ) (enable : Bool)
    → k < 4
    → (bit (flipped w k enable) k ≡ enable) × (bit (flipped w k enable) 31 ≡ true)
flipped_self w zero enable h = (ground arith, ground arith)
flipped_self w (suc zero) enable h = (ground arith, ground arith)
flipped_self w (suc (suc zero)) enable h = (ground arith, ground arith)
flipped_self w (suc (suc (suc zero))) enable h = (ground arith, ground arith)
flipped_self w (suc (suc (suc (suc k)))) enable h = absurd (omega arith)

-- Flipping one of the low four bits is the same on the other three.
flipped_other :
    (w k c : ℕ) (enable : Bool) → k < 4 → c < 4 → c ≢ k → bit (flipped w k enable) c ≡ bit w c
flipped_other w zero (suc zero) enable h l ne = ground arith
flipped_other w zero (suc (suc zero)) enable h l ne = ground arith
flipped_other w zero (suc (suc (suc zero))) enable h l ne = ground arith
flipped_other w (suc zero) zero enable h l ne = ground arith
flipped_other w (suc zero) (suc (suc zero)) enable h l ne = ground arith
flipped_other w (suc zero) (suc (suc (suc zero))) enable h l ne = ground arith
flipped_other w (suc (suc zero)) zero enable h l ne = ground arith
flipped_other w (suc (suc zero)) (suc zero) enable h l ne = ground arith
flipped_other w (suc (suc zero)) (suc (suc (suc zero))) enable h l ne = ground arith
flipped_other w (suc (suc (suc zero))) zero enable h l ne = ground arith
flipped_other w (suc (suc (suc zero))) (suc zero) enable h l ne = ground arith
flipped_other w (suc (suc (suc zero))) (suc (suc zero)) enable h l ne = ground arith
flipped_other w _ _ enable h l ne = absurd (omega arith)

switch-Switched :
    (sc : Softc) (channel other : ℕ) (enable : Bool)
    → channel < 4
    → other < 4
    → other ≢ channel
    → Switched sc (switch sc channel enable) channel other enable
unfolding switch
switch-Switched sc channel other enable h l ne = record {
  enable_bit = (flipped_self (sc.pwm_regs 0) channel enable h).0;
  committed = (flipped_self (sc.pwm_regs 0) channel enable h).1;
  stored = ground arith;
  config_kept = ground arith;
  duty_kept = ground arith;
  other_bit = flipped_other (sc.pwm_regs 0) channel other enable h l ne;
  other_kept = ground arith;
  duty_reg_kept = ground arith;
  range_reg_kept = ground arith;
}

-- On a mapped controller and a channel below 4 the call succeeds: it sets the channel's enable bit as
-- asked and commits it, and keeps the channel's configuration and another channel's enable bit.
pwm_enable_lem :
    (sc : Softc) (channel other : ℕ) (enable : Bool)
    → channel < pwm_nchannels
    → other < pwm_nchannels
    → other ≢ channel
    → sc.pwm_mapped ≡ true
    → (sc' : Softc) × (pwm_enable (some sc) channel enable ≡ (some sc', 0))
      × Switched sc sc' channel other enable
unfolding pwm_enable
pwm_enable_lem sc channel other enable h l ne m =
    (switch sc channel enable, ground arith, switch-Switched sc channel other enable h l ne)

-- There is no controller to program: the module is not loaded, or its PWM window is not mapped.
abbrev pub IsUnmapped : Option Softc → Type 0
IsUnmapped none = Unit {0}
IsUnmapped (some sc) = sc.pwm_mapped ≡ false

-- With no controller, or on a channel of 4 or more, both calls leave the state as it was and return
-- EINVAL for the channel, ENODEV otherwise.
pwm_refused :
    (g : Option Softc) (channel period_ns duty_ns : ℕ) (enable : Bool)
    → (pwm_nchannels ≤ channel) ⊎ IsUnmapped g
    → let error = if ltb channel pwm_nchannels then enodev else einval in
      (pwm_set_config g channel period_ns duty_ns ≡ (g, error))
      × (pwm_enable g channel enable ≡ (g, error))
unfolding pwm_set_config pwm_enable
pwm_refused none channel period_ns duty_ns enable h = (ground arith, ground arith)
pwm_refused (some sc) channel period_ns duty_ns enable h = (ground arith, ground arith)

-- A channel that was configured and then enabled, as the fan control does.
pub record Driven (sc' : Softc) (channel period_ns duty_ns : ℕ) (enable : Bool) : Type 0 where
  pub range : sc'.pwm_regs (range_reg channel) ≡ ticks period_ns
  pub duty : sc'.pwm_regs (duty_reg channel) ≡ ticks duty_ns
  pub mode : sc'.pwm_regs (chan_ctrl channel) % 512 ≡ 0x109
  pub enable_bit : bit (sc'.pwm_regs global_ctrl) channel ≡ enable
  pub committed : bit (sc'.pwm_regs global_ctrl) 31 ≡ true
  pub enabled_stored : (sc'.channels channel).enabled ≡ enable
  pub duty_stored : (sc'.channels channel).duty_a ≡ duty_ns
  pub still_mapped : sc'.pwm_mapped ≡ true

-- What bcm2712_pwm_set_config and then bcm2712_pwm_enable make of a mapped controller.
pub driven : Softc → ℕ → ℕ → ℕ → Bool → Softc
driven sc channel period_ns duty_ns enable =
    switch (program sc channel period_ns duty_ns) channel enable

pub driven_lem :
    (sc : Softc) (channel period_ns duty_ns : ℕ) (enable : Bool)
    → channel < 4
    → sc.pwm_mapped ≡ true
    → ((pwm_enable (pwm_set_config (some sc) channel period_ns duty_ns).0 channel enable).0
        ≡ some (driven sc channel period_ns duty_ns enable))
      × Driven (driven sc channel period_ns duty_ns enable) channel period_ns duty_ns enable
      × ((driven sc channel period_ns duty_ns enable).cached_temp_mc ≡ sc.cached_temp_mc)
unfolding pwm_enable pwm_set_config driven
driven_lem sc channel period_ns duty_ns enable h m =
    let set_up = program-Programmed sc channel (suc channel) period_ns duty_ns h (omega arith) in
    let flips =
      flipped_self ((program sc channel period_ns duty_ns).pwm_regs global_ctrl) channel enable h in
    (
      ground arith,
      record {
        range = unfold switch in ground (arith, set_up.range);
        duty = unfold switch in ground (arith, set_up.duty);
        mode = unfold switch in ground (arith, set_up.mode);
        enable_bit = flips.0;
        committed = flips.1;
        enabled_stored = unfold switch in ground arith;
        duty_stored = unfold switch in ground (arith, set_up.duty_stored);
        still_mapped = m;
      },
      refl,
    )
