-- ===== src/Bcm2712.antt =====
-- bcm2712.c and bcm2712_var.h: the AVS thermal sensor and the RP1 PWM1 controller of the SoC.
-- Each function runs under its mutex, so a call is one step. A window that pmap_mapdev_attr
-- returned is the function from word index to value; `avs_vaddr` and `pwm_vaddr` say that the
-- pointer is not NULL.
pub mod Thermal
pub mod Pwm
pub mod Load
use free_bsd15_rpi5_modules.Base.{
  ℕ, ◌+◌, ◌-◌, ◌*◌, ◌/◌, ◌%◌, ◌^◌, Bool, true, false, not, ◌&&◌, ◌||◌, Option, none, some, leb, ltb,
  if◌then◌else◌, u32, bit, set_bit, clear_bit, Regs, update, einval, enodev,
}

pub record PwmChannel : Type 0 where
  pub period : ℕ
  pub duty_a : ℕ
  pub duty_b : ℕ
  pub flags : ℕ
  pub enabled : Bool

pub record Softc : Type 0 where
  pub avs_vaddr : Bool
  pub avs_mapped : Bool
  pub avs_regs : Regs
  pub pwm_vaddr : Bool
  pub pwm_mapped : Bool
  pub pwm_regs : Regs
  pub channels : ℕ → PwmChannel
  pub cached_temp_mc : ℕ
  pub last_update : ℕ

abbrev pub pwm_nchannels : ℕ
pwm_nchannels = 4

-- Byte offsets over 4, as the code indexes `base[...]`.
abbrev pub temp_reg : ℕ
temp_reg = 0x200 / 4

abbrev pub global_ctrl : ℕ
global_ctrl = 0x000 / 4

abbrev pub tach_rpm : ℕ
tach_rpm = 0x03C / 4

abbrev pub chan_ctrl : ℕ → ℕ
chan_ctrl x = (0x014 + x * 16) / 4

abbrev pub range_reg : ℕ → ℕ
range_reg x = (0x018 + x * 16) / 4

abbrev pub duty_reg : ℕ → ℕ
duty_reg x = (0x020 + x * 16) / 4

-- `(BCM2712_TEMP_SLOPE * raw_code) + BCM2712_TEMP_OFFSET`: the int -550 is converted to uint32_t.
abbrev pub temp_word : ℕ → ℕ
temp_word code = u32 (u32 ((2 ^ 32 - 550) * code) + 450000)

-- `int32_t temp_mc`, clamped: a word of 2 ^ 31 or more is negative.
unfoldable pub clamp_temp : ℕ → ℕ
clamp_temp w = if leb (2 ^ 31) w then 0 else if ltb 120000 w then 120000 else w

-- bcm2712_thermal_read_raw
unfoldable pub thermal_read_raw : Softc → ℕ
unfolding clamp_temp
thermal_read_raw sc =
    if not avs_mapped || not avs_vaddr
    then cached_temp_mc
    else let raw_value = avs_regs temp_reg in
      if bit raw_value 16 then clamp_temp (temp_word (raw_value % 1024)) else cached_temp_mc
  where
    open sc use {avs_mapped, avs_vaddr, avs_regs, cached_temp_mc}

-- bcm2712_thermal_raw_to_millic
abbrev pub thermal_raw_to_millic : ℕ → ℕ
thermal_raw_to_millic temp_mc = temp_mc

-- bcm2712_thermal_update at time_uptime `now`; the callout re-arms itself.
unfoldable pub thermal_update : Softc → ℕ → Softc
thermal_update sc now =
    let raw_value = thermal_read_raw sc in
    record sc { cached_temp_mc = thermal_raw_to_millic raw_value; last_update = now }

-- bcm2712_thermal_sysctl_temp: the deciKelvin value handed to sysctl_handle_int.
unfoldable pub thermal_sysctl_temp : Softc → ℕ
thermal_sysctl_temp sc = u32 (sc.cached_temp_mc / 100 + 2731)

-- bcm2712_read_cpu_temp over the global `bcm2712_sc`; the callers pass a pointer that is not NULL.
unfoldable pub read_cpu_temp : Option Softc → Option ℕ × ℕ
read_cpu_temp none = (none, enodev)
read_cpu_temp (some sc) = (some sc.cached_temp_mc, 0)

-- `(ns + RP1_PWM_CLK_PERIOD_NS / 2) / RP1_PWM_CLK_PERIOD_NS` on u_int
unfoldable pub ticks : ℕ → ℕ
ticks ns = u32 (ns + 163 / 2) / 163

-- `&= ~0x1ffu; |= RP1_PWM_CHAN_DEFAULT | RP1_PWM_POLARITY`: the low nine bits become 0x109.
abbrev pub init_chan_ctrl : ℕ → ℕ
init_chan_ctrl v = v / 512 * 512 + 0x109

program : Softc → ℕ → ℕ → ℕ → Softc
unfolding ticks
program sc channel period_ns duty_ns =
    let r0 = sc.pwm_regs in
    let r1 = update r0 (chan_ctrl channel) (init_chan_ctrl (r0 (chan_ctrl channel))) in
    let r2 = update r1 (duty_reg channel) (ticks duty_ns) in
    let r3 = update r2 (range_reg channel) (ticks period_ns) in
    let r4 = update r3 global_ctrl (set_bit (r3 global_ctrl) 31) in
    record sc {
      pwm_regs = r4;
      channels =
          update sc.channels channel
            (record (sc.channels channel) { period = period_ns; duty_a = duty_ns });
    }

-- bcm2712_pwm_set_config
unfoldable pub pwm_set_config : Option Softc → ℕ → ℕ → ℕ → Option Softc × ℕ
unfolding program
pwm_set_config g channel period_ns duty_ns =
    if leb pwm_nchannels channel then (g, einval) else elim g [
      | none ↦ (none, enodev)
      | some sc ↦
          if sc.pwm_mapped
          then (some (program sc channel period_ns duty_ns), 0)
          else (some sc, enodev)
    ]

switch : Softc → ℕ → Bool → Softc
switch sc channel enable =
    let gctrl = sc.pwm_regs global_ctrl in
    let gctrl' = if enable then set_bit gctrl channel else clear_bit gctrl channel in
    record sc {
      pwm_regs = update sc.pwm_regs global_ctrl (set_bit gctrl' 31);
      channels = update sc.channels channel (record (sc.channels channel) { enabled = enable });
    }

-- bcm2712_pwm_enable
unfoldable pub pwm_enable : Option Softc → ℕ → Bool → Option Softc × ℕ
unfolding switch
pwm_enable g channel enable = if leb pwm_nchannels channel then (g, einval) else elim g [
  | none ↦ (none, enodev)
  | some sc ↦ if sc.pwm_mapped then (some (switch sc channel enable), 0) else (some sc, enodev)
]

-- bcm2712_read_fan_rpm
unfoldable pub read_fan_rpm : Option Softc → ℕ
read_fan_rpm none = 0
read_fan_rpm (some sc) = if sc.pwm_mapped then sc.pwm_regs tach_rpm else 0

-- bcm2712_sysctl_pwm_regs: GCTRL, CHAN_CTRL3, RANGE3 and DUTY3, or the error.
unfoldable pub sysctl_pwm_regs : Softc → Option (ℕ × ℕ × ℕ × ℕ) × ℕ
sysctl_pwm_regs sc =
    let r = sc.pwm_regs in
    if sc.pwm_mapped
    then (some (r global_ctrl, r (chan_ctrl 3), r (range_reg 3), r (duty_reg 3)), 0)
    else (none, enodev)
