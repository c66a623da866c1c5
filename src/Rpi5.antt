-- ===== src/Rpi5.antt =====
-- rpi5.c: the thermal control of the cooling fan, over the calls of bcm2712.c.
-- The callout and the sysctls hold `cooling_fan.mtx`, so a call is one step.
pub mod State
pub mod Output
pub mod Reach
mod Tests
use free_bsd15_rpi5_modules.Base.{
  ℕ, ◌+◌, ◌-◌, ◌*◌, ◌/◌, Bool, true, false, ◌&&◌, ◌||◌, Option, none, some, leb, ltb, ◌==◌,
  if◌then◌else◌, u32, sub32, einval, eopnotsupp,
}
use free_bsd15_rpi5_modules.Fan.{CoolingFan, Slot, Request, write_slot, sysctl_handler}
use free_bsd15_rpi5_modules.Bcm2712
use free_bsd15_rpi5_modules.Bcm2712.{Softc}

-- The fan's state beside the global `bcm2712_sc` that its calls go to.
pub record Board : Type 0 where
  pub fan : CoolingFan
  pub soc : Option Softc

-- The ladder of rpi5_update_fan_state that picks `new_state`; uint32_t subtraction wraps.
unfoldable pub new_state : CoolingFan → ℕ
new_state f =
    if leb fan_temp3 temp
    then 4
    else if leb fan_temp2 temp && (ltb prev 3 || leb (sub32 fan_temp2 fan_temp2_hyst) temp)
    then 3
    else if leb fan_temp1 temp && (ltb prev 2 || leb (sub32 fan_temp1 fan_temp1_hyst) temp)
    then 2
    else if leb fan_temp0 temp && (prev == 0 || leb (sub32 fan_temp0 fan_temp0_hyst) temp)
    then 1
    else 0
  where
    open f use {
      cpu_temp as temp, fan_prev_state as prev, fan_temp0, fan_temp1, fan_temp2, fan_temp3,
      fan_temp0_hyst, fan_temp1_hyst, fan_temp2_hyst,
    }

-- `if (new_state != cooling_fan.fan_current_state)`
abbrev pub record_state : CoolingFan → ℕ → CoolingFan
record_state f n =
    if n == f.fan_current_state
    then f
    else record f { fan_prev_state = f.fan_current_state; fan_current_state = n }

-- The `switch` on the state; `default` is the idle speed.
unfoldable pub speed_of : CoolingFan → ℕ → ℕ
speed_of f state =
    if state == 0
    then f.fan_temp0_speed
    else if state == 1
    then f.fan_temp1_speed
    else if state == 2
    then f.fan_temp2_speed
    else if state == 3
    then f.fan_temp3_speed
    else if state == 4
    then f.fan_temp3_speed
    else f.fan_temp0_speed

-- `(speed * period) / 255`; uint32_t arithmetic, since `speed` is unsigned.
unfoldable pub duty_of : ℕ → ℕ
duty_of speed = u32 (speed * 41566) / 255

-- bcm2712_pwm_set_config and bcm2712_pwm_enable, one after the other; their results are ignored.
abbrev pub drive : Option Softc → ℕ → ℕ → Bool → Option Softc
drive soc channel duty enable =
    (Bcm2712.pwm_enable (Bcm2712.pwm_set_config soc channel 41566 duty).0 channel enable).0

-- rpi5_update_fan_state
unfoldable pub update_fan_state : Board → Board
update_fan_state b =
    let f = record_state b.fan (new_state b.fan) in
    record {
      fan = f;
      soc = drive b.soc f.pwm_channel (duty_of (speed_of f f.fan_current_state)) true;
    }

-- rpi5_thermal_tick: on an error of bcm2712_read_cpu_temp the last reading stays.
unfoldable pub thermal_tick : Board → Board
thermal_tick b = elim (Bcm2712.read_cpu_temp b.soc).0 [
  | none ↦ update_fan_state b
  | some temp ↦ update_fan_state (record b { fan = record (b.fan) { cpu_temp = temp } })
]

pub data Event : Type 0 where
  mod_load mod_unload mod_other : Event

-- rpi5_modevent; rpi5_check_bcm2712 always returns 0.
unfoldable pub modevent : Board → Event → Board × ℕ
modevent b mod_load = (
  record {
    fan = record (b.fan) { thermal_active = true };
    soc = drive b.soc b.fan.pwm_channel 0 true;
  },
  0,
)
modevent b mod_unload = (
  record {
    fan = record (b.fan) { thermal_active = false };
    soc = (Bcm2712.pwm_enable b.soc b.fan.pwm_channel false).0;
  },
  0,
)
modevent b mod_other = (b, eopnotsupp)

-- The three handlers that rpi5.c defines for its tunables. The tree that MOD_LOAD builds does not use
-- them: it registers the variables by SYSCTL_ADD_UINT, which is `tune`.
unfoldable pub sysctl_temp_handler : Board → Slot → Request → Board × ℕ
sysctl_temp_handler b slot req =
    let (f, error) = sysctl_handler 120000 b.fan slot req in (record b { fan = f }, error)

unfoldable pub sysctl_hyst_handler : Board → Slot → Request → Board × ℕ
sysctl_hyst_handler b slot req =
    let (f, error) = sysctl_handler 10000 b.fan slot req in (record b { fan = f }, error)

unfoldable pub sysctl_speed_handler : Board → Slot → Request → Board × ℕ
sysctl_speed_handler b slot req =
    let (f, error) = sysctl_handler 255 b.fan slot req in (record b { fan = f }, error)

-- A write to a variable registered by SYSCTL_ADD_UINT: the word as it comes.
unfoldable pub tune : Board → Slot → ℕ → Board
tune b slot value = record b { fan = write_slot b.fan slot (u32 value) }
