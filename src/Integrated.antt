-- ===== src/Integrated.antt =====
-- rpi5_cooling_fan_integrated.c: the fan control that drives any pwmbus provider.
-- The kernel's dispatch of PWMBUS_CHANNEL_CONFIG and PWMBUS_CHANNEL_ENABLE to the provider behind
-- `pwm_dev` is a section parameter.
pub mod Levels
pub mod Unloaded
mod Tests
use free_bsd15_rpi5_modules.Base.{
  ℕ, ◌+◌, ◌-◌, ◌*◌, ◌/◌, ◌%◌, Bool, true, false, ◌&&◌, Option, none, some, leb, ltb, ◌==◌,
  if◌then◌else◌, u8, u32, sub32, eperm, eopnotsupp,
}
use free_bsd15_rpi5_modules.Fan.{CoolingFan, Slot, Request, cooling_fan, sysctl_handler}

-- The calls on a provider; each returns the provider's next state and the error.
pub record PwmBus : Type 1 where
  pub Device : Type 0
  pub config : Device → ℕ → ℕ → ℕ → Device × ℕ
  pub enable : Device → ℕ → Bool → Device × ℕ

-- rpi5_speed_to_duty: the argument is a uint8_t.
unfoldable pub speed_to_duty : ℕ → ℕ
speed_to_duty speed = u32 (41566 * u8 speed) / 255

-- The ladder of rpi5_update_fan_state; uint32_t subtraction wraps.
unfoldable pub next_state : CoolingFan → ℕ → ℕ → ℕ
next_state f temp state =
    if state == 0 && leb f.fan_temp0 temp
    then 1
    else if state == 1 && ltb temp (sub32 f.fan_temp0 f.fan_temp0_hyst)
    then 0
    else if state == 1 && leb f.fan_temp1 temp
    then 2
    else if state == 2 && ltb temp (sub32 f.fan_temp1 f.fan_temp1_hyst)
    then 1
    else if state == 2 && leb f.fan_temp2 temp
    then 3
    else if state == 3 && ltb temp (sub32 f.fan_temp2 f.fan_temp2_hyst)
    then 2
    else if state == 3 && leb f.fan_temp3 temp
    then 4
    else if state == 4 && ltb temp (sub32 f.fan_temp3 f.fan_temp3_hyst)
    then 3
    else state

-- The `switch` that picks the duty.
unfoldable pub duty_for : CoolingFan → ℕ → ℕ
duty_for f state =
    if state == 1
    then speed_to_duty f.fan_temp0_speed
    else if state == 2
    then speed_to_duty f.fan_temp1_speed
    else if state == 3
    then speed_to_duty f.fan_temp2_speed
    else if state == 4
    then speed_to_duty f.fan_temp3_speed
    else 0

module _ (bus : PwmBus) where
  open bus use {Device, config, enable}

  -- `cooling_fan` beside its `pwm_dev`.
  pub record Module : Type 0 where
    pub fan : CoolingFan
    pub pwm_dev : Option Device

  -- A change of state: configure, and on success enable at a duty above 0 and take the new state.
  pub drive : CoolingFan → Device → ℕ → Module
  drive f dev state =
      let duty = duty_for f state in
      let (dev', error) = config dev f.pwm_channel 41566 duty in
      if error == 0
      then record {
        fan = record f { fan_current_state = state };
        pwm_dev = some (if ltb 0 duty then (enable dev' f.pwm_channel true).0 else dev');
      }
      else record { fan = f; pwm_dev = some dev' }

  -- rpi5_update_fan_state
  pub update_fan_state : Module → Module
  update_fan_state m =
      let state = next_state m.fan m.fan.cpu_temp m.fan.fan_current_state in
      if state == m.fan.fan_current_state
      then m
      else elim m.pwm_dev [ none ↦ m | some dev ↦ drive m.fan dev state ]

  -- rpi5_read_cpu_temp, a stub that always reads 50000.
  abbrev pub read_cpu_temp : ℕ × ℕ
  read_cpu_temp = (50000, 0)

  -- rpi5_thermal_tick
  pub thermal_tick : Module → Module
  thermal_tick m =
      let (temp, error) = read_cpu_temp in
      update_fan_state
        (if error == 0 then record m { fan = record (m.fan) { cpu_temp = temp } } else m)

  -- The handlers write their variable; those of thresholds and speeds then update the fan, if the
  -- write was made.
  pub sysctl_fan_temp_handler : Module → Slot → Request → Module × ℕ
  sysctl_fan_temp_handler m slot req =
      let (f, error) = sysctl_handler 120000 m.fan slot req in
      let m' = record m { fan = f } in
      (if error == 0 && req.newptr then update_fan_state m' else m', error)

  pub sysctl_fan_hyst_handler : Module → Slot → Request → Module × ℕ
  sysctl_fan_hyst_handler m slot req =
      let (f, error) = sysctl_handler 10000 m.fan slot req in (record m { fan = f }, error)

  pub sysctl_fan_speed_handler : Module → Slot → Request → Module × ℕ
  sysctl_fan_speed_handler m slot req =
      let (f, error) = sysctl_handler 255 m.fan slot req in
      let m' = record m { fan = f } in
      (if error == 0 && req.newptr then update_fan_state m' else m', error)

  -- sysctl_cpu_temp_handler and sysctl_fan_state_handler: read-only.
  pub read_only : ℕ → Request → ℕ
  read_only value req =
      let (value', error) = req.handle value in if error == 0 && req.newptr then eperm else error

  pub data Event : Type 0 where
    mod_load mod_unload mod_other : Event

  -- rpi5_cooling_fan_modevent
  pub modevent : Module → Event → Module × ℕ
  modevent m mod_load =
      (record { fan = record (m.fan) { thermal_active = true }; pwm_dev = none }, 0)
  modevent m mod_unload = (
    record {
      fan = record (m.fan) { thermal_active = false };
      pwm_dev = elim m.pwm_dev [
        | none ↦ none
        | some dev ↦ some (enable dev m.fan.pwm_channel false).0
      ];
    },
    0,
  )
  modevent m mod_other = (m, eopnotsupp)
