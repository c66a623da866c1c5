-- ===== src/Fan.antt =====
-- The cooling fan's variables, which rpi5.c and rpi5_cooling_fan_integrated.c both declare, and the
-- body that their sysctl handlers share.
pub mod Laws
use free_bsd15_rpi5_modules.Base.{ℕ, Bool, true, false, not, ◌||◌, ltb, ◌==◌, if◌then◌else◌, einval}

-- `struct rpi5_cooling_fan`, without the mutex, the callout and the unused `pwm_dev`.
pub record CoolingFan : Type 0 where
  pub pwm_channel : ℕ
  pub fan_temp0 : ℕ
  pub fan_temp1 : ℕ
  pub fan_temp2 : ℕ
  pub fan_temp3 : ℕ
  pub fan_temp0_hyst : ℕ
  pub fan_temp1_hyst : ℕ
  pub fan_temp2_hyst : ℕ
  pub fan_temp3_hyst : ℕ
  pub fan_temp0_speed : ℕ
  pub fan_temp1_speed : ℕ
  pub fan_temp2_speed : ℕ
  pub fan_temp3_speed : ℕ
  pub fan_current_state : ℕ
  pub fan_prev_state : ℕ
  pub cpu_temp : ℕ
  pub thermal_active : Bool

abbrev pub cooling_fan : CoolingFan
cooling_fan = record {
  pwm_channel = 3;
  fan_temp0 = 50000;
  fan_temp1 = 60000;
  fan_temp2 = 67500;
  fan_temp3 = 75000;
  fan_temp0_hyst = 5000;
  fan_temp1_hyst = 5000;
  fan_temp2_hyst = 5000;
  fan_temp3_hyst = 5000;
  fan_temp0_speed = 75;
  fan_temp1_speed = 125;
  fan_temp2_speed = 175;
  fan_temp3_speed = 250;
  fan_current_state = 0;
  fan_prev_state = 0;
  cpu_temp = 50000;
  thermal_active = false;
}

-- The variable that a handler's `arg1` points to.
pub data Slot : Type 0 where
  temp0 temp1 temp2 temp3 hyst0 hyst1 hyst2 hyst3 speed0 speed1 speed2 speed3 : Slot

unfoldable pub read_slot : CoolingFan → Slot → ℕ
read_slot f temp0 = f.fan_temp0
read_slot f temp1 = f.fan_temp1
read_slot f temp2 = f.fan_temp2
read_slot f temp3 = f.fan_temp3
read_slot f hyst0 = f.fan_temp0_hyst
read_slot f hyst1 = f.fan_temp1_hyst
read_slot f hyst2 = f.fan_temp2_hyst
read_slot f hyst3 = f.fan_temp3_hyst
read_slot f speed0 = f.fan_temp0_speed
read_slot f speed1 = f.fan_temp1_speed
read_slot f speed2 = f.fan_temp2_speed
read_slot f speed3 = f.fan_temp3_speed

unfoldable pub write_slot : CoolingFan → Slot → ℕ → CoolingFan
write_slot f temp0 v = record f { fan_temp0 = v }
write_slot f temp1 v = record f { fan_temp1 = v }
write_slot f temp2 v = record f { fan_temp2 = v }
write_slot f temp3 v = record f { fan_temp3 = v }
write_slot f hyst0 v = record f { fan_temp0_hyst = v }
write_slot f hyst1 v = record f { fan_temp1_hyst = v }
write_slot f hyst2 v = record f { fan_temp2_hyst = v }
write_slot f hyst3 v = record f { fan_temp3_hyst = v }
write_slot f speed0 v = record f { fan_temp0_speed = v }
write_slot f speed1 v = record f { fan_temp1_speed = v }
write_slot f speed2 v = record f { fan_temp2_speed = v }
write_slot f speed3 v = record f { fan_temp3_speed = v }

-- A sysctl request as the kernel's sysctl_handle_32 serves it: from the value in the local variable,
-- the value that stands there afterwards and the error; and whether a new value was given.
pub record Request : Type 0 where
  pub handle : ℕ → ℕ × ℕ
  pub newptr : Bool

-- Read, let the kernel copy, check the limit, write back.
unfoldable pub sysctl_handler : ℕ → CoolingFan → Slot → Request → CoolingFan × ℕ
unfolding read_slot write_slot
sysctl_handler limit f slot req =
    let (value, error) = req.handle (read_slot f slot) in
    if not (error == 0) || not req.newptr
    then (f, error)
    else if ltb limit value
    then (f, einval)
    else (write_slot f slot value, 0)
