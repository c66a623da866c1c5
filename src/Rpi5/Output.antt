-- ===== src/Rpi5/Output.antt =====
-- What a tick of rpi5.c makes of the PWM1 registers.
use free_bsd15_rpi5_modules.Base.{ℕ, ◌≤◌, ◌<◌, ◌≡◌, refl, true, Option, some, arith, bit, ◌%◌, ◌∙◌}
use free_bsd15_rpi5_modules.Fan.{CoolingFan}
use free_bsd15_rpi5_modules.Bcm2712.{
  Softc, global_ctrl, range_reg, duty_reg, chan_ctrl, read_cpu_temp,
}
use free_bsd15_rpi5_modules.Bcm2712.Pwm.{ticks_speed, driven, driven_lem}
use free_bsd15_rpi5_modules.Rpi5.{
  Board, new_state, record_state, speed_of, duty_of, drive, update_fan_state, thermal_tick,
  modevent, mod_load,
}

-- The limits that sysctl_speed_handler states for the four speeds.
pub record SpeedsFit (f : CoolingFan) : Type 0 where
  pub speed0 : f.fan_temp0_speed ≤ 255
  pub speed1 : f.fan_temp1_speed ≤ 255
  pub speed2 : f.fan_temp2_speed ≤ 255
  pub speed3 : f.fan_temp3_speed ≤ 255

speed_of_le : (f : CoolingFan) (n : ℕ) → SpeedsFit f → speed_of f n ≤ 255
unfolding speed_of
speed_of_le f n h = ground arith

-- The registers of the fan's channel at a duty of `speed` ticks of 255.
pub record Blows (soc : Option Softc) (channel speed : ℕ) : Type 0 where
  pub softc : Softc
  pub is_soc : soc ≡ some softc
  pub mapped : softc.pwm_mapped ≡ true
  pub range : softc.pwm_regs (range_reg channel) ≡ 255
  pub duty : softc.pwm_regs (duty_reg channel) ≡ speed
  pub mode : softc.pwm_regs (chan_ctrl channel) % 512 ≡ 0x109
  pub enabled : bit (softc.pwm_regs global_ctrl) channel ≡ true
  pub committed : bit (softc.pwm_regs global_ctrl) 31 ≡ true

drive-Blows :
    (sc : Softc) (channel speed : ℕ)
    → channel < 4
    → sc.pwm_mapped ≡ true
    → speed ≤ 255
    → Blows (drive (some sc) channel (duty_of speed) true) channel speed
unfolding duty_of
drive-Blows sc channel speed h m le =
    let (is_soc, d, _) = driven_lem sc channel 41566 (duty_of speed) true h m in
    let (full, exact) = ticks_speed speed le in
    record {
      softc = driven sc channel 41566 (duty_of speed) true;
      is_soc = is_soc;
      mapped = d.still_mapped;
      range = d.range ∙ full;
      duty = d.duty ∙ exact;
      mode = d.mode;
      enabled = d.enable_bit;
      committed = d.committed;
    }

speed_of-record_state :
    (f : CoolingFan) (n k : ℕ)
    → (speed_of (record_state f n) k ≡ speed_of f k)
      × ((record_state f n).fan_current_state ≡ n)
      × ((record_state f n).pwm_channel ≡ f.pwm_channel)
unfolding speed_of
speed_of-record_state f n k = (ground arith, ground arith, ground arith)

abbrev pub board : CoolingFan → Softc → Board
board f sc = record { fan = f; soc = some sc }

update-Blows :
    (f : CoolingFan) (sc : Softc)
    → sc.pwm_mapped ≡ true
    → f.pwm_channel < 4
    → SpeedsFit f
    → ((update_fan_state (board f sc)).fan ≡ record_state f (new_state f))
      × Blows (update_fan_state (board f sc)).soc f.pwm_channel (speed_of f (new_state f))
unfolding update_fan_state
update-Blows f sc m h fit =
    let (speed, state, channel) = speed_of-record_state f (new_state f) (new_state f) in
    (
      refl,
      rw (channel, state, speed)
          (drive-Blows sc f.pwm_channel (speed_of f (new_state f)) h m
            (speed_of_le f (new_state f) fit)),
    )

-- A tick with the controller mapped, the fan on a channel below 4 and speeds of 255 or less: the
-- fan's record is the one that the chosen state gives at the sensor's cached temperature, and the
-- fan's channel is on, at as many of 255 ticks as the speed of that state.
pub thermal_tick-Blows :
    (f : CoolingFan) (sc : Softc)
    → sc.pwm_mapped ≡ true
    → f.pwm_channel < 4
    → SpeedsFit f
    → let f' = record f { cpu_temp = sc.cached_temp_mc } in
      ((thermal_tick (board f sc)).fan ≡ record_state f' (new_state f'))
      × Blows (thermal_tick (board f sc)).soc f.pwm_channel (speed_of f (new_state f'))
unfolding thermal_tick read_cpu_temp speed_of
thermal_tick-Blows f sc m h fit =
    let f' : CoolingFan = record f { cpu_temp = sc.cached_temp_mc } in
    let fit' : SpeedsFit f' = omega (arith, fit) in update-Blows f' sc m h fit'

-- Loading rpi5 asserts fan-off before the first tick: the channel is on, inverted, at no duty.
modevent-Blows :
    (f : CoolingFan) (sc : Softc)
    → sc.pwm_mapped ≡ true
    → f.pwm_channel < 4
    → ((modevent (board f sc) mod_load).0.fan.thermal_active ≡ true)
      × Blows (modevent (board f sc) mod_load).0.soc f.pwm_channel 0
unfolding modevent duty_of
modevent-Blows f sc m h = (refl, drive-Blows sc f.pwm_channel 0 h m (omega arith))
