-- ===== src/Rpi5/Tests.antt =====
-- Runs of the fan control, and the properties at concrete boards.
use free_bsd15_rpi5_modules.Base.{
  ◌≡◌, refl, true, none, some, arith, Regs, ◌+◌, if◌then◌else◌, ◌==◌,
}
use free_bsd15_rpi5_modules.Fan.{CoolingFan, Request, cooling_fan}
use free_bsd15_rpi5_modules.Bcm2712.{Softc, thermal_read_raw, temp_reg}
use free_bsd15_rpi5_modules.Bcm2712.Load
use free_bsd15_rpi5_modules.Bcm2712.Load.{
  Maps, Loaded, IsReady, load_outcome, fresh_softc, clk_setup, gpio_mux, routes_fan, load,
  clk_pwm1_ctrl, clk_pwm1_div_int, clk_pwm1_div_frac, gpio_ctrl_offset, gpio_fan_pin,
}
use free_bsd15_rpi5_modules.Rpi5.{new_state, record_state, speed_of, thermal_tick}
use free_bsd15_rpi5_modules.Rpi5.State.{new_state-eq-level}
use free_bsd15_rpi5_modules.Rpi5.Output.{board, Blows, thermal_tick-Blows}
use free_bsd15_rpi5_modules.Rpi5.Reach.{Inv, here, next, tick, support, initial, Reach-Inv}

-- Code 700, valid: 450000 - 385000.
abbrev warm : Regs
warm r = if r == temp_reg then 65536 + 700 else 0

abbrev silent : Regs
silent r = 0

abbrev soc : Softc
soc = fresh_softc warm silent

reads_65_degrees : thermal_read_raw soc ≡ 65000
unfolding thermal_read_raw
reads_65_degrees = refl

-- A temperature between two thresholds, coming down from level 3.
abbrev warm_fan : CoolingFan
warm_fan = record cooling_fan { cpu_temp = 65000; fan_current_state = 3; fan_prev_state = 4 }

new_state-eq-level_example : new_state warm_fan ≡ 2
new_state-eq-level_example = new_state-eq-level warm_fan (omega arith)

-- The level-3 threshold set below its hysteresis.
abbrev mistuned_fan : CoolingFan
mistuned_fan = record warm_fan {
  fan_temp2 = 4000;
  fan_temp2_hyst = 5000;
  fan_temp1 = 70000;
  fan_temp0 = 70000;
}

thermal_tick-Blows_example :
    ((thermal_tick (board cooling_fan soc)).fan ≡ record_state cooling_fan (new_state cooling_fan))
    × Blows
        (thermal_tick (board cooling_fan soc)).soc
        3
        (speed_of cooling_fan (new_state cooling_fan))
thermal_tick-Blows_example = thermal_tick-Blows cooling_fan soc refl (omega arith) (omega arith)

maps : Maps
maps = record { avs = some warm; pwm = some silent; clk = none; gpio = none }

Reach-Inv_example :
    Inv (thermal_tick (record initial { soc = (Load.modevent none Load.mod_load maps).softc }))
Reach-Inv_example = Reach-Inv (next (next here (support initial Load.mod_load maps)) (tick _))

-- The kernel hands over 200.
abbrev asks_200 : Request
asks_200 = record { handle = λ old. (200, 0); newptr = true }
