-- ===== src/Integrated/Tests.antt =====
-- The properties of the integrated fan control at concrete values.
use free_bsd15_rpi5_modules.Base.{◌≤◌, ◌≡◌, refl, true, List, [], ◌∷◌, arith}
use free_bsd15_rpi5_modules.Fan.{Request, cooling_fan, temp0}
use free_bsd15_rpi5_modules.Rp1Pwm.{Softc, channel_config, channel_enable}
use free_bsd15_rpi5_modules.Integrated
use free_bsd15_rpi5_modules.Integrated.{PwmBus, next_state}
use free_bsd15_rpi5_modules.Integrated.Levels.{next_state_hysteresis, updates, up_at, band}
use free_bsd15_rpi5_modules.Integrated.Unloaded.{
  Call, IsIdle, ticks, sets_temp, events, run, initial, never_drives,
}

climbs : updates cooling_fan 80000 4 0 ≡ 4
unfolding updates next_state
climbs = refl

next_state_hysteresis_example : 2 ≤ next_state cooling_fan 57000 2
next_state_hysteresis_example =
    next_state_hysteresis cooling_fan 1 62000 57000 (omega arith) (omega arith)
      (unfold next_state in refl) (unfold up_at band in omega arith)

abbrev asks_40000 : Request
asks_40000 = record { handle = λ old. (40000, 0); newptr = true }

-- The bus as rp1_pwm_driver.c provides it.
abbrev rp1_bus : PwmBus
rp1_bus = record { Device = Softc; config = channel_config; enable = channel_enable }

abbrev calls : List (Call rp1_bus)
calls =
    events Integrated.mod_load
    ∷ ticks
    ∷ sets_temp temp0 asks_40000
    ∷ ticks
    ∷ events Integrated.mod_unload
    ∷ []

never_drives_example : IsIdle rp1_bus (run rp1_bus (initial rp1_bus) calls)
never_drives_example = never_drives rp1_bus calls
