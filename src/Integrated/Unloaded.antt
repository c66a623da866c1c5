-- ===== src/Integrated/Unloaded.antt =====
-- Nothing in rpi5_cooling_fan_integrated.c ever sets `pwm_dev`: MOD_LOAD sets it to NULL "to be
-- discovered at runtime", and the thread's search for it is an empty block.
use free_bsd15_rpi5_modules.Base.{ℕ, ◌≡◌, refl, none, List, [], ◌∷◌, arith}
use free_bsd15_rpi5_modules.Fan.{Slot, Request, cooling_fan, sysctl_handler}
use free_bsd15_rpi5_modules.Fan.Laws.{sysctl_handler-Controls}
use free_bsd15_rpi5_modules.Integrated
use free_bsd15_rpi5_modules.Integrated.{
  PwmBus, Module, update_fan_state, thermal_tick, sysctl_fan_temp_handler, sysctl_fan_hyst_handler,
  sysctl_fan_speed_handler, modevent, next_state, drive,
}

module _ (bus : PwmBus) where
  -- What can happen to the module.
  pub data Call : Type 0 where
    ticks : Call
    sets_temp sets_hyst sets_speed : Slot → Request → Call
    events : Integrated.Event bus → Call

  pub step : Module bus → Call → Module bus
  step m ticks = thermal_tick bus m
  step m (sets_temp slot req) = (sysctl_fan_temp_handler bus m slot req).0
  step m (sets_hyst slot req) = (sysctl_fan_hyst_handler bus m slot req).0
  step m (sets_speed slot req) = (sysctl_fan_speed_handler bus m slot req).0
  step m (events e) = (modevent bus m e).0

  pub run : Module bus → List Call → Module bus
  run m [] = m
  run m (c ∷ cs) = run (step m c) cs

  abbrev pub initial : Module bus
  initial = record { fan = cooling_fan; pwm_dev = none }

  pub record IsIdle (m : Module bus) : Type 0 where
    pub no_device : m.pwm_dev ≡ none
    pub state_zero : m.fan.fan_current_state ≡ 0

  update-IsIdle : (m : Module bus) → IsIdle m → IsIdle (update_fan_state bus m)
  unfolding update_fan_state
  update-IsIdle m i = ground arith

  tick-IsIdle : (m : Module bus) → IsIdle m → IsIdle (thermal_tick bus m)
  unfolding thermal_tick
  tick-IsIdle m i =
      update-IsIdle (record m { fan = record (m.fan) { cpu_temp = 50000 } })
        (record { no_device = i.no_device; state_zero = i.state_zero })

  written-IsIdle :
      (m : Module bus) (limit : ℕ) (slot : Slot) (req : Request)
      → IsIdle m
      → IsIdle (record m { fan = (sysctl_handler limit m.fan slot req).0 })
  written-IsIdle m limit slot req i = record {
    no_device = i.no_device;
    state_zero = ground (arith, sysctl_handler-Controls limit m.fan slot req);
  }

  step-IsIdle : (m : Module bus) (c : Call) → IsIdle m → IsIdle (step m c)
  unfolding step sysctl_fan_temp_handler sysctl_fan_hyst_handler sysctl_fan_speed_handler modevent
  step-IsIdle m ticks i = tick-IsIdle m i
  step-IsIdle m (sets_temp slot req) i = ground (
    arith,
    written-IsIdle m 120000 slot req i,
    update-IsIdle _ (written-IsIdle m 120000 slot req i),
  )
  step-IsIdle m (sets_hyst slot req) i = written-IsIdle m 10000 slot req i
  step-IsIdle m (sets_speed slot req) i =
      ground
        (arith, written-IsIdle m 255 slot req i, update-IsIdle _ (written-IsIdle m 255 slot req i))
  step-IsIdle m (events Integrated.mod_load) i = record {
    no_device = refl;
    state_zero = i.state_zero;
  }
  step-IsIdle m (events Integrated.mod_unload) i = ground arith
  step-IsIdle m (events Integrated.mod_other) i = i

  run-IsIdle : (cs : List Call) (m : Module bus) → IsIdle m → IsIdle (run m cs)
  unfolding run
  run-IsIdle [] m i = i
  run-IsIdle (c ∷ cs) m i = run-IsIdle cs (step m c) (step-IsIdle m c i)

  -- From the initial values of the module's variables on, whatever provider the kernel has and whatever
  -- loads, unloads, ticks and sysctl writes follow one another, the module finds no PWM device and the
  -- fan stays in state 0.
  pub never_drives : (cs : List Call) → IsIdle (run initial cs)
  never_drives cs = run-IsIdle cs initial (record { no_device = refl; state_zero = refl })
