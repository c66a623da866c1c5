-- ===== src/Rpi5/Reach.antt =====
-- The fan control and the sensor as they run together, from loading on: the sensor's callout, the
-- fan's callout, writes to the registered variables, and both modules being loaded and unloaded.
use free_bsd15_rpi5_modules.Base.{
  ℕ, ◌≤◌, ◌≡◌, Bool, true, false, Option, none, some, arith, Regs, u32,
}
use free_bsd15_rpi5_modules.Fan.{CoolingFan, Slot, cooling_fan}
use free_bsd15_rpi5_modules.Fan.Laws.{write_slot-Controls}
use free_bsd15_rpi5_modules.Bcm2712.{
  Softc, thermal_update, read_cpu_temp, pwm_enable, pwm_set_config,
}
use free_bsd15_rpi5_modules.Bcm2712.Load
use free_bsd15_rpi5_modules.Bcm2712.Load.{Maps, load_outcome}
use free_bsd15_rpi5_modules.Bcm2712.Thermal.{InRange, thermal_update-InRange}
use free_bsd15_rpi5_modules.Rpi5.{
  Board, new_state, record_state, update_fan_state, thermal_tick, drive, modevent, tune,
}
use free_bsd15_rpi5_modules.Rpi5
use free_bsd15_rpi5_modules.Rpi5.State.{new_state_bounds}

-- The sensor's registers are the environment's: they change before each reading.
pub data Step : Board → Board → Type 0 where
  sense :
      (f : CoolingFan) (sc : Softc) (regs : Regs) (now : ℕ)
      → Step
          (record { fan = f; soc = some sc })
          (record { fan = f; soc = some (thermal_update (record sc { avs_regs = regs }) now) })
  tick : (b : Board) → Step b (thermal_tick b)
  write : (b : Board) (slot : Slot) (value : ℕ) → Step b (tune b slot value)
  control : (b : Board) (e : Rpi5.Event) → Step b (modevent b e).0
  support :
      (b : Board) (e : Load.Event) (m : Maps)
      → Step b (record b { soc = (Load.modevent b.soc e m).softc })

pub data Reach (b : Board) : Board → Type 0 where
  here : Reach b b
  next : {c d : Board} → Reach b c → Step c d → Reach b d

-- Before any module is loaded.
abbrev pub initial : Board
initial = record { fan = cooling_fan; soc = none }

abbrev SensorFits : Option Softc → Type 0
SensorFits none = Unit {0}
SensorFits (some sc) = InRange sc

pub record Inv (b : Board) : Type 0 where
  pub channel : b.fan.pwm_channel ≡ 3
  pub state : b.fan.fan_current_state ≤ 4
  pub prev : b.fan.fan_prev_state ≤ 4
  pub temp : b.fan.cpu_temp ≤ 120000
  pub sensor : SensorFits b.soc

set_config_fits :
    (g : Option Softc) (c p d : ℕ) → SensorFits g → SensorFits (pwm_set_config g c p d).0
unfolding pwm_set_config
set_config_fits none c p d h = ground arith
set_config_fits (some sc) c p d h = ground arith

enable_fits : (g : Option Softc) (c : ℕ) (e : Bool) → SensorFits g → SensorFits (pwm_enable g c e).0
unfolding pwm_enable
enable_fits none c e h = ground arith
enable_fits (some sc) c e h = ground arith

drive_fits : (g : Option Softc) (c d : ℕ) (e : Bool) → SensorFits g → SensorFits (drive g c d e)
drive_fits g c d e h =
    enable_fits (pwm_set_config g c 41566 d).0 c e (set_config_fits g c 41566 d h)

update-Inv : (b : Board) → Inv b → Inv (update_fan_state b)
unfolding update_fan_state
update-Inv b i = record {
  channel = ground arith;
  state = ground (arith, new_state_bounds b.fan);
  prev = ground arith;
  temp = ground arith;
  sensor = drive_fits b.soc _ _ true i.sensor;
}

tick-Inv :
    (f : CoolingFan) (g : Option Softc)
    → Inv (record { fan = f; soc = g })
    → Inv (thermal_tick (record { fan = f; soc = g }))
unfolding thermal_tick read_cpu_temp
tick-Inv f none i = update-Inv _ i
tick-Inv f (some sc) i = update-Inv _ (record {
  channel = i.channel;
  state = i.state;
  prev = i.prev;
  temp = i.sensor;
  sensor = i.sensor;
})

load_parts-fits :
    (g : Option Softc) (avs pwm clk gpio : Option Regs)
    → SensorFits g
    → SensorFits (Load.load g (record { avs = avs; pwm = pwm; clk = clk; gpio = gpio })).softc
unfolding Load.load
load_parts-fits g none pwm clk gpio h = h
load_parts-fits g (some a) none clk gpio h = h
load_parts-fits g (some a) (some p) clk gpio h = omega arith

load-fits :
    (g : Option Softc) (e : Load.Event) (m : Maps)
    → SensorFits g
    → SensorFits (Load.modevent g e m).softc
unfolding Load.modevent
load-fits g Load.mod_load m h = load_parts-fits g m.avs m.pwm m.clk m.gpio h
load-fits g Load.mod_unload m h = tt
load-fits g Load.mod_other m h = h

write-Inv : (b : Board) (slot : Slot) (value : ℕ) → Inv b → Inv (tune b slot value)
unfolding tune
write-Inv b slot value i = ground (arith, write_slot-Controls b.fan slot (u32 value))

control-Inv : (b : Board) (e : Rpi5.Event) → Inv b → Inv (modevent b e).0
unfolding modevent
control-Inv b Rpi5.mod_load i = record {
  channel = i.channel;
  state = i.state;
  prev = i.prev;
  temp = i.temp;
  sensor = drive_fits b.soc b.fan.pwm_channel 0 true i.sensor;
}
control-Inv b Rpi5.mod_unload i = record {
  channel = i.channel;
  state = i.state;
  prev = i.prev;
  temp = i.temp;
  sensor = enable_fits b.soc b.fan.pwm_channel false i.sensor;
}
control-Inv b Rpi5.mod_other i = i

Step-Inv : {b c : Board} → Step b c → Inv b → Inv c
Step-Inv (sense f sc regs now) i = record {
  channel = i.channel;
  state = i.state;
  prev = i.prev;
  temp = i.temp;
  sensor = (thermal_update-InRange (record sc { avs_regs = regs }) now i.sensor).0;
}
Step-Inv (tick b) i = tick-Inv b.fan b.soc i
Step-Inv (write b slot value) i = write-Inv b slot value i
Step-Inv (control b e) i = control-Inv b e i
Step-Inv (support b e m) i = record {
  channel = i.channel;
  state = i.state;
  prev = i.prev;
  temp = i.temp;
  sensor = load-fits b.soc e m i.sensor;
}

-- Whatever sensor readings, ticks, unchecked writes to the tunables, loads and unloads follow one
-- another, the fan stays on channel 3 with its two states at 4 or less, and neither the last reading nor
-- the sensor's cache exceeds 120000 millidegrees.
pub Reach-Inv : {b : Board} → Reach initial b → Inv b
Reach-Inv here = omega arith
Reach-Inv (next r s) = Step-Inv s (Reach-Inv r)
