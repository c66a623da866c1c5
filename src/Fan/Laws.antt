-- ===== src/Fan/Laws.antt =====
-- What a write through a sysctl handler does to the fan's variables.
use free_bsd15_rpi5_modules.Base.{ℕ, ◌≤◌, ◌≡◌, ◌≢◌, ◌⊎◌, arith}
use free_bsd15_rpi5_modules.Fan.{CoolingFan, Slot, Request, read_slot, write_slot, sysctl_handler}

Slot-discrete : Discrete Slot
Slot-discrete = hlevel

read_slot-write_slot : (f : CoolingFan) (s : Slot) (v : ℕ) → read_slot (write_slot f s v) s ≡ v
unfolding read_slot write_slot
read_slot-write_slot f s v = ground arith

read_slot-write_slot_ne :
    (f : CoolingFan) (s t : Slot) (v : ℕ) → t ≢ s → read_slot (write_slot f s v) t ≡ read_slot f t
unfolding read_slot write_slot
read_slot-write_slot_ne f s t v ne = ground arith

-- What no tunable is: the control's own variables.
pub record Controls (f f' : CoolingFan) : Type 0 where
  pub channel : f'.pwm_channel ≡ f.pwm_channel
  pub state : f'.fan_current_state ≡ f.fan_current_state
  pub prev : f'.fan_prev_state ≡ f.fan_prev_state
  pub temp : f'.cpu_temp ≡ f.cpu_temp
  pub active : f'.thermal_active ≡ f.thermal_active

pub write_slot-Controls : (f : CoolingFan) (s : Slot) (v : ℕ) → Controls f (write_slot f s v)
unfolding write_slot
write_slot-Controls f s v = ground arith

pub sysctl_handler-Controls :
    (limit : ℕ) (f : CoolingFan) (slot : Slot) (req : Request)
    → Controls f (sysctl_handler limit f slot req).0
unfolding sysctl_handler
sysctl_handler-Controls limit f slot req =
    ground (arith, write_slot-Controls f slot (req.handle (read_slot f slot)).0)

-- A handler's outcome on a variable `slot`, and on any other one, `other`.
pub record Handled (limit : ℕ) (f : CoolingFan) (slot other : Slot) (f' : CoolingFan) (error : ℕ)
    : Type 0 where
  pub other_kept : read_slot f' other ≡ read_slot f other
  pub controls : Controls f f'
  pub written : (f' ≡ f) ⊎ ((read_slot f' slot ≤ limit) × (error ≡ 0))

-- A handler changes no other tunable than its own and none of the control's variables, and either
-- it changes nothing at all or its own variable is within the limit and it succeeds.
sysctl_handler-Handled :
    (limit : ℕ) (f : CoolingFan) (slot other : Slot) (req : Request)
    → other ≢ slot
    → let (f', error) = sysctl_handler limit f slot req in Handled limit f slot other f' error
unfolding sysctl_handler
sysctl_handler-Handled limit f slot other req ne =
    let v = (req.handle (read_slot f slot)).0 in
    ground (
      arith,
      read_slot-write_slot f slot v,
      read_slot-write_slot_ne f slot other v ne,
      write_slot-Controls f slot v,
    )
