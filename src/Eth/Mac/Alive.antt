-- ===== src/Eth/Mac/Alive.antt =====
-- The interrupt handler, its task and the polls, together with the interface's life, as a step relation.
use free_bsd15_rpi5_modules.Base.{
  ℕ, ◌%◌, ◌^◌, ◌≡◌, ◌⊎◌, inl, inr, refl, Bool, true, false, List, [], ◌∷◌, arith, ◌==◌,
  if◌then◌else◌, if_rule, bit, clear_bit,
}
use free_bsd15_rpi5_modules.Eth.{Alloc}
use free_bsd15_rpi5_modules.Eth.Tx.{Packet, start_locked, clean_tx}
use free_bsd15_rpi5_modules.Eth.Regs.{Mac, wr4, enabled, receive}
use free_bsd15_rpi5_modules.Eth.Mac.{
  FilterResult, intr_filter, gem_poll_fires, intr_task_runs, Found, polled, serve, transmit,
  clear_overrun, clear_hresp, Env, Ioctl, set_flags, change_multi, capabilities, passed_on, raise,
  ioctl, follow_flags, set_filter, init_locked, config, stop, reset, set_txcsum, set_rxcsum, differ,
}

-- The interrupt comes with some status; an armed poll fires; an enqueued task runs; packets are sent;
-- an ioctl is called; the 1 Hz tick and the rest change nothing of this.
pub data Step (sc : Mac) : Mac → Type 0 where
  interrupted : (stat : ℕ) → Step sc (intr_filter stat sc).0
  polls : (stat : ℕ) → sc.gem_poll ≡ true → Step sc (gem_poll_fires stat sc)
  serves : (found : Found) → sc.intr_task ≡ true → Step sc (intr_task_runs found sc)
  sends : (ps : List Packet) → Step sc (record sc { tx = (start_locked ps sc.tx).0 })
  calls : (i : Ioctl) (env : Env) → Step sc (ioctl i env sc).0

pub data Reach (start : Mac) : Mac → Type 0 where
  here : Reach start start
  next : {b c : Mac} → Reach start b → Step b c → Reach start c

-- A running interface has its interrupts enabled, or the task that enables them is enqueued.
abbrev pub Alive : Mac → Type 0
Alive sc = (sc.running ≡ false) ⊎ ((enabled sc.writes ≡ true) ⊎ (sc.intr_task ≡ true))

filter-Alive : (stat : ℕ) (sc : Mac) → Alive sc → Alive (intr_filter stat sc).0
unfolding intr_filter
filter-Alive stat sc a =
    if_rule {A = Mac × FilterResult} (λ out. Alive out.0) (clear_bit (stat % 2 ^ 27) 8 == 0) _ _
      (λ e. a) (λ e. inr (inr refl))

poll-Alive : (stat : ℕ) (sc : Mac) → Alive sc → Alive (gem_poll_fires stat sc)
unfolding gem_poll_fires
poll-Alive stat sc a =
    if_rule Alive sc.running _ _
      (λ e. if_rule Alive (polled stat) _ _ (λ g. inr (inr refl)) (λ g. a)) (λ e. inl e)

-- What a run of the task leaves, with the interface running: the interrupts enabled, the poll armed and
-- the task no longer enqueued.
pub record Served (out : Mac) : Type 0 where
  pub runs : out.running ≡ true
  pub unmasked : enabled out.writes ≡ true
  pub armed : out.gem_poll ≡ true
  pub idle : out.intr_task ≡ false

-- The parts of the task's body leave the interface running and the task not enqueued.
abbrev Quiet : Mac → Type 0
Quiet sc = (sc.running ≡ true) × (sc.intr_task ≡ false)

transmit-Quiet : (ps : List Packet) (sc : Mac) → Quiet sc → Quiet (transmit ps sc)
transmit-Quiet [] sc q = q
transmit-Quiet (p ∷ ps) sc q = q

serve-Quiet : (ist : ℕ) (found : Found) (sc : Mac) → Quiet sc → Quiet (serve ist found sc)
serve-Quiet ist found sc q =
    transmit-Quiet found.sendq _ (if_rule Quiet (bit ist 2) _ _ (λ e. overrun) (λ e. overrun))
  where
    acked : Mac
    acked = wr4 0x024 ist sc

    cleaned : Quiet (record (if bit ist 1 then receive found.alloc acked else acked) {
      tx = clean_tx (if bit ist 1 then receive found.alloc acked else acked).tx;
    })
    cleaned = if_rule Quiet (bit ist 1) (receive found.alloc acked) acked (λ e. q) (λ e. q)

    hresp : Quiet (
        clear_hresp ist (record (if bit ist 1 then receive found.alloc acked else acked) {
          tx = clean_tx (if bit ist 1 then receive found.alloc acked else acked).tx;
        }))
    hresp = if_rule Quiet (bit ist 11) _ _ (λ e. cleaned) (λ e. cleaned)

    overrun : Quiet (
        clear_overrun ist (
          clear_hresp ist (record (if bit ist 1 then receive found.alloc acked else acked) {
            tx = clean_tx (if bit ist 1 then receive found.alloc acked else acked).tx;
          })))
    overrun = if_rule Quiet (bit ist 10) _ _ (λ e. hresp) (λ e. hresp)

task-Served : (found : Found) (sc : Mac) → sc.running ≡ true → Served (intr_task_runs found sc)
unfolding intr_task_runs
task-Served found sc e =
    if_rule Served sc.running _ _
      (λ g.
        let q =
          serve-Quiet sc.intr_pending found (record sc { intr_pending = 0; intr_task = false })
            (e, refl) in
        record { runs = q.0; unmasked = refl; armed = refl; idle = q.1 })
      (λ g. absurd (ground (arith, e, g)))

task-Alive : (found : Found) (sc : Mac) → Alive (intr_task_runs found sc)
unfolding intr_task_runs
task-Alive found sc = if_rule Alive sc.running _ _ (λ e. inr (inl refl)) (λ e. inl e)

filter_set-Alive : (eaddrs : List (ℕ → ℕ)) (sc : Mac) → Alive sc → Alive (set_filter eaddrs sc)
filter_set-Alive eaddrs sc a = a

init-Alive : (alloc : ℕ → Alloc) (sc : Mac) → Alive sc → Alive (init_locked alloc sc)
unfolding init_locked config
init-Alive alloc sc a = if_rule Alive sc.running _ _ (λ e. a) (λ e. inr (inl refl))

stopped-Alive :
    (design_cfg1 : ℕ) (sc : Mac) → Alive (stop design_cfg1 (record sc { running = false }))
unfolding stop reset
stopped-Alive design_cfg1 sc = inl refl

flags-Alive : (env : Env) (sc : Mac) → Alive sc → Alive (follow_flags env sc)
flags-Alive env sc a =
    if_rule Alive sc.flags.up _ _
      (λ u.
        if_rule Alive sc.running _ _ (λ e. if_rule Alive _ _ _ (λ c. a) (λ c. a))
          (λ e. init-Alive env.alloc sc a))
      (λ u. if_rule Alive sc.running _ _ (λ e. stopped-Alive env.design_cfg1 sc) (λ e. inl e))

txcsum-Alive : (word : ℕ) (req : Bool) (sc : Mac) → Alive sc → Alive (set_txcsum word req sc)
txcsum-Alive word req sc a = if_rule Alive (differ sc.txcsum req) _ _ (λ e. a) (λ e. a)

rxcsum-Alive : (req : Bool) (sc : Mac) → Alive sc → Alive (set_rxcsum req sc)
rxcsum-Alive req sc a = if_rule Alive (differ sc.rxcsum req) _ _ (λ e. a) (λ e. a)

ioctl-Alive : (i : Ioctl) (env : Env) (sc : Mac) → Alive sc → Alive (ioctl i env sc).0
unfolding ioctl
ioctl-Alive (set_flags flags) env sc a = flags-Alive env (record sc { flags = flags }) a
ioctl-Alive change_multi env sc a = if_rule Alive sc.running _ _ (λ e. a) (λ e. a)
ioctl-Alive (capabilities req_tx req_rx) env sc a =
    rxcsum-Alive req_rx (set_txcsum env.dma_word req_tx sc) (txcsum-Alive env.dma_word req_tx sc a)
ioctl-Alive (passed_on error sets_up calls_init) env sc a =
    if_rule Alive calls_init _ _ (λ e. init-Alive env.alloc (raise sets_up sc) a) (λ e. a)

Step-Alive : {b c : Mac} → Step b c → Alive b → Alive c
Step-Alive {b} (interrupted stat) a = filter-Alive stat b a
Step-Alive {b} (polls stat armed) a = poll-Alive stat b a
Step-Alive {b} (serves found queued) a = task-Alive found b
Step-Alive {b} (sends ps) a = a
Step-Alive {b} (calls i env) a = ioctl-Alive i env b a

Reach-Alive : {start sc : Mac} → start.running ≡ false → Reach start sc → Alive sc
Reach-Alive idle here = inl idle
Reach-Alive idle (next r s) = Step-Alive s (Reach-Alive idle r)

-- Of an interface that was not running at first, after whatever interrupts, polls, task runs, packets
-- and ioctls: while it runs, either its five interrupts are enabled (RX_COMPLETE, RX_USED_READ,
-- TX_USED_READ, RX_OVERRUN, HRESP_NOT_OK), each by a 1 in INTR_EN with none in INTR_DIS since, or the
-- interrupt task is enqueued and its next run, whatever it finds, leaves the interface running with
-- them enabled and the poll armed.
pub never_deaf :
    {start sc : Mac}
    → start.running ≡ false
    → Reach start sc
    → sc.running ≡ true
    → (enabled sc.writes ≡ true)
      ⊎ ((sc.intr_task ≡ true) × ((found : Found) → Served (intr_task_runs found sc)))
never_deaf {start} {sc} idle r runs = elim (Reach-Alive idle r) [
  | inl h ↦ absurd (ground (arith, h, runs))
  | inr h ↦ elim h [ inl g ↦ inl g | inr g ↦ inr (g, λ found. task-Served found sc runs) ]
]
