-- ===== src/Eth/Regs.antt =====
-- rp1_eth.c, rp1_eth_hw.h: the controller's registers and the part of the softc that the interface's life
-- works on. The writes are kept in a log, newest first; callout and taskqueue are flags: armed, and
-- enqueued.
use free_bsd15_rpi5_modules.Base.{
  ℕ, ◌+◌, Bool, true, false, ◌&&◌, List, [], ◌∷◌, ◌++◌, ◌==◌, if◌then◌else◌, bit,
}
use free_bsd15_rpi5_modules.Eth.{Softc, Alloc, Frame, recv}
use free_bsd15_rpi5_modules.Eth.Tx.{Ring}
use free_bsd15_rpi5_modules.Eth.Filter.{IfFlags}

-- A write of a register: WR4(sc, off, val).
pub record Write : Type 0 where
  pub off : ℕ
  pub val : ℕ

abbrev pub net_ctrl : ℕ
net_ctrl = 0x000

abbrev pub net_cfg : ℕ
net_cfg = 0x004

abbrev pub user_io : ℕ
user_io = 0x00C

abbrev pub dma_cfg : ℕ
dma_cfg = 0x010

abbrev pub tx_stat : ℕ
tx_stat = 0x014

abbrev pub rx_qbar : ℕ
rx_qbar = 0x018

abbrev pub tx_qbar : ℕ
tx_qbar = 0x01C

abbrev pub rx_stat : ℕ
rx_stat = 0x020

abbrev pub intr_stat : ℕ
intr_stat = 0x024

abbrev pub intr_en : ℕ
intr_en = 0x028

abbrev pub intr_dis : ℕ
intr_dis = 0x02C

abbrev pub hash_bot : ℕ
hash_bot = 0x080

abbrev pub hash_top : ℕ
hash_top = 0x084

abbrev pub intr_all : ℕ
intr_all = 0x7FFFEFF

-- The sources that are enabled: RX_COMPLETE, RX_USED_READ, TX_USED_READ, RX_OVERRUN and HRESP_NOT_OK.
abbrev pub intr_sources : ℕ
intr_sources = 2 + 4 + 8 + 0x400 + 0x800

-- `struct rp1eth_softc` with its two rings, the interface's flags and capabilities, the frames handed
-- to if_input, the input errors and the collisions. The statistics are named by their registers, and
-- cfg_mapped tells whether cfg_kva is not 0.
pub record Mac : Type 0 where
  pub rx : Softc
  pub tx : Ring
  pub net_ctl_shadow : ℕ
  pub net_cfg_shadow : ℕ
  pub rxring_physaddr : ℕ
  pub txring_physaddr : ℕ
  pub macaddr : ℕ → ℕ
  pub intr_pending : ℕ
  pub intr_task : Bool
  pub gem_poll : Bool
  pub tick_ch : Bool
  pub link_up : Bool
  pub running : Bool
  pub flags : IfFlags
  pub old_flags : IfFlags
  pub rxcsum : Bool
  pub txcsum : Bool
  pub vlan_hwcsum : Bool
  pub rxoverruns : ℕ
  pub rxnobufs : ℕ
  pub input : List Frame
  pub ierrors : ℕ
  pub writes : List Write
  pub cfg_mapped : Bool
  pub cfg_writes : List Write
  pub stats : ℕ → ℕ
  pub collisions : ℕ

-- WR4
abbrev pub wr4 : ℕ → ℕ → Mac → Mac
wr4 off val sc = record sc { writes = record { off = off; val = val } ∷ sc.writes }

-- Whether the controller lets the interrupt of bit k through after these writes: a 1 in INTR_EN lets it,
-- a 1 in INTR_DIS masks it, and a 0 in either leaves it.
abbrev pub unmasked : ℕ → List Write → Bool
unmasked k [] = false
unmasked k (w ∷ ws) =
    let rest = unmasked k ws in
    if w.off == intr_en && bit w.val k
    then true
    else if w.off == intr_dis && bit w.val k
    then false
    else rest

-- RX_COMPLETE, RX_USED_READ, TX_USED_READ, RX_OVERRUN and HRESP_NOT_OK all get through.
abbrev pub enabled : List Write → Bool
enabled ws = unmasked 1 ws && unmasked 2 ws && unmasked 3 ws && unmasked 10 ws && unmasked 11 ws

-- The value that was last written to a register.
abbrev pub last_write : List Write → ℕ → ℕ
last_write [] off = 0
last_write (w ∷ ws) off = let rest = last_write ws off in if w.off == off then w.val else rest

-- cgem_recv on the receive side.
abbrev pub receive : (ℕ → Alloc) → Mac → Mac
receive alloc sc =
    let (rx', frames, errors) = recv sc.rxcsum alloc sc.rx in
    record sc { rx = rx'; input = sc.input ++ frames; ierrors = sc.ierrors + errors }
