-- ===== src/Eth/Mac.antt =====
-- rp1_eth.c: the interrupt handler and its task, the polls, and the
-- interface's life: reset, configuration, init, stop, ioctl.
-- A register read is an argument.
pub mod Alive
pub mod Up
pub mod Link
mod Tests
use free_bsd15_rpi5_modules.Base.{
  ℕ, zero, suc, ◌+◌, ◌-◌, ◌*◌, ◌/◌, ◌%◌, ◌^◌, Bool, true, false, not, ◌&&◌, ◌||◌, Option, none,
  some, List, [], ◌∷◌, ◌++◌, ltb, leb, ◌==◌, if◌then◌else◌, bit, set_bit, clear_bit, u32,
}
use free_bsd15_rpi5_modules.Eth.Regs.{
  Write, net_ctrl, net_cfg, user_io, dma_cfg, tx_stat, rx_qbar, tx_qbar, rx_stat, intr_stat,
  intr_en, intr_dis, hash_bot, hash_top, intr_all, intr_sources, Mac, wr4, enabled, last_write,
  receive,
}
use free_bsd15_rpi5_modules.Eth.{Softc, Alloc, Frame, fill_rqueue, recv, stop_rx}
use free_bsd15_rpi5_modules.Eth.Tx.{Ring, Packet, clean_tx, start_locked, stop_tx}
use free_bsd15_rpi5_modules.Eth.Filter.{IfFlags, Written, rx_filter}

pub data FilterResult : Type 0 where
  filter_stray filter_handled : FilterResult

-- cgem_intr_filter, of what INTR_STAT reads.
unfoldable pub intr_filter : ℕ → Mac → Mac × FilterResult
intr_filter stat sc = if clear_bit (stat % 2 ^ 27) 8 == 0 then (sc, filter_stray) else (
  record (wr4 intr_dis intr_all sc) { intr_pending = stat; intr_task = true; gem_poll = false },
  filter_handled,
)

-- The bits of a status word that the poll looks at.
abbrev pub polled : ℕ → Bool
polled stat = bit stat 1 || bit stat 2 || bit stat 3 || bit stat 10 || bit stat 11

abbrev or_bit : ℕ → ℕ → ℕ → ℕ
or_bit stat k x = if bit stat k then set_bit x k else x

-- atomic_set_32 of those bits.
abbrev or_polled : ℕ → ℕ → ℕ
or_polled stat x = or_bit stat 1 (or_bit stat 2 (or_bit stat 3 (or_bit stat 10 (or_bit stat 11 x))))

-- cgem_gem_poll, the callout that fires.
unfoldable pub gem_poll_fires : ℕ → Mac → Mac
gem_poll_fires stat sc =
    let fired = record sc { gem_poll = false } in
    if sc.running
    then (if polled stat
        then record (wr4 intr_dis intr_all fired) {
          intr_pending = or_polled stat sc.intr_pending;
          intr_task = true;
        }
        else record fired { gem_poll = true })
    else fired

-- What the task finds: what the allocators give to either filling, and the send queue.
pub record Found : Type 0 where
  pub alloc : ℕ → Alloc
  pub refill : ℕ → Alloc
  pub sendq : List Packet

-- The receive status registers are cleared bit by bit: HRESP_NOT_OK is bit 3, OVERRUN bit 2.
abbrev pub clear_hresp : ℕ → Mac → Mac
clear_hresp ist sc = if bit ist 11 then wr4 rx_stat 8 sc else sc

abbrev pub clear_overrun : ℕ → Mac → Mac
clear_overrun ist sc =
    if bit ist 10 then record (wr4 rx_stat 4 sc) { rxoverruns = u32 (sc.rxoverruns + 1) } else sc

-- RX_USED_READ: the packet buffer is flushed and the ring filled.
abbrev pub refill_rx : ℕ → (ℕ → Alloc) → Mac → Mac
refill_rx ist alloc sc =
    if bit ist 2
    then record (wr4 net_ctrl (set_bit sc.net_ctl_shadow 18) sc) {
      rx = fill_rqueue alloc sc.rx;
      rxnobufs = u32 (sc.rxnobufs + 1);
    }
    else sc

abbrev pub transmit : List Packet → Mac → Mac
transmit [] sc = sc
transmit (p ∷ ps) sc = record sc { tx = (start_locked (p ∷ ps) sc.tx).0 }

-- The body of the task, on an interface that runs.
abbrev pub serve : ℕ → Found → Mac → Mac
serve ist found sc =
    let acked = wr4 intr_stat ist sc in
    let received = if bit ist 1 then receive found.alloc acked else acked in
    let cleaned = record received { tx = clean_tx received.tx } in
    let cleared = clear_overrun ist (clear_hresp ist cleaned) in
    transmit found.sendq (refill_rx ist found.refill cleared)

-- cgem_intr_task
unfoldable pub intr_task_runs : Found → Mac → Mac
intr_task_runs found sc =
    let taken = record sc { intr_pending = 0; intr_task = false } in
    if sc.running
    then record (wr4 intr_en intr_sources (serve sc.intr_pending found taken)) { gem_poll = true }
    else taken

-- The DMA bus width that DESIGN_CFG1 tells, as NET_CFG wants it.
abbrev bus_width : ℕ → ℕ
bus_width design_cfg1 =
    let width = design_cfg1 / 2 ^ 25 % 8 in
    if width == 2 then 2 ^ 21 else (if width == 4 then 2 * 2 ^ 21 else 0)

-- cgem_reset
unfoldable pub reset : ℕ → Mac → Mac
reset design_cfg1 sc =
    let cfg = bus_width design_cfg1 in
    let cfg' = set_bit (set_bit cfg 18) 20 in
    wr4 user_io 1 (
      wr4 net_ctrl 0x10 (
        wr4 net_cfg cfg' (
          wr4 rx_qbar 0 (
            wr4 tx_qbar 0 (
              wr4 hash_top 0 (
                wr4 hash_bot 0 (
                  wr4 intr_dis intr_all (
                    wr4 rx_stat 0xf (
                      wr4 tx_stat 0x1ff (
                        wr4 net_ctrl 0x20 (
                          wr4 net_cfg cfg (
                            wr4 net_ctrl 0 (record sc {
                              net_cfg_shadow = cfg';
                              net_ctl_shadow = 0x10;
                            })))))))))))))

-- cgem_config. Of NET_CFG the divider and the bus width are kept, and FCS_REMOVE, the offset of 2 bytes,
-- GIGE_EN, 1536RXEN and FULL_DUPLEX set.
abbrev pub config_net_cfg : Bool → ℕ → ℕ
config_net_cfg rxcsum shadow =
    let kept = shadow / 2 ^ 18 % 32 * 2 ^ 18 in
    let cfg = set_bit (set_bit (set_bit (set_bit (set_bit kept 17) 15) 10) 8) 1 in
    if rxcsum then set_bit cfg 24 else cfg

-- Buffers of 32 times 64 bytes, packet buffers of 8K, bursts of 16, discarding without a buffer.
abbrev pub config_dma : Bool → ℕ
config_dma txcsum =
    let cfg = 32 * 2 ^ 16 + 3 * 2 ^ 8 + 2 ^ 10 + 16 + 2 ^ 24 in
    if txcsum then set_bit cfg 11 else cfg

unfoldable pub config : Mac → Mac
config sc =
    let cfg = config_net_cfg sc.rxcsum sc.net_cfg_shadow in
    let ctl = set_bit (set_bit sc.net_ctl_shadow 3) 2 in
    let addr = sc.macaddr in
    wr4 intr_en intr_sources (
      wr4 intr_dis intr_all (
        wr4 0x08C (addr 5 * 2 ^ 8 + addr 4) (
          wr4 0x088 (addr 3 * 2 ^ 24 + addr 2 * 2 ^ 16 + addr 1 * 2 ^ 8 + addr 0) (
            wr4 user_io 1 (
              wr4 net_ctrl ctl (
                wr4 tx_qbar (u32 sc.txring_physaddr) (
                  wr4 rx_qbar (u32 sc.rxring_physaddr) (
                    wr4 dma_cfg (config_dma sc.txcsum) (
                      wr4 net_cfg cfg
                        (record sc { net_cfg_shadow = cfg; net_ctl_shadow = ctl }))))))))))

-- cgem_init_locked
unfoldable pub init_locked : (ℕ → Alloc) → Mac → Mac
init_locked alloc sc =
    let ready = config sc in
    if sc.running then sc else record ready {
      rx = fill_rqueue alloc ready.rx;
      tx = record ready.tx { oactive = false };
      running = true;
      tick_ch = true;
    }

-- cgem_stop
unfoldable pub stop : ℕ → Mac → Mac
stop design_cfg1 sc =
    let off = reset design_cfg1 (record sc { tick_ch = false; gem_poll = false }) in
    record off { tx = stop_tx off.tx; rx = stop_rx off.rx }

-- cgem_rx_filter, of the interface's multicast addresses.
abbrev pub set_filter : List (ℕ → ℕ) → Mac → Mac
set_filter eaddrs sc =
    let w = rx_filter sc.flags eaddrs sc.net_cfg_shadow in
    wr4 net_cfg w.net_cfg (
      wr4 hash_bot w.hashes.bot
        (wr4 hash_top w.hashes.top (record sc { net_cfg_shadow = w.net_cfg })))

-- What an ioctl finds: the multicast addresses, DESIGN_CFG1, DMA_CFG, and what the allocators give.
pub record Env : Type 0 where
  pub eaddrs : List (ℕ → ℕ)
  pub design_cfg1 : ℕ
  pub dma_word : ℕ
  pub alloc : ℕ → Alloc

-- SIOCSIFFLAGS, once the kernel has set the flags: the filter follows a change of two of them, and the
-- interface is brought up or down.
abbrev differ : Bool → Bool → Bool
differ true b = not b
differ false b = b

abbrev pub follow_flags : Env → Mac → Mac
follow_flags env sc =
    let changed =
      differ sc.flags.promisc sc.old_flags.promisc
      || differ sc.flags.allmulti sc.old_flags.allmulti in
    if sc.flags.up
    then (if sc.running
        then (if changed then set_filter env.eaddrs sc else sc)
        else init_locked env.alloc sc)
    else (if sc.running then stop env.design_cfg1 (record sc { running = false }) else sc)

-- SIOCSIFCAP, for the capability bits of transmit and of receive checksums that are asked for.
abbrev pub set_txcsum : ℕ → Bool → Mac → Mac
set_txcsum dma_word req sc =
    if differ sc.txcsum req
    then wr4 dma_cfg (if req then set_bit dma_word 11 else clear_bit dma_word 11)
        (record sc { txcsum = req })
    else sc

abbrev pub set_rxcsum : Bool → Mac → Mac
set_rxcsum req sc =
    let cfg = if req then set_bit sc.net_cfg_shadow 24 else clear_bit sc.net_cfg_shadow 24 in
    if differ sc.rxcsum req
    then wr4 net_cfg cfg (record sc { rxcsum = req; net_cfg_shadow = cfg })
    else sc

abbrev pub set_caps : ℕ → Bool → Bool → Mac → Mac
set_caps dma_word req_tx req_rx sc =
    let sc' = set_rxcsum req_rx (set_txcsum dma_word req_tx sc) in
    record sc' { vlan_hwcsum = sc'.rxcsum && sc'.txcsum }

-- The ioctls: new flags, a change of the multicast addresses, the capabilities asked for, or one that is
-- passed on. Of what ifmedia or ether_ioctl does there, an argument tells the error number, whether
-- IFF_UP is set, and whether the driver's if_init is called: for a new address, ether_ioctl does both.
pub data Ioctl : Type 0 where
  set_flags : IfFlags → Ioctl
  change_multi : Ioctl
  capabilities : Bool → Bool → Ioctl
  passed_on : ℕ → Bool → Bool → Ioctl

abbrev pub raise : Bool → Mac → Mac
raise sets_up sc = record sc { flags = if sets_up then record sc.flags { up = true } else sc.flags }

-- cgem_ioctl; cgem_init is init_locked under the lock.
unfoldable pub ioctl : Ioctl → Env → Mac → Mac × ℕ
ioctl (set_flags flags) env sc =
    let sc' = follow_flags env (record sc { flags = flags }) in
    (record sc' { old_flags = flags }, 0)
ioctl change_multi env sc = (if sc.running then set_filter env.eaddrs sc else sc, 0)
ioctl (capabilities req_tx req_rx) env sc = (set_caps env.dma_word req_tx req_rx sc, 0)
ioctl (passed_on error sets_up calls_init) env sc =
    let raised = raise sets_up sc in
    (if calls_init then init_locked env.alloc raised else raised, error)
