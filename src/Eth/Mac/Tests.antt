-- ===== src/Eth/Mac/Tests.antt =====
-- The controller from the state that the attach leaves: brought up, interrupted, served.
use free_bsd15_rpi5_modules.Base.{◌*◌, ◌≡◌, ◌⊎◌, refl, true, false, [], bit}
use free_bsd15_rpi5_modules.Eth.{init_ring, Alloc, no_mbuf}
use free_bsd15_rpi5_modules.Eth.Tx
use free_bsd15_rpi5_modules.Eth.Filter.{IfFlags}
use free_bsd15_rpi5_modules.Eth.Regs.{Mac, enabled, last_write, net_cfg}
use free_bsd15_rpi5_modules.Eth.Mac.{
  Env, Found, set_flags, ioctl, intr_filter, intr_task_runs, init_locked, config,
}
use free_bsd15_rpi5_modules.Eth.Mac.Alive.{
  Reach, here, next, interrupted, calls, Served, never_deaf,
}
use free_bsd15_rpi5_modules.Eth.Mac.Up.{up_not_promisc}

abbrev no_flags : IfFlags
no_flags = record { up = false; promisc = false; broadcast = true; allmulti = false }

abbrev promiscuous : IfFlags
promiscuous = record { up = true; promisc = true; broadcast = true; allmulti = false }

abbrev attached : Mac
attached = record {
  rx = init_ring 128;
  tx = free_bsd15_rpi5_modules.Eth.Tx.init_ring;
  net_ctl_shadow = 0x10;
  net_cfg_shadow = 0x140000;
  rxring_physaddr = 0x100000;
  txring_physaddr = 0x100800;
  macaddr = λ i. 2 * i;
  intr_pending = 0;
  intr_task = false;
  gem_poll = false;
  tick_ch = false;
  link_up = false;
  running = false;
  flags = no_flags;
  old_flags = no_flags;
  rxcsum = false;
  txcsum = false;
  vlan_hwcsum = false;
  rxoverruns = 0;
  rxnobufs = 0;
  input = [];
  ierrors = 0;
  writes = [];
  cfg_mapped = true;
  cfg_writes = [];
  stats = λ i. 0;
  collisions = 0;
}

abbrev env : Env
env = record { eaddrs = []; design_cfg1 = 0; dma_word = 0; alloc = λ i. no_mbuf }

abbrev up : Mac
up = (ioctl (set_flags promiscuous) env attached).0

abbrev received : Mac
received = (intr_filter 2 up).0

steps : Reach attached received
steps = next (next here (calls (set_flags promiscuous) env)) (interrupted 2)

never_deaf_example :
    (enabled received.writes ≡ true)
    ⊎ ((received.intr_task ≡ true) × ((found : Found) → Served (intr_task_runs found received)))
unfolding ioctl init_locked config intr_filter
never_deaf_example = never_deaf refl steps refl

up_not_promisc_example :
    (bit (last_write up.writes net_cfg) 4 ≡ false)
    × (ioctl (set_flags promiscuous) env up ≡ (up, 0))
up_not_promisc_example = up_not_promisc promiscuous env env attached refl refl
