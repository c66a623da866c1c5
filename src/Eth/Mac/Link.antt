-- ===== src/Eth/Mac/Link.antt =====
-- rp1_eth.c: the MDIO read, the link poll, the speed of the clock generator and the statistics.
pub mod Outcome
use free_bsd15_rpi5_modules.Base.{
  ℕ, zero, suc, ◌+◌, ◌-◌, ◌*◌, ◌/◌, ◌%◌, ◌^◌, Bool, true, false, not, ◌&&◌, ◌||◌, Option, none,
  some, List, [], ◌∷◌, ltb, ◌==◌, if◌then◌else◌, bit, set_bits, clear_bits, update, u32, u64,
}
use free_bsd15_rpi5_modules.Eth.Regs.{Mac, wr4, Write}

-- What an MDIO read finds: NET_STAT at each of its reads, and PHY_MAINT at the end.
pub record Mdio : Type 0 where
  pub net_stat : ℕ → ℕ
  pub maint : ℕ

-- The wait for PHY_MGMT_IDLE, by rounds.
abbrev pub wait_idle : ℕ → (ℕ → ℕ) → ℕ → Bool
wait_idle zero stat i = false
wait_idle (suc rounds) stat i =
    let rest = wait_idle rounds stat (i + 1) in if bit (stat i) 2 then true else rest

-- The order to read a register, of a PHY and a register below 32: clause 22, read, turn-around 10.
abbrev pub read_order : ℕ → ℕ → ℕ
read_order phy reg = 2 ^ 30 + 2 * 2 ^ 28 + 2 * 2 ^ 16 + phy * 2 ^ 23 + reg * 2 ^ 18

-- rp1eth_mdio_read: none stands for -1. It gives up after 201 reads.
unfoldable pub mdio_read : ℕ → ℕ → Mdio → Mac → Mac × Option ℕ
mdio_read phy reg io sc =
    let ordered = wr4 0x034 (read_order phy reg) sc in
    if wait_idle 201 io.net_stat 0 then (ordered, some (io.maint % 2 ^ 16)) else (ordered, none)

-- The bits of CLKGEN's speed: the field is 2 for 1G, 1 for 100M, 0 for 10M.
abbrev pub speed_bits : ℕ → List ℕ
speed_bits net_cfg = if bit net_cfg 10 then 1 ∷ [] else (if bit net_cfg 0 then 0 ∷ [] else [])

-- CLKGEN without ENABLE, KILL, TXCLKDELEN, SPD_OVR_EN and SPD_OVR.
abbrev pub clkgen_rest : ℕ → ℕ
clkgen_rest clkgen = clear_bits (0 ∷ 1 ∷ 3 ∷ 9 ∷ 6 ∷ 7 ∷ []) clkgen

abbrev pub clkgen_base : ℕ → ℕ → ℕ
clkgen_base net_cfg clkgen = set_bits (3 ∷ speed_bits net_cfg) (clkgen_rest clkgen)

abbrev pub cfgwr4 : ℕ → ℕ → Mac → Mac
cfgwr4 off val sc = record sc { cfg_writes = record { off = off; val = val } ∷ sc.cfg_writes }

-- rp1eth_update_speed, of what NET_CFG and CLKGEN read.
unfoldable pub update_speed : ℕ → ℕ → Mac → Mac
update_speed net_cfg clkgen sc =
    let base = clkgen_base net_cfg clkgen in
    if sc.cfg_mapped then cfgwr4 0x14 (set_bits (7 ∷ []) base) (cfgwr4 0x14 base sc) else sc

-- The 32-bit counters of cgem_poll_hw_stats, by their registers, and those that count collisions.
abbrev pub counters : List ℕ
counters =
    0x108 ∷ 0x10C ∷ 0x110 ∷ 0x114 ∷ 0x118 ∷ 0x11C ∷ 0x120 ∷ 0x124 ∷ 0x128 ∷ 0x12C ∷ 0x134 ∷ 0x138
    ∷ 0x13C ∷ 0x140 ∷ 0x144 ∷ 0x148 ∷ 0x14C ∷ 0x158 ∷ 0x15C ∷ 0x160 ∷ 0x164 ∷ 0x168 ∷ 0x16C ∷ 0x170
    ∷ 0x174 ∷ 0x178 ∷ 0x17C ∷ 0x184 ∷ 0x188 ∷ 0x18C ∷ 0x190 ∷ 0x194 ∷ 0x198 ∷ 0x19C ∷ 0x1A0 ∷ 0x1A4
    ∷ 0x1A8 ∷ 0x1AC ∷ 0x1B0 ∷ []

abbrev pub count_all : List ℕ → (ℕ → ℕ) → (ℕ → ℕ) → ℕ → ℕ
count_all [] rd stats = stats
count_all (off ∷ offs) rd stats = count_all offs rd (update stats off (u32 (stats off + rd off)))

-- A byte counter of 64 bits, in two registers.
abbrev pub count_bytes : ℕ → (ℕ → ℕ) → (ℕ → ℕ) → ℕ → ℕ
count_bytes off rd stats = update stats off (u64 (u64 (stats off + rd off) + rd (off + 4) * 2 ^ 32))

-- cgem_poll_hw_stats
unfoldable pub poll_hw_stats : (ℕ → ℕ) → Mac → Mac
poll_hw_stats rd sc = record sc {
  stats = count_all counters rd (count_bytes 0x150 rd (count_bytes 0x100 rd sc.stats));
  collisions = sc.collisions + rd 0x138 + rd 0x13C + rd 0x140 + rd 0x144;
}

-- What a tick reads: BMSR twice, NET_CFG, CLKGEN and the statistics.
pub record Ticked : Type 0 where
  pub first : Mdio
  pub second : Mdio
  pub net_cfg_word : ℕ
  pub clkgen_word : ℕ
  pub counts : ℕ → ℕ

abbrev pub has_link : Option ℕ → Bool
has_link none = false
has_link (some bmsr) = bit bmsr 2

abbrev same : Bool → Bool → Bool
same true b = b
same false b = not b

-- The change of the link's state.
abbrev pub follow_link : Bool → Ticked → Mac → Mac
follow_link up t sc =
    let changed = record sc { link_up = up } in
    if same up sc.link_up
    then sc
    else (if up then update_speed t.net_cfg_word t.clkgen_word changed else changed)

-- rp1eth_tick, for the PHY's address.
unfoldable pub tick : ℕ → Ticked → Mac → Mac
tick phy_addr t sc =
    let (sc1, ignored) = mdio_read phy_addr 1 t.first sc in
    let (sc2, bmsr) = mdio_read phy_addr 1 t.second sc1 in
    let polled = poll_hw_stats t.counts (follow_link (has_link bmsr) t sc2) in
    record (if sc.running then polled else sc) { tick_ch = true }
