-- ===== src/Eth.antt =====
-- rp1_eth.c: the receive ring of the RP1 Ethernet controller.
-- What the kernel's allocators and the controller's own writes to the descriptors give is an argument.
pub mod Ring
pub mod Tx
pub mod Filter
pub mod Regs
pub mod Mac
mod Tests
use free_bsd15_rpi5_modules.Base.{
  ℕ, zero, suc, ◌+◌, ◌-◌, ◌*◌, ◌/◌, ◌%◌, ◌^◌, Bool, true, false, not, ◌&&◌, ◌||◌, Option, none,
  some, List, [], ◌∷◌, ltb, ◌==◌, if◌then◌else◌, bit, set_bit, update, u32,
}

abbrev is_some : Option ℕ → Bool
is_some none = false
is_some (some m) = true

abbrev pub num_rx_descs : ℕ
num_rx_descs = 256

-- `struct cgem_rx_desc`.
pub record RxDesc : Type 0 where
  pub addr : ℕ
  pub ctl : ℕ

-- The receive side of `struct rp1eth_softc`. An mbuf is a number; a DMA map is there or not.
pub record Softc : Type 0 where
  pub rxring : ℕ → RxDesc
  pub rxring_m : ℕ → Option ℕ
  pub rxring_m_dmamap : ℕ → Bool
  pub rxring_hd_ptr : ℕ
  pub rxring_tl_ptr : ℕ
  pub rxring_queued : ℕ
  pub rxbufs : ℕ
  pub rxdmamapfails : ℕ  -- u_int

-- The ring as the descriptors are set up: all owned by the driver, none queued.
abbrev pub init_ring : ℕ → Softc
init_ring rxbufs = record {
  rxring = λ i. record { addr = if i == num_rx_descs - 1 then 3 else 1; ctl = 0 };
  rxring_m = λ i. none;
  rxring_m_dmamap = λ i. false;
  rxring_hd_ptr = 0;
  rxring_tl_ptr = 0;
  rxring_queued = 0;
  rxbufs = rxbufs;
  rxdmamapfails = 0;
}

-- What a round of cgem_fill_rqueue gets: no mbuf, one but no DMA map, one and a map that cannot be
-- loaded, or an mbuf loaded at an address.
pub data Alloc : Type 0 where
  no_mbuf create_fails load_fails : Alloc
  loaded : ℕ → ℕ → Alloc

-- A loaded mbuf goes to the head of the ring.
abbrev pub enqueue : Softc → ℕ → ℕ → Softc
enqueue sc m ds_addr =
    let hd = sc.rxring_hd_ptr in
    let wraps = hd == num_rx_descs - 1 in
    record sc {
      rxring =
          update sc.rxring hd
            (record { addr = if wraps then set_bit ds_addr 1 else ds_addr; ctl = 0 });
      rxring_m = update sc.rxring_m hd (some m);
      rxring_m_dmamap = update sc.rxring_m_dmamap hd true;
      rxring_hd_ptr = if wraps then 0 else hd + 1;
      rxring_queued = sc.rxring_queued + 1;
    }

abbrev pub count_mapfail : Softc → Softc
count_mapfail sc = record sc { rxdmamapfails = u32 (sc.rxdmamapfails + 1) }

-- The loop of cgem_fill_rqueue, by rounds: one for each buffer that is missing.
unfoldable pub fill : ℕ → (ℕ → Alloc) → Softc → Softc
fill zero alloc sc = sc
fill (suc rounds) alloc sc = elim (alloc rounds) [
  | no_mbuf ↦ sc
  | create_fails ↦ count_mapfail sc
  | load_fails ↦ record (count_mapfail sc) {
    rxring_m_dmamap = update sc.rxring_m_dmamap sc.rxring_hd_ptr false;
  }
  | loaded m ds_addr ↦ fill rounds alloc (enqueue sc m ds_addr)
]

-- cgem_fill_rqueue
unfoldable pub fill_rqueue : (ℕ → Alloc) → Softc → Softc
fill_rqueue alloc sc = fill (sc.rxbufs - sc.rxring_queued) alloc sc

-- A frame that is handed to if_input: its mbuf, its length, and `csum_flags`: whether the IP header, and
-- whether the data too, were found good.
pub record Frame : Type 0 where
  pub mbuf : ℕ
  pub len : ℕ
  pub ip_checked : Bool
  pub data_valid : Bool

-- The checksum state of a descriptor, when IFCAP_RXCSUM is enabled: two bits, 2 and 3 for TCP and UDP.
abbrev pub frame_of : Bool → ℕ → ℕ → Frame
frame_of rxcsum m ctl =
    let stat = ctl / 2 ^ 22 % 4 in
    record {
      mbuf = m;
      len = ctl % 0x2000;
      ip_checked = rxcsum && not (stat == 0);
      data_valid = rxcsum && (stat == 2 || stat == 3);
    }

-- The descriptor at the tail is taken off the ring.
abbrev pub dequeue : Softc → Softc
dequeue sc =
    let tl = sc.rxring_tl_ptr in
    record sc {
      rxring_m = update sc.rxring_m tl none;
      rxring_m_dmamap = update sc.rxring_m_dmamap tl false;
      rxring_tl_ptr = if tl + 1 == num_rx_descs then 0 else tl + 1;
      rxring_queued = sc.rxring_queued - 1;
    }

-- A frame in one buffer, with a good frame check sequence.
abbrev pub is_good : ℕ → Bool
is_good ctl = not (bit ctl 13) && (bit ctl 14 && bit ctl 15)

-- The loop of cgem_recv, by rounds: one for each descriptor that is queued. The result is the softc,
-- the frames, and the number of input errors. A queued descriptor has an mbuf, so that one without any,
-- which the code would follow to no memory, is counted as an error only for the sake of totality.
unfoldable pub drain : ℕ → Bool → Softc → Softc × List Frame × ℕ
drain zero rxcsum sc = (sc, [], 0)
drain (suc rounds) rxcsum sc =
    let desc = sc.rxring sc.rxring_tl_ptr in
    let (sc', frames, errors) = drain rounds rxcsum (dequeue sc) in
    if not (bit desc.addr 0) then (sc, [], 0) else elim (sc.rxring_m sc.rxring_tl_ptr) [
      | none ↦ (sc', frames, errors + 1)
      | some m ↦
          if is_good desc.ctl
          then (sc', frame_of rxcsum m desc.ctl ∷ frames, errors)
          else (sc', frames, errors + 1)
    ]

-- cgem_recv
unfoldable pub recv : Bool → (ℕ → Alloc) → Softc → Softc × List Frame × ℕ
recv rxcsum alloc sc =
    let (sc', frames, errors) = drain sc.rxring_queued rxcsum sc in
    (fill_rqueue alloc sc', frames, errors)

-- The receive side of cgem_stop: each slot with an mbuf is freed with its map.
abbrev pub stop_rx : Softc → Softc
stop_rx sc = record sc {
  rxring = λ i. record { addr = if i == num_rx_descs - 1 then 3 else 1; ctl = 0 };
  rxring_m = λ i. if ltb i num_rx_descs then none else sc.rxring_m i;
  rxring_m_dmamap =
      λ i. if ltb i num_rx_descs && is_some (sc.rxring_m i) then false else sc.rxring_m_dmamap i;
  rxring_hd_ptr = 0;
  rxring_tl_ptr = 0;
  rxring_queued = 0;
}
