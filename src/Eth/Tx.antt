-- ===== src/Eth/Tx.antt =====
-- rp1_eth.c: the transmit ring, its reclaiming and the start of a transmission.
-- What the send queue holds, what bus_dma answers and what the controller writes is an argument.
pub mod Frames
pub mod Reclaim
pub mod Place
pub mod Start
pub mod Reach
mod Tests
use free_bsd15_rpi5_modules.Base.{
  ℕ, zero, suc, ◌+◌, ◌-◌, ◌*◌, ◌/◌, ◌%◌, ◌^◌, Bool, true, false, not, ◌&&◌, ◌||◌, Option, none,
  some, List, [], ◌∷◌, ◌++◌, ltb, leb, ◌==◌, if◌then◌else◌, bit, set_bit, update, u32, length,
}

abbrev pub num_tx_descs : ℕ
num_tx_descs = 256

abbrev pub tx_max_dma_segs : ℕ
tx_max_dma_segs = 8

-- The bits of a transmit descriptor's control word.
abbrev pub used_bit : ℕ
used_bit = 31

abbrev pub wrap_bit : ℕ
wrap_bit = 30

abbrev pub last_buf_bit : ℕ
last_buf_bit = 15

-- `struct cgem_tx_desc`.
pub record TxDesc : Type 0 where
  pub addr : ℕ
  pub ctl : ℕ

-- The transmit side of `struct rp1eth_softc`, with the interface's flag IFF_DRV_OACTIVE and its
-- counters, how often the transmission was started (START_TX to NET_CTRL, then 1 to USER_IO), and the
-- mbufs that were freed, oldest first.
pub record Ring : Type 0 where
  pub txring : ℕ → TxDesc
  pub txring_m : ℕ → Option ℕ
  pub txring_m_dmamap : ℕ → Bool
  pub txring_hd_ptr : ℕ
  pub txring_tl_ptr : ℕ
  pub txring_queued : ℕ
  pub txfull : ℕ  -- u_int, as the three below
  pub txdefrags : ℕ
  pub txdefragfails : ℕ
  pub txdmamapfails : ℕ
  pub oactive : Bool
  pub opackets : ℕ
  pub oerrors : ℕ
  pub starts : ℕ
  pub freed : List ℕ

-- The descriptors as they are set up: all used, the last one with the wrap bit.
abbrev pub unused : ℕ → TxDesc
unused i = record {
  addr = 0;
  ctl = if i == num_tx_descs - 1 then 2 ^ used_bit + 2 ^ wrap_bit else 2 ^ used_bit;
}

abbrev pub init_ring : Ring
init_ring = record {
  txring = unused;
  txring_m = λ i. none;
  txring_m_dmamap = λ i. false;
  txring_hd_ptr = 0;
  txring_tl_ptr = 0;
  txring_queued = 0;
  txfull = 0;
  txdefrags = 0;
  txdefragfails = 0;
  txdmamapfails = 0;
  oactive = false;
  opackets = 0;
  oerrors = 0;
  starts = 0;
  freed = [];
}

-- m_freem, of an mbuf that a slot may hold.
abbrev pub free : Option ℕ → List ℕ → List ℕ
free none ms = ms
free (some m) ms = ms ++ (m ∷ [])

-- The tail moves on by the wrap bit of the descriptor that it leaves.
abbrev pub advance : ℕ → Ring → Ring
advance ctl sc = record sc {
  txring_tl_ptr = if bit ctl wrap_bit then 0 else sc.txring_tl_ptr + 1;
  txring_queued = sc.txring_queued - 1;
}

-- The control word at the tail; the descriptor is marked as used.
abbrev pub mark_used : Ring → Ring
mark_used sc =
    let desc = sc.txring sc.txring_tl_ptr in
    record sc {
      txring = update sc.txring sc.txring_tl_ptr (record desc { ctl = set_bit desc.ctl used_bit });
    }

-- The inner loop of cgem_clean_tx, by rounds: to the last descriptor of the frame. The result has that
-- descriptor's control word.
unfoldable pub skip : ℕ → ℕ → Ring → Ring × ℕ
skip zero ctl sc = (sc, ctl)
skip (suc rounds) ctl sc =
    let next = advance ctl sc in
    let rest = skip rounds (next.txring next.txring_tl_ptr).ctl (mark_used next) in
    if bit ctl last_buf_bit then (sc, ctl) else rest

-- The slot at the tail is freed, and the frame counted by its status bits: an AHB error is only printed.
abbrev pub release : Ring → Ring
release sc =
    let tl = sc.txring_tl_ptr in
    let ctl = (sc.txring tl).ctl in
    let ahb_err = bit ctl 27 in
    let failed = bit ctl 29 || bit ctl 26 in
    record sc {
      txring_m_dmamap = update sc.txring_m_dmamap tl false;
      txring_m = update sc.txring_m tl none;
      freed = free (sc.txring_m tl) sc.freed;
      oerrors = if not ahb_err && failed then sc.oerrors + 1 else sc.oerrors;
      opackets = if not ahb_err && not failed then sc.opackets + 1 else sc.opackets;
    }

-- A frame leaves the ring. A frame has no more descriptors than are queued: the rounds.
abbrev pub reclaim : Ring → Ring
reclaim sc =
    let (sc', ctl) = skip sc.txring_queued (sc.txring sc.txring_tl_ptr).ctl (release sc) in
    record (advance ctl sc') { oactive = false }

-- The outer loop of cgem_clean_tx, by rounds: at most one for each descriptor queued.
unfoldable pub clean : ℕ → Ring → Ring
clean zero sc = sc
clean (suc rounds) sc =
    let rest = clean rounds (reclaim sc) in
    if ltb 0 sc.txring_queued && bit (sc.txring sc.txring_tl_ptr).ctl used_bit then rest else sc

-- cgem_clean_tx
abbrev pub clean_tx : Ring → Ring
clean_tx sc = clean sc.txring_queued sc

-- `bus_dma_segment_t`.
pub record Seg : Type 0 where
  pub ds_addr : ℕ
  pub ds_len : ℕ

-- What bus_dmamap_load_mbuf_sg answers: segments, EFBIG or another error.
pub data Load : Type 0 where
  loaded : List Seg → Load
  too_big load_fails : Load

-- A frame on the send queue with what bus_dma and m_defrag do with it: whether a map is created, the
-- first loading, and the mbuf that m_defrag gives, with its loading.
pub record Packet : Type 0 where
  pub mbuf : ℕ
  pub mapped : Bool
  pub load : Load
  pub defrag : Option ℕ
  pub reload : Load

-- The control word of a segment: its length, and for the last one the bits LAST_BUF and WRAP.
abbrev pub ctl_of : ℕ → Bool → Bool → ℕ
ctl_of ds_len is_last wrap =
    let ctl = if is_last then set_bit ds_len last_buf_bit else ds_len in
    if is_last && wrap then set_bit ctl wrap_bit else ctl

-- The descriptors of a frame, written from the last one to the first.
unfoldable pub write_segs : List Seg → ℕ → Bool → (ℕ → TxDesc) → ℕ → TxDesc
write_segs [] pos wrap ring = ring
write_segs (seg ∷ segs) pos wrap ring =
    update (write_segs segs (pos + 1) wrap ring) pos
      (record { addr = seg.ds_addr; ctl = ctl_of seg.ds_len (length segs == 0) wrap })

-- The slots of the frame's other descriptors are cleared.
unfoldable pub clear_slots : ℕ → ℕ → (ℕ → Option ℕ) → ℕ → Option ℕ
clear_slots zero pos ms = ms
clear_slots (suc n) pos ms = update (clear_slots n (pos + 1) ms) pos none

-- A frame goes to the head of the ring.
abbrev pub enqueue : ℕ → List Seg → Ring → Ring
enqueue m segs sc =
    let hd = sc.txring_hd_ptr in
    let nsegs = length segs in
    let wrap = leb num_tx_descs (hd + nsegs + tx_max_dma_segs) in
    record sc {
      txring = write_segs segs hd wrap sc.txring;
      txring_m = clear_slots (nsegs - 1) (hd + 1) (update sc.txring_m hd (some m));
      txring_m_dmamap = update sc.txring_m_dmamap hd true;
      txring_hd_ptr = if wrap then 0 else hd + nsegs;
      txring_queued = sc.txring_queued + nsegs;
      starts = sc.starts + 1;
    }

-- A frame whose loading fails is freed, and its map destroyed.
abbrev pub drop_frame : ℕ → Ring → Ring
drop_frame m sc = record sc {
  freed = free (some m) sc.freed;
  txring_m_dmamap = update sc.txring_m_dmamap sc.txring_hd_ptr false;
  txdmamapfails = u32 (sc.txdmamapfails + 1);
}

-- The second loading, of the mbuf that m_defrag gave.
abbrev pub send_defragged : ℕ → Load → Ring → Ring
send_defragged m (loaded segs) sc = enqueue m segs sc
send_defragged m too_big sc = drop_frame m sc
send_defragged m load_fails sc = drop_frame m sc

abbrev pub count_defrag : Ring → Ring
count_defrag sc = record sc { txdefrags = u32 (sc.txdefrags + 1) }

abbrev pub defrag_frame : ℕ → Option ℕ → Load → Ring → Ring
defrag_frame m none reload sc = record sc {
  txdefragfails = u32 (sc.txdefragfails + 1);
  freed = free (some m) sc.freed;
  txring_m_dmamap = update sc.txring_m_dmamap sc.txring_hd_ptr false;
}
defrag_frame m (some m2) reload sc = send_defragged m2 reload (count_defrag sc)

abbrev pub load_frame : Packet → Load → Ring → Ring
load_frame p (loaded segs) sc = enqueue p.mbuf segs sc
load_frame p too_big sc = defrag_frame p.mbuf p.defrag p.reload sc
load_frame p load_fails sc = drop_frame p.mbuf sc

-- The body of the loop of cgem_start_locked, from if_dequeue on.
abbrev pub send : Packet → Ring → Ring
send p sc = if p.mapped then load_frame p p.load sc else record sc {
  freed = free (some p.mbuf) sc.freed;
  txdmamapfails = u32 (sc.txdmamapfails + 1);
}

-- The ring counts as full with less than two largest frames of room.
abbrev pub is_full : Ring → Bool
is_full sc = leb (num_tx_descs - tx_max_dma_segs * 2) sc.txring_queued

abbrev pub make_room : Ring → Ring
make_room sc = if is_full sc then clean_tx sc else sc

abbrev pub give_up : Ring → Ring
give_up sc = record sc { oactive = true; txfull = u32 (sc.txfull + 1) }

-- The loop of cgem_start_locked: the ring, and what is left on the send queue.
unfoldable pub start_loop : List Packet → Ring → Ring × List Packet
start_loop [] sc =
    let roomy = make_room sc in if is_full roomy then (give_up roomy, []) else (roomy, [])
start_loop (p ∷ ps) sc =
    let roomy = make_room sc in
    let rest = start_loop ps (send p roomy) in
    if is_full roomy then (give_up roomy, p ∷ ps) else rest

-- cgem_start_locked
unfoldable pub start_locked : List Packet → Ring → Ring × List Packet
start_locked ps sc = if sc.oactive then (sc, ps) else start_loop ps sc

-- The part of cgem_stop that frees what the slots below n hold, in their order.
unfoldable pub free_slots : ℕ → Ring → Ring
free_slots zero sc = sc
free_slots (suc n) sc =
    let before = free_slots n sc in
    elim (before.txring_m n) [
      | none ↦ before
      | some m ↦ record before {
        txring_m_dmamap = update before.txring_m_dmamap n false;
        txring_m = update before.txring_m n none;
        freed = free (some m) before.freed;
      }
    ]

-- The transmit side of cgem_stop.
abbrev pub stop_tx : Ring → Ring
stop_tx sc = record (free_slots num_tx_descs sc) {
  txring = unused;
  txring_hd_ptr = 0;
  txring_tl_ptr = 0;
  txring_queued = 0;
}
