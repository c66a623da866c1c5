-- ===== src/Eth/Tx/Start.antt =====
-- cgem_start_locked on a ring that holds frames.
use free_bsd15_rpi5_modules.Base.{
  ℕ, suc, ◌+◌, ◌-◌, ◌≤◌, ◌<◌, ◌≡◌, ◌⊎◌, inl, inr, refl, ap, true, false, Option, none, some, List,
  [], ◌∷◌, ◌++◌, arith, Bool-cases, length, length-append,
}
use free_bsd15_rpi5_modules.Eth.Tx.{
  Ring, Seg, Load, loaded, too_big, load_fails, Packet, enqueue, send_defragged, defrag_frame,
  count_defrag, load_frame, send, is_full, make_room, start_loop, start_locked,
}
use free_bsd15_rpi5_modules.Eth.Tx.Frames.{Frame, mbufs, Holds}
use free_bsd15_rpi5_modules.Eth.Tx.Place.{Fits, LoadFits, AllFit, enqueue-Holds}
use free_bsd15_rpi5_modules.Eth.Tx.Reclaim.{clean_tx-Cleaned}

-- The mbufs that the ring answers for: those it has freed and those on it.
abbrev pub accounted : Ring → List Frame → ℕ
accounted sc fs = length sc.freed + length fs

-- What a step of the transmission leaves: frames on the ring, and n more mbufs accounted for.
pub record Took (sc : Ring) (fs : List Frame) (n : ℕ) (out : Ring) : Type 0 where
  pub left : List Frame
  pub holds : Holds out left
  pub each : accounted out left ≡ accounted sc fs + n

failed-Took :
    (sc out : Ring) (fs : List Frame)
    → Holds out fs
    → length out.freed ≡ length sc.freed + 1
    → Took sc fs 1 out
failed-Took sc out fs h e = record { left = fs; holds = h; each = omega (arith, e) }

enqueue-Took :
    (m : ℕ) (segs : List Seg) (sc : Ring) (fs : List Frame)
    → Fits segs
    → Holds sc fs
    → sc.txring_queued < 240
    → Took sc fs 1 (enqueue m segs sc)
enqueue-Took m segs sc fs f h room = record {
  left = fs ++ (record { mbuf = m; more = length segs - 1 } ∷ []);
  holds = enqueue-Holds m segs sc fs f h room;
  each = omega (arith, length-append fs (record { mbuf = m; more = length segs - 1 } ∷ []));
}

same-Holds :
    (sc out : Ring) (fs : List Frame)
    → out.txring ≡ sc.txring
    → out.txring_m ≡ sc.txring_m
    → out.txring_hd_ptr ≡ sc.txring_hd_ptr
    → out.txring_tl_ptr ≡ sc.txring_tl_ptr
    → out.txring_queued ≡ sc.txring_queued
    → Holds sc fs
    → Holds out fs
same-Holds sc out fs a b c d e h = record {
  chain = rw (a, b, c, d) h.chain;
  count = rw e h.count;
  limit = rw e h.limit;
  head = rw c h.head;
  tail = rw d h.tail;
}

send_defragged-Took :
    (m : ℕ) (l : Load) (sc : Ring) (fs : List Frame)
    → LoadFits l
    → Holds sc fs
    → sc.txring_queued < 240
    → Took sc fs 1 (send_defragged m l (count_defrag sc))
send_defragged-Took m (loaded segs) sc fs f h room =
    let counted = same-Holds sc (count_defrag sc) fs refl refl refl refl refl h in
    let t = enqueue-Took m segs (count_defrag sc) fs f counted room in
    record { left = t.left; holds = t.holds; each = t.each }
send_defragged-Took m too_big sc fs f h room =
    failed-Took sc _ fs (same-Holds sc _ fs refl refl refl refl refl h)
      (length-append sc.freed (m ∷ []))
send_defragged-Took m load_fails sc fs f h room =
    failed-Took sc _ fs (same-Holds sc _ fs refl refl refl refl refl h)
      (length-append sc.freed (m ∷ []))

load_frame-Took :
    (p : Packet) (l : Load) (sc : Ring) (fs : List Frame)
    → LoadFits l
    → LoadFits p.reload
    → Holds sc fs
    → sc.txring_queued < 240
    → Took sc fs 1 (load_frame p l sc)
load_frame-Took p (loaded segs) sc fs f g h room = enqueue-Took p.mbuf segs sc fs f h room
load_frame-Took p too_big sc fs f g h room = defragged p.defrag
  where
    defragged : (o : Option ℕ) → Took sc fs 1 (defrag_frame p.mbuf o p.reload sc)
    defragged none =
        failed-Took sc _ fs (same-Holds sc _ fs refl refl refl refl refl h)
          (length-append sc.freed (p.mbuf ∷ []))
    defragged (some m2) = send_defragged-Took m2 p.reload sc fs g h room
load_frame-Took p load_fails sc fs f g h room =
    failed-Took sc _ fs (same-Holds sc _ fs refl refl refl refl refl h)
      (length-append sc.freed (p.mbuf ∷ []))

send-Took :
    (p : Packet) (sc : Ring) (fs : List Frame)
    → LoadFits p.load
    → LoadFits p.reload
    → Holds sc fs
    → sc.txring_queued < 240
    → Took sc fs 1 (send p sc)
send-Took p sc fs f g h room = elim (Bool-cases p.mapped) [
  | inl e ↦ rw e (load_frame-Took p p.load sc fs f g h room)
  | inr e ↦ rw e (
      failed-Took sc _ fs (same-Holds sc _ fs refl refl refl refl refl h)
        (length-append sc.freed (p.mbuf ∷ [])))
]

length-mbufs : (fs : List Frame) → length (mbufs fs) ≡ length fs
length-mbufs [] = refl
length-mbufs (f ∷ fs) = ap suc (length-mbufs fs)

make_room-Took : (sc : Ring) (fs : List Frame) → Holds sc fs → Took sc fs 0 (make_room sc)
make_room-Took sc fs h = elim (Bool-cases (is_full sc)) [
  | inr e ↦ rw e (record { left = fs; holds = h; each = omega arith })
  | inl e ↦
      let c = clean_tx-Cleaned sc fs h in
      rw e (record {
        left = c.left;
        holds = c.holds;
        each = omega (
          arith,
          ap length c.freed,
          length-append sc.freed (mbufs c.gone),
          length-mbufs c.gone,
          ap length c.splits,
          length-append c.gone c.left,
        );
      })
]

-- Where a transmission ends: with the send queue empty, or the interface marked as busy with 240 or more
-- descriptors queued.
pub record Started (sc : Ring) (fs : List Frame) (ps : List Packet) (out : Ring × List Packet)
    : Type 0 where
  pub left : List Frame
  pub holds : Holds out.0 left
  pub each : accounted out.0 left + length out.1 ≡ accounted sc fs + length ps
  pub ends : (out.1 ≡ []) ⊎ ((out.0.oactive ≡ true) × (240 ≤ out.0.txring_queued))

start_loop-Started :
    (ps : List Packet) (sc : Ring) (fs : List Frame)
    → AllFit ps
    → Holds sc fs
    → Started sc fs ps (start_loop ps sc)
unfolding start_loop
start_loop-Started [] sc fs f h =
    let r = make_room-Took sc fs h in
    elim (Bool-cases (is_full (make_room sc))) [
      | inl e ↦ rw e (record {
        left = r.left;
        holds = same-Holds (make_room sc) _ r.left refl refl refl refl refl r.holds;
        each = omega (arith, r.each);
        ends = inl refl;
      })
      | inr e ↦
          rw e (record {
            left = r.left;
            holds = r.holds;
            each = omega (arith, r.each);
            ends = inl refl;
          })
    ]
start_loop-Started (p ∷ ps) sc fs f h =
    let r = make_room-Took sc fs h in
    elim (Bool-cases (is_full (make_room sc))) [
      | inl e ↦ rw e (record {
        left = r.left;
        holds = same-Holds (make_room sc) _ r.left refl refl refl refl refl r.holds;
        each = omega (arith, r.each);
        ends = inr (refl, ground (arith, e));
      })
      | inr e ↦
          let t = send-Took p (make_room sc) r.left f.0 f.1 r.holds (ground (arith, e)) in
          let s = start_loop-Started ps (send p (make_room sc)) t.left f.2 t.holds in
          rw e (record {
            left = s.left;
            holds = s.holds;
            each = omega (arith, s.each, t.each, r.each);
            ends = s.ends;
          })
    ]

-- On an idle interface whose ring holds frames, with a send queue of packets that bus_dma loads into at
-- most eight short segments: cgem_start_locked ends with the queue empty, or with the interface marked
-- as busy and 240 descriptors or more queued; the ring holds frames again; and the packets left on the
-- queue, the frames on the ring and the mbufs freed are together as many as they were.
pub start_locked-Started :
    (ps : List Packet) (sc : Ring) (fs : List Frame)
    → AllFit ps
    → Holds sc fs
    → sc.oactive ≡ false
    → Started sc fs ps (start_locked ps sc)
unfolding start_locked
start_locked-Started ps sc fs f h idle = simp idle (start_loop-Started ps sc fs f h)
