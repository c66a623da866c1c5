-- ===== src/Eth/Ring.antt =====
-- The receive ring: its invariant, through filling and receiving.
use free_bsd15_rpi5_modules.Base.{
  ℕ, ◌∙◌, zero, suc, ◌+◌, ◌-◌, ◌%◌, ◌≤◌, ◌<◌, ◌≡◌, ◌≢◌, inl, inr, refl, ap, Bool, false, Option,
  none, some, List, [], ◌∷◌, arith, ◌==◌, if◌then◌else◌, Bool-cases, Option-cases, bit, update,
  length,
}
use free_bsd15_rpi5_modules.Eth.{
  RxDesc, Softc, Alloc, no_mbuf, create_fails, load_fails, loaded, enqueue, dequeue, fill,
  fill_rqueue, drain, recv, Frame, is_good, init_ring, count_mapfail,
}

-- The queued descriptors are the `rxring_queued` ones from the tail on, modulo 256; they are the ones
-- with an mbuf.
pub record IsRing (sc : Softc) : Type 0 where
  pub tail : sc.rxring_tl_ptr < 256
  pub head : sc.rxring_hd_ptr ≡ (sc.rxring_tl_ptr + sc.rxring_queued) % 256
  pub limit : sc.rxring_queued ≤ 256
  pub bufs : sc.rxbufs ≤ 256
  pub full :
      (i : ℕ)
      → i < sc.rxring_queued
      → (m : ℕ) × (sc.rxring_m ((sc.rxring_tl_ptr + i) % 256) ≡ some m)
  pub empty :
      (i : ℕ) → sc.rxring_queued ≤ i → i < 256 → sc.rxring_m ((sc.rxring_tl_ptr + i) % 256) ≡ none

put_other : (r : ℕ → Option ℕ) (a : ℕ) (v : Option ℕ) (j : ℕ) → j ≢ a → update r a v j ≡ r j
put_other r a v j n = ground arith

put_self : (r : ℕ → Option ℕ) (a : ℕ) (v : Option ℕ) (j : ℕ) → j ≡ a → update r a v j ≡ v
put_self r a v j e = ground arith

enqueue-IsRing :
    (sc : Softc) (m ds_addr : ℕ)
    → IsRing sc
    → sc.rxring_queued < 256
    → IsRing (enqueue sc m ds_addr)
enqueue-IsRing sc m ds_addr k room = record {
  tail = k.tail;
  head = ground (arith, k.head, k.tail);
  limit = omega arith;
  bufs = k.bufs;
  full = λ i l. elim (Bool-cases (i == sc.rxring_queued)) [
    | inl e ↦ (
      m,
      put_self sc.rxring_m sc.rxring_hd_ptr (some m) ((sc.rxring_tl_ptr + i) % 256)
          (ground (arith, k.head, e)),
    )
    | inr e ↦
        let (m', h) = k.full i (ground (arith, e, l)) in
        (
          m',
          put_other sc.rxring_m sc.rxring_hd_ptr (some m) ((sc.rxring_tl_ptr + i) % 256)
                (λ z. ground (arith, k.head, k.tail, z, e, l))
              ∙ h,
        )
  ];
  empty = λ i l h.
      put_other sc.rxring_m sc.rxring_hd_ptr (some m) ((sc.rxring_tl_ptr + i) % 256)
        (λ z. omega (arith, k.head, k.tail, z, l, h))
      ∙ k.empty i (omega (arith, l)) h;
}

next_slot :
    (tl i : ℕ) → tl < 256 → ((if tl + 1 == 256 then 0 else tl + 1) + i) % 256 ≡ (tl + suc i) % 256
next_slot tl i h = ground arith

slot_ne : (tl i : ℕ) → tl < 256 → i < 255 → (tl + suc i) % 256 ≢ tl
slot_ne tl i h l e = omega arith

dequeue-IsRing : (sc : Softc) → IsRing sc → 0 < sc.rxring_queued → IsRing (dequeue sc)
dequeue-IsRing sc k some_queued = record {
  tail = ground (arith, k.tail);
  head = ground (arith, k.head, k.tail);
  limit = omega (arith, k.limit);
  bufs = k.bufs;
  full = λ i l.
      let (m, h) = k.full (suc i) (omega (arith, l)) in
      (
        m,
        ap (update sc.rxring_m sc.rxring_tl_ptr none) (next_slot sc.rxring_tl_ptr i k.tail)
            ∙ put_other sc.rxring_m sc.rxring_tl_ptr none ((sc.rxring_tl_ptr + suc i) % 256)
                (slot_ne sc.rxring_tl_ptr i k.tail (omega (arith, l, k.limit)))
            ∙ h,
      );
  empty = λ i l h.
      ap (update sc.rxring_m sc.rxring_tl_ptr none) (next_slot sc.rxring_tl_ptr i k.tail)
      ∙ vacated i (omega (arith, l)) h;
}
  where
    vacated :
        (i : ℕ)
        → sc.rxring_queued ≤ suc i
        → i < 256
        → update sc.rxring_m sc.rxring_tl_ptr none ((sc.rxring_tl_ptr + suc i) % 256) ≡ none
    vacated i l h = elim (Bool-cases (i == 255)) [
      | inl e ↦
          put_self sc.rxring_m sc.rxring_tl_ptr none ((sc.rxring_tl_ptr + suc i) % 256)
            (ground (arith, e, k.tail))
      | inr e ↦
          put_other sc.rxring_m sc.rxring_tl_ptr none ((sc.rxring_tl_ptr + suc i) % 256)
            (slot_ne sc.rxring_tl_ptr i k.tail (ground (arith, e, h)))
          ∙ k.empty (suc i) l (ground (arith, e, h))
    ]

fill-IsRing :
    (rounds : ℕ) (alloc : ℕ → Alloc) (sc : Softc)
    → IsRing sc
    → sc.rxring_queued + rounds ≤ 256
    → IsRing (fill rounds alloc sc)
unfolding fill
fill-IsRing zero alloc sc k h = k
fill-IsRing (suc rounds) alloc sc k h = filled (alloc rounds) (λ m a.
    fill-IsRing rounds alloc (enqueue sc m a) (enqueue-IsRing sc m a k (omega (arith, h)))
      (omega (arith, h)))
  where
    same :
        (fails : ℕ) (maps : ℕ → Bool)
        → IsRing (record sc { rxdmamapfails = fails; rxring_m_dmamap = maps })
    same fails maps = record {
      tail = k.tail;
      head = k.head;
      limit = k.limit;
      bufs = k.bufs;
      full = k.full;
      empty = k.empty;
    }

    filled :
        (a : Alloc)
        → ((m ds_addr : ℕ) → IsRing (fill rounds alloc (enqueue sc m ds_addr)))
        → IsRing (elim a [
          | no_mbuf ↦ sc
          | create_fails ↦ count_mapfail sc
          | load_fails ↦ record (count_mapfail sc) {
            rxring_m_dmamap = update sc.rxring_m_dmamap sc.rxring_hd_ptr false;
          }
          | loaded m ds_addr ↦ fill rounds alloc (enqueue sc m ds_addr)
        ])
    filled no_mbuf rest = k
    filled create_fails rest = same _ sc.rxring_m_dmamap
    filled load_fails rest = same _ _
    filled (loaded m a) rest = rest m a

-- What a drain leaves: the ring, and a frame or an error for each descriptor that it took off.
pub record Drained (sc : Softc) (out : Softc × List Frame × ℕ) : Type 0 where
  pub ring : IsRing out.0
  pub each : out.0.rxring_queued + length out.1 + out.2 ≡ sc.rxring_queued

drain-Drained :
    (rounds : ℕ) (rxcsum : Bool) (sc : Softc)
    → IsRing sc
    → rounds ≤ sc.rxring_queued
    → Drained sc (drain rounds rxcsum sc)
unfolding drain
drain-Drained zero rxcsum sc k h = record { ring = k; each = omega arith }
drain-Drained (suc rounds) rxcsum sc k h =
    let rest =
      drain-Drained rounds rxcsum (dequeue sc) (dequeue-IsRing sc k (omega (arith, h)))
        (omega (arith, h)) in
    let one : sc.rxring_queued - 1 + 1 ≡ sc.rxring_queued = omega (arith, h) in
    elim (Bool-cases (bit (sc.rxring sc.rxring_tl_ptr).addr 0)) [
      | inr e ↦ rw e (record { ring = k; each = omega arith })
      | inl e ↦ elim (Option-cases (sc.rxring_m sc.rxring_tl_ptr)) [
        | inl o ↦ rw (e, o) (record { ring = rest.ring; each = omega (arith, rest.each, one) })
        | inr (m, o) ↦ elim (Bool-cases (is_good (sc.rxring sc.rxring_tl_ptr).ctl)) [
          | inl g ↦ rw (e, o, g) (record { ring = rest.ring; each = omega (arith, rest.each, one) })
          | inr g ↦ rw (e, o, g) (record { ring = rest.ring; each = omega (arith, rest.each, one) })
        ]
      ]
    ]

fill_rqueue-IsRing : (alloc : ℕ → Alloc) (sc : Softc) → IsRing sc → IsRing (fill_rqueue alloc sc)
unfolding fill_rqueue
fill_rqueue-IsRing alloc sc k =
    fill-IsRing (sc.rxbufs - sc.rxring_queued) alloc sc k (omega (arith, k.bufs, k.limit))

-- What happens to the ring: the driver fills it or receives, or the controller writes descriptors.
pub data Event : Type 0 where
  fills : (ℕ → Alloc) → Event
  receives : Bool → (ℕ → Alloc) → Event
  writes : (ℕ → RxDesc) → Event

abbrev pub happen : Event → Softc → Softc
happen (fills alloc) sc = fill_rqueue alloc sc
happen (receives rxcsum alloc) sc = (recv rxcsum alloc sc).0
happen (writes descs) sc = record sc { rxring = descs }

abbrev pub run : List Event → Softc → Softc
run [] sc = sc
run (e ∷ es) sc = run es (happen e sc)

happen-IsRing : (e : Event) (sc : Softc) → IsRing sc → IsRing (happen e sc)
unfolding recv
happen-IsRing (fills alloc) sc k = fill_rqueue-IsRing alloc sc k
happen-IsRing (receives rxcsum alloc) sc k =
    let d = drain-Drained sc.rxring_queued rxcsum sc k (omega arith) in
    fill_rqueue-IsRing alloc (drain sc.rxring_queued rxcsum sc).0 d.ring
happen-IsRing (writes descs) sc k = record {
  tail = k.tail;
  head = k.head;
  limit = k.limit;
  bufs = k.bufs;
  full = k.full;
  empty = k.empty;
}

events-IsRing : (es : List Event) (sc : Softc) → IsRing sc → IsRing (run es sc)
events-IsRing [] sc k = k
events-IsRing (e ∷ es) sc k = events-IsRing es (happen e sc) (happen-IsRing e sc k)

init_ring-IsRing : (rxbufs : ℕ) → rxbufs ≤ 256 → IsRing (init_ring rxbufs)
init_ring-IsRing rxbufs h = record {
  tail = omega arith;
  head = omega arith;
  limit = omega arith;
  bufs = h;
  full = λ i l. absurd (omega (arith, l));
  empty = λ i l g. refl;
}

-- With at most 256 receive buffers configured, from the set-up of the ring on, whatever the driver
-- fills and receives, whatever the allocators give and the controller writes: the head is the tail
-- plus the number queued, modulo 256, that number is at most 256, and of the 256 slots exactly the
-- queued ones have an mbuf.
pub run-IsRing : (rxbufs : ℕ) (es : List Event) → rxbufs ≤ 256 → IsRing (run es (init_ring rxbufs))
run-IsRing rxbufs es h = events-IsRing es (init_ring rxbufs) (init_ring-IsRing rxbufs h)

-- Receiving on such a ring takes off each descriptor that it reads once: as many frames and input errors
-- together as descriptors fewer are queued before the ring is filled again.
recv_each :
    (rxcsum : Bool) (alloc : ℕ → Alloc) (sc : Softc)
    → IsRing sc
    → (left : Softc) × ((recv rxcsum alloc sc).0 ≡ fill_rqueue alloc left)
      × (left.rxring_queued + length (recv rxcsum alloc sc).1 + (recv rxcsum alloc sc).2
          ≡ sc.rxring_queued)
unfolding recv
recv_each rxcsum alloc sc k =
    let d = drain-Drained sc.rxring_queued rxcsum sc k (omega arith) in
    ((drain sc.rxring_queued rxcsum sc).0, refl, d.each)
