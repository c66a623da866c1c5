-- ===== src/Eth/Tx/Reclaim.antt =====
-- cgem_clean_tx on a ring that holds frames.
use free_bsd15_rpi5_modules.Base.{
  ℕ, ◌∙◌, zero, suc, ◌+◌, ◌-◌, ◌≤◌, ◌<◌, ◌≡◌, ◌⊎◌, inl, inr, refl, ap, sym, true, false, Option,
  none, List, [], ◌∷◌, ◌++◌, arith, ltb, leb, if◌then◌else◌, Bool-cases, bit, update_ne,
}
use mathlib.Core.List.{append_assoc, append-nil}
use free_bsd15_rpi5_modules.Eth.Tx.{
  TxDesc, Ring, skip, release, reclaim, clean, clean_tx, advance, mark_used, free,
}
use free_bsd15_rpi5_modules.Eth.Tx.Frames.{
  Frame, after, IsFrame, mbufs, Holds, Agree, Clear, Chain-kept, Clear-tail,
}

-- What the inner loop leaves, from the i-th descriptor of a frame on: the tail at the last one, whose
-- control word is the result, and nothing else changed but used bits of the frame.
record Skipped (sc : Ring) (ring : ℕ → TxDesc) (pos : ℕ) (f : Frame) (left : ℕ) (out : Ring × ℕ)
    : Type 0 where
  tail : out.0.txring_tl_ptr ≡ pos + f.more
  queued : out.0.txring_queued ≡ sc.txring_queued - left
  ctl : out.1 ≡ (ring (pos + f.more)).ctl
  words : (i : ℕ) → (i < pos) ⊎ (pos + suc f.more ≤ i) → out.0.txring i ≡ sc.txring i
  slots : out.0.txring_m ≡ sc.txring_m
  head : out.0.txring_hd_ptr ≡ sc.txring_hd_ptr
  freed : out.0.freed ≡ sc.freed

module _ (ring : ℕ → TxDesc) (ms : ℕ → Option ℕ) (pos : ℕ) (f : Frame)
    (k : IsFrame ring ms pos f) where
  skip-Skipped :
      (rounds i left ctl : ℕ) (sc : Ring)
      → i + left ≡ f.more
      → left ≤ rounds
      → sc.txring_tl_ptr ≡ pos + i
      → ctl ≡ (ring (pos + i)).ctl
      → ((j : ℕ) → i < j → sc.txring (pos + j) ≡ ring (pos + j))
      → Skipped sc ring pos f left (skip rounds ctl sc)
  unfolding skip
  skip-Skipped rounds i zero ctl sc e l t c w =
      let here : i ≡ f.more = omega (arith, e) in
      stop rounds (ap (λ x. bit x 15) (c ∙ ap (λ x. (ring (pos + x)).ctl) here) ∙ k.last) here
    where
      done : i ≡ f.more → Skipped sc ring pos f 0 (sc, ctl)
      done here = record {
        tail = t ∙ ap (λ x. pos + x) here;
        queued = omega arith;
        ctl = c ∙ ap (λ x. (ring (pos + x)).ctl) here;
        words = λ j h. refl;
        slots = refl;
        head = refl;
        freed = refl;
      }

      stop :
          (rounds : ℕ)
          → bit ctl 15 ≡ true
          → i ≡ f.more
          → Skipped sc ring pos f 0 (skip rounds ctl sc)
      stop zero b here = done here
      stop (suc rounds) b here = rw (skip, b) (done here)
  skip-Skipped zero i (suc left) ctl sc e l t c w = absurd (omega (arith, l))
  skip-Skipped (suc rounds) i (suc left) ctl sc e l t c w =
      let b : bit ctl 15 ≡ false = ap (λ x. bit x 15) c ∙ k.middle i (omega (arith, e)) in
      let u : bit ctl 30 ≡ false = ap (λ x. bit x 30) c ∙ k.unwrapped i (omega (arith, e)) in
      let step : (advance ctl sc).txring_tl_ptr ≡ pos + suc i = ground (arith, u, t) in
      let word : sc.txring (advance ctl sc).txring_tl_ptr ≡ ring (pos + suc i) =
        ap sc.txring step ∙ w (suc i) (omega arith) in
      let rest =
        skip-Skipped rounds (suc i) left _ (mark_used (advance ctl sc)) (omega (arith, e))
          (omega (arith, l)) step (ap TxDesc.ctl word)
          (λ j g.
            update_ne sc.txring _ _ (pos + j) (λ z. omega (arith, z, step, g))
            ∙ w j (omega (arith, g))) in
      rw b (record {
        tail = rest.tail;
        queued = omega (arith, rest.queued);
        ctl = rest.ctl;
        words = λ j g.
            rest.words j g
            ∙ update_ne sc.txring _ _ j (λ z. elim g [
              | inl h ↦ omega (arith, h, z, step)
              | inr h ↦ omega (arith, h, z, step, e)
            ]);
        slots = rest.slots;
        head = rest.head;
        freed = rest.freed;
      })

-- What reclaiming the oldest frame leaves: the ring agrees outside its slots.
record Reclaimed (sc : Ring) (f : Frame) (out : Ring) : Type 0 where
  agree : Agree sc.txring_tl_ptr (suc f.more) sc.txring out.txring sc.txring_m out.txring_m
  tail : out.txring_tl_ptr ≡ after sc.txring_tl_ptr f.more
  head : out.txring_hd_ptr ≡ sc.txring_hd_ptr
  queued : out.txring_queued ≡ sc.txring_queued - suc f.more
  freed : out.freed ≡ sc.freed ++ (f.mbuf ∷ [])

reclaim-Reclaimed :
    (sc : Ring) (f : Frame)
    → IsFrame sc.txring sc.txring_m sc.txring_tl_ptr f
    → suc f.more ≤ sc.txring_queued
    → Reclaimed sc f (reclaim sc)
reclaim-Reclaimed sc f k l =
    let tl = sc.txring_tl_ptr in
    let s =
      skip-Skipped sc.txring sc.txring_m tl f k sc.txring_queued 0 f.more (sc.txring tl).ctl
        (release sc) (omega arith) (omega (arith, l)) (omega arith)
        (ap (λ x. (sc.txring x).ctl) (omega arith)) (λ j g. refl) in
    let w : bit (skip sc.txring_queued (sc.txring tl).ctl (release sc)).1 30
        ≡ leb 256 (tl + suc f.more + 8) =
      ap (λ x. bit x 30) s.ctl ∙ k.wraps in
    record {
      agree = record {
        words = s.words;
        slots = λ i g.
            ap (λ ms. ms i) s.slots
            ∙ update_ne sc.txring_m tl none i
                (λ z. elim g [ inl h ↦ omega (arith, h, z) | inr h ↦ omega (arith, h, z) ]);
      };
      tail =
          rw w (ap (λ x. if leb 256 (tl + suc f.more + 8) then 0 else x) (omega (arith, s.tail)));
      head = s.head;
      queued = omega (arith, s.queued);
      freed = s.freed ∙ ap (λ o. free o sc.freed) k.held;
    }

reclaim-Holds :
    (sc : Ring) (f : Frame) (fs : List Frame)
    → Holds sc (f ∷ fs)
    → Reclaimed sc f (reclaim sc)
    → Holds (reclaim sc) fs
reclaim-Holds sc f fs h r = record {
  chain =
      rw (r.tail, r.head)
        (Chain-kept _ _ sc.txring (reclaim sc).txring sc.txring_m (reclaim sc).txring_m r.agree
          (after sc.txring_tl_ptr f.more) fs sc.txring_hd_ptr
          (Clear-tail sc.txring sc.txring_m sc.txring_tl_ptr f fs sc.txring_hd_ptr h.chain
            (omega (arith, h.count, h.limit)))
          h.chain.1);
  count = omega (arith, r.queued, h.count);
  limit = omega (arith, r.queued, h.limit);
  head = omega (arith, r.head, h.head);
  tail = ground (arith, r.tail, h.tail);
}

-- The controller is done with each of these frames.
abbrev pub AllUsed : (ℕ → TxDesc) → ℕ → List Frame → Type 0
AllUsed ring pos [] = Unit {0}
AllUsed ring pos (f ∷ fs) = (bit (ring pos).ctl 31 ≡ true) × AllUsed ring (after pos f.more) fs

used_kept :
    (lo w : ℕ) (ring ring' : ℕ → TxDesc) (ms ms' : ℕ → Option ℕ)
    → Agree lo w ring ring' ms ms'
    → (pos : ℕ) (done left : List Frame) → Clear lo w pos (done ++ left)
    → AllUsed ring' pos done
    → AllUsed ring pos done
used_kept lo w ring ring' ms ms' a pos [] left c u = tt
used_kept lo w ring ring' ms ms' a pos (f ∷ done) left c u = (
  sym (
        ap (λ d. bit d.ctl 31)
          (a.words pos (elim c.0 [ inl h ↦ inl (omega (arith, h)) | inr h ↦ inr h ])))
      ∙ u.0,
  used_kept lo w ring ring' ms ms' a (after pos f.more) done left c.1 u.1,
)

-- What cgem_clean_tx does to the queue of frames: it frees the mbufs of the oldest frames, in their
-- order, each of which the controller is done with, and stops at the first that it is not.
pub record Cleaned (sc : Ring) (fs : List Frame) (out : Ring) : Type 0 where
  pub gone : List Frame
  pub left : List Frame
  pub splits : fs ≡ gone ++ left
  pub used : AllUsed sc.txring sc.txring_tl_ptr gone
  pub freed : out.freed ≡ sc.freed ++ mbufs gone
  pub holds : Holds out left
  pub stops : (left ≡ []) ⊎ (bit (out.txring out.txring_tl_ptr).ctl 31 ≡ false)
  pub fewer : out.txring_queued ≤ sc.txring_queued

same-Cleaned :
    (sc : Ring) (fs : List Frame)
    → Holds sc fs
    → (fs ≡ []) ⊎ (bit (sc.txring sc.txring_tl_ptr).ctl 31 ≡ false)
    → Cleaned sc fs sc
same-Cleaned sc fs h stops = record {
  gone = [];
  left = fs;
  splits = refl;
  used = tt;
  freed = sym (append-nil sc.freed);
  holds = h;
  stops = stops;
  fewer = omega arith;
}

clean-Cleaned :
    (rounds : ℕ) (sc : Ring) (fs : List Frame)
    → Holds sc fs
    → sc.txring_queued ≤ rounds
    → Cleaned sc fs (clean rounds sc)
unfolding clean
clean-Cleaned zero sc [] h l = same-Cleaned sc [] h (inl refl)
clean-Cleaned zero sc (f ∷ fs) h l = absurd (omega (arith, h.count, l))
clean-Cleaned (suc rounds) sc [] h l =
    let none_queued : ltb 0 sc.txring_queued ≡ false = ground (arith, h.count) in
    rw none_queued (same-Cleaned sc [] h (inl refl))
clean-Cleaned (suc rounds) sc (f ∷ fs) h l =
    let some_queued : ltb 0 sc.txring_queued ≡ true = ground (arith, h.count) in
    let r = reclaim-Reclaimed sc f h.chain.0 (omega (arith, h.count)) in
    elim (Bool-cases (bit (sc.txring sc.txring_tl_ptr).ctl 31)) [
      | inr e ↦ rw (some_queued, e) (same-Cleaned sc (f ∷ fs) h (inr e))
      | inl e ↦
          let c =
            clean-Cleaned rounds (reclaim sc) fs (reclaim-Holds sc f fs h r)
              (omega (arith, r.queued, l)) in
          rw (some_queued, e) (grow e r c)
    ]
  where
    grow :
        {out : Ring}
        → bit (sc.txring sc.txring_tl_ptr).ctl 31 ≡ true
        → Reclaimed sc f (reclaim sc)
        → Cleaned (reclaim sc) fs out
        → Cleaned sc (f ∷ fs) out
    grow e r c = record {
      gone = f ∷ c.gone;
      left = c.left;
      splits = ap (λ l. f ∷ l) c.splits;
      used = (
        e,
        used_kept sc.txring_tl_ptr (suc f.more) sc.txring (reclaim sc).txring sc.txring_m
            (reclaim sc).txring_m r.agree (after sc.txring_tl_ptr f.more) c.gone c.left
            (rw (sym c.splits) (
              Clear-tail sc.txring sc.txring_m sc.txring_tl_ptr f fs sc.txring_hd_ptr h.chain
                (omega (arith, h.count, h.limit))))
            (rw (sym r.tail) c.used),
      );
      freed =
          c.freed
          ∙ ap (λ l. l ++ mbufs c.gone) r.freed
          ∙ append_assoc sc.freed (f.mbuf ∷ []) (mbufs c.gone);
      holds = c.holds;
      stops = c.stops;
      fewer = omega (arith, c.fewer, r.queued);
    }

-- On a ring that holds frames, cgem_clean_tx takes off the oldest ones, each with its first descriptor
-- marked as used, frees just their mbufs in their order, leaves the ring holding the others, and ends
-- only where no frame is left or the oldest is not marked.
pub clean_tx-Cleaned : (sc : Ring) (fs : List Frame) → Holds sc fs → Cleaned sc fs (clean_tx sc)
clean_tx-Cleaned sc fs h = clean-Cleaned sc.txring_queued sc fs h (omega arith)
