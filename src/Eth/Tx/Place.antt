-- ===== src/Eth/Tx/Place.antt =====
-- A frame that cgem_start_locked writes to the ring.
use free_bsd15_rpi5_modules.Base.{
  ℕ, ◌∙◌, zero, suc, ◌+◌, ◌-◌, ◌≤◌, ◌<◌, ◌≡◌, ◌⊎◌, inl, inr, refl, ap, Bool, true, false, ◌&&◌,
  Option, none, some, List, [], ◌∷◌, ◌++◌, arith, leb, ◌==◌, bit, update, update_ne, update_self,
  length,
}
use free_bsd15_rpi5_modules.Eth.Tx.{
  TxDesc, Ring, Seg, Load, loaded, too_big, load_fails, Packet, ctl_of, write_segs, clear_slots,
  enqueue,
}
use free_bsd15_rpi5_modules.Eth.Tx.Frames.{
  Frame, after, IsFrame, Chain, total, Holds, Agree, Chain-kept, Clear-head,
}

-- Segments as the DMA tag limits them: one to eight, each shorter than the length field's 2 ^ 15.
abbrev pub AllShort : List Seg → Type 0
AllShort [] = Unit {0}
AllShort (seg ∷ segs) = (seg.ds_len < 32768) × AllShort segs

pub record Fits (segs : List Seg) : Type 0 where
  pub some_seg : 0 < length segs
  pub few : length segs ≤ 8
  pub short : AllShort segs

abbrev pub LoadFits : Load → Type 0
LoadFits (loaded segs) = Fits segs
LoadFits too_big = Unit {0}
LoadFits load_fails = Unit {0}

abbrev pub AllFit : List Packet → Type 0
AllFit [] = Unit {0}
AllFit (p ∷ ps) = LoadFits p.load × LoadFits p.reload × AllFit ps

write_outside :
    (segs : List Seg) (pos : ℕ) (wrap : Bool) (ring : ℕ → TxDesc) (i : ℕ)
    → (i < pos) ⊎ (pos + length segs ≤ i)
    → write_segs segs pos wrap ring i ≡ ring i
unfolding write_segs
write_outside [] pos wrap ring i o = refl
write_outside (seg ∷ segs) pos wrap ring i o =
    update_ne (write_segs segs (pos + 1) wrap ring) pos _ i
      (λ z. elim o [ inl h ↦ omega (arith, h, z) | inr h ↦ omega (arith, h, z) ])
    ∙ write_outside segs (pos + 1) wrap ring i
        (elim o [ inl h ↦ inl (omega (arith, h)) | inr h ↦ inr (omega (arith, h)) ])

clear_outside :
    (n pos : ℕ) (ms : ℕ → Option ℕ) (i : ℕ)
    → (i < pos) ⊎ (pos + n ≤ i)
    → clear_slots n pos ms i ≡ ms i
unfolding clear_slots
clear_outside zero pos ms i o = refl
clear_outside (suc n) pos ms i o =
    update_ne (clear_slots n (pos + 1) ms) pos none i
      (λ z. elim o [ inl h ↦ omega (arith, h, z) | inr h ↦ omega (arith, h, z) ])
    ∙ clear_outside n (pos + 1) ms i
        (elim o [ inl h ↦ inl (omega (arith, h)) | inr h ↦ inr (omega (arith, h)) ])

-- The two bits of a control word that is written.
ctl_bits :
    (ds_len : ℕ) (is_last wrap : Bool)
    → ds_len < 32768
    → (bit (ctl_of ds_len is_last wrap) 15 ≡ is_last)
      × (bit (ctl_of ds_len is_last wrap) 30 ≡ is_last && wrap)
ctl_bits ds_len true true h = (ground (arith, h), ground (arith, h))
ctl_bits ds_len true false h = (ground (arith, h), ground (arith, h))
ctl_bits ds_len false wrap h = (ground (arith, h), ground (arith, h))

write_bits :
    (segs : List Seg) (pos : ℕ) (wrap : Bool) (ring : ℕ → TxDesc) (i j : ℕ)
    → i < length segs
    → j ≡ pos + i
    → AllShort segs
    → (bit (write_segs segs pos wrap ring j).ctl 15 ≡ (suc i == length segs))
      × (bit (write_segs segs pos wrap ring j).ctl 30 ≡ (suc i == length segs) && wrap)
unfolding write_segs
write_bits [] pos wrap ring i j l e a = absurd (omega (arith, l))
write_bits (seg ∷ segs) pos wrap ring zero j l e a =
    let same : (length segs == 0) ≡ (1 == suc (length segs)) = ground arith in
    let bits = ctl_bits seg.ds_len (length segs == 0) wrap a.0 in
    let word = update_self (write_segs segs (pos + 1) wrap ring) pos _ j (omega (arith, e)) in
    (
      ap (λ d. bit d.ctl 15) word ∙ bits.0 ∙ same,
      ap (λ d. bit d.ctl 30) word ∙ bits.1 ∙ ap (λ b. b && wrap) same,
    )
write_bits (seg ∷ segs) pos wrap ring (suc i) j l e a =
    let same : (suc i == length segs) ≡ (suc (suc i) == suc (length segs)) = ground arith in
    let rest = write_bits segs (pos + 1) wrap ring i j (omega (arith, l)) (omega (arith, e)) a.1 in
    let word = update_ne (write_segs segs (pos + 1) wrap ring) pos _ j (λ z. omega (arith, e, z)) in
    (
      ap (λ d. bit d.ctl 15) word ∙ rest.0 ∙ same,
      ap (λ d. bit d.ctl 30) word ∙ rest.1 ∙ ap (λ b. b && wrap) same,
    )

enqueue-IsFrame :
    (m : ℕ) (segs : List Seg) (sc : Ring)
    → Fits segs
    → sc.txring_hd_ptr < 248
    → IsFrame
        (enqueue m segs sc).txring
        (enqueue m segs sc).txring_m
        sc.txring_hd_ptr
        (record { mbuf = m; more = length segs - 1 })
enqueue-IsFrame m segs sc f h =
    let hd = sc.txring_hd_ptr in
    let wrap = leb 256 (hd + length segs + 8) in
    let size : suc (length segs - 1) ≡ length segs = omega (arith, f.some_seg) in
    record {
      few = omega (arith, f.few);
      low = h;
      held =
          clear_outside (length segs - 1) (hd + 1) (update sc.txring_m hd (some m)) hd
            (inl (omega arith))
          ∙ update_self sc.txring_m hd (some m) hd refl;
      middle = λ i l.
          (write_bits segs hd wrap sc.txring i _ (omega (arith, l)) refl f.short).0
          ∙ ground (arith, l);
      unwrapped = λ i l.
          (write_bits segs hd wrap sc.txring i _ (omega (arith, l)) refl f.short).1
          ∙ ground (arith, l);
      last =
          (write_bits segs hd wrap sc.txring (length segs - 1) _ (omega (arith, size)) refl
            f.short).0
          ∙ ground (arith, size);
      wraps =
          (write_bits segs hd wrap sc.txring (length segs - 1) _ (omega (arith, size)) refl
            f.short).1
          ∙ ground (arith, size);
    }

Chain-snoc :
    (ring : ℕ → TxDesc) (ms : ℕ → Option ℕ) (pos : ℕ) (fs : List Frame) (hd : ℕ) (f : Frame)
    → Chain ring ms pos fs hd
    → IsFrame ring ms hd f
    → Chain ring ms pos (fs ++ (f ∷ [])) (after hd f.more)
Chain-snoc ring ms pos [] hd f c k = (rw c k, ap (λ p. after p f.more) c)
Chain-snoc ring ms pos (g ∷ fs) hd f c k =
    (c.0, Chain-snoc ring ms (after pos g.more) fs hd f c.1 k)

total_snoc : (fs : List Frame) (f : Frame) → total (fs ++ (f ∷ [])) ≡ total fs + suc f.more
total_snoc [] f = omega arith
total_snoc (g ∷ fs) f = omega (arith, total_snoc fs f)

pub enqueue-Holds :
    (m : ℕ) (segs : List Seg) (sc : Ring) (fs : List Frame)
    → Fits segs
    → Holds sc fs
    → sc.txring_queued < 240
    → Holds (enqueue m segs sc) (fs ++ (record { mbuf = m; more = length segs - 1 } ∷ []))
enqueue-Holds m segs sc fs f h room =
    let hd = sc.txring_hd_ptr in
    let new : Frame = record { mbuf = m; more = length segs - 1 } in
    let out = enqueue m segs sc in
    let size : suc (length segs - 1) ≡ length segs = omega (arith, f.some_seg) in
    let wrap = leb 256 (hd + length segs + 8) in
    let agree : Agree hd 8 sc.txring out.txring sc.txring_m out.txring_m = record {
      words = λ i o.
          write_outside segs hd wrap sc.txring i
            (elim o [ inl l ↦ inl l | inr l ↦ inr (omega (arith, l, f.few)) ]);
      slots = λ i o.
          clear_outside (length segs - 1) (hd + 1) (update sc.txring_m hd (some m)) i
            (elim o [ inl l ↦ inl (omega (arith, l)) | inr l ↦ inr (omega (arith, l, f.few)) ])
          ∙ update_ne sc.txring_m hd (some m) i
              (λ z. elim o [ inl l ↦ omega (arith, l, z) | inr l ↦ omega (arith, l, z) ]);
    } in
    let head : out.txring_hd_ptr ≡ after hd (length segs - 1) = ground (arith, size) in
    let clear =
      Clear-head sc.txring sc.txring_m sc.txring_tl_ptr fs hd h.chain
        (omega (arith, h.count, room)) in
    record {
      chain = rw head (
          Chain-snoc out.txring out.txring_m sc.txring_tl_ptr fs hd new
            (Chain-kept hd 8 sc.txring out.txring sc.txring_m out.txring_m agree sc.txring_tl_ptr fs
              hd clear h.chain)
            (enqueue-IsFrame m segs sc f h.head));
      count = total_snoc fs new ∙ omega (arith, size, h.count);
      limit = omega (arith, room, f.few);
      head = ground (arith, h.head, f.few);
      tail = h.tail;
    }
