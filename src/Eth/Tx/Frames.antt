-- ===== src/Eth/Tx/Frames.antt =====
-- The frames on the transmit ring: where they lie, and that a new one lies clear of them.
use free_bsd15_rpi5_modules.Base.{
  ℕ, ◌∙◌, suc, ◌+◌, ◌≤◌, ◌<◌, ◌≡◌, ◌⊎◌, inl, inr, ap, true, false, Option, some, List, [], ◌∷◌,
  arith, leb, if◌then◌else◌, Bool-cases, bit,
}
use free_bsd15_rpi5_modules.Eth.Tx.{TxDesc, Ring}

-- A frame: its mbuf, and the number of its descriptors less one.
pub record Frame : Type 0 where
  pub mbuf : ℕ
  pub more : ℕ

-- Where the next frame starts.
abbrev pub after : ℕ → ℕ → ℕ
after pos more = if leb 256 (pos + suc more + 8) then 0 else pos + suc more

-- A frame that lies from pos on: at most eight descriptors, none of them the ring's last, the first with
-- the mbuf, and the bits LAST_BUF and WRAP where they belong.
pub record IsFrame (ring : ℕ → TxDesc) (ms : ℕ → Option ℕ) (pos : ℕ) (f : Frame) : Type 0 where
  pub few : f.more < 8
  pub low : pos < 248
  pub held : ms pos ≡ some f.mbuf
  pub middle : (i : ℕ) → i < f.more → bit (ring (pos + i)).ctl 15 ≡ false
  pub unwrapped : (i : ℕ) → i < f.more → bit (ring (pos + i)).ctl 30 ≡ false
  pub last : bit (ring (pos + f.more)).ctl 15 ≡ true
  pub wraps : bit (ring (pos + f.more)).ctl 30 ≡ leb 256 (pos + suc f.more + 8)

-- The frames from pos to the head, oldest first.
abbrev pub Chain : (ℕ → TxDesc) → (ℕ → Option ℕ) → ℕ → List Frame → ℕ → Type 0
Chain ring ms pos [] hd = pos ≡ hd
Chain ring ms pos (f ∷ fs) hd = IsFrame ring ms pos f × Chain ring ms (after pos f.more) fs hd

abbrev pub total : List Frame → ℕ
total [] = 0
total (f ∷ fs) = suc f.more + total fs

abbrev pub mbufs : List Frame → List ℕ
mbufs [] = []
mbufs (f ∷ fs) = f.mbuf ∷ mbufs fs

-- The ring holds these frames from its tail on, as many descriptors as are queued, and no more than 247.
pub record Holds (sc : Ring) (fs : List Frame) : Type 0 where
  pub chain : Chain sc.txring sc.txring_m sc.txring_tl_ptr fs sc.txring_hd_ptr
  pub count : total fs ≡ sc.txring_queued
  pub limit : sc.txring_queued < 248
  pub head : sc.txring_hd_ptr < 248
  pub tail : sc.txring_tl_ptr < 248

-- The head lies as far behind pos as the frames are long, or the ring has wrapped.
head_at :
    (ring : ℕ → TxDesc) (ms : ℕ → Option ℕ) (pos : ℕ) (fs : List Frame) (hd : ℕ)
    → Chain ring ms pos fs hd
    → (hd ≡ pos + total fs) ⊎ (hd + 248 ≤ pos + total fs)
head_at ring ms pos [] hd c = inl (omega (arith, c))
head_at ring ms pos (f ∷ fs) hd c = elim (Bool-cases (leb 256 (pos + suc f.more + 8))) [
  | inl e ↦ elim (head_at ring ms (after pos f.more) fs hd c.1) [
    | inl h ↦ inr (ground (arith, h, e))
    | inr h ↦ inr (ground (arith, h, e))
  ]
  | inr e ↦ elim (head_at ring ms (after pos f.more) fs hd c.1) [
    | inl h ↦ inl (ground (arith, h, e))
    | inr h ↦ inr (ground (arith, h, e))
  ]
]

-- Two rings that agree outside the w slots from lo on.
pub record Agree (lo w : ℕ) (ring ring' : ℕ → TxDesc) (ms ms' : ℕ → Option ℕ) : Type 0 where
  pub words : (i : ℕ) → (i < lo) ⊎ (lo + w ≤ i) → ring' i ≡ ring i
  pub slots : (i : ℕ) → (i < lo) ⊎ (lo + w ≤ i) → ms' i ≡ ms i

-- Frames that lie outside those slots.
abbrev pub Clear : ℕ → ℕ → ℕ → List Frame → Type 0
Clear lo w pos [] = Unit {0}
Clear lo w pos (f ∷ fs) =
    ((pos + suc f.more ≤ lo) ⊎ (lo + w ≤ pos)) × Clear lo w (after pos f.more) fs

module _ (lo w : ℕ) (ring ring' : ℕ → TxDesc) (ms ms' : ℕ → Option ℕ)
    (a : Agree lo w ring ring' ms ms') where
  frame_kept :
      (pos : ℕ) (f : Frame)
      → IsFrame ring ms pos f
      → (pos + suc f.more ≤ lo) ⊎ (lo + w ≤ pos)
      → IsFrame ring' ms' pos f
  frame_kept pos f k clear = record {
    few = k.few;
    low = k.low;
    held = a.slots pos (elim clear [ inl h ↦ inl (omega (arith, h)) | inr h ↦ inr h ]) ∙ k.held;
    middle = λ i l. ap (λ d. bit d.ctl 15) (word i (omega (arith, l))) ∙ k.middle i l;
    unwrapped = λ i l. ap (λ d. bit d.ctl 30) (word i (omega (arith, l))) ∙ k.unwrapped i l;
    last = ap (λ d. bit d.ctl 15) (word f.more (omega arith)) ∙ k.last;
    wraps = ap (λ d. bit d.ctl 30) (word f.more (omega arith)) ∙ k.wraps;
  }
    where
      word : (i : ℕ) → i < suc f.more → ring' (pos + i) ≡ ring (pos + i)
      word i l =
          a.words (pos + i)
            (elim clear [ inl h ↦ inl (omega (arith, h, l)) | inr h ↦ inr (omega (arith, h)) ])

  pub Chain-kept :
      (pos : ℕ) (fs : List Frame) (hd : ℕ)
      → Clear lo w pos fs
      → Chain ring ms pos fs hd
      → Chain ring' ms' pos fs hd
  Chain-kept pos [] hd clear c = c
  Chain-kept pos (f ∷ fs) hd clear c =
      (frame_kept pos f c.0 clear.0, Chain-kept (after pos f.more) fs hd clear.1 c.1)

module _ (lo w : ℕ) (ring : ℕ → TxDesc) (ms : ℕ → Option ℕ) (hd : ℕ) where
  -- Frames that end below the slots, without a wrap.
  behind :
      (pos : ℕ) (fs : List Frame)
      → Chain ring ms pos fs hd
      → hd ≡ pos + total fs
      → hd ≤ lo
      → Clear lo w pos fs
  behind pos [] c e h = tt
  behind pos (f ∷ fs) c e h = (
    inl (omega (arith, e, h)),
    elim (head_at ring ms (after pos f.more) fs hd c.1) [
      | inl g ↦ behind (after pos f.more) fs c.1 g h
      | inr g ↦ absurd (ground (arith, g, e))
    ],
  )

  -- Frames that start above the slots, and if they wrap end below them.
  ahead :
      (pos : ℕ) (fs : List Frame)
      → Chain ring ms pos fs hd
      → lo + w ≤ pos
      → total fs < 248
      → (hd ≤ lo) ⊎ (hd ≡ pos + total fs)
      → Clear lo w pos fs
  ahead pos [] c l t o = tt
  ahead pos (f ∷ fs) c l t o = (
    inr l,
    elim (Bool-cases (leb 256 (pos + suc f.more + 8))) [
      | inl e ↦ elim (head_at ring ms (after pos f.more) fs hd c.1) [
        | inl g ↦
            behind (after pos f.more) fs c.1 g
              (elim o [ inl h ↦ h | inr h ↦ absurd (ground (arith, e, g, h)) ])
        | inr g ↦ absurd (ground (arith, e, g, t))
      ]
      | inr e ↦
          ahead (after pos f.more) fs c.1 (ground (arith, e, l)) (omega (arith, t))
            (elim o [ inl h ↦ inl h | inr h ↦ inr (ground (arith, e, h)) ])
    ],
  )

-- The eight slots from the head on are clear of the frames while there is room.
pub Clear-head :
    (ring : ℕ → TxDesc) (ms : ℕ → Option ℕ) (pos : ℕ) (fs : List Frame) (hd : ℕ)
    → Chain ring ms pos fs hd
    → total fs < 240
    → Clear hd 8 pos fs
Clear-head ring ms pos fs hd c t = elim (head_at ring ms pos fs hd c) [
  | inl h ↦ behind hd 8 ring ms hd pos fs c h (omega arith)
  | inr h ↦
      ahead hd 8 ring ms hd pos fs c (omega (arith, h, t)) (omega (arith, t)) (inl (omega arith))
]

-- The slots of the oldest frame are clear of the others.
pub Clear-tail :
    (ring : ℕ → TxDesc) (ms : ℕ → Option ℕ) (pos : ℕ) (f : Frame) (fs : List Frame) (hd : ℕ)
    → Chain ring ms pos (f ∷ fs) hd
    → total (f ∷ fs) < 248
    → Clear pos (suc f.more) (after pos f.more) fs
Clear-tail ring ms pos f fs hd c t = elim (Bool-cases (leb 256 (pos + suc f.more + 8))) [
  | inl e ↦ elim (head_at ring ms (after pos f.more) fs hd c.1) [
    | inl g ↦
        behind pos (suc f.more) ring ms hd (after pos f.more) fs c.1 g (ground (arith, e, g, t))
    | inr g ↦ absurd (ground (arith, e, g, t))
  ]
  | inr e ↦
      ahead pos (suc f.more) ring ms hd (after pos f.more) fs c.1 (ground (arith, e))
        (omega (arith, t))
        (elim (head_at ring ms pos (f ∷ fs) hd c) [
          | inl h ↦ inr (ground (arith, e, h))
          | inr h ↦ inl (omega (arith, h, t))
        ])
]
