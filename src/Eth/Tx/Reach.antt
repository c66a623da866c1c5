-- ===== src/Eth/Tx/Reach.antt =====
-- The life of the transmit ring as a step relation: the driver's calls and the controller's writes.
use free_bsd15_rpi5_modules.Base.{
  ℕ, ◌∙◌, zero, suc, ◌+◌, ◌<◌, ◌≡◌, inl, inr, refl, true, Option, none, List, [], ◌∷◌, arith, ◌==◌,
  Bool-cases, Option-cases, bit, update_ne, update_self,
}
use free_bsd15_rpi5_modules.Eth.Tx.{
  TxDesc, Ring, Packet, start_locked, clean_tx, init_ring, free_slots, stop_tx,
}
use free_bsd15_rpi5_modules.Eth.Tx.Frames.{Frame, after, Chain, Holds}
use free_bsd15_rpi5_modules.Eth.Tx.Place.{AllFit}
use free_bsd15_rpi5_modules.Eth.Tx.Start.{start_locked-Started}
use free_bsd15_rpi5_modules.Eth.Tx.Reclaim.{clean_tx-Cleaned}

-- The driver starts a transmission, reclaims or stops; the controller writes status bits, but leaves the
-- bits LAST_BUF and WRAP of each descriptor as they are.
pub data Step (sc : Ring) : Ring → Type 0 where
  starts : (ps : List Packet) → AllFit ps → Step sc (start_locked ps sc).0
  cleans : Step sc (clean_tx sc)
  stops : Step sc (stop_tx sc)
  transmits :
      (words : ℕ → TxDesc)
      → ((i : ℕ) → bit (words i).ctl 15 ≡ bit (sc.txring i).ctl 15)
      → ((i : ℕ) → bit (words i).ctl 30 ≡ bit (sc.txring i).ctl 30)
      → Step sc (record sc { txring = words })

pub data Reach : Ring → Type 0 where
  here : Reach init_ring
  next : {b c : Ring} → Reach b → Step b c → Reach c

Chain-rewritten :
    (ring words : ℕ → TxDesc) (ms : ℕ → Option ℕ) (pos : ℕ) (fs : List Frame) (hd : ℕ)
    → ((i : ℕ) → bit (words i).ctl 15 ≡ bit (ring i).ctl 15)
    → ((i : ℕ) → bit (words i).ctl 30 ≡ bit (ring i).ctl 30)
    → Chain ring ms pos fs hd
    → Chain words ms pos fs hd
Chain-rewritten ring words ms pos [] hd a b c = c
Chain-rewritten ring words ms pos (f ∷ fs) hd a b c = (
  record {
    few = c.0.few;
    low = c.0.low;
    held = c.0.held;
    middle = λ i l. a (pos + i) ∙ c.0.middle i l;
    unwrapped = λ i l. b (pos + i) ∙ c.0.unwrapped i l;
    last = a (pos + f.more) ∙ c.0.last;
    wraps = b (pos + f.more) ∙ c.0.wraps;
  },
  Chain-rewritten ring words ms (after pos f.more) fs hd a b c.1,
)

busy_same : (ps : List Packet) (sc : Ring) → sc.oactive ≡ true → (start_locked ps sc).0 ≡ sc
unfolding start_locked
busy_same ps sc e = simp e refl

start-Holds :
    (ps : List Packet) (sc : Ring) (fs : List Frame)
    → AllFit ps
    → Holds sc fs
    → (left : List Frame) × Holds (start_locked ps sc).0 left
start-Holds ps sc fs f h = elim (Bool-cases sc.oactive) [
  | inl e ↦ (fs, rw (busy_same ps sc e) h)
  | inr e ↦ let s = start_locked-Started ps sc fs f h e in (s.left, s.holds)
]

Step-Holds :
    {b c : Ring} (fs : List Frame) → Step b c → Holds b fs → (left : List Frame) × Holds c left
Step-Holds {b} fs (starts ps f) h = start-Holds ps b fs f h
Step-Holds {b} fs cleans h = let c = clean_tx-Cleaned b fs h in (c.left, c.holds)
Step-Holds {b} fs stops h = (
  [],
  record {
    chain = refl;
    count = refl;
    limit = omega arith;
    head = omega arith;
    tail = omega arith;
  },
)
Step-Holds {b} fs (transmits words a c) h = (
  fs,
  record {
    chain =
        Chain-rewritten b.txring words b.txring_m b.txring_tl_ptr fs b.txring_hd_ptr a c h.chain;
    count = h.count;
    limit = h.limit;
    head = h.head;
    tail = h.tail;
  },
)

-- From its set-up on, whatever transmissions, reclaims and stops follow one another between the
-- controller's writes, with packets that bus_dma loads into at most eight short segments: the transmit
-- ring holds frames that follow one another from the tail to the head, each of at most eight descriptors
-- below the last slot, with its mbuf in its first slot and the bits LAST_BUF and WRAP where they belong,
-- as many descriptors as are counted, and at most 247.
pub Reach-Holds : {sc : Ring} → Reach sc → (fs : List Frame) × Holds sc fs
Reach-Holds here = (
  [],
  record {
    chain = refl;
    count = refl;
    limit = omega arith;
    head = omega arith;
    tail = omega arith;
  },
)
Reach-Holds (next r s) = let (fs, h) = Reach-Holds r in Step-Holds fs s h

emptied : (n : ℕ) (sc : Ring) (i : ℕ) → i < n → (free_slots n sc).txring_m i ≡ none
unfolding free_slots
emptied zero sc i l = absurd (omega (arith, l))
emptied (suc n) sc i l = elim (Option-cases ((free_slots n sc).txring_m n)) [
  | inl e ↦
      rw (free_slots, e)
        (elim (Bool-cases (i == n)) [
          | inl g ↦ let same : i ≡ n = ground (arith, g) in rw same e
          | inr g ↦ emptied n sc i (ground (arith, g, l))
        ])
  | inr (m, e) ↦
      rw (free_slots, e)
        (elim (Bool-cases (i == n)) [
          | inl g ↦ update_self (free_slots n sc).txring_m n none i (ground (arith, g))
          | inr g ↦
              update_ne (free_slots n sc).txring_m n none i (λ z. ground (arith, g, z))
              ∙ emptied n sc i (ground (arith, g, l))
        ])
]

-- A stop leaves no mbuf in any of the 256 slots, whatever the ring was.
stop_tx_empties : (sc : Ring) (i : ℕ) → i < 256 → (stop_tx sc).txring_m i ≡ none
stop_tx_empties sc i l = emptied 256 sc i l
