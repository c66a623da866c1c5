-- ===== src/Eth/Tx/Tests.antt =====
-- The transmit ring at a concrete run: a packet in two segments, one that has to be defragmented, and one
-- without a DMA map.
use free_bsd15_rpi5_modules.Base.{
  ◌+◌, ◌^◌, refl, true, false, ◌==◌, if◌then◌else◌, none, some, List, [], ◌∷◌, arith,
}
use free_bsd15_rpi5_modules.Eth.Tx.{
  Ring, Seg, Packet, loaded, too_big, load_fails, init_ring, start_locked, clean_tx,
}
use free_bsd15_rpi5_modules.Eth.Tx.Frames.{Frame, Holds}
use free_bsd15_rpi5_modules.Eth.Tx.Place.{Fits, AllFit}
use free_bsd15_rpi5_modules.Eth.Tx.Reclaim.{Cleaned, clean_tx-Cleaned}
use free_bsd15_rpi5_modules.Eth.Tx.Start.{Started, start_locked-Started}
use free_bsd15_rpi5_modules.Eth.Tx.Reach.{Reach, here, next, starts, Reach-Holds}

abbrev two_segs : List Seg
two_segs =
    record { ds_addr = 0x1000; ds_len = 100 } ∷ record { ds_addr = 0x2000; ds_len = 1400 } ∷ []

abbrev packets : List Packet
packets =
    record { mbuf = 1; mapped = true; load = loaded two_segs; defrag = none; reload = load_fails }
    ∷ record { mbuf = 2; mapped = true; load = too_big; defrag = some 4; reload = loaded two_segs }
    ∷ record { mbuf = 3; mapped = false; load = load_fails; defrag = none; reload = load_fails }
    ∷ []

two_segs-Fits : Fits two_segs
two_segs-Fits = record {
  some_seg = omega arith;
  few = omega arith;
  short = (omega arith, (omega arith, tt));
}

packets-AllFit : AllFit packets
packets-AllFit = (two_segs-Fits, tt, (tt, two_segs-Fits, (tt, tt, tt)))

empty-Holds : Holds init_ring []
empty-Holds = record {
  chain = refl;
  count = refl;
  limit = omega arith;
  head = omega arith;
  tail = omega arith;
}

abbrev busy : Ring
busy = (start_locked packets init_ring).0

sent : Reach busy
sent = next here (starts packets packets-AllFit)

Reach-Holds_example : (fs : List Frame) × Holds busy fs
Reach-Holds_example = Reach-Holds sent

start_locked-Started_example : Started init_ring [] packets (start_locked packets init_ring)
start_locked-Started_example =
    start_locked-Started packets init_ring [] packets-AllFit empty-Holds refl

-- A ring with one frame of two descriptors, which the controller is done with.
abbrev done : Ring
done = record init_ring {
  txring = λ i. record { addr = 0; ctl = 2 ^ 31 + (if i == 1 then 2 ^ 15 else 0) };
  txring_m = λ i. if i == 0 then some 7 else none;
  txring_hd_ptr = 2;
  txring_queued = 2;
}

done-Holds : Holds done (record { mbuf = 7; more = 1 } ∷ [])
done-Holds = record {
  chain = (
    record {
      few = omega arith;
      low = omega arith;
      held = refl;
      middle = λ i l. ground (arith, l);
      unwrapped = λ i l. ground (arith, l);
      last = refl;
      wraps = refl;
    },
    refl,
  );
  count = refl;
  limit = omega arith;
  head = omega arith;
  tail = omega arith;
}

clean_tx-Cleaned_example : Cleaned done (record { mbuf = 7; more = 1 } ∷ []) (clean_tx done)
clean_tx-Cleaned_example = clean_tx-Cleaned done (record { mbuf = 7; more = 1 } ∷ []) done-Holds
