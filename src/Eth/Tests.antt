-- ===== src/Eth/Tests.antt =====
-- The receive ring at a concrete run: 128 buffers, two of them received.
use free_bsd15_rpi5_modules.Base.{ℕ, ◌*◌, true, List, [], ◌∷◌, arith}
use free_bsd15_rpi5_modules.Eth.{Alloc, loaded, RxDesc, init_ring}
use free_bsd15_rpi5_modules.Eth.Ring.{Event, fills, receives, writes, run, IsRing, run-IsRing}

abbrev buffers : ℕ → Alloc
buffers i = loaded i (4096 * i)

abbrev received : ℕ → RxDesc
received i = record { addr = 1; ctl = 0xc040 }

abbrev busy : List Event
busy = fills buffers ∷ writes received ∷ receives true buffers ∷ []

run-IsRing_example : IsRing (run busy (init_ring 128))
run-IsRing_example = run-IsRing 128 busy (omega arith)
