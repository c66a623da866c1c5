-- ===== src/Cyw/Fil/Tests.antt =====
-- The theorems on control requests, applied to concrete requests and answers.
use free_bsd15_rpi5_modules.Base.{ℕ, ◌+◌, ◌≤◌, ◌≡◌, refl, false, List, [], ◌∷◌, arith, min}
use free_bsd15_rpi5_modules.Cyw.{Softc}
use free_bsd15_rpi5_modules.Cyw.Sdpcm.{deliver_ctrl}
use free_bsd15_rpi5_modules.Cyw.Sample.{softc, zeros, answer, chip}
use free_bsd15_rpi5_modules.Cyw.Fil.{
  Surroundings, framelen, payload, frame_of, iovar_int_get, iovar_int_set, post, examine, exchange,
  await_credit, deliver_all, txrx_running, txrx_boot,
}
use free_bsd15_rpi5_modules.Cyw.Fil.Frame.{ReadsBack, frame_of-ReadsBack}
use free_bsd15_rpi5_modules.Cyw.Fil.Await.{Outcome, txrx_running-Outcome, late_answer_ignored}
use free_bsd15_rpi5_modules.Cyw.Fil.Agree.{Agreed, paths_agree}
use free_bsd15_rpi5_modules.Cyw.Fil.Boot.{Returned, txrx_boot-Returned}

-- The IOVAR "mpc".
abbrev mpc : List ℕ
mpc = 109 ∷ 112 ∷ 99 ∷ []

abbrev idle : Softc
idle = record softc { ioctl_waiting = false }

-- A credit at the second look; a frame that answers nothing, and then the answer to the request 7.
abbrev world : Surroundings
world = record {
  rx_max = λ i. min i 1;
  early = (zeros, 20) ∷ [];
  late = (answer, 32) ∷ [];
  write_error = 0;
}

answered : (txrx_running (iovar_int_get mpc) world idle).err ≡ 0
unfolding txrx_running exchange await_credit post deliver_all deliver_ctrl
answered = refl

frame_of-ReadsBack_example :
    ReadsBack (iovar_int_set mpc 1) 7 3 (frame_of (iovar_int_set mpc 1) 7 3)
    × (28 + payload (iovar_int_set mpc 1) ≤ framelen (iovar_int_set mpc 1))
frame_of-ReadsBack_example =
    frame_of-ReadsBack (iovar_int_set mpc 1) 7 3 (omega arith) (omega arith) (omega arith)

txrx_running-Outcome_example :
    Outcome (iovar_int_get mpc) world idle (txrx_running (iovar_int_get mpc) world idle)
txrx_running-Outcome_example = txrx_running-Outcome (iovar_int_get mpc) world idle

late_answer_ignored_example :
    deliver_ctrl (txrx_running (iovar_int_get mpc) world idle).softc answer 32
    ≡ (txrx_running (iovar_int_get mpc) world idle).softc
late_answer_ignored_example = late_answer_ignored (iovar_int_get mpc) world idle answer 32 refl

paths_agree_example :
    Agreed
      (post (iovar_int_get mpc) (record softc { ioctl_id = 7 }))
      (examine (iovar_int_get mpc) 7 answer 32)
      (deliver_ctrl (post (iovar_int_get mpc) (record softc { ioctl_id = 7 })) answer 32)
paths_agree_example = paths_agree (iovar_int_get mpc) (record softc { ioctl_id = 7 }) answer 32 refl

txrx_boot-Returned_example :
    Returned chip
      (λ c. omega arith)
      (λ c. omega arith)
      5000000000
      (omega arith)
      (λ c n b. (c, 0))
      (iovar_int_get mpc)
      (txrx_boot chip 5000000000 (λ c n b. (c, 0)) (iovar_int_get mpc) 3 idle)
txrx_boot-Returned_example =
    txrx_boot-Returned chip (λ c. omega arith) (λ c. omega arith) 5000000000 (omega arith)
      (λ c n b. (c, 0)) (iovar_int_get mpc) 3 idle
