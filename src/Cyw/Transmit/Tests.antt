-- ===== src/Cyw/Transmit/Tests.antt =====
-- The theorems on the transmit path, applied to a concrete queue.
use free_bsd15_rpi5_modules.Base.{ℕ, ◌≡◌, refl, true, some, [], ◌∷◌, ◌++◌, arith, take}
use free_bsd15_rpi5_modules.Cyw.{hdr_chan}
use free_bsd15_rpi5_modules.Cyw.Recv.{Verdict, check_header}
use free_bsd15_rpi5_modules.Cyw.Sdpcm.{Mbuf, copy_data}
use free_bsd15_rpi5_modules.Cyw.Sample.{softc, zeros}
use free_bsd15_rpi5_modules.Cyw.Transmit.{Sender, Luck, data_frame, framelen, tx_task}
use free_bsd15_rpi5_modules.Cyw.Transmit.Frame.{Carried, data_frame_reads_back}
use free_bsd15_rpi5_modules.Cyw.Transmit.Queue.{credits, accepted, tried, tx_task-Drained}

abbrev first : Mbuf
first = record { len = 42; bytes = λ i. i }

abbrev second : Mbuf
second = record { len = 60; bytes = zeros }

-- Two credits, across the wrap of the sequence number, and three frames in the queue; every write but the
-- first fails.
abbrev sender : Sender
sender = record {
  softc = record softc { sdpcm_rx_max = 1; sdpcm_tx_seq = 255 };
  tx_queue = first ∷ second ∷ first ∷ [];
  tx_data_frames = 0;
  tx_eapol_frames = 0;
  tx_eapol_bytes = 0;
  written = [];
}

abbrev luck : ℕ → Luck
luck i = record { linear = true; allocated = true; write_error = i }

data_frame_reads_back_example :
    (check_header softc (data_frame first 255) ≡ Verdict.accept (framelen first))
    × (hdr_chan (data_frame first 255) ≡ 2)
    × ((out : Mbuf) × (copy_data true (data_frame first 255) (framelen first) ≡ some out)
        × Carried first out)
data_frame_reads_back_example = data_frame_reads_back first 255 softc (omega arith) (omega arith)

tx_task-Drained_example :
    ((tx_task luck sender).tx_queue ≡ [])
    × ((tx_task luck sender).written
        ≡ sender.written
          ++ accepted (
              tried luck 0 (take (credits sender.softc) sender.tx_queue) sender.softc.sdpcm_tx_seq))
tx_task-Drained_example =
    tx_task-Drained luck sender (λ i. (refl, refl)) (omega arith) (omega arith)
