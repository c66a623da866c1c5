-- ===== src/Cyw/Sample.antt =====
-- Concrete data for the tests of the Wi-Fi driver's parts: a softc, frames as the chip sends them, and a
-- chip.
use free_bsd15_rpi5_modules.Base.{
  ℕ, ◌-◌, true, false, some, none, List, [], ◌∷◌, get_or, replicate, min,
}
use free_bsd15_rpi5_modules.Cyw.{Buf, Softc, assoc}
use free_bsd15_rpi5_modules.Cyw.Recv.{Sdio}

abbrev pub of_bytes : List ℕ → Buf
of_bytes xs i = get_or xs i 0

abbrev pub zeros : Buf
zeros i = 0

abbrev pub softc : Softc
softc = record {
  sdio_core_base = 0;
  sdpcm_rx_max = 0;
  sdpcm_tx_seq = 0;
  sdpcm_running = true;
  ioctl_id = 6;
  rx_eagain_count = 0;
  rx_ok_count = 0;
  rx_eio_count = 0;
  ioctl_waiting = true;
  ioctl_wait_id = 7;
  ioctl_resp_buf = some zeros;
  ioctl_resp_buflen = 16;
  ioctl_get = true;
  ioctl_result = 0;
  ioctl_fw_status = 0;
  rx_data_frames = 0;
  rx_data_bytes = 0;
  rx_eapol_frames = 0;
  event_handlers = λ c. none;
  bss_cs_cache = replicate 32 (record { bssid = 0; chanspec = 0 });
  bss_cs_cache_next = 0;
  scan_active = false;
  escan_sync_id = 0;
  link_up = false;
  vap = some assoc;
}

-- A link event, an answer to the request with id 7, one whose payload would start after its end, and
-- an EAPOL frame.
abbrev pub event_frame : Buf
event_frame = of_bytes (
    88 ∷ 0 ∷ 167 ∷ 255 ∷ 0 ∷ 1 ∷ 0 ∷ 12 ∷ 0 ∷ 0 ∷ 0 ∷ 0 ∷ 0 ∷ 0 ∷ 0 ∷ 0 ∷ 0 ∷ 0 ∷ 0 ∷ 0 ∷ 0 ∷ 0 ∷ 0
    ∷ 0 ∷ 0 ∷ 0 ∷ 0 ∷ 0 ∷ 136 ∷ 108 ∷ 0 ∷ 0 ∷ 0 ∷ 0 ∷ 0 ∷ 0 ∷ 16 ∷ 24 ∷ 0 ∷ 1 ∷ 0 ∷ 0 ∷ 0 ∷ 1 ∷ 0
    ∷ 0 ∷ 0 ∷ 16 ∷ 0 ∷ 0 ∷ 0 ∷ 0 ∷ 0 ∷ 0 ∷ 0 ∷ 0 ∷ 0 ∷ 0 ∷ 0 ∷ 0 ∷ 0 ∷ 0 ∷ 0 ∷ 0 ∷ 0 ∷ 0 ∷ 0 ∷ 0 ∷ 0
    ∷ 0 ∷ 0 ∷ 0 ∷ 0 ∷ 0 ∷ 0 ∷ 0 ∷ 0 ∷ 0 ∷ 0 ∷ 0 ∷ 0 ∷ 0 ∷ 0 ∷ 0 ∷ 0 ∷ 0 ∷ 0 ∷ 0 ∷ [])

abbrev pub answer : Buf
answer = of_bytes (
    32 ∷ 0 ∷ 223 ∷ 255 ∷ 0 ∷ 0 ∷ 0 ∷ 12 ∷ 0 ∷ 0 ∷ 0 ∷ 0 ∷ 0 ∷ 0 ∷ 0 ∷ 0 ∷ 0 ∷ 0 ∷ 0 ∷ 0 ∷ 0 ∷ 0 ∷ 7
    ∷ 0 ∷ 0 ∷ 0 ∷ 0 ∷ 0 ∷ 1 ∷ 2 ∷ 3 ∷ 4 ∷ [])

abbrev pub short_answer : Buf
short_answer = of_bytes (
    28 ∷ 0 ∷ 227 ∷ 255 ∷ 0 ∷ 0 ∷ 0 ∷ 16 ∷ 0 ∷ 0 ∷ 0 ∷ 0 ∷ 0 ∷ 0 ∷ 0 ∷ 0 ∷ 0 ∷ 0 ∷ 0 ∷ 0 ∷ 0 ∷ 0 ∷ 0
    ∷ 0 ∷ 0 ∷ 0 ∷ 7 ∷ 0 ∷ [])

abbrev pub data_frame : Buf
data_frame = of_bytes (
    30 ∷ 0 ∷ 225 ∷ 255 ∷ 0 ∷ 2 ∷ 0 ∷ 12 ∷ 0 ∷ 0 ∷ 0 ∷ 0 ∷ 0 ∷ 0 ∷ 0 ∷ 0 ∷ 1 ∷ 1 ∷ 1 ∷ 1 ∷ 1 ∷ 1 ∷ 1
    ∷ 1 ∷ 1 ∷ 1 ∷ 1 ∷ 1 ∷ 136 ∷ 142 ∷ [])

-- A chip that gives the event frame, and whose byte count falls by one at each read.
abbrev pub chip : Sdio
chip = record {
  Card = ℕ;
  read_fifo = λ c n. (c, event_frame, 0);
  bp_read32 = λ c a. (c, 0);
  bp_write32 = λ c a v. c;
  diagnose = λ c. c;
  abort = λ c. c;
  read_rbc = λ c. (c - 1, min c 0xffff);
}
