-- ===== src/Cyw.antt =====
-- cyw43455_var.h: the wire headers and the part of `struct cyw_softc` that the receive path, the
-- event dispatcher, the scanner and the security code work on.
pub mod Recv
pub mod Sdpcm
pub mod Events
pub mod Chanspec
pub mod Scan
pub mod Security
pub mod Backplane
pub mod Firmware
pub mod Fil
pub mod Transmit
pub mod Keys
pub mod Newstate
pub mod Sample
mod Tests
use free_bsd15_rpi5_modules.Base.{
  ℕ, ◌+◌, ◌-◌, ◌*◌, ◌/◌, ◌%◌, ◌^◌, Bool, true, false, ◌&&◌, Option, none, some, List, leb, ltb,
  if◌then◌else◌,
}

-- Memory from the start of a buffer on: the byte at each offset.
abbrev pub Buf : Type 0
Buf = ℕ → ℕ

abbrev pub le16 : Buf → ℕ → ℕ
le16 b i = b i + 256 * b (i + 1)

abbrev pub le32 : Buf → ℕ → ℕ
le32 b i = le16 b i + 65536 * le16 b (i + 2)

abbrev pub be16 : Buf → ℕ → ℕ
be16 b i = 256 * b i + b (i + 1)

abbrev pub be32 : Buf → ℕ → ℕ
be32 b i = 65536 * be16 b i + be16 b (i + 2)

-- `len` bytes of `src` written from offset `at` on.
abbrev pub fill : Buf → ℕ → ℕ → Buf → Buf
fill b at len src i = if leb at i && ltb i (at + len) then src (i - at) else b i

-- `struct cyw_sdpcm_hdr` at the start of a frame.
abbrev pub hdr_len : Buf → ℕ
hdr_len b = le16 b 0

abbrev pub hdr_len_inv : Buf → ℕ
hdr_len_inv b = le16 b 2

abbrev pub hdr_chan : Buf → ℕ
hdr_chan b = b 5 % 16

abbrev pub hdr_data_offset : Buf → ℕ
hdr_data_offset b = b 7

abbrev pub hdr_credit : Buf → ℕ
hdr_credit b = b 9

-- Sizes in bytes.
abbrev pub sdpcm_hdr_len : ℕ
sdpcm_hdr_len = 12

abbrev pub bcdc_hdr_len : ℕ
bcdc_hdr_len = 16

abbrev pub sdpcm_max_frame : ℕ
sdpcm_max_frame = 2048

abbrev pub f2_blksize : ℕ
f2_blksize = 64

abbrev pub f2_max_byte_xfer : ℕ
f2_max_byte_xfer = 448

abbrev pub sdpcm_buf_size : ℕ
sdpcm_buf_size = sdpcm_max_frame + f2_blksize

-- The handlers that the driver registers for events.
pub data Handler : Type 0 where
  escan_result link set_ssid psk_sup : Handler

-- net80211's state of the VAP.
pub data VapState : Type 0 where
  init scan auth assoc running : VapState

-- A slot of the chanspec cache; the six bytes of a BSSID are read as one number, and a chanspec of 0
-- marks an empty slot.
pub record Slot : Type 0 where
  pub bssid : ℕ
  pub chanspec : ℕ

pub record Softc : Type 0 where
  pub sdio_core_base : ℕ
  pub sdpcm_rx_max : ℕ  -- uint8_t
  pub sdpcm_tx_seq : ℕ  -- uint8_t
  pub sdpcm_running : Bool
  pub ioctl_id : ℕ  -- uint16_t
  pub rx_eagain_count : ℕ  -- uint64_t
  pub rx_ok_count : ℕ
  pub rx_eio_count : ℕ
  pub ioctl_waiting : Bool
  pub ioctl_wait_id : ℕ
  pub ioctl_resp_buf : Option Buf
  pub ioctl_resp_buflen : ℕ
  pub ioctl_get : Bool
  pub ioctl_result : ℕ
  pub ioctl_fw_status : ℕ
  pub rx_data_frames : ℕ  -- uint64_t
  pub rx_data_bytes : ℕ
  pub rx_eapol_frames : ℕ
  pub event_handlers : ℕ → Option Handler
  pub bss_cs_cache : List Slot
  pub bss_cs_cache_next : ℕ
  pub scan_active : Bool
  pub escan_sync_id : ℕ  -- uint16_t
  pub link_up : Bool
  pub vap : Option VapState
