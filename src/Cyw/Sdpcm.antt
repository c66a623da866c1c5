-- ===== src/Cyw/Sdpcm.antt =====
-- cyw43455_sdpcm.c: answers to control requests, data frames as mbufs and their delivery.
pub mod Control
pub mod Data
use free_bsd15_rpi5_modules.Base.{
  ℕ, ◌+◌, ◌-◌, ◌*◌, ◌/◌, ◌%◌, Bool, true, false, not, ◌||◌, Option, none, some, List, [], ◌∷◌, ltb,
  ◌==◌, if◌then◌else◌, u16, u64, sub64, bit, eio, min,
}
use free_bsd15_rpi5_modules.Cyw.{
  Buf, Softc, fill, le32, be16, hdr_data_offset, sdpcm_hdr_len, bcdc_hdr_len,
}

-- The BCDC header of a control frame: its flags, its transaction id, its status.
abbrev pub bcdc_flags : Buf → ℕ
bcdc_flags buf = le32 buf (hdr_data_offset buf + 8)

abbrev pub bcdc_id : Buf → ℕ
bcdc_id buf = bcdc_flags buf / 65536 % 65536

abbrev pub bcdc_status : Buf → ℕ
bcdc_status buf = le32 buf (hdr_data_offset buf + 12)

-- Where the payload of a control frame starts, and `avail`, the bytes from there to the end of the
-- frame on a size_t.
abbrev pub payload_at : Buf → ℕ
payload_at buf = hdr_data_offset buf + bcdc_hdr_len

abbrev pub avail : Buf → ℕ → ℕ
avail buf flen = sub64 flen (payload_at buf)

-- The memcpy of a GET's payload.
unfoldable pub copy_resp : Softc → Buf → ℕ → Option Buf
copy_resp sc buf flen = elim sc.ioctl_resp_buf [
  | none ↦ none
  | some resp ↦
      if sc.ioctl_get
      then some
          (fill resp 0 (min sc.ioctl_resp_buflen (avail buf flen)) (λ i. buf (payload_at buf + i)))
      else some resp
]

-- cyw_sdpcm_deliver_ctrl. Clearing `ioctl_waiting` stands for the signal too.
unfoldable pub deliver_ctrl : Softc → Buf → ℕ → Softc
deliver_ctrl sc buf flen =
    if ltb flen (sdpcm_hdr_len + bcdc_hdr_len)
    then sc
    else if not sc.ioctl_waiting || not (bcdc_id buf == sc.ioctl_wait_id)
    then sc
    else if bit (bcdc_flags buf) 0
    then record sc { ioctl_fw_status = bcdc_status buf; ioctl_result = eio; ioctl_waiting = false }
    else record sc {
      ioctl_result = 0;
      ioctl_resp_buf = copy_resp sc buf flen;
      ioctl_waiting = false;
    }

-- An mbuf with a cluster: its length, and its bytes below that length.
pub record Mbuf : Type 0 where
  pub len : ℕ
  pub bytes : Buf

abbrev pub ether_hdr_len : ℕ
ether_hdr_len = 14

-- Where the Ethernet frame starts: after the BDC header and its padding.
abbrev pub frame_at : Buf → ℕ
frame_at buf = hdr_data_offset buf + 4 + buf (hdr_data_offset buf + 3) * 4

-- cyw_sdpcm_copy_data; the Boolean is whether m_getcl gave an mbuf.
unfoldable pub copy_data : Bool → Buf → ℕ → Option Mbuf
copy_data allocated buf flen =
    if ltb flen (hdr_data_offset buf + 4)
    then none
    else if ltb flen (frame_at buf)
    then none
    else if ltb (u16 (flen - frame_at buf)) ether_hdr_len
    then none
    else if allocated
    then some (record { len = u16 (flen - frame_at buf); bytes = λ i. buf (frame_at buf + i) })
    else none

-- ETHERTYPE_PAE.
abbrev pub is_eapol : Mbuf → Bool
is_eapol m = be16 m.bytes 12 == 0x888e

-- The counters of the task for one delivered frame.
abbrev pub count_rx : Softc → Mbuf → Softc
count_rx sc m = record sc {
  rx_data_frames = u64 (sc.rx_data_frames + 1);
  rx_data_bytes = u64 (sc.rx_data_bytes + m.len);
  rx_eapol_frames = if is_eapol m then u64 (sc.rx_eapol_frames + 1) else sc.rx_eapol_frames;
}

-- The task's delivery of the frames it collected, to the interface of the first VAP. The Boolean is
-- whether that VAP has an interface; without one the frames are freed. The result is the softc
-- and the frames that if_input was given.
unfoldable pub deliver : Bool → Softc → List Mbuf → Softc × List Mbuf
deliver has_ifp sc [] = (sc, [])
deliver has_ifp sc (m ∷ rxq) =
    let freed = deliver has_ifp sc rxq in
    let rest = deliver has_ifp (count_rx sc m) rxq in
    elim sc.vap [ none ↦ freed | some _ ↦ if has_ifp then (rest.0, m ∷ rest.1) else freed ]
