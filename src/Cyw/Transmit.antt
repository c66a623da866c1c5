-- ===== src/Cyw/Transmit.antt =====
-- cyw43455_cfg.c: the transmit path, from the interface's queue (cyw_vap_transmit) over the task that
-- drains it (cyw_tx_task) to the SDPCM frames that go to the chip (cyw_tx_data_frame).
pub mod Frame
pub mod Queue
mod Tests
use free_bsd15_rpi5_modules.Base.{
  ℕ, ◌+◌, ◌-◌, ◌*◌, ◌/◌, ◌%◌, Bool, true, false, not, ◌&&◌, ◌||◌, Option, none, some, List, [], ◌∷◌,
  ◌++◌, ltb, leb, ◌==◌, if◌then◌else◌, u8, u16, u64, enobufs, update,
}
use free_bsd15_rpi5_modules.Cyw.{Buf, Softc, VapState, running, fill, sdpcm_hdr_len}
use free_bsd15_rpi5_modules.Cyw.Sdpcm.{Mbuf, ether_hdr_len, is_eapol}
use free_bsd15_rpi5_modules.Cyw.Fil.{has_credit, blank, put16}

-- ENETDOWN, and CYW_BDC_DATA_HDR_LEN.
abbrev pub enetdown : ℕ
enetdown = 50

abbrev pub bdc_hdr_len : ℕ
bdc_hdr_len = 4

-- The softc and what the transmit path adds to it: the queue and the counters; and the frames that
-- the F2 FIFO has taken, with their lengths.
pub record Sender : Type 0 where
  pub softc : Softc
  pub tx_queue : List Mbuf
  pub tx_data_frames : ℕ  -- uint64_t
  pub tx_eapol_frames : ℕ
  pub tx_eapol_bytes : ℕ
  pub written : List (Buf × ℕ)

-- An Ethernet frame whose header is whole and whose type is that of EAPOL.
abbrev pub carries_eapol : Mbuf → Bool
carries_eapol m = leb ether_hdr_len m.len && is_eapol m

abbrev pub framelen : Mbuf → ℕ
framelen m = (sdpcm_hdr_len + bdc_hdr_len + m.len + 3) / 4 * 4

-- The SDPCM header on channel 2 and the BDC header without padding; then the Ethernet frame.
abbrev pub tx_headers : Mbuf → ℕ → Buf
tx_headers m seq =
    let lengths = put16 (put16 blank 0 (u16 (framelen m))) 2 (65535 - u16 (framelen m)) in
    update (update (update (update lengths 4 seq) 5 2) 7 sdpcm_hdr_len) 12 32

unfoldable pub data_frame : Mbuf → ℕ → Buf
data_frame m seq = fill (tx_headers m seq) (sdpcm_hdr_len + bdc_hdr_len) m.len m.bytes

abbrev pub counted : Mbuf → Sender → Sender
counted m s = record s {
  tx_data_frames = u64 (s.tx_data_frames + 1);
  tx_eapol_frames = if carries_eapol m then u64 (s.tx_eapol_frames + 1) else s.tx_eapol_frames;
  tx_eapol_bytes = if carries_eapol m then u64 (s.tx_eapol_bytes + m.len) else s.tx_eapol_bytes;
}

-- The kernel and the bus during one frame: whether m_pullup and malloc give their memory (m_pullup is
-- only asked for a chain), and the error of the write to F2.
pub record Luck : Type 0 where
  pub linear : Bool
  pub allocated : Bool
  pub write_error : ℕ

-- cyw_tx_data_frame: the error, and the sender.
unfoldable pub tx_data_frame : Luck → Mbuf → Sender → ℕ × Sender
tx_data_frame luck m s =
    let c = counted m s in
    let seq = c.softc.sdpcm_tx_seq in
    if not luck.linear
    then (enobufs, s)
    else if not (has_credit c.softc)
    then (enobufs, c)
    else if not luck.allocated
    then (enobufs, c)
    else (
      luck.write_error,
      record c {
        softc = record c.softc { sdpcm_tx_seq = u8 (seq + 1) };
        written =
            if luck.write_error == 0
            then c.written ++ (data_frame m seq, framelen m) ∷ []
            else c.written;
      },
    )

-- The loop of cyw_tx_task over the list it has taken, which ignores the errors.
unfoldable pub send_all : List (Mbuf × Luck) → Sender → Sender
send_all [] s = s
send_all ((m, luck) ∷ tx_list) s = send_all tx_list (tx_data_frame luck m s).1

abbrev pub with_luck : (ℕ → Luck) → ℕ → List Mbuf → List (Mbuf × Luck)
with_luck luck i [] = []
with_luck luck i (m ∷ ms) = (m, luck i) ∷ with_luck luck (i + 1) ms

-- cyw_tx_task
unfoldable pub tx_task : (ℕ → Luck) → Sender → Sender
tx_task luck s = send_all (with_luck luck 0 s.tx_queue) (record s { tx_queue = [] })

-- cyw_vap_transmit: outside RUN only an EAPOL frame passes.
unfoldable pub vap_transmit : Bool → Mbuf → Sender → ℕ × Sender
vap_transmit is_running m s =
    if not is_running && not (carries_eapol m)
    then (enetdown, s)
    else (0, record s { tx_queue = s.tx_queue ++ m ∷ [] })
