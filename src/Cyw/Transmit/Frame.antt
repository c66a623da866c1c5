-- ===== src/Cyw/Transmit/Frame.antt =====
-- The frame of a transmitted mbuf, read back by the receive path.
use free_bsd15_rpi5_modules.Base.{
  ℕ, ◌+◌, ◌-◌, ◌≤◌, ◌<◌, ◌≡◌, refl, ◌∙◌, true, false, some, arith, ltb, u16,
}
use free_bsd15_rpi5_modules.Cyw.{
  Softc, hdr_len, hdr_len_inv, hdr_chan, hdr_data_offset, sdpcm_max_frame,
}
use free_bsd15_rpi5_modules.Cyw.Recv.{Verdict, check_header}
use free_bsd15_rpi5_modules.Cyw.Sdpcm.{Mbuf, frame_at, copy_data}
use free_bsd15_rpi5_modules.Cyw.Fil.Frame.{fill_inside, word16}
use free_bsd15_rpi5_modules.Cyw.Transmit.{data_frame, tx_headers, framelen}

-- The headers are what stands before the Ethernet frame.
length_kept : (m : Mbuf) (seq : ℕ) → framelen m < 65536 → hdr_len (data_frame m seq) ≡ framelen m
unfolding data_frame
length_kept m seq h = word16 (u16 (framelen m)) (omega arith) ∙ omega (arith, h)

inverse_kept :
    (m : Mbuf) (seq : ℕ) → framelen m < 65536 → hdr_len_inv (data_frame m seq) ≡ 65535 - framelen m
unfolding data_frame
inverse_kept m seq h = word16 (65535 - u16 (framelen m)) (omega arith) ∙ omega (arith, h)

accepted :
    (m : Mbuf) (seq : ℕ) (sc : Softc)
    → framelen m ≤ sdpcm_max_frame
    → check_header sc (data_frame m seq) ≡ Verdict.accept (framelen m)
unfolding check_header
accepted m seq sc h =
    let small : framelen m < 65536 = omega (arith, h) in
    let more : 16 ≤ framelen m = omega arith in
    rw (length_kept m seq small, inverse_kept m seq small) (ground (arith, h, more))

starts_at :
    (m : Mbuf) (seq : ℕ)
    → (hdr_data_offset (data_frame m seq) ≡ 12)
      × (frame_at (data_frame m seq) ≡ 16)
      × (hdr_chan (data_frame m seq) ≡ 2)
unfolding data_frame
starts_at m seq = (refl, refl, refl)

carried : (m : Mbuf) (seq i : ℕ) → i < m.len → data_frame m seq (16 + i) ≡ m.bytes i
unfolding data_frame
carried m seq i h = fill_inside (tx_headers m seq) 16 m.len m.bytes i h

-- What the receiver makes of the frame: its Ethernet part, which the alignment may have lengthened by up
-- to three bytes.
pub record Carried (m : Mbuf) (out : Mbuf) : Type 0 where
  pub least : m.len ≤ out.len
  pub most : out.len < m.len + 4
  pub same : (i : ℕ) → i < m.len → out.bytes i ≡ m.bytes i

copied :
    (m : Mbuf) (seq : ℕ)
    → 14 ≤ m.len
    → framelen m ≤ sdpcm_max_frame
    → copy_data true (data_frame m seq) (framelen m)
      ≡ some (record {
        len = u16 (framelen m - frame_at (data_frame m seq));
        bytes = λ i. data_frame m seq (frame_at (data_frame m seq) + i);
      })
unfolding copy_data data_frame
copied m seq l h =
    let long : ltb (framelen m) 16 ≡ false = ground (arith, l) in
    let whole : ltb (u16 (framelen m - 16)) 14 ≡ false = ground (arith, l, h) in
    rw (long, whole) refl

-- The frame that an mbuf with an Ethernet header is sent as, of at most 2048 bytes, is one that the
-- driver's own receive path takes: its header is accepted with its length, it is on the data
-- channel, and the mbuf copied out of it holds the bytes that were sent, and at most three more.
pub data_frame_reads_back :
    (m : Mbuf) (seq : ℕ) (sc : Softc)
    → 14 ≤ m.len
    → framelen m ≤ sdpcm_max_frame
    → (check_header sc (data_frame m seq) ≡ Verdict.accept (framelen m))
      × (hdr_chan (data_frame m seq) ≡ 2)
      × ((out : Mbuf) × (copy_data true (data_frame m seq) (framelen m) ≡ some out) × Carried m out)
data_frame_reads_back m seq sc l h =
    let (offset, at, chan) = starts_at m seq in
    (
      accepted m seq sc h,
      chan,
      (
        _,
        copied m seq l h,
        record {
          least = rw at (omega (arith, l, h));
          most = rw at (omega (arith, l, h));
          same = λ i b. rw at (carried m seq i b);
        },
      ),
    )
