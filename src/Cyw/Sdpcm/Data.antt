-- ===== src/Cyw/Sdpcm/Data.antt =====
-- cyw_sdpcm_copy_data and the delivery of the frames it copied.
use free_bsd15_rpi5_modules.Base.{
  ℕ, ◌+◌, ◌-◌, ◌^◌, ◌%◌, ◌≤◌, ◌<◌, ◌≡◌, ◌⊎◌, inl, inr, refl, sym, ap, ◌∙◌, true, none, some, List,
  [], ◌∷◌, arith, ltb, length, ltb→lt, if◌then◌else◌, Bool-cases, u16,
}
use mathlib.Core.Path.{subst}
use free_bsd15_rpi5_modules.Cyw.{Buf, Softc, VapState}
use free_bsd15_rpi5_modules.Cyw.Sdpcm.{Mbuf, copy_data, frame_at, deliver, count_rx, is_eapol}

-- The frame that an mbuf holds: the rest of the SDPCM frame from `frame_at` on, of 14 bytes or more.
pub record Holds (buf : Buf) (flen : ℕ) (m : Mbuf) : Type 0 where
  pub whole : frame_at buf + m.len ≡ flen
  pub ethernet : 14 ≤ m.len
  pub bytes : (i : ℕ) → i < m.len → m.bytes i ≡ buf (frame_at buf + i)

-- When an mbuf can be allocated, a frame of less than 65536 bytes that leaves room for an
-- Ethernet header gives an mbuf that holds its rest; a shorter one gives none, so no mbuf holds a
-- byte from beyond the frame.
copy_data_outcome :
    (buf : Buf) (flen : ℕ)
    → flen < 65536
    → (frame_at buf + 14 ≤ flen)
        × ((m : Mbuf) × (copy_data true buf flen ≡ some m) × Holds buf flen m)
      ⊎ (flen < frame_at buf + 14) × (copy_data true buf flen ≡ none)
unfolding copy_data
copy_data_outcome buf flen small = elim (Bool-cases (ltb flen (frame_at buf + 14))) [
  | inl e ↦ inr (ltb→lt _ _ e, ground arith)
  | inr e ↦ inl (
    ground arith,
    (
      record { len = u16 (flen - frame_at buf); bytes = λ i. buf (frame_at buf + i) },
      ground arith,
      record { whole = ground arith; ethernet = ground arith; bytes = λ i l. refl },
    ),
  )
]

-- The bytes of some frames, and the number of EAPOL frames among them.
abbrev bytes_of : List Mbuf → ℕ
bytes_of [] = 0
bytes_of (m ∷ ms) = m.len + bytes_of ms

abbrev eapols : List Mbuf → ℕ
eapols [] = 0
eapols (m ∷ ms) = (if is_eapol m then 1 else 0) + eapols ms

-- The counters are 64-bit words.
pub record Counters (sc : Softc) : Type 0 where
  pub frames : sc.rx_data_frames < 2 ^ 64
  pub bytes : sc.rx_data_bytes < 2 ^ 64
  pub eapol : sc.rx_eapol_frames < 2 ^ 64

-- The frames were handed over in their order and counted.
pub record Delivered (sc : Softc) (ms : List Mbuf) (out : Softc × List Mbuf) : Type 0 where
  pub handed : out.1 ≡ ms
  pub frames : out.0.rx_data_frames ≡ (sc.rx_data_frames + length ms) % 2 ^ 64
  pub bytes : out.0.rx_data_bytes ≡ (sc.rx_data_bytes + bytes_of ms) % 2 ^ 64
  pub eapol : out.0.rx_eapol_frames ≡ (sc.rx_eapol_frames + eapols ms) % 2 ^ 64

deliver-cons :
    (sc : Softc) (v : VapState) (m : Mbuf) (ms : List Mbuf)
    → sc.vap ≡ some v
    → deliver true sc (m ∷ ms)
      ≡ ((deliver true (count_rx sc m) ms).0, m ∷ (deliver true (count_rx sc m) ms).1)
unfolding deliver
deliver-cons sc v m ms has = ground arith

-- With a VAP that has an interface, and counters that are 64-bit words, every collected frame is
-- handed to it in order, and the counters grow by the number of frames, their bytes and the EAPOL
-- frames among them, modulo 2 ^ 64.
deliver-Delivered :
    (sc : Softc) (v : VapState) (ms : List Mbuf)
    → sc.vap ≡ some v
    → Counters sc
    → Delivered sc ms (deliver true sc ms)
unfolding deliver
deliver-Delivered sc v [] has c = record {
  handed = refl;
  frames = omega (arith, c.frames);
  bytes = omega (arith, c.bytes);
  eapol = omega (arith, c.eapol);
}
deliver-Delivered sc v (m ∷ ms) has c =
    let c' : Counters (count_rx sc m) = record {
      frames = omega arith;
      bytes = omega arith;
      eapol = ground (arith, c.eapol);
    } in
    let rest = deliver-Delivered (count_rx sc m) v ms has c' in
    subst (λ out. Delivered sc (m ∷ ms) out) (sym (deliver-cons sc v m ms has))
      (record {
        handed = ap (λ r. m ∷ r) rest.handed;
        frames = rest.frames ∙ omega arith;
        bytes = rest.bytes ∙ omega arith;
        eapol = rest.eapol ∙ ground arith;
      })
