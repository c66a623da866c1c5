-- ===== src/Cyw/Recv/Bounds.antt =====
-- cyw_sdpcm_recv_one: it ends, and what it leaves in the buffer and in the softc.
use free_bsd15_rpi5_modules.Base.{
  ℕ, zero, suc, ◌+◌, ◌-◌, ◌*◌, ◌≤◌, ◌<◌, ◌≡◌, ◌∙◌, ◌≢◌, ◌⊎◌, inl, inr, refl, true, false, not, ◌&&◌,
  Option, none, some, arith, ltb, u64, bit, eagain, ◌==◌, if◌then◌else◌, Bool-cases, ==_iff,
}
use free_bsd15_rpi5_modules.Cyw.{
  Buf, Softc, fill, hdr_len, hdr_credit, f2_blksize, f2_max_byte_xfer, sdpcm_hdr_len,
  sdpcm_max_frame, sdpcm_buf_size,
}
use free_bsd15_rpi5_modules.Cyw.Recv.{
  Sdio, Received, Verdict, reject, accept, check_header, read_tail, tail_len, complements, hmb_bits,
  fail, succeed, finish, receive, recv_one,
}
use free_bsd15_rpi5_modules.Cyw.Recv.Drain.{drain-ends}

fill_outside :
    (b : Buf) (at len : ℕ) (src : Buf) (i : ℕ)
    → (i < at) ⊎ (at + len ≤ i)
    → fill b at len src i ≡ b i
fill_outside b at len src i h = ground arith

abbrev chunk : ℕ → ℕ
chunk r = if ltb f2_max_byte_xfer r then f2_max_byte_xfer else r

chunk_rest : (n r : ℕ) → r ≤ 448 * suc n → r - chunk r ≤ 448 * n
chunk_rest n r h = ground arith

before_chunk : (dst r i : ℕ) → (i < dst) ⊎ (dst + r ≤ i) → (i < dst) ⊎ (dst + chunk r ≤ i)
before_chunk dst r i (inl o) = inl o
before_chunk dst r i (inr o) = inr (ground arith)

after_chunk :
    (dst r i : ℕ)
    → (i < dst) ⊎ (dst + r ≤ i)
    → (i < dst + chunk r) ⊎ (dst + chunk r + (r - chunk r) ≤ i)
after_chunk dst r i (inl o) = inl (omega arith)
after_chunk dst r i (inr o) = inr (ground arith)

-- The header stands in the first block, so writing after it keeps what it says.
header_kept :
    (b b' : Buf) (flen : ℕ)
    → ((i : ℕ) → i < 64 → b' i ≡ b i)
    → hdr_len b ≡ flen
    → complements b ≡ true
    → (hdr_len b' ≡ flen) × (complements b' ≡ true)
header_kept b b' flen same len paired =
    let s0 : b' 0 ≡ b 0 = same 0 (omega arith) in
    let s1 : b' 1 ≡ b 1 = same 1 (omega arith) in
    let s2 : b' 2 ≡ b 2 = same 2 (omega arith) in
    let s3 : b' 3 ≡ b 3 = same 3 (omega arith) in (rw (s0, s1) len, rw (s0, s1, s2, s3) paired)

module _ (sdio : Sdio) where
  -- A tail that fits the rounds is read, and only its own bytes are written.
  Tail : Buf → ℕ → ℕ → Option (sdio.Card × Buf × ℕ) → Type 0
  Tail buf dst remaining out =
      (r : sdio.Card × Buf × ℕ) × (out ≡ some r)
      × ((i : ℕ) → (i < dst) ⊎ (dst + remaining ≤ i) → r.1 i ≡ buf i)

  read_tail-Tail :
      (rounds : ℕ) (card : sdio.Card) (buf : Buf) (dst remaining : ℕ)
      → remaining ≤ 448 * rounds
      → Tail buf dst remaining (read_tail sdio rounds card buf dst remaining)
  unfolding read_tail Tail
  read_tail-Tail zero card buf dst remaining h =
      ((card, buf, 0), rw ((==_iff remaining 0).1 (omega arith)) refl, (λ i o. refl))
  read_tail-Tail (suc rounds) card buf dst remaining h = elim (Bool-cases (remaining == 0)) [
    | inl e ↦ ((card, buf, 0), rw e refl, (λ i o. refl))
    | inr more ↦
        let got = sdio.read_fifo card (chunk remaining) in
        let buf' = fill buf dst (chunk remaining) got.1 in
        elim (Bool-cases (got.2 == 0)) [
          | inl e ↦
              let (r, eq, kept) =
                read_tail-Tail rounds got.0 buf' (dst + chunk remaining)
                  (remaining - chunk remaining) (chunk_rest rounds remaining h) in
              (
                r,
                rw (more, e) eq,
                (λ i o.
                    kept i (after_chunk dst remaining i o)
                    ∙ fill_outside buf dst (chunk remaining) got.1 i
                        (before_chunk dst remaining i o)),
              )
          | inr e ↦ (
            (got.0, buf', got.2),
            rw (more, e) refl,
            (λ i o.
                fill_outside buf dst (chunk remaining) got.1 i (before_chunk dst remaining i o)),
          )
        ]
  ]

  -- A frame was received: its length is in range and in the header with its complement, and the
  -- credit was taken from the header.
  pub record Good (sc : Softc) (r : Received sdio) : Type 0 where
    pub error : r.error ≡ 0
    pub flen : ℕ
    pub stored : r.flen ≡ some flen
    pub least : sdpcm_hdr_len ≤ flen
    pub most : flen ≤ sdpcm_max_frame
    pub len : hdr_len r.buf ≡ flen
    pub paired : complements r.buf ≡ true
    pub softc :
        r.softc
        ≡ record sc { sdpcm_rx_max = hdr_credit r.buf; rx_ok_count = u64 (sc.rx_ok_count + 1) }

  -- No frame: an error, and neither the credit nor the count of received frames changed.
  pub record Bad (sc : Softc) (r : Received sdio) : Type 0 where
    pub error : r.error ≢ 0
    pub stored : r.flen ≡ none
    pub credit : r.softc.sdpcm_rx_max ≡ sc.sdpcm_rx_max
    pub ok_count : r.softc.rx_ok_count ≡ sc.rx_ok_count

  unfoldable pub Sound : Softc → Buf → Option (Received sdio) → Type 0
  Sound sc buf out =
      (r : Received sdio) × (out ≡ some r)
      × ((i : ℕ) → sdpcm_buf_size ≤ i → r.buf i ≡ buf i)
      × (Good sc r ⊎ Bad sc r)

  -- What an accepted header says.
  check_header-accept :
      (sc : Softc) (buf : Buf) (flen : ℕ)
      → check_header sc buf ≡ accept flen
      → (hdr_len buf ≡ flen) × (complements buf ≡ true) × (12 ≤ flen) × (flen ≤ 2048)
  unfolding check_header
  check_header-accept sc buf flen h = ground arith

  check_header-reject :
      (sc sc' : Softc) (buf : Buf) (e : ℕ)
      → check_header sc buf ≡ reject e sc'
      → (e ≢ 0) × (sc'.sdpcm_rx_max ≡ sc.sdpcm_rx_max) × (sc'.rx_ok_count ≡ sc.rx_ok_count)
  unfolding check_header
  check_header-reject sc sc' buf e h = ground arith

  module _ (falls : (c : sdio.Card) → (sdio.read_rbc (sdio.read_rbc c).0).1 ≤ (sdio.read_rbc c).1)
      (fits : (c : sdio.Card) → (sdio.read_rbc c).1 ≤ 0xffff) (patience : ℕ)
      (enough : 0xffff * 65536 + 0xffff < patience) where
    fail-Sound :
        (card : sdio.Card) (sc : Softc) (start buf : Buf) (error : ℕ)
        → error == 0 ≡ false
        → ((i : ℕ) → sdpcm_buf_size ≤ i → buf i ≡ start i)
        → Sound sc start (fail sdio patience card sc buf error)
    unfolding fail Sound
    fail-Sound card sc start buf error h kept =
        let (card', eq) =
          drain-ends sdio falls patience 0xffff 0xffff (sdio.abort (sdio.diagnose card)) (fits _)
            enough in
        let left : Received sdio = record {
          card = card';
          softc = record sc { rx_eio_count = u64 (sc.rx_eio_count + 1) };
          buf = buf;
          error = error;
          flen = none;
        } in
        (
          left,
          rw (fail, eq) refl,
          kept,
          inr (record { error = ground arith; stored = refl; credit = refl; ok_count = refl }),
        )

    succeed-Sound :
        (card : sdio.Card) (sc : Softc) (start buf : Buf) (flen : ℕ)
        → ((i : ℕ) → sdpcm_buf_size ≤ i → buf i ≡ start i)
        → (hdr_len buf ≡ flen) × (complements buf ≡ true) × (12 ≤ flen) × (flen ≤ 2048)
        → Sound sc start (some (succeed sdio patience card sc buf flen))
    unfolding succeed Sound
    succeed-Sound card sc start buf flen kept (len, paired, least, most) = (
      _,
      refl,
      kept,
      inl (record {
        error = refl;
        flen = flen;
        stored = refl;
        least = least;
        most = most;
        len = len;
        paired = paired;
        softc = refl;
      }),
    )

    finish-Sound :
        (card : sdio.Card) (sc : Softc) (start buf : Buf) (flen : ℕ)
        → ((i : ℕ) → sdpcm_buf_size ≤ i → buf i ≡ start i)
        → (hdr_len buf ≡ flen) × (complements buf ≡ true) × (12 ≤ flen) × (flen ≤ 2048)
        → Sound sc start (finish sdio patience card sc buf flen)
    unfolding finish Tail
    finish-Sound card sc start buf flen kept (len, paired, least, most) =
        elim (Bool-cases (ltb f2_blksize flen)) [
          | inl e ↦
              let (r, eq, tail) =
                read_tail-Tail 5 card buf 64 (tail_len flen) (omega (arith, most)) in
              let same : (i : ℕ) → i < 64 → r.1 i ≡ buf i = λ i l. tail i (inl l) in
              let head = header_kept buf r.1 flen same len paired in
              let kept' : (i : ℕ) → sdpcm_buf_size ≤ i → r.1 i ≡ start i =
                λ i l. tail i (inr (omega (arith, most))) ∙ kept i l in
              let facts : (hdr_len r.1 ≡ flen)
                  × (complements r.1 ≡ true)
                  × (12 ≤ flen)
                  × (flen ≤ 2048) =
                (head.0, head.1, least, most) in
              elim (Bool-cases (r.2 == 0)) [
                | inl z ↦ rw (e, eq, z) (succeed-Sound r.0 sc start r.1 flen kept' facts)
                | inr z ↦ rw (e, eq, z) (fail-Sound r.0 sc start r.1 r.2 z kept')
              ]
          | inr e ↦ rw e (succeed-Sound card sc start buf flen kept (len, paired, least, most))
        ]

    receive-Sound :
        (card : sdio.Card) (sc : Softc) (buf : Buf)
        → Sound sc buf (receive sdio patience card sc buf)
    unfolding receive Sound
    receive-Sound card sc buf =
        let got = sdio.read_fifo card f2_blksize in
        let buf' = fill buf 0 f2_blksize got.1 in
        let kept : (i : ℕ) → sdpcm_buf_size ≤ i → buf' i ≡ buf i =
          λ i l. fill_outside buf 0 f2_blksize got.1 i (inr (omega arith)) in
        elim (Bool-cases (got.2 == 0)) [
          | inl e ↦ rw e (checked got.0 sc buf buf' kept (check_header sc buf') refl)
          | inr e ↦ rw e (fail-Sound got.0 sc buf buf' got.2 e kept)
        ]
      where
        checked :
            (card : sdio.Card) (sc : Softc) (start buf : Buf)
            → ((i : ℕ) → sdpcm_buf_size ≤ i → buf i ≡ start i)
            → (v : Verdict) → check_header sc buf ≡ v
            → Sound sc start (elim v [
              | reject e sc' ↦
                  some (record { card = card; softc = sc'; buf = buf; error = e; flen = none })
              | accept flen ↦ finish sdio patience card sc buf flen
            ])
        checked card sc start buf kept (reject e sc') h =
            let (error, credit, ok_count) = check_header-reject sc sc' buf e h in
            (
              _,
              refl,
              kept,
              inr (record { error = error; stored = refl; credit = credit; ok_count = ok_count }),
            )
        checked card sc start buf kept (accept flen) h =
            finish-Sound card sc start buf flen kept (check_header-accept sc buf flen h)

    -- Where a read of the chip's 16-bit byte count never exceeds the last one and the drain
    -- loop has more rounds than it can take (65535 * 65536 + 65535), a call returns. It
    -- leaves the memory from byte 2112 of the buffer on as it was, and either reports success
    -- with a length from 12 to 2048 that the header and its complement carry, the credit of
    -- the header recorded and the frame counted, or an error and no length, and then
    -- neither the credit nor the count of received frames has changed.
    pub recv_one-Sound :
        (card : sdio.Card) (sc : Softc) (buf : Buf)
        → Sound sc buf (recv_one sdio patience card sc buf)
    unfolding recv_one Sound
    recv_one-Sound card sc buf = elim (Bool-cases (sc.sdio_core_base == 0)) [
      | inl e ↦ rw e (receive-Sound card sc buf)
      | inr e ↦ rw e (gated (sdio.bp_read32 card (sc.sdio_core_base + 0x020)))
    ]
      where
        gated :
            (got : sdio.Card × ℕ)
            → Sound sc buf (
                if hmb_bits got.1 == 0 && not (bit got.1 23)
                then some
                    (record { card = got.0; softc = sc; buf = buf; error = eagain; flen = none })
                else if hmb_bits got.1 == 0
                then receive sdio patience got.0 sc buf
                else receive sdio patience
                    (sdio.bp_write32 got.0 (sc.sdio_core_base + 0x020) (hmb_bits got.1))
                    sc
                    buf)
        gated (c, w) = elim (Bool-cases (hmb_bits w == 0)) [
          | inl z ↦ elim (Bool-cases (bit w 23)) [
            | inl b ↦ rw (z, b) (receive-Sound c sc buf)
            | inr b ↦
                rw (z, b)
                  (
                    record { card = c; softc = sc; buf = buf; error = eagain; flen = none },
                    refl,
                    (λ i l. refl),
                    inr (record {
                      error = ground arith;
                      stored = refl;
                      credit = refl;
                      ok_count = refl;
                    }),
                  )
          ]
          | inr z ↦
              rw z
                (receive-Sound (sdio.bp_write32 c (sc.sdio_core_base + 0x020) (hmb_bits w)) sc buf)
        ]
