-- ===== src/Cyw/Recv.antt =====
-- cyw43455_fwil.c: cyw_sdpcm_recv_one, its error path, and the FIFO drain of cyw_rxfail.
-- The SDIO bus, which the kernel's sdiob implements, is a section parameter.
pub mod Bounds
pub mod Drain
use free_bsd15_rpi5_modules.Base.{
  ℕ, zero, suc, ◌+◌, ◌-◌, ◌*◌, ◌/◌, ◌%◌, Bool, true, false, not, ◌&&◌, ◌||◌, Option, none, some,
  leb, ltb, ◌==◌, if◌then◌else◌, u64, bit, eagain, einval, min,
}
use free_bsd15_rpi5_modules.Cyw.{
  Buf, Softc, fill, hdr_len, hdr_len_inv, hdr_credit, sdpcm_hdr_len, sdpcm_max_frame, f2_blksize,
  f2_max_byte_xfer,
}

pub record Sdio : Type 1 where
  pub Card : Type 0
  -- SDIO_READ_EXTENDED on the F2 FIFO: the bytes, and the error.
  pub read_fifo : Card → ℕ → Card × Buf × ℕ
  pub bp_read32 : Card → ℕ → Card × ℕ
  pub bp_write32 : Card → ℕ → ℕ → Card
  -- The reads by which cyw_rx_eio_diag fills its message.
  pub diagnose : Card → Card
  -- cyw_rxfail's abort of F2 and termination of the frame, and its read of RFRAMEBCHI and RFRAMEBCLO
  -- as one 16-bit count.
  pub abort : Card → Card
  pub read_rbc : Card → Card × ℕ

-- `intstatus & I_HMB_SW_MASK`, bits 4 to 7.
abbrev pub hmb_bits : ℕ → ℕ
hmb_bits w = w / 16 % 16 * 16

-- `(flen - BLK + BLK - 1) & ~(BLK - 1)`, for a frame longer than a block.
abbrev pub tail_len : ℕ → ℕ
tail_len flen = (flen - f2_blksize + f2_blksize - 1) / f2_blksize * f2_blksize

-- The two words of the header are complements: `(uint16_t)~(len ^ len_inv)` is 0.
abbrev pub complements : Buf → Bool
complements b = hdr_len b + hdr_len_inv b == 65535

abbrev count_eagain : Softc → Softc
count_eagain sc = record sc { rx_eagain_count = u64 (sc.rx_eagain_count + 1) }

-- cyw_rx_eio_diag counts before it prints.
abbrev count_eio : Softc → Softc
count_eio sc = record sc { rx_eio_count = u64 (sc.rx_eio_count + 1) }

-- What the checks on the header of the first block decide: an error with the softc, or the length.
pub data Verdict : Type 0 where
  reject : ℕ → Softc → Verdict
  accept : ℕ → Verdict

unfoldable pub check_header : Softc → Buf → Verdict
check_header sc buf =
    let flen = hdr_len buf in
    if flen == 0 && hdr_len_inv buf == 0
    then reject eagain sc
    else if not (complements buf)
    then reject eagain (count_eagain sc)
    else if flen == 0xFFFF || ltb flen sdpcm_hdr_len
    then reject eagain (count_eagain sc)
    else if ltb sdpcm_max_frame flen
    then reject einval sc
    else accept flen

module _ (sdio : Sdio) where
  open sdio use {Card, read_fifo, bp_read32, bp_write32, diagnose, abort, read_rbc}

  -- The polling loop of cyw_rxfail, by rounds; `none` if they run out before it ends. A count that
  -- changed starts the retries anew, of which the loop's step then takes one.
  pub drain : ℕ → ℕ → ℕ → Card → Option Card
  drain zero lastrbc retries card = none
  drain (suc rounds) lastrbc retries card =
      let (card', rbc) = read_rbc card in
      let rest =
        drain rounds (if rbc == lastrbc then lastrbc else rbc)
          (if rbc == lastrbc then retries - 1 else 0xffff - 1) card' in
      if retries == 0 then some card else if rbc == 0 then some card' else rest

  -- What a call leaves: the card, the softc, the buffer; the error; and the length, if it stores one in
  -- `*out_flen`.
  pub record Received : Type 0 where
    pub card : Card
    pub softc : Softc
    pub buf : Buf
    pub error : ℕ
    pub flen : Option ℕ

  -- The loop on `remaining`, by rounds; `none` if they run out. A failed read leaves its error.
  pub read_tail : ℕ → Card → Buf → ℕ → ℕ → Option (Card × Buf × ℕ)
  read_tail zero card buf dst remaining = if remaining == 0 then some (card, buf, 0) else none
  read_tail (suc rounds) card buf dst remaining =
      let chunk = if ltb f2_max_byte_xfer remaining then f2_max_byte_xfer else remaining in
      let (card', bytes, error) = read_fifo card chunk in
      let buf' = fill buf dst chunk bytes in
      let rest = read_tail rounds card' buf' (dst + chunk) (remaining - chunk) in
      if remaining == 0
      then some (card, buf, 0)
      else if error == 0
      then rest
      else some (card', buf', error)

  -- Five rounds are enough for the longest tail.
  abbrev pub tail_rounds : ℕ
  tail_rounds = 5

  -- The rounds that cyw_rxfail's loop is given.
  module _ (patience : ℕ) where
    -- A failed read: cyw_rx_eio_diag, cyw_rxfail, and the error of the read.
    pub fail : Card → Softc → Buf → ℕ → Option Received
    fail card sc buf error = elim (drain patience 0xffff 0xffff (abort (diagnose card))) [
      | none ↦ none
      | some card' ↦
          some
            (record { card = card'; softc = count_eio sc; buf = buf; error = error; flen = none })
    ]

    credited : Softc → Buf → Softc
    credited sc buf = record sc {
      sdpcm_rx_max = hdr_credit buf;
      rx_ok_count = u64 (sc.rx_ok_count + 1);
    }

    pub succeed : Card → Softc → Buf → ℕ → Received
    unfolding credited
    succeed card sc buf flen = record {
      card = card;
      softc = credited sc buf;
      buf = buf;
      error = 0;
      flen = some flen;
    }

    -- The tail of a longer frame, and the accounting of a success.
    pub finish : Card → Softc → Buf → ℕ → Option Received
    finish card sc buf flen =
        if ltb f2_blksize flen
        then elim (read_tail tail_rounds card buf f2_blksize (tail_len flen)) [
          | none ↦ none
          | some (card', buf', error) ↦
              if error == 0 then some (succeed card' sc buf' flen) else fail card' sc buf' error
        ]
        else some (succeed card sc buf flen)

    -- From the read of the first block on.
    pub receive : Card → Softc → Buf → Option Received
    receive card sc buf =
        let (card', bytes, error) = read_fifo card f2_blksize in
        let buf' = fill buf 0 f2_blksize bytes in
        if error == 0
        then elim (check_header sc buf') [
          | reject e sc' ↦
              some (record { card = card'; softc = sc'; buf = buf'; error = e; flen = none })
          | accept flen ↦ finish card' sc buf' flen
        ]
        else fail card' sc buf' error

    -- cyw_sdpcm_recv_one: gated on the interrupt status (at offset 0x020 of the core), whose mailbox
    -- bits it acknowledges.
    pub recv_one : Card → Softc → Buf → Option Received
    recv_one card sc buf =
        if sc.sdio_core_base == 0
        then receive card sc buf
        else let (card', intstatus) = bp_read32 card (sc.sdio_core_base + 0x020) in
          if hmb_bits intstatus == 0 && not (bit intstatus 23)
          then some (record { card = card'; softc = sc; buf = buf; error = eagain; flen = none })
          else if hmb_bits intstatus == 0
          then receive card' sc buf
          else receive (bp_write32 card' (sc.sdio_core_base + 0x020) (hmb_bits intstatus)) sc buf
