-- ===== src/Cyw/Fil.antt =====
-- cyw43455_fwil.c: cyw_fil_txrx, which sends a control request and gets its answer, and the calls by name
-- and by command; cyw_f2_write_block (cyw43455_sdio.c). While the driver runs, the SDPCM task takes
-- the answer from the FIFO; before that the request polls the FIFO itself.
pub mod Frame
pub mod Delivered
pub mod Credit
pub mod Await
pub mod Agree
pub mod Boot
mod Tests
use free_bsd15_rpi5_modules.Base.{
  ℕ, zero, suc, ◌+◌, ◌-◌, ◌*◌, ◌/◌, ◌%◌, Bool, true, false, not, ◌&&◌, ◌||◌, Option, none, some,
  List, [], ◌∷◌, ltb, ◌==◌, if◌then◌else◌, u8, u16, u32, bit, eio, eagain, enobufs, etimedout, min,
  length, get_or, update,
}
use free_bsd15_rpi5_modules.Cyw.{
  Buf, Softc, fill, hdr_chan, sdpcm_hdr_len, bcdc_hdr_len, f2_blksize,
}
use free_bsd15_rpi5_modules.Cyw.Recv.{Sdio, Received, recv_one}
use free_bsd15_rpi5_modules.Cyw.Sdpcm.{deliver_ctrl, bcdc_flags, bcdc_id, avail, payload_at}

-- The arguments of cyw_fil_txrx: `set` is the flag BCDC_DCMD_SET; a name is its bytes without the NUL.
pub record Request : Type 0 where
  pub cmd : ℕ  -- uint32_t
  pub set : Bool
  pub name : Option (List ℕ)
  pub buf : Option Buf
  pub buflen : ℕ

abbrev pub namelen : Request → ℕ
namelen req = elim req.name [ none ↦ 0 | some s ↦ length s + 1 ]

abbrev pub payload : Request → ℕ
payload req = namelen req + req.buflen

abbrev pub framelen : Request → ℕ
framelen req = (sdpcm_hdr_len + bcdc_hdr_len + payload req + 3) / 4 * 4

-- Stores of little-endian words.
abbrev pub put16 : Buf → ℕ → ℕ → Buf
put16 b i w = update (update b i (w % 256)) (i + 1) (w / 256 % 256)

abbrev pub put32 : Buf → ℕ → ℕ → Buf
put32 b i w = put16 (put16 b i w) (i + 2) (w / 65536)

abbrev pub blank : Buf
blank i = 0

abbrev pub flags_word : Request → ℕ → ℕ
flags_word req id = (if req.set then 2 else 0) + id * 65536

-- The two headers of the frame: length and its complement, sequence number, channel, data offset; then
-- command, payload length, flags.
abbrev pub headers : Request → ℕ → ℕ → Buf
headers req id seq =
    let lengths = put16 (put16 blank 0 (u16 (framelen req))) 2 (65535 - u16 (framelen req)) in
    let sdpcm = update (update (update lengths 4 seq) 5 0) 7 sdpcm_hdr_len in
    put32 (put32 (put32 sdpcm 12 (u32 req.cmd)) 16 (u32 (payload req))) 20 (flags_word req id)

abbrev pub with_name : Request → Buf → Buf
with_name req b = elim req.name [
  | none ↦ b
  | some s ↦ fill b (sdpcm_hdr_len + bcdc_hdr_len) (length s + 1) (λ i. get_or s i 0)
]

abbrev pub with_data : Request → Buf → Buf
with_data req b = elim req.buf [
  | none ↦ b
  | some content ↦
      if req.set then fill b (sdpcm_hdr_len + bcdc_hdr_len + namelen req) req.buflen content else b
]

-- The frame that goes to the chip.
unfoldable pub frame_of : Request → ℕ → ℕ → Buf
frame_of req id seq = with_data req (with_name req (headers req id seq))

-- cyw_f2_write_block: how many bytes it takes from the frame on.
abbrev pub txlen : ℕ → ℕ
txlen flen = (flen + f2_blksize - 1) / f2_blksize * f2_blksize

-- `(uint8_t)(sdpcm_rx_max - sdpcm_tx_seq)`
abbrev pub has_credit : Softc → Bool
has_credit sc = not (u8 (sc.sdpcm_rx_max + 256 - sc.sdpcm_tx_seq) == 0)

abbrev pub is_get : Request → Bool
is_get req = elim req.buf [ none ↦ false | some _ ↦ not req.set ]

-- What the rest of the system does during a request: sdpcm_rx_max as the task keeps it, at each look;
-- the control frames that the task delivers before the frame is written, and those it delivers before
-- the wait of three seconds ends; and the error of the write to F2, 0 where it succeeds.
pub record Surroundings : Type 0 where
  pub rx_max : ℕ → ℕ
  pub early : List (Buf × ℕ)
  pub late : List (Buf × ℕ)
  pub write_error : ℕ

-- The wait for a credit, by rounds; the test that follows the loop is one more look.
unfoldable pub await_credit : ℕ → (ℕ → ℕ) → Softc → Softc
await_credit zero rx_max sc = record sc { sdpcm_rx_max = rx_max 0 }
await_credit (suc rounds) rx_max sc =
    let looked = record sc { sdpcm_rx_max = rx_max 0 } in
    let rest = await_credit rounds (λ i. rx_max (i + 1)) looked in
    if has_credit looked then looked else rest

-- The request is made known to the task, under the mutex.
unfoldable pub post : Request → Softc → Softc
post req sc = record sc {
  sdpcm_tx_seq = u8 (sc.sdpcm_tx_seq + 1);
  ioctl_waiting = true;
  ioctl_wait_id = sc.ioctl_id;
  ioctl_resp_buf = req.buf;
  ioctl_resp_buflen = req.buflen;
  ioctl_get = is_get req;
  ioctl_result = etimedout;
}

-- The task's delivery of control frames, in their order.
unfoldable pub deliver_all : Softc → List (Buf × ℕ) → Softc
deliver_all sc [] = sc
deliver_all sc ((buf, flen) ∷ frames) = deliver_all (deliver_ctrl sc buf flen) frames

-- Nothing waits any more, signalled or not.
abbrev pub settle : Softc → Softc
settle sc = record sc { ioctl_waiting = false }

-- The softc, the error, and the frame that was written to F2.
pub record Reply : Type 0 where
  pub softc : Softc
  pub err : ℕ
  pub sent : Option Buf

abbrev pub next_id : Softc → Softc
next_id sc = record sc { ioctl_id = u16 (sc.ioctl_id + 1) }

-- From the posting of the request on.
unfoldable pub exchange : Request → Surroundings → Softc → Reply
exchange req world sc =
    let posted = deliver_all (post req sc) world.early in
    let ended = settle (deliver_all posted world.late) in
    if world.write_error == 0
    then record {
      softc = ended;
      err = ended.ioctl_result;
      sent = some (frame_of req sc.ioctl_id sc.sdpcm_tx_seq);
    }
    else record { softc = settle posted; err = world.write_error; sent = none }

-- cyw_fil_txrx where sdpcm_running is set.
unfoldable pub txrx_running : Request → Surroundings → Softc → Reply
txrx_running req world sc =
    let credited = await_credit 200 world.rx_max (next_id sc) in
    if has_credit credited
    then exchange req world credited
    else record { softc = credited; err = enobufs; sent = none }

-- The caller's buffer after an answer: a GET takes the payload.
unfoldable pub taken : Request → Buf → ℕ → Option Buf
taken req rsp flen =
    if is_get req
    then elim req.buf [
      | none ↦ none
      | some buf ↦
          some (fill buf 0 (min req.buflen (avail rsp flen)) (λ i. rsp (payload_at rsp + i)))
    ]
    else req.buf

-- What a polled frame of `flen` bytes is to the request with this id: `none` where the loop goes on; else
-- the error and the caller's buffer after it.
unfoldable pub examine : Request → ℕ → Buf → ℕ → Option (ℕ × Option Buf)
examine req id rsp flen =
    if ltb flen (sdpcm_hdr_len + bcdc_hdr_len)
    then none
    else if not (hdr_chan rsp == 0)
    then none
    else if not (bcdc_id rsp == id)
    then none
    else if bit (bcdc_flags rsp) 0
    then some (eio, req.buf)
    else some (0, taken req rsp flen)

-- The caller's `flen`, which it looks at only after a success.
abbrev pub stored : Option ℕ → ℕ
stored none = 0
stored (some flen) = flen

-- The boot-time path, on the SDIO operations of recv_one, whose drain is given `patience` rounds;
-- `write_fifo` is SDIO_WRITE_EXTENDED on the F2 FIFO.
module _ (sdio : Sdio) (patience : ℕ) (write_fifo : sdio.Card → ℕ → Buf → sdio.Card × ℕ) where
  -- The card, the softc, the receive buffer, the error, and the caller's buffer.
  pub record Polled : Type 0 where
    pub card : sdio.Card
    pub softc : Softc
    pub rsp : Buf
    pub err : ℕ
    pub out : Option Buf

  -- The loop that receives until there is a credit; it ends with an error or without.
  pub drain_credits : ℕ → Request → sdio.Card → Softc → Buf → Option Polled
  drain_credits zero req card sc rsp =
      some (record { card = card; softc = sc; rsp = rsp; err = 0; out = req.buf })
  drain_credits (suc rounds) req card sc rsp =
      if has_credit sc
      then some (record { card = card; softc = sc; rsp = rsp; err = 0; out = req.buf })
      else elim (recv_one sdio patience card sc rsp) [
        | none ↦ none
        | some r ↦
            let rest = drain_credits rounds req r.card r.softc r.buf in
            if not (r.error == 0) && not (r.error == eagain)
            then some (record {
              card = r.card;
              softc = r.softc;
              rsp = r.buf;
              err = r.error;
              out = req.buf;
            })
            else rest
      ]

  -- The loop that polls for the answer.
  pub poll : ℕ → Request → ℕ → sdio.Card → Softc → Buf → Option Polled
  poll zero req id card sc rsp =
      some (record { card = card; softc = sc; rsp = rsp; err = etimedout; out = req.buf })
  poll (suc rounds) req id card sc rsp = elim (recv_one sdio patience card sc rsp) [
    | none ↦ none
    | some r ↦
        let rest = poll rounds req id r.card r.softc r.buf in
        if r.error == eagain
        then rest
        else if not (r.error == 0)
        then some
            (record { card = r.card; softc = r.softc; rsp = r.buf; err = r.error; out = req.buf })
        else elim (examine req id r.buf (stored r.flen)) [
          | none ↦ rest
          | some (err, out) ↦
              some (record { card = r.card; softc = r.softc; rsp = r.buf; err = err; out = out })
        ]
  ]

  abbrev signal : Softc → sdio.Card → sdio.Card
  signal sc card =
      if sc.sdio_core_base == 0 then card else sdio.bp_write32 card (sc.sdio_core_base + 0x040) 2

  -- A credit is there: the frame is written, the mailbox is signalled, and the answer is polled for.
  pub request_now : Request → sdio.Card → Softc → Buf → Option Polled
  request_now req card sc rsp =
      let taken = record sc { sdpcm_tx_seq = u8 (sc.sdpcm_tx_seq + 1) } in
      let frame = frame_of req sc.ioctl_id sc.sdpcm_tx_seq in
      let (card', err) = write_fifo card (txlen (framelen req)) frame in
      if err == 0
      then poll 300 req sc.ioctl_id (signal taken card') taken rsp
      else some (record { card = card'; softc = taken; rsp = rsp; err = err; out = req.buf })

  -- cyw_fil_txrx where sdpcm_running is not set.
  pub txrx_boot : Request → sdio.Card → Softc → Option Polled
  txrx_boot req card sc = elim (drain_credits 100 req card (next_id sc) blank) [
    | none ↦ none
    | some p ↦
        if not (p.err == 0)
        then some p
        else if has_credit p.softc
        then request_now req p.card p.softc p.rsp
        else some (record p { err = enobufs })
  ]

-- cyw_fil_iovar_data_get, cyw_fil_iovar_data_set (and cyw_fil_bsscfg_data_set, which only calls it),
-- cyw_fil_cmd_data_get, cyw_fil_cmd_data_set.
abbrev pub iovar_data_get : List ℕ → Buf → ℕ → Request
iovar_data_get name buf len = record {
  cmd = 262;
  set = false;
  name = some name;
  buf = some buf;
  buflen = len;
}

abbrev pub iovar_data_set : List ℕ → Buf → ℕ → Request
iovar_data_set name buf len = record {
  cmd = 263;
  set = true;
  name = some name;
  buf = some buf;
  buflen = len;
}

abbrev pub cmd_data_get : ℕ → Buf → ℕ → Request
cmd_data_get cmd buf len = record {
  cmd = cmd;
  set = false;
  name = none;
  buf = some buf;
  buflen = len;
}

abbrev pub cmd_data_set : ℕ → Buf → ℕ → Request
cmd_data_set cmd buf len = record {
  cmd = cmd;
  set = true;
  name = none;
  buf = some buf;
  buflen = len;
}

-- cyw_fil_iovar_int_get, cyw_fil_iovar_int_set, cyw_fil_bsscfg_int_set, cyw_fil_cmd_int_set: the four
-- bytes of the value.
abbrev pub iovar_int_get : List ℕ → Request
iovar_int_get name = iovar_data_get name blank 4

abbrev pub iovar_int_set : List ℕ → ℕ → Request
iovar_int_set name val = iovar_data_set name (put32 blank 0 val) 4

abbrev pub cmd_int_set : ℕ → ℕ → Request
cmd_int_set cmd val = cmd_data_set cmd (put32 blank 0 val) 4
