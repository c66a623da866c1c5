-- ===== src/Cyw/Fil/Boot.antt =====
-- The boot-time path of cyw_fil_txrx: its two loops and what they leave.
use free_bsd15_rpi5_modules.Base.{
  ℕ, zero, suc, ◌+◌, ◌*◌, ◌≤◌, ◌<◌, ◌≡◌, ◌⊎◌, inl, inr, refl, not, ◌&&◌, Option, some, arith, ◌==◌,
  eio, eagain, if_rule, Option-cases, Bool-cases,
}
use free_bsd15_rpi5_modules.Cyw.{Buf, Softc}
use free_bsd15_rpi5_modules.Cyw.Recv.{Sdio, Received, recv_one}
use free_bsd15_rpi5_modules.Cyw.Recv.Bounds.{Sound, recv_one-Sound}
use free_bsd15_rpi5_modules.Cyw.Fil.{
  Request, Polled, drain_credits, poll, request_now, txrx_boot, examine, next_id, has_credit, blank,
  txlen, framelen, frame_of, stored,
}

-- A verdict with an error keeps the caller's buffer.
examine_error :
    (req : Request) (id : ℕ) (rsp : Buf) (flen err : ℕ) (out : Option Buf)
    → examine req id rsp flen ≡ some (err, out)
    → (err ≡ 0) ⊎ (err ≡ eio) × (out ≡ req.buf)
unfolding examine
examine_error req id rsp flen err out h = elim (Bool-cases (err == 0)) [
  | inl z ↦ inl (ground arith)
  | inr z ↦ inr (ground arith)
]

module _ (sdio : Sdio)
    (falls : (c : sdio.Card) → (sdio.read_rbc (sdio.read_rbc c).0).1 ≤ (sdio.read_rbc c).1)
    (fits : (c : sdio.Card) → (sdio.read_rbc c).1 ≤ 0xffff) (patience : ℕ)
    (enough : 0xffff * 65536 + 0xffff < patience)
    (write_fifo : sdio.Card → ℕ → Buf → sdio.Card × ℕ) where
  -- A call that came back: without an error, or with the caller's buffer as it was.
  abbrev pub Returned : Request → Option (Polled sdio patience write_fifo) → Type 0
  Returned req out =
      (p : Polled sdio patience write_fifo) × (out ≡ some p) × ((p.err ≡ 0) ⊎ (p.out ≡ req.buf))

  abbrev Kept : Request → Option (Polled sdio patience write_fifo) → Type 0
  Kept req out = (p : Polled sdio patience write_fifo) × (out ≡ some p) × (p.out ≡ req.buf)

  received :
      (card : sdio.Card) (sc : Softc) (buf : Buf)
      → (r : Received sdio) × (recv_one sdio patience card sc buf ≡ some r)
  unfolding Sound
  received card sc buf =
      let (r, eq, _, _) = recv_one-Sound sdio falls fits patience enough card sc buf in (r, eq)

  drain-Kept :
      (rounds : ℕ) (req : Request) (card : sdio.Card) (sc : Softc) (rsp : Buf)
      → Kept req (drain_credits sdio patience write_fifo rounds req card sc rsp)
  unfolding drain_credits
  drain-Kept zero req card sc rsp = (_, refl, refl)
  drain-Kept (suc rounds) req card sc rsp =
      let (r, eq) = received card sc rsp in
      if_rule (Kept req) (has_credit sc) _ _ (λ e. (_, refl, refl))
        (λ e. rw eq (
          if_rule (Kept req) (not (r.error == 0) && not (r.error == eagain)) _ _
            (λ f. (_, refl, refl)) (λ f. drain-Kept rounds req r.card r.softc r.buf)))

  poll-Returned :
      (rounds : ℕ) (req : Request) (id : ℕ) (card : sdio.Card) (sc : Softc) (rsp : Buf)
      → Returned req (poll sdio patience write_fifo rounds req id card sc rsp)
  unfolding poll
  poll-Returned zero req id card sc rsp = (_, refl, inr refl)
  poll-Returned (suc rounds) req id card sc rsp =
      let (r, eq) = received card sc rsp in
      let rest = poll-Returned rounds req id r.card r.softc r.buf in
      rw (poll, eq)
        (if_rule (Returned req) (r.error == eagain) _ _ (λ e. rest)
          (λ e.
            if_rule (Returned req) (not (r.error == 0)) _ _ (λ f. (_, refl, inr refl))
              (λ f. elim (Option-cases (examine req id r.buf (stored r.flen))) [
                | inl x ↦ rw x rest
                | inr ((err, out), x) ↦ rw x (
                  _,
                  refl,
                  elim (examine_error req id r.buf (stored r.flen) err out x) [
                    | inl z ↦ inl z
                    | inr (_, same) ↦ inr same
                  ],
                )
              ])))

  request_now-Returned :
      (req : Request) (card : sdio.Card) (sc : Softc) (rsp : Buf)
      → Returned req (request_now sdio patience write_fifo req card sc rsp)
  unfolding request_now
  request_now-Returned req card sc rsp =
      if_rule (Returned req)
        ((write_fifo card (txlen (framelen req)) (frame_of req sc.ioctl_id sc.sdpcm_tx_seq)).1 == 0)
        _ _ (λ e. poll-Returned 300 req sc.ioctl_id _ _ rsp) (λ e. (_, refl, inr refl))

  -- Where a read of the chip's 16-bit byte count never exceeds the last one and the drain of a failed
  -- receive has the rounds that it can take, a request at boot returns. An error leaves the caller's
  -- buffer as it was.
  pub txrx_boot-Returned :
      (req : Request) (card : sdio.Card) (sc : Softc)
      → Returned req (txrx_boot sdio patience write_fifo req card sc)
  unfolding txrx_boot
  txrx_boot-Returned req card sc =
      let (p, eq, kept) = drain-Kept 100 req card (next_id sc) blank in
      rw (txrx_boot, eq)
        (if_rule (Returned req) (not (p.err == 0)) _ _ (λ e. (p, refl, inr kept))
          (λ e.
            if_rule (Returned req) (has_credit p.softc) _ _
              (λ f. request_now-Returned req p.card p.softc p.rsp) (λ f. (_, refl, inr kept))))
