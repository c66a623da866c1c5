-- ===== src/Cyw/Fil/Await.antt =====
-- cyw_fil_txrx while the driver runs: which frame ends the request, and what is left behind.
use free_bsd15_rpi5_modules.Base.{
  ℕ, zero, suc, ◌+◌, ◌-◌, ◌%◌, ◌<◌, ◌≡◌, ◌≢◌, ◌⊎◌, inl, inr, refl, sym, ap, ◌∙◌, true, false, none,
  some, ◌++◌, arith, ltb, ◌==◌, enobufs, Bool-cases, if_rule,
}
use mathlib.Core.Path.{subst}
use free_bsd15_rpi5_modules.Cyw.{Buf, Softc}
use free_bsd15_rpi5_modules.Cyw.Sdpcm.{deliver_ctrl}
use free_bsd15_rpi5_modules.Cyw.Fil.{
  Request, Surroundings, Reply, await_credit, has_credit, next_id, post, exchange, txrx_running,
  frame_of,
}
use free_bsd15_rpi5_modules.Cyw.Fil.Delivered.{
  deliver_ctrl_idle, deliver_all-append, deliver_all-Ended, deliver_all_seq, Ended,
}
use free_bsd15_rpi5_modules.Cyw.Fil.Credit.{NoCredit, Looked, await-Looked}

-- A request whose frame was written: with this id and sequence number, and ended by the frames that the
-- task delivered from its posting on.
pub record Exchanged (req : Request) (world : Surroundings) (id seq : ℕ) (reply : Reply)
    : Type 0 where
  pub sent : reply.sent ≡ some (frame_of req id seq)
  pub next_seq : reply.softc.sdpcm_tx_seq ≡ (seq + 1) % 256
  pub ended : Ended req id (world.early ++ world.late) reply.err reply.softc.ioctl_resp_buf

-- The frame could not be written, or was.
abbrev pub Written : Request → Surroundings → ℕ → ℕ → Reply → Type 0
Written req world id seq reply =
    (world.write_error ≢ 0) × (reply.err ≡ world.write_error) × (reply.sent ≡ none)
    ⊎ (world.write_error ≡ 0) × Exchanged req world id seq reply

-- One that found a credit at a look, the first.
pub record Started (req : Request) (world : Surroundings) (id seq look : ℕ) (reply : Reply)
    : Type 0 where
  pub within : look < 201
  pub before : (k : ℕ) → k < look → NoCredit world.rx_max seq k
  pub credit : (world.rx_max look + 256 - seq) % 256 ≢ 0
  pub written : Written req world id seq reply

abbrev pub Outcome : Request → Surroundings → Softc → Reply → Type 0
Outcome req world sc reply =
    ((k : ℕ) → k < 201 → NoCredit world.rx_max sc.sdpcm_tx_seq k)
      × (reply.err ≡ enobufs)
      × (reply.sent ≡ none)
    ⊎ ((look : ℕ) × Started req world ((sc.ioctl_id + 1) % 65536) sc.sdpcm_tx_seq look reply)

posted_seq : (req : Request) (sc : Softc) → (post req sc).sdpcm_tx_seq ≡ (sc.sdpcm_tx_seq + 1) % 256
unfolding post
posted_seq req sc = refl

exchange-Exchanged :
    (req : Request) (world : Surroundings) (sc : Softc)
    → world.write_error ≡ 0
    → Exchanged req world sc.ioctl_id sc.sdpcm_tx_seq (exchange req world sc)
unfolding exchange
exchange-Exchanged req world sc e =
    let all = world.early ++ world.late in
    let joins = deliver_all-append (post req sc) world.early world.late in
    if_rule (Exchanged req world sc.ioctl_id sc.sdpcm_tx_seq) (world.write_error == 0) _ _
      (λ _. record {
        sent = refl;
        next_seq =
            ap (λ (s : Softc). s.sdpcm_tx_seq) (sym joins)
            ∙ deliver_all_seq (post req sc) all
            ∙ posted_seq req sc;
        ended =
            subst (λ (s : Softc). Ended req sc.ioctl_id all s.ioctl_result s.ioctl_resp_buf) joins
              (deliver_all-Ended req sc all);
      })
      (λ n. absurd (ground (arith, n, e)))

exchange_refused :
    (req : Request) (world : Surroundings) (sc : Softc)
    → world.write_error ≢ 0
    → ((exchange req world sc).err ≡ world.write_error) × ((exchange req world sc).sent ≡ none)
unfolding exchange
exchange_refused req world sc e = (ground (arith, e), ground (arith, e))

exchanged :
    (req : Request) (world : Surroundings) (sc : Softc)
    → Written req world sc.ioctl_id sc.sdpcm_tx_seq (exchange req world sc)
exchanged req world sc = elim (Bool-cases (world.write_error == 0)) [
  | inl w ↦
      let e : world.write_error ≡ 0 = ground (arith, w) in
      inr (e, exchange-Exchanged req world sc e)
  | inr w ↦
      let e : world.write_error ≢ 0 = ground (arith, w) in
      let (err, sent) = exchange_refused req world sc e in inl (e, err, sent)
]

none_left :
    (world : Surroundings) (sc : Softc) {out : Softc}
    → (wait : Looked 200 world.rx_max (next_id sc) out) → has_credit out ≡ false
    → (k : ℕ) → k < 201
    → NoCredit world.rx_max sc.sdpcm_tx_seq k
none_left world sc {out} wait e k l = elim (Bool-cases (ltb k wait.look)) [
  | inl b ↦ wait.before k (ground (arith, b))
  | inr b ↦
      let last : k ≡ wait.look = ground (arith, b, l, wait.last e) in
      let dry = subst (λ (s : Softc). has_credit s ≡ false) wait.left e in
      let zero_left : NoCredit world.rx_max sc.sdpcm_tx_seq wait.look = ground (arith, dry) in
      subst (NoCredit world.rx_max sc.sdpcm_tx_seq) (sym last) zero_left
]

started :
    (req : Request) (world : Surroundings) (sc : Softc) {out : Softc}
    → (wait : Looked 200 world.rx_max (next_id sc) out) → has_credit out ≡ true
    → Started req world
        ((sc.ioctl_id + 1) % 65536)
        sc.sdpcm_tx_seq
        wait.look
        (exchange req world out)
started req world sc {out} wait e =
    let left = subst (λ (s : Softc). has_credit s ≡ true) wait.left e in
    let same_id : out.ioctl_id ≡ (sc.ioctl_id + 1) % 65536 =
      ap (λ (s : Softc). s.ioctl_id) wait.left in
    let same_seq : out.sdpcm_tx_seq ≡ sc.sdpcm_tx_seq =
      ap (λ (s : Softc). s.sdpcm_tx_seq) wait.left in
    record {
      within = omega (arith, wait.within);
      before = wait.before;
      credit = λ z. absurd (ground (arith, left, z));
      written =
          subst (λ seq. Written req world ((sc.ioctl_id + 1) % 65536) seq (exchange req world out))
            same_seq
            (subst (λ id. Written req world id out.sdpcm_tx_seq (exchange req world out)) same_id
              (exchanged req world out));
    }

-- A request that finds no credit at 201 looks is refused with ENOBUFS. Any other goes on at the first look
-- that finds one, with the next 16-bit id: where its frame cannot be written it returns the error of the
-- write, and else the frame with this id and the sequence number is sent, and the number advanced. The
-- first frame of 28 bytes or more with this id that the task delivers is then the answer: EIO and the
-- caller's buffer as it was where its error flag is set, and else 0 and the payload of a GET; the frames
-- before it change nothing, and without one the error is ETIMEDOUT. Refused requests send nothing.
pub txrx_running-Outcome :
    (req : Request) (world : Surroundings) (sc : Softc)
    → Outcome req world sc (txrx_running req world sc)
unfolding txrx_running
txrx_running-Outcome req world sc =
    let wait = await-Looked 200 world.rx_max (next_id sc) in
    if_rule (Outcome req world sc) (has_credit (await_credit 200 world.rx_max (next_id sc))) _ _
      (λ e. inr (wait.look, started req world sc wait e))
      (λ e. inl (none_left world sc wait e, refl, refl))

await_credit_keeps :
    (rounds : ℕ) (rx_max : ℕ → ℕ) (sc : Softc)
    → (await_credit rounds rx_max sc).ioctl_waiting ≡ sc.ioctl_waiting
unfolding await_credit
await_credit_keeps zero rx_max sc = refl
await_credit_keeps (suc rounds) rx_max sc =
    if_rule (λ (out : Softc). out.ioctl_waiting ≡ sc.ioctl_waiting)
      (has_credit (record sc { sdpcm_rx_max = rx_max 0 })) _ _ (λ e. refl)
      (λ e. await_credit_keeps rounds (λ i. rx_max (i + 1)) (record sc { sdpcm_rx_max = rx_max 0 }))

exchange_settles :
    (req : Request) (world : Surroundings) (sc : Softc)
    → (exchange req world sc).softc.ioctl_waiting ≡ false
unfolding exchange
exchange_settles req world sc =
    if_rule (λ (reply : Reply). reply.softc.ioctl_waiting ≡ false) (world.write_error == 0) _ _
      (λ e. refl) (λ e. refl)

settles :
    (req : Request) (world : Surroundings) (sc : Softc)
    → sc.ioctl_waiting ≡ false
    → (txrx_running req world sc).softc.ioctl_waiting ≡ false
unfolding txrx_running
settles req world sc idle =
    if_rule (λ (reply : Reply). reply.softc.ioctl_waiting ≡ false)
      (has_credit (await_credit 200 world.rx_max (next_id sc))) _ _
      (λ e. exchange_settles req world (await_credit 200 world.rx_max (next_id sc)))
      (λ e. await_credit_keeps 200 world.rx_max (next_id sc) ∙ idle)

-- Where no request waited before, none waits after, however the request ended: a frame that comes later,
-- with whatever id, changes nothing, the buffer that the caller has taken back included.
pub late_answer_ignored :
    (req : Request) (world : Surroundings) (sc : Softc) (buf : Buf) (flen : ℕ)
    → sc.ioctl_waiting ≡ false
    → deliver_ctrl (txrx_running req world sc).softc buf flen ≡ (txrx_running req world sc).softc
late_answer_ignored req world sc buf flen idle =
    deliver_ctrl_idle (txrx_running req world sc).softc buf flen (settles req world sc idle)
