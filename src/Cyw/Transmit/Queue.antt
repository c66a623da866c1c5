-- ===== src/Cyw/Transmit/Queue.antt =====
-- cyw_tx_task: what becomes of the queue, with the credits that the chip has granted.
use free_bsd15_rpi5_modules.Base.{
  ℕ, zero, suc, ◌+◌, ◌-◌, ◌%◌, ◌==◌, if◌then◌else◌, ◌<◌, ◌≡◌, inl, inr, ◌≢◌, refl, sym, ap, ◌∙◌,
  true, false, not, List, [], ◌∷◌, ◌++◌, arith, u8, take, Bool-cases, if_rule,
}
use mathlib.Core.List.{append-nil, append_assoc}
use free_bsd15_rpi5_modules.Cyw.{Buf, Softc}
use free_bsd15_rpi5_modules.Cyw.Sdpcm.{Mbuf}
use free_bsd15_rpi5_modules.Cyw.Fil.{has_credit}
use free_bsd15_rpi5_modules.Cyw.Transmit.{
  Sender, Luck, counted, data_frame, framelen, tx_data_frame, send_all, with_luck, tx_task,
}

-- The credits that are left, modulo 256.
abbrev pub credits : Softc → ℕ
credits sc = u8 (sc.sdpcm_rx_max + 256 - sc.sdpcm_tx_seq)

-- The frames of mbufs that are tried one after the other, each with the error of its write.
abbrev pub tried : (ℕ → Luck) → ℕ → List Mbuf → ℕ → List (Buf × ℕ × ℕ)
tried luck i [] seq = []
tried luck i (m ∷ ms) seq =
    (data_frame m seq, framelen m, (luck i).write_error) ∷ tried luck (i + 1) ms ((seq + 1) % 256)

-- Those whose write succeeded.
abbrev pub accepted : List (Buf × ℕ × ℕ) → List (Buf × ℕ)
accepted [] = []
accepted ((frame, len, error) ∷ rest) =
    if error == 0 then (frame, len) ∷ accepted rest else accepted rest

-- Memory is there for every frame.
abbrev pub Lucky : (ℕ → Luck) → Type 0
Lucky luck = (i : ℕ) → ((luck i).linear ≡ true) × ((luck i).allocated ≡ true)

abbrev sent : ℕ → Mbuf → Sender → Sender
sent error m s =
    let c = counted m s in
    record c {
      softc = record c.softc { sdpcm_tx_seq = u8 (c.softc.sdpcm_tx_seq + 1) };
      written =
          if error == 0
          then c.written ++ (data_frame m c.softc.sdpcm_tx_seq, framelen m) ∷ []
          else c.written;
    }

step_sent :
    (luck : Luck) (m : Mbuf) (s : Sender)
    → luck.linear ≡ true
    → luck.allocated ≡ true
    → has_credit s.softc ≡ true
    → (tx_data_frame luck m s).1 ≡ sent luck.write_error m s
unfolding tx_data_frame
step_sent luck m s l a h = simp (l, a, h) refl

step_dropped :
    (luck : Luck) (m : Mbuf) (s : Sender)
    → luck.linear ≡ true
    → has_credit s.softc ≡ false
    → (tx_data_frame luck m s).1 ≡ counted m s
unfolding tx_data_frame
step_dropped luck m s l h = simp (l, h) refl

take_nil : (n : ℕ) → take {A = Mbuf} n [] ≡ []
take_nil zero = refl
take_nil (suc n) = refl

-- A credit is used up by a frame that is sent.
credits_sent :
    (error : ℕ) (m : Mbuf) (s : Sender)
    → s.softc.sdpcm_rx_max < 256
    → s.softc.sdpcm_tx_seq < 256
    → has_credit s.softc ≡ true
    → credits s.softc ≡ suc (credits (sent error m s).softc)
credits_sent error m s r q h =
    let some_left : credits s.softc ≢ 0 = ground (arith, h) in omega (arith, r, q, some_left)

-- What a frame adds to those that were taken.
written_sent :
    (luck : ℕ → Luck) (i : ℕ) (m : Mbuf) (s : Sender) (rest : List (Buf × ℕ × ℕ))
    → (sent (luck i).write_error m s).written ++ accepted rest
      ≡ s.written
        ++ accepted ((data_frame m s.softc.sdpcm_tx_seq, framelen m, (luck i).write_error) ∷ rest)
written_sent luck i m s rest = elim (Bool-cases ((luck i).write_error == 0)) [
  | inl e ↦ rw e (
      append_assoc s.written ((data_frame m s.softc.sdpcm_tx_seq, framelen m) ∷ []) (accepted rest))
  | inr e ↦ rw e refl
]

no_credits : (sc : Softc) → has_credit sc ≡ false → credits sc ≡ 0
no_credits sc h = ground (arith, h)

module _ (luck : ℕ → Luck) (lucky : Lucky luck) where
  send_all-written :
      (ms : List Mbuf) (i : ℕ) (s : Sender)
      → s.softc.sdpcm_rx_max < 256
      → s.softc.sdpcm_tx_seq < 256
      → (send_all (with_luck luck i ms) s).written
        ≡ s.written ++ accepted (tried luck i (take (credits s.softc) ms) s.softc.sdpcm_tx_seq)
  unfolding send_all
  send_all-written [] i s r q =
      sym (append-nil s.written)
      ∙ ap (λ (l : List Mbuf). s.written ++ accepted (tried luck i l s.softc.sdpcm_tx_seq))
          (sym (take_nil (credits s.softc)))
  send_all-written (m ∷ ms) i s r q = elim (Bool-cases (has_credit s.softc)) [
    | inl h ↦
        ap (λ (t : Sender). (send_all (with_luck luck (i + 1) ms) t).written)
          (step_sent (luck i) m s (lucky i).0 (lucky i).1 h)
        ∙ send_all-written ms (i + 1) (sent (luck i).write_error m s) r (omega arith)
        ∙ written_sent luck i m s (
            tried luck (i + 1) (take (credits (sent (luck i).write_error m s).softc) ms)
              ((s.softc.sdpcm_tx_seq + 1) % 256))
        ∙ ap (λ n. s.written ++ accepted (tried luck i (take n (m ∷ ms)) s.softc.sdpcm_tx_seq))
            (sym (credits_sent (luck i).write_error m s r q h))
    | inr h ↦
        ap (λ (t : Sender). (send_all (with_luck luck (i + 1) ms) t).written)
          (step_dropped (luck i) m s (lucky i).0 h)
        ∙ send_all-written ms (i + 1) (counted m s) r q
        ∙ ap (λ n. s.written ++ accepted (tried luck (i + 1) (take n ms) s.softc.sdpcm_tx_seq))
            (no_credits s.softc h)
        ∙ ap (λ n. s.written ++ accepted (tried luck i (take n (m ∷ ms)) s.softc.sdpcm_tx_seq))
            (sym (no_credits s.softc h))
  ]

step-queue :
    (luck : Luck) (m : Mbuf) (s : Sender) → (tx_data_frame luck m s).1.tx_queue ≡ s.tx_queue
unfolding tx_data_frame
step-queue luck m s =
    if_rule (λ (out : ℕ × Sender). out.1.tx_queue ≡ s.tx_queue) (not luck.linear) _ _ (λ e. refl)
      (λ e.
        if_rule (λ (out : ℕ × Sender). out.1.tx_queue ≡ s.tx_queue) (not (has_credit s.softc)) _ _
          (λ f. refl)
          (λ f.
            if_rule (λ (out : ℕ × Sender). out.1.tx_queue ≡ s.tx_queue) (not luck.allocated) _ _
              (λ g. refl) (λ g. refl)))

send_all-queue : (ms : List (Mbuf × Luck)) (s : Sender) → (send_all ms s).tx_queue ≡ s.tx_queue
unfolding send_all
send_all-queue [] s = refl
send_all-queue ((m, luck) ∷ ms) s =
    send_all-queue ms (tx_data_frame luck m s).1 ∙ step-queue luck m s

-- The task empties the queue. Where memory is there for every frame, it tries to write as many of the
-- queued frames as there are credits, in the order in which they were queued and with consecutive
-- sequence numbers; the FIFO takes just those whose write succeeds, and all others are dropped.
pub tx_task-Drained :
    (luck : ℕ → Luck) (s : Sender)
    → Lucky luck
    → s.softc.sdpcm_rx_max < 256
    → s.softc.sdpcm_tx_seq < 256
    → ((tx_task luck s).tx_queue ≡ [])
      × ((tx_task luck s).written
          ≡ s.written
            ++ accepted (tried luck 0 (take (credits s.softc) s.tx_queue) s.softc.sdpcm_tx_seq))
unfolding tx_task
tx_task-Drained luck s lucky r q = (
  send_all-queue (with_luck luck 0 s.tx_queue) (record s { tx_queue = [] }),
  send_all-written luck lucky s.tx_queue 0 (record s { tx_queue = [] }) r q,
)
