-- ===== src/Cyw/Fil/Delivered.antt =====
-- cyw_sdpcm_deliver_ctrl over the frames of a request: which of them ends it, and how.
use free_bsd15_rpi5_modules.Base.{
  ℕ, ◌≡◌, ◌≢◌, inl, inr, refl, sym, ◌∙◌, Bool, true, false, not, ◌&&◌, Option, List, [], ◌∷◌, ◌++◌,
  arith, ltb, ◌==◌, bit, eio, etimedout, Bool-cases,
}
use mathlib.Core.Path.{subst}
use free_bsd15_rpi5_modules.Cyw.{Buf, Softc}
use free_bsd15_rpi5_modules.Cyw.Sdpcm.{deliver_ctrl, bcdc_id, bcdc_flags}
use free_bsd15_rpi5_modules.Cyw.Sdpcm.Control.{answers, deliver_ctrl-Settled}
use free_bsd15_rpi5_modules.Cyw.Fil.{Request, post, deliver_all, taken}
use free_bsd15_rpi5_modules.Cyw.Fil.Agree.{copied}

pub deliver_ctrl_idle :
    (sc : Softc) (buf : Buf) (flen : ℕ) → sc.ioctl_waiting ≡ false → deliver_ctrl sc buf flen ≡ sc
unfolding deliver_ctrl
deliver_ctrl_idle sc buf flen e = ground arith

deliver_ctrl_other :
    (sc : Softc) (buf : Buf) (flen : ℕ)
    → answers sc buf flen ≡ false
    → deliver_ctrl sc buf flen ≡ sc
deliver_ctrl_other sc buf flen e = elim (deliver_ctrl-Settled sc buf flen) [
  | inl (_, same) ↦ same
  | inr (some_answer, _, _) ↦ absurd cc
]

ends_waiting :
    (sc : Softc) (buf : Buf) (flen : ℕ)
    → answers sc buf flen ≡ true
    → (deliver_ctrl sc buf flen).ioctl_waiting ≡ false
ends_waiting sc buf flen e = elim (deliver_ctrl-Settled sc buf flen) [
  | inl (none_answer, _) ↦ absurd cc
  | inr (_, ended, _) ↦ ended
]

deliver_all_idle :
    (sc : Softc) (frames : List (Buf × ℕ)) → sc.ioctl_waiting ≡ false → deliver_all sc frames ≡ sc
unfolding deliver_all
deliver_all_idle sc [] e = refl
deliver_all_idle sc ((buf, flen) ∷ frames) e =
    rw (deliver_ctrl_idle sc buf flen e) (deliver_all_idle sc frames e)

pub deliver_all-append :
    (sc : Softc) (xs ys : List (Buf × ℕ))
    → deliver_all sc (xs ++ ys) ≡ deliver_all (deliver_all sc xs) ys
unfolding deliver_all
deliver_all-append sc [] ys = refl
deliver_all-append sc ((buf, flen) ∷ xs) ys = deliver_all-append (deliver_ctrl sc buf flen) xs ys

-- A control frame of at least 28 bytes whose BCDC flags carry this id.
abbrev pub is_answer : ℕ → Buf → ℕ → Bool
is_answer id buf flen = not (ltb flen 28) && (bcdc_id buf == id)

-- How the request with this id ends, by the frames that the task delivers: the error that is returned, and
-- the caller's buffer. Frames that are no answer change nothing, and the first answer counts.
pub data Ended (req : Request) (id : ℕ) : List (Buf × ℕ) → ℕ → Option Buf → Type 0 where
  silent : Ended req id [] etimedout req.buf
  ignored :
      {buf : Buf} {flen err : ℕ} {frames : List (Buf × ℕ)} {out : Option Buf}
      → is_answer id buf flen ≡ false
      → Ended req id frames err out
      → Ended req id ((buf, flen) ∷ frames) err out
  rejected :
      {buf : Buf} {flen : ℕ} {frames : List (Buf × ℕ)}
      → is_answer id buf flen ≡ true
      → bit (bcdc_flags buf) 0 ≡ true
      → Ended req id ((buf, flen) ∷ frames) eio req.buf
  answered :
      {buf : Buf} {flen : ℕ} {frames : List (Buf × ℕ)}
      → is_answer id buf flen ≡ true
      → bit (bcdc_flags buf) 0 ≡ false
      → Ended req id ((buf, flen) ∷ frames) 0 (taken req buf flen)

posted_answers :
    (req : Request) (sc : Softc) (buf : Buf) (flen : ℕ)
    → answers (post req sc) buf flen ≡ is_answer sc.ioctl_id buf flen
unfolding post
posted_answers req sc buf flen = refl

posted :
    (req : Request) (sc : Softc)
    → ((post req sc).ioctl_result ≡ etimedout) × ((post req sc).ioctl_resp_buf ≡ req.buf)
unfolding post
posted req sc = (refl, refl)

-- The first answer ends the request.
first_answer :
    (req : Request) (sc : Softc) (buf : Buf) (flen : ℕ) (frames : List (Buf × ℕ))
    → is_answer sc.ioctl_id buf flen ≡ true
    → Ended req sc.ioctl_id
        ((buf, flen) ∷ frames)
        (deliver_ctrl (post req sc) buf flen).ioctl_result
        (deliver_ctrl (post req sc) buf flen).ioctl_resp_buf
first_answer req sc buf flen frames a = elim (deliver_ctrl-Settled (post req sc) buf flen) [
  | inl (none_answer, _) ↦ absurd (differ (sym (posted_answers req sc buf flen ∙ a) ∙ none_answer))
  | inr (_, _, inl f) ↦ rw (f.result, f.resp_buf ∙ (posted req sc).1) (rejected a f.flagged)
  | inr (_, _, inr s) ↦ rw (s.result, s.resp_buf ∙ copied req sc buf flen) (answered a s.clear)
]
  where
    differ : true ≢ false
    differ h = absurd cc

pub deliver_all-Ended :
    (req : Request) (sc : Softc) (frames : List (Buf × ℕ))
    → Ended req sc.ioctl_id frames
        (deliver_all (post req sc) frames).ioctl_result
        (deliver_all (post req sc) frames).ioctl_resp_buf
unfolding deliver_all
deliver_all-Ended req sc [] = rw ((posted req sc).0, (posted req sc).1) silent
deliver_all-Ended req sc ((buf, flen) ∷ frames) =
    elim (Bool-cases (is_answer sc.ioctl_id buf flen)) [
      | inl a ↦
          let ended = ends_waiting (post req sc) buf flen (posted_answers req sc buf flen ∙ a) in
          rw (deliver_all_idle (deliver_ctrl (post req sc) buf flen) frames ended)
            (first_answer req sc buf flen frames a)
      | inr a ↦
          subst
            (λ (t : Softc).
              Ended req sc.ioctl_id ((buf, flen) ∷ frames) (deliver_all t frames).ioctl_result
                (deliver_all t frames).ioctl_resp_buf)
            (sym (deliver_ctrl_other (post req sc) buf flen (posted_answers req sc buf flen ∙ a)))
            (ignored a (deliver_all-Ended req sc frames))
    ]

deliver_ctrl_seq :
    (sc : Softc) (buf : Buf) (flen : ℕ) → (deliver_ctrl sc buf flen).sdpcm_tx_seq ≡ sc.sdpcm_tx_seq
unfolding deliver_ctrl
deliver_ctrl_seq sc buf flen = ground arith

pub deliver_all_seq :
    (sc : Softc) (frames : List (Buf × ℕ)) → (deliver_all sc frames).sdpcm_tx_seq ≡ sc.sdpcm_tx_seq
unfolding deliver_all
deliver_all_seq sc [] = refl
deliver_all_seq sc ((buf, flen) ∷ frames) =
    deliver_all_seq (deliver_ctrl sc buf flen) frames ∙ deliver_ctrl_seq sc buf flen
