-- ===== src/Cyw/Fil/Agree.antt =====
-- The two paths of cyw_fil_txrx take the same frames for the answer: the polling loop's tests against
-- cyw_sdpcm_deliver_ctrl.
use free_bsd15_rpi5_modules.Base.{
  ℕ, ◌≡◌, refl, ◌∙◌, Bool, true, false, Option, none, some, List, arith, ltb, ◌==◌, if◌then◌else◌,
  bit, eio, inl, inr,
}
use free_bsd15_rpi5_modules.Cyw.{Buf, Softc, hdr_chan}
use free_bsd15_rpi5_modules.Cyw.Sdpcm.{deliver_ctrl, copy_resp, bcdc_id, bcdc_flags}
use free_bsd15_rpi5_modules.Cyw.Sdpcm.Control.{answers, deliver_ctrl-Settled}
use free_bsd15_rpi5_modules.Cyw.Fil.{Request, post, taken, examine}

-- What the loop decides about a frame, and what the task makes of it.
abbrev pub Agreed : Softc → Option (ℕ × Option Buf) → Softc → Type 0
Agreed posted verdict sc' = elim verdict [
  | none ↦ sc' ≡ posted
  | some (err, out) ↦
      (sc'.ioctl_waiting ≡ false) × (sc'.ioctl_result ≡ err) × (sc'.ioctl_resp_buf ≡ out)
]

copied_cases :
    (cmd buflen : ℕ) (name : Option (List ℕ)) (set : Bool) (buf : Option Buf) (sc : Softc)
    (rsp : Buf) (flen : ℕ)
    → let req : Request = record {
      cmd = cmd;
      set = set;
      name = name;
      buf = buf;
      buflen = buflen;
    } in
      copy_resp (post req sc) rsp flen ≡ taken req rsp flen
unfolding copy_resp post taken
copied_cases cmd buflen name true none sc rsp flen = refl
copied_cases cmd buflen name false none sc rsp flen = refl
copied_cases cmd buflen name true (some buf) sc rsp flen = refl
copied_cases cmd buflen name false (some buf) sc rsp flen = refl

pub copied :
    (req : Request) (sc : Softc) (rsp : Buf) (flen : ℕ)
    → copy_resp (post req sc) rsp flen ≡ taken req rsp flen
copied req sc rsp flen = copied_cases req.cmd req.buflen req.name req.set req.buf sc rsp flen

-- The verdict on a frame that answers.
examine_answer :
    (req : Request) (sc : Softc) (rsp : Buf) (flen : ℕ)
    → hdr_chan rsp ≡ 0
    → answers (post req sc) rsp flen ≡ true
    → examine req sc.ioctl_id rsp flen
      ≡ (if bit (bcdc_flags rsp) 0 then some (eio, req.buf) else some (0, taken req rsp flen))
unfolding examine post
examine_answer req sc rsp flen c a =
    let long : ltb flen 28 ≡ false = ground arith in
    let same : (bcdc_id rsp == sc.ioctl_id) ≡ true = ground arith in rw (long, c, same) refl

examine_other :
    (req : Request) (sc : Softc) (rsp : Buf) (flen : ℕ)
    → answers (post req sc) rsp flen ≡ false
    → examine req sc.ioctl_id rsp flen ≡ none
unfolding examine post
examine_other req sc rsp flen a = ground arith

posted_buf : (req : Request) (sc : Softc) → (post req sc).ioctl_resp_buf ≡ req.buf
unfolding post
posted_buf req sc = refl

-- A frame of the control channel, while a request is posted: the polling loop goes on just where the task
-- changes nothing; where the loop ends, the task ends the request too, with the same error and the same
-- content of the caller's buffer.
pub paths_agree :
    (req : Request) (sc : Softc) (rsp : Buf) (flen : ℕ)
    → hdr_chan rsp ≡ 0
    → Agreed (post req sc) (examine req sc.ioctl_id rsp flen) (deliver_ctrl (post req sc) rsp flen)
paths_agree req sc rsp flen c = elim (deliver_ctrl-Settled (post req sc) rsp flen) [
  | inl (other, same) ↦ rw (examine_other req sc rsp flen other) same
  | inr (ans, ended, inl f) ↦
      rw (examine_answer req sc rsp flen c ans, f.flagged)
        (ended, f.result, f.resp_buf ∙ posted_buf req sc)
  | inr (ans, ended, inr s) ↦
      rw (examine_answer req sc rsp flen c ans, s.clear)
        (ended, s.result, s.resp_buf ∙ copied req sc rsp flen)
]
