-- ===== src/Cyw/Sdpcm/Control.antt =====
-- cyw_sdpcm_deliver_ctrl: which frames answer a request, and what is copied.
use free_bsd15_rpi5_modules.Base.{
  ℕ, ◌+◌, ◌-◌, ◌^◌, ◌≤◌, ◌<◌, ◌≡◌, ◌⊎◌, inl, inr, refl, ap, ◌∙◌, Bool, true, false, not, ◌&&◌,
  Option, some, arith, bit, eio, min, ltb, ◌==◌, Bool-cases,
}
use mathlib.Core.Path.{subst}
use free_bsd15_rpi5_modules.Cyw.{Buf, Softc, fill}
use free_bsd15_rpi5_modules.Cyw.Sdpcm.{
  deliver_ctrl, copy_resp, bcdc_id, bcdc_flags, bcdc_status, payload_at, avail,
}

-- A control frame of 28 bytes or more with the id of the request that waits.
abbrev pub answers : Softc → Buf → ℕ → Bool
answers sc buf flen = not (ltb flen 28) && (sc.ioctl_waiting && (bcdc_id buf == sc.ioctl_wait_id))

-- What a frame leaves of the request that waits: it answers none and changes nothing, or it has ended
-- the request in one of two ways.
pub record Failed (sc : Softc) (buf : Buf) (sc' : Softc) : Type 0 where
  pub flagged : bit (bcdc_flags buf) 0 ≡ true
  pub result : sc'.ioctl_result ≡ eio
  pub fw_status : sc'.ioctl_fw_status ≡ bcdc_status buf
  pub resp_buf : sc'.ioctl_resp_buf ≡ sc.ioctl_resp_buf

pub record Succeeded (sc : Softc) (buf : Buf) (flen : ℕ) (sc' : Softc) : Type 0 where
  pub clear : bit (bcdc_flags buf) 0 ≡ false
  pub result : sc'.ioctl_result ≡ 0
  pub resp_buf : sc'.ioctl_resp_buf ≡ copy_resp sc buf flen

abbrev pub Settled : Softc → Buf → ℕ → Softc → Type 0
Settled sc buf flen sc' =
    (answers sc buf flen ≡ false) × (sc' ≡ sc)
    ⊎ (answers sc buf flen ≡ true)
      × (sc'.ioctl_waiting ≡ false)
      × (Failed sc buf sc' ⊎ Succeeded sc buf flen sc')

succeeds :
    (sc : Softc) (buf : Buf) (flen : ℕ)
    → answers sc buf flen ≡ true
    → bit (bcdc_flags buf) 0 ≡ false
    → Succeeded sc buf flen (deliver_ctrl sc buf flen)
unfolding deliver_ctrl
succeeds sc buf flen h e = record { clear = e; result = ground arith; resp_buf = ground arith }

fails :
    (sc : Softc) (buf : Buf) (flen : ℕ)
    → answers sc buf flen ≡ true
    → bit (bcdc_flags buf) 0 ≡ true
    → Failed sc buf (deliver_ctrl sc buf flen)
unfolding deliver_ctrl
fails sc buf flen h e = record {
  flagged = e;
  result = ground arith;
  fw_status = ground arith;
  resp_buf = ground arith;
}

-- A control frame that is shorter than 28 bytes, or has another id than the waiting request, or finds
-- none waiting, changes nothing. Any other ends the request: with EIO and the firmware's status where
-- the error flag is set, the response buffer as it was, and with 0 and the copy of a GET's payload
-- where it is not.
pub deliver_ctrl-Settled :
    (sc : Softc) (buf : Buf) (flen : ℕ) → Settled sc buf flen (deliver_ctrl sc buf flen)
unfolding deliver_ctrl
deliver_ctrl-Settled sc buf flen = elim (Bool-cases (answers sc buf flen)) [
  | inr h ↦ inl (h, ground arith)
  | inl h ↦ elim (Bool-cases (bit (bcdc_flags buf) 0)) [
    | inl e ↦ inr (h, ground arith, inl (fails sc buf flen h e))
    | inr e ↦ inr (h, ground arith, inr (succeeds sc buf flen h e))
  ]
]

-- The `n` bytes of the payload are at the start of the response buffer, and no others were written.
pub record Copied (buf : Buf) (n : ℕ) (resp : Buf) (out : Option Buf) : Type 0 where
  pub result : Buf
  pub is_result : out ≡ some result
  pub copied : (i : ℕ) → i < n → result i ≡ buf (payload_at buf + i)
  pub kept : (i : ℕ) → n ≤ i → result i ≡ resp i

fill_within : (b : Buf) (len : ℕ) (src : Buf) (i : ℕ) → i < len → fill b 0 len src i ≡ src i
fill_within b len src i h =
    let here : fill b 0 len src i ≡ src (i - 0) = ground arith in
    let at_i : i - 0 ≡ i = omega arith in here ∙ ap src at_i

fill_beyond : (b : Buf) (len : ℕ) (src : Buf) (i : ℕ) → len ≤ i → fill b 0 len src i ≡ b i
fill_beyond b len src i h = ground arith

copy_resp-Copied :
    (sc : Softc) (buf resp : Buf) (flen : ℕ)
    → sc.ioctl_get ≡ true
    → sc.ioctl_resp_buf ≡ some resp
    → Copied buf (min sc.ioctl_resp_buflen (avail buf flen)) resp (copy_resp sc buf flen)
unfolding copy_resp
copy_resp-Copied sc buf resp flen get has =
    let n = min sc.ioctl_resp_buflen (avail buf flen) in
    let src : Buf = λ i. buf (payload_at buf + i) in
    record {
      result = fill resp 0 n src;
      is_result = rw (has, get) refl;
      copied = λ i l. fill_within resp n src i l;
      kept = λ i l. fill_beyond resp n src i l;
    }

-- A frame of less than 65536 bytes that answers the waiting request without an error, where that
-- is a GET with a response buffer and the payload starts inside the frame, puts at the start of
-- the response buffer the bytes of the payload that are in the frame and fit the buffer's length,
-- and writes no others.
get_copies_payload :
    (sc : Softc) (buf resp : Buf) (flen : ℕ)
    → answers sc buf flen ≡ true
    → bit (bcdc_flags buf) 0 ≡ false
    → sc.ioctl_get ≡ true
    → sc.ioctl_resp_buf ≡ some resp
    → payload_at buf ≤ flen
    → flen < 65536
    → Copied buf
        (min sc.ioctl_resp_buflen (flen - payload_at buf))
        resp
        (deliver_ctrl sc buf flen).ioctl_resp_buf
get_copies_payload sc buf resp flen answer ok get has inside small =
    let same : avail buf flen ≡ flen - payload_at buf = omega arith in
    let copied = copy_resp-Copied sc buf resp flen get has in
    subst
      (λ n. Copied buf (min sc.ioctl_resp_buflen n) resp (deliver_ctrl sc buf flen).ioctl_resp_buf)
      same (rw ((succeeds sc buf flen answer ok).resp_buf) copied)

-- A frame that answers the waiting request without an error, where that is a GET with a response
-- buffer of a length below 2 ^ 32, but whose payload would start after the end of the frame, below
-- offset 65536: the subtraction wraps, and the whole length that the caller asked for is copied from
-- where the payload would start, none of which is in the frame.
get_overreads :
    (sc : Softc) (buf resp : Buf) (flen : ℕ)
    → answers sc buf flen ≡ true
    → bit (bcdc_flags buf) 0 ≡ false
    → sc.ioctl_get ≡ true
    → sc.ioctl_resp_buf ≡ some resp
    → flen < payload_at buf
    → payload_at buf < 65536
    → sc.ioctl_resp_buflen < 2 ^ 32
    → Copied buf sc.ioctl_resp_buflen resp (deliver_ctrl sc buf flen).ioctl_resp_buf
get_overreads sc buf resp flen answer ok get has outside small asked =
    let all : min sc.ioctl_resp_buflen (avail buf flen) ≡ sc.ioctl_resp_buflen = omega arith in
    let copied = copy_resp-Copied sc buf resp flen get has in
    subst (λ n. Copied buf n resp (deliver_ctrl sc buf flen).ioctl_resp_buf) all
      (rw ((succeeds sc buf flen answer ok).resp_buf) copied)
