-- ===== src/Cyw/Events/Dispatch.antt =====
-- cyw_event_dispatch: which frames reach a handler, and with what.
use free_bsd15_rpi5_modules.Base.{
  ℕ, ◌+◌, ◌-◌, ◌≤◌, ◌<◌, ◌≡◌, ◌⊎◌, inl, inr, refl, true, false, none, some, arith, min, ltb, leb,
  le→ltb, Bool-cases, Option-cases,
}
use free_bsd15_rpi5_modules.Cyw.{Buf, Softc, Handler, be32}
use free_bsd15_rpi5_modules.Cyw.Events.{
  Dispatched, event_dispatch, event_register, event_unregister, is_event, event_code, data_at,
  clamped_datalen, message, emsg_at,
}
use free_bsd15_rpi5_modules.Cyw.Events.Table.{event_register-Registered}

-- An event frame: all its headers are in the frame, and it has Broadcom's marks and a code below 128.
pub record EventFrame (buf : Buf) (flen : ℕ) : Type 0 where
  pub long : 88 ≤ flen
  pub headers : data_at buf ≤ flen
  pub marked : is_event buf ≡ true
  pub code : event_code buf < 128

-- The call that a frame causes: the handler is the one at the frame's code, the message is decoded
-- from the frame, and the data is the shorter of what the event says and what the frame has.
pub record Called (sc : Softc) (buf : Buf) (flen : ℕ) (d : Dispatched) : Type 0 where
  pub handler : sc.event_handlers (event_code buf) ≡ some d.handler
  pub msg : d.msg ≡ message buf flen
  pub at_data : d.data_at ≡ data_at buf
  pub inside : d.data_at + d.datalen ≤ flen
  pub shorter : d.datalen ≡ min (be32 buf (emsg_at buf + 20)) (flen - data_at buf)

abbrev pub call_of : Handler → Buf → ℕ → Dispatched
call_of h buf flen = record {
  handler = h;
  msg = message buf flen;
  data_at = data_at buf;
  datalen = clamped_datalen buf flen;
}

-- Past the checks, the table decides.
pub dispatch-some :
    (sc : Softc) (buf : Buf) (flen : ℕ) (h : Handler)
    → EventFrame buf flen
    → sc.event_handlers (event_code buf) ≡ some h
    → event_dispatch sc buf flen ≡ some (call_of h buf flen)
unfolding event_dispatch
dispatch-some sc buf flen h f e =
    rw (le→ltb flen 88 f.long, le→ltb flen (data_at buf) f.headers, f.marked, below, e) refl
  where
    below : leb 128 (event_code buf) ≡ false
    below = ground (arith, f.code)

dispatch-none :
    (sc : Softc) (buf : Buf) (flen : ℕ)
    → EventFrame buf flen
    → sc.event_handlers (event_code buf) ≡ none
    → event_dispatch sc buf flen ≡ none
unfolding event_dispatch
dispatch-none sc buf flen f e =
    rw (le→ltb flen 88 f.long, le→ltb flen (data_at buf) f.headers, f.marked, below, e) refl
  where
    below : leb 128 (event_code buf) ≡ false
    below = ground (arith, f.code)

-- A frame that fails a check reaches no handler.
dispatch_checks :
    (sc : Softc) (buf : Buf) (flen : ℕ)
    → EventFrame buf flen ⊎ (event_dispatch sc buf flen ≡ none) × (¬ EventFrame buf flen)
unfolding event_dispatch
dispatch_checks sc buf flen = elim (Bool-cases (ltb flen 88)) [
  | inl a ↦ inr (rw a refl, λ f. ground (arith, f.long, a))
  | inr a ↦ elim (Bool-cases (ltb flen (data_at buf))) [
    | inl b ↦ inr (rw (a, b) refl, λ f. ground (arith, f.headers, b))
    | inr b ↦ elim (Bool-cases (is_event buf)) [
      | inr c ↦ inr (rw (a, b, c) refl, λ f. ground (arith, f.marked, c))
      | inl c ↦ elim (Bool-cases (leb 128 (event_code buf))) [
        | inl d ↦ inr (rw (a, b, c, d) refl, λ f. ground (arith, f.code, d))
        | inr d ↦ inl (record {
          long = ground arith;
          headers = ground arith;
          marked = c;
          code = ground arith;
        })
      ]
    ]
  ]
]

call_of-Called :
    (sc : Softc) (buf : Buf) (flen : ℕ) (h : Handler)
    → data_at buf ≤ flen
    → sc.event_handlers (event_code buf) ≡ some h
    → Called sc buf flen (call_of h buf flen)
call_of-Called sc buf flen h inside e = record {
  handler = e;
  msg = refl;
  at_data = refl;
  inside = ground arith;
  shorter = ground arith;
}

-- Either the frame is an event frame and causes the call of the handler at its code, with the
-- message decoded from the frame and as data the shorter of what the event says and what the
-- frame has, inside the frame; or it causes none, and then it is no event frame or its code has
-- no handler.
pub event_dispatch_outcome :
    (sc : Softc) (buf : Buf) (flen : ℕ)
    → (EventFrame buf flen
        × ((d : Dispatched) × (event_dispatch sc buf flen ≡ some d) × Called sc buf flen d))
      ⊎ (event_dispatch sc buf flen ≡ none)
        × (¬ EventFrame buf flen ⊎ (sc.event_handlers (event_code buf) ≡ none))
event_dispatch_outcome sc buf flen = elim (dispatch_checks sc buf flen) [
  | inr (e, bad) ↦ inr (e, inl bad)
  | inl f ↦ elim (Option-cases (sc.event_handlers (event_code buf))) [
    | inl e ↦ inr (dispatch-none sc buf flen f e, inr e)
    | inr (h, e) ↦ inl (
      f,
      (
        call_of h buf flen,
        dispatch-some sc buf flen h f e,
        call_of-Called sc buf flen h f.headers e,
      ),
    )
  ]
]

-- An event frame for whose code a handler was just registered reaches that handler; after the
-- registration is taken back it reaches none.
registered_called :
    (sc : Softc) (buf : Buf) (flen : ℕ) (h : Handler)
    → EventFrame buf flen
    → let sc' = (event_register sc (event_code buf) h).1 in
      ((d : Dispatched) × (event_dispatch sc' buf flen ≡ some d) × (d.handler ≡ h))
      × (event_dispatch (event_unregister sc' (event_code buf)) buf flen ≡ none)
registered_called sc buf flen h f =
    let reg = (event_register sc (event_code buf) h).1 in
    let table = (event_register-Registered sc (event_code buf) h).in_range f.code in
    (
      (call_of h buf flen, dispatch-some reg buf flen h f table.1, refl),
      dispatch-none (event_unregister reg (event_code buf)) buf flen f table.2,
    )
