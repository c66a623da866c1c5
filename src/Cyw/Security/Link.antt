-- ===== src/Cyw/Security/Link.antt =====
-- The events that drive net80211: their registration, and the states they ask for.
use free_bsd15_rpi5_modules.Base.{
  ℕ, ◌+◌, ◌<◌, ◌≡◌, ◌≢◌, ◌⊎◌, inl, inr, refl, ap, ◌∙◌, Bool, true, false, Option, none, some, arith,
  ◌==◌, Bool-cases, bit,
}
use free_bsd15_rpi5_modules.Cyw.{
  Buf, Softc, Handler, escan_result, link, set_ssid, psk_sup, VapState, init, scan, auth, assoc,
  running, be16,
}
use free_bsd15_rpi5_modules.Cyw.Events.{
  Msg, event_dispatch, Dispatched, event_code, message, emsg_at,
}
use free_bsd15_rpi5_modules.Cyw.Events.Dispatch.{EventFrame, dispatch-some, call_of}
use free_bsd15_rpi5_modules.Cyw.Security.{
  link_event, set_ssid_event, security_event, link_request, set_ssid_request, event_attach,
  event_detach,
}

-- The attach succeeds and registers three handlers, the detach clears their codes, and neither
-- touches another code.
pub record Attached (sc : Softc) : Type 0 where
  pub ok : (event_attach sc).0 ≡ 0
  pub at_link : (event_attach sc).1.event_handlers 16 ≡ some link
  pub at_set_ssid : (event_attach sc).1.event_handlers 0 ≡ some set_ssid
  pub at_psk_sup : (event_attach sc).1.event_handlers 46 ≡ some psk_sup
  pub cleared :
      ((event_detach sc).event_handlers 16 ≡ none)
      × ((event_detach sc).event_handlers 0 ≡ none)
      × ((event_detach sc).event_handlers 46 ≡ none)
  pub others :
      (c : ℕ)
      → c ≢ 16
      → c ≢ 0
      → c ≢ 46
      → ((event_attach sc).1.event_handlers c ≡ sc.event_handlers c)
        × ((event_detach sc).event_handlers c ≡ sc.event_handlers c)

event_attach-Attached : (sc : Softc) → Attached sc
unfolding event_attach event_detach
event_attach-Attached sc = record {
  ok = refl;
  at_link = refl;
  at_set_ssid = refl;
  at_psk_sup = refl;
  cleared = (refl, refl, refl);
  others = λ c a b d. (ground arith, ground arith);
}

-- A VAP that is joined or joining.
abbrev is_joining : VapState → Bool
is_joining running = true
is_joining auth = true
is_joining assoc = true
is_joining _ = false

-- What a request for a state has to come from: RUN only from a link that is up, SCAN only for a VAP
-- that is joined or joining, no other state ever.
abbrev pub IsJustified : Softc → Handler → Msg → Option VapState → Type 0
IsJustified sc h msg none = 0 < 1
IsJustified sc h msg (some running) = (h ≡ link) × (bit msg.flags 0 ≡ true)
IsJustified sc h msg (some scan) =
    (v : VapState) × (sc.vap ≡ some v)
    × (is_joining v ≡ true)
    × ((h ≡ link) × (bit msg.flags 0 ≡ false) ⊎ (h ≡ set_ssid) × (msg.status ≢ 0))
IsJustified sc h msg (some _) = 1 < 0

link-IsJustified :
    (sc : Softc) (msg : Msg) (up : Bool) (o : Option VapState)
    → bit msg.flags 0 ≡ up
    → sc.vap ≡ o
    → IsJustified sc link msg (link_request up o)
link-IsJustified sc msg up none e h = omega arith
link-IsJustified sc msg true (some v) e h = (refl, e)
link-IsJustified sc msg false (some running) e h = (running, h, refl, inl (refl, e))
link-IsJustified sc msg false (some auth) e h = (auth, h, refl, inl (refl, e))
link-IsJustified sc msg false (some assoc) e h = (assoc, h, refl, inl (refl, e))
link-IsJustified sc msg false (some init) e h = omega arith
link-IsJustified sc msg false (some scan) e h = omega arith

set_ssid-IsJustified :
    (sc : Softc) (msg : Msg) (o : Option VapState)
    → msg.status ≢ 0
    → sc.vap ≡ o
    → IsJustified sc set_ssid msg (set_ssid_request o)
set_ssid-IsJustified sc msg none n h = omega arith
set_ssid-IsJustified sc msg (some running) n h = omega arith
set_ssid-IsJustified sc msg (some auth) n h = (auth, h, refl, inr (refl, n))
set_ssid-IsJustified sc msg (some assoc) n h = (assoc, h, refl, inr (refl, n))
set_ssid-IsJustified sc msg (some init) n h = omega arith
set_ssid-IsJustified sc msg (some scan) n h = omega arith

-- Whatever event a handler of this file gets, it asks net80211 for RUN only if the link is reported up,
-- for SCAN only if the link is reported down or a join failed while the VAP was joined or joining, and
-- for no other state.
pub security_event-IsJustified :
    (h : Handler) (sc : Softc) (msg : Msg) → IsJustified sc h msg (security_event h sc msg).1
unfolding security_event link_event set_ssid_event
security_event-IsJustified escan_result sc msg = omega arith
security_event-IsJustified psk_sup sc msg = omega arith
security_event-IsJustified link sc msg = link-IsJustified sc msg (bit msg.flags 0) sc.vap refl refl
security_event-IsJustified set_ssid sc msg = elim (Bool-cases (msg.status == 0)) [
  | inl e ↦ rw e (omega arith)
  | inr e ↦ rw e (set_ssid-IsJustified sc msg sc.vap (ground arith) refl)
]

link_up_runs :
    (sc : Softc) (msg : Msg) (v : VapState)
    → bit msg.flags 0 ≡ true
    → sc.vap ≡ some v
    → ((security_event link sc msg).1 ≡ some running)
      × ((security_event link sc msg).0.link_up ≡ true)
unfolding security_event link_event
link_up_runs sc msg v up vap =
    (ap (λ o. link_request (bit msg.flags 0) o) vap ∙ ap (λ u. link_request u (some v)) up, up)

attached_vap : (sc : Softc) → (event_attach sc).1.vap ≡ sc.vap
unfolding event_attach
attached_vap sc = refl

-- After the attach, with a VAP, an event frame with the code of E_LINK and the link bit set
-- reaches a handler that asks net80211 to take the VAP, whatever its state, to RUN, and records
-- the link as up.
pub link_frame_runs :
    (sc : Softc) (buf : Buf) (flen : ℕ) (v : VapState)
    → EventFrame buf flen
    → event_code buf ≡ 16
    → bit (be16 buf (emsg_at buf + 2)) 0 ≡ true
    → sc.vap ≡ some v
    → (d : Dispatched) × (event_dispatch (event_attach sc).1 buf flen ≡ some d)
      × (((security_event d.handler (event_attach sc).1 d.msg).1 ≡ some running)
          × ((security_event d.handler (event_attach sc).1 d.msg).0.link_up ≡ true))
link_frame_runs sc buf flen v f code up vap =
    let sc' = (event_attach sc).1 in
    let found : sc'.event_handlers (event_code buf) ≡ some link =
      rw code ((event_attach-Attached sc).at_link) in
    (
      call_of link buf flen,
      dispatch-some sc' buf flen link f found,
      link_up_runs sc' (message buf flen) v up (attached_vap sc ∙ vap),
    )
