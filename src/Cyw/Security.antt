-- ===== src/Cyw/Security.antt =====
-- cyw43455_security.c: the security settings, the passphrase, and the events by which the firmware
-- drives net80211's state. The firmware's answers and the sysctl request are arguments.
pub mod Link
pub mod Passphrase
use free_bsd15_rpi5_modules.Base.{
  ℕ, ◌+◌, ◌-◌, ◌/◌, ◌%◌, ◌^◌, Bool, true, false, not, ◌||◌, Option, none, some, List, [], ◌∷◌, ◌++◌,
  ltb, ◌==◌, if◌then◌else◌, bit, einval, length, take, replicate,
}
use free_bsd15_rpi5_modules.Cyw.{
  Softc, Handler, escan_result, link, set_ssid, psk_sup, VapState, init, scan, auth, assoc, running,
}
use free_bsd15_rpi5_modules.Cyw.Events.{Msg, event_register, event_unregister}

-- The bsscfg IOVARs of cyw_set_security.
pub data Iovar : Type 0 where
  auth_type wsec wpa_auth : Iovar

-- cyw_set_security, with what the firmware answers to an IOVAR and its value: the error, and the
-- IOVARs that were sent.
unfoldable pub set_security : (Iovar → ℕ → ℕ) → ℕ → ℕ → ℕ × List (Iovar × ℕ)
set_security iovar w a =
    let first = iovar auth_type 0 in
    let second = iovar wsec w in
    let third = iovar wpa_auth a in
    if not (first == 0)
    then (first, (auth_type, 0) ∷ [])
    else if not (second == 0)
    then (second, (auth_type, 0) ∷ (wsec, w) ∷ [])
    else (third, (auth_type, 0) ∷ (wsec, w) ∷ (wpa_auth, a) ∷ [])

abbrev pub max_psk_len : ℕ
max_psk_len = 64

-- `psk` and `psk_len` of the softc.
pub record Psk : Type 0 where
  pub key : List ℕ
  pub len : ℕ

-- `struct cyw_wsec_pmk_le`.
pub record Pmk : Type 0 where
  pub key_len : ℕ
  pub flags : ℕ
  pub key : List ℕ

-- Bytes at the start of an array of 64 zeros.
abbrev pub padded : List ℕ → List ℕ
padded bytes = bytes ++ replicate (max_psk_len - length bytes) 0

-- cyw_set_pmk: the error, and the payload, if one is sent.
unfoldable pub set_pmk : (Pmk → ℕ) → List ℕ → ℕ → ℕ × Option Pmk
set_pmk cmd psk len =
    let pmk : Pmk = record { key_len = len; flags = 1; key = padded (take len psk) } in
    if ltb max_psk_len len then (einval, none) else (cmd pmk, some pmk)

-- What sysctl_handle_string leaves: its error, the characters before the NUL, and whether the request
-- writes.
pub record Request : Type 0 where
  pub error : ℕ
  pub text : List ℕ
  pub newptr : Bool

unfoldable pub sysctl_psk : Psk → Request → ℕ × Psk
sysctl_psk psk req =
    let len = length req.text in
    if not (req.error == 0) || not req.newptr
    then (req.error, psk)
    else if ltb len 8 || ltb 63 len
    then (einval, psk)
    else (0, record { key = padded req.text; len = len % 65536 })

-- The state that cyw_link_event asks ieee80211_new_state for, of the first VAP's state.
abbrev pub link_request : Bool → Option VapState → Option VapState
link_request is_up none = none
link_request true (some v) = some running
link_request false (some running) = some scan
link_request false (some auth) = some scan
link_request false (some assoc) = some scan
link_request false (some _) = none

-- The one that cyw_set_ssid_event asks for after a failed join.
abbrev pub set_ssid_request : Option VapState → Option VapState
set_ssid_request (some auth) = some scan
set_ssid_request (some assoc) = some scan
set_ssid_request _ = none

unfoldable pub link_event : Softc → Msg → Softc × Option VapState
link_event sc msg =
    let is_up = bit msg.flags 0 in (record sc { link_up = is_up }, link_request is_up sc.vap)

unfoldable pub set_ssid_event : Softc → Msg → Softc × Option VapState
set_ssid_event sc msg = (sc, if msg.status == 0 then none else set_ssid_request sc.vap)

-- The handlers by name; cyw_psk_sup_event only prints, and the scan's events are not this file's.
unfoldable pub security_event : Handler → Softc → Msg → Softc × Option VapState
unfolding link_event set_ssid_event
security_event link sc msg = link_event sc msg
security_event set_ssid sc msg = set_ssid_event sc msg
security_event _ sc msg = (sc, none)

-- cyw_security_event_attach registers E_LINK, E_SET_SSID and E_PSK_SUP, and takes back what it
-- registered where one fails.
unfoldable pub event_attach : Softc → ℕ × Softc
unfolding event_register event_unregister
event_attach sc =
    let (e1, sc1) = event_register sc 16 link in
    let (e2, sc2) = event_register sc1 0 set_ssid in
    let (e3, sc3) = event_register sc2 46 psk_sup in
    if not (e1 == 0)
    then (e1, sc1)
    else if not (e2 == 0)
    then (e2, event_unregister sc2 16)
    else if not (e3 == 0)
    then (e3, event_unregister (event_unregister sc3 0) 16)
    else (0, sc3)

unfoldable pub event_detach : Softc → Softc
unfolding event_unregister
event_detach sc = event_unregister (event_unregister (event_unregister sc 46) 0) 16
