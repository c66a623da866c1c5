-- ===== src/Cyw/Events.antt =====
-- cyw43455_events.c: the event mask, the handler table, and the dispatch of an event frame.
pub mod Table
pub mod Dispatch
use free_bsd15_rpi5_modules.Base.{
  ℕ, ◌+◌, ◌-◌, ◌*◌, ◌/◌, ◌%◌, Bool, true, false, not, ◌&&◌, ◌||◌, Option, none, some, List, [], ◌∷◌,
  ltb, leb, ◌==◌, if◌then◌else◌, replicate, get_or, set, set_bit, update, einval,
}
use free_bsd15_rpi5_modules.Cyw.{Buf, Softc, Handler, be16, be32, hdr_data_offset}

abbrev pub event_max_code : ℕ
event_max_code = 128

abbrev pub event_mask_len : ℕ
event_mask_len = 16

-- `subscribe`: E_SET_SSID, E_JOIN, E_AUTH, E_AUTH_IND, E_DEAUTH, E_DEAUTH_IND, E_ASSOC, E_ASSOC_IND,
-- E_DISASSOC, E_DISASSOC_IND, E_LINK, E_SCAN_COMPLETE, E_PSK_SUP, E_IF, E_ESCAN_RESULT.
abbrev pub subscribe : List ℕ
subscribe = 0 ∷ 1 ∷ 3 ∷ 4 ∷ 5 ∷ 6 ∷ 7 ∷ 8 ∷ 11 ∷ 12 ∷ 16 ∷ 26 ∷ 46 ∷ 54 ∷ 69 ∷ []

-- The loop of cyw_event_attach over `subscribe`.
abbrev pub add_codes : List ℕ → List ℕ → List ℕ
add_codes [] mask = mask
add_codes (c ∷ cs) mask = add_codes cs (
    if ltb c (event_mask_len * 8)
    then set mask (c / 8) (set_bit (get_or mask (c / 8) 0) (c % 8))
    else mask)

-- The mask that cyw_event_attach sends as `event_msgs`.
abbrev pub event_mask : List ℕ
event_mask = add_codes subscribe (replicate event_mask_len 0)

unfoldable pub event_register : Softc → ℕ → Handler → ℕ × Softc
event_register sc code handler =
    if leb event_max_code code
    then (einval, sc)
    else (0, record sc { event_handlers = update sc.event_handlers code (some handler) })

unfoldable pub event_unregister : Softc → ℕ → Softc
event_unregister sc code =
    if leb event_max_code code
    then sc
    else record sc { event_handlers = update sc.event_handlers code none }

-- `struct cyw_event_msg`; the address is the six bytes from `addr 0` on.
pub record Msg : Type 0 where
  pub code : ℕ
  pub status : ℕ
  pub reason : ℕ
  pub flags : ℕ
  pub datalen : ℕ
  pub ifidx : ℕ
  pub bsscfgidx : ℕ
  pub addr : Buf

-- The call of a handler: what it is given. `data` is the offset in the frame of the event's data.
pub record Dispatched : Type 0 where
  pub handler : Handler
  pub msg : Msg
  pub data_at : ℕ
  pub datalen : ℕ

-- Offsets in the frame: the Ethernet header, the Broadcom header, the message, the data.
abbrev pub eth_off : Buf → ℕ
eth_off buf = hdr_data_offset buf + (4 + buf (hdr_data_offset buf + 3) * 4)

abbrev pub brcm_at : Buf → ℕ
brcm_at buf = eth_off buf + 14

abbrev pub emsg_at : Buf → ℕ
emsg_at buf = brcm_at buf + 10

abbrev pub data_at : Buf → ℕ
data_at buf = emsg_at buf + 48

abbrev pub event_code : Buf → ℕ
event_code buf = be32 buf (emsg_at buf + 4)

-- `datalen`, clamped to what is in the frame.
abbrev pub clamped_datalen : Buf → ℕ → ℕ
clamped_datalen buf flen =
    let datalen = be32 buf (emsg_at buf + 20) in
    if ltb flen (data_at buf + datalen) then flen - data_at buf else datalen

-- The Broadcom Ethernet type, OUI and event subtype.
abbrev pub is_event : Buf → Bool
is_event buf =
    be16 buf (eth_off buf + 12) == 0x886c
    && (buf (brcm_at buf + 5) == 0x00
        && (buf (brcm_at buf + 6) == 0x10
            && (buf (brcm_at buf + 7) == 0x18 && be16 buf (brcm_at buf + 8) == 1)))

abbrev pub message : Buf → ℕ → Msg
message buf flen = record {
  code = event_code buf;
  status = be32 buf (emsg_at buf + 8);
  reason = be32 buf (emsg_at buf + 12);
  flags = be16 buf (emsg_at buf + 2);
  datalen = clamped_datalen buf flen;
  ifidx = buf (emsg_at buf + 46);
  bsscfgidx = buf (emsg_at buf + 47);
  addr = λ i. buf (emsg_at buf + 24 + i);
}

-- cyw_event_dispatch: the call of the handler, if there is one.
unfoldable pub event_dispatch : Softc → Buf → ℕ → Option Dispatched
event_dispatch sc buf flen =
    if ltb flen 88
    then none
    else if ltb flen (data_at buf)
    then none
    else if not (is_event buf)
    then none
    else if leb event_max_code (event_code buf)
    then none
    else elim (sc.event_handlers (event_code buf)) [
      | none ↦ none
      | some handler ↦ some (record {
        handler = handler;
        msg = message buf flen;
        data_at = data_at buf;
        datalen = clamped_datalen buf flen;
      })
    ]
