-- ===== src/Cyw/Newstate.antt =====
-- cyw43455_cfg.c, cyw43455_var.h: cyw_newstate, the commands by which a change of net80211's state reaches
-- the firmware. What the firmware answers to a command is an argument.
pub mod Join
mod Tests
use free_bsd15_rpi5_modules.Base.{
  ℕ, ◌+◌, Bool, true, false, not, Option, none, some, List, [], ◌∷◌, ◌++◌, ◌==◌, if◌then◌else◌,
}
use free_bsd15_rpi5_modules.Base.Int.{ℤ, pos}
use free_bsd15_rpi5_modules.Cyw.{Buf, Softc, fill, VapState, init, scan, auth, assoc, running}
use free_bsd15_rpi5_modules.Cyw.Chanspec.{chanspec_for_join}
use free_bsd15_rpi5_modules.Cyw.Scan.{EscanParams, abort_escan}
use free_bsd15_rpi5_modules.Cyw.Security.{Iovar, set_security}

-- `ssid_le` and `assoc_le` of both join structures, and `scan_le` of the extended one; 0xffffffff is
-- the -1 that leaves a field to the firmware.
pub record JoinParams : Type 0 where
  pub ssid_len : ℕ
  pub ssid : Buf
  pub bssid : ℕ
  pub chanspec_num : ℕ
  pub chanspec : ℕ

pub record JoinScan : Type 0 where
  pub scan_type : ℕ
  pub nprobes : ℕ
  pub active_time : ℕ
  pub passive_time : ℕ
  pub home_time : ℕ

pub data Command : Type 0 where
  escan_abort : EscanParams → Command
  disassoc : ℕ → Command
  set_chanspec : ℕ → Command
  -- The four reads whose values are printed.
  get_channel get_chanspec get_qtxpower get_country : Command
  security : Iovar → ℕ → Command
  join : JoinParams → JoinScan → Command
  set_ssid_cmd : JoinParams → Command

-- The BSS that net80211 has chosen; its channel is `ic_ieee`, 0 where there is none.
pub record Bss : Type 0 where
  pub bssid : ℕ
  pub channel : ℤ
  pub esslen : ℕ
  pub essid : Buf

-- The softc with its `join_bssid`.
pub record Station : Type 0 where
  pub softc : Softc
  pub join_bssid : ℕ

-- `iv_flags`: IEEE80211_F_WPA2, IEEE80211_F_WPA1, IEEE80211_F_PRIVACY.
pub record Flags : Type 0 where
  pub wpa2 : Bool
  pub wpa1 : Bool
  pub privacy : Bool

-- wsec and wpa_auth.
abbrev pub settings : Flags → ℕ × ℕ
settings f =
    if f.wpa2 then (4, 0x80) else if f.wpa1 then (2, 4) else if f.privacy then (1, 0) else (0, 0)

abbrev pub join_params : Bss → ℕ → JoinParams
join_params bss cs = record {
  ssid_len = bss.esslen;
  ssid = fill (λ i. 0) 0 bss.esslen bss.essid;
  bssid = bss.bssid;
  chanspec_num = if cs == 0 then 0 else 1;
  chanspec = cs;
}

abbrev pub join_scan : ℕ → JoinScan
join_scan cs = record {
  scan_type = 0xff;
  nprobes = if cs == 0 then 0xffffffff else 16;
  active_time = if cs == 0 then 0xffffffff else 320;
  passive_time = if cs == 0 then 0xffffffff else 400;
  home_time = 0xffffffff;
}

abbrev pub as_commands : List (Iovar × ℕ) → List Command
as_commands [] = []
as_commands ((iovar, value) ∷ sent) = security iovar value ∷ as_commands sent

abbrev pub aborting : Option EscanParams → List Command
aborting none = []
aborting (some params) = escan_abort params ∷ []

-- The radio is parked on the channel of the BSS, if one is known.
abbrev pub park : ℕ → List Command
park cs = if cs == 0 then [] else set_chanspec cs ∷ []

abbrev pub reads : List Command
reads = get_channel ∷ get_chanspec ∷ get_qtxpower ∷ get_country ∷ []

module _ (firmware : Command → ℕ) where
  -- The join, and the older command where it fails.
  unfoldable pub join_commands : Bss → ℕ → List Command
  join_commands bss cs =
      let first = join (join_params bss cs) (join_scan cs) in
      if firmware first == 0 then first ∷ [] else first ∷ set_ssid_cmd (join_params bss cs) ∷ []

  -- The case of AUTH; `now` is the channel of iv_bss when it is looked at again.
  unfoldable pub to_auth : Flags → Option Bss → ℤ → Station → Station × List Command
  to_auth flags none now st =
      let (sc, params) = abort_escan st.softc in (record st { softc = sc }, aborting params)
  to_auth flags (some bss) now st =
      let (sc, params) = abort_escan st.softc in
      let (wsec, wpa_auth) = settings flags in
      let secured = set_security (λ iovar value. firmware (security iovar value)) wsec wpa_auth in
      (
        record { softc = sc; join_bssid = bss.bssid },
        aborting params
            ++ park (chanspec_for_join sc bss.bssid now)
            ++ reads
            ++ as_commands secured.1
            ++ join_commands bss (chanspec_for_join sc bss.bssid bss.channel),
      )

  -- The case of INIT: an association is given up.
  unfoldable pub to_init : Station → Station × List Command
  to_init st =
      if st.softc.link_up
      then (record st { softc = record st.softc { link_up = false } }, disassoc st.join_bssid ∷ [])
      else (st, [])

  -- cyw_newstate before net80211's own handler, whose result it returns.
  unfoldable pub newstate : VapState → Flags → Option Bss → ℤ → Station → Station × List Command
  newstate init flags bss now st = to_init st
  newstate auth flags bss now st = to_auth flags bss now st
  newstate _ flags bss now st = (st, [])

-- Whether it stops net80211's management timer afterwards.
abbrev pub stops_timer : VapState → Bool
stops_timer auth = true
stops_timer assoc = true
stops_timer _ = false
