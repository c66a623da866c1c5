-- ===== src/Cyw/Scan.antt =====
-- cyw43455_scan.c: the information elements of a beacon, the scan results, the start and the end of a
-- scan. net80211's table of channels and the IOVAR that sends a request are arguments.
pub mod Elements
pub mod Results
pub mod Requests
use free_bsd15_rpi5_modules.Base.{
  ℕ, zero, suc, ◌+◌, ◌-◌, ◌*◌, ◌/◌, ◌%◌, Bool, true, false, not, ◌&&◌, ◌||◌, Option, none, some,
  List, [], ◌∷◌, leb, ltb, ◌==◌, if◌then◌else◌, u16,
}
use free_bsd15_rpi5_modules.Cyw.{Buf, Softc, fill, le16, le32}
use free_bsd15_rpi5_modules.Cyw.Chanspec.{cache_add}

-- The pointers of `struct ieee80211_scanparams` that cyw_parse_ies sets, as offsets in the chain;
-- `none` where the pointer is as it was.
pub record ScanParams : Type 0 where
  pub ssid : Option ℕ
  pub rates : Option ℕ
  pub xrates : Option ℕ
  pub country : Option ℕ
  pub rsn : Option ℕ
  pub htcap : Option ℕ
  pub htinfo : Option ℕ
  pub wpa : Option ℕ
  pub wme : Option ℕ

abbrev pub no_elements : ScanParams
no_elements = record {
  ssid = none;
  rates = none;
  xrates = none;
  country = none;
  rsn = none;
  htcap = none;
  htinfo = none;
  wpa = none;
  wme = none;
}

-- A vendor element of Microsoft's OUI with the type.
abbrev pub is_vendor : Buf → ℕ → ℕ → Bool
is_vendor ie p kind =
    ie p == 221
    && (leb 4 (ie (p + 1))
        && (ie (p + 2) == 0x00
            && (ie (p + 3) == 0x50 && (ie (p + 4) == 0xf2 && ie (p + 5) == kind))))

abbrev pub point : Bool → ℕ → Option ℕ → Option ℕ
point here p old = if here then some p else old

-- The switch of cyw_parse_ies.
abbrev pub note_element : Buf → ℕ → ScanParams → ScanParams
note_element ie p sp = record {
  ssid = point (ie p == 0 && ltb 0 (ie (p + 1))) p sp.ssid;
  rates = point (ie p == 1) p sp.rates;
  xrates = point (ie p == 50) p sp.xrates;
  country = point (ie p == 7) p sp.country;
  rsn = point (ie p == 48) p sp.rsn;
  htcap = point (ie p == 45) p sp.htcap;
  htinfo = point (ie p == 61) p sp.htinfo;
  wpa = point (is_vendor ie p 1) p sp.wpa;
  wme = point (is_vendor ie p 2) p sp.wme;
}

-- The loop of cyw_parse_ies, by rounds, with `ies_len`; `none` if they run out.
unfoldable pub parse_ies : ℕ → Buf → ℕ → ℕ → ScanParams → Option (ScanParams × ℕ)
parse_ies zero ie ie_len p sp = none
parse_ies (suc rounds) ie ie_len p sp =
    let rest = parse_ies rounds ie ie_len (p + 2 + ie (p + 1)) (note_element ie p sp) in
    if ltb ie_len (p + 2)
    then some (sp, p)
    else if ltb ie_len (p + 2 + ie (p + 1))
    then some (sp, p)
    else rest

-- `sizeof(struct cyw_bss_info_le)`, and the fields of such an entry that the scanner reads.
abbrev pub bss_info_len : ℕ
bss_info_len = 128

abbrev pub bi_length : Buf → ℕ → ℕ
bi_length b at = le32 b (at + 4)

abbrev pub bi_bssid : Buf → ℕ → ℕ
bi_bssid b at = le32 b (at + 8) + 4294967296 * le16 b (at + 12)

abbrev pub bi_chanspec : Buf → ℕ → ℕ
bi_chanspec b at = le16 b (at + 72)

abbrev pub bi_ie_offset : Buf → ℕ → ℕ
bi_ie_offset b at = le16 b (at + 116)

-- How cyw_add_bss finds the elements of an entry: their offset and their length.
unfoldable pub locate_ies : ℕ → ℕ → ℕ × ℕ
locate_ies ie_offset bi_len =
    let ie_off =
      if ltb ie_offset bss_info_len || leb (u16 bi_len) ie_offset
      then bss_info_len
      else ie_offset in
    (ie_off, if ltb ie_off bi_len then u16 (bi_len - ie_off) else 0)

-- The loop of cyw_escan_result_handler over the entries: the offset and the length of each one that
-- is added.
unfoldable pub entries : ℕ → Buf → ℕ → ℕ → List (ℕ × ℕ)
entries zero b buflen at = []
entries (suc bss_count) b buflen at =
    let rest = entries bss_count b buflen (at + bi_length b at) in
    if ltb (bi_length b at) bss_info_len || ltb buflen (bi_length b at)
    then []
    else (at, bi_length b at) ∷ rest

-- What the entries leave in the chanspec cache.
abbrev pub cache_entries : Buf → List (ℕ × ℕ) → Softc → Softc
cache_entries b [] sc = sc
cache_entries b (e ∷ es) sc = cache_entries b es (cache_add sc (bi_bssid b e.0) (bi_chanspec b e.0))

abbrev pub status_partial : ℕ
status_partial = 8

-- What a scan event does: the softc it leaves, the entries it adds, and whether net80211 is told that
-- the scan is done.
pub record Scanned : Type 0 where
  pub softc : Softc
  pub added : List (ℕ × ℕ)
  pub done : Bool

-- Whether there is a VAP to tell.
abbrev pub has_vap : Softc → Bool
has_vap sc = elim sc.vap [ none ↦ false | some _ ↦ true ]

-- cyw_escan_result_handler, on the status of its message and its data.
unfoldable pub escan_result_handler : Softc → ℕ → Buf → ℕ → Scanned
escan_result_handler sc status b datalen =
    let buflen = if ltb datalen (le32 b 0) then datalen else le32 b 0 in
    let added = entries (le16 b 10) b buflen 12 in
    if not (status == status_partial)
    then record { softc = record sc { scan_active = false }; added = []; done = has_vap sc }
    else if ltb datalen (12 + bss_info_len)
    then record { softc = sc; added = []; done = false }
    else record { softc = cache_entries b added sc; added = added; done = false }

-- `struct cyw_escan_params_le`, the request of an "escan" IOVAR; the BSSID's six bytes are one number.
pub record EscanParams : Type 0 where
  pub version : ℕ
  pub action : ℕ
  pub sync_id : ℕ
  pub ssid_len : ℕ
  pub ssid : Buf
  pub bssid : ℕ
  pub bss_type : ℕ
  pub scan_type : ℕ
  pub nprobes : ℕ
  pub active_time : ℕ
  pub passive_time : ℕ
  pub home_time : ℕ
  pub channel_num : ℕ

-- The requests of a start, for the first SSID that net80211 asks for (of length 0 for none), and of an
-- abort, whose other fields are zeros.
abbrev pub start_params : ℕ → ℕ → Buf → EscanParams
start_params sync_id ssid_len ssid = record {
  version = 1;
  action = 1;
  sync_id = sync_id;
  ssid_len = ssid_len;
  ssid = fill (λ i. 0) 0 ssid_len ssid;
  bssid = 0xffffffffffff;
  bss_type = 2;
  scan_type = 0;
  nprobes = 0xffffffff;
  active_time = 0xffffffff;
  passive_time = 0xffffffff;
  home_time = 0xffffffff;
  channel_num = 0;
}

abbrev pub abort_params : ℕ → EscanParams
abort_params sync_id = record {
  version = 1;
  action = 3;
  sync_id = sync_id;
  ssid_len = 0;
  ssid = λ i. 0;
  bssid = 0xffffffffffff;
  bss_type = 0;
  scan_type = 0;
  nprobes = 0;
  active_time = 0;
  passive_time = 0;
  home_time = 0;
  channel_num = 0;
}

-- cyw_do_escan, with what the IOVAR answers to a request. The result is the error, the softc and the
-- request.
unfoldable pub do_escan : (EscanParams → ℕ) → Softc → ℕ → Buf → ℕ × Softc × EscanParams
do_escan iovar sc ssid_len ssid =
    let params = start_params sc.escan_sync_id ssid_len ssid in
    let started = record sc { escan_sync_id = u16 (sc.escan_sync_id + 1); scan_active = true } in
    let err = iovar params in
    if err == 0 then (0, started, params) else (err, record started { scan_active = false }, params)

-- cyw_abort_escan: the softc, and the request, if one is sent.
unfoldable pub abort_escan : Softc → Softc × Option EscanParams
abort_escan sc =
    if not sc.scan_active
    then (sc, none)
    else (record sc { scan_active = false }, some (abort_params sc.escan_sync_id))
