-- ===== src/Cyw/Newstate/Join.antt =====
-- The commands of a join, on the channel that the scan found.
use free_bsd15_rpi5_modules.Base.{
  ℕ, ◌≡◌, ◌≢◌, if_rule, not, Option, ◌≤◌, ◌<◌, ◌-◌, ◌^◌, ◌⊎◌, inl, inr, refl, ◌∙◌, true, false,
  some, List, [], ◌∷◌, ◌++◌, arith, ◌==◌, Bool-cases,
}
use free_bsd15_rpi5_modules.Base.Int.{ℤ}
use free_bsd15_rpi5_modules.Cyw.{Softc}
use free_bsd15_rpi5_modules.Cyw.Chanspec.{cache_add, chanspec_for_join}
use free_bsd15_rpi5_modules.Cyw.Chanspec.Cache.{IsCache}
use free_bsd15_rpi5_modules.Cyw.Chanspec.Join.{join_after_add}
use free_bsd15_rpi5_modules.Cyw.Scan.{EscanParams, abort_escan, abort_params}
use free_bsd15_rpi5_modules.Cyw.Security.{auth_type, wsec, wpa_auth, set_security}
use free_bsd15_rpi5_modules.Cyw.Newstate.{
  Command, Bss, JoinParams, JoinScan, Station, Flags, escan_abort, set_chanspec, get_channel,
  get_chanspec, get_qtxpower, get_country, security, join, set_ssid_cmd, settings, join_params,
  join_scan, as_commands, aborting, park, join_commands, to_auth,
}

-- The ciphers (1 for WEP, 2 for TKIP, 4 for AES) and the key management (4 for WPA-PSK, 128 for
-- WPA2-PSK) that net80211's flags ask for, WPA2 before WPA1 before plain privacy.
pub data Wants (flags : Flags) : ℕ → ℕ → Type 0 where
  wants_wpa2 : flags.wpa2 ≡ true → Wants flags 4 128
  wants_wpa1 : flags.wpa2 ≡ false → flags.wpa1 ≡ true → Wants flags 2 4
  wants_wep : flags.wpa2 ≡ false → flags.wpa1 ≡ false → flags.privacy ≡ true → Wants flags 1 0
  wants_none : flags.wpa2 ≡ false → flags.wpa1 ≡ false → flags.privacy ≡ false → Wants flags 0 0

-- Settings sent one after another, up to the first that the firmware refuses.
pub data Sends (firmware : Command → ℕ) : List Command → List Command → Type 0 where
  all_sent : Sends firmware [] []
  stopped : (c : Command) (cs : List Command) → firmware c ≢ 0 → Sends firmware (c ∷ cs) (c ∷ [])
  goes_on :
      (c : Command) (cs sent : List Command)
      → firmware c ≡ 0
      → Sends firmware cs sent
      → Sends firmware (c ∷ cs) (c ∷ sent)

-- A scan that runs is told to abort (action 3), by its own number.
pub data Aborts (sc : Softc) : List Command → Type 0 where
  no_scan : sc.scan_active ≡ false → Aborts sc []
  aborted :
      (params : EscanParams)
      → sc.scan_active ≡ true
      → params.action ≡ 3
      → params.sync_id ≡ sc.escan_sync_id
      → Aborts sc (escan_abort params ∷ [])

-- A join names the network and one channel.
pub record Names (bss : Bss) (cs : ℕ) (p : JoinParams) : Type 0 where
  pub bssid : p.bssid ≡ bss.bssid
  pub ssid_len : p.ssid_len ≡ bss.esslen
  pub ssid : (i : ℕ) → i < bss.esslen → p.ssid i ≡ bss.essid i
  pub padded : (i : ℕ) → bss.esslen ≤ i → p.ssid i ≡ 0
  pub chanspec_num : p.chanspec_num ≡ 1
  pub chanspec : p.chanspec ≡ cs

-- The channel is probed 16 times, in 320 ms, or listened to for 400 ms; the rest is left to the firmware.
pub record Probes (s : JoinScan) : Type 0 where
  pub nprobes : s.nprobes ≡ 16
  pub active_time : s.active_time ≡ 320
  pub passive_time : s.passive_time ≡ 400
  pub scan_type : s.scan_type ≡ 255
  pub home_time : s.home_time ≡ 2 ^ 32 - 1

-- The join, and behind it the older command for the same network just where the firmware refuses it.
pub record Asks (firmware : Command → ℕ) (bss : Bss) (cs : ℕ) (cmds : List Command) : Type 0 where
  pub params : JoinParams
  pub scan : JoinScan
  pub names : Names bss cs params
  pub probes : Probes scan
  pub tried :
      (firmware (join params scan) ≡ 0) × (cmds ≡ join params scan ∷ [])
      ⊎ (firmware (join params scan) ≢ 0) × (cmds ≡ join params scan ∷ set_ssid_cmd params ∷ [])

-- What AUTH leaves and sends.
pub record Joins (firmware : Command → ℕ) (flags : Flags) (bss : Bss) (cs : ℕ) (sc : Softc)
    (out : Station × List Command) : Type 0 where
  pub aborts : List Command
  pub secures : List Command
  pub joins : List Command
  pub cipher : ℕ
  pub auth : ℕ
  pub idle : out.0.softc.scan_active ≡ false
  pub join_bssid : out.0.join_bssid ≡ bss.bssid
  pub commands :
      out.1
      ≡ aborts
        ++ (set_chanspec cs ∷ [])
        ++ (get_channel ∷ get_chanspec ∷ get_qtxpower ∷ get_country ∷ [])
        ++ secures
        ++ joins
  pub is_abort : Aborts sc aborts
  pub wants : Wants flags cipher auth
  pub is_secure :
      Sends firmware
        (security auth_type 0 ∷ security wsec cipher ∷ security wpa_auth auth ∷ [])
        secures
  pub is_join : Asks firmware bss cs joins

-- An abort leaves the chanspecs alone, and no scan.
abort_keeps :
    (sc : Softc) (bssid : ℕ) (chan : ℤ)
    → (chanspec_for_join (abort_escan sc).0 bssid chan ≡ chanspec_for_join sc bssid chan)
      × ((abort_escan sc).0.scan_active ≡ false)
unfolding chanspec_for_join abort_escan
abort_keeps sc bssid chan = elim (Bool-cases sc.scan_active) [
  | inl e ↦ simp e (refl, refl)
  | inr e ↦ simp e (refl, refl)
]

abort_escan-Aborts : (sc : Softc) → Aborts sc (aborting (abort_escan sc).1)
unfolding abort_escan
abort_escan-Aborts sc =
    if_rule (λ (r : Softc × Option EscanParams). Aborts sc (aborting r.1)) (not sc.scan_active) _ _
      (λ e. no_scan (ground (arith, e)))
      (λ e. aborted (abort_params sc.escan_sync_id) (ground (arith, e)) refl refl)

settings-Wants : (flags : Flags) → Wants flags (settings flags).0 (settings flags).1
settings-Wants flags =
    if_rule (λ (s : ℕ × ℕ). Wants flags s.0 s.1) flags.wpa2 _ _ wants_wpa2
      (λ a.
        if_rule (λ (s : ℕ × ℕ). Wants flags s.0 s.1) flags.wpa1 _ _ (wants_wpa1 a)
          (λ b.
            if_rule (λ (s : ℕ × ℕ). Wants flags s.0 s.1) flags.privacy _ _ (wants_wep a b)
              (wants_none a b)))

module _ (firmware : Command → ℕ) where
  sent_alone : (c : Command) → Sends firmware (c ∷ []) (c ∷ [])
  sent_alone c = elim (Bool-cases (firmware c == 0)) [
    | inl e ↦ goes_on c [] [] (ground (arith, e)) all_sent
    | inr e ↦ stopped c [] (ground (arith, e))
  ]

  set_security-Sends :
      (w a : ℕ)
      → Sends firmware
          (security auth_type 0 ∷ security wsec w ∷ security wpa_auth a ∷ [])
          (as_commands (set_security (λ iovar value. firmware (security iovar value)) w a).1)
  unfolding set_security
  set_security-Sends w a = elim (Bool-cases (firmware (security auth_type 0) == 0)) [
    | inr e ↦ rw e (stopped _ _ (ground (arith, e)))
    | inl e ↦ elim (Bool-cases (firmware (security wsec w) == 0)) [
      | inr f ↦ rw (e, f) (goes_on _ _ _ (ground (arith, e)) (stopped _ _ (ground (arith, f))))
      | inl f ↦
          rw (e, f)
            (goes_on _ _ _ (ground (arith, e))
              (goes_on _ _ _ (ground (arith, f)) (sent_alone (security wpa_auth a))))
    ]
  ]

  names : (bss : Bss) (cs : ℕ) → cs ≢ 0 → Names bss cs (join_params bss cs)
  names bss cs n = record {
    bssid = refl;
    ssid_len = refl;
    ssid = λ i h. ground (arith, h);
    padded = λ i h. ground (arith, h);
    chanspec_num = ground (arith, n);
    chanspec = refl;
  }

  joined : (bss : Bss) (cs : ℕ) → cs ≢ 0 → Asks firmware bss cs (join_commands firmware bss cs)
  unfolding join_commands
  joined bss cs n = record {
    params = join_params bss cs;
    scan = join_scan cs;
    names = names bss cs n;
    probes = record {
      nprobes = ground (arith, n);
      active_time = ground (arith, n);
      passive_time = ground (arith, n);
      scan_type = refl;
      home_time = refl;
    };
    tried = elim (Bool-cases (firmware (join (join_params bss cs) (join_scan cs)) == 0)) [
      | inl e ↦ inl (ground arith, rw e refl)
      | inr e ↦ inr (ground arith, rw e refl)
    ];
  }

  to_auth_known :
      (flags : Flags) (bss : Bss) (now : ℤ) (st : Station) (cs : ℕ)
      → cs ≢ 0
      → ((chan : ℤ) → chanspec_for_join st.softc bss.bssid chan ≡ cs)
      → Joins firmware flags bss cs st.softc (to_auth firmware flags (some bss) now st)
  unfolding to_auth
  to_auth_known flags bss now st cs n known =
      let at : (chan : ℤ) → chanspec_for_join (abort_escan st.softc).0 bss.bssid chan ≡ cs =
        λ chan. (abort_keeps st.softc bss.bssid chan).0 ∙ known chan in
      let parked : park cs ≡ set_chanspec cs ∷ [] = ground (arith, n) in
      record {
        aborts = aborting (abort_escan st.softc).1;
        secures =
            as_commands
              (set_security (λ iovar value. firmware (security iovar value)) (settings flags).0
                (settings flags).1).1;
        joins = join_commands firmware bss cs;
        cipher = (settings flags).0;
        auth = (settings flags).1;
        idle = (abort_keeps st.softc bss.bssid now).1;
        join_bssid = refl;
        commands = rw (at now, at bss.channel, parked) refl;
        is_abort = abort_escan-Aborts st.softc;
        wants = settings-Wants flags;
        is_secure = set_security-Sends (settings flags).0 (settings flags).1;
        is_join = joined bss cs n;
      }

-- A BSS whose beacon put a chanspec into the cache, and that net80211 then asks to join: a scan that runs
-- is told to abort, and no scan is active afterwards; the radio is parked on that chanspec; four values
-- are read; the authentication type 0, the cipher and the key management that the flags ask for (AES and
-- WPA2-PSK, TKIP and WPA-PSK, WEP, or nothing) are sent, up to the first that the firmware refuses; and
-- the join names the network and that chanspec, whatever channel net80211 has noted. The older command,
-- for the same network, follows just where the join is refused.
pub to_auth-Joins :
    (firmware : Command → ℕ) (flags : Flags) (bss : Bss) (now : ℤ) (sc : Softc) (old cs : ℕ)
    → IsCache sc
    → cs ≢ 0
    → Joins firmware flags bss cs (cache_add sc bss.bssid cs) (
        to_auth firmware flags
          (some bss)
          now
          (record { softc = cache_add sc bss.bssid cs; join_bssid = old }))
to_auth-Joins firmware flags bss now sc old cs c n =
    to_auth_known firmware flags bss now
      (record { softc = cache_add sc bss.bssid cs; join_bssid = old }) cs n
      (λ chan. join_after_add sc bss.bssid cs chan c n)
