-- ===== src/Cyw/Chanspec.antt =====
-- cyw43455_scan.c: the cache from BSSID to chanspec, and the channel that a chanspec stands for.
pub mod Cache
pub mod Channel
pub mod Join
use free_bsd15_rpi5_modules.Base.{
  ℕ, ◌+◌, ◌-◌, ◌*◌, ◌/◌, ◌%◌, Bool, true, false, not, ◌&&◌, Option, none, some, List, [], ◌∷◌, leb,
  ◌==◌, if◌then◌else◌, set,
}
use free_bsd15_rpi5_modules.Base.Int.{ℤ, pos, negsuc, sub_ℕ}
use free_bsd15_rpi5_modules.Cyw.{Slot, Softc}

abbrev pub cache_size : ℕ
cache_size = 32

-- A slot in use for the BSSID.
abbrev pub matches : Slot → ℕ → Bool
matches s bssid = not (s.chanspec == 0) && s.bssid == bssid

abbrev pub keep_slot : Slot → Option (List Slot) → Option (List Slot)
keep_slot s none = none
keep_slot s (some ss) = some (s ∷ ss)

-- The loop of cyw_bss_cs_cache_add: the first matching slot gets the chanspec; `none` if none matches.
unfoldable pub replace : List Slot → ℕ → ℕ → Option (List Slot)
replace [] bssid chanspec = none
replace (s ∷ ss) bssid chanspec =
    let rest = replace ss bssid chanspec in
    if matches s bssid then some (record s { chanspec = chanspec } ∷ ss) else keep_slot s rest

unfoldable pub cache_add : Softc → ℕ → ℕ → Softc
cache_add sc bssid chanspec =
    if chanspec == 0 then sc else elim (replace sc.bss_cs_cache bssid chanspec) [
      | some slots ↦ record sc { bss_cs_cache = slots }
      | none ↦ record sc {
        bss_cs_cache =
            set sc.bss_cs_cache sc.bss_cs_cache_next
              (record { bssid = bssid; chanspec = chanspec });
        bss_cs_cache_next = (sc.bss_cs_cache_next + 1) % cache_size;
      }
    ]

-- The loop of cyw_chanspec_for_join: 0 if no slot matches.
unfoldable pub lookup : List Slot → ℕ → ℕ
lookup [] bssid = 0
lookup (s ∷ ss) bssid = let rest = lookup ss bssid in if matches s bssid then s.chanspec else rest

-- `0xD000 | n`, for n a uint16_t.
abbrev pub or_d000 : ℕ → ℕ
or_d000 n = 0xD000 + n % 4096 + n / 8192 % 2 * 8192

-- The chanspec that a channel number alone gives.
abbrev pub chanspec_of_channel : ℤ → ℕ
chanspec_of_channel (negsuc n) = 0
chanspec_of_channel (pos n) =
    if n == 0 then 0 else if leb n 14 then 0x1000 + n else or_d000 (n % 65536)

unfoldable pub chanspec_for_join : Softc → ℕ → ℤ → ℕ
chanspec_for_join sc bssid ieee_chan =
    let cs = lookup sc.bss_cs_cache bssid in if cs == 0 then chanspec_of_channel ieee_chan else cs

-- The fields of a chanspec: the channel, the D11AC band, bandwidth and sideband (each shifted to the
-- right), the D11N bandwidth and sideband.
abbrev pub chan : ℕ → ℕ
chan cs = cs % 256

abbrev pub ac_band : ℕ → ℕ
ac_band cs = cs / 16384 % 4

abbrev pub ac_bw : ℕ → ℕ
ac_bw cs = cs / 2048 % 8

abbrev pub ac_sb : ℕ → ℕ
ac_sb cs = cs / 256 % 8

abbrev pub n_bw : ℕ → ℕ
n_bw cs = cs / 1024 % 4

abbrev pub n_sb : ℕ → ℕ
n_sb cs = cs / 256 % 4

-- cyw_chanspec_to_channel.
unfoldable pub chanspec_to_channel : ℕ → ℤ
chanspec_to_channel cs =
    let ch = chan cs in
    if ac_band cs == 3
    then if ac_bw cs == 4
      then if ac_sb cs == 0
        then sub_ℕ ch 6
        else if ac_sb cs == 1
        then sub_ℕ ch 2
        else if ac_sb cs == 2
        then pos (ch + 2)
        else if ac_sb cs == 3
        then pos (ch + 6)
        else pos ch
      else if ac_bw cs == 3
      then if ac_sb cs == 0 then sub_ℕ ch 2 else if ac_sb cs == 1 then pos (ch + 2) else pos ch
      else pos ch
    else if n_bw cs == 3
    then if n_sb cs == 1 then sub_ℕ ch 2 else if n_sb cs == 2 then pos (ch + 2) else pos ch
    else pos ch
