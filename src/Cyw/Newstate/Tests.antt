-- ===== src/Cyw/Newstate/Tests.antt =====
-- The theorem on joins, applied to a WPA2 network that a scan has found, with a firmware that refuses the
-- extended join.
use free_bsd15_rpi5_modules.Base.{ℕ, refl, true, false, some, arith}
use free_bsd15_rpi5_modules.Base.Int.{pos}
use free_bsd15_rpi5_modules.Cyw.Chanspec.{cache_add}
use free_bsd15_rpi5_modules.Cyw.Chanspec.Cache.{IsCache}
use free_bsd15_rpi5_modules.Cyw.Sample.{softc, zeros}
use free_bsd15_rpi5_modules.Cyw.Newstate.{Bss, Command, Flags, join, to_auth}
use free_bsd15_rpi5_modules.Cyw.Newstate.Join.{Joins, to_auth-Joins}

abbrev softc-IsCache : IsCache softc
softc-IsCache = record { size = refl; head = omega arith; unique = λ b. omega arith }

abbrev home : Bss
home = record { bssid = 99; channel = pos 48; esslen = 4; essid = zeros }

abbrev wpa2 : Flags
wpa2 = record { wpa2 = true; wpa1 = false; privacy = true }

abbrev refuses_join : Command → ℕ
refuses_join (join _ _) = 5
refuses_join _ = 0

to_auth-Joins_example : Joins refuses_join wpa2 home 0xe32a (cache_add softc 99 0xe32a) (
    to_auth refuses_join wpa2
      (some home)
      (pos 0)
      (record { softc = cache_add softc 99 0xe32a; join_bssid = 0 }))
to_auth-Joins_example =
    to_auth-Joins refuses_join wpa2 home (pos 0) softc 0 0xe32a softc-IsCache
      (λ e. omega (arith, e))
