-- ===== src/Eth/Filter/Tests.antt =====
-- The receive filter for two multicast addresses.
use free_bsd15_rpi5_modules.Base.{ℕ, ◌+◌, ◌≡◌, ◌<◌, refl, true, false, [], ◌∷◌, get_or, bit}
use free_bsd15_rpi5_modules.Eth.Filter.{IfFlags, mac_hash, rx_filter}
use free_bsd15_rpi5_modules.Eth.Filter.Hash.{parity, weight, mac_hash_lem}
use free_bsd15_rpi5_modules.Eth.Filter.Admits.{admits, rx_filter-admits}

-- 01:00:5e:00:00:fb and 33:33:00:00:00:01.
abbrev mdns : ℕ → ℕ
mdns i = get_or (0x01 ∷ 0x00 ∷ 0x5e ∷ 0x00 ∷ 0x00 ∷ 0xfb ∷ []) i 0

abbrev all_nodes : ℕ → ℕ
all_nodes i = get_or (0x33 ∷ 0x33 ∷ 0x00 ∷ 0x00 ∷ 0x00 ∷ 0x01 ∷ []) i 0

abbrev flags : IfFlags
flags = record { up = true; promisc = false; broadcast = true; allmulti = false }

mac_hash_lem_example :
    (mac_hash mdns
      ≡ weight (parity 8 0 mdns) 0
        + weight (parity 8 1 mdns) 1
        + weight (parity 8 2 mdns) 2
        + weight (parity 8 3 mdns) 3
        + weight (parity 8 4 mdns) 4
        + weight (parity 8 5 mdns) 5)
    × (mac_hash mdns < 64)
mac_hash_lem_example = mac_hash_lem mdns

rx_filter-admits_example :
    (admits (rx_filter flags (mdns ∷ all_nodes ∷ []) 0).hashes (mac_hash all_nodes) ≡ true)
    × (bit (rx_filter flags (mdns ∷ all_nodes ∷ []) 0).net_cfg 6 ≡ true)
rx_filter-admits_example =
    rx_filter-admits flags (mdns ∷ all_nodes ∷ []) 0 1 all_nodes refl refl refl
