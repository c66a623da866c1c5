-- ===== src/Eth/Filter.antt =====
-- rp1_eth.c: the hash of a multicast address and the receive filter.
pub mod Hash
pub mod Admits
mod Tests
use free_bsd15_rpi5_modules.Base.{
  ℕ, ◌∙◌, zero, suc, ◌+◌, ◌-◌, ◌*◌, ◌/◌, ◌%◌, ◌^◌, ◌≤◌, ◌<◌, ◌≡◌, ◌≢◌, ◌⊎◌, inl, inr, refl, ap, sym,
  Bool, true, false, not, ◌&&◌, ◌||◌, List, [], ◌∷◌, arith, ltb, leb, ◌==◌, if◌then◌else◌,
  Bool-cases, bit, set_bit, clear_bit, toggle_bit, bit-set_self, bit-set_ne,
}

-- The inner loop of cgem_mac_hash, by rounds: every sixth bit from j on, of an address in six bytes.
abbrev pub hash_column : ℕ → ℕ → (ℕ → ℕ) → ℕ → ℕ → ℕ
hash_column zero j eaddr i hash = hash
hash_column (suc rounds) j eaddr i hash =
    hash_column rounds (j + 6) eaddr i
      (if bit (eaddr (j / 8)) (j % 8) then toggle_bit hash i else hash)

-- The outer loop, by rounds: i is 6 less the rounds left.
abbrev pub hash_rows : ℕ → (ℕ → ℕ) → ℕ → ℕ
hash_rows zero eaddr hash = hash
hash_rows (suc rounds) eaddr hash =
    let i = 5 - rounds in hash_rows rounds eaddr (hash_column 8 i eaddr i hash)

-- cgem_mac_hash
unfoldable pub mac_hash : (ℕ → ℕ) → ℕ
mac_hash eaddr = hash_rows 6 eaddr 0

-- The two hash words that cgem_rx_filter builds, hashes[0] and hashes[1].
pub record Hashes : Type 0 where
  pub top : ℕ
  pub bot : ℕ

-- cgem_hash_maddr
abbrev pub hash_maddr : Hashes → (ℕ → ℕ) → Hashes
hash_maddr hashes eaddr =
    let index = mac_hash eaddr in
    if ltb 31 index
    then record hashes { top = set_bit hashes.top (index - 32) }
    else record hashes { bot = set_bit hashes.bot index }

-- if_foreach_llmaddr
unfoldable pub hash_all : List (ℕ → ℕ) → Hashes → Hashes
hash_all [] hashes = hashes
hash_all (eaddr ∷ eaddrs) hashes = hash_all eaddrs (hash_maddr hashes eaddr)

-- The interface flags that the driver reads.
pub record IfFlags : Type 0 where
  pub up : Bool
  pub promisc : Bool
  pub broadcast : Bool
  pub allmulti : Bool

-- What cgem_rx_filter writes: HASH_TOP and HASH_BOT, and NET_CFG.
pub record Written : Type 0 where
  pub hashes : Hashes
  pub net_cfg : ℕ

abbrev pub no_hashes : Hashes
no_hashes = record { top = 0; bot = 0 }

abbrev pub all_hashes : Hashes
all_hashes = record { top = 0xffffffff; bot = 0xffffffff }

-- cgem_rx_filter, of the flags, the multicast addresses of the interface and the shadow of NET_CFG: bit 4
-- is COPY_ALL, bit 5 NO_BCAST, bit 6 MULTI_HASH_EN.
unfoldable pub rx_filter : IfFlags → List (ℕ → ℕ) → ℕ → Written
rx_filter flags eaddrs net_cfg_shadow =
    let cfg = clear_bit (clear_bit (clear_bit net_cfg_shadow 6) 5) 4 in
    let cfg' = if flags.broadcast then cfg else set_bit cfg 5 in
    let hashes = if flags.allmulti then all_hashes else hash_all eaddrs no_hashes in
    if flags.promisc then record { hashes = no_hashes; net_cfg = set_bit cfg 4 } else record {
      hashes = hashes;
      net_cfg = if not (hashes.top == 0) || not (hashes.bot == 0) then set_bit cfg' 6 else cfg';
    }

-- Whether the filter's bit at an index is set.
abbrev pub admits : Hashes → ℕ → Bool
admits hashes index = if ltb 31 index then bit hashes.top (index - 32) else bit hashes.bot index
