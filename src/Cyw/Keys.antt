-- ===== src/Cyw/Keys.antt =====
-- cyw43455_cfg.c, cyw43455_var.h: net80211's keys as the firmware's `struct cyw_wsec_key`
-- (cyw_key_alloc, cyw_key_set, cyw_key_delete).
pub mod Install
mod Tests
use free_bsd15_rpi5_modules.Base.{
  ℕ, ◌/◌, ◌%◌, ◌^◌, Bool, true, false, Option, none, some, ltb, ◌==◌, if◌then◌else◌, u16, u32,
}
use free_bsd15_rpi5_modules.Cyw.{Buf}

-- `ic_cipher`; `other` stands for those that the driver does not know.
pub data Cipher : Type 0 where
  aes_ccm tkip wep other : Cipher

-- What is read of `struct ieee80211_key`. An address is its six bytes as one number.
pub record Key : Type 0 where
  pub group : Bool
  pub keyix : ℕ  -- uint16_t
  pub keylen : ℕ  -- uint8_t
  pub key : Buf
  pub cipher : Option Cipher
  pub macaddr : ℕ
  pub keyrsc : ℕ  -- uint64_t, for the non-QoS TID

-- `struct cyw_wsec_key` without its padding.
pub record WsecKey : Type 0 where
  pub index : ℕ
  pub len : ℕ
  pub content : Buf
  pub algo : ℕ
  pub flags : ℕ
  pub iv_initialized : ℕ
  pub rxiv_hi : ℕ
  pub rxiv_lo : ℕ
  pub ea : ℕ

abbrev pub data_size : ℕ
data_size = 32

abbrev pub broadcast : ℕ
broadcast = 0xffffffffffff

-- The slots that cyw_key_alloc gives: the position in iv_nw_keys for a group key.
unfoldable pub key_alloc : Key → ℕ → ℕ × ℕ
key_alloc k position = if k.group then (position, position) else (0, 0)

abbrev pub algo_of : Key → Option ℕ
algo_of k = elim k.cipher [
  | none ↦ none
  | some aes_ccm ↦ some 4
  | some tkip ↦ some 2
  | some wep ↦ some (if k.keylen == 5 then 1 else 3)
  | some other ↦ none
]

-- The peer of a pairwise key; the BSS is the VAP's, if it has one.
abbrev pub peer : Key → Option ℕ → ℕ
peer k bssid = if k.macaddr == broadcast then elim bssid [ none ↦ 0 | some a ↦ a ] else k.macaddr

abbrev pub key_data : Key → Buf
key_data k i = if ltb i k.keylen then k.key i else 0

-- The structure for a key with this algorithm.
abbrev pub wsec_key : Key → Option ℕ → ℕ → WsecKey
wsec_key k bssid algo = record {
  index = k.keyix;
  len = k.keylen;
  content = key_data k;
  algo = algo;
  flags = if k.group then 2 else 0;
  iv_initialized = if k.group then 1 else 0;
  rxiv_hi = if k.group then u32 (k.keyrsc / 2 ^ 16) else 0;
  rxiv_lo = if k.group then u16 k.keyrsc else 0;
  ea = if k.group then 0 else peer k bssid;
}

-- cyw_key_set, with what the firmware answers to a key: net80211's 1 or 0, and the key if it was sent.
unfoldable pub key_set : (WsecKey → ℕ) → Option ℕ → Key → ℕ × Option WsecKey
key_set iovar bssid k = elim (algo_of k) [
  | none ↦ (0, none)
  | some algo ↦
      if ltb data_size k.keylen
      then (0, none)
      else (if iovar (wsec_key k bssid algo) == 0 then 1 else 0, some (wsec_key k bssid algo))
]

-- cyw_key_delete, which sends the algorithm `off` and reports success whatever the answer.
unfoldable pub key_delete : Key → ℕ × WsecKey
key_delete k = (
  1,
  record {
    index = k.keyix;
    len = 0;
    content = λ i. 0;
    algo = 0;
    flags = 2;
    iv_initialized = 0;
    rxiv_hi = 0;
    rxiv_lo = 0;
    ea = 0;
  },
)
