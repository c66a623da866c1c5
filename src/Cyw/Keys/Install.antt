-- ===== src/Cyw/Keys/Install.antt =====
-- cyw_key_set: which keys are refused, and what the firmware is told of the others.
use free_bsd15_rpi5_modules.Base.{
  ℕ, ◌+◌, ◌*◌, ◌%◌, ◌^◌, ◌≤◌, ◌<◌, ◌≡◌, ◌≢◌, ◌⊎◌, inl, inr, refl, true, false, Option, none, some,
  arith, ltb, ◌==◌, if◌then◌else◌, Bool-cases, if_rule,
}
use free_bsd15_rpi5_modules.Cyw.Keys.{
  Key, WsecKey, Cipher, aes_ccm, tkip, wep, other, algo_of, peer, wsec_key, key_set, data_size,
}

-- The firmware's numbers of the algorithms, by cipher and length of the key: 4 for AES-CCM, 2 for TKIP,
-- and for WEP 1 with a key of 5 bytes and 3 with any other.
pub data Algorithm : Cipher → ℕ → ℕ → Type 0 where
  of_aes_ccm : (keylen : ℕ) → Algorithm aes_ccm keylen 4
  of_tkip : (keylen : ℕ) → Algorithm tkip keylen 2
  of_short_wep : Algorithm wep 5 1
  of_wep : (keylen : ℕ) → keylen ≢ 5 → Algorithm wep keylen 3

-- The address that goes with a pairwise key: its own, or in place of the broadcast address the BSSID, or
-- zeros where the VAP has no BSS.
pub data Addressed (k : Key) : Option ℕ → ℕ → Type 0 where
  own : (bssid : Option ℕ) → k.macaddr ≢ 0xffffffffffff → Addressed k bssid k.macaddr
  fallen_back : (bssid : ℕ) → k.macaddr ≡ 0xffffffffffff → Addressed k (some bssid) bssid
  zeroed : k.macaddr ≡ 0xffffffffffff → Addressed k none 0

-- A key that the firmware was given: all of its bytes and no others; the receive counter, in two parts,
-- and no address for a group key, and the peer's address and no counter for a pairwise one.
pub record Sent (k : Key) (bssid : Option ℕ) (cipher : Cipher) (w : WsecKey) : Type 0 where
  pub index : w.index ≡ k.keyix
  pub len : w.len ≡ k.keylen
  pub fits : w.len ≤ 32
  pub inside : (i : ℕ) → i < k.keylen → w.content i ≡ k.key i
  pub outside : (i : ℕ) → k.keylen ≤ i → w.content i ≡ 0
  pub algo : Algorithm cipher k.keylen w.algo
  pub kind :
      (k.group ≡ true)
        × (w.flags ≡ 2)
        × (w.iv_initialized ≡ 1)
        × (w.ea ≡ 0)
        × (w.rxiv_hi * 65536 + w.rxiv_lo ≡ k.keyrsc % 2 ^ 48)
      ⊎ (k.group ≡ false)
        × (w.flags ≡ 0)
        × (w.iv_initialized ≡ 0)
        × Addressed k bssid w.ea
        × (w.rxiv_hi * 65536 + w.rxiv_lo ≡ 0)

abbrev pub Outcome : (WsecKey → ℕ) → Option ℕ → Key → ℕ × Option WsecKey → Type 0
Outcome iovar bssid k out =
    ((k.cipher ≡ none) ⊎ (k.cipher ≡ some other) ⊎ (32 < k.keylen)) × (out ≡ (0, none))
    ⊎ ((cipher : Cipher) × (k.cipher ≡ some cipher)
        × ((w : WsecKey) × (out ≡ (if iovar w == 0 then 1 else 0, some w)) × Sent k bssid cipher w))

peer-Addressed : (k : Key) (bssid : Option ℕ) → Addressed k bssid (peer k bssid)
peer-Addressed k none =
    if_rule (Addressed k none) (k.macaddr == 0xffffffffffff) _ _ (λ e. zeroed (ground (arith, e)))
      (λ e. own none (ground (arith, e)))
peer-Addressed k (some b) =
    if_rule (Addressed k (some b)) (k.macaddr == 0xffffffffffff) _ _
      (λ e. fallen_back b (ground (arith, e))) (λ e. own (some b) (ground (arith, e)))

sent :
    (k : Key) (bssid : Option ℕ) (cipher : Cipher) (algo : ℕ)
    → Algorithm cipher k.keylen algo
    → ltb data_size k.keylen ≡ false
    → Sent k bssid cipher (wsec_key k bssid algo)
sent k bssid cipher algo a short = record {
  index = refl;
  len = refl;
  fits = ground arith;
  inside = λ i h. ground (arith, h);
  outside = λ i h. ground (arith, h);
  algo = a;
  kind = elim (Bool-cases k.group) [
    | inl g ↦ inl (g, rw g refl, rw g refl, rw g refl, rw g (omega arith))
    | inr g ↦ inr (
      g,
      rw g refl,
      rw g refl,
      if_rule (λ (ea : ℕ). Addressed k bssid ea) k.group 0 (peer k bssid)
          (λ t. absurd (ground (arith, g, t))) (λ f. peer-Addressed k bssid),
      rw g refl,
    )
  ];
}

refused :
    (iovar : WsecKey → ℕ) (bssid : Option ℕ) (k : Key)
    → algo_of k ≡ none
    → key_set iovar bssid k ≡ (0, none)
unfolding key_set
refused iovar bssid k a = rw (key_set, a) refl

-- A cipher that the driver knows has its algorithm, and the key is refused only for its length.
known :
    (iovar : WsecKey → ℕ) (bssid : Option ℕ) (k : Key) (cipher : Cipher) (algo : ℕ)
    → k.cipher ≡ some cipher
    → algo_of k ≡ some algo
    → Algorithm cipher k.keylen algo
    → Outcome iovar bssid k (key_set iovar bssid k)
unfolding key_set
known iovar bssid k cipher algo c a algorithm = elim (Bool-cases (ltb data_size k.keylen)) [
  | inl e ↦ inl (inr (inr (ground (arith, e))), rw (key_set, a, e) refl)
  | inr e ↦ inr (
    cipher,
    c,
    (wsec_key k bssid algo, rw (key_set, a, e) refl, sent k bssid cipher algo algorithm e),
  )
]

-- A key is refused, and nothing sent, where its cipher is missing or not known or where it has more than
-- 32 bytes. Any other is sent, and net80211 gets 1 just where the firmware takes it: with its index, its
-- length, its bytes and zeros behind them and the firmware's number of its cipher (4 for AES-CCM, 2 for
-- TKIP, 1 or 3 for WEP by the length); a group key as the primary key, with its 48-bit receive counter and
-- without an address, and a pairwise key with the peer's address (the BSSID in place of the broadcast
-- address) and without a counter.
pub key_set-Outcome :
    (iovar : WsecKey → ℕ) (bssid : Option ℕ) (k : Key)
    → Outcome iovar bssid k (key_set iovar bssid k)
key_set-Outcome iovar bssid k = ciphered k.cipher refl
  where
    wep_key : k.cipher ≡ some wep → Outcome iovar bssid k (key_set iovar bssid k)
    wep_key c = elim (Bool-cases (k.keylen == 5)) [
      | inl e ↦
          let five : k.keylen ≡ 5 = ground (arith, e) in
          known iovar bssid k wep 1 c (rw (c, e) refl) (rw five of_short_wep)
      | inr e ↦ known iovar bssid k wep 3 c (rw (c, e) refl) (of_wep k.keylen (ground (arith, e)))
    ]

    ciphered : (o : Option Cipher) → k.cipher ≡ o → Outcome iovar bssid k (key_set iovar bssid k)
    ciphered none c = inl (inl c, refused iovar bssid k (rw c refl))
    ciphered (some aes_ccm) c = known iovar bssid k aes_ccm 4 c (rw c refl) (of_aes_ccm k.keylen)
    ciphered (some tkip) c = known iovar bssid k tkip 2 c (rw c refl) (of_tkip k.keylen)
    ciphered (some wep) c = wep_key c
    ciphered (some other) c = inl (inr (inl c), refused iovar bssid k (rw c refl))
