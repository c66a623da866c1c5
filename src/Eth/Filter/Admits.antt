-- ===== src/Eth/Filter/Admits.antt =====
-- The receive filter admits every address that it is set up for.
use free_bsd15_rpi5_modules.Base.{
  ℕ, ◌∙◌, zero, suc, ◌-◌, ◌≡◌, inl, inr, refl, sym, Bool, true, false, not, ◌||◌, some, List, [],
  ◌∷◌, arith, ltb, ◌==◌, if◌then◌else◌, Bool-cases, bit, set_bit, clear_bit, bit-set_self,
  bit-set_ne, bit-none, get_elem?,
}
use free_bsd15_rpi5_modules.Eth.Filter.{
  Hashes, IfFlags, mac_hash, hash_maddr, hash_all, rx_filter, no_hashes,
}

-- Whether the filter's bit at an index is set.
abbrev pub admits : Hashes → ℕ → Bool
admits hashes index = if ltb 31 index then bit hashes.top (index - 32) else bit hashes.bot index

maddr_self : (h : Hashes) (eaddr : ℕ → ℕ) → admits (hash_maddr h eaddr) (mac_hash eaddr) ≡ true
maddr_self h eaddr = elim (Bool-cases (ltb 31 (mac_hash eaddr))) [
  | inl e ↦ simp (e, bit-set_self h.top (mac_hash eaddr - 32)) refl
  | inr e ↦ simp (e, bit-set_self h.bot (mac_hash eaddr)) refl
]

-- A bit that is set stays set.
set_kept : (x j k : ℕ) → bit x k ≡ true → bit (set_bit x j) k ≡ true
set_kept x j k b = elim (Bool-cases (j == k)) [
  | inl e ↦ let same : j ≡ k = ground (arith, e) in rw (sym same) (bit-set_self x j)
  | inr e ↦ bit-set_ne x j k (λ z. ground (arith, e, z)) ∙ b
]

maddr_keeps :
    (h : Hashes) (eaddr : ℕ → ℕ) (k : ℕ) → admits h k ≡ true → admits (hash_maddr h eaddr) k ≡ true
maddr_keeps h eaddr k b = elim (Bool-cases (ltb 31 (mac_hash eaddr))) [
  | inl e ↦ elim (Bool-cases (ltb 31 k)) [
    | inl g ↦ simp (e, g) (set_kept h.top (mac_hash eaddr - 32) (k - 32) (simp g at b))
    | inr g ↦ simp (e, g) (simp g at b)
  ]
  | inr e ↦ elim (Bool-cases (ltb 31 k)) [
    | inl g ↦ simp (e, g) (simp g at b)
    | inr g ↦ simp (e, g) (set_kept h.bot (mac_hash eaddr) k (simp g at b))
  ]
]

all_keeps :
    (eaddrs : List (ℕ → ℕ)) (h : Hashes) (k : ℕ)
    → admits h k ≡ true
    → admits (hash_all eaddrs h) k ≡ true
unfolding hash_all
all_keeps [] h k b = b
all_keeps (eaddr ∷ eaddrs) h k b = all_keeps eaddrs (hash_maddr h eaddr) k (maddr_keeps h eaddr k b)

all_admit :
    (eaddrs : List (ℕ → ℕ)) (h : Hashes) (i : ℕ) (eaddr : ℕ → ℕ)
    → get_elem? eaddrs i ≡ some eaddr
    → admits (hash_all eaddrs h) (mac_hash eaddr) ≡ true
unfolding hash_all
all_admit [] h i eaddr e = ground arith
all_admit (a ∷ eaddrs) h zero eaddr e =
    let same : a ≡ eaddr = ground (arith, e) in
    rw same (all_keeps eaddrs (hash_maddr h eaddr) (mac_hash eaddr) (maddr_self h eaddr))
all_admit (a ∷ eaddrs) h (suc i) eaddr e = all_admit eaddrs (hash_maddr h a) i eaddr e

none_admit : (k : ℕ) → admits no_hashes k ≡ false
none_admit k = elim (Bool-cases (ltb 31 k)) [
  | inl e ↦ rw e (bit-none (k - 32))
  | inr e ↦ rw e (bit-none k)
]

-- A filter that admits something has a word that is not 0.
nonzero : (h : Hashes) (k : ℕ) → admits h k ≡ true → (not (h.top == 0) || not (h.bot == 0)) ≡ true
nonzero h k b = elim (Bool-cases (h.top == 0)) [
  | inr e ↦ rw e refl
  | inl e ↦ elim (Bool-cases (h.bot == 0)) [
    | inr g ↦ rw (e, g) refl
    | inl g ↦
        let top : h.top ≡ 0 = ground (arith, e) in
        let bot : h.bot ≡ 0 = ground (arith, g) in
        absurd (ground (arith, b, none_admit k, top, bot))
  ]
]

-- Unless the interface is promiscuous or takes all multicasts, after cgem_rx_filter the hash filter is
-- enabled and admits every multicast address of the interface.
pub rx_filter-admits :
    (flags : IfFlags) (eaddrs : List (ℕ → ℕ)) (net_cfg i : ℕ) (eaddr : ℕ → ℕ)
    → flags.promisc ≡ false
    → flags.allmulti ≡ false
    → get_elem? eaddrs i ≡ some eaddr
    → (admits (rx_filter flags eaddrs net_cfg).hashes (mac_hash eaddr) ≡ true)
      × (bit (rx_filter flags eaddrs net_cfg).net_cfg 6 ≡ true)
unfolding rx_filter
rx_filter-admits flags eaddrs net_cfg i eaddr p a e =
    let ok = all_admit eaddrs no_hashes i eaddr e in
    let on = nonzero (hash_all eaddrs no_hashes) (mac_hash eaddr) ok in
    simp (p, a, on)
      (
        ok,
        bit-set_self
            (if flags.broadcast
              then clear_bit (clear_bit (clear_bit net_cfg 6) 5) 4
              else set_bit (clear_bit (clear_bit (clear_bit net_cfg 6) 5) 4) 5)
            6,
      )
