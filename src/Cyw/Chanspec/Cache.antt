-- ===== src/Cyw/Chanspec/Cache.antt =====
-- The chanspec cache: what is stored is found, and its invariant.
use free_bsd15_rpi5_modules.Base.{
  ℕ, zero, suc, ◌+◌, ◌≤◌, ◌<◌, ◌≡◌, ◌≢◌, inl, inr, refl, ap, true, false, Option, none, some, List,
  [], ◌∷◌, arith, if◌then◌else◌, Bool-cases, length, set, get_or,
}
use free_bsd15_rpi5_modules.Cyw.{Slot, Softc}
use free_bsd15_rpi5_modules.Cyw.Chanspec.{matches, keep_slot, replace, lookup}

-- The slots in use for a BSSID.
abbrev pub uses : ℕ → List Slot → ℕ
uses b [] = 0
uses b (s ∷ ss) = (if matches s b then 1 else 0) + uses b ss

-- The cache has its 32 slots, the ring's head is one of them, no BSSID has two.
pub record IsCache (sc : Softc) : Type 0 where
  pub size : length sc.bss_cs_cache ≡ 32
  pub head : sc.bss_cs_cache_next < 32
  pub unique : (b : ℕ) → uses b sc.bss_cs_cache ≤ 1

matches_new : (b cs : ℕ) → cs ≢ 0 → matches (record { bssid = b; chanspec = cs }) b ≡ true
matches_new b cs h = ground arith

-- What a replacement does: where it finds a slot, the number of slots for each BSSID stays as it was,
-- that BSSID is found, and the others are found as before.
pub record Replaced (ss : List Slot) (b cs : ℕ) (ss' : List Slot) : Type 0 where
  pub size : length ss' ≡ length ss
  pub same : (c : ℕ) → uses c ss' ≡ uses c ss
  pub found : lookup ss' b ≡ cs
  pub others : (c : ℕ) → c ≢ b → lookup ss' c ≡ lookup ss c

-- It finds none only for a BSSID that is not in the cache.
abbrev pub Result : List Slot → ℕ → ℕ → Option (List Slot) → Type 0
Result ss b cs none = uses b ss ≡ 0
Result ss b cs (some ss') = Replaced ss b cs ss'

matches_changed :
    (s : Slot) (b cs c : ℕ)
    → cs ≢ 0
    → matches s b ≡ true
    → matches (record s { chanspec = cs }) c ≡ matches s c
matches_changed s b cs c n e = ground arith

matches_other : (s : Slot) (b c : ℕ) → matches s b ≡ true → c ≢ b → matches s c ≡ false
matches_other s b c e n = ground arith

found_here :
    (s : Slot) (ss : List Slot) (b cs : ℕ)
    → cs ≢ 0
    → matches s b ≡ true
    → Replaced (s ∷ ss) b cs (record s { chanspec = cs } ∷ ss)
unfolding lookup
found_here s ss b cs n e = record {
  size = refl;
  same = λ c. ap (λ m. (if m then 1 else 0) + uses c ss) (matches_changed s b cs c n e);
  found = rw (matches_changed s b cs b n e, e) refl;
  others = λ c o. rw (matches_changed s b cs c n e, matches_other s b c e o) refl;
}

found_later :
    (s : Slot) (ss : List Slot) (b cs : ℕ) (o : Option (List Slot))
    → matches s b ≡ false
    → Result ss b cs o
    → Result (s ∷ ss) b cs (keep_slot s o)
unfolding lookup
found_later s ss b cs none e r = let r' : uses b ss ≡ 0 = r in rw e (omega arith)
found_later s ss b cs (some ss') e r = record {
  size = ap suc r.size;
  same = λ c. ap (λ m. (if matches s c then 1 else 0) + m) (r.same c);
  found = rw e r.found;
  others = λ c o. ap (λ m. if matches s c then s.chanspec else m) (r.others c o);
}

pub replace-Result : (ss : List Slot) (b cs : ℕ) → cs ≢ 0 → Result ss b cs (replace ss b cs)
unfolding replace
replace-Result [] b cs n = refl
replace-Result (s ∷ ss) b cs n = elim (Bool-cases (matches s b)) [
  | inl e ↦ rw e (found_here s ss b cs n e)
  | inr e ↦ rw e (found_later s ss b cs (replace ss b cs) e (replace-Result ss b cs n))
]

not_matches : (s : Slot) (ss : List Slot) (b : ℕ) → uses b (s ∷ ss) ≡ 0 → matches s b ≡ false
not_matches s ss b h = ground arith

not_used : (s : Slot) (ss : List Slot) (b : ℕ) → uses b (s ∷ ss) ≡ 0 → uses b ss ≡ 0
not_used s ss b h = omega arith

abbrev pub slot : ℕ → ℕ → Slot
slot b cs = record { bssid = b; chanspec = cs }

-- What writing a slot for a BSSID that is not in the cache does: it is found, it alone is added, and
-- every other BSSID is found as before but for the one that was evicted.
pub record Inserted (ss : List Slot) (i b cs : ℕ) (ss' : List Slot) : Type 0 where
  pub found : lookup ss' b ≡ cs
  pub once : uses b ss' ≡ 1
  pub fewer : (c : ℕ) → c ≢ b → uses c ss' ≤ uses c ss
  pub others :
      (c : ℕ) → c ≢ b → matches (get_or ss i (slot 0 0)) c ≡ false → lookup ss' c ≡ lookup ss c

slot_other : (b cs c : ℕ) → c ≢ b → matches (slot b cs) c ≡ false
slot_other b cs c n = ground arith

pub set-Inserted :
    (ss : List Slot) (i b cs : ℕ)
    → cs ≢ 0
    → i < length ss
    → uses b ss ≡ 0
    → Inserted ss i b cs (set ss i (slot b cs))
unfolding lookup
set-Inserted [] i b cs n l u = absurd (omega arith)
set-Inserted (s ∷ ss) zero b cs n l u = record {
  found = rw (matches_new b cs n) refl;
  once = rw (matches_new b cs n, not_used s ss b u) refl;
  fewer = λ c o. rw (slot_other b cs c o) (omega arith);
  others = λ c o e. rw (slot_other b cs c o, e) refl;
}
set-Inserted (s ∷ ss) (suc i) b cs n l u =
    let rest = set-Inserted ss i b cs n (omega (arith, l)) (not_used s ss b u) in
    record {
      found = rw (not_matches s ss b u) rest.found;
      once = rw (not_matches s ss b u, rest.once) refl;
      fewer = λ c o. let f = rest.fewer c o in omega (arith, f);
      others = λ c o e. ap (λ m. if matches s c then s.chanspec else m) (rest.others c o e);
    }
