-- ===== src/Cyw/Chanspec/Join.antt =====
-- cyw_bss_cs_cache_add and cyw_chanspec_for_join together.
use free_bsd15_rpi5_modules.Base.{
  ℕ, ◌+◌, ◌%◌, ◌≤◌, ◌≡◌, ◌≢◌, inl, inr, refl, ◌∙◌, Bool, false, Option, none, some, List, arith,
  ◌==◌, Bool-cases, ==_iff, set, get_or, length-set,
}
use free_bsd15_rpi5_modules.Base.Int.{ℤ}
use free_bsd15_rpi5_modules.Cyw.{Slot, Softc}
use free_bsd15_rpi5_modules.Cyw.Chanspec.{matches, replace, cache_add, lookup, chanspec_for_join}
use free_bsd15_rpi5_modules.Cyw.Chanspec.Cache.{
  uses, IsCache, Replaced, Result, replace-Result, slot, Inserted, set-Inserted,
}

-- The BSSID in the slot that the next insertion overwrites.
abbrev evicts : Softc → ℕ → Bool
evicts sc b = matches (get_or sc.bss_cs_cache sc.bss_cs_cache_next (slot 0 0)) b

pub record Added (sc : Softc) (b cs : ℕ) (sc' : Softc) : Type 0 where
  pub cache : IsCache sc'
  pub found : lookup sc'.bss_cs_cache b ≡ cs
  pub others :
      (c : ℕ) → c ≢ b → evicts sc c ≡ false → lookup sc'.bss_cs_cache c ≡ lookup sc.bss_cs_cache c

replace-Added :
    (sc : Softc) (b cs : ℕ) (ss' : List Slot)
    → IsCache sc
    → Replaced sc.bss_cs_cache b cs ss'
    → Added sc b cs (record sc { bss_cs_cache = ss' })
replace-Added sc b cs ss' k r = record {
  cache = record {
    size = r.size ∙ k.size;
    head = k.head;
    unique = λ c. rw (r.same c) (k.unique c);
  };
  found = r.found;
  others = λ c o e. r.others c o;
}

still_unique :
    (sc : Softc) (b cs c : ℕ)
    → IsCache sc
    → Inserted sc.bss_cs_cache sc.bss_cs_cache_next b cs
        (set sc.bss_cs_cache sc.bss_cs_cache_next (slot b cs))
    → uses c (set sc.bss_cs_cache sc.bss_cs_cache_next (slot b cs)) ≤ 1
still_unique sc b cs c k r = elim (Bool-cases (c == b)) [
  | inl e ↦ rw ((==_iff c b).0 e, r.once) (omega arith)
  | inr e ↦ let f = r.fewer c (ground (arith, e)) in let u = k.unique c in omega (arith, f, u)
]

set-Added :
    (sc : Softc) (b cs : ℕ)
    → IsCache sc
    → Inserted sc.bss_cs_cache sc.bss_cs_cache_next b cs
        (set sc.bss_cs_cache sc.bss_cs_cache_next (slot b cs))
    → Added sc b cs (record sc {
      bss_cs_cache = set sc.bss_cs_cache sc.bss_cs_cache_next (slot b cs);
      bss_cs_cache_next = (sc.bss_cs_cache_next + 1) % 32;
    })
set-Added sc b cs k r = record {
  cache = record {
    size = length-set sc.bss_cs_cache sc.bss_cs_cache_next (slot b cs) ∙ k.size;
    head = omega arith;
    unique = λ c. still_unique sc b cs c k r;
  };
  found = r.found;
  others = λ c o e. r.others c o e;
}

-- On a cache with its 32 slots, its head among them and no BSSID in two of them, adding a chanspec
-- other than 0 keeps these three; the chanspec is then the one found for that BSSID, and for every
-- other BSSID, but for the one whose slot was at the head, what is found is as before.
pub cache_add-Added :
    (sc : Softc) (b cs : ℕ) → IsCache sc → cs ≢ 0 → Added sc b cs (cache_add sc b cs)
unfolding cache_add
cache_add-Added sc b cs k n =
    rw (zero_test) (settle (replace sc.bss_cs_cache b cs) (replace-Result sc.bss_cs_cache b cs n))
  where
    zero_test : (cs == 0) ≡ false
    zero_test = ground (arith, n)

    settle :
        (o : Option (List Slot))
        → Result sc.bss_cs_cache b cs o
        → Added sc b cs (elim o [
          | some slots ↦ record sc { bss_cs_cache = slots }
          | none ↦ record sc {
            bss_cs_cache = set sc.bss_cs_cache sc.bss_cs_cache_next (slot b cs);
            bss_cs_cache_next = (sc.bss_cs_cache_next + 1) % 32;
          }
        ])
    settle none r =
        set-Added sc b cs k
          (set-Inserted sc.bss_cs_cache sc.bss_cs_cache_next b cs n (rw k.size k.head) r)
    settle (some ss') r = replace-Added sc b cs ss' k r

-- A join of a BSSID after its chanspec was added uses that chanspec, whatever the channel number.
pub join_after_add :
    (sc : Softc) (b cs : ℕ) (chan : ℤ)
    → IsCache sc
    → cs ≢ 0
    → chanspec_for_join (cache_add sc b cs) b chan ≡ cs
unfolding chanspec_for_join
join_after_add sc b cs chan k n =
    let f = (cache_add-Added sc b cs k n).found in rw (f, zero_test) refl
  where
    zero_test : (cs == 0) ≡ false
    zero_test = ground (arith, n)
