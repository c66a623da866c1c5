-- ===== src/Cyw/Events/Table.antt =====
-- The event mask that the driver subscribes with, and the handler table.
use free_bsd15_rpi5_modules.Base.{
  ℕ, zero, suc, ◌/◌, ◌%◌, ◌≤◌, ◌<◌, ◌≡◌, ◌≢◌, inl, inr, refl, Bool, true, false, not, ◌&&◌, ◌||◌,
  none, some, List, [], ◌∷◌, arith, ◌==◌, if◌then◌else◌, Bool-cases, ==_iff, bit, get_or, einval,
}
use free_bsd15_rpi5_modules.Cyw.{Softc, Handler}
use free_bsd15_rpi5_modules.Cyw.Events.{event_mask, subscribe, event_register, event_unregister}

abbrev pub listed : ℕ → List ℕ → Bool
listed c [] = false
listed c (x ∷ xs) = c == x || listed c xs

abbrev agree : Bool → Bool → Bool
agree a b = if a then b else not b

abbrev agree_below : ℕ → (ℕ → Bool) → (ℕ → Bool) → Bool
agree_below zero f g = true
agree_below (suc n) f g = agree (f n) (g n) && agree_below n f g

agree_below_lem : (n : ℕ) (f g : ℕ → Bool) → agree_below n f g ≡ true → (c : ℕ) → c < n → f c ≡ g c
agree_below_lem zero f g h c l = absurd (omega arith)
agree_below_lem (suc n) f g h c l = elim (Bool-cases (c == n)) [
  | inl e ↦ rw ((==_iff c n).0 e) (ground arith)
  | inr e ↦ agree_below_lem n f g (ground arith) c (ground arith)
]

-- For each code below 128, the bit of that code in the mask is set exactly if the code is one that
-- the driver subscribes to.
event_mask_lem : (c : ℕ) → c < 128 → bit (get_or event_mask (c / 8) 0) (c % 8) ≡ listed c subscribe
event_mask_lem =
    agree_below_lem 128 (λ c. bit (get_or event_mask (c / 8) 0) (c % 8)) (λ c. listed c subscribe)
      refl

-- A registration of a code below 128 puts the handler at that code alone, and taking it back clears
-- that code alone; of a code from 128 on it fails with EINVAL, and neither changes anything.
pub record Registered (sc : Softc) (code : ℕ) (h : Handler) : Type 0 where
  pub in_range :
      code < 128
      → ((event_register sc code h).0 ≡ 0)
        × ((event_register sc code h).1.event_handlers code ≡ some h)
        × ((event_unregister (event_register sc code h).1 code).event_handlers code ≡ none)
  pub others :
      (c : ℕ)
      → c ≢ code
      → ((event_register sc code h).1.event_handlers c ≡ sc.event_handlers c)
        × ((event_unregister sc code).event_handlers c ≡ sc.event_handlers c)
  pub refused :
      128 ≤ code → (event_register sc code h ≡ (einval, sc)) × (event_unregister sc code ≡ sc)

pub event_register-Registered : (sc : Softc) (code : ℕ) (h : Handler) → Registered sc code h
unfolding event_register event_unregister
event_register-Registered sc code h = record {
  in_range = λ l. (ground arith, ground arith, ground arith);
  others = λ c n. (ground arith, ground arith);
  refused = λ l. (ground arith, ground arith);
}
