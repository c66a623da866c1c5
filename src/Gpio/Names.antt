-- ===== src/Gpio/Names.antt =====
-- The names of the pins, from the strings of gpio-line-names.
use free_bsd15_rpi5_modules.Base.{
  ℕ, ◌≢◌, Option, none, some, List, [], ◌∷◌, ◌++◌, if◌then◌else◌, take,
}
use free_bsd15_rpi5_modules.Gpio.{unnamed, pin_name}

-- A string without a NUL.
abbrev pub IsString : List ℕ → Type 0
IsString [] = Unit {0}
IsString (c ∷ cs) = (c ≢ 0) × IsString cs

abbrev pub AllStrings : List (List ℕ) → Type 0
AllStrings [] = Unit {0}
AllStrings (s ∷ ss) = IsString s × AllStrings ss

-- The property that lists these strings: each with its NUL.
abbrev pub property : List (List ℕ) → List ℕ
property [] = []
property (s ∷ ss) = s ++ (0 ∷ property ss)

-- What a string names a pin: itself, cut to 63 bytes, or its number when it is empty or "-".
abbrev pub name_of : Option (List ℕ) → ℕ → List ℕ
name_of none pin = pin_name pin
name_of (some s) pin = if unnamed s then pin_name pin else take 63 s
