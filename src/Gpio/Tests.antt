-- ===== src/Gpio/Tests.antt =====
-- Pins 4 and 30 driven and configured, and the names of a property of three strings.
use free_bsd15_rpi5_modules.Base.{ℕ, ◌≡◌, refl, inr, true, List, [], ◌∷◌, arith}
use free_bsd15_rpi5_modules.Gpio.{Softc, pin_setflags, pin_getflags, value, pin_output}
use free_bsd15_rpi5_modules.Gpio.Pins.{Configured, pin_setflags-Configured}

abbrev board : Softc
board = record {
  io = λ i. 0x1f;
  rio = λ i. 0;
  pads = λ i. 0;
  npins = 54;
  gp_flags = λ i. 0;
  gp_caps = λ i. 0;
  gp_name = λ i. [];
}

pin_setflags-Configured_example :
    ((pin_setflags 4 2 board).1 ≡ 0)
    × Configured board 4 true (pin_setflags 4 2 board).0
    × ((pin_getflags 4 (pin_setflags 4 2 board).0).1 ≡ value pin_output)
pin_setflags-Configured_example = pin_setflags-Configured 4 2 board refl (omega arith) (inr refl)

-- "A", "-" and "BC".
abbrev strings : List (List ℕ)
strings = (65 ∷ []) ∷ (45 ∷ []) ∷ (66 ∷ 67 ∷ []) ∷ []
