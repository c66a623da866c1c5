-- ===== src/Gpio/Pins.antt =====
-- rp1_gpio.c: what rp1_gpio_pin_setflags leaves and rp1_gpio_pin_getflags answers, and the methods beyond
-- the last pin.
use free_bsd15_rpi5_modules.Base.{
  ℕ, ◌∙◌, ◌≤◌, ◌<◌, ◌≡◌, ◌≢◌, ◌⊎◌, inl, inr, refl, ap, sym, Bool, true, false, not, ◌&&◌, ◌||◌, [],
  ◌∷◌, arith, leb, if◌then◌else◌, bit, bit-set_self, clear_bits, lists, bit-set_bits,
  bit-clear_bits, update, update_self, update_ne, einval,
}
use mathlib.Core.Path.{subst}
use free_bsd15_rpi5_modules.Gpio.{
  Softc, rio_xor, rio_set, rio_clr, rio_out, rio_oe, ctrl_off, pad_off, value, error, pin_getcaps,
  pin_getflags, pin_setflags, pin_get, pin_set, pin_toggle, direction, pin_output, pin_input,
  configure, gpio_ctrl, io_read, pad_read, is_gpio, kept_flags, num_gpios,
}
use free_bsd15_rpi5_modules.Gpio.Levels.{pin_bit, write_other, write_reg, write_self}

low_five :
    (x : ℕ)
    → bit x 0 ≡ true
    → bit x 1 ≡ false
    → bit x 2 ≡ true
    → bit x 3 ≡ false
    → bit x 4 ≡ false
    → is_gpio x ≡ true
low_five x a b c d e = ground arith

-- A bit of the CTRL word that is written.
ctrl_bit :
    (ctrl k : ℕ)
    → bit (gpio_ctrl ctrl) k ≡ (
        lists (0 ∷ 2 ∷ []) k
        || (not (lists (0 ∷ 1 ∷ 2 ∷ 3 ∷ 4 ∷ 12 ∷ 13 ∷ 14 ∷ 15 ∷ []) k) && bit ctrl k))
ctrl_bit ctrl k =
    bit-set_bits (0 ∷ 2 ∷ []) (clear_bits (0 ∷ 1 ∷ 2 ∷ 3 ∷ 4 ∷ 12 ∷ 13 ∷ 14 ∷ 15 ∷ []) ctrl) k
    ∙ ap (λ b. lists (0 ∷ 2 ∷ []) k || b)
        (bit-clear_bits (0 ∷ 1 ∷ 2 ∷ 3 ∷ 4 ∷ 12 ∷ 13 ∷ 14 ∷ 15 ∷ []) ctrl k)

gpio_selected : (ctrl : ℕ) → is_gpio (gpio_ctrl ctrl) ≡ true
gpio_selected ctrl =
    low_five (gpio_ctrl ctrl) (ctrl_bit ctrl 0) (ctrl_bit ctrl 1) (ctrl_bit ctrl 2)
      (ctrl_bit ctrl 3) (ctrl_bit ctrl 4)

-- A pin is a software GPIO with a direction, and nothing of the other pins has changed.
pub record Configured (sc : Softc) (pin : ℕ) (output : Bool) (out : Softc) : Type 0 where
  pub selected : is_gpio (io_read out pin) ≡ true
  pub plain : (k : ℕ) → (11 < k) → k < 16 → bit (io_read out pin) k ≡ false
  pub directed : pin_bit out rio_oe pin ≡ output
  pub readable : bit (pad_read out pin) 0 ≡ true
  pub ctrls : (q : ℕ) → q < 54 → pin ≢ q → io_read out q ≡ io_read sc q
  pub directions : (q : ℕ) → pin ≢ q → pin_bit out rio_oe q ≡ pin_bit sc rio_oe q
  pub pads : (q : ℕ) → q < 54 → pin ≢ q → pad_read out q ≡ pad_read sc q
  pub levels : (q : ℕ) → pin_bit out rio_out q ≡ pin_bit sc rio_out q

ctrl_apart : (p q : ℕ) → p < 54 → q < 54 → p ≢ q → ctrl_off p ≢ ctrl_off q
ctrl_apart p q l m n z = ground (arith, l, m, n, z)

pad_apart : (p q : ℕ) → p < 54 → q < 54 → p ≢ q → pad_off p ≢ pad_off q
pad_apart p q l m n z = ground (arith, l, m, n, z)

configure-Configured :
    (pin : ℕ) (output : Bool) (sc : Softc)
    → pin < 54
    → Configured sc pin output (configure pin output sc)
configure-Configured pin output sc l =
    let word = update_self sc.io (ctrl_off pin) (gpio_ctrl (io_read sc pin)) (ctrl_off pin) refl in
    let alias = if output then rio_set else rio_clr in
    record {
      selected = ap is_gpio word ∙ gpio_selected (io_read sc pin);
      plain = λ k a b.
          ap (λ w. bit w k) word ∙ ctrl_bit (io_read sc pin) k ∙ over k a b (io_read sc pin);
      directed = write_self alias rio_oe pin sc ∙ set_to output;
      readable =
          ap (λ w. bit w 0) (update_self sc.pads (pad_off pin) _ (pad_off pin) refl)
          ∙ bit-set_self (pad_read sc pin) 0;
      ctrls = λ q m n.
          update_ne sc.io (ctrl_off pin) _ (ctrl_off q) (λ z. ctrl_apart pin q l m n (sym z));
      directions = λ q n. write_other alias rio_oe pin q sc n (omega arith);
      pads = λ q m n.
          update_ne sc.pads (pad_off pin) _ (pad_off q) (λ z. pad_apart pin q l m n (sym z));
      levels = λ q.
          write_reg alias rio_oe rio_out pin q sc (λ z. omega (arith, z)) (omega arith)
            (omega arith);
    }
  where
    set_to :
        (b : Bool)
        → elim (if b then rio_set else rio_clr) [
          | rio_xor ↦ not (pin_bit sc rio_oe pin)
          | rio_set ↦ true
          | rio_clr ↦ false
        ]
          ≡ b
    set_to true = refl
    set_to false = refl

    over :
        (k : ℕ)
        → 11 < k
        → k < 16
        → (x : ℕ)
        → (lists (0 ∷ 2 ∷ []) k
            || (not (lists (0 ∷ 1 ∷ 2 ∷ 3 ∷ 4 ∷ 12 ∷ 13 ∷ 14 ∷ 15 ∷ []) k) && bit x k))
          ≡ false
    over k a b x = ground (arith, a, b)

-- What the direction of a configured pin reads as.
direction-Configured :
    (sc out : Softc) (pin : ℕ) (output : Bool)
    → Configured sc pin output out
    → direction out pin ≡ (if output then pin_output else pin_input)
direction-Configured sc out pin output c = simp (c.selected, c.directed) refl

-- rp1_gpio_pin_setflags on a pin that there is, told INPUT or OUTPUT: it returns 0; the pin is a software
-- GPIO without overrides, an output just when OUTPUT is told, and can be read; the CTRL words, the
-- directions and the pads of the other pins, and all levels, are as before; and rp1_gpio_pin_getflags
-- then answers OUTPUT or INPUT as told.
pub pin_setflags-Configured :
    (pin flags : ℕ) (sc : Softc)
    → sc.npins ≡ num_gpios
    → pin < num_gpios
    → (bit flags 0 ≡ true) ⊎ (bit flags 1 ≡ true)
    → ((pin_setflags pin flags sc).1 ≡ 0)
      × Configured sc pin (bit flags 1) (pin_setflags pin flags sc).0
      × ((pin_getflags pin (pin_setflags pin flags sc).0).1
          ≡ value (if bit flags 1 then pin_output else pin_input))
unfolding pin_setflags pin_getflags
pin_setflags-Configured pin flags sc all l told =
    let there : leb sc.npins pin ≡ false = ground (arith, l, all) in
    let asked : (not (bit flags 0) && not (bit flags 1)) ≡ false = elim told [
      | inl a ↦ ground (arith, a)
      | inr a ↦ ground (arith, a)
    ] in
    let c = configure-Configured pin (bit flags 1) sc l in
    let done = configure pin (bit flags 1) sc in
    let kept : Softc = record done { gp_flags = update done.gp_flags pin (kept_flags flags) } in
    let k : Configured sc pin (bit flags 1) kept = record {
      selected = c.selected;
      plain = c.plain;
      directed = c.directed;
      readable = c.readable;
      ctrls = c.ctrls;
      directions = c.directions;
      pads = c.pads;
      levels = c.levels;
    } in
    let result : pin_setflags pin flags sc ≡ (kept, 0) = rw (there, asked) refl in
    subst
      (λ (out : Softc × ℕ).
        (out.1 ≡ 0)
        × Configured sc pin (bit flags 1) out.0
        × ((pin_getflags pin out.0).1 ≡ value (if bit flags 1 then pin_output else pin_input)))
      (sym result) (refl, k, rw there (ap value (direction-Configured sc kept pin (bit flags 1) k)))

-- Every method on a pin beyond the last one returns EINVAL, and those that write leave the registers and
-- the flags alone.
beyond_refused :
    (pin val flags : ℕ) (sc : Softc)
    → sc.npins ≤ pin
    → (pin_getcaps pin sc ≡ error einval)
      × (pin_getflags pin sc ≡ (sc, error einval))
      × (pin_setflags pin flags sc ≡ (sc, einval))
      × (pin_get pin sc ≡ error einval)
      × (pin_set pin val sc ≡ (sc, einval))
      × (pin_toggle pin sc ≡ (sc, einval))
unfolding pin_getcaps pin_getflags pin_setflags pin_get pin_set pin_toggle
beyond_refused pin val flags sc l =
    let beyond : leb sc.npins pin ≡ true = ground (arith, l) in
    rw beyond (refl, refl, refl, refl, refl, refl)
