-- ===== src/Gpio/Levels.antt =====
-- rp1_gpio.c: the registers of a pin, through their aliases too, and the levels that rp1_gpio_pin_set and
-- rp1_gpio_pin_toggle drive.
use free_bsd15_rpi5_modules.Base.{
  ℕ, ◌∙◌, ◌+◌, ◌<◌, ◌≡◌, ◌≢◌, ◌⊎◌, inl, inr, refl, ap, Bool, true, false, not, arith, leb, ◌==◌,
  Bool-cases, bit, bit-set_self, bit-set_ne, bit-clear_self, bit-clear_ne, bit-toggle_self,
  bit-toggle_ne, update_self, update_ne,
}
use free_bsd15_rpi5_modules.Gpio.{
  Softc, Alias, rio_xor, rio_set, rio_clr, bank, pin_in_bank, bank_offset, rio_out, rio_oe,
  rio_read, rio_write, through, pin_set, pin_toggle,
}

-- The bit of a register of SYS_RIO that belongs to a pin.
abbrev pub pin_bit : Softc → ℕ → ℕ → Bool
pin_bit sc reg pin = bit (rio_read sc (bank pin) reg) (pin_in_bank pin)

-- Two pins are in different banks or at different places of one.
apart :
    (p q : ℕ) → p ≢ q → (bank p ≢ bank q) ⊎ ((bank p ≡ bank q) × (pin_in_bank p ≢ pin_in_bank q))
apart p q n = elim (Bool-cases (bank p == bank q)) [
  | inr e ↦ inl (λ z. ground (arith, e, z))
  | inl e ↦ inr (ground (arith, e), λ z. n (ground (arith, e, z)))
]

through_self :
    (a : Alias) (k x : ℕ)
    → bit (through a k x) k ≡ elim a [ rio_xor ↦ not (bit x k) | rio_set ↦ true | rio_clr ↦ false ]
through_self rio_xor k x = bit-toggle_self x k
through_self rio_set k x = bit-set_self x k
through_self rio_clr k x = bit-clear_self x k

through_ne : (a : Alias) (j k x : ℕ) → j ≢ k → bit (through a j x) k ≡ bit x k
through_ne rio_xor j k x n = bit-toggle_ne x j k n
through_ne rio_set j k x n = bit-set_ne x j k n
through_ne rio_clr j k x n = bit-clear_ne x j k n

-- A write of a pin's bit leaves every other pin's bit of that register.
pub write_other :
    (a : Alias) (reg p q : ℕ) (sc : Softc)
    → p ≢ q
    → reg < 0x4000
    → pin_bit (rio_write (bank p) a reg (pin_in_bank p) sc) reg q ≡ pin_bit sc reg q
write_other a reg p q sc n l = elim (apart p q n) [
  | inl b ↦
      ap (λ x. bit x (pin_in_bank q))
        (update_ne sc.rio (bank_offset (bank p) + reg) _ (bank_offset (bank q) + reg)
          (λ z. b (omega (arith, z))))
  | inr (b, i) ↦
      ap (λ x. bit x (pin_in_bank q))
        (update_self sc.rio (bank_offset (bank p) + reg) _ (bank_offset (bank q) + reg)
          (omega (arith, b)))
      ∙ through_ne a (pin_in_bank p) (pin_in_bank q) _ i
      ∙ ap (λ c. bit (sc.rio (bank_offset c + reg)) (pin_in_bank q)) b
]

-- It leaves the other registers.
pub write_reg :
    (a : Alias) (reg reg' p q : ℕ) (sc : Softc)
    → reg ≢ reg'
    → reg < 0x4000
    → reg' < 0x4000
    → pin_bit (rio_write (bank p) a reg (pin_in_bank p) sc) reg' q ≡ pin_bit sc reg' q
write_reg a reg reg' p q sc n l l' =
    ap (λ x. bit x (pin_in_bank q))
      (update_ne sc.rio (bank_offset (bank p) + reg) _ (bank_offset (bank q) + reg')
        (λ z. n (omega (arith, z, l, l'))))

pub write_self :
    (a : Alias) (reg p : ℕ) (sc : Softc)
    → pin_bit (rio_write (bank p) a reg (pin_in_bank p) sc) reg p
      ≡ elim a [ rio_xor ↦ not (pin_bit sc reg p) | rio_set ↦ true | rio_clr ↦ false ]
write_self a reg p sc =
    ap (λ x. bit x (pin_in_bank p))
      (update_self sc.rio (bank_offset (bank p) + reg) _ (bank_offset (bank p) + reg) refl)
    ∙ through_self a (pin_in_bank p) (sc.rio (bank_offset (bank p) + reg))

-- The output level of one pin is changed to what is told, and nothing else: no other pin's level, no
-- direction, no CTRL word and no pad.
pub record Driven (sc : Softc) (pin : ℕ) (level : Bool) (out : Softc × ℕ) : Type 0 where
  pub returns : out.1 ≡ 0
  pub driven : pin_bit out.0 rio_out pin ≡ level
  pub others : (q : ℕ) → pin ≢ q → pin_bit out.0 rio_out q ≡ pin_bit sc rio_out q
  pub directions : (q : ℕ) → pin_bit out.0 rio_oe q ≡ pin_bit sc rio_oe q
  pub ctrls : out.0.io ≡ sc.io
  pub pads : out.0.pads ≡ sc.pads

drive-Driven :
    (a : Alias) (pin : ℕ) (sc : Softc)
    → Driven sc pin
        (elim a [ rio_xor ↦ not (pin_bit sc rio_out pin) | rio_set ↦ true | rio_clr ↦ false ])
        (rio_write (bank pin) a rio_out (pin_in_bank pin) sc, 0)
drive-Driven a pin sc = record {
  returns = refl;
  driven = write_self a rio_out pin sc;
  others = λ q n. write_other a rio_out pin q sc n (omega arith);
  directions =
      λ q. write_reg a rio_out rio_oe pin q sc (λ z. omega (arith, z)) (omega arith) (omega arith);
  ctrls = refl;
  pads = refl;
}

-- rp1_gpio_pin_set and rp1_gpio_pin_toggle on a pin that there is: the first drives its level high unless
-- the value is 0, the second to the opposite; no other pin is touched.
pin_set-Driven :
    (pin val : ℕ) (sc : Softc)
    → pin < sc.npins
    → Driven sc pin (not (val == 0)) (pin_set pin val sc)
      × Driven sc pin (not (pin_bit sc rio_out pin)) (pin_toggle pin sc)
unfolding pin_set pin_toggle
pin_set-Driven pin val sc l =
    let there : leb sc.npins pin ≡ false = ground (arith, l) in
    elim (Bool-cases (val == 0)) [
      | inl e ↦ rw (there, e) (drive-Driven rio_clr pin sc, drive-Driven rio_xor pin sc)
      | inr e ↦ rw (there, e) (drive-Driven rio_set pin sc, drive-Driven rio_xor pin sc)
    ]
