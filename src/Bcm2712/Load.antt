-- ===== src/Bcm2712/Load.antt =====
-- bcm2712_modevent: mapping the windows, starting the PWM1 clock, and routing GPIO45 to it.
-- pmap_mapdev_attr is a parameter: what it returns for each window, `none` for NULL.
use free_bsd15_rpi5_modules.Base.{
  ◌⊎◌, inl, inr, ◌≤◌, ℕ, ◌+◌, ◌-◌, ◌*◌, ◌/◌, ◌%◌, ◌≡◌, ◌≢◌, refl, true, false, Option, none, some,
  arith, ltb, if◌then◌else◌, Regs, update, enxio, eopnotsupp,
}
use free_bsd15_rpi5_modules.Bcm2712.{Softc, PwmChannel}

-- The four mappings of MOD_LOAD: the AVS monitor, PWM1, the clock controller, the GPIO bank.
pub record Maps : Type 0 where
  pub avs : Option Regs
  pub pwm : Option Regs
  pub clk : Option Regs
  pub gpio : Option Regs

-- The module's global, the error, and the two windows that MOD_LOAD maps, writes and unmaps.
pub record Loaded : Type 0 where
  pub softc : Option Softc
  pub error : ℕ
  pub clk : Option Regs
  pub gpio : Option Regs

abbrev pub clk_pwm1_ctrl : ℕ
clk_pwm1_ctrl = 0x84 / 4

abbrev pub clk_pwm1_div_int : ℕ
clk_pwm1_div_int = 0x88 / 4

abbrev pub clk_pwm1_div_frac : ℕ
clk_pwm1_div_frac = 0x8C / 4

-- The source without ENABLE, both divisors, then ENABLE.
unfoldable pub clk_setup : Regs → Regs
clk_setup r =
    let r1 = update r clk_pwm1_ctrl 0x40 in
    let r2 = update r1 clk_pwm1_div_int 8 in
    let r3 = update r2 clk_pwm1_div_frac 0x23550000 in update r3 clk_pwm1_ctrl 0x840

-- RP1_GPIO_CTRL_OFFSET, in bytes.
unfoldable pub gpio_ctrl_offset : ℕ → ℕ
gpio_ctrl_offset pin =
    (if ltb pin 28 then 0 else if ltb pin 34 then 0x4000 else 0x8000)
    + (if ltb pin 28 then pin else if ltb pin 34 then pin - 28 else pin - 34) * 8
    + 4

abbrev pub gpio_fan_pin : ℕ
gpio_fan_pin = 45

-- FUNCSEL, the low five bits, becomes ALT0, which is 0.
unfoldable pub gpio_mux : Regs → Regs
unfolding gpio_ctrl_offset
gpio_mux r =
    let reg = gpio_ctrl_offset gpio_fan_pin in
    let ctrl_val = r reg in update r reg (ctrl_val / 32 * 32 + 0)

abbrev pub idle_channel : PwmChannel
idle_channel = record { period = 41566; duty_a = 0; duty_b = 0; flags = 0; enabled = false }

abbrev pub fresh_softc : Regs → Regs → Softc
fresh_softc avs pwm = record {
  avs_vaddr = true;
  avs_mapped = true;
  avs_regs = avs;
  pwm_vaddr = true;
  pwm_mapped = true;
  pwm_regs = pwm;
  channels = λ i. idle_channel;
  cached_temp_mc = 50000;
  last_update = 0;
}

abbrev apply : (Regs → Regs) → Option Regs → Option Regs
apply f none = none
apply f (some r) = some (f r)

-- MOD_LOAD with the module's global as it was. A window that cannot be mapped is an error for the
-- AVS monitor and PWM1, and a warning for the other two.
unfoldable pub load : Option Softc → Maps → Loaded
unfolding clk_setup gpio_mux
load g m = elim m.avs [
  | none ↦ record { softc = g; error = enxio; clk = m.clk; gpio = m.gpio }
  | some avs ↦ elim m.pwm [
    | none ↦ record { softc = g; error = enxio; clk = m.clk; gpio = m.gpio }
    | some pwm ↦ record {
      softc = some (fresh_softc avs pwm);
      error = 0;
      clk = apply clk_setup m.clk;
      gpio = apply gpio_mux m.gpio;
    }
  ]
]

pub data Event : Type 0 where
  mod_load mod_unload mod_other : Event

-- bcm2712_modevent. MOD_UNLOAD drops the global, and succeeds also where there is none.
unfoldable pub modevent : Option Softc → Event → Maps → Loaded
unfolding load
modevent g mod_load m = load g m
modevent g mod_unload m = record { softc = none; error = 0; clk = m.clk; gpio = m.gpio }
modevent g mod_other m = record { softc = g; error = eopnotsupp; clk = m.clk; gpio = m.gpio }

-- Both windows are mapped, the cache is in range, and every channel is off.
pub record IsReady (avs pwm : Option Regs) (sc : Softc) : Type 0 where
  pub avs_is : avs ≡ some sc.avs_regs
  pub pwm_is : pwm ≡ some sc.pwm_regs
  pub avs_on : sc.avs_mapped ≡ true
  pub pwm_on : sc.pwm_mapped ≡ true
  pub in_range : sc.cached_temp_mc ≤ 120000
  pub channels_off : (c : ℕ) → (sc.channels c).enabled ≡ false

-- Loading either leaves a ready global with no error and the clock and the pin set up, or fails with
-- ENXIO, one of the two required windows not being mapped, and changes nothing.
pub load_outcome :
    (g : Option Softc) (avs pwm clk gpio : Option Regs)
    → let done = load g (record { avs = avs; pwm = pwm; clk = clk; gpio = gpio }) in
      ((sc : Softc) × (done ≡ record {
        softc = some sc;
        error = 0;
        clk = apply clk_setup clk;
        gpio = apply gpio_mux gpio;
      })
        × IsReady avs pwm sc)
      ⊎ ((done ≡ record { softc = g; error = enxio; clk = clk; gpio = gpio })
          × ((avs ≡ none) ⊎ (pwm ≡ none)))
unfolding load
load_outcome g none pwm clk gpio = inr (refl, inl refl)
load_outcome g (some a) none clk gpio = inr (refl, inr refl)
load_outcome g (some a) (some p) clk gpio = inl (
  fresh_softc a p,
  refl,
  record {
    avs_is = refl;
    pwm_is = refl;
    avs_on = refl;
    pwm_on = refl;
    in_range = omega arith;
    channels_off = λ c. refl;
  },
)

-- The clock ends with its source selected and enabled and both divisors loaded, and the fan pin with
-- function ALT0 and all its other control bits; no other register of either window changes.
pub routes_fan :
    (clk gpio : Regs) (r : ℕ)
    → r ≢ clk_pwm1_ctrl
    → r ≢ clk_pwm1_div_int
    → r ≢ clk_pwm1_div_frac
    → r ≢ gpio_ctrl_offset gpio_fan_pin
    → (clk_setup clk clk_pwm1_ctrl ≡ 0x840)
      × (clk_setup clk clk_pwm1_div_int ≡ 8)
      × (clk_setup clk clk_pwm1_div_frac ≡ 0x23550000)
      × (clk_setup clk r ≡ clk r)
      × (gpio_mux gpio (gpio_ctrl_offset gpio_fan_pin) % 32 ≡ 0)
      × (gpio_mux gpio (gpio_ctrl_offset gpio_fan_pin) / 32
          ≡ gpio (gpio_ctrl_offset gpio_fan_pin) / 32)
      × (gpio_mux gpio r ≡ gpio r)
unfolding clk_setup gpio_mux
routes_fan clk gpio r a b c d = ground arith
