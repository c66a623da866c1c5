-- ===== src/Rp1Pwm.antt =====
-- rp1_pwm_driver.c: the pwmbus provider for the RP1 PWM block. Every method holds `sc->mtx`, so a
-- call is one step; `regs` is the mapped register window, by byte offset.
pub mod Config
pub mod Invariant
mod Tests
use free_bsd15_rpi5_modules.Base.{
  ℕ, zero, suc, ◌+◌, ◌-◌, ◌*◌, ◌/◌, ◌%◌, ◌^◌, Bool, true, false, ◌&&◌, ◌||◌, Option, none, some,
  leb, ltb, ◌==◌, if◌then◌else◌, u32, bit, set_bit, clear_bit, Regs, update, einval, enxio,
}

pub record Channel : Type 0 where
  pub period : ℕ
  pub duty_a : ℕ
  pub duty_b : ℕ
  pub flags : ℕ
  pub enabled : Bool

pub record Softc : Type 0 where
  pub regs : Regs
  pub channels : ℕ → Channel
  pub cpu_temp : ℕ
  pub fan_state : ℕ
  pub fan_prev_state : ℕ

abbrev offset : ℕ → ℕ
offset ch = 0x000e0000 + 0x2800 * ch

abbrev pub csr : ℕ → ℕ
csr ch = offset ch + 0x00

abbrev pub div_reg : ℕ → ℕ
div_reg ch = offset ch + 0x04

abbrev pub top_reg : ℕ → ℕ
top_reg ch = offset ch + 0x08

abbrev pub ctra : ℕ → ℕ
ctra ch = offset ch + 0x10

abbrev pub ctrb : ℕ → ℕ
ctrb ch = offset ch + 0x14

-- `(clk_freq / div) * period / 1000000000ULL`: the product is one of uint32_t values, and wraps.
unfoldable pub top_at : ℕ → ℕ → ℕ
top_at period div = u32 (125000000 / div * period) / 1000000000

abbrev pub usable : ℕ → Bool
usable top = ltb 0 top && leb top 0xFFFF

-- `for (div = 1; div <= 256; div++)` with its break: what `div` and `top` are after the loop, from
-- the rounds that are left, the next `div`, and the `top` of the round before.
unfoldable pub search : ℕ → ℕ → ℕ → ℕ → ℕ × ℕ
search period zero div top = (div, top)
search period (suc rounds) div _ =
    let top = top_at period div in
    let rest = search period rounds (suc div) top in if usable top then (div, top) else rest

-- `cc = (duty * (top + 1)) / period`, at most `top`.
unfoldable pub compare_count : ℕ → ℕ → ℕ → ℕ
compare_count period duty top =
    let cc = u32 (duty * u32 (top + 1)) / period in if ltb top cc then top else cc

-- The register writes from the disabled CSR on, and the stored configuration.
pub commit : Softc → ℕ → ℕ → ℕ → ℕ → ℕ → Softc
commit sc channel period div top cc =
    let off = clear_bit (sc.regs (csr channel)) 0 in
    let r1 = update sc.regs (csr channel) off in
    let r2 = update r1 (top_reg channel) top in
    let r3 = update r2 (ctra channel) cc in
    let r4 = update r3 (ctrb channel) cc in
    let r5 = update r4 (div_reg channel) div in
    let on = if (sc.channels channel).enabled then set_bit off 0 else off in
    record sc {
      regs = update r5 (csr channel) on;
      channels =
          update sc.channels channel
            (record (sc.channels channel) { period = period; duty_a = cc });
    }

-- rp1_pwm_hw_config, which rp1_pwm_channel_config returns. `top` has no value before the loop, whose
-- first round sets it.
unfoldable pub channel_config : Softc → ℕ → ℕ → ℕ → Softc × ℕ
channel_config sc channel period duty =
    if leb 4 channel
    then (sc, einval)
    else if period == 0 || ltb period duty
    then (sc, einval)
    else let (div, top) = search period 256 1 0 in
      if ltb 0xFFFF top || top == 0
      then (sc, einval)
      else (commit sc channel period div top (compare_count period duty top), 0)

-- rp1_pwm_channel_count
abbrev pub channel_count : ℕ
channel_count = 4

-- rp1_pwm_channel_get_config
unfoldable pub channel_get_config : Softc → ℕ → Option (ℕ × ℕ) × ℕ
channel_get_config sc channel =
    if leb 4 channel
    then (none, einval)
    else (some ((sc.channels channel).period, (sc.channels channel).duty_a), 0)

-- rp1_pwm_channel_enable
unfoldable pub channel_enable : Softc → ℕ → Bool → Softc × ℕ
channel_enable sc channel enable =
    let word = sc.regs (csr channel) in
    if leb 4 channel then (sc, einval) else (
      record sc {
        regs = update sc.regs (csr channel) (if enable then set_bit word 0 else clear_bit word 0);
        channels = update sc.channels channel (record (sc.channels channel) { enabled = enable });
      },
      0,
    )

-- rp1_pwm_channel_is_enabled
unfoldable pub channel_is_enabled : Softc → ℕ → Option Bool × ℕ
channel_is_enabled sc channel =
    if leb 4 channel then (none, einval) else (some ((sc.channels channel).enabled), 0)

-- Channels 0 and 1 use NOINVERT_A (bit 1), 2 and 3 NOINVERT_B (bit 2); PWM_POLARITY_INVERTED, of
-- pwmbus, is bit 0 of the flags.
polarity : ℕ → ℕ → ℕ → ℕ
polarity channel flags word =
    if bit flags 0
    then if channel == 0 || channel == 1 then clear_bit word 1 else clear_bit word 2
    else if channel == 0 || channel == 1
    then set_bit word 1
    else set_bit word 2

-- rp1_pwm_channel_set_flags
unfoldable pub channel_set_flags : Softc → ℕ → ℕ → Softc × ℕ
unfolding polarity
channel_set_flags sc channel flags = if leb 4 channel then (sc, einval) else (
  record sc {
    regs = update sc.regs (csr channel) (polarity channel flags (sc.regs (csr channel)));
    channels = update sc.channels channel (record (sc.channels channel) { flags = flags });
  },
  0,
)

-- rp1_pwm_channel_get_flags
unfoldable pub channel_get_flags : Softc → ℕ → Option ℕ × ℕ
channel_get_flags sc channel =
    if leb 4 channel then (none, einval) else (some ((sc.channels channel).flags), 0)

-- rp1_pwm_attach, with what bus_alloc_resource_any and pwmbus_register_provider return: no softc
-- remains on an error. `duty_b` is that of a zeroed softc.
unfoldable pub attach : Option Regs → ℕ → Option Softc × ℕ
attach none error = (none, enxio)
attach (some regs) error =
    if error == 0
    then (
      some (record {
        regs = regs;
        channels =
            λ i. record { period = 41566; duty_a = 0; duty_b = 0; flags = 0; enabled = false };
        cpu_temp = 50000;
        fan_state = 0;
        fan_prev_state = 0;
      }),
      0,
    )
    else (none, error)
