-- ===== src/Gpio.antt =====
-- rp1_gpio.c, rp1_gpio_var.h: the pins of the RP1, over its three register windows.
pub mod Levels
pub mod Pins
pub mod Names
mod Tests
use free_bsd15_rpi5_modules.Base.{
  ℕ, zero, suc, ◌+◌, ◌-◌, ◌*◌, ◌/◌, ◌%◌, ◌^◌, Bool, true, false, not, ◌&&◌, ◌||◌, List, [], ◌∷◌,
  ◌++◌, ltb, leb, ◌==◌, if◌then◌else◌, bit, set_bit, clear_bit, toggle_bit, set_bits, clear_bits,
  Regs, update, einval, take,
}

abbrev pub num_gpios : ℕ
num_gpios = 54

-- RP1_GPIO_BANK
abbrev pub bank : ℕ → ℕ
bank pin = if ltb pin 28 then 0 else (if ltb pin 34 then 1 else 2)

-- RP1_GPIO_PIN_IN_BANK
abbrev pub pin_in_bank : ℕ → ℕ
pin_in_bank pin = if ltb pin 28 then pin else (if ltb pin 34 then pin - 28 else pin - 34)

-- RP1_BANK_OFFSET
abbrev pub bank_offset : ℕ → ℕ
bank_offset b = b * 0x4000

-- The CTRL word of a pin, within IO_BANK.
abbrev pub ctrl_off : ℕ → ℕ
ctrl_off pin = bank_offset (bank pin) + pin_in_bank pin * 8 + 4

-- RP1_PAD_OFF
abbrev pub pad_off : ℕ → ℕ
pad_off pin = bank_offset (bank pin) + (pin_in_bank pin + 1) * 4

-- The registers of SYS_RIO.
abbrev pub rio_out : ℕ
rio_out = 0x00

abbrev pub rio_oe : ℕ
rio_oe = 0x04

abbrev pub rio_in_sync : ℕ
rio_in_sync = 0x0c

-- The aliases that a write of SYS_RIO goes through.
pub data Alias : Type 0 where
  rio_xor rio_set rio_clr : Alias

-- `struct rp1_gpio_softc`: the three windows by byte offsets, SYS_RIO by its RW alias; of each pin the
-- flags, the capabilities and the name.
pub record Softc : Type 0 where
  pub io : Regs
  pub rio : Regs
  pub pads : Regs
  pub npins : ℕ
  pub gp_flags : ℕ → ℕ
  pub gp_caps : ℕ → ℕ
  pub gp_name : ℕ → List ℕ

-- rp1_io_read, rp1_io_write
abbrev pub io_read : Softc → ℕ → ℕ
io_read sc pin = sc.io (ctrl_off pin)

abbrev pub io_write : ℕ → ℕ → Softc → Softc
io_write pin val sc = record sc { io = update sc.io (ctrl_off pin) val }

-- rp1_rio_read
abbrev pub rio_read : Softc → ℕ → ℕ → ℕ
rio_read sc b reg = sc.rio (bank_offset b + reg)

-- What a write of `1 << k` through an alias does to the register, as the header's table says.
abbrev pub through : Alias → ℕ → ℕ → ℕ
through rio_xor k x = toggle_bit x k
through rio_set k x = set_bit x k
through rio_clr k x = clear_bit x k

-- rp1_rio_write, of `1 << k`.
abbrev pub rio_write : ℕ → Alias → ℕ → ℕ → Softc → Softc
rio_write b alias reg k sc =
    let off = bank_offset b + reg in
    record sc { rio = update sc.rio off (through alias k (sc.rio off)) }

-- rp1_pad_read, rp1_pad_write
abbrev pub pad_read : Softc → ℕ → ℕ
pad_read sc pin = sc.pads (pad_off pin)

abbrev pub pad_write : ℕ → ℕ → Softc → Softc
pad_write pin val sc = record sc { pads = update sc.pads (pad_off pin) val }

-- RP1_FSEL_GPIO is 5, in the low five bits of CTRL.
abbrev pub is_gpio : ℕ → Bool
is_gpio ctrl = ctrl % 2 ^ 5 == 5

-- GPIO_PIN_INPUT and GPIO_PIN_OUTPUT.
abbrev pub pin_input : ℕ
pin_input = 1

abbrev pub pin_output : ℕ
pin_output = 2

-- The direction that the registers tell.
abbrev pub direction : Softc → ℕ → ℕ
direction sc pin =
    if is_gpio (io_read sc pin)
    then (if bit (rio_read sc (bank pin) rio_oe) (pin_in_bank pin) then pin_output else pin_input)
    else 0

-- What a method answers: 0 and its result, or an error number.
pub data Answer : Type 0 where
  value : ℕ → Answer
  error : ℕ → Answer

-- rp1_gpio_pin_max
abbrev pub pin_max : ℕ
pin_max = num_gpios - 1

-- rp1_gpio_pin_getcaps
unfoldable pub pin_getcaps : ℕ → Softc → Answer
pin_getcaps pin sc = if leb sc.npins pin then error einval else value (sc.gp_caps pin)

-- rp1_gpio_pin_getflags
unfoldable pub pin_getflags : ℕ → Softc → Softc × Answer
pin_getflags pin sc =
    let flags = direction sc pin in
    if leb sc.npins pin
    then (sc, error einval)
    else (record sc { gp_flags = update sc.gp_flags pin flags }, value flags)

-- The flags that are kept: INPUT, OUTPUT, PULLUP and PULLDOWN are bits 0, 1, 5 and 6.
abbrev pub kept_flags : ℕ → ℕ
kept_flags flags = flags % 4 + flags / 2 ^ 5 % 4 * 2 ^ 5

-- CTRL with the function GPIO, and both overrides those of the peripheral.
abbrev pub gpio_ctrl : ℕ → ℕ
gpio_ctrl ctrl =
    set_bits (0 ∷ 2 ∷ []) (clear_bits (0 ∷ 1 ∷ 2 ∷ 3 ∷ 4 ∷ 12 ∷ 13 ∷ 14 ∷ 15 ∷ []) ctrl)

-- The three writes of rp1_gpio_pin_setflags: CTRL, the output enable, and the pad's input enable.
abbrev pub configure : ℕ → Bool → Softc → Softc
configure pin output sc =
    let selected = io_write pin (gpio_ctrl (io_read sc pin)) sc in
    let directed =
      rio_write (bank pin) (if output then rio_set else rio_clr) rio_oe (pin_in_bank pin)
        selected in
    pad_write pin (set_bit (pad_read directed pin) 0) directed

-- rp1_gpio_pin_setflags
unfoldable pub pin_setflags : ℕ → ℕ → Softc → Softc × ℕ
pin_setflags pin flags sc =
    let done = configure pin (bit flags 1) sc in
    if leb sc.npins pin
    then (sc, einval)
    else (if not (bit flags 0) && not (bit flags 1)
        then (sc, 0)
        else (record done { gp_flags = update done.gp_flags pin (kept_flags flags) }, 0))

-- rp1_gpio_pin_get
unfoldable pub pin_get : ℕ → Softc → Answer
pin_get pin sc =
    if leb sc.npins pin
    then error einval
    else value (rio_read sc (bank pin) rio_in_sync / 2 ^ pin_in_bank pin % 2)

-- rp1_gpio_pin_set
unfoldable pub pin_set : ℕ → ℕ → Softc → Softc × ℕ
pin_set pin val sc = if leb sc.npins pin then (sc, einval) else (
  rio_write (bank pin) (if val == 0 then rio_clr else rio_set) rio_out (pin_in_bank pin) sc,
  0,
)

-- rp1_gpio_pin_toggle
unfoldable pub pin_toggle : ℕ → Softc → Softc × ℕ
pin_toggle pin sc =
    if leb sc.npins pin
    then (sc, einval)
    else (rio_write (bank pin) rio_xor rio_out (pin_in_bank pin) sc, 0)

-- rp1_gpio_map_gpios: a specifier's two cells are the pin and the flags.
abbrev pub map_gpios : ℕ → ℕ → ℕ × ℕ
map_gpios cell0 cell1 = (cell0, cell1)

-- The pins' part of rp1_gpio_attach, by rounds: the capabilities, and the flags that the registers tell.
abbrev pub all_caps : ℕ
all_caps = 1 + 2 + 0x20 + 0x40 + 0x80 + 0x100

abbrev pub attach_pins : ℕ → Softc → Softc
attach_pins zero sc = sc
attach_pins (suc pin) sc =
    let before = attach_pins pin sc in
    record before {
      gp_caps = update before.gp_caps pin all_caps;
      gp_flags = update before.gp_flags pin (direction before pin);
    }

-- The name "pin%d".
abbrev pub pin_name : ℕ → List ℕ
pin_name pin =
    112
    ∷ 105
    ∷ 110
    ∷ (if ltb pin 10 then (48 + pin) ∷ [] else (48 + pin / 10) ∷ (48 + pin % 10) ∷ [])

-- A string of the property, up to its NUL, and what follows that.
abbrev pub string : List ℕ → List ℕ
string [] = []
string (c ∷ cs) = let rest = string cs in if c == 0 then [] else c ∷ rest

abbrev pub after_string : List ℕ → List ℕ
after_string [] = []
after_string (c ∷ cs) = let rest = after_string cs in if c == 0 then cs else rest

-- Whether a string names nothing: it is empty, or "-".
abbrev pub unnamed : List ℕ → Bool
unnamed [] = true
unnamed (c ∷ []) = c == 45
unnamed (c ∷ d ∷ cs) = false

-- rp1_gpio_parse_pin_names on the bytes of gpio-line-names, by rounds, from a pin on. A name has at most
-- 63 bytes. The property is a list of strings that each end in a NUL, as the device tree's are.
unfoldable pub parse_names : ℕ → ℕ → List ℕ → (ℕ → List ℕ) → ℕ → List ℕ
parse_names zero pin p names = names
parse_names (suc rounds) pin p names =
    let name = if unnamed (string p) then pin_name pin else take 63 (string p) in
    parse_names rounds (pin + 1) (after_string p) (update names pin name)

-- The pins of rp1_gpio_attach: npins, the names, then capabilities and flags.
unfoldable pub attach : List ℕ → Softc → Softc
attach line_names sc =
    attach_pins num_gpios
      (record sc { npins = num_gpios; gp_name = parse_names num_gpios 0 line_names sc.gp_name })
