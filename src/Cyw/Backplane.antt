-- ===== src/Cyw/Backplane.antt =====
-- cyw43455_sdio.c: the window into the chip's backplane, block writes, the scan of the EROM, the size of
-- the RAM, and the clock. What the chip reads and which SDIO commands fail is an argument.
pub mod Block
pub mod Erom
mod Tests
use free_bsd15_rpi5_modules.Base.{
  ℕ, zero, suc, ◌+◌, ◌-◌, ◌*◌, ◌/◌, ◌%◌, ◌^◌, Bool, true, false, not, ◌&&◌, ◌||◌, Option, none,
  some, ltb, leb, ◌==◌, if◌then◌else◌, u32, bit, etimedout, min,
}
use free_bsd15_rpi5_modules.Cyw.{Buf, fill}

-- SBSDIO_SB_OFT_ADDR_MASK + 1
abbrev pub window_size : ℕ
window_size = 0x8000

-- The chip and the bus: the three SBADDR registers, the memory behind the backplane, and the number of
-- the next SDIO command; and the softc's bp_window.
pub record Chip : Type 0 where
  pub low : ℕ
  pub mid : ℕ
  pub high : ℕ
  pub mem : Buf
  pub command : ℕ
  pub bp_window : ℕ

-- The window that the chip's registers select.
abbrev pub selected : Chip → ℕ
selected c = c.low * 2 ^ 8 + c.mid * 2 ^ 16 + c.high * 2 ^ 24

-- The command after, with what it answers.
abbrev pub issue : Chip → Chip
issue c = record c { command = c.command + 1 }

-- `fault n` is the error of the n-th command, 0 where it succeeds. A command that fails writes nothing.
module _ (fault : ℕ → ℕ) where
  abbrev error : Chip → ℕ
  error c = fault c.command

  abbrev store_high : ℕ → Chip → Chip × ℕ
  store_high new_win c =
      if error c == 0
      then (record (issue c) { high = new_win / 2 ^ 24 % 256; bp_window = new_win }, 0)
      else (issue c, error c)

  abbrev store_mid : ℕ → Chip → Chip × ℕ
  store_mid new_win c =
      if error c == 0
      then store_high new_win (record (issue c) { mid = new_win / 2 ^ 16 % 256 })
      else (issue c, error c)

  abbrev store_low : ℕ → Chip → Chip × ℕ
  store_low new_win c =
      if error c == 0
      then store_mid new_win (record (issue c) { low = new_win / 2 ^ 8 % 256 })
      else (issue c, error c)

  -- cyw_set_backplane_window
  unfoldable pub set_window : ℕ → Chip → Chip × ℕ
  set_window addr c =
      let new_win = addr / window_size * window_size in
      if new_win == c.bp_window then (c, 0) else store_low new_win c

  -- SDIO_WRITE_EXTENDED to F1, at an offset in the window that is selected.
  abbrev pub write_extended : ℕ → ℕ → Buf → Chip → Chip × ℕ
  write_extended off len buf c =
      if error c == 0
      then (record (issue c) { mem = fill c.mem (selected c + off) len buf }, 0)
      else (issue c, error c)

  -- The loop of cyw_bp_write_block, by rounds: a chunk has at least one byte.
  unfoldable pub write_chunks : ℕ → ℕ → Buf → ℕ → ℕ → Chip → Chip × ℕ
  write_chunks zero addr buf done total c = (c, 0)
  write_chunks (suc rounds) addr buf done total c =
      let f1_off = u32 (addr + done) % window_size in
      let chunk = min (total - done) (window_size - f1_off) in
      let (windowed, err) = set_window (u32 (addr + done)) c in
      let (written, err') = write_extended f1_off chunk (λ i. buf (done + i)) windowed in
      let rest = write_chunks rounds addr buf (done + chunk) total written in
      if ltb done total
      then (if err == 0 then (if err' == 0 then rest else (written, err')) else (windowed, err))
      else (c, 0)

  -- cyw_bp_write_block
  abbrev pub write_block : ℕ → Buf → ℕ → Chip → Chip × ℕ
  write_block addr buf total c = write_chunks total addr buf 0 total c

-- The EROM, as cyw_bp_read32 reads it: a word at each address, 0xffffffff where the read fails.
abbrev pub is_valid : ℕ → Bool
is_valid entry = bit entry 0

abbrev pub entry_type : ℕ → ℕ
entry_type entry = entry / 2 % 4 * 2

abbrev pub is_mport : ℕ → Bool
is_mport entry = is_valid entry && entry_type entry == 2

-- The inner loop, which has no limit of its own: on fuel, to the address behind the next master port.
unfoldable pub next_mport : ℕ → (ℕ → ℕ) → ℕ → Option ℕ
next_mport zero read addr = none
next_mport (suc fuel) read addr =
    let rest = next_mport fuel read (u32 (addr + 4)) in
    if is_mport (read addr) then some (u32 (addr + 4)) else rest

unfoldable pub skip_mports : ℕ → ℕ → (ℕ → ℕ) → ℕ → Option ℕ
skip_mports fuel zero read addr = some addr
skip_mports fuel (suc nmp) read addr = elim (next_mport fuel read addr) [
  | none ↦ none
  | some next ↦ skip_mports fuel nmp read next
]

-- A region's fields: its type, its port, whether a size word follows, and its base.
abbrev pub is_device : ℕ → Bool
is_device entry = entry / 2 ^ 6 % 4 == 0 && entry / 2 ^ 8 % 16 == 0

abbrev pub region_len : ℕ → ℕ
region_len entry = if entry / 2 ^ 4 % 4 == 3 then 8 else 4

abbrev pub region_base : ℕ → ℕ
region_base entry = entry / 2 ^ 12 * 2 ^ 12

abbrev pub is_sdiod : ℕ → Bool
is_sdiod entry = entry / 2 ^ 8 % 2 ^ 12 == 0x829

abbrev pub num_mports : ℕ → ℕ
num_mports coreb = coreb / 2 ^ 4 % 2 ^ 5

-- The outer loop, by entries left; the result is none when the fuel of an inner loop runs out, and 0 when
-- the core is not found.
unfoldable pub scan : ℕ → ℕ → (ℕ → ℕ) → ℕ → Bool → Option ℕ
scan fuel zero read addr in_sdiod = some 0
scan fuel (suc entries) read addr in_sdiod =
    let entry = read addr in
    let next = scan fuel entries read (u32 (addr + 4)) in_sdiod in
    if entry % 16 == 0xf
    then some 0
    else if not (is_valid entry)
    then next
    else if entry_type entry == 0
    then elim (skip_mports fuel (num_mports (read (u32 (addr + 4)))) read (u32 (addr + 8))) [
      | none ↦ none
      | some after ↦ scan fuel entries read after (is_sdiod entry)
    ]
    else if entry_type entry == 4
    then (let beyond = scan fuel entries read (u32 (addr + region_len entry)) in_sdiod in
        if in_sdiod && is_device entry then some (region_base entry) else beyond)
    else next

-- cyw_erom_find_sdio_core_base, from the pointer that ChipCommon gives.
unfoldable pub find_sdio_core_base : ℕ → (ℕ → ℕ) → ℕ → Option ℕ
find_sdio_core_base fuel read erom_base =
    if erom_base == 0 || erom_base == 0xffffffff then some 0 else scan fuel 512 read erom_base false

-- The size of a bank of the CR4's memory.
abbrev pub bank_size : ℕ → ℕ
bank_size bxinfo = (bxinfo % 2 ^ 7 + 1) * (if bit bxinfo 9 then 1024 else 8192)

-- The loop of cyw_cr4_ram_size, from a bank on.
abbrev pub add_banks : ℕ → ℕ → (ℕ → ℕ) → ℕ → ℕ
add_banks zero idx bxinfo memsize = memsize
add_banks (suc n) idx bxinfo memsize =
    add_banks n (idx + 1) bxinfo (u32 (memsize + bank_size (bxinfo idx)))

-- cyw_cr4_ram_size, of the core's capabilities and each bank's information.
unfoldable pub cr4_ram_size : ℕ → (ℕ → ℕ) → ℕ
cr4_ram_size corecap bxinfo = add_banks (corecap % 16 + corecap / 16 % 16) 0 bxinfo 0

-- The polling of cyw_sdio_enable_clock, by retries: each read has a value and an error.
abbrev pub wait_alp : ℕ → (ℕ → ℕ × ℕ) → ℕ → ℕ
wait_alp zero csr i = etimedout
wait_alp (suc retries) csr i =
    let rest = wait_alp retries csr (i + 1) in
    if not ((csr i).1 == 0) then (csr i).1 else (if bit (csr i).0 6 then 0 else rest)

-- cyw_sdio_enable_clock, with the error of its write.
unfoldable pub enable_clock : ℕ → (ℕ → ℕ × ℕ) → ℕ
enable_clock err csr = if not (err == 0) then err else wait_alp 50 csr 0

-- cyw_sdio_f2_ready: 500 reads, an error being the same as not ready.
abbrev pub wait_f2 : ℕ → (ℕ → ℕ × ℕ) → ℕ → ℕ
wait_f2 zero iordy i = etimedout
wait_f2 (suc retries) iordy i =
    let rest = wait_f2 retries iordy (i + 1) in
    if (iordy i).1 == 0 && bit (iordy i).0 2 then 0 else rest

unfoldable pub f2_ready : (ℕ → ℕ × ℕ) → ℕ
f2_ready iordy = wait_f2 500 iordy 0
