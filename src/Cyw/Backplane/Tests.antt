-- ===== src/Cyw/Backplane/Tests.antt =====
-- A block that crosses a window, a window left half set, and an EROM whose reads fail.
use free_bsd15_rpi5_modules.Base.{ℕ, ◌≡◌, ◌≢◌, refl, none, arith, ◌==◌, if◌then◌else◌}
use free_bsd15_rpi5_modules.Cyw.{fill}
use free_bsd15_rpi5_modules.Cyw.Backplane.{
  Chip, selected, set_window, write_block, find_sdio_core_base,
}
use free_bsd15_rpi5_modules.Cyw.Backplane.Block.{Coherent, write_block-exact, stale_window}
use free_bsd15_rpi5_modules.Cyw.Backplane.Erom.{failed_reads_hang}

-- The window at 0x18000000.
abbrev chip : Chip
chip = record { low = 0; mid = 0; high = 0x18; mem = λ i. 0; command = 0; bp_window = 0x18000000 }

chip-Coherent : Coherent chip
chip-Coherent = record { same = refl; aligned = refl }

write_block-exact_example :
    ((write_block (λ n. 0) 0x1fffe (λ i. i) 4 chip).1 ≡ 0)
    × Coherent (write_block (λ n. 0) 0x1fffe (λ i. i) 4 chip).0
    × ((i : ℕ)
        → (write_block (λ n. 0) 0x1fffe (λ i. i) 4 chip).0.mem i
          ≡ fill (λ i. 0) 0x1fffe 4 (λ i. i) i)
write_block-exact_example =
    write_block-exact (λ n. 0) 0x1fffe (λ i. i) 4 chip (λ n. refl) chip-Coherent (omega arith)

-- The second command fails.
abbrev second_fails : ℕ → ℕ
second_fails n = if n == 1 then 5 else 0

stale_window_example :
    ((set_window second_fails 0x18108000 chip).1 ≡ 5)
    × (set_window second_fails 0x18000000 (set_window second_fails 0x18108000 chip).0
        ≡ ((set_window second_fails 0x18108000 chip).0, 0))
    × (selected (set_window second_fails 0x18108000 chip).0 ≢ 0x18000000)
stale_window_example =
    stale_window second_fails 0x18108000 0x18000000 chip chip-Coherent refl (λ e. omega (arith, e))
      refl (λ e. omega (arith, e))

-- A core entry, its second word with one master port, and failing reads.
abbrev erom : ℕ → ℕ
erom i = if i == 0x1000 then 0x82901 else (if i == 0x1004 then 0x11 else 0xffffffff)

failed_reads_hang_example : find_sdio_core_base 100000 erom 0x1000 ≡ none
failed_reads_hang_example =
    failed_reads_hang 100000 0x1000 erom (omega arith) (omega arith) refl (λ e. omega (arith, e))
      refl (omega arith) refl (λ i e f. ground (arith, e, f))
