-- ===== src/Cyw/Backplane/Erom.antt =====
-- The scan of the EROM: what it finds in a table, and the reads that keep it from ending; the size of the RAM.
use free_bsd15_rpi5_modules.Base.{
  ℕ, ◌∙◌, zero, suc, ◌+◌, ◌*◌, ◌/◌, ◌%◌, ◌≤◌, ◌<◌, ◌≡◌, ◌≢◌, refl, ap, Bool, true, false, ◌||◌,
  none, arith, ◌==◌, if_rule, u32, inl, inr, Bool-cases,
}
use free_bsd15_rpi5_modules.Cyw.Backplane.{
  is_valid, entry_type, is_mport, next_mport, skip_mports, num_mports, scan, find_sdio_core_base,
  bank_size, add_banks, cr4_ram_size,
}

-- No word is a master port's.
mport_missing :
    (fuel : ℕ) (read : ℕ → ℕ) (addr : ℕ)
    → ((i : ℕ) → is_mport (read i) ≡ false)
    → next_mport fuel read addr ≡ none
unfolding next_mport
mport_missing zero read addr h = refl
mport_missing (suc fuel) read addr h = rw (h addr) (mport_missing fuel read (u32 (addr + 4)) h)

stuck :
    (n fuel : ℕ) (read : ℕ → ℕ) (addr : ℕ)
    → 0 < n
    → next_mport fuel read addr ≡ none
    → skip_mports fuel n read addr ≡ none
unfolding skip_mports
stuck zero fuel read addr l m = absurd (omega (arith, l))
stuck (suc n) fuel read addr l m = rw (skip_mports, m) refl

scan_hangs :
    (fuel entries addr : ℕ) (read : ℕ → ℕ) (in_sdiod : Bool)
    → is_valid (read addr) ≡ true
    → read addr % 16 ≢ 0xf
    → entry_type (read addr) ≡ 0
    → skip_mports fuel (num_mports (read (u32 (addr + 4)))) read (u32 (addr + 8)) ≡ none
    → scan fuel (suc entries) read addr in_sdiod ≡ none
unfolding scan
scan_hangs fuel entries addr read in_sdiod valid not_end core hangs =
    let goes_on : (read addr % 16 == 0xf) ≡ false = ground (arith, not_end) in
    rw (goes_on, valid, core, hangs) refl

-- When the first entry is a core with a master port, its second word is not itself a master port's entry,
-- and the reads at all other addresses fail, which cyw_bp_read32 answers by 0xffffffff, the scan does not
-- end: no fuel is enough, though the 32-bit address wraps and comes back to the two words, and although
-- the outer loop is limited to 512 entries.
pub failed_reads_hang :
    (fuel erom_base : ℕ) (read : ℕ → ℕ)
    → 0 < erom_base
    → erom_base < 0xffffffff
    → is_valid (read erom_base) ≡ true
    → read erom_base % 16 ≢ 0xf
    → entry_type (read erom_base) ≡ 0
    → 0 < num_mports (read (u32 (erom_base + 4)))
    → is_mport (read (u32 (erom_base + 4))) ≡ false
    → ((i : ℕ) → i ≢ erom_base → i ≢ u32 (erom_base + 4) → read i ≡ 0xffffffff)
    → find_sdio_core_base fuel read erom_base ≡ none
unfolding find_sdio_core_base
failed_reads_hang fuel erom_base read pos below valid not_end core ports second fails =
    let missing = mport_missing fuel read (u32 (erom_base + 8)) no_mport in
    let hangs =
      stuck (num_mports (read (u32 (erom_base + 4)))) fuel read (u32 (erom_base + 8)) ports
        missing in
    if_rule (λ out. out ≡ none) (erom_base == 0 || erom_base == 0xffffffff) _ _
      (λ e. absurd (ground (arith, e, pos, below)))
      (λ e. scan_hangs fuel 511 erom_base read false valid not_end core hangs)
  where
    no_mport : (i : ℕ) → is_mport (read i) ≡ false
    no_mport i = elim (Bool-cases (i == erom_base)) [
      | inl e ↦
          let at : i ≡ erom_base = ground (arith, e) in
          ap (λ j. is_mport (read j)) at ∙ rw (valid, core) refl
      | inr e ↦ elim (Bool-cases (i == u32 (erom_base + 4))) [
        | inl f ↦
            let at : i ≡ u32 (erom_base + 4) = ground (arith, f) in
            ap (λ j. is_mport (read j)) at ∙ second
        | inr f ↦ ap is_mport (fails i (ground (arith, e)) (ground (arith, f)))
      ]
    ]

-- The sum of the banks' sizes from one on.
abbrev pub sum_banks : ℕ → ℕ → (ℕ → ℕ) → ℕ
sum_banks zero idx bxinfo = 0
sum_banks (suc n) idx bxinfo = bank_size (bxinfo idx) + sum_banks n (idx + 1) bxinfo

bank_size-le : (bxinfo : ℕ) → bank_size bxinfo ≤ 1048576
bank_size-le bxinfo = ground arith

banks-le : (n idx : ℕ) (bxinfo : ℕ → ℕ) → sum_banks n idx bxinfo ≤ 1048576 * n
banks-le zero idx bxinfo = omega arith
banks-le (suc n) idx bxinfo = omega (arith, bank_size-le (bxinfo idx), banks-le n (idx + 1) bxinfo)

add_banks-sum :
    (n idx : ℕ) (bxinfo : ℕ → ℕ) (memsize : ℕ)
    → memsize + sum_banks n idx bxinfo < 4294967296
    → add_banks n idx bxinfo memsize ≡ memsize + sum_banks n idx bxinfo
add_banks-sum zero idx bxinfo memsize l = omega arith
add_banks-sum (suc n) idx bxinfo memsize l =
    let fits : u32 (memsize + bank_size (bxinfo idx)) ≡ memsize + bank_size (bxinfo idx) =
      omega (arith, l) in
    rw fits (
      add_banks-sum n (idx + 1) bxinfo (memsize + bank_size (bxinfo idx)) (omega (arith, l))
      ∙ omega arith)

-- The size of the RAM is the sum of the sizes of all banks, at most 30 MB: the 32-bit sum does not wrap.
cr4_ram_size_lem :
    (corecap : ℕ) (bxinfo : ℕ → ℕ)
    → (cr4_ram_size corecap bxinfo ≡ sum_banks (corecap % 16 + corecap / 16 % 16) 0 bxinfo)
      × (cr4_ram_size corecap bxinfo ≤ 31457280)
unfolding cr4_ram_size
cr4_ram_size_lem corecap bxinfo =
    let n = corecap % 16 + corecap / 16 % 16 in
    let most : sum_banks n 0 bxinfo ≤ 31457280 = omega (arith, banks-le n 0 bxinfo) in
    let sum : add_banks n 0 bxinfo 0 ≡ sum_banks n 0 bxinfo =
      add_banks-sum n 0 bxinfo 0 (omega (arith, most)) ∙ omega arith in
    (sum, omega (arith, sum, most))
