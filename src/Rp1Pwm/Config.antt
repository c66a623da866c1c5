-- ===== src/Rp1Pwm/Config.antt =====
-- What rp1_pwm_hw_config programs, and what its 32-bit product makes of the period.
use free_bsd15_rpi5_modules.Base.{
  ℕ, zero, suc, ◌+◌, ◌/◌, ◌≤◌, ◌<◌, ◌≡◌, ◌≢◌, ◌⊎◌, inl, inr, refl, false, ◌||◌, some, arith, leb,
  ltb, ◌==◌, bit, einval, Bool-cases,
}
use free_bsd15_rpi5_modules.Rp1Pwm.{
  Softc, csr, div_reg, top_reg, ctra, ctrb, top_at, usable, search, compare_count, commit,
  channel_config, channel_get_config,
}

-- The product wraps below 2 ^ 32, so no divider gives a TOP above 4.
top_at-le : (period div : ℕ) → top_at period div ≤ 4
unfolding top_at
top_at-le period div = omega arith

-- What the search ends with: a `top` of at most 4, which is that of the divider if it is usable.
search_lem :
    (period rounds div top : ℕ)
    → top ≤ 4
    → usable top ≡ false
    → let (d, t) = search period rounds div top in
      (t ≤ 4) × (div ≤ d) × ((usable t ≡ false) ⊎ ((d < div + rounds) × (t ≡ top_at period d)))
unfolding search
search_lem period zero div top h u = (h, omega arith, inl u)
search_lem period (suc rounds) div top h u = elim (Bool-cases (usable (top_at period div))) [
  | inl e ↦ rw e (top_at-le period div, omega arith, inr (omega arith, refl))
  | inr e ↦ rw e (
      let (le, from, found) =
        search_lem period rounds (suc div) (top_at period div) (top_at-le period div) e in
      (le, omega arith, ground arith))
]

-- What a successful call leaves in the channel's registers and the softc, and on another channel.
pub record Programmed (sc sc' : Softc) (channel other period duty : ℕ) : Type 0 where
  pub top_pos : 0 < sc'.regs (top_reg channel)
  pub top_le : sc'.regs (top_reg channel) ≤ 4
  pub div_pos : 0 < sc'.regs (div_reg channel)
  pub div_le : sc'.regs (div_reg channel) ≤ 256
  pub top_is : sc'.regs (top_reg channel) ≡ top_at period (sc'.regs (div_reg channel))
  pub compare_le : sc'.regs (ctra channel) ≤ sc'.regs (top_reg channel)
  pub compare_both : sc'.regs (ctrb channel) ≡ sc'.regs (ctra channel)
  pub gate : bit (sc'.regs (csr channel)) 0 ≡ (sc.channels channel).enabled
  pub enabled_kept : (sc'.channels channel).enabled ≡ (sc.channels channel).enabled
  pub gate_others : sc'.regs (csr channel) / 2 ≡ sc.regs (csr channel) / 2
  pub reads_back : channel_get_config sc' channel ≡ (some (period, sc'.regs (ctra channel)), 0)
  pub other_channel : sc'.channels other ≡ sc.channels other
  pub other_csr : sc'.regs (csr other) ≡ sc.regs (csr other)
  pub other_top : sc'.regs (top_reg other) ≡ sc.regs (top_reg other)

compare_count_le : (period duty top : ℕ) → compare_count period duty top ≤ top
unfolding compare_count
compare_count_le period duty top = ground arith

commit-Programmed :
    (sc : Softc) (channel other period duty div top : ℕ)
    → channel < 4
    → other < 4
    → other ≢ channel
    → 0 < top
    → top ≤ 4
    → 0 < div
    → div ≤ 256
    → top ≡ top_at period div
    → Programmed sc
        (commit sc channel period div top (compare_count period duty top))
        channel
        other
        period
        duty
unfolding commit channel_get_config
commit-Programmed sc channel other period duty div top h l ne a b c d e = record {
  top_pos = ground arith;
  top_le = ground arith;
  div_pos = ground arith;
  div_le = ground arith;
  top_is = ground arith;
  compare_le = ground (arith, compare_count_le period duty top);
  compare_both = ground arith;
  gate = ground arith;
  enabled_kept = ground arith;
  gate_others = ground arith;
  reads_back = ground arith;
  other_channel = ground arith;
  other_csr = ground arith;
  other_top = ground arith;
}

-- The search as the call starts it, when its `top` passes the test.
search_found :
    (period : ℕ)
    → (ltb 0xFFFF (search period 256 1 0).1 || (search period 256 1 0).1 == 0) ≡ false
    → let (d, t) = search period 256 1 0 in
      (0 < t) × (t ≤ 4) × (0 < d) × (d ≤ 256) × (t ≡ top_at period d)
search_found period h =
    let (le, from, found) = search_lem period 256 1 0 (omega arith) refl in
    (ground arith, le, from, ground arith, ground arith)

-- A call either is refused with EINVAL and changes nothing, or programs its channel: a TOP between 1
-- and 4 ticks whatever the period, a divider of 1 to 256, both compare counts alike and at most TOP,
-- the gate as it was enabled, and reads back the period beside the compare count.
pub channel_config_outcome :
    (sc : Softc) (channel other period duty : ℕ)
    → other < 4
    → other ≢ channel
    → (channel_config sc channel period duty ≡ (sc, einval))
      ⊎ ((sc' : Softc) × (channel_config sc channel period duty ≡ (sc', 0))
          × (channel < 4)
          × (0 < period)
          × (duty ≤ period)
          × Programmed sc sc' channel other period duty)
unfolding channel_config
channel_config_outcome sc channel other period duty l ne = elim (Bool-cases (leb 4 channel)) [
  | inl e ↦ inl (rw e)
  | inr small ↦ elim (Bool-cases (period == 0 || ltb period duty)) [
    | inl e ↦ inl (rw (small, e))
    | inr fit ↦
        elim (Bool-cases (ltb 0xFFFF (search period 256 1 0).1 || (search period 256 1 0).1 == 0)) [
          | inl e ↦ inl (rw (small, fit, e))
          | inr found ↦
              (let (pos, le, d_pos, d_le, is) = search_found period found in
                let (div, top) = search period 256 1 0 in
                inr (
                  commit sc channel period div top (compare_count period duty top),
                  rw (small, fit, found),
                  ground arith,
                  ground arith,
                  ground arith,
                  commit-Programmed sc channel other period duty div top (ground arith) l ne pos le
                      d_pos d_le is,
                ))
        ]
  ]
]
