-- ===== src/Cyw/Fil/Credit.antt =====
-- The wait of cyw_fil_txrx for a credit: which look at sdpcm_rx_max ends it.
use free_bsd15_rpi5_modules.Base.{
  ℕ, zero, suc, ◌+◌, ◌-◌, ◌%◌, ◌≤◌, ◌<◌, ◌≡◌, refl, ap, ◌∙◌, false, arith, if_rule,
}
use free_bsd15_rpi5_modules.Cyw.{Softc}
use free_bsd15_rpi5_modules.Cyw.Fil.{await_credit, has_credit}

-- The k-th look at sdpcm_rx_max finds no credit for this sequence number.
abbrev pub NoCredit : (ℕ → ℕ) → ℕ → ℕ → Type 0
NoCredit rx_max seq k = (rx_max k + 256 - seq) % 256 ≡ 0

-- The wait for a credit ends at the first of n + 1 looks that finds one, or at the last.
pub record Looked (n : ℕ) (rx_max : ℕ → ℕ) (sc out : Softc) : Type 0 where
  pub look : ℕ
  pub within : look ≤ n
  pub left : out ≡ record sc { sdpcm_rx_max = rx_max look }
  pub before : (k : ℕ) → k < look → NoCredit rx_max sc.sdpcm_tx_seq k
  pub last : has_credit out ≡ false → look ≡ n

module _ (n : ℕ) (rx_max : ℕ → ℕ) (sc : Softc)
    (first : has_credit (record sc { sdpcm_rx_max = rx_max 0 }) ≡ false) where
  look_again :
      (m : ℕ)
      → ((k : ℕ) → k < m → NoCredit (λ i. rx_max (i + 1)) sc.sdpcm_tx_seq k)
      → (k : ℕ) → k < m + 1
      → NoCredit rx_max sc.sdpcm_tx_seq k
  look_again m before zero l = ground (arith, first)
  look_again m before (suc k) l =
      let at : suc k ≡ k + 1 = omega arith in
      ap (λ j. (rx_max j + 256 - sc.sdpcm_tx_seq) % 256) at ∙ before k (omega (arith, l))

  later :
      {out : Softc}
      → Looked n (λ i. rx_max (i + 1)) (record sc { sdpcm_rx_max = rx_max 0 }) out
      → Looked (suc n) rx_max sc out
  later r = record {
    look = r.look + 1;
    within = omega (arith, r.within);
    left = r.left;
    before = look_again r.look r.before;
    last = λ h. omega (arith, r.last h);
  }

pub await-Looked :
    (n : ℕ) (rx_max : ℕ → ℕ) (sc : Softc) → Looked n rx_max sc (await_credit n rx_max sc)
unfolding await_credit
await-Looked zero rx_max sc = record {
  look = 0;
  within = omega arith;
  left = refl;
  before = λ k l. absurd (omega (arith, l));
  last = λ h. refl;
}
await-Looked (suc n) rx_max sc =
    if_rule (Looked (suc n) rx_max sc) (has_credit (record sc { sdpcm_rx_max = rx_max 0 })) _ _
      (λ e. record {
        look = 0;
        within = omega arith;
        left = refl;
        before = λ k l. absurd (omega (arith, l));
        last = λ h. absurd (ground (arith, e, h));
      })
      (λ e.
        later n rx_max sc e
          (await-Looked n (λ i. rx_max (i + 1)) (record sc { sdpcm_rx_max = rx_max 0 })))
