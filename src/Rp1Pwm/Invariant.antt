-- ===== src/Rp1Pwm/Invariant.antt =====
-- The CSR gate and the stored flag of each channel agree, through every call of the driver.
use free_bsd15_rpi5_modules.Base.{ℕ, ◌<◌, ◌≡◌, Bool, false, List, [], ◌∷◌, some, arith, bit, Regs}
use free_bsd15_rpi5_modules.Rp1Pwm.{
  Softc, csr, commit, channel_config, channel_enable, channel_set_flags, channel_is_enabled, attach,
}

-- A call of the pwmbus interface that changes the state.
pub data Call : Type 0 where
  configs : ℕ → ℕ → ℕ → Call
  enables : ℕ → Bool → Call
  sets_flags : ℕ → ℕ → Call

unfoldable pub step : Softc → Call → Softc × ℕ
step sc (configs ch period duty) = channel_config sc ch period duty
step sc (enables ch enable) = channel_enable sc ch enable
step sc (sets_flags ch flags) = channel_set_flags sc ch flags

unfoldable pub run : Softc → List Call → Softc
run sc [] = sc
run sc (c ∷ cs) = run (step sc c).0 cs

abbrev pub Gated : Softc → ℕ → Type 0
Gated sc c = bit (sc.regs (csr c)) 0 ≡ (sc.channels c).enabled

step-Gated : (sc : Softc) (call : Call) (c : ℕ) → c < 4 → Gated sc c → Gated (step sc call).0 c
unfolding step channel_config channel_enable channel_set_flags commit
step-Gated sc (configs ch period duty) c l g = ground arith
step-Gated sc (enables ch enable) c l g = ground arith
step-Gated sc (sets_flags ch flags) c l g = ground arith

run-Gated : (calls : List Call) (sc : Softc) (c : ℕ) → c < 4 → Gated sc c → Gated (run sc calls) c
unfolding run
run-Gated [] sc c l g = g
run-Gated (call ∷ calls) sc c l g = run-Gated calls (step sc call).0 c l (step-Gated sc call c l g)

-- From attaching to a block whose gate for a channel is off, through any sequence of configuring,
-- enabling and flag calls on any channels, the gate bit in that channel's CSR is what
-- rp1_pwm_channel_is_enabled reports.
pub attach-run-Gated :
    (regs : Regs) (sc : Softc) (calls : List Call) (c : ℕ)
    → attach (some regs) 0 ≡ (some sc, 0)
    → c < 4
    → bit (regs (csr c)) 0 ≡ false
    → channel_is_enabled (run sc calls) c ≡ (some (bit ((run sc calls).regs (csr c)) 0), 0)
unfolding attach channel_is_enabled
attach-run-Gated regs sc calls c a l off =
    let gated : Gated sc c = ground arith in ground (arith, run-Gated calls sc c l gated)

-- Enabling or disabling a channel is read back, and is idempotent.
channel_enable-is_enabled :
    (sc : Softc) (channel : ℕ) (enable : Bool)
    → channel < 4
    → let (sc', error) = channel_enable sc channel enable in
      (error ≡ 0)
      × (channel_is_enabled sc' channel ≡ (some enable, 0))
      × ((channel_enable sc' channel enable).0.regs (csr channel) ≡ sc'.regs (csr channel))
unfolding channel_enable channel_is_enabled
channel_enable-is_enabled sc channel enable h = (ground arith, ground arith, ground arith)
