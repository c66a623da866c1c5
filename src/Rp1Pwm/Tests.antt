-- ===== src/Rp1Pwm/Tests.antt =====
-- Runs of the PWM driver, and its properties at concrete states.
use free_bsd15_rpi5_modules.Base.{
  ◌≤◌, ◌<◌, ◌≡◌, ◌⊎◌, refl, true, false, some, [], ◌∷◌, arith, Regs, bit, einval,
}
use free_bsd15_rpi5_modules.Rp1Pwm.{
  Softc, csr, search, top_at, attach, channel_config, channel_is_enabled,
}
use free_bsd15_rpi5_modules.Rp1Pwm.Config.{Programmed, channel_config_outcome}
use free_bsd15_rpi5_modules.Rp1Pwm.Invariant.{configs, enables, run, attach-run-Gated}

abbrev blank : Regs
blank r = 0

abbrev softc : Softc
softc = record {
  regs = blank;
  channels = λ i. record { period = 41566; duty_a = 0; duty_b = 0; flags = 0; enabled = false };
  cpu_temp = 50000;
  fan_state = 0;
  fan_prev_state = 0;
}

-- The fan's period of 41566 ns asks for 5195 ticks at 125 MHz; the 32-bit product gives 3.
fan_top : search 41566 256 1 0 ≡ (1, 3)
unfolding search top_at
fan_top = refl

channel_config_outcome_example :
    (channel_config softc 3 41566 12225 ≡ (softc, einval))
    ⊎ ((sc' : Softc) × (channel_config softc 3 41566 12225 ≡ (sc', 0))
        × (3 < 4)
        × (0 < 41566)
        × (12225 ≤ 41566)
        × Programmed softc sc' 3 1 41566 12225)
channel_config_outcome_example =
    channel_config_outcome softc 3 1 41566 12225 (omega arith) (omega arith)

attach-run-Gated_example :
    channel_is_enabled (run softc (configs 3 41566 9 ∷ enables 3 true ∷ [])) 3
    ≡ (some (bit ((run softc (configs 3 41566 9 ∷ enables 3 true ∷ [])).regs (csr 3)) 0), 0)
attach-run-Gated_example =
    attach-run-Gated blank softc (configs 3 41566 9 ∷ enables 3 true ∷ []) 3 (unfold attach in refl)
      (omega arith) refl
