-- ===== src/Cyw/Recv/Drain.antt =====
-- The polling loop of cyw_rxfail ends.
use free_bsd15_rpi5_modules.Base.{
  ℕ, zero, suc, ◌+◌, ◌-◌, ◌*◌, ◌≤◌, ◌<◌, ◌≡◌, inl, inr, some, arith, ◌==◌, Bool-cases,
}
use free_bsd15_rpi5_modules.Cyw.Recv.{Sdio, drain}

module _ (sdio : Sdio)
    (falls : (c : sdio.Card) → (sdio.read_rbc (sdio.read_rbc c).0).1 ≤ (sdio.read_rbc c).1) where
  -- Where a read of the chip's count never exceeds the last one, nor the first one the count
  -- the loop starts with, the loop ends within 65536 rounds for each value of the count still
  -- possible and one for each retry left.
  pub drain-ends :
      (rounds lastrbc retries : ℕ) (card : sdio.Card)
      → (sdio.read_rbc card).1 ≤ lastrbc
      → lastrbc * 65536 + retries < rounds
      → (card' : sdio.Card) × (drain sdio rounds lastrbc retries card ≡ some card')
  unfolding drain
  drain-ends zero lastrbc retries card h l = absurd (omega arith)
  drain-ends (suc rounds) lastrbc retries card h l = elim (Bool-cases (retries == 0)) [
    | inl e ↦ (card, rw e)
    | inr more ↦ elim (Bool-cases ((sdio.read_rbc card).1 == 0)) [
      | inl e ↦ ((sdio.read_rbc card).0, rw (more, e))
      | inr busy ↦ elim (Bool-cases ((sdio.read_rbc card).1 == lastrbc)) [
        | inl e ↦
            rw (more, busy, e)
              (drain-ends rounds lastrbc (retries - 1) (sdio.read_rbc card).0
                (ground (arith, falls card)) (ground arith))
        | inr e ↦
            rw (more, busy, e)
              (drain-ends rounds (sdio.read_rbc card).1 (0xffff - 1) (sdio.read_rbc card).0
                (falls card) (ground arith))
      ]
    ]
  ]
