-- ===== src/Cyw/Backplane/Block.antt =====
-- A block write through the window puts each byte where it belongs.
use free_bsd15_rpi5_modules.Base.{
  ℕ, ◌∙◌, zero, suc, ◌+◌, ◌-◌, ◌*◌, ◌/◌, ◌%◌, ◌^◌, ◌≤◌, ◌<◌, ◌≡◌, ◌≢◌, inl, inr, refl, ap, sym,
  true, false, arith, ltb, leb, ◌==◌, Bool-cases, if_rule, u32, min,
}
use free_bsd15_rpi5_modules.Cyw.{Buf, fill}
use free_bsd15_rpi5_modules.Cyw.Backplane.{
  Chip, selected, set_window, write_chunks, write_block, write_extended, window_size, issue,
}
use mathlib.Core.Path.{subst}

-- The softc knows the window that the chip has.
pub record Coherent (c : Chip) : Type 0 where
  pub same : selected c ≡ c.bp_window
  pub aligned : c.bp_window % 0x8000 ≡ 0

module _ (fault : ℕ → ℕ) where
  -- Setting the window: without a fault it is the address's window, in the chip and in the softc.
  pub record Windowed (addr : ℕ) (c : Chip) (out : Chip × ℕ) : Type 0 where
    pub ok : out.1 ≡ 0
    pub window : selected out.0 ≡ addr / 0x8000 * 0x8000
    pub cached : out.0.bp_window ≡ addr / 0x8000 * 0x8000
    pub mem : out.0.mem ≡ c.mem

  set_window-Windowed :
      (addr : ℕ) (c : Chip)
      → Coherent c
      → addr < 2 ^ 32
      → ((n : ℕ) → fault n ≡ 0)
      → Windowed addr c (set_window fault addr c)
  unfolding set_window
  set_window-Windowed addr c k l ok =
      let win = addr / 0x8000 * 0x8000 in
      elim (Bool-cases (win == c.bp_window)) [
        | inl e ↦
            let same : win ≡ c.bp_window = ground (arith, e) in
            rw e (record { ok = refl; window = k.same ∙ sym same; cached = sym same; mem = refl })
        | inr e ↦
            rw (e, ok c.command, ok (c.command + 1), ok (c.command + 1 + 1))
              (record { ok = refl; window = omega (arith, l); cached = refl; mem = refl })
      ]

-- Two fills that meet are one.
fill-fill :
    (m buf : Buf) (a d n k i : ℕ)
    → fill (fill m a n (λ j. buf (d + j))) (a + n) k (λ j. buf (d + n + j)) i
      ≡ fill m a (n + k) (λ j. buf (d + j)) i
fill-fill m buf a d n k i = elim (Bool-cases (leb (a + n) i)) [
  | inl e ↦
      let le : a + n ≤ i = ground (arith, e) in
      let at : d + n + (i - (a + n)) ≡ d + (i - a) = omega (arith, le) in
      ground (arith, e, ap buf at)
  | inr e ↦ ground (arith, e)
]

-- What a block write leaves without a fault, from some byte on.
record Written (addr : ℕ) (buf : Buf) (done total : ℕ) (c : Chip) (out : Chip × ℕ) : Type 0 where
  ok : out.1 ≡ 0
  coherent : Coherent out.0
  mem : (i : ℕ) → out.0.mem i ≡ fill c.mem (addr + done) (total - done) (λ j. buf (done + j)) i

module _ (fault : ℕ → ℕ) (ok : (n : ℕ) → fault n ≡ 0) where
  write_chunks-Written :
      (rounds addr : ℕ) (buf : Buf) (done total : ℕ) (c : Chip)
      → Coherent c
      → addr + total ≤ 2 ^ 32
      → total ≤ done + rounds
      → Written addr buf done total c (write_chunks fault rounds addr buf done total c)
  unfolding write_chunks
  write_chunks-Written zero addr buf done total c k l h = record {
    ok = refl;
    coherent = k;
    mem = λ i. ground (arith, h);
  }
  write_chunks-Written (suc rounds) addr buf done total c k l h =
      if_rule {A = Chip × ℕ} (Written addr buf done total c) (ltb done total) _ _
        (λ e.
          let more : done < total = ground (arith, e) in
          let to = u32 (addr + done) in
          let here : to ≡ addr + done = omega (arith, more, l) in
          let off = to % window_size in
          let chunk = min (total - done) (window_size - off) in
          let bytes : Buf = λ i. buf (done + i) in
          let c1 = (set_window fault to c).0 in
          let w = set_window-Windowed fault to c k (omega arith) ok in
          let stored : write_extended fault off chunk bytes c1
              ≡ (record (issue c1) { mem = fill c1.mem (selected c1 + off) chunk bytes }, 0) =
            rw (ok c1.command) refl in
          let place : selected c1 + off ≡ addr + done = omega (arith, w.window, here) in
          let c2 = (write_extended fault off chunk bytes c1).0 in
          let kept : Coherent c2 =
            subst (λ (out : Chip × ℕ). Coherent out.0) (sym stored)
              (record {
                same = w.window ∙ sym w.cached;
                aligned = ap (λ x. x % 0x8000) w.cached ∙ omega arith;
              }) in
          let rest =
            write_chunks-Written rounds addr buf (done + chunk) total c2 kept l
              (omega (arith, h, more)) in
          let mem : c2.mem ≡ fill c.mem (addr + done) chunk bytes =
            ap (λ (out : Chip × ℕ). out.0.mem) stored
            ∙ ap (λ m. fill m (selected c1 + off) chunk bytes) w.mem
            ∙ ap (λ a. fill c.mem a chunk bytes) place in
          let split : chunk + (total - (done + chunk)) ≡ total - done = omega (arith, more) in
          let meet : addr + (done + chunk) ≡ addr + done + chunk = omega arith in
          if_rule {A = Chip × ℕ} (Written addr buf done total c) ((set_window fault to c).1 == 0) _
            _
            (λ g.
              if_rule {A = Chip × ℕ} (Written addr buf done total c)
                ((write_extended fault off chunk bytes c1).1 == 0) _ _
                (λ q. record {
                  ok = rest.ok;
                  coherent = rest.coherent;
                  mem = λ i.
                      rest.mem i
                      ∙ ap
                          (λ m.
                            fill m (addr + (done + chunk)) (total - (done + chunk))
                              (λ j. buf (done + chunk + j)) i)
                          mem
                      ∙ ap
                          (λ a.
                            fill (fill c.mem (addr + done) chunk bytes) a (total - (done + chunk))
                              (λ j. buf (done + chunk + j)) i)
                          meet
                      ∙ fill-fill c.mem buf (addr + done) done chunk (total - (done + chunk)) i
                      ∙ ap (λ n. fill c.mem (addr + done) n bytes i) split;
                })
                (λ q. absurd (ground (arith, q, ap (λ (out : Chip × ℕ). out.1) stored))))
            (λ g. absurd (ground (arith, g, w.ok))))
        (λ e. record { ok = refl; coherent = k; mem = λ i. ground (arith, e) })

-- Where the softc knows the chip's window and no SDIO command fails, a block write that ends by 2 ^ 32
-- returns 0, leaves every byte of the block at its address and every other byte as it was, however many
-- windows it crosses, and the softc knows the window again.
pub write_block-exact :
    (fault : ℕ → ℕ) (addr : ℕ) (buf : Buf) (total : ℕ) (c : Chip)
    → ((n : ℕ) → fault n ≡ 0)
    → Coherent c
    → addr + total ≤ 2 ^ 32
    → ((write_block fault addr buf total c).1 ≡ 0)
      × Coherent (write_block fault addr buf total c).0
      × ((i : ℕ) → (write_block fault addr buf total c).0.mem i ≡ fill c.mem addr total buf i)
write_block-exact fault addr buf total c ok k l =
    let w = write_chunks-Written fault ok total addr buf 0 total c k l (omega arith) in
    let at : addr + 0 ≡ addr = omega arith in
    let all : total - 0 ≡ total = omega arith in
    (
      w.ok,
      w.coherent,
      λ i.
          w.mem i
          ∙ ap (λ a. fill c.mem a (total - 0) (λ j. buf (0 + j)) i) at
          ∙ ap (λ n. fill c.mem addr n (λ j. buf (0 + j)) i) all
          ∙ from_start i,
    )
  where
    from_start : (i : ℕ) → fill c.mem addr total (λ j. buf (0 + j)) i ≡ fill c.mem addr total buf i
    from_start i = let at : 0 + (i - addr) ≡ i - addr = omega arith in ground (arith, ap buf at)

-- On a softc that knows the chip's window, a move to an address that differs from the old window in bit 15,
-- the one bit that the first of the three register writes carries, and of whose writes the first succeeds
-- and the second fails: the call returns that error, and the softc keeps the old window although the
-- chip's has moved; the next access to the old window is answered 0 without a write, with the chip on
-- another window.
pub stale_window :
    (fault : ℕ → ℕ) (addr old : ℕ) (c : Chip)
    → Coherent c
    → old / 0x8000 * 0x8000 ≡ c.bp_window
    → addr / 0x8000 % 2 ≢ old / 0x8000 % 2
    → fault c.command ≡ 0
    → fault (c.command + 1) ≢ 0
    → ((set_window fault addr c).1 ≡ fault (c.command + 1))
      × (set_window fault old (set_window fault addr c).0 ≡ ((set_window fault addr c).0, 0))
      × (selected (set_window fault addr c).0 ≢ old / 0x8000 * 0x8000)
unfolding set_window
stale_window fault addr old c k here other first second =
    let moves : (addr / 0x8000 * 0x8000 == c.bp_window) ≡ false = ground (arith, here, other) in
    let fails : (fault (c.command + 1) == 0) ≡ false = ground (arith, second) in
    let hit : (old / 0x8000 * 0x8000 == c.bp_window) ≡ true = ground (arith, here) in
    let half : Chip = record (issue c) { low = addr / 0x8000 * 0x8000 / 2 ^ 8 % 256 } in
    let result : set_window fault addr c ≡ (issue half, fault (c.command + 1)) =
      rw (moves, first, fails) refl in
    let moved : selected half ≢ old / 0x8000 * 0x8000 =
      λ z. omega (arith, z, here, other, k.same) in
    subst
      (λ (out : Chip × ℕ).
        (out.1 ≡ fault (c.command + 1))
        × (set_window fault old out.0 ≡ (out.0, 0))
        × (selected out.0 ≢ old / 0x8000 * 0x8000))
      (sym result) (refl, rw hit refl, moved)
