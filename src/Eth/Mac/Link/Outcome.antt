-- ===== src/Eth/Mac/Link/Outcome.antt =====
-- What the MDIO read, the clock generator, the link poll and the statistics come to.
use free_bsd15_rpi5_modules.Base.{
  ℕ, ◌∙◌, zero, suc, ◌+◌, ◌*◌, ◌%◌, ◌^◌, ◌<◌, ◌≡◌, ◌≢◌, ◌⊎◌, inl, inr, refl, ap, sym, Bool, true,
  false, not, ◌&&◌, ◌||◌, none, some, List, [], ◌∷◌, arith, ◌==◌, Bool-cases, bit, update,
  update_ne, update_self, u32, u64, set_bits, lists, bit-set_bits, bit-clear_bits,
}
use free_bsd15_rpi5_modules.Eth.Regs.{Mac, last_write}
use free_bsd15_rpi5_modules.Eth.Mac.Link.{
  Mdio, wait_idle, mdio_read, speed_bits, clkgen_rest, clkgen_base, update_speed, counters,
  count_all, count_bytes, poll_hw_stats,
}

wait_outcome :
    (rounds : ℕ) (stat : ℕ → ℕ) (i : ℕ)
    → ((wait_idle rounds stat i ≡ true) × (k : ℕ) × (k < rounds) × (bit (stat (i + k)) 2 ≡ true))
      ⊎ ((wait_idle rounds stat i ≡ false) × ((k : ℕ) → k < rounds → bit (stat (i + k)) 2 ≡ false))
wait_outcome zero stat i = inr (refl, λ k l. absurd (omega (arith, l)))
wait_outcome (suc rounds) stat i = elim (Bool-cases (bit (stat i) 2)) [
  | inl e ↦
      let here : i ≡ i + 0 = omega arith in
      inl (rw e refl, 0, omega arith, ap (λ j. bit (stat j) 2) (sym here) ∙ e)
  | inr e ↦ elim (wait_outcome rounds stat (i + 1)) [
    | inl (w, k, l, b) ↦
        let there : i + 1 + k ≡ i + suc k = omega arith in
        inl (rw e w, suc k, omega (arith, l), ap (λ j. bit (stat j) 2) (sym there) ∙ b)
    | inr (w, none_idle) ↦ inr (rw e w, λ k l. each e none_idle k l)
  ]
]
  where
    each :
        bit (stat i) 2 ≡ false
        → ((k : ℕ) → k < rounds → bit (stat (i + 1 + k)) 2 ≡ false)
        → (k : ℕ) → k < suc rounds
        → bit (stat (i + k)) 2 ≡ false
    each e r zero l = let here : i + 0 ≡ i = omega arith in ap (λ j. bit (stat j) 2) here ∙ e
    each e r (suc k) l =
        let there : i + suc k ≡ i + 1 + k = omega arith in
        ap (λ j. bit (stat j) 2) there ∙ r k (omega (arith, l))

-- An MDIO read ends either way: it returns the low 16 bits of PHY_MAINT when one of its at most 201 reads
-- of NET_STAT finds the management idle, and -1 when none of the 201 does.
mdio_read_outcome :
    (phy reg : ℕ) (io : Mdio) (sc : Mac)
    → ((k : ℕ) × (k < 201)
        × (bit (io.net_stat k) 2 ≡ true)
        × ((mdio_read phy reg io sc).1 ≡ some (io.maint % 2 ^ 16)))
      ⊎ (((k : ℕ) → k < 201 → bit (io.net_stat k) 2 ≡ false) × ((mdio_read phy reg io sc).1 ≡ none))
unfolding mdio_read
mdio_read_outcome phy reg io sc = elim (wait_outcome 201 io.net_stat 0) [
  | inl (w, k, l, b) ↦
      let here : 0 + k ≡ k = omega arith in
      inl (k, l, ap (λ j. bit (io.net_stat j) 2) (sym here) ∙ b, rw w refl)
  | inr (w, r) ↦ inr (
    (λ k l.
        let here : 0 + k ≡ k = omega arith in ap (λ j. bit (io.net_stat j) 2) (sym here) ∙ r k l),
    rw w refl,
  )
]

-- What CLKGEN is left with.
pub record Clocked (net_cfg word : ℕ) : Type 0 where
  pub enabled : bit word 7 ≡ true
  pub alive : bit word 6 ≡ false
  pub override : bit word 3 ≡ true
  pub high : bit word 1 ≡ bit net_cfg 10
  pub low : bit word 0 ≡ not (bit net_cfg 10) && bit net_cfg 0
  pub undelayed : bit word 9 ≡ false

-- A bit of the word that is left: set, cleared or kept.
left_bit :
    (net_cfg clkgen k : ℕ)
    → bit (set_bits (7 ∷ []) (clkgen_base net_cfg clkgen)) k ≡ (
        lists (7 ∷ []) k
        || (lists (3 ∷ speed_bits net_cfg) k
            || (not (lists (0 ∷ 1 ∷ 3 ∷ 9 ∷ 6 ∷ 7 ∷ []) k) && bit clkgen k)))
left_bit net_cfg clkgen k =
    bit-set_bits (7 ∷ []) (clkgen_base net_cfg clkgen) k
    ∙ ap (λ b. lists (7 ∷ []) k || b)
        (bit-set_bits (3 ∷ speed_bits net_cfg) (clkgen_rest clkgen) k
          ∙ ap (λ b. lists (3 ∷ speed_bits net_cfg) k || b)
              (bit-clear_bits (0 ∷ 1 ∷ 3 ∷ 9 ∷ 6 ∷ 7 ∷ []) clkgen k))

speed_listed :
    (net_cfg : ℕ)
    → (lists (speed_bits net_cfg) 1 ≡ bit net_cfg 10)
      × (lists (speed_bits net_cfg) 0 ≡ not (bit net_cfg 10) && bit net_cfg 0)
      × (lists (speed_bits net_cfg) 6 ≡ false)
      × (lists (speed_bits net_cfg) 9 ≡ false)
speed_listed net_cfg = elim (Bool-cases (bit net_cfg 10)) [
  | inl e ↦ rw e (refl, refl, refl, refl)
  | inr e ↦ elim (Bool-cases (bit net_cfg 0)) [
    | inl g ↦ rw (e, g) (refl, refl, refl, refl)
    | inr g ↦ rw (e, g) (refl, refl, refl, refl)
  ]
]

or_false : (b : Bool) → (b || false) ≡ b
or_false true = refl
or_false false = refl

-- When the link comes up, the clock generator is left enabled, not killed, without the delay, and
-- overridden to the speed that NET_CFG has: 2 for 1G, else 1 for 100M, else 0.
update_speed_lem :
    (net_cfg clkgen : ℕ) (sc : Mac)
    → sc.cfg_mapped ≡ true
    → Clocked net_cfg (last_write (update_speed net_cfg clkgen sc).cfg_writes 0x14)
unfolding update_speed
update_speed_lem net_cfg clkgen sc mapped =
    let (one, low_bit, six, nine) = speed_listed net_cfg in
    let at = left_bit net_cfg clkgen in
    rw mapped (record {
      enabled = at 7;
      alive = at 6 ∙ ap (λ b. b || false) six;
      override = at 3;
      high = at 1 ∙ or_false (lists (speed_bits net_cfg) 1) ∙ one;
      low = at 0 ∙ or_false (lists (speed_bits net_cfg) 0) ∙ low_bit;
      undelayed = at 9 ∙ ap (λ b. b || false) nine;
    })

-- Whether a register is among those counted.
abbrev pub counted : ℕ → List ℕ → Bool
counted k [] = false
counted k (off ∷ offs) = k == off || counted k offs

abbrev distinct : List ℕ → Bool
distinct [] = true
distinct (off ∷ offs) = not (counted off offs) && distinct offs

count_other :
    (offs : List ℕ) (rd stats : ℕ → ℕ) (k : ℕ)
    → counted k offs ≡ false
    → count_all offs rd stats k ≡ stats k
count_other [] rd stats k n = refl
count_other (off ∷ offs) rd stats k n =
    count_other offs rd (update stats off _) k (ground (arith, n))
    ∙ update_ne stats off _ k (λ z. ground (arith, n, z))

count_each :
    (offs : List ℕ) (rd stats : ℕ → ℕ) (k : ℕ)
    → distinct offs ≡ true
    → counted k offs ≡ true
    → count_all offs rd stats k ≡ u32 (stats k + rd k)
count_each [] rd stats k d m = absurd (ground (arith, m))
count_each (off ∷ offs) rd stats k d m = elim (Bool-cases (k == off)) [
  | inl e ↦
      let same : k ≡ off = ground (arith, e) in
      rw same (
        count_other offs rd (update stats off _) off (ground (arith, d))
        ∙ update_self stats off _ off refl)
  | inr e ↦
      count_each offs rd (update stats off _) k (ground (arith, d)) (ground (arith, m, e))
      ∙ ap (λ x. u32 (x + rd k)) (update_ne stats off _ k (λ z. ground (arith, e, z)))
]

-- A poll adds to each of the 39 counters of 32 bits what its own register reads, and to the two byte
-- counters of 64 bits what their pairs of registers read, modulo the counter's width; no counter is
-- added to twice.
poll_hw_stats_lem :
    (rd : ℕ → ℕ) (sc : Mac) (k : ℕ)
    → ((counted k counters ≡ false) ⊎ ((poll_hw_stats rd sc).stats k ≡ u32 (sc.stats k + rd k)))
      × ((poll_hw_stats rd sc).stats 0x100 ≡ u64 (sc.stats 0x100 + (rd 0x100 + rd 0x104 * 2 ^ 32)))
      × ((poll_hw_stats rd sc).stats 0x150 ≡ u64 (sc.stats 0x150 + (rd 0x150 + rd 0x154 * 2 ^ 32)))
unfolding poll_hw_stats
poll_hw_stats_lem rd sc k = (
  elim (Bool-cases (counted k counters)) [
    | inr e ↦ inl e
    | inl e ↦
        let tx_bytes = count_bytes 0x100 rd sc.stats in
        let not_tx : k ≢ 0x100 = λ z. ground (arith, e, ap (λ j. counted j counters) z) in
        let not_rx : k ≢ 0x150 = λ z. ground (arith, e, ap (λ j. counted j counters) z) in
        inr (
          count_each counters rd (count_bytes 0x150 rd tx_bytes) k refl e
          ∙ ap (λ x. u32 (x + rd k))
              (update_ne tx_bytes 0x150 _ k not_rx ∙ update_ne sc.stats 0x100 _ k not_tx))
  ],
  count_other counters rd (count_bytes 0x150 rd (count_bytes 0x100 rd sc.stats)) 0x100 refl
      ∙ bytes (sc.stats 0x100) (rd 0x100) (rd 0x104 * 2 ^ 32),
  count_other counters rd (count_bytes 0x150 rd (count_bytes 0x100 rd sc.stats)) 0x150 refl
      ∙ bytes (sc.stats 0x150) (rd 0x150) (rd 0x154 * 2 ^ 32),
)
  where
    bytes : (a b c : ℕ) → u64 (u64 (a + b) + c) ≡ u64 (a + (b + c))
    bytes a b c = omega arith
