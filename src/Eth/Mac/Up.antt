-- ===== src/Eth/Mac/Up.antt =====
-- An interface that is brought up with IFF_PROMISC already set.
use free_bsd15_rpi5_modules.Base.{
  ℕ, ◌∙◌, ◌*◌, ◌/◌, ◌%◌, ◌^◌, ◌≡◌, refl, ap, sym, Bool, true, false, ◌||◌, arith, if_rule, bit,
  bit-set_ne,
}
use mathlib.Core.Path.{subst}
use free_bsd15_rpi5_modules.Eth.Filter.{IfFlags}
use free_bsd15_rpi5_modules.Eth.Regs.{Mac, last_write, net_cfg}
use free_bsd15_rpi5_modules.Eth.Mac.{
  Env, set_flags, ioctl, init_locked, config, config_net_cfg, differ, follow_flags, set_filter,
}
use free_bsd15_rpi5_modules.Eth.{fill_rqueue}

-- The bit COPY_ALL is not among those that cgem_config writes.
config_bit : (rxcsum : Bool) (shadow : ℕ) → bit (config_net_cfg rxcsum shadow) 4 ≡ false
config_bit rxcsum shadow =
    if_rule (λ cfg. bit cfg 4 ≡ false) rxcsum _ _
      (λ e. bit-set_ne _ 24 4 (λ z. omega (arith, z)) ∙ plain) (λ e. plain)
  where
    kept : bit (shadow / 2 ^ 18 % 32 * 2 ^ 18) 4 ≡ false
    kept = ground arith

    plain : bit (config_net_cfg false shadow) 4 ≡ false
    plain =
        bit-set_ne _ 1 4 (λ z. omega (arith, z))
        ∙ bit-set_ne _ 8 4 (λ z. omega (arith, z))
        ∙ bit-set_ne _ 10 4 (λ z. omega (arith, z))
        ∙ bit-set_ne _ 15 4 (λ z. omega (arith, z))
        ∙ bit-set_ne _ 17 4 (λ z. omega (arith, z))
        ∙ kept

differ_self : (b : Bool) → differ b b ≡ false
differ_self true = refl
differ_self false = refl

-- The interface once it is up.
abbrev up_state : Env → Mac → Mac
up_state env sc =
    let ready = config sc in
    record ready {
      rx = fill_rqueue env.alloc ready.rx;
      tx = record ready.tx { oactive = false };
      running = true;
      tick_ch = true;
    }

brought_up :
    (env : Env) (sc : Mac)
    → sc.running ≡ false
    → sc.flags.up ≡ true
    → follow_flags env sc ≡ up_state env sc
unfolding init_locked
brought_up env sc down up =
    if_rule (λ out. out ≡ up_state env sc) sc.flags.up _ _
      (λ e.
        if_rule (λ out. out ≡ up_state env sc) sc.running _ _
          (λ r. absurd (ground (arith, r, down)))
          (λ r.
            if_rule (λ out. out ≡ up_state env sc) sc.running _ _
              (λ q. absurd (ground (arith, q, down))) (λ q. refl)))
      (λ e. absurd (ground (arith, e, up)))

same_flags :
    (env : Env) (flags : IfFlags) (sc : Mac)
    → sc.running ≡ true
    → flags.up ≡ true
    → follow_flags env (record sc { flags = flags; old_flags = flags })
      ≡ record sc { flags = flags; old_flags = flags }
same_flags env flags sc runs up =
    if_rule (λ out. out ≡ same) flags.up _ _
      (λ e.
        if_rule (λ out. out ≡ same) sc.running _ _
          (λ r.
            if_rule (λ out. out ≡ same)
              (differ flags.promisc flags.promisc || differ flags.allmulti flags.allmulti)
              (set_filter env.eaddrs same) _
              (λ c.
                absurd (ground (arith, c, differ_self flags.promisc, differ_self flags.allmulti)))
              (λ c. refl))
          (λ r. absurd (ground (arith, r, runs))))
      (λ e. absurd (ground (arith, e, up)))
  where
    same : Mac
    same = record sc { flags = flags; old_flags = flags }

-- When SIOCSIFFLAGS brings up an interface that was down, the NET_CFG that is written last does not have
-- COPY_ALL, even where IFF_PROMISC is among the flags; and the same call again changes nothing.
pub up_not_promisc :
    (flags : IfFlags) (env again : Env) (sc : Mac)
    → sc.running ≡ false
    → flags.up ≡ true
    → (bit (last_write (ioctl (set_flags flags) env sc).0.writes net_cfg) 4 ≡ false)
      × (ioctl (set_flags flags) again (ioctl (set_flags flags) env sc).0
          ≡ ((ioctl (set_flags flags) env sc).0, 0))
unfolding ioctl config
up_not_promisc flags env again sc down up =
    let set : Mac = record sc { flags = flags } in
    let after : (ioctl (set_flags flags) env sc).0
        ≡ record (up_state env set) { old_flags = flags } =
      ap (λ (out : Mac). record out { old_flags = flags }) (brought_up env set down up) in
    subst
      (λ (out : Mac).
        (bit (last_write out.writes net_cfg) 4 ≡ false)
        × (ioctl (set_flags flags) again out ≡ (out, 0)))
      (sym after)
      (
        config_bit sc.rxcsum sc.net_cfg_shadow,
        ap (λ (out : Mac). (record out { old_flags = flags }, 0))
            (same_flags again flags (up_state env set) refl up),
      )
