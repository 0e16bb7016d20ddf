-- ===== src/Main/Lives.antt =====
-- The steps between the options and the interface: none faults, and a step that ends the program ends
-- it with the status 1.
use arping.Prelude.{
  ℕ, refl, subst, inl, inr, ltb, if◌then◌else◌, not, ◌&&◌, List, Text, arith, Bool-cases,
  Option-cases,
}
use arping.Host.Order.{Endian}
use arping.Setup.Lives.{IsNet}
use arping.Options.Settle.{
  given, resolve_srcip, settle_srcip, resolve_dstip, settle_dstip, addresses, settle, conflict,
}
use arping.Stage.{Stage, usage_1, go_on, at_srcip, at_dstip, at_self, at_mode, at_target, Lookups}
use arping.Mac.{is_mac_addr}
use arping.Options.{pingmac, pingip}
use arping.Choose.Moves.{Target-cases, one_argument}
use arping.Stage.Calls.{Keeps-same, Lives, Lives-Keeps, on-Lives}
use arping.Choose.{
  Devices, first_arg, set_mode, target_self, check_self, name_target, pick_mode, need_target,
  choose_target, find_interface,
}
use arping.Main.Plain.{
  IsPlain-Lives, if-Lives, settle_srcmac-IsPlain, settle_dstmac-IsPlain, settle_vlan-IsPlain,
  target_self-IsPlain, called-Lives, go_on-IsPlain, resolve_srcip-IsPlain, resolve_dstip-IsPlain,
  name_target-IsPlain, resolve_target-IsPlain, parse_target-IsPlain, set_target-IsPlain,
  find_interface-IsPlain,
}

module _ (w : Lookups) (args : List Text) (s : Stage) where
  settle_srcip-Lives : IsNet w.fuel s.net → Lives w.fuel s (settle_srcip w s)
  unfolding settle_srcip
  settle_srcip-Lives h = elim (Option-cases s.locals.srcip_opt) [
    | inl e ↦ subst (Lives w.fuel s) {x = go_on s} (ground arith) (h, Keeps-same s s refl refl refl)
    | inr (text, e) ↦
        called-Lives w at_srcip s (resolve_srcip w text) (settle_srcip w s)
          (λ s1. resolve_srcip-IsPlain w args s1 text) h (ground arith)
  ]

  settle_dstip-Lives : IsNet w.fuel s.net → Lives w.fuel s (settle_dstip w s)
  unfolding settle_dstip
  settle_dstip-Lives h = elim (Option-cases s.locals.dstip_opt) [
    | inl e ↦ subst (Lives w.fuel s) {x = go_on s} (ground arith) (h, Keeps-same s s refl refl refl)
    | inr (text, e) ↦
        called-Lives w at_dstip s (resolve_dstip w text) (settle_dstip w s)
          (λ s1. resolve_dstip-IsPlain w args s1 text) h (ground arith)
  ]

  check_self-Lives : IsNet w.fuel s.net → Lives w.fuel s (check_self w args s)
  unfolding check_self
  check_self-Lives h = elim (Bool-cases (s.globals.finddup && not (given (first_arg args)))) [
    | inl asked ↦
        let s1 : Stage = record s { parm = first_arg args } in
        Lives-Keeps w.fuel s s1 (check_self w args s) (Keeps-same s s1 refl refl refl) (
          called-Lives w at_self s1 (target_self (w.own_ip at_self)) (check_self w args s)
            (λ s2. target_self-IsPlain s2 (w.own_ip at_self)) h (ground arith))
    | inr unasked ↦ rw unasked (h, Keeps-same s (record s { parm = first_arg args }) refl refl refl)
  ]

  pick_mode-Lives : IsNet w.fuel s.net → Lives w.fuel s (pick_mode w args s)
  unfolding pick_mode
  pick_mode-Lives h = elim (Target-cases s.locals.mode) [
    | inr set ↦
        subst (Lives w.fuel s) {x = go_on s} (ground arith) (h, Keeps-same s s refl refl refl)
    | inl unset ↦ elim (one_argument args) [
      | inl (a, one) ↦
          subst (Lives w.fuel s)
            {x = go_on (set_mode (if is_mac_addr a then pingmac else pingip) s)} (ground arith)
            (
              h,
              Keeps-same s (set_mode (if is_mac_addr a then pingmac else pingip) s) refl refl refl,
            )
      | inr other ↦ elim (Bool-cases s.locals.dstip_given) [
        | inr unknown ↦
            subst (Lives w.fuel s) {x = go_on s} (ground arith) (h, Keeps-same s s refl refl refl)
        | inl known ↦
            called-Lives w at_mode s (name_target w args) (pick_mode w args s)
              (name_target-IsPlain w args) h (ground arith)
      ]
    ]
  ]

  need_target-Lives : IsNet w.fuel s.net → Lives w.fuel s (need_target w args s)
  unfolding need_target
  need_target-Lives h = elim (Option-cases s.parm) [
    | inl e ↦ subst (Lives w.fuel s) {x = usage_1 s} (ground arith) refl
    | inr (a, e) ↦ elim (Target-cases s.locals.mode) [
      | inl unset ↦ subst (Lives w.fuel s) {x = usage_1 s} (ground arith) refl
      | inr set ↦
          called-Lives w at_target s go_on (need_target w args s) go_on-IsPlain h (ground arith)
    ]
  ]

module _ (w : Lookups) (args : List Text) where
  addresses-Lives : (s : Stage) → IsNet w.fuel s.net → Lives w.fuel s (addresses w s)
  unfolding addresses
  addresses-Lives s h =
      on-Lives w.fuel _ _ _ (IsPlain-Lives w.fuel s _ (settle_srcmac-IsPlain s) h) (λ s1 h1.
        on-Lives w.fuel _ _ _ (IsPlain-Lives w.fuel s1 _ (settle_dstmac-IsPlain s1) h1) (λ s2 h2.
          on-Lives w.fuel _ _ _ (settle_srcip-Lives w args s2 h2) (λ s3 h3.
            on-Lives w.fuel _ _ _ (settle_dstip-Lives w args s3 h3)
              (λ s4. IsPlain-Lives w.fuel s4 _ (settle_vlan-IsPlain s4 w.setvbuf_ok)))))

  pub settle-Lives : (rest : ℕ) (s : Stage) → IsNet w.fuel s.net → Lives w.fuel s (settle w rest s)
  unfolding settle
  settle-Lives rest s h = if-Lives w.fuel s _ _ (ltb 1 rest) refl (
      if-Lives w.fuel s _ _ (conflict s.locals) refl
        (if-Lives w.fuel s _ _ (s.locals.opt_T && s.locals.opt_B) refl (addresses-Lives s h)))

  pub choose_target-Lives :
      (s : Stage) → IsNet w.fuel s.net → Lives w.fuel s (choose_target w args s)
  unfolding choose_target
  choose_target-Lives s h = on-Lives w.fuel _ _ _ (check_self-Lives w args s h) (λ s1 h1.
      on-Lives w.fuel _ _ _ (pick_mode-Lives w args s1 h1) (λ s2 h2.
        on-Lives w.fuel _ _ _ (need_target-Lives w args s2 h2) (λ s3 h3.
          on-Lives w.fuel _ _ _ (IsPlain-Lives w.fuel s3 _ (resolve_target-IsPlain w args s3) h3)
            (λ s4 h4.
              on-Lives w.fuel _ _ _ (IsPlain-Lives w.fuel s4 _ (parse_target-IsPlain w args s4) h4)
                (λ s5. IsPlain-Lives w.fuel s5 _ (set_target-IsPlain w args s5))))))

pub find_interface-Lives :
    (fuel : ℕ) (e : Endian) (devices : Devices) (s : Stage)
    → IsNet fuel s.net
    → Lives fuel s (find_interface e devices s)
find_interface-Lives fuel e devices s = IsPlain-Lives fuel s _ (find_interface-IsPlain e devices s)
