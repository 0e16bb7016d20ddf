-- ===== src/Choose/Moves.antt =====
-- What each step of the choice of the target does to the variables that the target is in.
use arping.Prelude.{
  ℕ, ◌≡◌, ◌∙◌, ap, subst, sym, not, ◌&&◌, refl, ◌⊎◌, inl, inr, Bool, true, false, some, List, [],
  ◌∷◌, Text, arith, Bool-cases, Option-cases,
}
use arping.Mac.{is_mac_addr}
use arping.Mac.Scan.{get_mac_addr}
use arping.Options.{Target, no_mode, pingmac, pingip}
use arping.Options.Settle.{given, xresolve}
use arping.Stage.{Stage, go_on, at_self, at_mode, at_target, Lookups}
use arping.Stage.Calls.{with_libnet-go_on}
use arping.Choose.{
  first_arg, is_pingip, target_self, check_self, name_target, pick_mode, need_target, resolve_name,
  resolve_target, read_mac, parse_target, set_target,
}

abbrev pub Settled : Target → Type 0
Settled t = (t ≡ pingmac) ⊎ (t ≡ pingip)

pub Target-cases : (t : Target) → (t ≡ no_mode) ⊎ Settled t
Target-cases no_mode = inl refl
Target-cases pingmac = inr (inl refl)
Target-cases pingip = inr (inr refl)

-- `optind + 1 == argc`, or not.
abbrev pub single : List Text → Bool
single (a ∷ []) = true
single _ = false

pub one_argument : (args : List Text) → ((a : Text) × (args ≡ a ∷ [])) ⊎ (single args ≡ false)
one_argument [] = inr refl
one_argument (a ∷ []) = inl (a, refl)
one_argument (a ∷ b ∷ args) = inr refl

module _ (w : Lookups) (args : List Text) (s s' : Stage) where
  target_self_same : (addr : ℕ) → target_self addr s ≡ go_on s' → s'.parm ≡ s.parm
  unfolding target_self
  target_self_same addr q = ground arith

  name_target-known : name_target w args s ≡ go_on s' → s'.locals.dstip_given ≡ s.locals.dstip_given
  unfolding name_target
  name_target-known q = ground arith

  read_mac_lem :
      (a : Text)
      → read_mac w args a s ≡ go_on s'
      → (s'.locals ≡ s.locals) × (is_mac_addr a ≡ true) × (get_mac_addr a ≡ some s'.globals.dstmac)
  unfolding read_mac
  read_mac_lem a q = (ground arith, ground arith, ground arith)

module _ (w : Lookups) (args : List Text) (s s' : Stage) where
  -- The text is the first argument.
  pub check_self-parm : check_self w args s ≡ go_on s' → s'.parm ≡ first_arg args
  unfolding check_self
  check_self-parm q = elim (Bool-cases (s.globals.finddup && not (given (first_arg args)))) [
    | inr unasked ↦ ground arith
    | inl asked ↦
        let (s1, locals, parm, globals, r) =
          with_libnet-go_on w at_self (record s { parm = first_arg args }) s'
            (target_self (w.own_ip at_self)) (ground arith) in
        target_self_same w args s1 s' (w.own_ip at_self) r ∙ parm
  ]

  -- The text stays, unless the address is known.
  pub pick_mode-parm :
      pick_mode w args s ≡ go_on s' → (s'.locals.dstip_given ≡ true) ⊎ (s'.parm ≡ s.parm)
  unfolding pick_mode
  pick_mode-parm q = elim (Target-cases s.locals.mode) [
    | inr set ↦ inr (ground arith)
    | inl unset ↦ elim (one_argument args) [
      | inl (a, one) ↦ inr (ground arith)
      | inr other ↦ elim (Bool-cases s.locals.dstip_given) [
        | inr unasked ↦ inr (ground arith)
        | inl known ↦
            let (s1, locals, parm, globals, r) =
              with_libnet-go_on w at_mode s s' (name_target w args) (ground arith) in
            inl (name_target-known w args s1 s' r ∙ ap (λ l. l.dstip_given) locals ∙ known)
      ]
    ]
  ]

  pub need_target_same :
      need_target w args s ≡ go_on s'
      → (s'.locals ≡ s.locals)
        × (s'.parm ≡ s.parm)
        × Settled s'.locals.mode
        × ((a : Text) × (s.parm ≡ some a))
  unfolding need_target
  need_target_same q = elim (Option-cases s.parm) [
    | inl e ↦ absurd (ground arith)
    | inr (a, is_a) ↦ elim (Target-cases s.locals.mode) [
      | inl unset ↦ absurd (ground arith)
      | inr set ↦
          let (s1, locals, parm, globals, r) =
            with_libnet-go_on w at_target s s' go_on (ground arith) in
          let same : s1 ≡ s' = ground arith in
          (
            ap (λ s. s.locals) (sym same) ∙ locals,
            ap (λ s. s.parm) (sym same) ∙ parm,
            subst Settled (ap (λ l. l.mode) (sym (ap (λ s. s.locals) (sym same) ∙ locals))) set,
            (a, is_a),
          )
    ]
  ]

  pub resolve_target_same : resolve_target w args s ≡ go_on s' → s'.locals ≡ s.locals
  unfolding resolve_target resolve_name
  resolve_target_same q = ground arith

  pub resolve_target-known :
      (a : Text)
      → s.parm ≡ some a
      → s.locals.mode ≡ pingip
      → s.locals.dstip_given ≡ false
      → resolve_target w args s ≡ go_on s'
      → (is_mac_addr a ≡ false) × (xresolve w a ≡ (s'.globals.dstip, true))
  unfolding resolve_target is_pingip resolve_name
  resolve_target-known a is_a ip unknown q = (ground arith, ground arith)

  pub parse_target-mac :
      s.locals.mode ≡ pingmac
      → parse_target w args s ≡ go_on s'
      → (s'.locals ≡ s.locals)
        × ((a : Text) × (args ≡ a ∷ [])
            × (is_mac_addr a ≡ true)
            × (get_mac_addr a ≡ some s'.globals.dstmac))
  unfolding parse_target
  parse_target-mac m q = elim (one_argument args) [
    | inr other ↦ absurd (ground arith)
    | inl (a, one) ↦
        let (same, is_mac, read) = read_mac_lem w args s s' a (ground arith) in
        (same, (a, one, is_mac, read))
  ]

  pub parse_target-ip : s.locals.mode ≡ pingip → parse_target w args s ≡ go_on s' → s' ≡ s
  unfolding parse_target
  parse_target-ip m q = ground arith

  pub set_target_same :
      set_target w args s ≡ go_on s'
      → (s'.locals ≡ s.locals)
        × (s'.globals.dstip ≡ s.globals.dstip)
        × (s'.globals.dstmac ≡ s.globals.dstmac)
  unfolding set_target
  set_target_same q = (ground arith, ground arith, ground arith)
