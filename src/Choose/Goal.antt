-- ===== src/Choose/Goal.antt =====
-- The target: when `arping_main` goes on to the interface, it has one that fits the mode.
use arping.Prelude.{
  ℕ, ◌≡◌, ◌∙◌, ap, sym, ◌⊎◌, inl, inr, Bool, true, false, some, List, [], ◌∷◌, Text, arith,
  Bool-cases,
}
use arping.State.{Globals}
use arping.Mac.{is_mac_addr}
use arping.Mac.Scan.{get_mac_addr}
use arping.Options.{pingmac, pingip, Locals}
use arping.Options.Settle.{xresolve}
use arping.Stage.{Stage, go_on, Lookups}
use arping.Stage.Calls.{on-go_on}
use arping.Choose.{
  first_arg, check_self, pick_mode, need_target, resolve_target, parse_target, choose_target,
}
use arping.Choose.Moves.{
  check_self-parm, pick_mode-parm, need_target_same, resolve_target_same, resolve_target-known,
  parse_target-mac, parse_target-ip, set_target_same,
}

-- A target for the mode. For a MAC address: it was read from the one argument. For an IP address: it
-- was known before, or libnet has just resolved it from a text that is no MAC address.
pub data HasTarget (resolved : Text → ℕ × Bool) (args : List Text) (l : Locals) (g : Globals)
    : Type 0 where
  of_mac :
      (a : Text)
      → l.mode ≡ pingmac
      → args ≡ a ∷ []
      → is_mac_addr a ≡ true
      → get_mac_addr a ≡ some g.dstmac
      → HasTarget resolved args l g
  known : l.mode ≡ pingip → l.dstip_given ≡ true → HasTarget resolved args l g
  of_name :
      (a : Text)
      → l.mode ≡ pingip
      → first_arg args ≡ some a
      → is_mac_addr a ≡ false
      → resolved a ≡ (g.dstip, true)
      → HasTarget resolved args l g

pub HasTarget-same :
    (resolved : Text → ℕ × Bool) (args : List Text) (l l' : Locals) (g g' : Globals)
    → l'.mode ≡ l.mode
    → l'.dstip_given ≡ l.dstip_given
    → g'.dstip ≡ g.dstip
    → g'.dstmac ≡ g.dstmac
    → HasTarget resolved args l g
    → HasTarget resolved args l' g'
HasTarget-same resolved args l l' g g' m d ip mac (of_mac a mode one is_mac read) =
    of_mac a (m ∙ mode) one is_mac (read ∙ ap some (sym mac))
HasTarget-same resolved args l l' g g' m d ip mac (known mode given) = known (m ∙ mode) (d ∙ given)
HasTarget-same resolved args l l' g g' m d ip mac (of_name a mode first no_mac found) =
    of_name a (m ∙ mode) first no_mac (found ∙ ap (λ x. (x, true)) (sym ip))

module _ (w : Lookups) (args : List Text) where
  -- The last steps, for each mode.
  parsed-mac :
      (s2 s3 s' : Stage)
      → s2.locals.mode ≡ pingmac
      → resolve_target w args s2 ≡ go_on s3
      → parse_target w args s3 ≡ go_on s'
      → HasTarget (xresolve w) args s'.locals s'.globals
  parsed-mac s2 s3 s' mac find parse =
      let mac3 : s3.locals.mode ≡ pingmac =
        ap (λ l. l.mode) (resolve_target_same w args s2 s3 find) ∙ mac in
      let (same, (a, one, is_mac, read)) = parse_target-mac w args s3 s' mac3 parse in
      of_mac a (ap (λ l. l.mode) same ∙ mac3) one is_mac read

  parsed-ip :
      (s2 s3 s' : Stage) (a : Text)
      → s2.locals.mode ≡ pingip
      → s2.parm ≡ some a
      → (s2.locals.dstip_given ≡ true) ⊎ (s2.parm ≡ first_arg args)
      → resolve_target w args s2 ≡ go_on s3
      → parse_target w args s3 ≡ go_on s'
      → HasTarget (xresolve w) args s'.locals s'.globals
  parsed-ip s2 s3 s' a ip is_a given find parse =
      let kept = resolve_target_same w args s2 s3 find in
      let ip3 : s3.locals.mode ≡ pingip = ap (λ l. l.mode) kept ∙ ip in
      let same = parse_target-ip w args s3 s' ip3 parse in
      let locals : s'.locals ≡ s2.locals = ap (λ s. s.locals) same ∙ kept in
      let mode : s'.locals.mode ≡ pingip = ap (λ l. l.mode) locals ∙ ip in
      elim (Bool-cases s2.locals.dstip_given) [
        | inl g ↦ known mode (ap (λ l. l.dstip_given) locals ∙ g)
        | inr unknown ↦
            let (no_mac, found) = resolve_target-known w args s2 s3 a is_a ip unknown find in
            of_name a mode
              (elim given [ inl g ↦ absurd (ground arith) | inr first ↦ sym first ∙ is_a ]) no_mac
              (found ∙ ap (λ s. (s.globals.dstip, true)) (sym same))
      ]

  settled-HasTarget :
      (s1 s2 s3 s4 s' : Stage)
      → s1.parm ≡ first_arg args
      → pick_mode w args s1 ≡ go_on s2
      → need_target w args s2 ≡ go_on s3
      → resolve_target w args s3 ≡ go_on s4
      → parse_target w args s4 ≡ go_on s'
      → HasTarget (xresolve w) args s'.locals s'.globals
  settled-HasTarget s1 s2 s3 s4 s' first pick need find parse =
      let (locals, parm, settled, (a, is_a)) = need_target_same w args s2 s3 need in
      elim settled [
        | inl mac ↦ parsed-mac s3 s4 s' mac find parse
        | inr ip ↦
            parsed-ip s3 s4 s' a ip (parm ∙ is_a)
              (elim (pick_mode-parm w args s1 s2 pick) [
                | inl given ↦ inl (ap (λ l. l.dstip_given) locals ∙ given)
                | inr same ↦ inr (parm ∙ same ∙ first)
              ])
              find parse
      ]

  -- If `arping_main` goes on to the interface, it has a mode and a target that fits it, whatever libnet
  -- answers. For a MAC address that is the one argument, which `is_mac_addr` takes and `get_mac_addr`
  -- has read into `dstmac`. For an IP address it was known before, or the first argument is no MAC
  -- address and `xresolve` has found the address that is in `dstip`.
  pub choose_target-HasTarget :
      (s s' : Stage)
      → choose_target w args s ≡ go_on s'
      → HasTarget (xresolve w) args s'.locals s'.globals
  unfolding choose_target
  choose_target-HasTarget s s' q =
      let (s1, e1, q1) = on-go_on (check_self w args s) _ s' q in
      let (s2, e2, q2) = on-go_on (pick_mode w args s1) _ s' q1 in
      let (s3, e3, q3) = on-go_on (need_target w args s2) _ s' q2 in
      let (s4, e4, q4) = on-go_on (resolve_target w args s3) _ s' q3 in
      let (s5, e5, q5) = on-go_on (parse_target w args s4) _ s' q4 in
      let (same, ip, mac) = set_target_same w args s5 s' q5 in
      let mode : s'.locals.mode ≡ s5.locals.mode = ap (λ l. l.mode) same in
      let given_too : s'.locals.dstip_given ≡ s5.locals.dstip_given =
        ap (λ l. l.dstip_given) same in
      HasTarget-same (xresolve w) args s5.locals s'.locals s5.globals s'.globals mode given_too ip
        mac (settled-HasTarget s1 s2 s3 s4 s5 (check_self-parm w args s s1 e1) e2 e3 e4 e5)
