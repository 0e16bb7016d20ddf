-- ===== src/Main/Kept.antt =====
-- What the options, the choice of the target and the deadline leave as it was.
use arping.Prelude.{◌≡◌, ◌⊎◌, ◌∙◌, inl, inr, List, [], ◌∷◌, Text, length, arith, ℤ}
use arping.Host.Order.{Endian}
use arping.State.{Globals, getclock}
use arping.Options.{pingmac, pingip, Locals, next}
use arping.Options.Switch.{Opt, switch, parse}
use arping.Options.Bounds.{Parsed-cases}
use arping.Options.Settle.{settle, xresolve}
use arping.Stage.{Stage, go_on}
use arping.Stage.Calls.{on-go_on}
use arping.Choose.{
  Devices, or_default, lookup_lan, lookup_default, say_none, odd_interface, choose_target,
  find_interface,
}
use arping.Choose.Goal.{HasTarget, HasTarget-same, choose_target-HasTarget}
use arping.Prepare.Keeps.{Same}
use arping.Run.{start_deadline}
use arping.Main.{Given, lookups, choose}

-- What the options leave at its value in `first_globals`.
switch-counts :
    (atof : Text → ℤ) (o : Opt) (l l' : Locals) (g g' : Globals)
    → switch atof o l g ≡ next l' g'
    → (g'.numrecvd ≡ g.numrecvd) × (g'.dupfound ≡ g.dupfound)
unfolding switch
switch-counts atof o l l' g g' q = (ground arith, ground arith)

pub parse-counts :
    (atof : Text → ℤ) (os : List Opt) (l l' : Locals) (g g' : Globals)
    → parse atof os l g ≡ next l' g'
    → (g'.numrecvd ≡ g.numrecvd) × (g'.dupfound ≡ g.dupfound)
unfolding parse
parse-counts atof [] l l' g g' q = (ground arith, ground arith)
parse-counts atof (o ∷ os) l l' g g' q = elim (Parsed-cases (switch atof o l g)) [
  | inl (l1, g1, e) ↦
      let (n, d) = switch-counts atof o l l1 g g1 e in
      let (n1, d1) = parse-counts atof os l1 l' g1 g' (ground arith) in (n1 ∙ n, d1 ∙ d)
  | inr (m, out, e) ↦ absurd (ground arith)
]

pub find_interface_same :
    (e : Endian) (devices : Devices) (s s' : Stage)
    → find_interface e devices s ≡ go_on s'
    → (s'.locals.mode ≡ s.locals.mode)
      × (s'.locals.dstip_given ≡ s.locals.dstip_given)
      × (s'.globals.dstip ≡ s.globals.dstip)
      × (s'.globals.dstmac ≡ s.globals.dstmac)
unfolding find_interface or_default lookup_lan lookup_default say_none odd_interface
find_interface_same e devices s s' q = (ground arith, ground arith, ground arith, ground arith)

module _ {P B L : Type 0} (given : Given P B L) where
  pub choose-HasTarget :
      (s s' : Stage)
      → choose given s ≡ go_on s'
      → HasTarget (xresolve (lookups given)) given.args s'.locals s'.globals
  unfolding choose
  choose-HasTarget s s' q =
      let (s1, e1, q1) = on-go_on (settle (lookups given) (length given.args) s) _ s' q in
      let (s2, e2, q2) = on-go_on (choose_target (lookups given) given.args s1) _ s' q1 in
      let (mode, known, ip, mac) = find_interface_same given.endian given.devices s2 s' q2 in
      HasTarget-same (xresolve (lookups given)) given.args s2.locals s'.locals s2.globals s'.globals
        mode known ip mac (choose_target-HasTarget (lookups given) given.args s1 s2 e2)

  pub target_mode :
      (l : Locals) (g : Globals)
      → HasTarget (xresolve (lookups given)) given.args l g
      → (l.mode ≡ pingmac) ⊎ (l.mode ≡ pingip)
  target_mode l g (HasTarget.of_mac a mode one is_mac read) = inl mode
  target_mode l g (HasTarget.known mode given_already) = inr mode
  target_mode l g (HasTarget.of_name a mode first no_mac found) = inr mode

  pub start_deadline-Same :
      (deadline : ℤ) (g : Globals) → Same g (start_deadline given.clock deadline g).1
  unfolding start_deadline getclock
  start_deadline-Same deadline g = record {
    tag = ground arith;
    numrecvd = ground arith;
    dupfound = ground arith;
    finddup = ground arith;
    dstip = ground arith;
    dstmac = ground arith;
  }
