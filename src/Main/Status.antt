-- ===== src/Main/Status.antt =====
-- `arping_main` reports success only after one.
use arping.Prelude.{
  ℕ, ◌≡◌, ◌≢◌, refl, subst, ◌⊎◌, inl, inr, true, false, Option, none, some, List, [], Text, length,
  arith, Bool-cases, Option-cases,
}
use arping.State.{Output, Globals}
use arping.Usage.{has_help}
use arping.Options.{Locals, next, exit, first_locals, first_globals}
use arping.Options.Switch.{parse}
use arping.Options.Exits.{AsksHelp, parse-AsksHelp}
use arping.Options.Bounds.{Parsed-cases}
use arping.Stage.{Stage, Step, go_on, quit, fault}
use arping.Stage.Calls.{Lives, on-Lives}
use arping.Setup.Lives.{IsNet}
use arping.Prepare.{Prepared, ready, stopped}
use arping.Send.{Sender}
use arping.Run.{Finish, done, waiting, broken, exited, exit_status}
use arping.Run.Closing.{closing}
use arping.Main.{
  Given, returns, conclude, first_net, roll, begin, lookups, choose, after_options, arping_main,
}
use arping.Main.Ways.{prepared, first_stage}
use arping.Main.Lives.{settle-Lives, choose_target-Lives, find_interface-Lives}
use arping.Prepare.Stops.{prepare-stopped}

pub closing_same :
    (g : Globals)
    → ((closing g).numrecvd ≡ g.numrecvd)
      × ((closing g).finddup ≡ g.finddup)
      × ((closing g).dupfound ≡ g.dupfound)
unfolding closing
closing_same g = (ground arith, ground arith, ground arith)

-- With -d no two replies in a row had different senders; without it there was a reply.
abbrev pub Succeeded : Globals → Type 0
Succeeded g = (g.finddup ≡ true) × (g.dupfound ≡ false) ⊎ (g.finddup ≡ false) × (g.numrecvd ≢ 0)

exit_status-Succeeded : (g : Globals) → exit_status g ≡ 0 → Succeeded g
unfolding exit_status
exit_status-Succeeded g q = ground arith

conclude-done :
    {L : Type 0} (x : Finish L) (out : List Output)
    → conclude x ≡ returns 0 out
    → (s : Sender L) × (x ≡ done s) × Succeeded s.globals
unfolding conclude
conclude-done (done s) out q =
    let (n, f, d) = closing_same s.globals in
    let success : Succeeded (closing s.globals) =
      exit_status-Succeeded (closing s.globals) (ground arith) in
    (s, refl, ground arith)
conclude-done (waiting s) out q = absurd (ground arith)
conclude-done broken out q = absurd (ground arith)
conclude-done (exited g) out q = absurd (ground arith)

pub Step-cases :
    (x : Step)
    → ((s : Stage) × (x ≡ go_on s))
      ⊎ (((n : ℕ) × (out : List Output) × (x ≡ quit n out)) ⊎ (x ≡ fault))
Step-cases (go_on s) = inl (s, refl)
Step-cases (quit n out) = inr (inl (n, out, refl))
Step-cases fault = inr (inr refl)

-- `libnet` is NULL, and the heap is empty.
pub first_net-IsNet : (fuel : ℕ) → IsNet fuel first_net
first_net-IsNet fuel = record {
  heap = record { bound = λ q le. refl; no_null = (refl, omega arith) };
  handle = inl refl;
}

module _ {P B L : Type 0} (given : Given P B L) where
  -- The steps from the interface on, with a loop that ran to its end and has succeeded.
  abbrev pub IsBegun : Stage → Type 0
  IsBegun s =
      (ifname : Text) × (p : Prepared P) × (end : Sender L) × (s.locals.ifname ≡ some ifname)
      × (prepared given s ifname ≡ some (ready p))
      × (roll given s.locals p.globals ≡ done end)
      × Succeeded end.globals

  abbrev pub IsRun : Type 0
  IsRun =
      (l : Locals) × (g : Globals) × (s : Stage) × (parse given.atof given.options first_locals
          first_globals
        ≡ next l g)
      × (choose given (first_stage given l g) ≡ go_on s)
      × IsBegun s

  begin-IsBegun :
      (s : Stage) (name : Option Text) (out : List Output)
      → s.locals.ifname ≡ name
      → begin given s name ≡ returns 0 out
      → IsBegun s
  unfolding begin
  begin-IsBegun s none out named q = absurd (ground arith)
  begin-IsBegun s (some ifname) out named q = elim (Option-cases (prepared given s ifname)) [
    | inl e ↦ absurd (ground arith)
    | inr (stopped n o, e) ↦ absurd (
        ground (
          arith,
          prepare-stopped given.world s.locals given.fuel ifname s.parm given.process
              (record { cookies = 0; out = [] }) s.net s.globals n o e,
        ))
    | inr (ready p, e) ↦
        let (end, d, success) = conclude-done (roll given s.locals p.globals) out (ground arith) in
        (ifname, p, end, named, e, d, success)
  ]

  pub choose-Lives : (s : Stage) → IsNet given.fuel s.net → Lives given.fuel s (choose given s)
  unfolding choose
  choose-Lives s h =
      on-Lives given.fuel s _ _ (settle-Lives (lookups given) given.args (length given.args) s h)
        (λ s1 h1.
          on-Lives given.fuel s1 _ _ (choose_target-Lives (lookups given) given.args s1 h1)
            (λ s2. find_interface-Lives given.fuel given.endian given.devices s2))

  after_options-IsBegun :
      (l : Locals) (g : Globals) (out : List Output)
      → after_options given l g ≡ returns 0 out
      → (s : Stage) × (choose given (first_stage given l g) ≡ go_on s) × IsBegun s
  unfolding after_options
  after_options-IsBegun l g out q =
      let lives = choose-Lives (first_stage given l g) (first_net-IsNet given.fuel) in
      elim (Step-cases (choose given (first_stage given l g))) [
        | inl (s, e) ↦ (s, e, begin-IsBegun s s.locals.ifname out refl (ground arith))
        | inr (inl (n, o, e)) ↦
            let one : n ≡ 1 = subst (Lives given.fuel (first_stage given l g)) e lives in
            absurd (ground arith)
        | inr (inr e) ↦ absurd (ground arith)
      ]

  parsed_0 :
      (n : ℕ) (o out : List Output)
      → has_help given.argv ≡ false
      → parse given.atof given.options first_locals first_globals ≡ exit n o
      → arping_main given ≡ returns 0 out
      → parse given.atof given.options first_locals first_globals ≡ exit 0 out
  unfolding arping_main
  parsed_0 n o out h e q = ground arith

  parsed_next :
      (l : Locals) (g : Globals) (out : List Output)
      → has_help given.argv ≡ false
      → parse given.atof given.options first_locals first_globals ≡ next l g
      → arping_main given ≡ returns 0 out
      → after_options given l g ≡ returns 0 out
  unfolding arping_main
  parsed_next l g out h e q = ground arith

  -- `arping_main` returns 0 only where --help was given, or -h after options that do not end the program, or
  -- the options were settled, the target and the interface chosen, and libnet and libpcap prepared
  -- without an error, and the loop of packets then ran to its end; and with -d no duplicate was found
  -- there, and without it a reply was received. No error on the way ends with 0.
  pub arping_main-success :
      (out : List Output)
      → arping_main given ≡ returns 0 out
      → (has_help given.argv ≡ true)
        ⊎ (AsksHelp given.atof given.options first_locals first_globals ⊎ IsRun)
  arping_main-success out q = elim (Bool-cases (has_help given.argv)) [
    | inl help ↦ inl help
    | inr none_asked ↦
        elim (Parsed-cases (parse given.atof given.options first_locals first_globals)) [
          | inr (n, o, e) ↦ inr (
              inl (
                parse-AsksHelp given.atof given.options first_locals first_globals out
                  (parsed_0 n o out none_asked e q)))
          | inl (l, g, e) ↦
              let (s, chosen, begun) =
                after_options-IsBegun l g out (parsed_next l g out none_asked e q) in
              inr (inr (l, g, s, e, chosen, begun))
        ]
  ]
