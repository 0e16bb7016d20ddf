-- ===== src/Main/Ways.antt =====
-- The ways through the last calls of `arping_main`.
use arping.Prelude.{ℕ, ◌≡◌, Option, none, some, List, [], Text, arith}
use arping.State.{Output, Globals}
use arping.Options.{Locals}
use arping.Stage.{Stage, go_on, quit}
use arping.Prepare.{Prepared, Ready, ready, stopped, prepare}
use arping.Main.{first_net, Given, returns, conclude, roll, begin, choose, after_options}

module _ {P B L : Type 0} (given : Given P B L) where
  -- The stage before the target is settled.
  abbrev pub first_stage : Locals → Globals → Stage
  first_stage l g = record { locals = l; globals = g; net = first_net; parm = none }

  -- The preparations, from there on.
  abbrev pub prepared : Stage → Text → Option (Ready P)
  prepared s ifname =
      prepare given.world s.locals given.fuel ifname s.parm given.process
        (record { cookies = 0; out = [] }) s.net s.globals

  pub begin-ready :
      (s : Stage) (ifname : Text) (p : Prepared P)
      → prepared s ifname ≡ some (ready p)
      → conclude (roll given s.locals p.globals) ≡ begin given s (some ifname)
  unfolding begin
  begin-ready s ifname p e = ground arith

  pub begin-stopped :
      (s : Stage) (ifname : Text) (n : ℕ) (out : List Output)
      → prepared s ifname ≡ some (stopped n out)
      → begin given s (some ifname) ≡ returns n out
  unfolding begin
  begin-stopped s ifname n out e = ground arith

  pub after_options-go_on :
      (l : Locals) (g : Globals) (s : Stage) (name : Option Text)
      → choose given (first_stage l g) ≡ go_on s
      → s.locals.ifname ≡ name
      → begin given s name ≡ after_options given l g
  unfolding after_options
  after_options-go_on l g s name e named = ground arith

  pub after_options-quit :
      (l : Locals) (g : Globals) (n : ℕ) (out : List Output)
      → choose given (first_stage l g) ≡ quit n out
      → after_options given l g ≡ returns n out
  unfolding after_options
  after_options-quit l g n out e = ground arith
