-- ===== src/Stage/Calls.antt =====
-- The calls of `do_libnet_init` in a step: what they leave alone, and that they lose no handle.
use arping.Prelude.{◌≤◌, ◌∙◌, ap, ℕ, ◌≡◌, refl, Bool, false, Option, none, some, Text, arith}
use arping.State.{Globals}
use arping.Handle.{Answers}
use arping.Setup.{Net, Started, started, exit_1, attempt, init_named, init_failed, do_libnet_init}
use arping.Setup.Lives.{IsNet, IsUp, do_libnet_init-IsUp}
use arping.Stage.{Stage, Step, go_on, quit, fault, on, Site, Lookups, after_init, with_libnet}

pub on-go_on :
    (x : Step) (k : Stage → Step) (s' : Stage)
    → on x k ≡ go_on s'
    → (s : Stage) × (x ≡ go_on s) × (k s ≡ go_on s')
on-go_on (go_on s) k s' q = (s, refl, q)
on-go_on (quit n out) k s' q = absurd (ground arith)
on-go_on fault k s' q = absurd (ground arith)

module _ (fuel : ℕ) (answers : Option Text → Answers) (unprivileged : Bool) where
  -- The message is all that changes in the variables.
  abbrev pub Noted : Globals → Option Started → Type 0
  Noted g x = (n : Net) (g' : Globals) → x ≡ some (started n g') → g' ≡ record g { out = g'.out }

  init_named-Noted :
      (ifname : Text) (recursive : Bool) (n : Net) (g : Globals)
      → Noted g (init_named fuel answers unprivileged ifname recursive n g)
  unfolding init_named attempt init_failed
  init_named-Noted ifname recursive n g n' g' q = ground arith

  pub do_libnet_init-Noted :
      (ifname : Option Text) (n : Net) (g : Globals)
      → Noted g (do_libnet_init fuel answers unprivileged ifname false n g)
  unfolding do_libnet_init init_named attempt init_failed
  do_libnet_init-Noted (some ifname) n g n' g' q = init_named-Noted ifname false n g n' g' q
  do_libnet_init-Noted none n g n' g' q = ground arith

after_init-go_on :
    (x : Option Started) (s s' : Stage) (k : Stage → Step)
    → after_init x s k ≡ go_on s'
    → (n : Net) × (g : Globals) × (x ≡ some (started n g))
      × (k (record s { net = n; globals = g }) ≡ go_on s')
after_init-go_on none s s' k q = absurd (ground arith)
after_init-go_on (some (started n g)) s s' k q = (n, g, refl, q)
after_init-go_on (some (exit_1 out)) s s' k q = absurd (ground arith)

-- A step that calls `do_libnet_init` and goes on, has gone on from the same variables, but for `libnet`
-- and what was printed.
pub with_libnet-go_on :
    (w : Lookups) (site : Site) (s s' : Stage) (k : Stage → Step)
    → with_libnet w site s k ≡ go_on s'
    → (s1 : Stage) × (s1.locals ≡ s.locals)
      × (s1.parm ≡ s.parm)
      × (s1.globals ≡ record s.globals { out = s1.globals.out })
      × (k s1 ≡ go_on s')
with_libnet-go_on w site s s' k q =
    let (n, g, e, r) = after_init-go_on _ s s' k q in
    (
      record s { net = n; globals = g },
      refl,
      refl,
      do_libnet_init-Noted w.fuel (w.answers site) w.unprivileged s.locals.ifname s.net s.globals n
          g e,
      r,
    )

-- What the steps up to the interface do not change, or only lower.
pub record Keeps (s s' : Stage) : Type 0 where
  pub packetwait : s'.locals.packetwait ≡ s.locals.packetwait
  pub maxcount : s'.locals.maxcount ≤ s.locals.maxcount
  pub tag : s'.globals.vlan_tag ≡ s.globals.vlan_tag
  pub numrecvd : s'.globals.numrecvd ≡ s.globals.numrecvd
  pub dupfound : s'.globals.dupfound ≡ s.globals.dupfound
  pub finddup : s'.globals.finddup ≡ s.globals.finddup

pub Keeps-same :
    (s s' : Stage)
    → s'.locals.packetwait ≡ s.locals.packetwait
    → s'.locals.maxcount ≡ s.locals.maxcount
    → s'.globals ≡ s.globals
    → Keeps s s'
Keeps-same s s' packetwait maxcount globals = record {
  packetwait = packetwait;
  maxcount = omega (arith, maxcount);
  tag = ap (λ g. g.vlan_tag) globals;
  numrecvd = ap (λ g. g.numrecvd) globals;
  dupfound = ap (λ g. g.dupfound) globals;
  finddup = ap (λ g. g.finddup) globals;
}

pub Keeps-trans : (s s1 s2 : Stage) → Keeps s s1 → Keeps s1 s2 → Keeps s s2
Keeps-trans s s1 s2 a b = record {
  packetwait = b.packetwait ∙ a.packetwait;
  maxcount = omega (arith, a.maxcount, b.maxcount);
  tag = b.tag ∙ a.tag;
  numrecvd = b.numrecvd ∙ a.numrecvd;
  dupfound = b.dupfound ∙ a.dupfound;
  finddup = b.finddup ∙ a.finddup;
}

-- A step from these variables does not fault; it goes on with `libnet` NULL or a handle on the heap,
-- or ends the program with the status 1.
abbrev pub Lives : ℕ → Stage → Step → Type 0
Lives fuel s (go_on s') = IsNet fuel s'.net × Keeps s s'
Lives fuel s (quit n out) = n ≡ 1
Lives fuel s fault = ⊥

pub Lives-Keeps :
    (fuel : ℕ) (s s1 : Stage) (x : Step) → Keeps s s1 → Lives fuel s1 x → Lives fuel s x
Lives-Keeps fuel s s1 (go_on s') k h = (h.0, Keeps-trans s s1 s' k h.1)
Lives-Keeps fuel s s1 (quit n out) k h = h
Lives-Keeps fuel s s1 fault k h = h

pub on-Lives :
    (fuel : ℕ) (s : Stage) (x : Step) (k : Stage → Step)
    → Lives fuel s x
    → ((s1 : Stage) → IsNet fuel s1.net → Lives fuel s1 (k s1))
    → Lives fuel s (on x k)
on-Lives fuel s (go_on s1) k h rest = Lives-Keeps fuel s s1 (k s1) h.1 (rest s1 h.0)
on-Lives fuel s (quit n out) k h rest = h
on-Lives fuel s fault k h rest = elim h [ ]

module _ (w : Lookups) (site : Site) (s : Stage) (k : Stage → Step) where
  -- From the variables that the call leaves.
  pub with_libnet-Lives :
      IsNet w.fuel s.net
      → ((s1 : Stage) → IsNet w.fuel s1.net → Lives w.fuel s1 (k s1))
      → Lives w.fuel s (with_libnet w site s k)
  with_libnet-Lives h rest =
      let (r, e, up) =
        do_libnet_init-IsUp w.fuel (w.answers site) w.unprivileged s.locals.ifname s.net s.globals
          h in
      called r e up
    where
      called :
          (r : Started)
          → do_libnet_init w.fuel
              (w.answers site)
              w.unprivileged
              s.locals.ifname
              false
              s.net
              s.globals
            ≡ some r
          → IsUp w.fuel r
          → Lives w.fuel s (with_libnet w site s k)
      called (started n g) e up =
          let noted =
            do_libnet_init-Noted w.fuel (w.answers site) w.unprivileged s.locals.ifname s.net
              s.globals n g e in
          let s1 : Stage = record s { net = n; globals = g } in
          rw e (
            Lives-Keeps w.fuel s s1 (k s1)
              (record {
                packetwait = refl;
                maxcount = omega arith;
                tag = ap (λ g. g.vlan_tag) noted;
                numrecvd = ap (λ g. g.numrecvd) noted;
                dupfound = ap (λ g. g.dupfound) noted;
                finddup = ap (λ g. g.finddup) noted;
              })
              (rest s1 up.1))
      called (exit_1 out) e up = rw e refl
