-- ===== src/Run/Turns.antt =====
-- A turn of `ping_loop`: what its equations are, and what sending and the clock leave as it was.
use arping.Prelude.{
  ℕ, ◌+◌, ◌≡◌, sym, subst, inl, inr, Bool, true, false, List, ◌∷◌, ◌||◌, leb, ltb_ℤ, ◌==◌, ℤ, pos,
  arith, Bool-cases,
}
use arping.Host.Clock.{Reading}
use arping.State.{Output, Globals, getclock}
use arping.Await.{Handler, Ending, leave, again, exit_1, ping_recv}
use arping.Await.Hears.{Listener}
use arping.Wait.{wait_time}
use arping.Send.{Sender}
use arping.Send.Counts.{sent}
use arping.Run.{Turn, Mode, done, waiting, exited, ping_loop}

module _ {A : Type 0} {func : Handler} (li : Listener A func) where
  timed-Stands :
      (g : Globals) (ms : List A) (r : Reading) → li.Stands g ms → li.Stands (getclock r g).1 ms
  unfolding getclock
  timed-Stands g ms r h = li.prints g ms _ (r.failed || g.time_to_die) h

  pub wait_time-Stands :
      (g : Globals) (ms : List A) (r : Reading) (deadline : ℤ) (packetwait : ℕ)
      → li.Stands g ms
      → li.Stands (wait_time r deadline packetwait g).1 ms
  unfolding wait_time
  wait_time-Stands g ms r deadline packetwait h = elim (Bool-cases (ltb_ℤ deadline (pos 0))) [
    | inl never ↦ rw never h
    | inr some_day ↦ rw some_day (timed-Stands g ms r h)
  ]

-- Sending, with any numbers in the packet, changes no more than `sent`.
abbrev pub Sends : {L : Type 0} → Mode L → Type 0
Sends {L = L} mode =
    (c : ℕ) (t : Turn) (s : Sender L)
    → (die : Bool) × (out : List Output) × ((mode.send c t s).globals
        ≡ sent die t.after s.globals out)

module _ {L : Type 0} (mode : Mode L) (maxcount packetwait : ℕ) (deadline : ℤ) where
  abbrev pub sends : ℕ → Turn → Sender L → Sender L
  sends c t s = mode.send c t s

  abbrev pub wait : ℕ → Turn → Sender L → ℕ × Globals
  wait c t s = wait_time t.waited deadline packetwait (sends c t s).globals

  abbrev pub received : ℕ → Turn → Sender L → Ending
  received c t s = ping_recv mode.recv (wait c t s).0 t.start t.has_fd t.rounds (wait c t s).1

  pub sends-Stands :
      {A : Type 0} (li : Listener A mode.recv) (h : Sends mode) (c : ℕ) (t : Turn) (s : Sender L)
      (ms : List A)
      → li.Stands s.globals ms
      → li.Stands (wait c t s).1 ms
  sends-Stands li h c t s ms r =
      let (die, out, q) = h c t s in
      wait_time-Stands li (sends c t s).globals ms t.waited deadline packetwait
        (subst (λ g. li.Stands g ms) (sym q) (li.sends s.globals ms die t.after out r))

  module _ (c : ℕ) (t : Turn) (ts : List Turn) (s : Sender L) (g : Globals) where
    pub loop-stop :
        leb maxcount c || s.globals.time_to_die ≡ true
        → ping_loop mode maxcount packetwait deadline c (t ∷ ts) s ≡ done s
    unfolding ping_loop
    loop-stop q = ground arith

    pub loop-no_wait :
        leb maxcount c || s.globals.time_to_die ≡ false
        → ((wait c t s).0 == 0) ≡ true
        → ping_loop mode maxcount packetwait deadline c (t ∷ ts) s
          ≡ done (record (sends c t s) { globals = (wait c t s).1 })
    unfolding ping_loop
    loop-no_wait q z = ground arith

    pub loop-leave :
        leb maxcount c || s.globals.time_to_die ≡ false
        → ((wait c t s).0 == 0) ≡ false
        → received c t s ≡ leave g
        → ping_loop mode maxcount packetwait deadline c (t ∷ ts) s
          ≡ ping_loop mode maxcount packetwait deadline
              (c + 1)
              ts
              (record (sends c t s) { globals = g })
    unfolding ping_loop
    loop-leave q z r = ground arith

    pub loop-again :
        leb maxcount c || s.globals.time_to_die ≡ false
        → ((wait c t s).0 == 0) ≡ false
        → received c t s ≡ again g
        → ping_loop mode maxcount packetwait deadline c (t ∷ ts) s
          ≡ waiting (record (sends c t s) { globals = g })
    unfolding ping_loop
    loop-again q z r = ground arith

    pub loop-exit :
        leb maxcount c || s.globals.time_to_die ≡ false
        → ((wait c t s).0 == 0) ≡ false
        → received c t s ≡ exit_1 g
        → ping_loop mode maxcount packetwait deadline c (t ∷ ts) s ≡ exited g
    unfolding ping_loop
    loop-exit q z r = ground arith
