-- ===== src/Run/Exits.antt =====
-- Where a wait ends the program: `pcap_get_selectable_fd` has returned -1.
use arping.Prelude.{
  ℕ, ◌+◌, ◌≡◌, ◌≢◌, ◌⊎◌, inl, inr, true, false, List, [], ◌∷◌, ◌||◌, leb, ◌==◌, ℤ, arith,
  Bool-cases, Bool, refl,
}
use arping.Host.Clock.{Timespec, Reading}
use arping.State.{Globals}
use arping.Await.{
  Handler, Select, expired, interrupted, failed, ready, Round, exit_1, end_round, after_select,
  round, rounds, ping_recv,
}
use arping.Await.Counts.{Ending-cases}
use arping.Send.{Sender}
use arping.Run.{Turn, Mode, exited, ping_loop}
use arping.Run.Turns.{wait, received}

-- One of the turns has no descriptor to select on.
abbrev pub HasNoFd : List Turn → Type 0
HasNoFd [] = ⊥
HasNoFd (t ∷ ts) = (t.has_fd ≡ false) ⊎ HasNoFd ts

module _ (func : Handler) where
  end_round_goes_on : (done : Bool) (g g' : Globals) → end_round done g ≢ exit_1 g'
  unfolding end_round
  end_round_goes_on done g g' q = ground arith

  after_select_goes_on :
      (old : ℕ) (done : Bool) (s : Select) (g g' : Globals)
      → after_select func old done s g ≢ exit_1 g'
  unfolding after_select end_round
  after_select_goes_on old done expired g g' q = ground arith
  after_select_goes_on old done interrupted g g' q = ground arith
  after_select_goes_on old done failed g g' q = ground arith
  after_select_goes_on old done (ready ds) g g' q = ground arith

  module _ (packetwait : ℕ) (endtime : Timespec) (old : ℕ) where
    round_goes_on :
        (rd : Round) (g g' : Globals) → round func packetwait endtime old rd g ≢ exit_1 g'
    unfolding round
    round_goes_on rd g g' q = grind (arith, after_select_goes_on)

    rounds_go_on :
        (rds : List Round) (g g' : Globals) → rounds func packetwait endtime old rds g ≢ exit_1 g'
    unfolding rounds
    rounds_go_on [] g g' q = ground arith
    rounds_go_on (rd ∷ rds) g g' q = elim (Ending-cases (round func packetwait endtime old rd g)) [
      | inl (inl (g1, e)) ↦ ground arith
      | inl (inr (g1, e)) ↦ rounds_go_on rds g1 g' (ground arith)
      | inr (inl e) ↦ ground arith
      | inr (inr (g1, e)) ↦ round_goes_on rd g g1 e
    ]

ping_recv-exit :
    (func : Handler) (packetwait : ℕ) (start : Reading) (has_fd : Bool) (rds : List Round)
    (g g' : Globals)
    → ping_recv func packetwait start has_fd rds g ≡ exit_1 g'
    → has_fd ≡ false
unfolding ping_recv
ping_recv-exit func packetwait start true rds g g' q =
    absurd (rounds_go_on func packetwait _ _ rds _ g' q)
ping_recv-exit func packetwait start false rds g g' q = refl

module _ {L : Type 0} (mode : Mode L) (maxcount packetwait : ℕ) (deadline : ℤ) where
  -- The loop ends the program only so.
  pub ping_loop-HasNoFd :
      (c : ℕ) (ts : List Turn) (s : Sender L) (g : Globals)
      → ping_loop mode maxcount packetwait deadline c ts s ≡ exited g
      → HasNoFd ts
  unfolding ping_loop
  ping_loop-HasNoFd c [] s g q = absurd (ground arith)
  ping_loop-HasNoFd c (t ∷ ts) s g q =
      let w = wait mode maxcount packetwait deadline c t s in
      elim (Bool-cases (leb maxcount c || s.globals.time_to_die)) [
        | inl stop ↦ absurd (ground arith)
        | inr go ↦ elim (Bool-cases (w.0 == 0)) [
          | inl zero ↦ absurd (ground arith)
          | inr some_wait ↦ elim (Ending-cases (received mode maxcount packetwait deadline c t s)) [
            | inl (inl (g1, e)) ↦ inr (
                ping_loop-HasNoFd (c + 1) ts (record (mode.send c t s) { globals = g1 }) g
                  (ground arith))
            | inl (inr (g1, e)) ↦ absurd (ground arith)
            | inr (inl e) ↦ absurd (ground arith)
            | inr (inr (g1, e)) ↦
                inl (ping_recv-exit mode.recv w.0 t.start t.has_fd t.rounds w.1 g1 e)
          ]
        ]
      ]
