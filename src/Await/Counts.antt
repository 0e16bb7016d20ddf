-- ===== src/Await/Counts.antt =====
-- `ping_recv` does not count packets sent, if its handler does not.
use arping.Prelude.{
  ℕ, ◌⊎◌, inl, inr, ◌≡◌, ◌∙◌, refl, Bool, true, false, Option, none, some, List, [], ◌∷◌, arith,
  if◌then◌else◌,
}
use arping.Host.Order.{Packet}
use arping.Host.Clock.{Timespec, Reading}
use arping.State.{Globals, getclock}
use arping.Recv.{PktHdr}
use arping.Await.{
  Delivery, Select, expired, interrupted, failed, ready, Handler, Round, Ending, leave, again,
  fault, exit_1, dispatch, end_round, after_select, round, rounds, ping_recv,
}

-- A handler does not count packets sent.
abbrev pub Keeps : Handler → Type 0
Keeps recv =
    (r : Reading) (h : PktHdr) (p : Packet) (g g' : Globals)
    → recv r h p g ≡ some g'
    → g'.numsent ≡ g.numsent

Option-cases : {A : Type 0} (x : Option A) → (x ≡ none) ⊎ ((a : A) × (x ≡ some a))
Option-cases none = inl refl
Option-cases (some a) = inr (a, refl)

pub Ending-cases :
    (x : Ending)
    → (((g : Globals) × (x ≡ leave g)) ⊎ ((g : Globals) × (x ≡ again g)))
      ⊎ ((x ≡ fault) ⊎ ((g : Globals) × (x ≡ exit_1 g)))
Ending-cases (leave g) = inl (inl (g, refl))
Ending-cases (again g) = inl (inr (g, refl))
Ending-cases fault = inr (inl refl)
Ending-cases (exit_1 g) = inr (inr (g, refl))

-- The globals that a round leaves.
abbrev Kept : ℕ → Ending → Type 0
Kept n x = (g' : Globals) → ((x ≡ leave g') ⊎ (x ≡ again g')) → g'.numsent ≡ n

module _ (func : Handler) (keeps : Keeps func) where
  dispatch-numsent :
      (ds : List Delivery) (g g' : Globals) → dispatch func ds g ≡ some g' → g'.numsent ≡ g.numsent
  unfolding dispatch
  dispatch-numsent [] g g' q = ground arith
  dispatch-numsent (d ∷ ds) g g' q = elim (Option-cases (func d.clock d.header d.packet g)) [
    | inl e ↦ absurd (ground arith)
    | inr (g1, e) ↦
        dispatch-numsent ds g1 g' (ground arith) ∙ keeps d.clock d.header d.packet g g1 e
  ]

  end_round-Kept : (done : Bool) (g : Globals) → Kept g.numsent (end_round done g)
  unfolding end_round
  end_round-Kept true g g' q = ground arith
  end_round-Kept false g g' q = ground arith

  after_select-Kept :
      (old : ℕ) (done : Bool) (s : Select) (g : Globals)
      → Kept g.numsent (after_select func old done s g)
  unfolding after_select
  after_select-Kept old done expired g g' q = ground arith
  after_select-Kept old done interrupted g g' q = end_round-Kept done g g' q
  after_select-Kept old done failed g g' q = ground arith
  after_select-Kept old done (ready ds) g g' q = elim (Option-cases (dispatch func ds g)) [
    | inl e ↦ absurd (ground arith)
    | inr (g1, e) ↦ end_round-Kept done g1 g' (ground arith) ∙ dispatch-numsent ds g g1 e
  ]

  module _ (packetwait : ℕ) (endtime : Timespec) (old : ℕ) where
    stop-Kept :
        (stop done : Bool) (s : Select) (g : Globals)
        → Kept g.numsent (if stop then leave g else after_select func old done s g)
    stop-Kept true done s g g' q = ground arith
    stop-Kept false done s g g' q = after_select-Kept old done s g g' q

    round-Kept :
        (rd : Round) (g : Globals) → Kept g.numsent (round func packetwait endtime old rd g)
    unfolding round getclock
    round-Kept rd g g' q = stop-Kept _ _ rd.select _ g' q

    rounds-Kept :
        (rds : List Round) (g : Globals) → Kept g.numsent (rounds func packetwait endtime old rds g)
    unfolding rounds
    rounds-Kept [] g g' q = ground arith
    rounds-Kept (rd ∷ rds) g g' q = elim (Ending-cases (round func packetwait endtime old rd g)) [
      | inl (inl (g1, e)) ↦ ground (arith, round-Kept rd g g1 (inl e))
      | inl (inr (g1, e)) ↦ rounds-Kept rds g1 g' (ground arith) ∙ round-Kept rd g g1 (inr e)
      | inr (inl e) ↦ absurd (ground arith)
      | inr (inr (g1, e)) ↦ absurd (ground arith)
    ]

  pub ping_recv-numsent :
      (packetwait : ℕ) (start : Reading) (has_fd : Bool) (rds : List Round) (g g' : Globals)
      → ping_recv func packetwait start has_fd rds g ≡ leave g'
      → g'.numsent ≡ g.numsent
  unfolding ping_recv getclock
  ping_recv-numsent packetwait start false rds g g' q = ground arith
  ping_recv-numsent packetwait start true rds g g' q = rounds-Kept packetwait _ _ rds _ g' (inl q)
