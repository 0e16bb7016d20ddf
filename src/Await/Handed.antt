-- ===== src/Await/Handed.antt =====
-- The packets that `ping_recv` hands to its handler: those of the rounds that are made. A round that
-- finds `time_to_die` set leaves before `select`.
use arping.Prelude.{
  ℕ, ◌≤◌, ◌≡◌, ap, refl, inl, inr, Bool, true, false, List, [], ◌∷◌, ◌++◌, ◌||◌, if◌then◌else◌,
  arith, length, length-append, append-nil,
}
use arping.Host.Clock.{Timespec, Reading}
use arping.State.{Globals, note, getclock}
use arping.Await.{Handler, Delivery, Round, leave, again, exit_1, round, end_of}
use arping.Await.Counts.{Ending-cases}
use arping.Await.Hears.{delivered, all_delivered}

abbrev pub handed : Round → Globals → List Delivery
handed rd g = if rd.signalled || (rd.clock.failed || g.time_to_die) then [] else delivered rd.select

pub handed-length : (rd : Round) (g : Globals) → length (handed rd g) ≤ length (delivered rd.select)
handed-length rd g = ground arith

module _ (func : Handler) (packetwait : ℕ) (endtime : Timespec) (old : ℕ) where
  -- One round after the other, while they go on.
  unfoldable pub handed_rounds : List Round → Globals → List Delivery
  handed_rounds [] g = []
  handed_rounds (rd ∷ rds) g =
      handed rd g
      ++ elim (round func packetwait endtime old rd g) [ again g' ↦ handed_rounds rds g' | _ ↦ [] ]

  module _ (rd : Round) (rds : List Round) (g g' : Globals) where
    pub handed-leave :
        round func packetwait endtime old rd g ≡ leave g' → handed_rounds (rd ∷ rds) g ≡ handed rd g
    unfolding handed_rounds
    handed-leave q = rw q (append-nil (handed rd g))

    pub handed-exit :
        round func packetwait endtime old rd g ≡ exit_1 g'
        → handed_rounds (rd ∷ rds) g ≡ handed rd g
    unfolding handed_rounds
    handed-exit q = rw q (append-nil (handed rd g))

    pub handed-again :
        round func packetwait endtime old rd g ≡ again g'
        → handed_rounds (rd ∷ rds) g ≡ handed rd g ++ handed_rounds rds g'
    unfolding handed_rounds
    handed-again q = rw q refl

  -- No more than are delivered.
  pub handed_rounds-length :
      (rds : List Round) (g : Globals) → length (handed_rounds rds g) ≤ length (all_delivered rds)
  unfolding handed_rounds
  handed_rounds-length [] g = omega arith
  handed_rounds-length (rd ∷ rds) g =
      let here = handed-length rd g in
      let both = length-append (delivered rd.select) (all_delivered rds) in
      elim (Ending-cases (round func packetwait endtime old rd g)) [
        | inl (inl (g', q)) ↦ rw q (omega (arith, here, both, ap length (append-nil (handed rd g))))
        | inl (inr (g', q)) ↦ rw q (
            omega (
              arith,
              here,
              both,
              length-append (handed rd g) (handed_rounds rds g'),
              handed_rounds-length rds g',
            ))
        | inr (inl q) ↦ rw q (omega (arith, here, both, ap length (append-nil (handed rd g))))
        | inr (inr (g', q)) ↦ rw q (omega (arith, here, both, ap length (append-nil (handed rd g))))
      ]

-- In the whole wait.
unfoldable pub handed_recv : Handler → ℕ → Reading → Bool → List Round → Globals → List Delivery
handed_recv func packetwait clock has_fd rds g =
    let (now, g1) = getclock clock (note g 3 "arping: receiving packets...") in
    if has_fd then handed_rounds func packetwait (end_of now packetwait) g1.numrecvd rds g1 else []

pub handed_recv-length :
    (func : Handler) (packetwait : ℕ) (clock : Reading) (has_fd : Bool) (rds : List Round)
    (g : Globals)
    → length (handed_recv func packetwait clock has_fd rds g) ≤ length (all_delivered rds)
unfolding handed_recv
handed_recv-length func packetwait clock false rds g = omega arith
handed_recv-length func packetwait clock true rds g = handed_rounds-length func packetwait _ _ rds _
