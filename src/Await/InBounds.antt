-- ===== src/Await/InBounds.antt =====
-- `ping_recv` with a handler that reads only what was captured.
use arping.Prelude.{
  ℕ, ◌≡◌, ◌∙◌, refl, subst, sym, Bool, true, false, ◌||◌, some, List, [], ◌∷◌, ℤ, arith, All,
  All-append, if◌then◌else◌,
}
use arping.Host.Clock.{Timespec, Reading}
use arping.State.{Globals, note, getclock}
use arping.Recv.InBounds.{IsReadable, Survives}
use arping.Await.{
  Delivery, Select, expired, interrupted, failed, ready, Round, Handler, dispatch, Ending, leave,
  again, fault, exit_1, end_round, after_select, round, rounds, end_of, ping_recv, time_left,
  passed, set_back,
}
use arping.Await.Hears.{delivered, all_delivered}

abbrev pub AllReadable : ℤ → List Delivery → Type 0
AllReadable tag ds = All (λ d. IsReadable tag d.packet) ds

-- The handler reads no byte behind the captured ones, and leaves the VLAN tag alone.
abbrev pub IsInBounds : Handler → Type 0
IsInBounds func =
    (d : Delivery) (g : Globals)
    → IsReadable g.vlan_tag d.packet
    → Survives g (func d.clock d.header d.packet g)

-- No fault; and the VLAN tag is as it was.
abbrev pub EndsInBounds : ℤ → Ending → Type 0
EndsInBounds tag (leave g) = g.vlan_tag ≡ tag
EndsInBounds tag (again g) = g.vlan_tag ≡ tag
EndsInBounds tag fault = ⊥
EndsInBounds tag (exit_1 g) = Unit

end_round-EndsInBounds : (done : Bool) (g : Globals) → EndsInBounds g.vlan_tag (end_round done g)
unfolding end_round
end_round-EndsInBounds true g = refl
end_round-EndsInBounds false g = refl

if-EndsInBounds :
    (tag : ℤ) (b : Bool) (x y : Ending)
    → EndsInBounds tag x
    → EndsInBounds tag y
    → EndsInBounds tag (if b then x else y)
if-EndsInBounds tag true x y h k = h
if-EndsInBounds tag false x y h k = k

module _ (func : Handler) (inside : IsInBounds func) where
  dispatch-Survives :
      (ds : List Delivery) (g : Globals)
      → AllReadable g.vlan_tag ds
      → Survives g (dispatch func ds g)
  unfolding dispatch
  dispatch-Survives [] g h = (g, refl, refl)
  dispatch-Survives (d ∷ ds) g h =
      let (g1, e, t) = inside d g h.0 in
      let (g2, e2, t2) = dispatch-Survives ds g1 (subst (λ t. AllReadable t ds) (sym t) h.1) in
      (g2, rw e e2, t2 ∙ t)

  dispatched :
      (old : ℕ) (done : Bool) (ds : List Delivery) (g g1 : Globals)
      → dispatch func ds g ≡ some g1
      → end_round done g1 ≡ after_select func old done (ready ds) g
  unfolding after_select
  dispatched old done ds g g1 e = ground arith

  after_select-EndsInBounds :
      (old : ℕ) (done : Bool) (s : Select) (g : Globals)
      → AllReadable g.vlan_tag (delivered s)
      → EndsInBounds g.vlan_tag (after_select func old done s g)
  unfolding after_select
  after_select-EndsInBounds old done expired g h = ground arith
  after_select-EndsInBounds old done interrupted g h = end_round-EndsInBounds done g
  after_select-EndsInBounds old done failed g h = refl
  after_select-EndsInBounds old done (ready ds) g h =
      let (g1, e, t) = dispatch-Survives ds g h in
      subst (EndsInBounds g.vlan_tag) (dispatched old done ds g g1 e)
        (subst (λ tag. EndsInBounds tag (end_round done g1)) t (end_round-EndsInBounds done g1))

  module _ (packetwait : ℕ) (endtime : Timespec) (old : ℕ) where
    round-EndsInBounds :
        (rd : Round) (g : Globals)
        → AllReadable g.vlan_tag (delivered rd.select)
        → EndsInBounds g.vlan_tag (round func packetwait endtime old rd g)
    unfolding round getclock
    round-EndsInBounds rd g h =
        let (now, g1) = getclock rd.clock g in
        let left = time_left endtime now in
        let g2 = note g1 2 "arping: listen for replies" in
        let g3 = record g2 { time_to_die = rd.signalled || g2.time_to_die } in
        let done = passed left || set_back packetwait left in
        if-EndsInBounds g.vlan_tag g3.time_to_die (leave g3)
          (after_select func old done rd.select g3) refl
          (after_select-EndsInBounds old done rd.select g3 h)

    rounds-next :
        (rd : Round) (rds : List Round) (g : Globals) (x : Ending)
        → round func packetwait endtime old rd g ≡ x
        → EndsInBounds g.vlan_tag x
        → ((g1 : Globals)
            → g1.vlan_tag ≡ g.vlan_tag
            → EndsInBounds g.vlan_tag (rounds func packetwait endtime old rds g1))
        → EndsInBounds g.vlan_tag (rounds func packetwait endtime old (rd ∷ rds) g)
    unfolding rounds
    rounds-next rd rds g (leave g1) e t rest =
        subst (EndsInBounds g.vlan_tag) {x = leave g1} (ground arith) t
    rounds-next rd rds g (again g1) e t rest =
        subst (EndsInBounds g.vlan_tag) {x = rounds func packetwait endtime old rds g1}
          (ground arith) (rest g1 t)
    rounds-next rd rds g (exit_1 g1) e t rest =
        subst (EndsInBounds g.vlan_tag) {x = exit_1 g1} (ground arith) tt
    rounds-next rd rds g fault e t rest = elim t [ ]

    rounds-EndsInBounds :
        (rds : List Round) (g : Globals)
        → AllReadable g.vlan_tag (all_delivered rds)
        → EndsInBounds g.vlan_tag (rounds func packetwait endtime old rds g)
    unfolding rounds
    rounds-EndsInBounds [] g h = refl
    rounds-EndsInBounds (rd ∷ rds) g h =
        let (h1, h2) =
          All-append (λ d. IsReadable g.vlan_tag d.packet) (delivered rd.select) (all_delivered rds)
            h in
        rounds-next rd rds g (round func packetwait endtime old rd g) refl
          (round-EndsInBounds rd g h1)
          (λ g1 t.
            subst (λ tag. EndsInBounds tag (rounds func packetwait endtime old rds g1)) t
              (rounds-EndsInBounds rds g1
                (subst (λ tag. AllReadable tag (all_delivered rds)) (sym t) h2)))

  pub ping_recv-EndsInBounds :
      (w : ℕ) (start : Reading) (has_fd : Bool) (rds : List Round) (g : Globals)
      → AllReadable g.vlan_tag (all_delivered rds)
      → EndsInBounds g.vlan_tag (ping_recv func w start has_fd rds g)
  unfolding ping_recv getclock
  ping_recv-EndsInBounds w start true rds g h =
      let (now, g1) = getclock start (note g 3 "arping: receiving packets...") in
      rounds-EndsInBounds w (end_of now w) g1.numrecvd rds g1 h
  ping_recv-EndsInBounds w start false rds g h = tt
