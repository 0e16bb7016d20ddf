-- ===== src/Await/Listened.antt =====
-- A round of `ping_recv`, seen by one who listens.
use arping.Prelude.{
  ℕ, ◌+◌, ◌<◌, ◌≡◌, sym, subst, refl, ◌⊎◌, inl, inr, Bool, true, false, some, List, [], ◌++◌, arith,
  length, Bool-cases, ◌==◌, ◌||◌, if◌then◌else◌,
}
use arping.Host.Clock.{Timespec}
use arping.State.{Globals, getclock, clock_error, noted}
use arping.Await.{
  Handler, Delivery, Select, expired, interrupted, failed, ready, Round, Ending, leave, again,
  exit_1, dispatch, end_round, after_select, round,
}
use arping.Await.Handed.{handed}
use arping.Await.Hears.{Listener, Hears, done_hearing, AllCaptured, delivered, dispatch-Hears}

module _ {A : Type 0} {func : Handler} (li : Listener A func) where
  -- These packets were handed over before the function returned, or as far as it went on.
  pub record Listened (ds : List Delivery) (ms : List A) (x : Ending) : Type 0 where
    pub globals : Globals
    pub ended : (x ≡ leave globals) ⊎ (x ≡ again globals) ⊎ (x ≡ exit_1 globals)
    pub replies : List A
    pub hears : Hears li ds ms replies
    pub stands : li.Stands globals replies

  -- Nothing was delivered, and the function returns.
  leaves : (ms : List A) (g : Globals) → li.Stands g ms → Listened [] ms (leave g)
  leaves ms g ref = record {
    globals = g;
    ended = inl refl;
    replies = ms;
    hears = done_hearing refl;
    stands = ref;
  }

  pub exits : (ms : List A) (g : Globals) → li.Stands g ms → Listened [] ms (exit_1 g)
  exits ms g ref = record {
    globals = g;
    ended = inr (inr refl);
    replies = ms;
    hears = done_hearing refl;
    stands = ref;
  }

  end_round-Listened :
      (done : Bool) (ds : List Delivery) (ms ms' : List A) (g : Globals)
      → Hears li ds ms ms'
      → li.Stands g ms'
      → Listened ds ms (end_round done g)
  unfolding end_round
  end_round-Listened done ds ms ms' g h ref = record {
    globals = g;
    ended = ground arith;
    replies = ms';
    hears = h;
    stands = ref;
  }

  if-Listened :
      (b : Bool) (ds : List Delivery) (ms : List A) (g : Globals) (x : Ending)
      → Listened [] ms (leave g)
      → Listened ds ms x
      → Listened (if b then [] else ds) ms (if b then leave g else x)
  if-Listened true ds ms g x l r = l
  if-Listened false ds ms g x l r = r

  after_select-ready :
      (old : ℕ) (done : Bool) (ds : List Delivery) (g g' : Globals)
      → dispatch func ds g ≡ some g'
      → after_select func old done (ready ds) g ≡ end_round done g'
  unfolding after_select
  after_select-ready old done ds g g' q = ground arith

  after_select-Listened :
      (old : ℕ) (done : Bool) (s : Select) (g : Globals) (ms : List A)
      → AllCaptured (delivered s)
      → length ms + length (delivered s) < 4294967296
      → li.Stands g ms
      → Listened (delivered s) ms (after_select func old done s g)
  unfolding after_select
  after_select-Listened old done expired g ms c room ref = elim (Bool-cases (g.numrecvd == old)) [
    | inl same ↦ rw same (leaves ms _ (li.prints g ms _ g.time_to_die ref))
    | inr other ↦ rw other (leaves ms g ref)
  ]
  after_select-Listened old done interrupted g ms c room ref =
      end_round-Listened done [] ms ms g (done_hearing refl) ref
  after_select-Listened old done failed g ms c room ref = leaves ms _ (li.prints g ms _ true ref)
  after_select-Listened old done (ready ds) g ms c room ref =
      let (g', ms', q, h, ref') = dispatch-Hears li ds g ms c room ref in
      subst (Listened ds ms) (sym (after_select-ready old done ds g g' q))
        (end_round-Listened done ds ms ms' g' h ref')

  pub round-Listened :
      (packetwait : ℕ) (endtime : Timespec) (old : ℕ) (rd : Round) (g : Globals) (ms : List A)
      → AllCaptured (delivered rd.select)
      → length ms + length (delivered rd.select) < 4294967296
      → li.Stands g ms
      → Listened (handed rd g) ms (round func packetwait endtime old rd g)
  unfolding round getclock
  round-Listened packetwait endtime old rd g ms c room ref =
      let die : Bool = rd.signalled || (rd.clock.failed || g.time_to_die) in
      let out = g.out ++ clock_error rd.clock ++ noted g.verbose 2 "arping: listen for replies" in
      let g3 : Globals = record g { out = out; time_to_die = die } in
      let ref3 : li.Stands g3 ms = li.prints g ms out die ref in
      if-Listened die (delivered rd.select) ms g3 _ (leaves ms g3 ref3)
        (after_select-Listened old _ rd.select g3 ms c room ref3)
