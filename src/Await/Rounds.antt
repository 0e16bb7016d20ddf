-- ===== src/Await/Rounds.antt =====
-- `ping_recv`, seen by one who listens.
use arping.Prelude.{
  ℕ, ◌+◌, ◌≤◌, ◌<◌, ◌≡◌, sym, subst, refl, ◌⊎◌, inl, inr, Bool, true, false, List, [], ◌∷◌, ◌++◌,
  arith, length, length-append, ◌||◌, All-append,
}
use arping.Recv.Ip.Senders.{IsCaptured}
use arping.Host.Clock.{Timespec, Reading}
use arping.State.{Globals, getclock}
use arping.Await.{Handler, Delivery, Round, Ending, leave, again, exit_1, round, rounds, ping_recv}
use arping.Await.Hears.{
  Listener, Hears, done_hearing, AllCaptured, delivered, all_delivered, Hears-length, Hears-append,
}
use arping.Await.Handed.{
  handed, handed_rounds, handed-leave, handed-exit, handed-again, handed-length, handed_recv,
}
use arping.Await.Listened.{Listened, round-Listened, exits}

module _ {A : Type 0} {func : Handler} (li : Listener A func) where
  -- A round after which the function does not go on.
  stays :
      (ds es : List Delivery) (ms : List A) (x y : Ending) (l : Listened li ds ms x)
      → es ≡ ds
      → (y ≡ leave l.globals) ⊎ (y ≡ exit_1 l.globals)
      → Listened li es ms y
  stays ds es ms x y l same q = record {
    globals = l.globals;
    ended = ground arith;
    replies = l.replies;
    hears = subst (λ t. Hears li t ms l.replies) (sym same) l.hears;
    stands = l.stands;
  }

  -- A round, and those after it.
  joins :
      (ds es : List Delivery) (ms : List A) (x y : Ending) (l : Listened li ds ms x)
      → Listened li es l.replies y
      → Listened li (ds ++ es) ms y
  joins ds es ms x y l r = record {
    globals = r.globals;
    ended = r.ended;
    replies = r.replies;
    hears = Hears-append li ds es ms l.replies r.replies l.hears r.hears;
    stands = r.stands;
  }

  -- Each packet adds one reply at most.
  handed-room :
      (rd : Round) (g : Globals) (ms : List A) (x : Ending) (l : Listened li (handed rd g) ms x)
      → length l.replies ≤ length ms + length (delivered rd.select)
  handed-room rd g ms x l =
      omega (arith, Hears-length li (handed rd g) ms l.replies l.hears, handed-length rd g)

  module _ (packetwait : ℕ) (endtime : Timespec) (old : ℕ) (rd : Round) (rds : List Round)
      (g g' : Globals) where
    rounds-leave :
        round func packetwait endtime old rd g ≡ leave g'
        → rounds func packetwait endtime old (rd ∷ rds) g ≡ leave g'
    unfolding rounds
    rounds-leave q = ground arith

    rounds-exit :
        round func packetwait endtime old rd g ≡ exit_1 g'
        → rounds func packetwait endtime old (rd ∷ rds) g ≡ exit_1 g'
    unfolding rounds
    rounds-exit q = ground arith

    rounds-again :
        round func packetwait endtime old rd g ≡ again g'
        → rounds func packetwait endtime old (rd ∷ rds) g
          ≡ rounds func packetwait endtime old rds g'
    unfolding rounds
    rounds-again q = ground arith

  next-Listened :
      (packetwait : ℕ) (endtime : Timespec) (old : ℕ) (rd : Round) (rds : List Round)
      (g g' : Globals) (ms : List A)
      → round func packetwait endtime old rd g ≡ again g'
      → Listened li
          (handed rd g ++ handed_rounds func packetwait endtime old rds g')
          ms
          (rounds func packetwait endtime old rds g')
      → Listened li
          (handed_rounds func packetwait endtime old (rd ∷ rds) g)
          ms
          (rounds func packetwait endtime old (rd ∷ rds) g)
  next-Listened packetwait endtime old rd rds g g' ms on l =
      rw
        (
          handed-again func packetwait endtime old rd rds g g' on,
          rounds-again packetwait endtime old rd rds g g' on,
        )
        l

  rounds-Listened :
      (packetwait : ℕ) (endtime : Timespec) (old : ℕ) (rds : List Round) (g : Globals) (ms : List A)
      → AllCaptured (all_delivered rds)
      → length ms + length (all_delivered rds) < 4294967296
      → li.Stands g ms
      → Listened li
          (handed_rounds func packetwait endtime old rds g)
          ms
          (rounds func packetwait endtime old rds g)
  unfolding rounds handed_rounds
  rounds-Listened packetwait endtime old [] g ms c room ref = record {
    globals = g;
    ended = inr (inl refl);
    replies = ms;
    hears = done_hearing refl;
    stands = ref;
  }
  rounds-Listened packetwait endtime old (rd ∷ rds) g ms c room ref =
      let (c1, c2) =
        All-append (λ d. IsCaptured d.header d.packet) (delivered rd.select) (all_delivered rds)
          c in
      let total = length-append (delivered rd.select) (all_delivered rds) in
      let one : Listened li (handed rd g) ms (round func packetwait endtime old rd g) =
        round-Listened li packetwait endtime old rd g ms c1 (omega (arith, total)) ref in
      elim one.ended [
        | inl left ↦
            stays (handed rd g) _ ms _ _ one
              (handed-leave func packetwait endtime old rd rds g one.globals left)
              (inl (rounds-leave packetwait endtime old rd rds g one.globals left))
        | inr (inl on) ↦
            let rest =
              rounds-Listened packetwait endtime old rds one.globals one.replies c2
                (omega (arith, total, handed-room rd g ms _ one)) one.stands in
            next-Listened packetwait endtime old rd rds g one.globals ms on
              (joins (handed rd g) _ ms _ _ one rest)
        | inr (inr left) ↦
            stays (handed rd g) _ ms _ _ one
              (handed-exit func packetwait endtime old rd rds g one.globals left)
              (inr (rounds-exit packetwait endtime old rd rds g one.globals left))
      ]

  -- The whole wait: the packets of every round that is made are handed over, each once and in order.
  pub whole_wait-Listened :
      (packetwait : ℕ) (clock : Reading) (has_fd : Bool) (rds : List Round) (g : Globals)
      (ms : List A)
      → AllCaptured (all_delivered rds)
      → length ms + length (all_delivered rds) < 4294967296
      → li.Stands g ms
      → Listened li
          (handed_recv func packetwait clock has_fd rds g)
          ms
          (ping_recv func packetwait clock has_fd rds g)
  unfolding ping_recv handed_recv getclock
  whole_wait-Listened packetwait clock false rds g ms c room ref =
      exits li ms _ (li.prints g ms _ (clock.failed || g.time_to_die) ref)
  whole_wait-Listened packetwait clock true rds g ms c room ref =
      rounds-Listened packetwait _ g.numrecvd rds _ ms c room
        (li.prints g ms _ (clock.failed || g.time_to_die) ref)
