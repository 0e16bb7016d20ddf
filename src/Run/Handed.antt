-- ===== src/Run/Handed.antt =====
-- The packets that a run of `ping_loop` hands over: those of the waits that it makes.
use arping.Prelude.{
  ℕ, ◌+◌, ◌≡◌, true, false, List, [], ◌∷◌, ◌++◌, ◌||◌, leb, ◌==◌, if◌then◌else◌, ℤ, arith,
  append-nil,
}
use arping.State.{Globals}
use arping.Await.{Delivery, leave, again, exit_1}
use arping.Await.Hears.{all_delivered}
use arping.Await.Handed.{handed_recv}
use arping.Send.{Sender}
use arping.Run.{Turn, Mode}
use arping.Run.Turns.{sends, wait, received}

-- What would be delivered if every round of every turn were made.
abbrev pub delivered_in : List Turn → List Delivery
delivered_in [] = []
delivered_in (t ∷ ts) = all_delivered t.rounds ++ delivered_in ts

module _ {L : Type 0} (mode : Mode L) (maxcount packetwait : ℕ) (deadline : ℤ) where
  -- In the wait of a turn.
  abbrev pub handed_turn : ℕ → Turn → Sender L → List Delivery
  handed_turn c t s =
      let w = wait mode maxcount packetwait deadline c t s in
      handed_recv mode.recv w.0 t.start t.has_fd t.rounds w.1

  unfoldable pub handed_run : ℕ → List Turn → Sender L → List Delivery
  handed_run c [] s = []
  handed_run c (t ∷ ts) s =
      let rest : List Delivery = elim (received mode maxcount packetwait deadline c t s) [
        | leave g ↦
            handed_run (c + 1) ts
              (record (sends mode maxcount packetwait deadline c t s) { globals = g })
        | _ ↦ []
      ] in
      if leb maxcount c || s.globals.time_to_die
      then []
      else if (wait mode maxcount packetwait deadline c t s).0 == 0
      then []
      else handed_turn c t s ++ rest

  module _ (c : ℕ) (t : Turn) (ts : List Turn) (s : Sender L) (g : Globals) where
    pub run-stop : leb maxcount c || s.globals.time_to_die ≡ true → handed_run c (t ∷ ts) s ≡ []
    unfolding handed_run
    run-stop q = ground arith

    pub run-no_wait :
        leb maxcount c || s.globals.time_to_die ≡ false
        → ((wait mode maxcount packetwait deadline c t s).0 == 0) ≡ true
        → handed_run c (t ∷ ts) s ≡ []
    unfolding handed_run
    run-no_wait q z = ground arith

    pub run-leave :
        leb maxcount c || s.globals.time_to_die ≡ false
        → ((wait mode maxcount packetwait deadline c t s).0 == 0) ≡ false
        → received mode maxcount packetwait deadline c t s ≡ leave g
        → handed_run c (t ∷ ts) s
          ≡ handed_turn c t s
            ++ handed_run
                (c + 1)
                ts
                (record (sends mode maxcount packetwait deadline c t s) { globals = g })
    unfolding handed_run
    run-leave q z r = ground arith

    pub run-again :
        leb maxcount c || s.globals.time_to_die ≡ false
        → ((wait mode maxcount packetwait deadline c t s).0 == 0) ≡ false
        → received mode maxcount packetwait deadline c t s ≡ again g
        → handed_run c (t ∷ ts) s ≡ handed_turn c t s
    unfolding handed_run
    run-again q z r = ground (arith, append-nil (handed_turn c t s))

    pub run-exit :
        leb maxcount c || s.globals.time_to_die ≡ false
        → ((wait mode maxcount packetwait deadline c t s).0 == 0) ≡ false
        → received mode maxcount packetwait deadline c t s ≡ exit_1 g
        → handed_run c (t ∷ ts) s ≡ handed_turn c t s
    unfolding handed_run
    run-exit q z r = ground (arith, append-nil (handed_turn c t s))
