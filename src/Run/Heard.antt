-- ===== src/Run/Heard.antt =====
-- A whole run of the loop, seen by one who listens.
use arping.Await.{Ending}
use arping.Prelude.{
  ℕ, ◌+◌, ◌<◌, ◌≡◌, sym, subst, refl, inl, inr, List, [], ◌∷◌, ◌++◌, ◌||◌, leb, ◌==◌, ℤ, arith,
  length, length-append, Bool-cases, All-append,
}
use arping.Recv.Ip.Senders.{IsCaptured}
use arping.State.{Globals, uint_mod}
use arping.Await.{Delivery}
use arping.Await.Hears.{
  Listener, Hears, done_hearing, AllCaptured, all_delivered, Hears-length, Hears-append,
}
use arping.Await.Listened.{Listened}
use arping.Await.Rounds.{whole_wait-Listened}
use arping.Send.{Sender}
use arping.Run.{Turn, Finish, done, waiting, broken, exited, Mode, ping_loop}
use arping.Run.Handed.{
  delivered_in, handed_turn, handed_run, run-stop, run-no_wait, run-leave, run-again, run-exit,
}
use arping.Await.Handed.{handed_recv-length}
use arping.Run.Turns.{
  sends, wait, received, Sends, sends-Stands, loop-stop, loop-no_wait, loop-leave, loop-again,
  loop-exit,
}

abbrev pub GlobalsOf : {L : Type 0} → Finish L → Globals → Type 0
GlobalsOf (done s) g = s.globals ≡ g
GlobalsOf (waiting s) g = s.globals ≡ g
GlobalsOf (exited g1) g = g1 ≡ g
GlobalsOf broken g = ⊥

module _ {L A : Type 0} (mode : Mode L) (li : Listener A mode.recv) (h : Sends mode)
    (maxcount packetwait : ℕ) (deadline : ℤ) where
  -- How the loop has ended, or not, with the replies among these packets.
  pub record Concluded (ds : List Delivery) (ms : List A) (x : Finish L) : Type 0 where
    pub globals : Globals
    pub ended : GlobalsOf x globals
    pub replies : List A
    pub hears : Hears li ds ms replies
    pub stands : li.Stands globals replies

  -- Nothing is handed over any more.
  quiet_end :
      (ds : List Delivery) (ms : List A) (x y : Finish L) (g : Globals)
      → ds ≡ []
      → x ≡ y
      → GlobalsOf y g
      → li.Stands g ms
      → Concluded ds ms x
  quiet_end ds ms x y g none_left same ended r = record {
    globals = g;
    ended = subst (λ z. GlobalsOf z g) (sym same) ended;
    replies = ms;
    hears = subst (λ t. Hears li t ms ms) (sym none_left) (done_hearing refl);
    stands = r;
  }

  -- A wait is the last.
  last_wait :
      (ds hs : List Delivery) (ms : List A) (z : Ending) (x y : Finish L) (l : Listened li hs ms z)
      → ds ≡ hs
      → x ≡ y
      → GlobalsOf y l.globals
      → Concluded ds ms x
  last_wait ds hs ms z x y l here same ended = record {
    globals = l.globals;
    ended = subst (λ z. GlobalsOf z l.globals) (sym same) ended;
    replies = l.replies;
    hears = subst (λ t. Hears li t ms l.replies) (sym here) l.hears;
    stands = l.stands;
  }

  -- A wait, and the turns after it.
  next_turns :
      (ds hs rest : List Delivery) (ms : List A) (z : Ending) (x y : Finish L)
      (l : Listened li hs ms z)
      → ds ≡ hs ++ rest
      → x ≡ y
      → Concluded rest l.replies y
      → Concluded ds ms x
  next_turns ds hs rest ms z x y l here same c = record {
    globals = c.globals;
    ended = subst (λ z. GlobalsOf z c.globals) (sym same) c.ended;
    replies = c.replies;
    hears =
        subst (λ t. Hears li t ms c.replies) (sym here)
          (Hears-append li hs rest ms l.replies c.replies l.hears c.hears);
    stands = c.stands;
  }

  pub ping_loop-Concluded :
      (c : ℕ) (ts : List Turn) (s : Sender L) (ms : List A)
      → AllCaptured (delivered_in ts)
      → length ms + length (delivered_in ts) < uint_mod
      → li.Stands s.globals ms
      → Concluded
          (handed_run mode maxcount packetwait deadline c ts s)
          ms
          (ping_loop mode maxcount packetwait deadline c ts s)
  unfolding ping_loop handed_run
  ping_loop-Concluded c [] s ms captured room r =
      elim (Bool-cases (leb maxcount c || s.globals.time_to_die)) [
        | inl stop ↦ rw stop (quiet_end [] ms (done s) (done s) s.globals refl refl refl r)
        | inr go ↦ rw go (quiet_end [] ms (waiting s) (waiting s) s.globals refl refl refl r)
      ]
  ping_loop-Concluded c (t ∷ ts) s ms captured room r =
      let w = wait mode maxcount packetwait deadline c t s in
      let (c1, c2) =
        All-append (λ d. IsCaptured d.header d.packet) (all_delivered t.rounds) (delivered_in ts)
          captured in
      let heard = sends-Stands mode maxcount packetwait deadline li h c t s ms r in
      let total = length-append (all_delivered t.rounds) (delivered_in ts) in
      let l : Listened li (handed_turn mode maxcount packetwait deadline c t s) ms
          (received mode maxcount packetwait deadline c t s) =
        whole_wait-Listened li w.0 t.start t.has_fd t.rounds w.1 ms c1 (omega (arith, total))
          heard in
      let few = handed_recv-length mode.recv w.0 t.start t.has_fd t.rounds w.1 in
      let more =
        Hears-length li (handed_turn mode maxcount packetwait deadline c t s) ms l.replies
          l.hears in
      elim (Bool-cases (leb maxcount c || s.globals.time_to_die)) [
        | inl stop ↦
            quiet_end _ ms _ (done s) s.globals
              (run-stop mode maxcount packetwait deadline c t ts s s.globals stop)
              (loop-stop mode maxcount packetwait deadline c t ts s s.globals stop) refl r
        | inr go ↦ elim (Bool-cases (w.0 == 0)) [
          | inl zero ↦
              quiet_end _ ms _
                (done (record (sends mode maxcount packetwait deadline c t s) { globals = w.1 }))
                w.1 (run-no_wait mode maxcount packetwait deadline c t ts s s.globals go zero)
                (loop-no_wait mode maxcount packetwait deadline c t ts s s.globals go zero) refl
                heard
          | inr some_wait ↦ elim l.ended [
            | inl q ↦
                next_turns _ _ _ ms _ _ _ l
                  (run-leave mode maxcount packetwait deadline c t ts s l.globals go some_wait q)
                  (loop-leave mode maxcount packetwait deadline c t ts s l.globals go some_wait q)
                  (ping_loop-Concluded (c + 1) ts
                    (record (sends mode maxcount packetwait deadline c t s) { globals = l.globals })
                    l.replies c2 (omega (arith, total, few, more)) l.stands)
            | inr (inl q) ↦
                last_wait _ _ ms _ _
                  (waiting (record (sends mode maxcount packetwait deadline c t s) {
                    globals = l.globals;
                  }))
                  l (run-again mode maxcount packetwait deadline c t ts s l.globals go some_wait q)
                  (loop-again mode maxcount packetwait deadline c t ts s l.globals go some_wait q)
                  refl
            | inr (inr q) ↦
                last_wait _ _ ms _ _ (exited l.globals) l
                  (run-exit mode maxcount packetwait deadline c t ts s l.globals go some_wait q)
                  (loop-exit mode maxcount packetwait deadline c t ts s l.globals go some_wait q)
                  refl
          ]
        ]
      ]
