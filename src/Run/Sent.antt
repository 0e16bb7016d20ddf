-- ===== src/Run/Sent.antt =====
-- How many packets the loop of `arping_main` has sent when it ends.
use arping.Prelude.{
  ℕ, ◌+◌, ◌≤◌, ◌<◌, ◌≡◌, ◌∙◌, ◌⊎◌, inl, inr, true, List, [], ◌∷◌, ◌||◌, leb, ◌==◌, arith, ℤ, pos,
  ltb_ℤ, Bool-cases,
}
use arping.State.{Globals, uint_mod}
use arping.Send.{Sender}
use arping.Wait.{wait_time}
use arping.Wait.Bounds.{wait_time-numsent}
use arping.Await.{Ending, leave, ping_recv}
use arping.Await.Counts.{Ending-cases, ping_recv-numsent}
use arping.Run.{Turn, Mode, done, ping_loop}
use arping.Run.Modes.{IsMode}

module _ {L : Type 0} (mode : Mode L) (maxcount packetwait : ℕ) (deadline : ℤ) where
  abbrev wait : ℕ → Turn → Sender L → ℕ × Globals
  wait c t s = wait_time t.waited deadline packetwait (mode.send c t s).globals

  abbrev received : ℕ → Turn → Sender L → Ending
  received c t s = let (w, g1) = wait c t s in ping_recv mode.recv w t.start t.has_fd t.rounds g1

  -- The three ways in which a turn ends the loop, or leads to the next.
  Last : ℕ → Turn → List Turn → Sender L → Sender L → Type 0
  Last c t ts s s' =
      ((maxcount ≤ c) ⊎ (s.globals.time_to_die ≡ true)) × (s' ≡ s)
      ⊎ (((c < maxcount)
            × ((wait c t s).0 ≡ 0)
            × (s' ≡ record (mode.send c t s) { globals = (wait c t s).1 }))
          ⊎ ((c < maxcount)
              × ((g : Globals) × (received c t s ≡ leave g)
                  × (ping_loop mode maxcount packetwait deadline (c + 1) ts
                        (record (mode.send c t s) { globals = g })
                      ≡ done s'))))

  ping_loop-Last :
      (c : ℕ) (t : Turn) (ts : List Turn) (s s' : Sender L)
      → ping_loop mode maxcount packetwait deadline c (t ∷ ts) s ≡ done s'
      → Last c t ts s s'
  unfolding ping_loop Last
  ping_loop-Last c t ts s s' q = elim (Bool-cases (leb maxcount c || s.globals.time_to_die)) [
    | inl stop ↦ inl (ground arith, ground arith)
    | inr go ↦ elim (Bool-cases ((wait c t s).0 == 0)) [
      | inl zero ↦ inr (inl (ground arith, ground arith, ground arith))
      | inr some_wait ↦ elim (Ending-cases (received c t s)) [
        | inl (inl (g, e)) ↦ inr (inr (ground arith, (g, e, ground arith)))
        | inl (inr (g, e)) ↦ absurd (ground arith)
        | inr (inl e) ↦ absurd (ground arith)
        | inr (inr (g, e)) ↦ absurd (ground arith)
      ]
    ]
  ]

  module _ (is_mode : IsMode mode) (fits : maxcount < uint_mod) where
    sent_one :
        (c : ℕ) (t : Turn) (s : Sender L)
        → c < maxcount
        → s.globals.numsent ≡ c
        → (wait c t s).1.numsent ≡ c + 1
    sent_one c t s less q =
        wait_time-numsent t.waited deadline packetwait (mode.send c t s).globals
        ∙ omega (arith, is_mode.counts c t s)

    -- The globals of a sender that has received.
    sent_round :
        (c : ℕ) (t : Turn) (s : Sender L) (g : Globals)
        → c < maxcount
        → s.globals.numsent ≡ c
        → received c t s ≡ leave g
        → g.numsent ≡ c + 1
    sent_round c t s g less q e =
        ping_recv-numsent mode.recv is_mode.keeps _ t.start t.has_fd t.rounds (wait c t s).1 g e
        ∙ sent_one c t s less q

    -- With a sender that counts its packets and a handler that does not, as in both modes, and a
    -- `maxcount` of 32 bits: a loop that starts at `c` with `c` packets sent, `c` at most
    -- `maxcount`, and ends, has then sent at most `maxcount`.
    pub ping_loop-at_most :
        (c : ℕ) (ts : List Turn) (s s' : Sender L)
        → c ≤ maxcount
        → s.globals.numsent ≡ c
        → ping_loop mode maxcount packetwait deadline c ts s ≡ done s'
        → s'.globals.numsent ≤ maxcount
    unfolding ping_loop Last
    ping_loop-at_most c [] s s' le n q = ground arith
    ping_loop-at_most c (t ∷ ts) s s' le n q = elim (ping_loop-Last c t ts s s' q) [
      | inl (stop, e) ↦ ground arith
      | inr (inl (less, zero, e)) ↦ rw e (omega (arith, sent_one c t s less n))
      | inr (inr (less, (g, e, rest))) ↦
          ping_loop-at_most (c + 1) ts _ s' (omega arith) (sent_round c t s g less n e) rest
    ]

    -- With a sender that counts its packets and a handler that does not, as in both modes, with a
    -- `maxcount` of 32 bits, without a deadline, and with a wait: a loop that starts at `c` with
    -- `c` packets sent, and ends, has then sent exactly `maxcount`, unless `time_to_die` is set.
    pub ping_loop-exactly :
        (c : ℕ) (ts : List Turn) (s s' : Sender L)
        → ltb_ℤ deadline (pos 0) ≡ true
        → 0 < packetwait
        → c ≤ maxcount
        → s.globals.numsent ≡ c
        → ping_loop mode maxcount packetwait deadline c ts s ≡ done s'
        → (s'.globals.numsent ≡ maxcount) ⊎ (s'.globals.time_to_die ≡ true)
    unfolding ping_loop Last wait_time
    ping_loop-exactly c [] s s' endless waits le n q = ground arith
    ping_loop-exactly c (t ∷ ts) s s' endless waits le n q = elim (ping_loop-Last c t ts s s' q) [
      | inl (inl stop, e) ↦ inl (ground arith)
      | inl (inr stop, e) ↦ inr (ground arith)
      | inr (inl (less, zero, e)) ↦ absurd (ground arith)
      | inr (inr (less, (g, e, rest))) ↦
          ping_loop-exactly (c + 1) ts _ s' endless waits (omega arith)
            (sent_round c t s g less n e) rest
    ]
