-- ===== src/Run/Ends.antt =====
-- The loop of `arping_main` ends, and how many packets it has then sent.
use arping.Prelude.{
  ℕ, ◌+◌, ◌*◌, ◌≤◌, ◌<◌, ◌≡◌, ◌≢◌, sym, ◌⊎◌, inl, inr, List, [], ◌∷◌, ◌++◌, arith, ℤ, length, All,
}
use arping.State.{Globals, uint_mod}
use arping.Send.{Sender}
use arping.Wait.{wait_time}
use arping.Wait.Bounds.{nanos, wait_time_le}
use arping.Await.{Round, Ending, again, ping_recv}
use arping.Await.Window.{ping_recv-ends}
use arping.Await.Counts.{Ending-cases}
use arping.Run.{Turn, Mode, waiting, ping_loop}

-- The rounds of a turn reach past the wait of `packetwait`.
pub record IsOver (packetwait : ℕ) (t : Turn) : Type 0 where
  pub normal : t.start.usec < 1000000
  pub past : List Round
  pub rest : List Round
  pub last : Round
  pub rounds_are : t.rounds ≡ past ++ last ∷ rest
  pub over : nanos t.start + packetwait * 1000 < nanos last.clock

module _ {L : Type 0} (mode : Mode L) (maxcount packetwait : ℕ) (deadline : ℤ) where
  -- What `ping_recv` is called with.
  abbrev wait : ℕ → Turn → Sender L → ℕ × Globals
  wait c t s = wait_time t.waited deadline packetwait (mode.send c t s).globals

  abbrev received : ℕ → Turn → Sender L → Ending
  received c t s = let (w, g1) = wait c t s in ping_recv mode.recv w t.start t.has_fd t.rounds g1

  received-ends :
      (c : ℕ) (t : Turn) (s : Sender L) (g' : Globals)
      → packetwait < uint_mod
      → IsOver packetwait t
      → received c t s ≢ again g'
  received-ends c t s g' small over q =
      ping_recv-ends mode.recv (wait c t s).0 t.start t.has_fd over.past over.rest over.last
        (wait c t s).1 g' over.normal
        (inl (
          omega (
            arith,
            over.over,
            wait_time_le t.waited deadline packetwait (mode.send c t s).globals small,
          )))
        (rw (sym over.rounds_are) q)

  -- A turn of the loop, by the way its wait ends.
  ping_loop-cons :
      (c : ℕ) (t : Turn) (ts : List Turn) (s : Sender L) (s' : Sender L)
      → ping_loop mode maxcount packetwait deadline c (t ∷ ts) s ≡ waiting s'
      → ((g : Globals) × (received c t s ≡ again g))
        ⊎ ((g : Globals) × (ping_loop mode maxcount packetwait deadline
                (c + 1)
                ts
                (record (mode.send c t s) { globals = g })
              ≡ waiting s'))
  unfolding ping_loop
  ping_loop-cons c t ts s s' q = elim (Ending-cases (received c t s)) [
    | inl (inl (g, e)) ↦ inr (g, ground arith)
    | inl (inr (g, e)) ↦ inl (g, e)
    | inr (inl e) ↦ absurd (ground arith)
    | inr (inr (g, e)) ↦ absurd (ground arith)
  ]

  -- The loop of `arping_main` ends: with a `packetwait` of 32 bits, the turns from `c` up to
  -- `maxcount`, each with rounds that reach past the longest wait, are enough, whatever the sender,
  -- the handler, the deadline and the clock do.
  pub ping_loop-ends :
      (c : ℕ) (ts : List Turn) (s s' : Sender L)
      → packetwait < uint_mod
      → All (IsOver packetwait) ts
      → maxcount ≤ c + length ts
      → ping_loop mode maxcount packetwait deadline c ts s ≢ waiting s'
  unfolding ping_loop
  ping_loop-ends c [] s s' small over enough q = ground arith
  ping_loop-ends c (t ∷ ts) s s' small over enough q = elim (ping_loop-cons c t ts s s' q) [
    | inl (g, e) ↦ received-ends c t s g small over.0 e
    | inr (g, e) ↦ ping_loop-ends (c + 1) ts _ s' small over.1 (omega arith) e
  ]
