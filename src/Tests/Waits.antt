-- ===== src/Tests/Waits.antt =====
-- Deadlines for `wait_time`, and rounds for `ping_recv`.
use arping.Prelude.{
  ℕ, ◌+◌, ◌*◌, ◌<◌, ◌≡◌, ◌≢◌, refl, inl, true, false, [], ◌∷◌, ◌++◌, some, arith, pos,
}
use arping.Host.Clock.{Reading}
use arping.State.{initial, clock_time}
use arping.Wait.{wait_time}
use arping.Wait.Bounds.{nanos, wait_time-overrun}
use arping.Await.{Handler, Round, Select, again, round, end_of, ping_recv}
use arping.Await.Window.{ping_recv-ends}
use arping.Await.Ends.{IsEarly, round-early}

abbrev at : ℕ → ℕ → Reading
at s u = record { failed = false; sec = s; usec = u }

-- 100.25 seconds, and deadlines after it.
abbrev now : Reading
now = at 100 250000

wait_time-overrun_example :
    ((wait_time now (pos 100300000000) 500000 initial).0 ≡ 500000)
    × (100300000000 < nanos now + (wait_time now (pos 100300000000) 500000 initial).0 * 1000)
wait_time-overrun_example =
    wait_time-overrun now 100300000000 500000 initial (omega arith) (omega arith) (omega arith)

abbrev func : Handler
func r h p g = some g

abbrev quiet_round : Reading → Round
quiet_round r = record { clock = r; signalled = false; select = Select.interrupted }

ping_recv-ends_example :
    ping_recv func 1000000 now true
      ((quiet_round (at 100 900000) ∷ []) ++ quiet_round (at 101 300000) ∷ [])
      initial
    ≢ again initial
ping_recv-ends_example =
    ping_recv-ends func 1000000 now true (quiet_round (at 100 900000) ∷ []) []
      (quiet_round (at 101 300000)) initial initial (omega arith) (inl (omega arith))

-- A wait of half a second from 100.9 seconds on, at 101.1 seconds.
early : IsEarly (at 100 900000) (at 101 100000) 500000
early = record { carry = omega arith; next_second = refl; early = omega arith }

round-early_example :
    (nanos (at 101 100000) < nanos (at 100 900000) + 500000 * 1000)
    × (round func 500000
          (end_of (clock_time (at 100 900000)) 500000)
          0
          (quiet_round (at 101 100000))
          initial
        ≢ again initial)
round-early_example =
    round-early func 500000 0 (at 100 900000) (quiet_round (at 101 100000)) initial initial early
