-- ===== src/Await/Ends.antt =====
-- The wait of `ping_recv` may end before its time: the nanoseconds of its end are not carried into the
-- seconds, and the test for its end looks at the difference of the seconds alone.
use arping.Prelude.{
  ℕ, ◌+◌, ◌-◌, ◌*◌, ◌/◌, ◌%◌, ◌≤◌, ◌<◌, ◌≡◌, ◌≢◌, Bool, true, false, ◌||◌, pos, negsuc, ◌-ℤ◌, arith,
}
use arping.Host.Clock.{Reading, fixup_timespec, fixup_timespec-pos}
use arping.State.{Globals, clock_time, getclock, note}
use arping.Wait.Bounds.{nanos}
use arping.Await.{Handler, Round, again, time_left, passed, set_back, round, end_of}
use arping.Await.Window.{end_of_lem, branch_again}

sub-negsuc : (a : ℕ) → pos a -ℤ pos (a + 1) ≡ negsuc 0
unfolding ◌-ℤ◌
sub-negsuc a = ground arith

sub-pos_of : (a b : ℕ) → b ≤ a → pos a -ℤ pos b ≡ pos (a - b)
unfolding ◌-ℤ◌
sub-pos_of a b h = ground arith

-- A difference of minus one second and nanoseconds that are not negative counts as past.
passed-second :
    (n : ℕ) → passed (fixup_timespec (record { tv_sec = negsuc 0; tv_nsec = pos n })) ≡ true
unfolding passed
passed-second n = rw (fixup_timespec-pos (negsuc 0) n) (ground arith)

-- A reading before the end of the wait, in the next second, while the end has a second to carry.
pub record IsEarly (start now : Reading) (packetwait : ℕ) : Type 0 where
  pub carry : 1000000 ≤ start.usec + packetwait % 1000000
  pub next_second : now.sec ≡ start.sec + packetwait / 1000000 + 1
  pub early : now.usec + 1000000 < start.usec + packetwait % 1000000

module _ (start now : Reading) (packetwait : ℕ) (early : IsEarly start now packetwait) where
  before_end : nanos now < nanos start + packetwait * 1000
  before_end = omega (arith, early.carry, early.next_second, early.early)

  left_passed : passed (time_left (end_of (clock_time start) packetwait) (clock_time now)) ≡ true
  unfolding time_left
  left_passed =
      rw
        (
          end_of_lem start packetwait,
          early.next_second,
          sub-negsuc (start.sec + packetwait / 1000000),
          sub-pos_of (start.usec * 1000 + 1000 * (packetwait % 1000000)) (now.usec * 1000)
              (omega (arith, early.early)),
        )
        (passed-second _)

-- In a round of the second that follows those of the wait, whose microseconds are fewer than those
-- of the end of the wait beyond a second, it is before the end of the wait, and yet the loop of
-- `ping_recv` does not go on.
pub round-early :
    (func : Handler) (packetwait old : ℕ) (start : Reading) (rd : Round) (g g' : Globals)
    → IsEarly start rd.clock packetwait
    → (nanos rd.clock < nanos start + packetwait * 1000)
      × (round func packetwait (end_of (clock_time start) packetwait) old rd g ≢ again g')
unfolding round getclock
round-early func packetwait old start rd g g' early = (
  before_end start rd.clock packetwait early,
  λ h. let past = left_passed start rd.clock packetwait early in ground (arith, not_done h),
)
  where
    done : Bool
    done =
        passed (time_left (end_of (clock_time start) packetwait) (clock_time rd.clock))
        || set_back packetwait
            (time_left (end_of (clock_time start) packetwait) (clock_time rd.clock))

    after_tests : Globals
    after_tests =
        let g2 = note (getclock rd.clock g).1 2 "arping: listen for replies" in
        record g2 { time_to_die = rd.signalled || g2.time_to_die }

    not_done :
        round func packetwait (end_of (clock_time start) packetwait) old rd g ≡ again g'
        → done ≡ false
    not_done h = branch_again func old after_tests.time_to_die done rd after_tests g' h
