-- ===== src/Await/Window.antt =====
-- The loop of `ping_recv` goes on only while the clock stands between the start of the wait and its
-- end: the wait ends however the clock moves.
use arping.Prelude.{
  ℕ, ◌+◌, ◌*◌, ◌/◌, ◌%◌, ◌≤◌, ◌<◌, ◌≡◌, ◌≢◌, ◌∙◌, sym, refl, ◌⊎◌, Bool, true, false, List, [], ◌∷◌,
  ◌++◌, ◌||◌, pos, ◌-ℤ◌, ◌*ℤ◌, ◌+ℤ◌, pos_part, arith, if◌then◌else◌,
}
use arping.Host.Clock.{
  Timespec, Reading, timespec2dbl, fixup_timespec, IsNormal, fixup_timespec-IsNormal,
  fixup_timespec-pos,
}
use arping.State.{Globals, clock_time, getclock, note}
use arping.Wait.Bounds.{nanos}
use arping.Await.{
  Handler, Round, Ending, leave, again, fault, exit_1, time_left, passed, set_back, after_select,
  end_round, round, rounds, end_of, ping_recv,
}

-- Seconds and nanoseconds as one number.
timespec2dbl-normal :
    (s n : ℕ) → timespec2dbl (record { tv_sec = pos s; tv_nsec = pos n }) ≡ pos (s * 1000000000 + n)
unfolding timespec2dbl ◌*ℤ◌ ◌+ℤ◌
timespec2dbl-normal s n = ground arith

-- The bound of the nanoseconds: those of a clock and those of a wait are added without a carry.
abbrev two_seconds : ℕ
two_seconds = 2000000000

-- An end of the wait, as numbers.
pub record IsEnd (endtime : Timespec) (sec nsec : ℕ) : Type 0 where
  pub sec_is : endtime.tv_sec ≡ pos sec
  pub nsec_is : endtime.tv_nsec ≡ pos nsec
  pub below : nsec < two_seconds

-- A time left that passes neither test is not negative, and longer than the wait by less than a
-- second.
in_window :
    (packetwait : ℕ) (ts : Timespec)
    → IsNormal two_seconds ts
    → passed ts ≡ false
    → set_back packetwait ts ≡ false
    → (n : ℕ) × (timespec2dbl ts ≡ pos n) × (n < packetwait * 1000 + 1000000000)
unfolding passed set_back timespec2dbl ◌*ℤ◌ ◌+ℤ◌
in_window packetwait ts normal p b =
    (pos_part ts.tv_sec * 1000000000 + pos_part ts.tv_nsec, ground arith, ground arith)

difference :
    (a b c d : ℕ)
    → timespec2dbl (record { tv_sec = pos a -ℤ pos b; tv_nsec = pos c -ℤ pos d })
      ≡ pos (a * 1000000000 + c) -ℤ pos (b * 1000000000 + d)
unfolding timespec2dbl ◌*ℤ◌ ◌+ℤ◌ ◌-ℤ◌
difference a b c d = ground arith

difference_below : (c d : ℕ) → c < two_seconds → pos_part (pos c -ℤ pos d) < two_seconds
unfolding ◌-ℤ◌
difference_below c d h = ground arith

time_left-IsNormal :
    (endtime : Timespec) (sec nsec : ℕ) (r : Reading)
    → IsEnd endtime sec nsec
    → IsNormal two_seconds (time_left endtime (clock_time r))
      × (timespec2dbl (time_left endtime (clock_time r))
          ≡ pos (sec * 1000000000 + nsec) -ℤ pos (nanos r))
unfolding time_left
time_left-IsNormal endtime sec nsec r h =
    rw (h.sec_is, h.nsec_is) (normal.0, normal.1 ∙ difference sec r.sec nsec (r.usec * 1000))
  where
    raw : Timespec
    raw = record { tv_sec = pos sec -ℤ pos r.sec; tv_nsec = pos nsec -ℤ pos (r.usec * 1000) }

    normal :
        IsNormal two_seconds (fixup_timespec raw)
        × (timespec2dbl (fixup_timespec raw) ≡ timespec2dbl raw)
    normal =
        fixup_timespec-IsNormal two_seconds raw (omega arith)
          (difference_below nsec (r.usec * 1000) h.below)

-- The clock stands at the end or before it, by less than the wait and a second.
pub record InWindow (packetwait sec nsec : ℕ) (r : Reading) : Type 0 where
  pub not_after : nanos r ≤ sec * 1000000000 + nsec
  pub not_before : sec * 1000000000 + nsec < nanos r + packetwait * 1000 + 1000000000

sub-nonneg : (a b n : ℕ) → pos a -ℤ pos b ≡ pos n → a ≡ b + n
unfolding ◌-ℤ◌
sub-nonneg a b n h = ground arith

module _ (func : Handler) (old : ℕ) where
  after_select-again :
      (done : Bool) (rd : Round) (g g' : Globals)
      → after_select func old done rd.select g ≡ again g'
      → done ≡ false
  unfolding after_select end_round
  after_select-again done rd g g' h = ground arith

  pub branch_again :
      (stop done : Bool) (rd : Round) (g g' : Globals)
      → (if stop then leave g else after_select func old done rd.select g) ≡ again g'
      → done ≡ false
  branch_again true done rd g g' h = cc
  branch_again false done rd g g' h = after_select-again done rd g g' h

module _ (func : Handler) (packetwait : ℕ) (endtime : Timespec) (sec nsec old : ℕ)
    (end : IsEnd endtime sec nsec) where
  -- Neither `done` is set only inside the window.
  not_done-InWindow :
      (r : Reading)
      → passed (time_left endtime (clock_time r)) ≡ false
      → set_back packetwait (time_left endtime (clock_time r)) ≡ false
      → InWindow packetwait sec nsec r
  not_done-InWindow r p b =
      let left = time_left-IsNormal endtime sec nsec r end in
      let (n, is_n, small) = in_window packetwait (time_left endtime (clock_time r)) left.0 p b in
      let e = sub-nonneg (sec * 1000000000 + nsec) (nanos r) n (sym left.1 ∙ is_n) in
      record { not_after = omega arith; not_before = omega arith }

  round-again :
      (rd : Round) (g g' : Globals)
      → round func packetwait endtime old rd g ≡ again g'
      → InWindow packetwait sec nsec rd.clock
  unfolding round getclock
  round-again rd g g' h =
      not_done-InWindow rd.clock (ground (arith, not_done)) (ground (arith, not_done))
    where
      done : Bool
      done =
          passed (time_left endtime (clock_time rd.clock))
          || set_back packetwait (time_left endtime (clock_time rd.clock))

      after_tests : Globals
      after_tests =
          let g2 = note (getclock rd.clock g).1 2 "arping: listen for replies" in
          record g2 { time_to_die = rd.signalled || g2.time_to_die }

      not_done : done ≡ false
      not_done = branch_again func old after_tests.time_to_die done rd after_tests g' h

  -- If the loop has not ended, it has gone on after its first round.
  rounds-cons_again :
      (rd : Round) (rest : List Round) (g g' : Globals)
      → rounds func packetwait endtime old (rd ∷ rest) g ≡ again g'
      → (g1 : Globals) × (round func packetwait endtime old rd g ≡ again g1)
        × (rounds func packetwait endtime old rest g1 ≡ again g')
  unfolding rounds
  rounds-cons_again rd rest g g' h = split (round func packetwait endtime old rd g) refl
    where
      split :
          (x : Ending)
          → round func packetwait endtime old rd g ≡ x
          → (g1 : Globals) × (round func packetwait endtime old rd g ≡ again g1)
            × (rounds func packetwait endtime old rest g1 ≡ again g')
      split (again g1) q = (g1, q, ground arith)
      split (leave g1) q = absurd (ground arith)
      split fault q = absurd (ground arith)
      split (exit_1 g1) q = absurd (ground arith)

  -- A round outside the window ends the loop, with whatever rounds before it.
  rounds_end :
      (before after : List Round) (rd : Round) (g g' : Globals)
      → ¬ InWindow packetwait sec nsec rd.clock
      → rounds func packetwait endtime old (before ++ rd ∷ after) g ≢ again g'
  rounds_end [] after rd g g' outside h =
      let (g1, q, rest) = rounds-cons_again rd after g g' h in outside (round-again rd g g1 q)
  rounds_end (r ∷ before) after rd g g' outside h =
      let (g1, q, rest) = rounds-cons_again r (before ++ rd ∷ after) g g' h in
      rounds_end before after rd g1 g' outside rest

add-pos : (a b : ℕ) → pos a +ℤ pos b ≡ pos (a + b)
unfolding ◌+ℤ◌
add-pos a b = ground arith

-- The end of the wait: the two parts are added, and nothing is carried.
pub end_of_lem :
    (start : Reading) (packetwait : ℕ)
    → end_of (clock_time start) packetwait ≡ record {
      tv_sec = pos (start.sec + packetwait / 1000000);
      tv_nsec = pos (start.usec * 1000 + 1000 * (packetwait % 1000000));
    }
unfolding end_of
end_of_lem start packetwait =
    rw
      (
        add-pos start.sec (packetwait / 1000000),
        add-pos (start.usec * 1000) (1000 * (packetwait % 1000000)),
      )
      (fixup_timespec-pos (pos (start.sec + packetwait / 1000000))
        (start.usec * 1000 + 1000 * (packetwait % 1000000)))

end_of-IsEnd :
    (start : Reading) (packetwait : ℕ)
    → start.usec < 1000000
    → IsEnd
        (end_of (clock_time start) packetwait)
        (start.sec + packetwait / 1000000)
        (start.usec * 1000 + 1000 * (packetwait % 1000000))
end_of-IsEnd start packetwait h =
    rw end_of_lem (record { sec_is = refl; nsec_is = refl; below = omega arith })

-- With any handler, and a start of the wait whose microseconds are below a million, `ping_recv`
-- does not go on after the first round in which the clock is past the end of the wait, or is a
-- second or more before its start: no rounds that follow are needed, and none before can keep it.
pub ping_recv-ends :
    (func : Handler) (packetwait : ℕ) (start : Reading) (has_fd : Bool) (before after : List Round)
    (rd : Round) (g g' : Globals)
    → start.usec < 1000000
    → (nanos start + packetwait * 1000 < nanos rd.clock)
      ⊎ (nanos rd.clock + 1000000000 ≤ nanos start)
    → ping_recv func packetwait start has_fd (before ++ rd ∷ after) g ≢ again g'
unfolding ping_recv getclock
ping_recv-ends func packetwait start false before after rd g g' normal out h = cc
ping_recv-ends func packetwait start true before after rd g g' normal out h =
    rounds_end func packetwait (end_of (clock_time start) packetwait)
      (start.sec + packetwait / 1000000) (start.usec * 1000 + 1000 * (packetwait % 1000000)) _
      (end_of-IsEnd start packetwait normal) before after rd _ g'
      (λ w. omega (arith, w.not_after, w.not_before)) h
