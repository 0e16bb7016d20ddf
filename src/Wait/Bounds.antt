-- ===== src/Wait/Bounds.antt =====
-- What `wait_time` returns against the time that is left.
use arping.Prelude.{
  ℕ, ◌+◌, ◌-◌, ◌*◌, ◌/◌, ◌%◌, ◌≤◌, ◌<◌, ◌≡◌, ◌∙◌, ap, ltb, ℤ, pos, ◌-ℤ◌, ◌*ℤ◌, ◌+ℤ◌, arith,
  if◌then◌else◌,
}
use arping.Host.Clock.{Reading, timespec2dbl}
use arping.State.{Globals, clock_time, getclock, uint_mod}
use arping.Wait.{clip, wait_time}

-- The time of a reading in nanoseconds.
abbrev pub nanos : Reading → ℕ
nanos r = r.sec * 1000000000 + r.usec * 1000

clock_time-nanos : (r : Reading) → timespec2dbl (clock_time r) ≡ pos (nanos r)
unfolding timespec2dbl ◌*ℤ◌ ◌+ℤ◌
clock_time-nanos r = ground arith

-- `clip` of a time that is left.
clip-pos :
    (n packetwait : ℕ)
    → clip (pos n) packetwait
      ≡ (if ltb (packetwait / 1000000 * 1000000000) n then packetwait else n / 1000 % uint_mod)
unfolding clip
clip-pos n packetwait = ground arith

-- With a deadline the wait is that of the difference.
wait_time-pos :
    (r : Reading) (deadline packetwait : ℕ) (g : Globals)
    → (wait_time r (pos deadline) packetwait g).0 ≡ clip (pos deadline -ℤ pos (nanos r)) packetwait
unfolding wait_time getclock
wait_time-pos r deadline packetwait g = rw (clock_time-nanos r) (ground arith)

sub-pos : (a b : ℕ) → b ≤ a → pos a -ℤ pos b ≡ pos (a - b)
unfolding ◌-ℤ◌
sub-pos a b h = ground arith

wait_time_before :
    (r : Reading) (deadline packetwait : ℕ) (g : Globals)
    → nanos r ≤ deadline
    → (wait_time r (pos deadline) packetwait g).0 ≡ (
        if ltb (packetwait / 1000000 * 1000000000) (deadline - nanos r)
        then packetwait
        else (deadline - nanos r) / 1000 % uint_mod)
wait_time_before r deadline packetwait g h =
    wait_time-pos r deadline packetwait g
    ∙ ap (λ m. clip m packetwait) (sub-pos deadline (nanos r) h)
    ∙ clip-pos (deadline - nanos r) packetwait

clip-negative : (a b packetwait : ℕ) → a < b → clip (pos a -ℤ pos b) packetwait ≡ 0
unfolding clip ◌-ℤ◌
clip-negative a b packetwait h = ground arith

-- Before the deadline, and with a `packetwait` of 32 bits, `wait_time` is at most `packetwait`, and
-- the wait ends less than a second after the deadline.
pub wait_time-before :
    (r : Reading) (deadline packetwait : ℕ) (g : Globals)
    → packetwait < uint_mod
    → nanos r ≤ deadline
    → ((wait_time r (pos deadline) packetwait g).0 ≤ packetwait)
      × (nanos r + (wait_time r (pos deadline) packetwait g).0 * 1000 < deadline + 1000000000)
wait_time-before r deadline packetwait g small left =
    ground (arith, wait_time_before r deadline packetwait g left)

-- If `packetwait`, of 32 bits, is whole seconds, a wait of `wait_time` that starts before the
-- deadline does not end after it.
pub wait_time-whole_seconds :
    (r : Reading) (deadline packetwait : ℕ) (g : Globals)
    → packetwait < uint_mod
    → packetwait % 1000000 ≡ 0
    → nanos r ≤ deadline
    → nanos r + (wait_time r (pos deadline) packetwait g).0 * 1000 ≤ deadline
wait_time-whole_seconds r deadline packetwait g small whole left =
    ground (arith, wait_time_before r deadline packetwait g left)

-- After the deadline `wait_time` is 0.
pub wait_time-after :
    (r : Reading) (deadline packetwait : ℕ) (g : Globals)
    → deadline < nanos r
    → (wait_time r (pos deadline) packetwait g).0 ≡ 0
wait_time-after r deadline packetwait g late =
    wait_time-pos r deadline packetwait g ∙ clip-negative deadline (nanos r) packetwait late

-- With a `packetwait` of less than a second, and a deadline before its end, `wait_time` is still
-- the whole `packetwait`, which ends after the deadline.
pub wait_time-overrun :
    (r : Reading) (deadline packetwait : ℕ) (g : Globals)
    → packetwait < 1000000
    → nanos r < deadline
    → deadline < nanos r + packetwait * 1000
    → ((wait_time r (pos deadline) packetwait g).0 ≡ packetwait)
      × (deadline < nanos r + (wait_time r (pos deadline) packetwait g).0 * 1000)
wait_time-overrun r deadline packetwait g short before after =
    ground (arith, wait_time_before r deadline packetwait g)

clip_le : (m : ℤ) (packetwait : ℕ) → packetwait < uint_mod → clip m packetwait ≤ packetwait
unfolding clip
clip_le m packetwait h = ground arith

-- A wait is never longer than `packetwait`.
pub wait_time_le :
    (r : Reading) (deadline : ℤ) (packetwait : ℕ) (g : Globals)
    → packetwait < uint_mod
    → (wait_time r deadline packetwait g).0 ≤ packetwait
unfolding wait_time getclock
wait_time_le r deadline packetwait g h =
    ground (arith, clip_le (deadline -ℤ timespec2dbl (clock_time r)) packetwait h)

-- `wait_time` does not count packets.
pub wait_time-numsent :
    (r : Reading) (deadline : ℤ) (packetwait : ℕ) (g : Globals)
    → (wait_time r deadline packetwait g).1.numsent ≡ g.numsent
unfolding wait_time getclock
wait_time-numsent r deadline packetwait g = ground arith
