-- ===== src/Wait.antt =====
-- How long to wait for replies: `wait_time` of arping.c. A deadline is in nanoseconds since the
-- epoch, `packetwait` in microseconds.
pub mod Bounds
use arping.Prelude.{ℕ, ◌*◌, ◌/◌, ◌%◌, ℤ, pos, ◌-ℤ◌, ltb_ℤ, pos_part, if◌then◌else◌}
use arping.Host.Clock.{Reading, timespec2dbl}
use arping.State.{Globals, getclock, uint_mod}

-- The comparison is with whole seconds of `packetwait`: `packetwait / 1000000` divides integers.
unfoldable pub clip : ℤ → ℕ → ℕ
clip max_wait packetwait =
    if ltb_ℤ max_wait (pos 0)
    then 0
    else if ltb_ℤ (pos (packetwait / 1000000 * 1000000000)) max_wait
    then packetwait
    else pos_part max_wait / 1000 % uint_mod

unfoldable pub wait_time : Reading → ℤ → ℕ → Globals → ℕ × Globals
wait_time r deadline packetwait g =
    if ltb_ℤ deadline (pos 0)
    then (packetwait, g)
    else (let (ts, g') = getclock r g in (clip (deadline -ℤ timespec2dbl ts) packetwait, g'))
