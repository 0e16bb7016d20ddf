-- ===== src/Stats.antt =====
-- `update_stats` of arping.c: the running minimum, maximum, sum and sum of squares of the round
-- trip times, in nanoseconds.
pub mod Summary
use arping.Prelude.{ℤ, pos, ◌+ℤ◌, ◌*ℤ◌, ltb_ℤ, ◌||◌, if◌then◌else◌}
use arping.State.{Globals}

unfoldable pub update_stats : Globals → ℤ → Globals
update_stats g sample = record g {
  stats_min_time =
      if ltb_ℤ g.stats_min_time (pos 0) || ltb_ℤ sample g.stats_min_time
      then sample
      else g.stats_min_time;
  stats_max_time = if ltb_ℤ g.stats_max_time sample then sample else g.stats_max_time;
  stats_total_time = g.stats_total_time +ℤ sample;
  stats_total_sq_time = g.stats_total_sq_time +ℤ sample *ℤ sample;
}
