-- ===== src/Run/Closing.antt =====
-- The closing statistics of `arping_main` of arping.c. Quotients of doubles are pairs of integers.
use arping.Prelude.{
  ℕ, ◌*◌, ◌-◌, ◌/◌, ◌%◌, ◌<◌, ◌≡◌, ◌≢◌, ◌∙◌, ap, not, Option, none, some, ◌==◌, ltb, if◌then◌else◌,
  ℤ, pos, negsuc, ◌*ℤ◌, ◌-ℤ◌, arith,
}
use arping.State.{normal, dot, Loss, undefined, percent, Rtt, lost, statistics, Globals, print}
use native.Mathlib.Nat.{div-eq_of_lt, mod-eq_of_lt}
use arping.Sqrt.{sqrt}
use arping.Sqrt.Floor.{sqrt-none}

-- `succ`, and whether it is below 0: `numsent` is the divisor.
unfoldable pub loss : Globals → Loss
loss g =
    if g.numsent == 0
    then (if g.numrecvd == 0 then undefined else percent 0 1)
    else if ltb g.numsent g.numrecvd
    then percent 0 1
    else percent (100 * (g.numsent - g.numrecvd)) g.numsent

-- `(succ < 0.0) ? numrecvd - numsent : 0`.
unfoldable pub extra : Globals → ℕ
extra g = if ltb g.numsent g.numrecvd then g.numrecvd - g.numsent else 0

abbrev pub per_second : ℕ
per_second = 1000000000

-- `stats_total_sq_time/numrecvd - avg*avg`, in squared nanoseconds, times the square of `numrecvd`.
unfoldable pub variance : Globals → ℤ
variance g = (g.stats_total_sq_time *ℤ pos g.numrecvd) -ℤ (g.stats_total_time *ℤ g.stats_total_time)

-- `sqrt` of it in squared seconds. Of a negative number, `end` is no more than 0, and no round is made.
unfoldable pub root_of : ℤ → ℕ → Option ℕ
root_of (pos v) n =
    let d = n * n * (per_second * per_second) in
    sqrt (record { whole = v / d; fraction = not (v % d == 0) })
root_of (negsuc v) n = none

unfoldable pub rtt : Globals → Option Rtt
rtt g =
    if g.numrecvd == 0
    then none
    else some (record {
      min = g.stats_min_time;
      total = g.stats_total_time;
      count = g.numrecvd;
      max = g.stats_max_time;
      std_dev = root_of (variance g) g.numrecvd;
    })

unfoldable pub closing : Globals → Globals
closing g = elim g.display [
  | dot ↦ print g (lost (loss g) (extra g))
  | normal ↦ print g (statistics g.target g.numsent g.numrecvd (loss g) (extra g) (rtt g))
  | _ ↦ g
]

root_of-none :
    (v n : ℕ) → n ≢ 0 → 0 < v → v < n * n * (per_second * per_second) → root_of (pos v) n ≡ none
unfolding root_of
root_of-none v n positive some_variance small =
    let d : ℕ = n * n * (per_second * per_second) in
    let whole : v / d ≡ 0 = div-eq_of_lt small in
    let rest : v % d ≡ v = mod-eq_of_lt small in sqrt-none _ whole (rw rest (ground arith))

-- After replies whose times differ, by less than a second as their deviation tells, what NORMAL prints
-- for the deviation was never written: `sqrt` is called with a number between 0 and 1.
pub closing-no_deviation :
    (g : Globals) (v : ℕ)
    → g.display ≡ normal
    → g.numrecvd ≢ 0
    → variance g ≡ pos v
    → 0 < v
    → v < g.numrecvd * g.numrecvd * (per_second * per_second)
    → closing g
      ≡ print g (
          statistics g.target g.numsent g.numrecvd (loss g) (extra g) (
            some (record {
              min = g.stats_min_time;
              total = g.stats_total_time;
              count = g.numrecvd;
              max = g.stats_max_time;
              std_dev = none;
            })))
unfolding closing rtt
closing-no_deviation g v shown replied is_v positive small =
    let no_root : root_of (variance g) g.numrecvd ≡ none =
      ap (λ z. root_of z g.numrecvd) is_v ∙ root_of-none v g.numrecvd replied positive small in
    ground arith
