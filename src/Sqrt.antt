-- ===== src/Sqrt.antt =====
-- `sqrt` of arping.c, which stands in for the one of the C library: a binary search over `int` for the
-- root of a `double`.
pub mod Floor
use arping.Prelude.{
  ℕ, zero, suc, ◌+◌, ◌*◌, ◌-◌, ◌/◌, Bool, true, false, Option, none, some, not, ◌&&◌, ◌||◌, ◌==◌,
  leb, ltb, if◌then◌else◌,
}

-- A `double` that is not negative: its whole part, and whether there is a fraction.
pub record Double : Type 0 where
  pub whole : ℕ
  pub fraction : Bool

-- `mid*mid == x` and `mid*mid < x`.
unfoldable pub is_root : ℕ → Double → Bool
is_root mid x = not x.fraction && mid * mid == x.whole

unfoldable pub root_below : ℕ → Double → Bool
root_below mid x = ltb (mid * mid) x.whole || (x.fraction && mid * mid == x.whole)

-- `while (start <= end)`; `none` is the `ans` that was never assigned. `mid` is not 0.
unfoldable pub search_root : ℕ → Double → ℕ → ℕ → Option ℕ → Option ℕ
search_root zero x start end ans = ans
search_root (suc fuel) x start end ans = elim (leb start end) [
  | false ↦ ans
  | true ↦ elim (is_root ((start + end) / 2) x) [
    | true ↦ some ((start + end) / 2)
    | false ↦ elim (root_below ((start + end) / 2) x) [
      | true ↦ search_root fuel x ((start + end) / 2 + 1) end (some ((start + end) / 2))
      | false ↦ search_root fuel x start ((start + end) / 2 - 1) ans
    ]
  ]
]

-- Each round makes the range smaller by one or more, so a round for each number of it is enough.
unfoldable pub sqrt : Double → Option ℕ
sqrt x =
    if not x.fraction && (x.whole == 0 || x.whole == 1)
    then some x.whole
    else search_root (x.whole + 1) x 1 x.whole none
