-- ===== src/Sqrt/Floor.antt =====
-- The search finds the whole part of the root, of every number of 1 or more.
use arping.Prelude.{
  ℕ, zero, suc, ◌+◌, ◌*◌, ◌-◌, ◌/◌, ◌≤◌, ◌<◌, ◌≡◌, ◌∙◌, refl, ◌⊎◌, inl, inr, true, false, Option,
  none, some, not, ◌&&◌, ◌||◌, ◌==◌, leb, arith, if◌then◌else◌, Bool-cases,
}
use arping.Sqrt.{Double, is_root, root_below, search_root, sqrt}

-- The whole part of the root.
pub record IsFloor (n r : ℕ) : Type 0 where
  pub below : r * r ≤ n
  pub above : n < (r + 1) * (r + 1)

-- What holds before each round: the root lies between `low` and `high`, and `ans` is `low` unless
-- that is 0.
record Between (x : Double) (start end : ℕ) (ans : Option ℕ) : Type 0 where
  low : ℕ
  starts : start ≡ low + 1
  found : low * low ≤ x.whole
  bound : x.whole < (end + 1) * (end + 1)
  answer : (low ≡ 0) ⊎ (ans ≡ some low)
  ordered : low ≤ end

-- A round, by its three tests.
search_root_round :
    (fuel : ℕ) (x : Double) (start end : ℕ) (ans : Option ℕ)
    → search_root (suc fuel) x start end ans ≡ (
        let mid = (start + end) / 2 in
        if not (leb start end)
        then ans
        else if is_root mid x
        then some mid
        else if root_below mid x
        then search_root fuel x (mid + 1) end (some mid)
        else search_root fuel x start (mid - 1) ans)
unfolding search_root
search_root_round fuel x start end ans = ground arith

square_suc : (m : ℕ) → (m + 1) * (m + 1) ≡ m * m + 2 * m + 1
square_suc m = omega arith

is_root-IsFloor : (x : Double) (mid : ℕ) → is_root mid x ≡ true → IsFloor x.whole mid
unfolding is_root
is_root-IsFloor x mid h = record { below = ground arith; above = ground (arith, square_suc mid) }

module _ (x : Double) where
  root_below_le : (mid : ℕ) → root_below mid x ≡ true → mid * mid ≤ x.whole
  unfolding root_below
  root_below_le mid h = ground arith

  root_above : (mid : ℕ) → is_root mid x ≡ false → root_below mid x ≡ false → x.whole < mid * mid
  unfolding root_below is_root
  root_above mid h k = ground arith

  module _ (big : 1 ≤ x.whole) where
    finished :
        (start end : ℕ) (ans : Option ℕ)
        → Between x start end ans
        → leb start end ≡ false
        → (r : ℕ) × (ans ≡ some r) × IsFloor x.whole r
    finished start end ans b h =
        let less : end < start = ground arith in
        let same : b.low ≡ end = omega (arith, b.starts, b.ordered) in
        elim b.answer [
          | inl none_yet ↦ absurd (ground (arith, b.bound))
          | inr e ↦ (b.low, e, record { below = b.found; above = ground (arith, b.bound) })
        ]

    up :
        (start end mid : ℕ) (ans : Option ℕ)
        → Between x start end ans
        → mid ≤ end
        → root_below mid x ≡ true
        → Between x (mid + 1) end (some mid)
    up start end mid ans b le h = record {
      low = mid;
      starts = refl;
      found = root_below_le mid h;
      bound = b.bound;
      answer = inr refl;
      ordered = le;
    }

    down :
        (start end mid : ℕ) (ans : Option ℕ)
        → Between x start end ans
        → start ≤ mid
        → x.whole < mid * mid
        → Between x start (mid - 1) ans
    down start end mid ans b le h =
        let back : mid - 1 + 1 ≡ mid = omega (arith, b.starts) in
        record {
          low = b.low;
          starts = b.starts;
          found = b.found;
          bound = rw back h;
          answer = b.answer;
          ordered = omega (arith, b.starts);
        }

    search_root-IsFloor :
        (fuel start end : ℕ) (ans : Option ℕ)
        → Between x start end ans
        → end < start + fuel
        → (r : ℕ) × (search_root fuel x start end ans ≡ some r) × IsFloor x.whole r
    search_root-IsFloor zero start end ans b h =
        unfold search_root in finished start end ans b (ground arith)
    search_root-IsFloor (suc fuel) start end ans b h =
        let mid : ℕ = (start + end) / 2 in
        let step = search_root_round fuel x start end ans in
        elim (Bool-cases (leb start end)) [
          | inr stop ↦ let (r, e, f) = finished start end ans b stop in (r, step ∙ ground arith, f)
          | inl go ↦ elim (Bool-cases (is_root mid x)) [
            | inl exact ↦ (mid, step ∙ ground arith, is_root-IsFloor x mid exact)
            | inr not_exact ↦ elim (Bool-cases (root_below mid x)) [
              | inl below ↦
                  let le : start ≤ end = ground arith in
                  let (r, e, f) =
                    search_root-IsFloor fuel (mid + 1) end (some mid)
                      (up start end mid ans b (omega arith) below) (omega arith) in
                  (r, step ∙ ground arith, f)
              | inr above ↦
                  let le : start ≤ end = ground arith in
                  let (r, e, f) =
                    search_root-IsFloor fuel start (mid - 1) ans
                      (down start end mid ans b (omega arith) (root_above mid not_exact above))
                      (omega (arith, b.starts)) in
                  (r, step ∙ ground arith, f)
            ]
          ]
        ]

-- Of a number of 1 or more, and below 2^30 so that the sums fit an `int`, `sqrt` returns the whole
-- part of the root; its loop ends.
pub sqrt-IsFloor :
    (x : Double)
    → 1 ≤ x.whole
    → x.whole < 1073741824
    → (r : ℕ) × (sqrt x ≡ some r) × IsFloor x.whole r
unfolding sqrt
sqrt-IsFloor x big small = elim (Bool-cases (not x.fraction && (x.whole == 0 || x.whole == 1))) [
  | inl base ↦ (x.whole, ground arith, record { below = ground arith; above = ground arith })
  | inr other ↦
      let (r, e, f) = search_root-IsFloor x big (x.whole + 1) 1 x.whole none start (omega arith) in
      (r, ground arith, f)
]
  where
    start : Between x 1 x.whole none
    start = record {
      low = 0;
      starts = refl;
      found = omega arith;
      bound = omega (arith, square_suc x.whole);
      answer = inl refl;
      ordered = omega arith;
    }

-- Of a number between 0 and 1 the variable that `sqrt` returns was never assigned.
pub sqrt-none : (x : Double) → x.whole ≡ 0 → x.fraction ≡ true → sqrt x ≡ none
unfolding sqrt search_root
sqrt-none x small part = rw (small, part) refl
