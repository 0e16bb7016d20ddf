-- ===== src/Duration/Exact.antt =====
-- The unit that `ts2str` chooses.
use arping.Prelude.{
  ℕ, zero, suc, ◌+◌, ◌*◌, ◌<◌, ◌≤◌, ◌≡◌, ◌∙◌, ap, refl, true, false, ◌++◌, some, pos, Text, codes,
  arith,
}
use arping.Host.Clock.{Timespec}
use arping.Prepare.{unsigned_text}
use arping.Duration.{Doubles, seconds, scale, show, ts2str}

module _ {F : Type 0} (d : Doubles F) where
  -- Divided by 1000 so many times.
  abbrev pub divided : ℕ → F → F
  divided zero f = f
  divided (suc k) f = divided k (d.div f (d.of_int (pos 1000)))

  -- It is above 1000 before each of these divisions, and not after the last.
  abbrev pub Stops : ℕ → F → Type 0
  Stops zero f = d.above f (d.of_int (pos 1000)) ≡ false
  Stops (suc k) f =
      (d.above f (d.of_int (pos 1000)) ≡ true) × Stops k (d.div f (d.of_int (pos 1000)))

  -- The text of a number of nanoseconds that was divided so many times.
  abbrev pub unit_text : ℕ → F → Text
  unit_text zero f = d.fixed3 f ++ codes " nsec"
  unit_text (suc zero) f = d.fixed3 f ++ codes " usec"
  unit_text (suc (suc zero)) f = d.fixed3 f ++ codes " msec"
  unit_text (suc (suc (suc zero))) f = d.fixed3 f ++ codes " sec"
  unit_text (suc (suc (suc (suc zero)))) f =
      d.fixed3 (d.mul f (d.of_int (pos 1000))) ++ codes " sec"
  unit_text (suc (suc (suc (suc (suc k))))) f =
      d.fixed3 f ++ codes "e" ++ unsigned_text (k * 3 + 6) ++ codes " sec"

  scale-divided :
      (fuel k : ℕ) (f : F) (exp : ℕ)
      → k < fuel
      → Stops k f
      → scale d fuel f exp ≡ some (divided k f, exp + k * 3)
  unfolding scale
  scale-divided zero k f exp room stops = absurd (omega arith)
  scale-divided (suc fuel) zero f exp room stops = ground arith
  scale-divided (suc fuel) (suc k) f exp room (above, stops) = rw above (
      scale-divided fuel k (d.div f (d.of_int (pos 1000))) (exp + 3) (omega arith) stops
      ∙ ap (λ n. some (divided (suc k) f, n)) (omega arith))

  show_large :
      (f : F) (exp n : ℕ)
      → exp ≡ n + 9
      → 6 ≤ n
      → show d f exp ≡ d.fixed3 f ++ codes "e" ++ unsigned_text n ++ codes " sec"
  unfolding show
  show_large f exp n e large = ground arith

  show-unit_text : (k : ℕ) (f : F) → show d f (k * 3) ≡ unit_text k f
  unfolding show
  show-unit_text zero f = refl
  show-unit_text (suc zero) f = refl
  show-unit_text (suc (suc zero)) f = refl
  show-unit_text (suc (suc (suc zero))) f = refl
  show-unit_text (suc (suc (suc (suc zero)))) f = refl
  show-unit_text (suc (suc (suc (suc (suc k))))) f =
      show_large f (suc (suc (suc (suc (suc k)))) * 3) (k * 3 + 6) (omega arith) (omega arith)

  -- The nanoseconds from one time to the other.
  abbrev pub between : Timespec → Timespec → F
  between tv tv2 =
      d.mul
        (d.sub
          (d.add (d.of_int tv2.tv_sec) (d.div (d.of_int tv2.tv_nsec) (d.of_int (pos 1000000000))))
          (d.add (d.of_int tv.tv_sec) (d.div (d.of_int tv.tv_nsec) (d.of_int (pos 1000000000)))))
        (d.of_int (pos 1000000000))

  -- With fuel for the divisions, `ts2str` returns the time between its arguments, in nanoseconds, divided by
  -- 1000 as long as it is above 1000: as a number of nanoseconds, microseconds, milliseconds or seconds
  -- after none to three of these divisions, multiplied by 1000 again after the fourth, and from the fifth on
  -- with a power of ten in seconds. This is so whatever the arithmetic of doubles and `%.3f` give.
  pub ts2str-unit_text :
      (fuel k : ℕ) (tv tv2 : Timespec)
      → Stops k (between tv tv2)
      → k < fuel
      → ts2str d fuel tv tv2 ≡ some (unit_text k (divided k (between tv tv2)))
  unfolding ts2str seconds
  ts2str-unit_text fuel k tv tv2 stops room =
      rw (scale-divided fuel k (between tv tv2) 0 room stops) (
        ap (λ exp. some (show d (divided k (between tv tv2)) exp)) (omega arith)
        ∙ ap some (show-unit_text k (divided k (between tv tv2))))
