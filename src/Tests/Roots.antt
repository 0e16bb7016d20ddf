-- ===== src/Tests/Roots.antt =====
-- Roots by `sqrt`.
use arping.Prelude.{ℕ, ◌≡◌, refl, true, some, arith}
use arping.Sqrt.{Double, sqrt, search_root, is_root, root_below}
use arping.Sqrt.Floor.{IsFloor, sqrt-IsFloor}

abbrev ten_and_more : Double
ten_and_more = record { whole = 10; fraction = true }

sqrt-IsFloor_example : (r : ℕ) × (sqrt ten_and_more ≡ some r) × IsFloor 10 r
sqrt-IsFloor_example = sqrt-IsFloor ten_and_more (omega arith) (omega arith)

sqrt_of_10 : sqrt ten_and_more ≡ some 3
unfolding sqrt search_root is_root root_below
sqrt_of_10 = refl
