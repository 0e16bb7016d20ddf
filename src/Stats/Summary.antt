-- ===== src/Stats/Summary.antt =====
-- What the four figures are, after any sequence of round trip times that are not negative.
use arping.Prelude.{
  ◌+ℤ◌, ◌*ℤ◌, ℕ, min, max, ◌+◌, ◌*◌, ◌≤◌, ◌≡◌, refl, List, [], ◌∷◌, arith, pos, negsuc, leb, All,
  Bool-cases, inl, inr,
}
use mathlib.Core.List.{Memᴰ}
use arping.State.{Globals, initial}
use arping.Stats.{update_stats}

abbrev pub sum : List ℕ → ℕ
sum [] = 0
sum (n ∷ ns) = n + sum ns

abbrev pub sum_sq : List ℕ → ℕ
sum_sq [] = 0
sum_sq (n ∷ ns) = n * n + sum_sq ns

abbrev Within : ℕ → ℕ → ℕ → Type 0
Within lo hi n = (lo ≤ n) × (n ≤ hi)

-- `lo` and `hi` are the least and the greatest of the samples.
pub record Extremes (lo hi : ℕ) (ns : List ℕ) : Type 0 where
  pub least : Memᴰ lo ns
  pub greatest : Memᴰ hi ns
  pub within : All (Within lo hi) ns

-- The figures of `g` are those of the samples, the newest first; before the first sample the
-- minimum and the maximum are -1 second.
abbrev pub Bounds : Globals → List ℕ → Type 0
Bounds g [] = (g.stats_min_time ≡ negsuc 999999999) × (g.stats_max_time ≡ negsuc 999999999)
Bounds g (n ∷ ns) =
    (lo : ℕ) × (hi : ℕ) × (g.stats_min_time ≡ pos lo)
    × (g.stats_max_time ≡ pos hi)
    × Extremes lo hi (n ∷ ns)

pub record Summarises (g : Globals) (ns : List ℕ) : Type 0 where
  pub bounds : Bounds g ns
  pub total : g.stats_total_time ≡ pos (sum ns)
  pub total_sq : g.stats_total_sq_time ≡ pos (sum_sq ns)

-- Before any reply.
pub initial-Summarises : Summarises initial []
initial-Summarises = record { bounds = (refl, refl); total = refl; total_sq = refl }

Within-widen :
    (lo hi lo' hi' : ℕ) (ns : List ℕ)
    → lo' ≤ lo
    → hi ≤ hi'
    → All (Within lo hi) ns
    → All (Within lo' hi') ns
Within-widen lo hi lo' hi' [] p q h = tt
Within-widen lo hi lo' hi' (n ∷ ns) p q h = (omega arith, Within-widen lo hi lo' hi' ns p q h.1)

mem_min : (lo n : ℕ) (ns : List ℕ) → Memᴰ lo ns → Memᴰ (min n lo) (n ∷ ns)
mem_min lo n ns m = elim (Bool-cases (leb n lo)) [
  | inl le ↦ Memᴰ.head (ground arith)
  | inr gt ↦ let e : min n lo ≡ lo = ground arith in rw e (Memᴰ.tail m)
]

mem_max : (hi n : ℕ) (ns : List ℕ) → Memᴰ hi ns → Memᴰ (max hi n) (n ∷ ns)
mem_max hi n ns m = elim (Bool-cases (leb hi n)) [
  | inl le ↦ Memᴰ.head (ground arith)
  | inr gt ↦ let e : max hi n ≡ hi = ground arith in rw e (Memᴰ.tail m)
]

-- One more sample moves the two ends at most out to it.
extend : (lo hi n : ℕ) (ns : List ℕ) → Extremes lo hi ns → Extremes (min n lo) (max hi n) (n ∷ ns)
extend lo hi n ns e = record {
  least = mem_min lo n ns e.least;
  greatest = mem_max hi n ns e.greatest;
  within = (
    omega arith,
    Within-widen lo hi (min n lo) (max hi n) ns (omega arith) (omega arith) e.within,
  );
}

update_stats-Bounds :
    (g : Globals) (n : ℕ) (ns : List ℕ) → Bounds g ns → Bounds (update_stats g (pos n)) (n ∷ ns)
unfolding update_stats
update_stats-Bounds g n [] h = (
  n,
  n,
  ground arith,
  ground arith,
  record { least = Memᴰ.head refl; greatest = Memᴰ.head refl; within = omega arith },
)
update_stats-Bounds g n (m ∷ ns) (lo, hi, l, u, e) =
    (min n lo, max hi n, ground arith, ground arith, extend lo hi n (m ∷ ns) e)

-- A sample of zero or more keeps the figures right.
pub update_stats-Summarises :
    (g : Globals) (n : ℕ) (ns : List ℕ)
    → Summarises g ns
    → Summarises (update_stats g (pos n)) (n ∷ ns)
update_stats-Summarises g n ns h = record {
  bounds = update_stats-Bounds g n ns h.bounds;
  total = unfold update_stats ◌+ℤ◌ ◌*ℤ◌ in ground arith;
  total_sq = unfold update_stats ◌+ℤ◌ ◌*ℤ◌ in ground arith;
}

-- The state after these samples, the newest first.
abbrev pub stats_after : List ℕ → Globals
stats_after [] = initial
stats_after (n ∷ ns) = update_stats (stats_after ns) (pos n)

-- After any samples of zero or more, `update_stats` has left their sum and the sum of their
-- squares, and a minimum and a maximum that are samples between which all lie; before the first
-- sample these two are -1 second.
pub stats_after-Summarises : (ns : List ℕ) → Summarises (stats_after ns) ns
stats_after-Summarises [] = initial-Summarises
stats_after-Summarises (n ∷ ns) =
    update_stats-Summarises (stats_after ns) n ns (stats_after-Summarises ns)
