-- ===== src/Mac/Shape.antt =====
-- What `is_mac_addr` accepts: the cisco and windows notations by their grammar, and any text with
-- a `:`.
use arping.Prelude.{
  ℕ, zero, suc, ◌+◌, ◌*◌, ◌-◌, ◌%◌, ◌≤◌, ◌≡◌, ◌↔◌, ◌∙◌, ◌⊎◌, inl, inr, refl, true, false, [], ◌∷◌,
  ◌&&◌, ◌==◌, length, arith, Text, strchr, Bool-cases,
}
use mathlib.Core.List.{Memᴰ}
use native.Mathlib.Nat.{mul-add-mod_self_right, mod-eq_of_lt}
use arping.Mac.{is_xdigit, matches_from, is_mac_addr}

-- `k` hexadecimal digits, and then `n` groups, each a separator and `w` digits.
pub data Groups (sep w : ℕ) : ℕ → ℕ → Text → Type 0 where
  done : Groups sep w zero zero []
  digit :
      {k n x : ℕ} {s : Text}
      → is_xdigit x ≡ true
      → Groups sep w k n s
      → Groups sep w (suc k) n (x ∷ s)
  next : {n x : ℕ} {s : Text} → x ≡ sep → Groups sep w w n s → Groups sep w zero (suc n) (x ∷ s)

length-Groups : {sep w k n : ℕ} {s : Text} → Groups sep w k n s → length s ≡ k + n * (w + 1)
length-Groups done = omega arith
length-Groups (digit h g) = omega (arith, length-Groups g)
length-Groups (next h g) = omega (arith, length-Groups g)

-- The index of a separator, and of a digit, within its period.
at_separator : (w q c : ℕ) → c ≡ q * (w + 1) + w → (c % (w + 1) == w + 1 - 1) ≡ true
at_separator w q c e = ground (arith, remainder)
  where
    remainder : c % (w + 1) ≡ w
    remainder =
        rw e (mul-add-mod_self_right q (w + 1) w ∙ mod-eq_of_lt {n = w} {m = w + 1} (omega arith))

at_digit :
    (w q c k : ℕ) → suc k ≤ w → c + suc k ≡ q * (w + 1) + w → (c % (w + 1) == w + 1 - 1) ≡ false
at_digit w q c k p e = ground (arith, remainder)
  where
    start : c ≡ q * (w + 1) + (w - suc k)
    start = omega arith

    remainder : c % (w + 1) ≡ w - suc k
    remainder = rw start (
        mul-add-mod_self_right q (w + 1) (w - suc k)
        ∙ mod-eq_of_lt {n = w - suc k} {m = w + 1} (omega arith))

-- At index `c` of the `q`th period there are `k` digits before the next separator, and `n` groups
-- behind them.
matches_from-Groups :
    (w sep q c k n : ℕ) (s : Text)
    → k ≤ w
    → c + k ≡ q * (w + 1) + w
    → length s ≡ k + n * (w + 1)
    → matches_from (w + 1) sep c s ≡ true
    → Groups sep w k n s
unfolding matches_from
matches_from-Groups w sep q c zero zero [] p e l h = done
matches_from-Groups w sep q c zero (suc n) [] p e l h = absurd (omega arith)
matches_from-Groups w sep q c (suc k) n [] p e l h = absurd (omega arith)
matches_from-Groups w sep q c zero zero (x ∷ s) p e l h = absurd (omega arith)
matches_from-Groups w sep q c zero (suc n) (x ∷ s) p e l h =
    let here = at_separator w q c (omega arith) in
    next (ground arith) (
      matches_from-Groups w sep (q + 1) (c + 1) w n s (omega arith) (omega arith) (omega arith)
        (ground arith))
matches_from-Groups w sep q c (suc k) n (x ∷ s) p e l h =
    let here = at_digit w q c k p e in
    digit (ground arith) (
      matches_from-Groups w sep q (c + 1) k n s (omega arith) (omega arith) (omega arith)
        (ground arith))

Groups-matches_from :
    {w sep : ℕ} (q c : ℕ) {k n : ℕ} {s : Text}
    → k ≤ w
    → c + k ≡ q * (w + 1) + w
    → Groups sep w k n s
    → matches_from (w + 1) sep c s ≡ true
unfolding matches_from
Groups-matches_from q c p e done = refl
Groups-matches_from {w} q c p e (digit {k} h g) = ground (
  arith,
  at_digit w q c k p e,
  Groups-matches_from {w = w} q (c + 1) {k = k} (omega arith) (omega arith) g,
)
Groups-matches_from {w} q c p e (next h g) = ground (
  arith,
  at_separator w q c (omega arith),
  Groups-matches_from {w = w} (q + 1) (c + 1) {k = w} (omega arith) (omega arith) g,
)

strchr-Memᴰ : (s : Text) (c : ℕ) → strchr s c ≡ true → Memᴰ c s
unfolding strchr
strchr-Memᴰ [] c h = cc
strchr-Memᴰ (x ∷ s) c h = elim (Bool-cases (x == c)) [
  | inl e ↦ Memᴰ.head (ground arith)
  | inr e ↦ Memᴰ.tail (strchr-Memᴰ s c (ground arith))
]

Memᴰ-strchr : {c : ℕ} {s : Text} → Memᴰ c s → strchr s c ≡ true
unfolding strchr
Memᴰ-strchr (Memᴰ.head e) = ground arith
Memᴰ-strchr (Memᴰ.tail m) = ground (arith, Memᴰ-strchr m)

-- Each of the two grammars against its branch of the code.
cisco_iff :
    (s : Text) → ((length s == 3 * 5 - 1) && matches_from 5 b'.' 0 s ≡ true) ↔ Groups b'.' 4 4 2 s
cisco_iff s = (
  λ h. matches_from-Groups 4 b'.' 0 0 4 2 s (omega arith) refl (ground arith) (ground arith),
  λ g. ground (arith, length-Groups g, Groups-matches_from 0 0 (omega arith) refl g),
)

windows_iff :
    (s : Text) → ((length s == 6 * 3 - 1) && matches_from 3 b'-' 0 s ≡ true) ↔ Groups b'-' 2 2 5 s
windows_iff s = (
  λ h. matches_from-Groups 2 b'-' 0 0 2 5 s (omega arith) refl (ground arith) (ground arith),
  λ g. ground (arith, length-Groups g, Groups-matches_from 0 0 (omega arith) refl g),
)

-- `is_mac_addr` accepts exactly the texts of the cisco notation, those of the windows notation, and
-- those with a `:`.
pub is_mac_addr_iff :
    (s : Text) → (is_mac_addr s ≡ true) ↔ (Groups b'.' 4 4 2 s ⊎ Groups b'-' 2 2 5 s ⊎ Memᴰ b':' s)
unfolding is_mac_addr
is_mac_addr_iff s = (accepted, accepts)
  where
    accepted : is_mac_addr s ≡ true → Groups b'.' 4 4 2 s ⊎ Groups b'-' 2 2 5 s ⊎ Memᴰ b':' s
    accepted h = elim (Bool-cases ((length s == 3 * 5 - 1) && matches_from 5 b'.' 0 s)) [
      | inl cisco ↦ inl ((cisco_iff s).0 cisco)
      | inr plain ↦ elim (Bool-cases ((length s == 6 * 3 - 1) && matches_from 3 b'-' 0 s)) [
        | inl windows ↦ inr (inl ((windows_iff s).0 windows))
        | inr other ↦ inr (inr (strchr-Memᴰ s b':' (ground arith)))
      ]
    ]

    accepts : Groups b'.' 4 4 2 s ⊎ Groups b'-' 2 2 5 s ⊎ Memᴰ b':' s → is_mac_addr s ≡ true
    accepts (inl g) = ground (arith, (cisco_iff s).1 g)
    accepts (inr (inl g)) = ground (arith, (windows_iff s).1 g)
    accepts (inr (inr m)) = ground (arith, Memᴰ-strchr m)
