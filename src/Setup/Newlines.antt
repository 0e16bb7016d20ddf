-- ===== src/Setup/Newlines.antt =====
-- `strip_newline` cuts off the newlines at the end, and nothing else.
use arping.Prelude.{
  ℕ, zero, suc, ◌≡◌, ◌≢◌, ◌∙◌, ap, sym, refl, inl, inr, true, false, some, [], ◌∷◌, ◌++◌, ◌==◌,
  Text, arith, length, get_elem?, take, All, Bool-cases, append_assoc, append-nil, get_elem?_total,
}
use arping.Setup.{strip_from, strip_newline}

-- `t` is `s` without the newlines at its end.
pub record IsStripped (s t : Text) : Type 0 where
  pub newlines : Text
  pub split : s ≡ t ++ newlines
  pub only : All (λ c. c ≡ b'\n') newlines
  pub none_left : (u : Text) → t ≢ u ++ b'\n' ∷ []

take-last :
    (n : ℕ) (s : Text) {c : ℕ}
    → length s ≡ suc n
    → get_elem? s n ≡ some c
    → (s ≡ take n s ++ c ∷ []) × (length (take n s) ≡ n)
take-last zero [] h e = absurd (ground arith)
take-last (suc n) [] h e = absurd (ground arith)
take-last zero (x ∷ []) {c} h e = (ground arith, refl)
take-last zero (x ∷ y ∷ s) h e = absurd (omega arith)
take-last (suc n) (x ∷ s) h e =
    let (a, b) = take-last n s (omega arith) e in (ap (◌∷◌ x) a, omega arith)

snoc_last : (u v : Text) (c d : ℕ) → u ++ c ∷ [] ≡ v ++ d ∷ [] → c ≡ d
snoc_last [] [] c d h = ground arith
snoc_last [] (y ∷ []) c d h = absurd (ground arith)
snoc_last [] (y ∷ z ∷ v) c d h = absurd (ground arith)
snoc_last (x ∷ []) [] c d h = absurd (ground arith)
snoc_last (x ∷ z ∷ u) [] c d h = absurd (ground arith)
snoc_last (x ∷ u) (y ∷ v) c d h = snoc_last u v c d (ground arith)

nil_snoc : (u : Text) (c : ℕ) → [] ≢ u ++ c ∷ []
nil_snoc [] c h = absurd (ground arith)
nil_snoc (x ∷ u) c h = absurd (ground arith)

All-snoc : (s : Text) (c d : ℕ) → All (λ x. x ≡ d) s → c ≡ d → All (λ x. x ≡ d) (s ++ c ∷ [])
All-snoc [] c d h e = (e, tt)
All-snoc (x ∷ s) c d (h, t) e = (h, All-snoc s c d t e)

strip_from_cut :
    (n : ℕ) (s : Text) (c : ℕ)
    → get_elem? s n ≡ some c
    → (c == b'\n') ≡ true
    → strip_from (suc n) s ≡ strip_from n (take n s)
unfolding strip_from
strip_from_cut n s c e h = ground arith

strip_from_kept :
    (n : ℕ) (s : Text) (c : ℕ)
    → get_elem? s n ≡ some c
    → (c == b'\n') ≡ false
    → strip_from (suc n) s ≡ s
unfolding strip_from
strip_from_kept n s c e h = ground arith

strip_from-IsStripped : (n : ℕ) (s : Text) → length s ≡ n → IsStripped s (strip_from n s)
unfolding strip_from
strip_from-IsStripped zero [] h = record {
  newlines = [];
  split = refl;
  only = tt;
  none_left = λ u. nil_snoc u b'\n';
}
strip_from-IsStripped zero (x ∷ s) h = absurd (omega arith)
strip_from-IsStripped (suc n) s h =
    let (c, e) = get_elem?_total s n (omega arith) in
    let (snoc, shorter) = take-last n s h e in
    elim (Bool-cases (c == b'\n')) [
      | inl newline ↦
          let r = strip_from-IsStripped n (take n s) shorter in
          rw (strip_from_cut n s c e newline) (record {
            newlines = r.newlines ++ c ∷ [];
            split = snoc ∙ ap (λ x. x ++ c ∷ []) r.split ∙ append_assoc _ r.newlines (c ∷ []);
            only = All-snoc r.newlines c b'\n' r.only (ground arith);
            none_left = r.none_left;
          })
      | inr other ↦ rw (strip_from_kept n s c e other) (record {
        newlines = [];
        split = sym (append-nil s);
        only = tt;
        none_left = λ u q. ground (arith, snoc_last (take n s) u c b'\n' (sym snoc ∙ q));
      })
    ]

-- `strip_newline` cuts off the newlines at the end of a string, and nothing else.
pub strip_newline-IsStripped : (s : Text) → IsStripped s (strip_newline s)
unfolding strip_newline
strip_newline-IsStripped s = strip_from-IsStripped (length s) s refl
