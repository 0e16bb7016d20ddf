-- ===== src/Prepare/Filter.antt =====
-- The number in the filter is that of the tag.
use arping.Prelude.{
  ℕ, zero, suc, ◌+◌, ◌*◌, ◌-◌, ◌/◌, ◌%◌, ◌^◌, ◌<◌, ◌≡◌, ◌∙◌, ap, refl, true, ◌&&◌, ltb, leb, [],
  ◌∷◌, Text, arith, Bool-cases, inl, inr,
}
use arping.Options.{decimal}
use arping.Prepare.{digits, unsigned_text}

decimal-digit :
    (v d n : ℕ) (s : Text) → d < 10 → v * 10 + d ≡ n → decimal v ((b'0' + d) ∷ s) ≡ decimal n s
unfolding decimal
decimal-digit v d n s h e =
    let c : v * 10 + (b'0' + d - b'0') ≡ n = omega arith in
    let is_digit : leb b'0' (b'0' + d) && leb (b'0' + d) b'9' ≡ true = ground arith in
    rw (is_digit, c) refl

decimal-digits :
    (fuel n : ℕ) (behind : Text)
    → n < 10 ^ fuel
    → decimal 0 (digits fuel n behind) ≡ decimal n behind
unfolding digits
decimal-digits zero n behind h = ap (λ x. decimal x behind) (omega arith)
decimal-digits (suc fuel) n behind h = elim (Bool-cases (ltb n 10)) [
  | inl small ↦ rw small (decimal-digit 0 n n behind (ground arith) (omega arith))
  | inr big ↦
      let less : n < 10 * 10 ^ fuel = omega arith in
      rw big (
        decimal-digits fuel (n / 10) ((b'0' + n % 10) ∷ behind) (omega arith)
        ∙ decimal-digit (n / 10) (n % 10) n behind (omega arith) (omega arith))
]

-- The digits of a 32-bit number read back as it.
pub unsigned_text-decimal : (n : ℕ) → n < 4294967296 → decimal 0 (unsigned_text n) ≡ n
unfolding unsigned_text decimal
unsigned_text-decimal n h = decimal-digits 10 n [] (omega arith)
