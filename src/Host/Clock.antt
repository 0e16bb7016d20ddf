-- ===== src/Host/Clock.antt =====
-- `struct timespec`, `fixup_timespec`, `timespec2dbl` and the readings of `gettimeofday`.
-- A `double` of seconds is the integer of its nanoseconds.
use arping.Prelude.{
  ℕ, suc, ◌+◌, ◌*◌, ◌/◌, ◌<◌, ◌≤◌, ◌≡◌, refl, Bool, arith, ℤ, pos, ◌+ℤ◌, ◌-ℤ◌, ◌*ℤ◌, zero, ltb_ℤ,
  if◌then◌else◌, neg_part, pos_part, Bool-cases, true, false, inl, inr, ◌∙◌,
}

pub record Timespec : Type 0 where
  pub tv_sec : ℤ
  pub tv_nsec : ℤ

-- One call of `gettimeofday`: whether it failed, and what `tv` then holds.
pub record Reading : Type 0 where
  pub failed : Bool
  pub sec : ℕ
  pub usec : ℕ

abbrev pub billion : ℤ
billion = pos 1000000000

unfoldable pub timespec2dbl : Timespec → ℤ
timespec2dbl tv = tv.tv_sec *ℤ billion +ℤ tv.tv_nsec

-- `while (tv->tv_nsec < 0)`, on the rounds that are left.
unfoldable pub fixup_loop : ℕ → Timespec → Timespec
fixup_loop zero tv = tv
fixup_loop (suc fuel) tv =
    let next =
      fixup_loop fuel (record { tv_sec = tv.tv_sec -ℤ pos 1; tv_nsec = tv.tv_nsec +ℤ billion }) in
    if ltb_ℤ tv.tv_nsec (pos 0) then next else tv

-- Each round adds a second to the nanoseconds, so these rounds are enough.
unfoldable pub fixup_timespec : Timespec → Timespec
fixup_timespec tv = fixup_loop (neg_part tv.tv_nsec / 1000000000 + 1) tv

-- A second moved from `tv_sec` to `tv_nsec` leaves the instant as it was.
borrow-timespec2dbl :
    (a b : ℤ)
    → timespec2dbl (record { tv_sec = a -ℤ pos 1; tv_nsec = b +ℤ billion })
      ≡ timespec2dbl (record { tv_sec = a; tv_nsec = b })
unfolding timespec2dbl ◌+ℤ◌ ◌-ℤ◌ ◌*ℤ◌
borrow-timespec2dbl a b = ground arith

-- The nanoseconds are not negative, and below `m`.
pub record IsNormal (m : ℕ) (tv : Timespec) : Type 0 where
  pub nonneg : neg_part tv.tv_nsec ≡ 0
  pub below : pos_part tv.tv_nsec < m

borrow_parts :
    (b : ℤ) (m : ℕ)
    → ltb_ℤ b (pos 0) ≡ true
    → neg_part b ≤ m + 1000000000
    → (neg_part (b +ℤ billion) ≤ m) × (pos_part (b +ℤ billion) < 1000000000)
unfolding ◌+ℤ◌
borrow_parts b m h le = ground arith

not_negative : (b : ℤ) → ltb_ℤ b (pos 0) ≡ false → neg_part b ≡ 0
not_negative b h = ground arith

fixup_loop-IsNormal :
    (m fuel : ℕ) (tv : Timespec)
    → 1000000000 ≤ m
    → neg_part tv.tv_nsec < fuel * 1000000000 + 1
    → pos_part tv.tv_nsec < m
    → IsNormal m (fixup_loop fuel tv) × (timespec2dbl (fixup_loop fuel tv) ≡ timespec2dbl tv)
unfolding fixup_loop
fixup_loop-IsNormal m zero tv big h p = (record { nonneg = omega arith; below = p }, refl)
fixup_loop-IsNormal m (suc fuel) tv big h p = elim (Bool-cases (ltb_ℤ tv.tv_nsec (pos 0))) [
  | inl negative ↦
      let tv' : Timespec = record {
        tv_sec = tv.tv_sec -ℤ pos 1;
        tv_nsec = tv.tv_nsec +ℤ billion;
      } in
      let (left, right) = borrow_parts tv.tv_nsec (fuel * 1000000000) negative (omega arith) in
      let (normal, same) = fixup_loop-IsNormal m fuel tv' big (omega arith) (omega arith) in
      rw negative (normal, same ∙ borrow-timespec2dbl tv.tv_sec tv.tv_nsec)
  | inr done ↦ rw done (record { nonneg = not_negative tv.tv_nsec done; below = p }, refl)
]

-- `fixup_timespec` ends with nanoseconds that are not negative, at the same instant. Nanoseconds
-- below a bound `m` of a second or more stay below it: the loop borrows, and never carries.
pub fixup_timespec-IsNormal :
    (m : ℕ) (tv : Timespec)
    → 1000000000 ≤ m
    → pos_part tv.tv_nsec < m
    → IsNormal m (fixup_timespec tv) × (timespec2dbl (fixup_timespec tv) ≡ timespec2dbl tv)
unfolding fixup_timespec
fixup_timespec-IsNormal m tv big p =
    fixup_loop-IsNormal m (neg_part tv.tv_nsec / 1000000000 + 1) tv big (omega arith) p

-- A time whose nanoseconds are not negative stays as it is, however many they are.
pub fixup_timespec-pos :
    (s : ℤ) (n : ℕ)
    → fixup_timespec (record { tv_sec = s; tv_nsec = pos n })
      ≡ record { tv_sec = s; tv_nsec = pos n }
unfolding fixup_timespec fixup_loop
fixup_timespec-pos s n = ground arith
