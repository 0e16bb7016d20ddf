-- ===== src/Duration.antt =====
-- `ts2str` of arping.c: a duration as text, in nanoseconds, microseconds, milliseconds or seconds. The
-- doubles of C, with their rounding, and `%.3f` are parameters.
pub mod Exact
use Prim.Native.String.{String}
use arping.Prelude.{
  ℕ, zero, suc, ◌+◌, ◌-◌, ◌==◌, Bool, Option, none, some, ◌++◌, if◌then◌else◌, ℤ, pos, Text, codes,
}
use arping.Host.Clock.{Timespec}
use arping.Host.Order.{◌>>=◌}
use arping.Prepare.{unsigned_text}

-- What C does with doubles here: conversion, `+`, `-`, `*`, `/` and `>`, and the text of `%.3f`.
pub record Doubles (F : Type 0) : Type 0 where
  pub of_int : ℤ → F
  pub add : F → F → F
  pub sub : F → F → F
  pub mul : F → F → F
  pub div : F → F → F
  pub above : F → F → Bool
  pub fixed3 : F → Text

module _ {F : Type 0} (d : Doubles F) where
  -- `timespec2dbl`, as doubles.
  unfoldable pub seconds : Timespec → F
  seconds ts = d.add (d.of_int ts.tv_sec) (d.div (d.of_int ts.tv_nsec) (d.of_int (pos 1000000000)))

  -- `while (f > 1000)`, with fuel for the rounds; `f` and `exp` after it.
  unfoldable pub scale : ℕ → F → ℕ → Option (F × ℕ)
  scale zero f exp = none
  scale (suc fuel) f exp =
      let rest = scale fuel (d.div f (d.of_int (pos 1000))) (exp + 3) in
      if d.above f (d.of_int (pos 1000)) then rest else some (f, exp)

  -- `switch (exp)`.
  unfoldable pub show : F → ℕ → Text
  show f exp =
      if exp == 0
      then d.fixed3 f ++ codes " nsec"
      else if exp == 3
      then d.fixed3 f ++ codes " usec"
      else if exp == 6
      then d.fixed3 f ++ codes " msec"
      else if exp == 9
      then d.fixed3 f ++ codes " sec"
      else if exp == 12
      then d.fixed3 (d.mul f (d.of_int (pos 1000))) ++ codes " sec"
      else d.fixed3 f ++ codes "e" ++ unsigned_text (exp - 9) ++ codes " sec"

  unfoldable pub ts2str : ℕ → Timespec → Timespec → Option Text
  ts2str fuel tv tv2 = do
    (f, exp) ← scale fuel (d.mul (d.sub (seconds tv2) (seconds tv)) (d.of_int (pos 1000000000))) 0
    some (show f exp)
