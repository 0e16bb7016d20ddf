-- ===== src/Options/Bounds.antt =====
-- What the options leave in the variables of the VLAN and in the counts.
use arping.Prelude.{
  ℕ, ◌≤◌, ◌<◌, pos, ◌≡◌, refl, ◌⊎◌, inl, inr, List, [], ◌∷◌, ℤ, negsuc, Text, arith,
}
use arping.State.{Output, Globals, uint_mod}
use arping.Options.{
  Locals, first_locals, first_globals, to_uint, to_micros, Parsed, next, exit, in_range,
}
use arping.Options.Switch.{Opt, switch, parse}

-- A tag or a priority: not given, or in its range.
abbrev pub Fits : ℕ → ℤ → Type 0
Fits most z = (z ≡ negsuc 0) ⊎ ((n : ℕ) × (z ≡ pos n) × (n ≤ most))

pub record IsSane (l : Locals) (g : Globals) : Type 0 where
  pub tag : Fits 4095 g.vlan_tag
  pub prio : Fits 7 g.vlan_prio
  pub maxcount : l.maxcount < uint_mod
  pub packetwait : l.packetwait < uint_mod
  pub max_replies : g.max_replies < uint_mod

pub Parsed-cases :
    (x : Parsed)
    → ((l : Locals) × (g : Globals) × (x ≡ next l g))
      ⊎ ((n : ℕ) × (out : List Output) × (x ≡ exit n out))
Parsed-cases (next l g) = inl (l, g, refl)
Parsed-cases (exit n out) = inr (n, out, refl)

switch-IsSane :
    (atof : Text → ℤ) (o : Opt) (l l' : Locals) (g g' : Globals)
    → IsSane l g
    → switch atof o l g ≡ next l' g'
    → IsSane l' g'
unfolding switch to_uint to_micros in_range
switch-IsSane atof o l l' g g' s q = record {
  tag = ground (arith, s.tag);
  prio = ground (arith, s.prio);
  maxcount = ground (arith, s.maxcount);
  packetwait = ground (arith, s.packetwait);
  max_replies = ground (arith, s.max_replies);
}

parse-IsSane_from :
    (atof : Text → ℤ) (os : List Opt) (l l' : Locals) (g g' : Globals)
    → IsSane l g
    → parse atof os l g ≡ next l' g'
    → IsSane l' g'
unfolding parse
parse-IsSane_from atof [] l l' g g' s q = ground (arith, s.tag, s.prio, s.maxcount)
parse-IsSane_from atof (o ∷ os) l l' g g' s q = elim (Parsed-cases (switch atof o l g)) [
  | inl (l1, g1, e) ↦
      parse-IsSane_from atof os l1 l' g1 g' (switch-IsSane atof o l l1 g g1 s e) (ground arith)
  | inr (status, out, e) ↦ absurd (ground arith)
]

first-IsSane : IsSane first_locals first_globals
first-IsSane = record {
  tag = inl refl;
  prio = inl refl;
  maxcount = omega arith;
  packetwait = omega arith;
  max_replies = omega arith;
}

-- From the values before the options, any options that do not end the program leave a VLAN
-- tag that is -1 or in 0-4095, a priority that is -1 or in 0-7, and counts and a wait of 32 bits.
pub parse-IsSane :
    (atof : Text → ℤ) (os : List Opt) (l : Locals) (g : Globals)
    → parse atof os first_locals first_globals ≡ next l g
    → IsSane l g
parse-IsSane atof os l g q = parse-IsSane_from atof os first_locals l first_globals g first-IsSane q
