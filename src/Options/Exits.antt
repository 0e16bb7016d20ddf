-- ===== src/Options/Exits.antt =====
-- An option that ends the program.
use arping.Prelude.{ℕ, ◌≤◌, ◌≡◌, ◌∙◌, ap, refl, inl, inr, List, [], ◌∷◌, ◌++◌, Text, arith, ℤ}
use arping.State.{Output, Globals}
use arping.Options.{Locals, next, exit}
use arping.Options.Switch.{Opt, opt_h, switch, parse}
use arping.Options.Bounds.{Parsed-cases}

-- An option ends the program with 0 or 1.
switch-exit :
    (atof : Text → ℤ) (o : Opt) (l : Locals) (g : Globals) (n : ℕ) (out : List Output)
    → switch atof o l g ≡ exit n out
    → n ≤ 1
unfolding switch
switch-exit atof o l g n out q = ground arith

pub parse-exit :
    (atof : Text → ℤ) (os : List Opt) (l : Locals) (g : Globals) (n : ℕ) (out : List Output)
    → parse atof os l g ≡ exit n out
    → n ≤ 1
unfolding parse
parse-exit atof [] l g n out q = absurd (ground arith)
parse-exit atof (o ∷ os) l g n out q = elim (Parsed-cases (switch atof o l g)) [
  | inl (l1, g1, e) ↦ parse-exit atof os l1 g1 n out (ground arith)
  | inr (m, o1, e) ↦ let few = switch-exit atof o l g m o1 e in ground arith
]

-- -h, after options that do not end the program.
pub record AsksHelp (atof : Text → ℤ) (os : List Opt) (l : Locals) (g : Globals) : Type 0 where
  pub before : List Opt
  pub after : List Opt
  pub options : os ≡ before ++ opt_h ∷ after
  pub locals : Locals
  pub globals : Globals
  pub goes_on : parse atof before l g ≡ next locals globals

switch-0 :
    (atof : Text → ℤ) (o : Opt) (l : Locals) (g : Globals) (out : List Output)
    → switch atof o l g ≡ exit 0 out
    → o ≡ opt_h
unfolding switch
switch-0 atof o l g out q = ground arith

parse-next :
    (atof : Text → ℤ) (o : Opt) (os : List Opt) (l l1 : Locals) (g g1 : Globals)
    → switch atof o l g ≡ next l1 g1
    → parse atof (o ∷ os) l g ≡ parse atof os l1 g1
unfolding parse
parse-next atof o os l l1 g g1 e = ground arith

-- The options end the program with 0 only by -h.
pub parse-AsksHelp :
    (atof : Text → ℤ) (os : List Opt) (l : Locals) (g : Globals) (out : List Output)
    → parse atof os l g ≡ exit 0 out
    → AsksHelp atof os l g
unfolding parse
parse-AsksHelp atof [] l g out q = absurd (ground arith)
parse-AsksHelp atof (o ∷ os) l g out q = elim (Parsed-cases (switch atof o l g)) [
  | inl (l1, g1, e) ↦
      let rest = parse-AsksHelp atof os l1 g1 out (ground arith) in
      record {
        before = o ∷ rest.before;
        after = rest.after;
        options = ap (λ t. o ∷ t) rest.options;
        locals = rest.locals;
        globals = rest.globals;
        goes_on = parse-next atof o rest.before l l1 g g1 e ∙ rest.goes_on;
      }
  | inr (m, o1, e) ↦
      let help : o ≡ opt_h = switch-0 atof o l g out (ground arith) in
      record {
        before = [];
        after = os;
        options = ap (λ x. x ∷ os) help;
        locals = l;
        globals = g;
        goes_on = refl;
      }
]
