-- ===== src/Prelude/CString.antt =====
-- C strings: the bytes before the terminating 0.
use Prim.Native.Nat.{ℕ}
use Prim.Native.Char.{code}
use Prim.Native.String.{String}
use mathlib.Core.Bool.{Bool, true, false, ◌&&◌, ◌||◌}
use mathlib.Core.List.{List, [], ◌∷◌}
use arping.Prelude.Tests.{◌==◌}

abbrev pub Text : Type 0
Text = List ℕ

-- The bytes of an ASCII literal.
abbrev pub codes : String → Text
codes String.[] = []
codes (String.◌∷◌ c s) = code c ∷ codes s

-- `strchr(s, c) != NULL`.
unfoldable pub strchr : Text → ℕ → Bool
strchr [] c = false
strchr (x ∷ s) c = x == c || strchr s c

-- `strcmp(s, t) == 0`.
unfoldable pub str_eq : Text → Text → Bool
str_eq [] [] = true
str_eq (x ∷ s) (y ∷ t) = x == y && str_eq s t
str_eq _ _ = false
