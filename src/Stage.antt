-- ===== src/Stage.antt =====
-- `arping_main` of arping.c between the options and the interface: its variables with `libnet` and the
-- heap, a step that goes on or ends the program, and the calls of `do_libnet_init` among the steps.
pub mod Calls
use Prim.Native.String.{String}
use arping.Prelude.{ℕ, Bool, false, Option, none, some, List, [], ◌∷◌, ◌++◌, Text, codes}
use arping.State.{Output, message, Globals, print}
use arping.Usage.{usage_texts}
use arping.Options.{Locals, Parsed, next, exit}
use arping.Handle.{Answers}
use arping.Setup.{Net, Started, started, exit_1, do_libnet_init}

-- `parm` is NULL before it is set.
pub record Stage : Type 0 where
  pub locals : Locals
  pub globals : Globals
  pub net : Net
  pub parm : Option Text

-- A step goes on, ends the program with a status, or is a fault on the heap of libnet.
pub data Step : Type 0 where
  go_on : Stage → Step
  quit : ℕ → List Output → Step
  fault : Step

abbrev pub on : Step → (Stage → Step) → Step
on (go_on s) k = k s
on (quit status out) k = quit status out
on fault k = fault

abbrev pub fail : Stage → String → Step
fail s text = quit 1 (print s.globals (message (codes text))).out

abbrev pub usage_1 : Stage → Step
usage_1 s = quit 1 (s.globals.out ++ usage_texts false)

-- The calls of `do_libnet_init`, in their order in the source.
pub data Site : Type 0 where
  at_srcip at_dstip at_self at_mode at_target at_interface : Site

-- What the calls of a site answer, whether the user is no root, `libnet_name2addr4`,
-- `libnet_get_ipaddr4` after the call and `libnet_addr2name4`, whether `strdup` has memory, and whether
-- `setvbuf` returns 0. The fuel is for the
-- blocks of a handle.
pub record Lookups : Type 0 where
  pub fuel : ℕ
  pub answers : Site → Option Text → Answers
  pub unprivileged : Bool
  pub resolve : Text → ℕ
  pub own_ip : Site → ℕ
  pub name_of : ℕ → Text
  pub strdup_ok : Bool
  pub setvbuf_ok : Bool

abbrev pub after_init : Option Started → Stage → (Stage → Step) → Step
after_init none s k = fault
after_init (some (started n g)) s k = k (record s { net = n; globals = g })
after_init (some (exit_1 out)) s k = quit 1 out

-- `do_libnet_init(ifname, 0)`, before what follows.
abbrev pub with_libnet : Lookups → Site → Stage → (Stage → Step) → Step
with_libnet w site s k =
    after_init
      (do_libnet_init w.fuel (w.answers site) w.unprivileged s.locals.ifname false s.net s.globals)
      s k
