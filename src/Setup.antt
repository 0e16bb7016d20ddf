-- ===== src/Setup.antt =====
-- `do_libnet_init`, `strip_newline` and `do_pcap_open_live` of arping.c. The calls of libnet_init_custom.c
-- run on its heap; `none` is a fault there.
pub mod Newlines
pub mod Lives
pub mod Freed
use Prim.Native.String.{String}
use arping.Prelude.{
  ℕ, zero, suc, Bool, true, false, not, ◌&&◌, Option, none, some, List, [], ◌∷◌, ◌++◌, ◌==◌,
  if◌then◌else◌, Text, codes, length, get_elem?, take,
}
use arping.Host.Order.{◌>>=◌}
use arping.State.{Output, message, Globals, note, noted}
use arping.Handle.Store.{Memory}
use arping.Handle.{Answers, Opened, libnet_init, libnet_destroy}

-- `s[n - 1] = 0` ends the string there.
unfoldable pub strip_from : ℕ → Text → Text
strip_from zero s = take zero s
strip_from (suc n) s = elim (get_elem? s n) [
  | some c ↦ if c == b'\n' then strip_from n (take n s) else s
  | none ↦ s
]

unfoldable pub strip_newline : Text → Text
strip_newline s = strip_from (length s) s

-- The global `libnet`, 0 for NULL, and the heap.
pub record Net : Type 0 where
  pub libnet : ℕ
  pub memory : Memory

-- The function returns, or the program exits with status 1.
pub data Started : Type 0 where
  started : Net → Globals → Started
  exit_1 : List Output → Started

-- `%s` of a name that may be NULL.
unfoldable pub shown_name : Option Text → Text
shown_name none = codes "<null>"
shown_name (some name) = name

unfoldable pub shown_error : Text → Text
shown_error [] = codes "<no error message>"
shown_error (c ∷ s) = c ∷ s

-- `if (libnet)`; `fuel` is for the blocks of the old handle.
unfoldable pub drop_libnet : ℕ → Net → Option Net
drop_libnet fuel n =
    if n.libnet == 0
    then some n
    else do m ← libnet_destroy fuel n.libnet n.memory; some (record { libnet = 0; memory = m })

-- The last messages. `unprivileged` is `getuid() && geteuid()`.
unfoldable pub init_failed : Bool → Option Text → Text → Globals → Started
init_failed unprivileged ifname err g = exit_1 (
    g.out
    ++ message (
        codes "arping: libnet_init(LIBNET_LINK, "
        ++ shown_name ifname
        ++ codes "): "
        ++ shown_error err)
      ∷ message (codes "Use -i flag to selecet an interface.")
      ∷ (if unprivileged then message (codes "arping: you may need to run as root") ∷ [] else []))

abbrev pub libnet_link : ℕ
libnet_link = 0

module _ (fuel : ℕ) (answers : Option Text → Answers) (unprivileged : Bool) where
  -- Up to the call of `libnet_init`: the handle, the error text, the heap, and what is printed.
  unfoldable pub attempt : Option Text → Net → Globals → Option (Opened × Globals)
  attempt ifname n g = do
    n1 ← drop_libnet fuel n
    o ← libnet_init (answers ifname) libnet_link ifname n1.memory
    some (o, note g 1 "arping: libnet_init(")

  -- With an interface.
  unfoldable pub init_named : Text → Bool → Net → Globals → Option Started
  init_named ifname recursive n g = do
    (o, g1) ← attempt (some ifname) n g
    let up : Net = record { libnet = o.handle; memory = o.memory }
    some (
        if not (o.handle == 0)
        then started up g1
        else if recursive
        then started up g1
        else init_failed unprivileged (some ifname) (strip_newline o.err_buf) g1)

  -- Without one `lo` is tried too, and the error of the first call is printed.
  unfoldable pub do_libnet_init : Option Text → Bool → Net → Globals → Option Started
  do_libnet_init (some ifname) recursive n g = init_named ifname recursive n g
  do_libnet_init none recursive n g = do
    (o, g1) ← attempt none n g
    let up : Net = record { libnet = o.handle; memory = o.memory }
    if not (o.handle == 0) then some (started up g1) else do
      r ← init_named (codes "lo") true up g1
      some (elim r [
        | started n2 g2 ↦
            if not (n2.libnet == 0)
            then started n2 g2
            else init_failed unprivileged none (strip_newline o.err_buf) g2
        | exit_1 out ↦ exit_1 out
      ])

-- `do_pcap_open_live`, with `pcap_open_live` as a parameter: the capture, or the error text, of a call by
-- its number.
module _ {P : Type 0} (pcap_open_live : ℕ → Text → Option P × Text) where
  unfoldable pub do_pcap_open_live : Text → Option P × Text
  do_pcap_open_live device = elim (pcap_open_live 0 device).0 [
    | some p ↦ (some p, (pcap_open_live 0 device).1)
    | none ↦ elim (pcap_open_live 1 (codes "/dev/" ++ device)).0 [
      | some p ↦ (some p, (pcap_open_live 1 (codes "/dev/" ++ device)).1)
      | none ↦ elim (pcap_open_live 2 (codes "/dev/net/" ++ device)).0 [
        | some p ↦ (some p, (pcap_open_live 2 (codes "/dev/net/" ++ device)).1)
        | none ↦ pcap_open_live 3 device
      ]
    ]
  ]
