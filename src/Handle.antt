-- ===== src/Handle.antt =====
-- libnet_init_custom.c: the handle of libnet, over a heap. `none` is a fault: an access or a `free`
-- through a pointer to memory that is not allocated.
pub mod Store
pub mod Clear
pub mod Destroy
pub mod New
pub mod Init
use arping.Prelude.{
  ℕ, zero, suc, Bool, true, false, Option, none, some, List, [], ◌∷◌, ◌||◌, ◌==◌, if◌then◌else◌, ℤ,
  pos, Text, codes,
}
use arping.Host.Order.{◌>>=◌}
use arping.Handle.Store.{
  Pblock, Context, Cell, context, bytes, Memory, alloc, free, load_pblock, load_context,
  store_context,
}

-- `for (; p; p = next)`, with fuel for the blocks.
unfoldable pub clear_blocks : ℕ → ℕ → Memory → Option Memory
clear_blocks zero p m = if p == 0 then some m else none
clear_blocks (suc fuel) p m = if p == 0 then some m else do
  b ← load_pblock p m
  m1 ← if b.buf == 0 then some m else free b.buf m
  m2 ← free p m1
  clear_blocks fuel b.next m2

unfoldable pub libnet_clear_packet : ℕ → ℕ → Memory → Option Memory
libnet_clear_packet fuel l m = if l == 0 then some m else do
  c ← load_context l m
  m1 ← clear_blocks fuel c.protocol_blocks m
  c1 ← load_context l m1
  store_context l (record c1 { protocol_blocks = 0; total_size = 0 }) m1

unfoldable pub libnet_destroy : ℕ → ℕ → Memory → Option Memory
libnet_destroy fuel l m = if l == 0 then some m else do
  c ← load_context l m
  let closed = record m { closed = c.fd ∷ m.closed }
  m1 ← if c.device == 0 then some closed else free c.device closed
  m2 ← libnet_clear_packet fuel l m1
  free l m2

-- What the calls of `libnet_init` answer: whether `malloc` and `strdup` have memory,
-- `libnet_select_device`, which may give a handle without a device one, and the call of
-- `libnet_open_link` or its like: whether it does not return -1, and what it has put into `l->fd` then or
-- before it failed; each with the error text that it leaves.
pub record Answers : Type 0 where
  pub malloc_ok : Bool
  pub strdup_ok : Bool
  pub select_device : Option Text
  pub select_error : Text
  pub open_ok : Bool
  pub left_fd : ℤ
  pub open_error : Text

-- LIBNET_LINK or LIBNET_LINK_ADV; LIBNET_RAW4, LIBNET_RAW6 or their ADV; or another number.
unfoldable pub is_link : ℕ → Bool
is_link t = t == 0 || t == 8

unfoldable pub is_raw : ℕ → Bool
is_raw t = t == 1 || t == 9 || t == 2 || t == 10

-- The handle, 0 for NULL, and `err_buf`.
pub record Opened : Type 0 where
  pub handle : ℕ
  pub err_buf : Text
  pub memory : Memory

-- `bad:`.
unfoldable pub bad : ℕ → Text → Memory → Option Opened
bad l err m = do m1 ← libnet_destroy 0 l m; some (record { handle = 0; err_buf = err; memory = m1 })

-- The open call writes `l->fd` itself, also where it fails.
unfoldable pub open_fd : Answers → ℕ → Context → Memory → Option Opened
open_fd a l c m = do
  m1 ← store_context l (record c { fd = a.left_fd }) m
  if a.open_ok
      then some (record { handle = l; err_buf = []; memory = m1 })
      else bad l a.open_error m1

-- `libnet_select_device` leaves a device that is there alone.
unfoldable pub select_device : Answers → ℕ → Context → Memory → Option Opened
select_device a l c m = elim a.select_device [
  | none ↦ bad l a.select_error m
  | some name ↦
      if c.device == 0
      then (let (p, m1) = alloc (bytes name) m in
          do
            m2 ← store_context l (record c { device = p }) m1
            open_fd a l (record c { device = p }) m2)
      else open_fd a l c m
]

-- `switch (l->injection_type)`.
unfoldable pub switch_type : Answers → ℕ → Context → Memory → Option Opened
switch_type a l c m =
    if is_link c.injection_type
    then select_device a l c m
    else if is_raw c.injection_type
    then open_fd a l c m
    else bad l (codes "libnet_init(): unsupported injection type") m

-- `strdup(device)`: the copy, or NULL.
unfoldable pub dup_device : Answers → Option Text → Memory → ℕ × Memory
dup_device a none m = (0, m)
dup_device a (some name) m = if a.strdup_ok then alloc (bytes name) m else (0, m)

-- A new handle is all zero, its descriptor too.
unfoldable pub libnet_init : Answers → ℕ → Option Text → Memory → Option Opened
libnet_init a injection_type device m =
    if a.malloc_ok
    then (let zeroed : Context = record {
      fd = pos 0;
      injection_type = injection_type;
      protocol_blocks = 0;
      device = 0;
      label = codes "cardshark";
      total_size = 0;
    } in
        let (l, m1) = alloc (context zeroed) m in
        let (d, m2) = dup_device a device m1 in
        let c = record zeroed { device = d } in do m3 ← store_context l c m2; switch_type a l c m3)
    else some (record { handle = 0; err_buf = []; memory = m })
