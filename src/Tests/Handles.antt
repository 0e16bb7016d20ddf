-- ===== src/Tests/Handles.antt =====
-- A heap with a handle that has a device and two protocol blocks, one of them without a buffer.
use arping.Prelude.{
  ℕ, ◌≡◌, ◌⊎◌, inl, inr, refl, true, false, List, [], ◌∷◌, Option, none, some, ◌==◌, if◌then◌else◌,
  pos, negsuc, arith, codes,
}
use arping.State.{initial}
use arping.Handle.Store.{Context, Cell, pblock, context, bytes, Memory}
use arping.Handle.{Answers, libnet_destroy, libnet_init}
use arping.Handle.Clear.{Node}
use arping.Handle.Destroy.{IsHandle, IsDestroyed, libnet_destroy-IsDestroyed}
use arping.Handle.New.{IsHeap}
use arping.Handle.Init.{IsExhausted, Ended, libnet_init-Result}
use arping.Setup.{Net, Started, do_libnet_init}
use arping.Setup.Lives.{IsNet}
use arping.Setup.Freed.{Holds, IsFresh, do_libnet_init-IsFresh}

abbrev pub fields : Context
fields = record {
  fd = pos 5;
  injection_type = 0;
  protocol_blocks = 2;
  device = 4;
  label = codes "cardshark";
  total_size = 42;
}

abbrev pub cells : ℕ → Option Cell
cells q =
    if q == 1
    then some (context fields)
    else if q == 2
    then some (pblock (record { buf = 3; next = 5 }))
    else if q == 3
    then some (bytes [])
    else if q == 4
    then some (bytes (codes "em0"))
    else if q == 5
    then some (pblock (record { buf = 0; next = 0 }))
    else none

abbrev pub heap : Memory
heap = record { cell = cells; fresh = 6; closed = [] }

abbrev blocks : List Node
blocks = record { addr = 2; buf = 3 } ∷ record { addr = 5; buf = 0 } ∷ []

handle : IsHandle heap 1 fields blocks
handle = record {
  there = refl;
  at = refl;
  device = inr (bytes (codes "em0"), refl);
  chain = (refl, refl, inr (bytes [], refl), (5, refl, (refl, refl, inl refl, (0, refl, refl))));
  apart = ground arith;
}

libnet_destroy-IsDestroyed_example :
    (m' : Memory) × (libnet_destroy 2 1 heap ≡ some m') × IsDestroyed heap m' 1 fields blocks
libnet_destroy-IsDestroyed_example =
    libnet_destroy-IsDestroyed 2 heap 1 fields blocks handle (omega arith)

heap-IsHeap : IsHeap heap
heap-IsHeap = record { bound = λ q le. ground arith; no_null = (refl, omega arith) }

-- The device is found, and `socket` fails in the call that opens the descriptor.
abbrev pub refused : Answers
refused = record {
  malloc_ok = true;
  strdup_ok = true;
  select_device = some (codes "em0");
  select_error = [];
  open_ok = false;
  left_fd = negsuc 0;
  open_error = codes "permission denied";
}

libnet_init-Result_example :
    (o : _) × (libnet_init refused 0 (some (codes "em0")) heap ≡ some o)
    × (IsExhausted refused heap o ⊎ ((true ≡ true) × Ended heap refused 0 (pos 0) o))
libnet_init-Result_example = libnet_init-Result refused 0 (some (codes "em0")) heap heap-IsHeap

abbrev pub granted : Answers
granted = record refused { open_ok = true; left_fd = pos 7 }

abbrev pub net : Net
net = record { libnet = 1; memory = heap }

pub net-IsNet : IsNet 2 net
net-IsNet = record { heap = heap-IsHeap; handle = inr (fields, blocks, handle, omega arith) }

net-Holds : Holds 2 net (1 ∷ 4 ∷ 3 ∷ 2 ∷ 5 ∷ [])
net-Holds = record { heap = heap-IsHeap; handle = inr (fields, blocks, handle, omega arith, refl) }

do_libnet_init-IsFresh_example :
    (r : Started) × (do_libnet_init 2
        (λ ifname. granted)
        true
        (some (codes "em1"))
        false
        net
        initial
      ≡ some r)
    × IsFresh 2 heap (1 ∷ 4 ∷ 3 ∷ 2 ∷ 5 ∷ []) r
do_libnet_init-IsFresh_example =
    do_libnet_init-IsFresh 2 (λ ifname. granted) true (some (codes "em1")) net initial
      (1 ∷ 4 ∷ 3 ∷ 2 ∷ 5 ∷ []) net-Holds
