-- ===== src/Handle/New.antt =====
-- A handle that `libnet_init` has just made, on a heap.
use arping.Prelude.{
  ℕ, ◌≤◌, ◌<◌, ◌≡◌, refl, inl, inr, true, false, none, some, List, [], ◌∷◌, ◌++◌, ◌==◌, Text, arith,
  Bool-cases,
}
use arping.Handle.Store.{Context, Cell, context, bytes, Memory, write, alloc, store_context}
use arping.Handle.Clear.{Node, Distinct, owned, Allocated}
use arping.Handle.Destroy.{holds, IsHandle, IsDestroyed, store_context_lem}

-- Nothing lies at the addresses that were never given, nor at 0.
pub record IsHeap (m : Memory) : Type 0 where
  pub bound : (q : ℕ) → m.fresh ≤ q → m.cell q ≡ none
  pub no_null : (m.cell 0 ≡ none) × (0 < m.fresh)

-- The heap `m0`, with a new handle in it.
pub record IsNew (m0 m : Memory) (l : ℕ) (c : Context) : Type 0 where
  pub heap : IsHeap m
  pub handle : IsHandle m l c []
  pub added : (q : ℕ) → holds q (l ∷ owned c.device ++ []) ≡ true → m0.cell q ≡ none
  pub kept : (q : ℕ) → holds q (l ∷ owned c.device ++ []) ≡ false → m.cell q ≡ m0.cell q
  pub closed : m.closed ≡ m0.closed

-- The heap that `libnet_destroy` leaves.
pub destroyed-IsHeap :
    (m m' : Memory) (l : ℕ) (c : Context) (ns : List Node)
    → IsHeap m
    → IsDestroyed m m' l c ns
    → IsHeap m'
destroyed-IsHeap m m' l c ns h d = record {
  bound = λ q le. ground (arith, d.cells q, h.bound q, d.fresh);
  no_null = (ground (arith, d.cells 0, h.no_null.0), ground (arith, d.fresh, h.no_null.1));
}

write-IsHeap :
    (m : Memory) (l : ℕ) (c : Cell) (old : Cell)
    → IsHeap m
    → m.cell l ≡ some old
    → IsHeap (record m { cell = write l (some c) m.cell })
write-IsHeap m l c old h at = record {
  bound = λ q le. ground (arith, h.bound q le, at);
  no_null = (ground (arith, h.no_null.0, at), h.no_null.1);
}

pub alloc-IsHeap : (m : Memory) (c : Cell) → IsHeap m → IsHeap (alloc c m).1
alloc-IsHeap m c h = record {
  bound = λ q le. ground (arith, h.bound q);
  no_null = (ground (arith, h.no_null.0, h.no_null.1), omega (arith, h.no_null.1));
}

-- An address in use was given.
used : (m : Memory) (l : ℕ) (c : Cell) → IsHeap m → m.cell l ≡ some c → l < m.fresh
used m l c h at = ground (arith, h.bound l)

owned_apart : (l d : ℕ) → Distinct (l ∷ owned d ++ []) → (d == 0) ≡ false → (l == d) ≡ false
owned_apart l d h nz = ground arith

Allocated-write :
    (m : Memory) (l d : ℕ) (c : Cell)
    → Distinct (l ∷ owned d ++ [])
    → Allocated d m.cell
    → Allocated d (write l (some c) m.cell)
Allocated-write m l d c apart (inl z) = inl z
Allocated-write m l d c apart (inr (x, e)) = elim (Bool-cases (l == d)) [
  | inl same ↦ inr (c, ground arith)
  | inr other ↦ inr (x, rw other e)
]

write_kept :
    (m m0 : Memory) (l d q : ℕ) (c : Cell)
    → holds q (l ∷ owned d ++ []) ≡ false
    → m.cell q ≡ m0.cell q
    → write l (some c) m.cell q ≡ m0.cell q
write_kept m m0 l d q c h e = ground arith

module _ (m0 : Memory) where
  -- New fields for the handle, with the same device and no blocks.
  pub store-IsNew :
      (l : ℕ) (m : Memory) (c c' : Context)
      → IsNew m0 m l c
      → c'.device ≡ c.device
      → c'.protocol_blocks ≡ 0
      → (m' : Memory) × (store_context l c' m ≡ some m') × IsNew m0 m' l c'
  store-IsNew l m c c' n same none_yet = (
    record m { cell = write l (some (context c')) m.cell },
    store_context_lem m l c c' n.handle.at,
    record {
      heap = write-IsHeap m l (context c') (context c) n.heap n.handle.at;
      handle = record {
        there = n.handle.there;
        at = ground arith;
        device =
            Allocated-write m l c'.device (context c') (rw same n.handle.apart)
              (rw same n.handle.device);
        chain = none_yet;
        apart = rw same n.handle.apart;
      };
      added = λ q. rw same (n.added q);
      kept = λ q h. write_kept m m0 l c'.device q (context c') h (n.kept q (rw same at h));
      closed = n.closed;
    },
  )

  -- A device for a new handle that has none.
  pub name-IsNew :
      (l : ℕ) (c : Context) (m : Memory) (name : Text)
      → IsNew m0 m l c
      → c.device ≡ 0
      → c.protocol_blocks ≡ 0
      → (m2 : Memory) × (store_context l (record c { device = m.fresh }) (alloc (bytes name) m).1
          ≡ some m2)
        × IsNew m0 m2 l (record c { device = m.fresh })
  name-IsNew l c m name n no_device none_yet =
      let below : l < m.fresh = used m l (context c) n.heap n.handle.at in
      let m1 : Memory = (alloc (bytes name) m).1 in
      let c' : Context = record c { device = m.fresh } in
      let at : m1.cell l ≡ some (context c) = ground (arith, n.handle.at) in
      (
        record m1 { cell = write l (some (context c')) m1.cell },
        store_context_lem m1 l c c' at,
        record {
          heap = write-IsHeap m1 l (context c') (context c) (alloc-IsHeap m (bytes name) n.heap) at;
          handle = record {
            there = n.handle.there;
            at = ground arith;
            device = inr (bytes name, ground arith);
            chain = none_yet;
            apart = ground arith;
          };
          added = λ q h. ground (arith, n.added q, n.kept q, n.heap.bound q);
          kept = λ q h. ground (arith, n.added q, n.kept q, n.heap.bound q);
          closed = n.closed;
        },
      )

-- The handle that `malloc` and `memset` give.
pub zeroed-IsNew :
    (m : Memory) (c : Context)
    → IsHeap m
    → c.device ≡ 0
    → c.protocol_blocks ≡ 0
    → IsNew m (alloc (context c) m).1 m.fresh c
zeroed-IsNew m c h no_device none_yet = record {
  heap = alloc-IsHeap m (context c) h;
  handle = record {
    there = ground (arith, h.no_null.1);
    at = ground arith;
    device = inl no_device;
    chain = none_yet;
    apart = ground arith;
  };
  added = λ q e. ground (arith, h.bound q);
  kept = λ q e. ground arith;
  closed = refl;
}
