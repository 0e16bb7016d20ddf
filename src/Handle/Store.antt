-- ===== src/Handle/Store.antt =====
-- The heap of libnet_init_custom.c: handles, protocol blocks and byte buffers, by address. The fields
-- are those that its functions touch.
use arping.Prelude.{ℕ, suc, Option, none, some, List, ◌==◌, if◌then◌else◌, ℤ, Text}

-- `libnet_pblock_t`.
pub record Pblock : Type 0 where
  pub buf : ℕ
  pub next : ℕ

-- `libnet_t`.
pub record Context : Type 0 where
  pub fd : ℤ
  pub injection_type : ℕ
  pub protocol_blocks : ℕ
  pub device : ℕ
  pub label : Text
  pub total_size : ℕ

pub data Cell : Type 0 where
  pblock : Pblock → Cell
  context : Context → Cell
  bytes : Text → Cell

-- Addresses from `fresh` on were never given; `closed` are the descriptors closed, the last in front.
pub record Memory : Type 0 where
  pub cell : ℕ → Option Cell
  pub fresh : ℕ
  pub closed : List ℤ

abbrev pub write : ℕ → Option Cell → (ℕ → Option Cell) → ℕ → Option Cell
write p c f q = if p == q then c else f q

abbrev pub alloc : Cell → Memory → ℕ × Memory
alloc c m = (m.fresh, record m { cell = write m.fresh (some c) m.cell; fresh = suc m.fresh })

-- An address that is not allocated must not be freed.
abbrev pub erase : ℕ → Memory → Memory
erase p m = record m { cell = write p none m.cell }

abbrev pub free : ℕ → Memory → Option Memory
free p m = elim (m.cell p) [ none ↦ none | some c ↦ some (erase p m) ]

abbrev pub load_pblock : ℕ → Memory → Option Pblock
load_pblock p m = elim (m.cell p) [ some (pblock b) ↦ some b | _ ↦ none ]

abbrev pub load_context : ℕ → Memory → Option Context
load_context p m = elim (m.cell p) [ some (context c) ↦ some c | _ ↦ none ]

abbrev pub store_context : ℕ → Context → Memory → Option Memory
store_context p c m = elim (m.cell p) [
  | some (context old) ↦ some (record m { cell = write p (some (context c)) m.cell })
  | _ ↦ none
]
