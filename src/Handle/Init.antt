-- ===== src/Handle/Init.antt =====
-- What `libnet_init` returns, and what it leaves on the heap.
use arping.Prelude.{
  ℕ, ◌≡◌, ◌≢◌, ◌∙◌, ap, sym, refl, ◌⊎◌, inl, inr, true, false, Option, none, some, [], ◌∷◌, ◌++◌,
  ◌==◌, ℤ, pos, Text, codes, arith, Bool-cases, Option-cases,
}
use arping.Handle.Store.{Context, context, bytes, Memory, alloc, store_context}
use arping.Handle.{
  Answers, Opened, bad, open_fd, select_device, switch_type, dup_device, libnet_init, is_link,
  is_raw,
}
use arping.Handle.Clear.{owned}
use arping.Handle.Destroy.{holds, libnet_destroy-IsDestroyed}
use arping.Handle.New.{IsHeap, IsNew, destroyed-IsHeap, store-IsNew, name-IsNew, zeroed-IsNew}

-- NULL, and the heap as it was before; but a descriptor has been closed.
pub record IsFailed (m0 : Memory) (fd : ℤ) (o : Opened) : Type 0 where
  pub null : o.handle ≡ 0
  pub cells : (q : ℕ) → o.memory.cell q ≡ m0.cell q
  pub closed : o.memory.closed ≡ fd ∷ m0.closed
  pub heap : IsHeap o.memory

-- A handle without blocks, on the descriptor that was opened.
pub record IsOpened (m0 : Memory) (a : Answers) (o : Opened) : Type 0 where
  pub fields : Context
  pub new : IsNew m0 o.memory o.handle fields
  pub accepted : a.open_ok ≡ true
  pub descriptor : fields.fd ≡ a.left_fd
  pub no_blocks : fields.protocol_blocks ≡ 0

-- An injection type of libnet: a link, with a device, or a raw one.
abbrev pub MayOpen : Answers → ℕ → Type 0
MayOpen a t =
    ((is_link t ≡ true) × (a.select_device ≢ none)) ⊎ ((is_link t ≡ false) × (is_raw t ≡ true))

-- The call that opens was not reached, and the descriptor closed is that of a handle all zero; or it was
-- and has failed, and the one closed is what it has left; or it has opened one.
abbrev pub Ended : Memory → Answers → ℕ → ℤ → Opened → Type 0
Ended m0 a t fd o =
    ((¬ MayOpen a t) × IsFailed m0 fd o)
    ⊎ (MayOpen a t × (((a.open_ok ≡ false) × IsFailed m0 a.left_fd o) ⊎ IsOpened m0 a o))

abbrev pub Result : Memory → Answers → ℕ → ℤ → Option Opened → Type 0
Result m0 a t fd r = (o : Opened) × (r ≡ some o) × Ended m0 a t fd o

module _ (m0 : Memory) (a : Answers) where
  bad-IsFailed :
      (l : ℕ) (err : Text) (m : Memory) (c : Context)
      → IsNew m0 m l c
      → (o : Opened) × (bad l err m ≡ some o) × IsFailed m0 c.fd o
  unfolding bad
  bad-IsFailed l err m c n =
      let (m', e, d) = libnet_destroy-IsDestroyed 0 m l c [] n.handle (omega arith) in
      (
        record { handle = 0; err_buf = err; memory = m' },
        rw e refl,
        record {
          null = refl;
          cells = λ q. elim (Bool-cases (holds q (l ∷ owned c.device ++ []))) [
            | inl h ↦ (rw h at (d.cells q)) ∙ sym (n.added q h)
            | inr h ↦ (rw h at (d.cells q)) ∙ n.kept q h
          ];
          closed = d.closed ∙ ap (◌∷◌ c.fd) n.closed;
          heap = destroyed-IsHeap m m' l c [] n.heap d;
        },
      )

  open_fd_lem :
      (l : ℕ) (c : Context) (m m' : Memory)
      → store_context l (record c { fd = a.left_fd }) m ≡ some m'
      → (a.open_ok ≡ true
          → open_fd a l c m ≡ some (record { handle = l; err_buf = []; memory = m' }))
        × (a.open_ok ≡ false → open_fd a l c m ≡ bad l a.open_error m')
  unfolding open_fd
  open_fd_lem l c m m' q = (λ e. rw (q, e) refl, λ e. rw (q, e) refl)

  open_fd-Result :
      (t l : ℕ) (c : Context) (m : Memory) (fd : ℤ)
      → MayOpen a t
      → IsNew m0 m l c
      → c.protocol_blocks ≡ 0
      → Result m0 a t fd (open_fd a l c m)
  open_fd-Result t l c m fd may n none_yet =
      let c' : Context = record c { fd = a.left_fd } in
      let (m', q, n') = store-IsNew m0 l m c c' n refl none_yet in
      elim (Bool-cases a.open_ok) [
        | inr failed ↦
            let (o, r, f) = bad-IsFailed l a.open_error m' c' n' in
            (o, (open_fd_lem l c m m' q).1 failed ∙ r, inr (may, inl (failed, f)))
        | inl ok ↦ (
          record { handle = l; err_buf = []; memory = m' },
          (open_fd_lem l c m m' q).0 ok,
          inr (
            may,
            inr (record {
              fields = c';
              new = n';
              accepted = ok;
              descriptor = refl;
              no_blocks = none_yet;
            }),
          ),
        )
      ]

  select_none :
      (l : ℕ) (c : Context) (m : Memory)
      → a.select_device ≡ none
      → select_device a l c m ≡ bad l a.select_error m
  unfolding select_device
  select_none l c m e = ground arith

  select_new :
      (l : ℕ) (c : Context) (m m2 : Memory) (name : Text)
      → a.select_device ≡ some name
      → (c.device == 0) ≡ true
      → store_context l (record c { device = m.fresh }) (alloc (bytes name) m).1 ≡ some m2
      → select_device a l c m ≡ open_fd a l (record c { device = m.fresh }) m2
  unfolding select_device
  select_new l c m m2 name e no_device q = ground arith

  select_kept :
      (l : ℕ) (c : Context) (m : Memory) (name : Text)
      → a.select_device ≡ some name
      → (c.device == 0) ≡ false
      → select_device a l c m ≡ open_fd a l c m
  unfolding select_device
  select_kept l c m name e device = ground arith

  select_device-Result :
      (l : ℕ) (c : Context) (m : Memory)
      → is_link c.injection_type ≡ true
      → IsNew m0 m l c
      → c.protocol_blocks ≡ 0
      → Result m0 a c.injection_type c.fd (select_device a l c m)
  select_device-Result l c m link n none_yet = elim (Option-cases a.select_device) [
    | inl e ↦
        let (o, q, f) = bad-IsFailed l a.select_error m c n in
        let never : ¬ MayOpen a c.injection_type = λ may. ground arith in
        (o, select_none l c m e ∙ q, inl (never, f))
    | inr (name, e) ↦
        let there : a.select_device ≢ none = λ none_there. ground arith in
        let may : MayOpen a c.injection_type = inl (link, there) in
        elim (Bool-cases (c.device == 0)) [
          | inl no_device ↦
              let (m2, q, n2) = name-IsNew m0 l c m name n (ground arith) none_yet in
              let (o, r, result) =
                open_fd-Result c.injection_type l (record c { device = m.fresh }) m2 c.fd may n2
                  none_yet in
              (o, select_new l c m m2 name e no_device q ∙ r, result)
          | inr device ↦
              let (o, r, result) = open_fd-Result c.injection_type l c m c.fd may n none_yet in
              (o, select_kept l c m name e device ∙ r, result)
        ]
  ]

  switch_type-Result :
      (l : ℕ) (c : Context) (m : Memory)
      → IsNew m0 m l c
      → c.protocol_blocks ≡ 0
      → Result m0 a c.injection_type c.fd (switch_type a l c m)
  unfolding switch_type
  switch_type-Result l c m n none_yet = elim (Bool-cases (is_link c.injection_type)) [
    | inl link ↦
        let (o, q, result) = select_device-Result l c m link n none_yet in (o, ground arith, result)
    | inr other ↦ elim (Bool-cases (is_raw c.injection_type)) [
      | inl raw ↦
          let (o, q, result) =
            open_fd-Result c.injection_type l c m c.fd (inr (other, raw)) n none_yet in
          (o, ground arith, result)
      | inr neither ↦
          let (o, q, f) =
            bad-IsFailed l (codes "libnet_init(): unsupported injection type") m c n in
          let never : ¬ MayOpen a c.injection_type = λ may. ground arith in
          (o, ground arith, inl (never, f))
    ]
  ]

abbrev zeroed : ℕ → Context
zeroed t = record {
  fd = pos 0;
  injection_type = t;
  protocol_blocks = 0;
  device = 0;
  label = codes "cardshark";
  total_size = 0;
}

-- The copy of the name in the handle.
dup-IsNew :
    (a : Answers) (t : ℕ) (device : Option Text) (m0 m1 : Memory) (l : ℕ)
    → IsNew m0 m1 l (zeroed t)
    → (let d = dup_device a device m1 in
        (m3 : Memory) × (store_context l (record (zeroed t) { device = d.0 }) d.1 ≡ some m3)
        × IsNew m0 m3 l (record (zeroed t) { device = d.0 }))
unfolding dup_device
dup-IsNew a t none m0 m1 l n = store-IsNew m0 l m1 (zeroed t) (zeroed t) n refl refl
dup-IsNew a t (some name) m0 m1 l n = elim (Bool-cases a.strdup_ok) [
  | inl ok ↦ rw ok (name-IsNew m0 l (zeroed t) m1 name n refl refl)
  | inr full ↦ rw full (store-IsNew m0 l m1 (zeroed t) (zeroed t) n refl refl)
]

libnet_init_new :
    (a : Answers) (t : ℕ) (device : Option Text) (m m3 : Memory)
    → a.malloc_ok ≡ true
    → (let d = dup_device a device (alloc (context (zeroed t)) m).1 in
        store_context m.fresh (record (zeroed t) { device = d.0 }) d.1 ≡ some m3)
    → libnet_init a t device m
      ≡ switch_type a m.fresh
          (record (zeroed t) { device = (dup_device a device (alloc (context (zeroed t)) m).1).0 })
          m3
unfolding libnet_init
libnet_init_new a t device m m3 ok q = ground arith

-- What a failed `malloc` leaves: NULL, and nothing changed.
pub record IsExhausted (a : Answers) (m : Memory) (o : Opened) : Type 0 where
  pub no_memory : a.malloc_ok ≡ false
  pub null : o.handle ≡ 0
  pub unchanged : o.memory ≡ m

-- `libnet_init` returns, with one of these: NULL and nothing changed, if there was no memory for the
-- handle; NULL, with every cell of the heap as it was before, so that nothing leaks, but with the
-- descriptor 0 closed, which it never opened, if no device was found or the injection type is none of
-- libnet; NULL, with every cell as before, and what the failed open call has left in `l->fd` closed; or,
-- where that call succeeds, a handle without blocks on its descriptor, at addresses that were free before,
-- and the rest of the heap as it was.
pub libnet_init-Result :
    (a : Answers) (t : ℕ) (device : Option Text) (m : Memory)
    → IsHeap m
    → (o : Opened) × (libnet_init a t device m ≡ some o)
      × (IsExhausted a m o ⊎ ((a.malloc_ok ≡ true) × Ended m a t (pos 0) o))
unfolding libnet_init
libnet_init-Result a t device m h = elim (Bool-cases a.malloc_ok) [
  | inr full ↦ (
    record { handle = 0; err_buf = []; memory = m },
    ground arith,
    inl (record { no_memory = full; null = refl; unchanged = refl }),
  )
  | inl ok ↦
      let (m3, q, n) = dup-IsNew a t device m _ m.fresh (zeroed-IsNew m (zeroed t) h refl refl) in
      let (o, r, result) = switch_type-Result m a m.fresh _ m3 n refl in
      (o, libnet_init_new a t device m m3 ok q ∙ r, inr (ok, result))
]
