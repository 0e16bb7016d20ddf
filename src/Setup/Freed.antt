-- ===== src/Setup/Freed.antt =====
-- What `do_libnet_init` leaves on the heap: the old handle is freed, and what is new is the new handle.
use arping.Prelude.{
  ℕ, ◌≤◌, ◌≡◌, ◌≢◌, ◌∙◌, ap, subst, refl, ◌⊎◌, inl, inr, Bool, true, false, Option, none, some,
  List, [], ◌∷◌, ◌++◌, ◌==◌, if◌then◌else◌, pos, Text, codes, arith, length, Bool-cases,
}
use arping.State.{Globals, note}
use arping.Handle.Store.{Context, Memory}
use arping.Handle.{Answers, Opened}
use arping.Handle.Clear.{Node, owned, footprint}
use arping.Handle.Destroy.{holds, IsHandle, libnet_destroy-IsDestroyed}
use arping.Handle.New.{IsHeap, destroyed-IsHeap}
use arping.Handle.Init.{IsExhausted, Ended, libnet_init-Result}
use arping.Setup.{
  Net, Started, started, exit_1, libnet_link, drop_libnet, attempt, init_named, init_failed,
  do_libnet_init, strip_newline,
}

-- `libnet` is NULL, or a handle with at most `fuel` blocks; and these addresses are its own, of the handle,
-- its device, and its blocks with their buffers.
pub record Holds (fuel : ℕ) (n : Net) (ps : List ℕ) : Type 0 where
  pub heap : IsHeap n.memory
  pub handle :
      ((n.libnet ≡ 0) × (ps ≡ []))
      ⊎ ((c : Context) × (ns : List Node) × IsHandle n.memory n.libnet c ns
          × (length ns ≤ fuel)
          × (ps ≡ n.libnet ∷ owned c.device ++ footprint ns))

-- From the heap `m`, where `ps` are freed: every cell that is not of the new `libnet` is free if it is one
-- of these, and as it was before if not.
pub record IsRenewed (fuel : ℕ) (m : Memory) (ps : List ℕ) (n : Net) : Type 0 where
  pub mine : List ℕ
  pub own : Holds fuel n mine
  pub cells :
      (q : ℕ) → (holds q mine ≡ true) ⊎ (n.memory.cell q ≡ (if holds q ps then none else m.cell q))

drop_libnet-cells :
    (fuel : ℕ) (n : Net) (ps : List ℕ)
    → Holds fuel n ps
    → (m : Memory) × (drop_libnet fuel n ≡ some (record { libnet = 0; memory = m }))
      × IsHeap m
      × ((q : ℕ) → m.cell q ≡ (if holds q ps then none else n.memory.cell q))
unfolding drop_libnet
drop_libnet-cells fuel n ps h = elim h.handle [
  | inl (null, none_own) ↦ (n.memory, rw null refl, h.heap, rw none_own (λ q. refl))
  | inr (c, ns, handle, room, own) ↦
      let (m, e, d) = libnet_destroy-IsDestroyed fuel n.memory n.libnet c ns handle room in
      (
        m,
        rw (handle.there, e) refl,
        destroyed-IsHeap n.memory m n.libnet c ns h.heap d,
        rw own d.cells,
      )
]

-- What `libnet_init` has left, on the heap `m1`.
opened-IsRenewed :
    (fuel : ℕ) (a : Answers) (t : ℕ) (m m1 : Memory) (ps : List ℕ) (o : Opened)
    → IsHeap m1
    → ((q : ℕ) → m1.cell q ≡ (if holds q ps then none else m.cell q))
    → IsExhausted a m1 o ⊎ ((a.malloc_ok ≡ true) × Ended m1 a t (pos 0) o)
    → IsRenewed fuel m ps (record { libnet = o.handle; memory = o.memory })
opened-IsRenewed fuel a t m m1 ps o h cells (inl x) = record {
  mine = [];
  own = record { heap = rw x.unchanged h; handle = inl (x.null, refl) };
  cells = λ q. inr (ap (λ y. y.cell q) x.unchanged ∙ cells q);
}
opened-IsRenewed fuel a t m m1 ps o h cells (inr (ok, inl (never, f))) = record {
  mine = [];
  own = record { heap = f.heap; handle = inl (f.null, refl) };
  cells = λ q. inr (f.cells q ∙ cells q);
}
opened-IsRenewed fuel a t m m1 ps o h cells (inr (ok, inr (may, inl (failed, f)))) = record {
  mine = [];
  own = record { heap = f.heap; handle = inl (f.null, refl) };
  cells = λ q. inr (f.cells q ∙ cells q);
}
opened-IsRenewed fuel a t m m1 ps o h cells (inr (ok, inr (may, inr p))) = record {
  mine = o.handle ∷ owned p.fields.device ++ [];
  own = record { heap = p.new.heap; handle = inr (p.fields, [], p.new.handle, omega arith, refl) };
  cells = λ q. elim (Bool-cases (holds q (o.handle ∷ owned p.fields.device ++ []))) [
    | inl new ↦ inl new
    | inr other ↦ inr (p.new.kept q other ∙ cells q)
  ];
}

-- A second call after one that has left NULL.
again-IsRenewed :
    (fuel : ℕ) (m : Memory) (ps : List ℕ) (n n2 : Net) (r : IsRenewed fuel m ps n)
    → r.mine ≡ []
    → IsRenewed fuel n.memory [] n2
    → IsRenewed fuel m ps n2
again-IsRenewed fuel m ps n n2 r none_own r2 = record {
  mine = r2.mine;
  own = r2.own;
  cells = λ q. elim (r2.cells q) [
    | inl new ↦ inl new
    | inr kept ↦ elim (r.cells q) [
      | inl mine ↦ absurd (ground (arith, ap (holds q) none_own))
      | inr before ↦ inr (kept ∙ before)
    ]
  ];
}

-- A handle that is NULL owns nothing.
null_owns : (fuel : ℕ) (n : Net) (ps : List ℕ) → (n.libnet == 0) ≡ true → Holds fuel n ps → ps ≡ []
null_owns fuel n ps null h = elim h.handle [
  | inl (z, own) ↦ own
  | inr (c, ns, handle, room, own) ↦ absurd (ground (arith, handle.there))
]

-- The function returned with such a handle, or the program ended.
abbrev pub IsFresh : ℕ → Memory → List ℕ → Started → Type 0
IsFresh fuel m ps (started n g) = (n.libnet ≢ 0) × IsRenewed fuel m ps n
IsFresh fuel m ps (exit_1 out) = Unit

abbrev Left : ℕ → Memory → List ℕ → Started → Type 0
Left fuel m ps (started n g) = IsRenewed fuel m ps n
Left fuel m ps (exit_1 out) = Unit

module _ (fuel : ℕ) (answers : Option Text → Answers) (unprivileged : Bool) where
  attempt-IsRenewed :
      (ifname : Option Text) (n : Net) (g : Globals) (ps : List ℕ)
      → Holds fuel n ps
      → (o : Opened) × (attempt fuel answers unprivileged ifname n g
          ≡ some (o, note g 1 "arping: libnet_init("))
        × IsRenewed fuel n.memory ps (record { libnet = o.handle; memory = o.memory })
  unfolding attempt
  attempt-IsRenewed ifname n g ps h =
      let (m, dropped, heap, cells) = drop_libnet-cells fuel n ps h in
      let (o, e, result) = libnet_init-Result (answers ifname) libnet_link ifname m heap in
      (
        o,
        rw (dropped, e) refl,
        opened-IsRenewed fuel (answers ifname) libnet_link n.memory m ps o heap cells result,
      )

  init_named-Left :
      (ifname : Text) (recursive : Bool) (n : Net) (g : Globals) (ps : List ℕ)
      → Holds fuel n ps
      → (r : Started) × (init_named fuel answers unprivileged ifname recursive n g ≡ some r)
        × Left fuel n.memory ps r
        × ((recursive ≡ true) ⊎ IsFresh fuel n.memory ps r)
  unfolding init_named init_failed
  init_named-Left ifname recursive n g ps h =
      let (o, e, renewed) = attempt-IsRenewed (some ifname) n g ps h in
      let g1 = note g 1 "arping: libnet_init(" in
      let up : Net = record { libnet = o.handle; memory = o.memory } in
      elim (Bool-cases (o.handle == 0)) [
        | inr there ↦ (started up g1, rw (e, there) refl, renewed, inr (ground arith, renewed))
        | inl null ↦ elim (Bool-cases recursive) [
          | inl again ↦ (started up g1, rw (e, null, again) refl, renewed, inl again)
          | inr last ↦
              let failed : Started =
                init_failed unprivileged (some ifname) (strip_newline o.err_buf) g1 in
              (failed, rw (e, null, last) refl, tt, inr tt)
        ]
      ]

  -- The second call for `lo`, when the first has failed.
  lo-IsFresh :
      (n : Net) (g : Globals) (ps : List ℕ) (o : Opened)
      → attempt fuel answers unprivileged none n g ≡ some (o, note g 1 "arping: libnet_init(")
      → (o.handle == 0) ≡ true
      → IsRenewed fuel n.memory ps (record { libnet = o.handle; memory = o.memory })
      → (r : Started) × (do_libnet_init fuel answers unprivileged none false n g ≡ some r)
        × IsFresh fuel n.memory ps r
  unfolding do_libnet_init init_failed
  lo-IsFresh n g ps o e null renewed =
      let nothing = null_owns fuel up renewed.mine null renewed.own in
      let (r, q, left, _) =
        init_named-Left (codes "lo") true up g1 [] (subst (Holds fuel up) nothing renewed.own) in
      finish r q left nothing
    where
      g1 : Globals
      g1 = note g 1 "arping: libnet_init("

      up : Net
      up = record { libnet = o.handle; memory = o.memory }

      finish :
          (r : Started)
          → init_named fuel answers unprivileged (codes "lo") true up g1 ≡ some r
          → Left fuel up.memory [] r
          → renewed.mine ≡ []
          → (r' : Started) × (do_libnet_init fuel answers unprivileged none false n g ≡ some r')
            × IsFresh fuel n.memory ps r'
      finish (exit_1 out) q left nothing = (exit_1 out, rw (e, null, q) refl, tt)
      finish (started n2 g2) q left nothing = elim (Bool-cases (n2.libnet == 0)) [
        | inr there ↦ (
          started n2 g2,
          rw (e, null, q, there) refl,
          (ground arith, again-IsRenewed fuel n.memory ps up n2 renewed nothing left),
        )
        | inl lost ↦
            let failed : Started = init_failed unprivileged none (strip_newline o.err_buf) g2 in
            (failed, rw (e, null, q, lost) refl, tt)
      ]

  -- `do_libnet_init(ifname, 0)`, called with `libnet` NULL or a handle on the heap: it faults nowhere,
  -- whatever its calls answer, and ends the program, or returns with `libnet` a handle on the heap. Then
  -- each cell that is not of this handle is free, if it was of the old one, its device or its blocks, and
  -- otherwise as it was before: the old handle is freed, and nothing leaks.
  pub do_libnet_init-IsFresh :
      (ifname : Option Text) (n : Net) (g : Globals) (ps : List ℕ)
      → Holds fuel n ps
      → (r : Started) × (do_libnet_init fuel answers unprivileged ifname false n g ≡ some r)
        × IsFresh fuel n.memory ps r
  unfolding do_libnet_init
  do_libnet_init-IsFresh (some ifname) n g ps h =
      let (r, e, _, fresh) = init_named-Left ifname false n g ps h in
      (r, e, elim fresh [ inl again ↦ absurd (ground arith) | inr f ↦ f ])
  do_libnet_init-IsFresh none n g ps h =
      let (o, e, renewed) = attempt-IsRenewed none n g ps h in
      elim (Bool-cases (o.handle == 0)) [
        | inl null ↦ lo-IsFresh n g ps o e null renewed
        | inr there ↦
            let up : Net = record { libnet = o.handle; memory = o.memory } in
            (
              started up (note g 1 "arping: libnet_init("),
              rw (e, there) refl,
              (ground arith, renewed),
            )
      ]
