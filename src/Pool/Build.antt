-- ===== src/Pool/Build.antt =====
-- What PoolInit builds where the allocations succeed and Init says 1.
use mathlib.Core.List.{Nodup, Mem}
use dubbo_service_mesh.Base.{
  ℕ, zero, suc, ◌+◌, ◌*◌, ◌^◌, ◌≤◌, ◌<◌, ◌≡◌, refl, ap, ◌∙◌, ◌≢◌, true, none, some, List, [], ◌∷◌,
  map, ◌%◌, arith, length, ◌==◌, dec32, false,
}
use dubbo_service_mesh.Pool.{Ptr, null, Bucket, Pool, Hooks, call_init}
use dubbo_service_mesh.Pool.Create.{
  accepts, blank, populate, stock, prealloc_bounded, prealloc_ready, preallocate, fill, init,
  finish, sizeof_bucket, sizeof_pool,
}
use dubbo_service_mesh.Pool.Invariant.{IsValid}
use dubbo_service_mesh.Pool.Slots.{laid, laid-Nodup, laid_real, slot_room}

-- The elements in the pool, the next to be handed out first.
abbrev pub free_items : Pool → List Ptr
free_items p = map (λ b. b.datum) p.alloc_stack

-- The `n` buckets from `pb` on, on top of a stack.
abbrev pub layout : ℕ → Ptr → List Bucket → List Bucket
layout zero pb bs = bs
layout (suc n) pb bs =
    layout n (pb + sizeof_bucket) (record { addr = pb; datum = null; prealloc = true } ∷ bs)

length-layout : (n pb : ℕ) (bs : List Bucket) → length (layout n pb bs) ≡ n + length bs
length-layout zero pb bs = omega arith
length-layout (suc n) pb bs = omega (
  arith,
  length-layout n (pb + sizeof_bucket) (record { addr = pb; datum = null; prealloc = true } ∷ bs),
)

populate_lem :
    (n pb : ℕ) (p : Pool)
    → p.empty_stack_size + n < 2 ^ 32
    → populate n pb p ≡ record p {
      empty_stack = layout n pb p.empty_stack;
      empty_stack_size = p.empty_stack_size + n;
    }
unfolding populate
populate_lem zero pb p fits = ground arith
populate_lem (suc n) pb p fits = ground (
  arith,
  populate_lem n (pb + sizeof_bucket) (record p {
    empty_stack = record { addr = pb; datum = null; prealloc = true } ∷ p.empty_stack;
    empty_stack_size = p.empty_stack_size + 1;
  }),
)

-- The allocator finds memory, and Init returns 1.
pub record Supplies {W : Type 0} (h : Hooks W) : Type 0 where
  pub mallocs : (w : W) (n : ℕ) → (h.malloc w n).0 ≢ null
  pub callocs : (w : W) (n m : ℕ) → (h.calloc w n m).0 ≢ null
  pub readies : (p : Pool) (w : W) (d : Ptr) → (w' : W) × (call_init h p w d ≡ some (1, w'))

-- The pool after `n` rounds of the loop from the `u`-th on.
record Loaded (n u : ℕ) (p q : Pool) : Type 0 where
  valid : IsValid q
  items : free_items q ≡ laid p.data_buffer p.elt_size n u (free_items p)
  grown : q.allocated ≡ p.allocated + n
  bound : q.max_buckets ≡ p.max_buckets
  none_out : q.outstanding ≡ 0
  same_base : q.data_buffer ≡ p.data_buffer
  same_size : q.elt_size ≡ p.elt_size
  used : length p.empty_stack ≡ n + length q.empty_stack

-- A successful round on bucket `pb`.
abbrev loaded : ℕ → Pool → Bucket → List Bucket → Pool
loaded u p pb rest =
    stock (record p { empty_stack = rest; empty_stack_size = dec32 p.empty_stack_size })
      (record pb { datum = p.data_buffer + u * p.elt_size % 2 ^ 32 })

loaded-Loaded :
    (u : ℕ) (p : Pool) (pb : Bucket) (rest : List Bucket)
    → p.empty_stack ≡ pb ∷ rest
    → IsValid p
    → p.outstanding ≡ 0
    → u * p.elt_size < 2 ^ 32
    → Loaded 1 u p (loaded u p pb rest)
unfolding stock
loaded-Loaded u p pb rest e v out small = record {
  valid = ground arith;
  items =
      let whole : u * p.elt_size % 2 ^ 32 ≡ u * p.elt_size = omega arith in
      ap (λ k. (p.data_buffer + k) ∷ free_items p) whole;
  grown = ground arith;
  bound = refl;
  none_out = out;
  same_base = refl;
  same_size = refl;
  used = ground arith;
}

Loaded-zero : (u : ℕ) (p : Pool) → IsValid p → p.outstanding ≡ 0 → Loaded 0 u p p
Loaded-zero u p v out = record {
  valid = v;
  items = refl;
  grown = omega arith;
  bound = refl;
  none_out = out;
  same_base = refl;
  same_size = refl;
  used = omega arith;
}

Loaded-suc :
    (n u : ℕ) (p q : Pool) (pb : Bucket) (rest : List Bucket)
    → Loaded 1 u p (loaded u p pb rest)
    → Loaded n (u + 1) (loaded u p pb rest) q
    → Loaded (suc n) u p q
unfolding stock
Loaded-suc n u p q pb rest one more = record {
  valid = more.valid;
  items = more.items ∙ ap (laid p.data_buffer p.elt_size n (u + 1)) one.items;
  grown = omega (arith, one.grown, more.grown);
  bound = more.bound;
  none_out = more.none_out;
  same_base = more.same_base;
  same_size = more.same_size;
  used = omega (arith, one.used, more.used);
}

-- A bounded pool before its elements are laid out in the block `d`.
abbrev pub shelved : (size prealloc_size elt_size : ℕ) (pb d : Ptr) → Pool
shelved size prealloc_size elt_size pb d = record (blank size prealloc_size elt_size) {
  pb_buffer = pb;
  empty_stack = layout size pb [];
  empty_stack_size = size;
  data_buffer = d;
}

shelved-IsValid :
    (size prealloc_size elt_size pb d : ℕ)
    → 0 < size
    → size < 2 ^ 32
    → IsValid (shelved size prealloc_size elt_size pb d)
unfolding blank
shelved-IsValid size prealloc_size elt_size pb d some_size fits =
    ground (arith, length-layout size pb [])

pub populate-blank :
    (size prealloc_size elt_size pb : ℕ)
    → size < 2 ^ 32
    → populate size pb (record (blank size prealloc_size elt_size) { pb_buffer = pb })
      ≡ shelved size prealloc_size elt_size pb null
unfolding blank
populate-blank size prealloc_size elt_size pb fits =
    ground
      (arith, populate_lem size pb (record (blank size prealloc_size elt_size) { pb_buffer = pb }))

module _ {W : Type 0} (h : Hooks W) (s : Supplies h) where
  prealloc_bounded-loaded :
      (u : ℕ) (p : Pool) (w : W) (pb : Bucket) (rest : List Bucket)
      → p.empty_stack ≡ pb ∷ rest
      → (w' : W) × (prealloc_bounded h u p w ≡ some (true, loaded u p pb rest, w'))
  unfolding prealloc_bounded prealloc_ready
  prealloc_bounded-loaded u p w pb rest e =
      let d = p.data_buffer + u * p.elt_size % 2 ^ 32 in
      let (w', ready) = s.readies (record p { empty_stack = record pb { datum = d } ∷ rest }) w d in
      (w', rw (e, prealloc_bounded, ready))

  preallocate-Loaded :
      (k n u : ℕ) (p : Pool) (w : W) (es : List Bucket)
      → ((j : ℕ) → j < k → j * p.elt_size < 2 ^ 32)
      → u + n ≤ k
      → p.empty_stack ≡ es
      → IsValid p
      → p.outstanding ≡ 0
      → n ≤ length es
      → (q : Pool) × (w' : W) × (preallocate h n u p w ≡ some (true, q, w')) × Loaded n u p q
  unfolding preallocate
  preallocate-Loaded k zero u p w es small le e v out room = (p, w, refl, Loaded-zero u p v out)
  preallocate-Loaded k (suc n) u p w [] small le e v out room = absurd (omega arith)
  preallocate-Loaded k (suc n) u p w (pb ∷ rest) small le e v out room =
      let p1 = loaded u p pb rest in
      let one = loaded-Loaded u p pb rest e v out (small u (omega arith)) in
      let (w1, first) = prealloc_bounded-loaded u p w pb rest e in
      let (q, w2, later, more) =
        preallocate-Loaded k n (u + 1) p1 w1 rest small (omega arith) refl one.valid one.none_out
          (omega arith) in
      let bounded : (p.max_buckets == 0) ≡ false = ground arith in
      (q, w2, rw (bounded, first) later, Loaded-suc n u p q pb rest one more)

  -- Where the allocations succeed and Init says 1, PoolInit of a bounded pool with an element size
  -- and no Free function, which preallocates at most its bound, in less than 2 ^ 32 bytes, returns a
  -- pool: its counters agree with its stacks, its free elements are the `prealloc_size` slots of its
  -- block, the last one first, they are distinct and not NULL, and none is in use.
  pub init-IsValid :
      (size prealloc_size elt_size : ℕ) (w : W)
      → 0 < size
      → size < 2 ^ 32
      → prealloc_size ≤ size
      → 0 < elt_size
      → prealloc_size * elt_size < 2 ^ 32
      → h.free ≡ none
      → (p : Pool) × (w' : W) × (init h size prealloc_size elt_size w ≡ some (some p, w'))
        × IsValid p
        × (free_items p ≡ laid p.data_buffer elt_size prealloc_size 0 [])
        × Nodup (free_items p)
        × (¬ Mem null (free_items p))
        × (p.allocated ≡ prealloc_size)
        × (p.outstanding ≡ 0)
        × (p.max_buckets ≡ size)
  unfolding init accepts blank fill finish
  init-IsValid size prealloc_size elt_size w some_size fits less some_elt all no_free =
      let w1 = (h.malloc w sizeof_pool).1 in
      let (pb, w2) = h.calloc w1 size sizeof_bucket in
      let (d, w3) = h.calloc w2 prealloc_size elt_size in
      let p = shelved size prealloc_size elt_size pb d in
      let (q, w4, done, l) =
        preallocate-Loaded prealloc_size prealloc_size 0 p w3 _
          (λ j h. omega (arith, slot_room j prealloc_size elt_size h)) (omega arith) refl
          (shelved-IsValid size prealloc_size elt_size pb d some_size fits) refl
          (omega (arith, length-layout size pb [])) in
      let got : d ≢ null = s.callocs w2 prealloc_size elt_size in
      let items : free_items q ≡ laid q.data_buffer elt_size prealloc_size 0 [] =
        rw l.same_base l.items in
      (
        q,
        w4,
        ground (
          arith,
          s.mallocs w sizeof_pool,
          s.callocs w1 size sizeof_bucket,
          s.callocs w2 prealloc_size elt_size,
          populate-blank size prealloc_size elt_size pb fits,
          done,
        ),
        l.valid,
        items,
        rw items (laid-Nodup q.data_buffer elt_size some_elt prealloc_size),
        rw items (laid_real q.data_buffer elt_size (rw l.same_base got) prealloc_size),
        l.grown ∙ omega arith,
        l.none_out,
        l.bound,
      )
