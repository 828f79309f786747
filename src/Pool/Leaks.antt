-- ===== src/Pool/Leaks.antt =====
-- PoolInit and PoolFree of a pool with a bound leak no memory and free none twice, on every path.
use mathlib.Core.List.{Perm, perm_middle}
use mathlib.Core.List.Perm
use mathlib.Core.Option.{some-injective}
use dubbo_service_mesh.Base.{
  ℕ, zero, suc, ◌+◌, ◌*◌, ◌^◌, ◌<◌, ◌≡◌, ◌≢◌, refl, subst, inl, inr, true, false, Option, none,
  some, List, [], ◌∷◌, arith, All, ◌==◌, Bool-cases, Option-cases, Bool,
}
use dubbo_service_mesh.Pool.{Ptr, null, Pool, Bucket, Hooks, is_preallocated, free_pool}
use dubbo_service_mesh.Pool.Create.{
  sizeof_pool, sizeof_bucket, accepts, blank, preallocate, finish, fill, init,
}
use dubbo_service_mesh.Pool.Slots.{slot_room}
use dubbo_service_mesh.Pool.Build.{layout, shelved, populate-blank}
use dubbo_service_mesh.Pool.Memory.{Accounts, MaybeInside, owned, Has, free_pool-Has}
use dubbo_service_mesh.Pool.Loop.{Lies, Lies-free, preallocate-After}

layout-MaybeInside :
    (q : Pool) (n pb : ℕ) (bs : List Bucket)
    → All (MaybeInside q) bs
    → All (MaybeInside q) (layout n pb bs)
layout-MaybeInside q zero pb bs a = a
layout-MaybeInside q (suc n) pb bs a =
    layout-MaybeInside q n (pb + sizeof_bucket) _ ((refl, inl refl), a)

-- The pool before the loop, and its elements' block.
shelved-Lies :
    (size prealloc_size elt_size pb d : ℕ)
    → Lies (shelved size prealloc_size elt_size pb d) (shelved size prealloc_size elt_size pb d)
unfolding blank
shelved-Lies size prealloc_size elt_size pb d =
    let q = shelved size prealloc_size elt_size pb d in
    record {
      same_block = refl;
      same_room = refl;
      same_buckets = refl;
      same_elt = refl;
      same_bound = refl;
      filled = tt;
      waiting = layout-MaybeInside q size pb [] tt;
    }

shelved_room :
    (size prealloc_size elt_size pb d j : ℕ)
    → prealloc_size * elt_size < 2 ^ 31
    → j < prealloc_size
    → is_preallocated (shelved size prealloc_size elt_size pb d) (d + j * elt_size) ≡ true
unfolding is_preallocated blank
shelved_room size prealloc_size elt_size pb d j fits h =
    let within = slot_room j prealloc_size elt_size h in ground arith

module _ {W : Type 0} (h : Hooks W) (blocks : W → List Ptr) (acc : Accounts h blocks) where
  -- What PoolInit makes of the blocks of `w`: with NULL they are as before, and with a pool they are
  -- as before once PoolFree has freed it.
  abbrev pub Settles : W → Option Pool × W → Type 0
  Settles w (none, w') = Perm (blocks w') (blocks w)
  Settles w (some p, w') = Perm (blocks (free_pool h (h.malloc w sizeof_pool).0 p w')) (blocks w)

  -- A pool with no array and no block has only itself.
  blank_free :
      (size prealloc_size elt_size : ℕ) (self : Ptr) (w : W) (xs : List Ptr)
      → Has h blocks acc (self ∷ xs) w
      → Has h blocks acc xs (free_pool h self (blank size prealloc_size elt_size) w)
  unfolding blank
  blank_free size prealloc_size elt_size self w xs v =
      free_pool-Has h blocks acc self (blank size prealloc_size elt_size) w xs tt tt v

  finish-Settles :
      (self : Ptr) (q : Pool) (w : W) (a : Bool × Pool × W) (r : Option Pool × W)
      → self ≡ (h.malloc w sizeof_pool).0
      → Lies q a.1
      → Has h blocks acc (owned self q (blocks w)) a.2
      → finish h self a ≡ some r
      → Settles w r
  unfolding finish
  finish-Settles self q w (fine, p, w') r at_self l v got =
      let freed = Lies-free h blocks acc self q p w' (blocks w) l v in
      elim (Bool-cases fine) [
        | inl done ↦
            subst (Settles w) (some-injective _ _ (rw done at got))
              (subst (λ x. Perm (blocks (free_pool h x p w')) (blocks w)) at_self freed)
        | inr failed ↦ subst (Settles w) (some-injective _ _ (rw failed at got)) freed
      ]

  -- The block of the elements, and the loop.
  fill-Settles :
      (size prealloc_size elt_size pb self : ℕ) (w w2 : W) (r : Option Pool × W)
      → 0 < size
      → prealloc_size * elt_size < 2 ^ 31
      → pb ≢ null
      → self ≡ (h.malloc w sizeof_pool).0
      → Has h blocks acc (pb ∷ self ∷ blocks w) w2
      → fill h self (shelved size prealloc_size elt_size pb null) w2 ≡ some r
      → Settles w r
  unfolding fill blank
  fill-Settles size prealloc_size elt_size pb self w w2 r some_size fits real at_self v got =
      let d = (h.calloc w2 prealloc_size elt_size).0 in
      let w3 = (h.calloc w2 prealloc_size elt_size).1 in
      let q = shelved size prealloc_size elt_size pb d in
      let bound : (size == 0) ≡ false = ground arith in
      let there : (pb == null) ≡ false = ground arith in
      elim (Bool-cases (d == null)) [
        | inl absent ↦
            let v3 = Perm.trans (acc.calloc_fails w2 prealloc_size elt_size (ground arith)) v in
            subst (Settles w) (some-injective _ _ (rw (bound, absent) at got)) (
              Lies-free h blocks acc self q q w3 (blocks w)
                (shelved-Lies size prealloc_size elt_size pb d) (rw (there, absent) v3))
        | inr present ↦
            let v3 =
              Perm.trans (acc.callocs w2 prealloc_size elt_size (ground arith)) (Perm.cons d v) in
            let swapped = Perm.trans v3 (Perm.symm (perm_middle (pb ∷ []) (self ∷ blocks w))) in
            elim (Option-cases (preallocate h prealloc_size 0 q w3)) [
              | inl stuck ↦ absurd (ground arith)
              | inr (a, done) ↦
                  let (l, v4) =
                    preallocate-After h blocks acc q prealloc_size bound
                      (λ j k. omega (arith, slot_room j prealloc_size elt_size k))
                      (λ j k. shelved_room size prealloc_size elt_size pb d j fits k) prealloc_size
                      0 q w3 (owned self q (blocks w)) (omega arith)
                      (shelved-Lies size prealloc_size elt_size pb d) (rw (there, present) swapped)
                      a done in
                  finish-Settles self q w a r at_self l v4 (rw (bound, present, done) at got)
            ]
      ]

  -- PoolInit with a bound, whose elements take less than 2 ^ 31 bytes: whether its arguments are
  -- refused, an allocation fails or an Init fails, a NULL leaves exactly the blocks of before; and a
  -- pool leaves exactly them once PoolFree has freed it.
  pub init-Settles :
      (size prealloc_size elt_size : ℕ) (w : W) (r : Option Pool × W)
      → 0 < size
      → size < 2 ^ 32
      → prealloc_size * elt_size < 2 ^ 31
      → init h size prealloc_size elt_size w ≡ some r
      → Settles w r
  unfolding init
  init-Settles size prealloc_size elt_size w r some_size small fits got =
      let self = (h.malloc w sizeof_pool).0 in
      let w1 = (h.malloc w sizeof_pool).1 in
      let pb = (h.calloc w1 size sizeof_bucket).0 in
      let w2 = (h.calloc w1 size sizeof_bucket).1 in
      let bound : (size == 0) ≡ false = ground arith in
      let start = Perm.refl (blocks w) in
      elim (Bool-cases (accepts h size prealloc_size elt_size)) [
        | inr refused ↦ subst (Settles w) (some-injective _ _ (rw refused at got)) start
        | inl accepted ↦ elim (Bool-cases (self == null)) [
          | inl absent ↦
              subst (Settles w) (some-injective _ _ (rw (accepted, absent) at got))
                (acc.malloc_fails w sizeof_pool (ground arith))
          | inr present ↦
              let v1 = acc.mallocs w sizeof_pool (ground arith) in
              elim (Bool-cases (pb == null)) [
                | inl none_left ↦
                    let v2 =
                      Perm.trans (acc.calloc_fails w1 size sizeof_bucket (ground arith)) v1 in
                    subst (Settles w)
                      (some-injective _ _ (rw (accepted, present, bound, none_left) at got))
                      (blank_free size prealloc_size elt_size self w2 (blocks w) v2)
                | inr real ↦
                    let v2 =
                      Perm.trans (acc.callocs w1 size sizeof_bucket (ground arith))
                        (Perm.cons pb v1) in
                    fill-Settles size prealloc_size elt_size pb self w w2 r some_size fits
                      (ground arith) refl v2
                      (subst (λ x. fill h self x w2 ≡ some r)
                        (populate-blank size prealloc_size elt_size pb small)
                        (rw (accepted, present, bound, real) at got))
              ]
        ]
      ]
