-- ===== src/Pool/Memory.antt =====
-- The memory of a pool with a bound: which blocks are allocated, and that PoolFree gives all of them
-- back.
use mathlib.Core.List.{Perm}
use mathlib.Core.List.Perm
use dubbo_service_mesh.Base.{
  ℕ, ◌≡◌, ◌≢◌, ◌⊎◌, subst, inl, inr, true, Option, some, List, [], ◌∷◌, arith, All, ◌==◌,
  if◌then◌else◌, Bool-cases, Option-cases,
}
use dubbo_service_mesh.Pool.{
  Ptr, null, Pool, Bucket, Hooks, is_preallocated, call_init, call_cleanup,
  free_unless_preallocated, free_bucket, free_alloc_stack, free_empty_stack, free_pool,
}

-- `blocks w` are the blocks that the allocator has given out and not got back. Init and Cleanup leave
-- them as they are.
pub record Accounts {W : Type 0} (h : Hooks W) (blocks : W → List Ptr) : Type 0 where
  pub mallocs :
      (w : W) (n : ℕ)
      → (h.malloc w n).0 ≢ null
      → Perm (blocks (h.malloc w n).1) ((h.malloc w n).0 ∷ blocks w)
  pub malloc_fails :
      (w : W) (n : ℕ) → (h.malloc w n).0 ≡ null → Perm (blocks (h.malloc w n).1) (blocks w)
  pub callocs :
      (w : W) (n m : ℕ)
      → (h.calloc w n m).0 ≢ null
      → Perm (blocks (h.calloc w n m).1) ((h.calloc w n m).0 ∷ blocks w)
  pub calloc_fails :
      (w : W) (n m : ℕ) → (h.calloc w n m).0 ≡ null → Perm (blocks (h.calloc w n m).1) (blocks w)
  pub deallocs :
      (w : W) (d : Ptr) (xs : List Ptr)
      → Perm (blocks w) (d ∷ xs)
      → Perm (blocks (h.dealloc w d)) xs
  pub memsets : (w : W) (d : Ptr) (n : ℕ) → Perm (blocks (h.memset w d n)) (blocks w)
  pub inits :
      (f : W → Ptr → Option (ℕ × W)) (w : W) (d : Ptr) (r : ℕ × W)
      → h.init ≡ some f
      → f w d ≡ some r
      → Perm (blocks r.1) (blocks w)
  pub cleanups :
      (f : W → Ptr → W) (w : W) (d : Ptr) → h.cleanup ≡ some f → Perm (blocks (f w d)) (blocks w)

-- A bucket of the pool's own array, with its data in the pool's own block, or with none.
abbrev pub Inside : Pool → Bucket → Type 0
Inside p b = (b.prealloc ≡ true) × (is_preallocated p b.datum ≡ true)

abbrev pub MaybeInside : Pool → Bucket → Type 0
MaybeInside p b = (b.prealloc ≡ true) × ((b.datum ≡ null) ⊎ (is_preallocated p b.datum ≡ true))

abbrev optional : Ptr → List Ptr → List Ptr
optional d xs = if d == null then xs else d ∷ xs

-- The blocks of a pool that stands at `self`, in the order in which PoolFree frees them.
abbrev pub owned : Ptr → Pool → List Ptr → List Ptr
owned self p xs = optional p.pb_buffer (optional p.data_buffer (self ∷ xs))

module _ {W : Type 0} (h : Hooks W) (blocks : W → List Ptr) (acc : Accounts h blocks) where
  abbrev pub Has : List Ptr → W → Type 0
  Has xs w = Perm (blocks w) xs

  pub call_init-Has :
      (p : Pool) (w : W) (d : Ptr) (r : ℕ × W) (xs : List Ptr)
      → call_init h p w d ≡ some r
      → Has xs w
      → Has xs r.1
  unfolding call_init
  call_init-Has p w d r xs got v = elim (Option-cases h.init) [
    | inl e ↦
        let same : h.memset w d p.elt_size ≡ r.1 = ground arith in
        subst (Has xs) same (Perm.trans (acc.memsets w d p.elt_size) v)
    | inr (f, e) ↦ Perm.trans (acc.inits f w d r e (ground arith)) v
  ]

  pub call_cleanup-Has : (w : W) (d : Ptr) (xs : List Ptr) → Has xs w → Has xs (call_cleanup h w d)
  unfolding call_cleanup
  call_cleanup-Has w d xs v = elim (Option-cases h.cleanup) [
    | inl e ↦ rw (e, call_cleanup) v
    | inr (f, e) ↦ rw (e, call_cleanup) (Perm.trans (acc.cleanups f w d e) v)
  ]

  free_alloc_stack-Has :
      (p : Pool) (bs : List Bucket) (w : W) (xs : List Ptr)
      → All (Inside p) bs
      → Has xs w
      → Has xs (free_alloc_stack h p bs w)
  unfolding free_alloc_stack free_unless_preallocated free_bucket
  free_alloc_stack-Has p [] w xs a v = v
  free_alloc_stack-Has p (pb ∷ rest) w xs a v =
      rw (a.0.0, a.0.1)
        (free_alloc_stack-Has p rest (call_cleanup h w pb.datum) xs a.1
          (call_cleanup-Has w pb.datum xs v))

  free_empty_stack-Has :
      (p : Pool) (bs : List Bucket) (w : W) (xs : List Ptr)
      → All (MaybeInside p) bs
      → Has xs w
      → Has xs (free_empty_stack h p bs w)
  unfolding free_empty_stack free_unless_preallocated free_bucket
  free_empty_stack-Has p [] w xs a v = v
  free_empty_stack-Has p (pb ∷ rest) w xs a v = elim (Bool-cases (pb.datum == null)) [
    | inl empty ↦ rw (a.0.0, empty) (free_empty_stack-Has p rest w xs a.1 v)
    | inr full ↦
        let inside : is_preallocated p pb.datum ≡ true = ground arith in
        rw (a.0.0, full, inside)
          (free_empty_stack-Has p rest (call_cleanup h w pb.datum) xs a.1
            (call_cleanup-Has w pb.datum xs v))
  ]

  free_optional :
      (d : Ptr) (w : W) (xs : List Ptr)
      → Has (optional d xs) w
      → Has xs (if d == null then w else h.dealloc w d)
  free_optional d w xs v = elim (Bool-cases (d == null)) [
    | inl absent ↦ rw absent (rw absent at v)
    | inr present ↦ rw present (acc.deallocs w d xs (rw present at v))
  ]

  -- PoolFree of a pool whose buckets and elements are all its own gives back exactly the pool's
  -- blocks.
  pub free_pool-Has :
      (self : Ptr) (p : Pool) (w : W) (xs : List Ptr)
      → All (Inside p) p.alloc_stack
      → All (MaybeInside p) p.empty_stack
      → Has (owned self p xs) w
      → Has xs (free_pool h self p w)
  unfolding free_pool
  free_pool-Has self p w xs a b v =
      let w1 = free_empty_stack h p p.empty_stack (free_alloc_stack h p p.alloc_stack w) in
      let w2 = if p.pb_buffer == null then w1 else h.dealloc w1 p.pb_buffer in
      let w3 = if p.data_buffer == null then w2 else h.dealloc w2 p.data_buffer in
      acc.deallocs w3 self xs (
        free_optional p.data_buffer w2 (self ∷ xs) (
          free_optional p.pb_buffer w1 (optional p.data_buffer (self ∷ xs)) (
            free_empty_stack-Has p p.empty_stack (free_alloc_stack h p p.alloc_stack w)
              (owned self p xs) b (free_alloc_stack-Has p p.alloc_stack w (owned self p xs) a v))))
