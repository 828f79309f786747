-- ===== src/Pool/CreateKeeps.antt =====
-- What the hooks of a pool keep of the world, PoolInit and PoolFree keep.
use mathlib.Core.Option.{some-injective}
use dubbo_service_mesh.Base.{
  ℕ, zero, suc, ◌+◌, ◌*◌, ◌%◌, ◌^◌, ◌≡◌, refl, subst, true, false, Bool, Option, none, some, List,
  [], ◌∷◌, arith, ◌==◌, if◌then◌else◌, ◌>>=◌,
}
use dubbo_service_mesh.Pool.{
  Ptr, null, Pool, Bucket, Hooks, is_preallocated, call_init, call_cleanup, call_free, call_alloc,
  free_unless_preallocated, free_bucket, free_alloc_stack, free_empty_stack, free_pool,
}
use dubbo_service_mesh.Pool.Create.{
  sizeof_pool, sizeof_bucket, accepts, blank, populate, prealloc_unlimited, prealloc_ready,
  prealloc_bounded, preallocate, finish, fill, init,
}
use dubbo_service_mesh.Pool.Keeps.{
  Keeps, call_alloc-Keeps, call_init-Keeps, call_cleanup-Keeps, call_free-Keeps,
}

module _ {W : Type 0} (P : W → Type 0) (h : Hooks W) (k : Keeps P h) where
  either : (b : Bool) (x y : W) → P x → P y → P (if b then x else y)
  either true x y a b = a
  either false x y a b = b

  free_unless-Keeps : (p : Pool) (w : W) (d : Ptr) → P w → P (free_unless_preallocated h p w d)
  unfolding free_unless_preallocated
  free_unless-Keeps p w d v =
      either (is_preallocated p d) w (call_free h w d) v (call_free-Keeps P h k w d v)

  free_bucket-Keeps : (w : W) (pb : Bucket) → P w → P (free_bucket h w pb)
  unfolding free_bucket
  free_bucket-Keeps w pb v = either pb.prealloc w (h.dealloc w pb.addr) v (k.dealloc w pb.addr v)

  drop_data-Keeps :
      (p : Pool) (w : W) (d : Ptr) → P w → P (free_unless_preallocated h p (call_cleanup h w d) d)
  drop_data-Keeps p w d v =
      free_unless-Keeps p (call_cleanup h w d) d (call_cleanup-Keeps P h k w d v)

  free_alloc_stack-Keeps :
      (p : Pool) (bs : List Bucket) (w : W) → P w → P (free_alloc_stack h p bs w)
  unfolding free_alloc_stack
  free_alloc_stack-Keeps p [] w v = v
  free_alloc_stack-Keeps p (pb ∷ rest) w v =
      free_alloc_stack-Keeps p rest _ (free_bucket-Keeps _ pb (drop_data-Keeps p w pb.datum v))

  free_empty_stack-Keeps :
      (p : Pool) (bs : List Bucket) (w : W) → P w → P (free_empty_stack h p bs w)
  unfolding free_empty_stack
  free_empty_stack-Keeps p [] w v = v
  free_empty_stack-Keeps p (pb ∷ rest) w v =
      free_empty_stack-Keeps p rest _
        (free_bucket-Keeps _ pb (either (pb.datum == null) w _ v (drop_data-Keeps p w pb.datum v)))

  free_optional-Keeps : (w : W) (d : Ptr) → P w → P (if d == null then w else h.dealloc w d)
  free_optional-Keeps w d v = either (d == null) w (h.dealloc w d) v (k.dealloc w d v)

  -- PoolFree keeps what its hooks keep.
  pub free_pool-Keeps : (self : Ptr) (p : Pool) (w : W) → P w → P (free_pool h self p w)
  unfolding free_pool
  free_pool-Keeps self p w v = k.dealloc _ self (
      free_optional-Keeps _ p.data_buffer (
        free_optional-Keeps _ p.pb_buffer
          (free_empty_stack-Keeps p p.empty_stack _ (free_alloc_stack-Keeps p p.alloc_stack w v))))

  -- A step with a result keeps `P`.
  abbrev Kept : {A : Type 0} → (A → W) → Option A → Type 0
  Kept {A} at result = (r : A) → result ≡ some r → P (at r)

  kept : {A : Type 0} (at : A → W) (a : A) → P (at a) → Kept at (some a)
  kept at a v r got = subst (λ x. P (at x)) (some-injective _ _ got) v

  Kept-either :
      {A : Type 0} (at : A → W) (b : Bool) (x y : Option A)
      → Kept at x
      → Kept at y
      → Kept at (if b then x else y)
  Kept-either at true x y a b = a
  Kept-either at false x y a b = b

  Kept-bind :
      {A B : Type 0} (from : A → W) (to : B → W) (x : Option A) (f : A → Option B)
      → Kept from x
      → ((a : A) → P (from a) → Kept to (f a))
      → Kept to (x >>= f)
  Kept-bind from to none f a b r got = absurd (ground arith)
  Kept-bind from to (some x) f a b r got = b x (a x refl) r got

  prealloc_unlimited-Keeps : (p : Pool) (w : W) → P w → Kept (λ a. a.2) (prealloc_unlimited h p w)
  unfolding prealloc_unlimited
  prealloc_unlimited-Keeps p w v =
      let pb = (h.malloc w sizeof_bucket).0 in
      let w1 = (h.malloc w sizeof_bucket).1 in
      let v1 = k.malloc w sizeof_bucket v in
      let item = (call_alloc h p w1).0 in
      let w2 = (call_alloc h p w1).1 in
      let v2 = call_alloc-Keeps P h k p w1 v1 in
      Kept-either (λ a. a.2) (pb == null) _ _ (kept _ (false, p, w1) v1)
        (Kept-either (λ a. a.2) (item == null) _ _
          (kept _ (false, p, h.dealloc w2 pb) (k.dealloc w2 pb v2))
          (Kept-bind (λ a. a.1) (λ a. a.2) (call_init h p w2 item) _
            (λ r got. call_init-Keeps P h k p w2 item r got v2)
            (λ a v3.
              Kept-either (λ b. b.2) (a.0 == 1) _ _ (kept _ _ v3)
                (kept _ _ (
                  k.dealloc _ pb
                    (call_free-Keeps P h k _ item (call_cleanup-Keeps P h k a.1 item v3)))))))

  prealloc_bounded-Keeps :
      (u : ℕ) (p : Pool) (bs : List Bucket) (w : W)
      → p.empty_stack ≡ bs
      → P w
      → Kept (λ a. a.2) (prealloc_bounded h u p w)
  unfolding prealloc_bounded prealloc_ready
  prealloc_bounded-Keeps u p [] w e v = rw (e, prealloc_bounded) (kept _ (false, p, w) v)
  prealloc_bounded-Keeps u p (pb ∷ rest) w e v =
      let d = p.data_buffer + u * p.elt_size % 2 ^ 32 in
      let p1 = record p { empty_stack = record pb { datum = d } ∷ rest } in
      rw (e, prealloc_bounded)
        (Kept-bind (λ a. a.1) (λ a. a.2) (call_init h p1 w d) (prealloc_ready h p pb rest d)
          (λ r got. call_init-Keeps P h k p1 w d r got v)
          (λ a v1.
            Kept-either (λ b. b.2) (a.0 == 1) _ _ (kept _ _ v1)
              (kept _ _ (call_cleanup-Keeps P h k a.1 d v1))))

  continue :
      (fine : Bool) (q : Pool) (w : W)
      → P w
      → (more : Option (Bool × Pool × W)) → Kept {A = Bool × Pool × W} (λ a. a.2) more
      → Kept {A = Bool × Pool × W}
          (λ a. a.2)
          (elim fine [ true ↦ more | false ↦ some (false, q, w) ])
  continue true q w v more next = next
  continue false q w v more next = kept _ (false, q, w) v

  preallocate-Keeps : (n u : ℕ) (p : Pool) (w : W) → P w → Kept (λ a. a.2) (preallocate h n u p w)
  unfolding preallocate
  preallocate-Keeps zero u p w v = kept _ (true, p, w) v
  preallocate-Keeps (suc n) u p w v =
      Kept-bind (λ a. a.2) (λ a. a.2)
        (if p.max_buckets == 0 then prealloc_unlimited h p w else prealloc_bounded h u p w) _
        (Kept-either (λ a. a.2) (p.max_buckets == 0) _ _ (prealloc_unlimited-Keeps p w v)
          (prealloc_bounded-Keeps u p p.empty_stack w refl v))
        (λ a v1.
          continue a.0 a.1 a.2 v1 (preallocate h n (u + 1) a.1 a.2)
            (preallocate-Keeps n (u + 1) a.1 a.2 v1))

  finish-Keeps : (self : Ptr) (a : Bool × Pool × W) → P a.2 → Kept (λ r. r.1) (finish h self a)
  unfolding finish
  finish-Keeps self a v =
      Kept-either (λ r. r.1) a.0 _ _ (kept _ _ v) (kept _ _ (free_pool-Keeps self a.1 a.2 v))

  module _ (callocs : (w : W) (n m : ℕ) → P w → P (h.calloc w n m).1) where
    fill-Keeps : (self : Ptr) (p : Pool) (w : W) → P w → Kept (λ r. r.1) (fill h self p w)
    unfolding fill
    fill-Keeps self p w v =
        let d = (h.calloc w p.preallocated p.elt_size).0 in
        let w1 = (h.calloc w p.preallocated p.elt_size).1 in
        let v1 = callocs w p.preallocated p.elt_size v in
        let p1 = record p { data_buffer = d } in
        Kept-either (λ r. r.1) (p.max_buckets == 0) _ _
          (Kept-bind (λ a. a.2) (λ r. r.1) (preallocate h p.preallocated 0 p w) (finish h self)
            (preallocate-Keeps p.preallocated 0 p w v) (λ a v2. finish-Keeps self a v2))
          (Kept-either (λ r. r.1) (d == null) _ _ (kept _ _ (free_pool-Keeps self p1 w1 v1))
            (Kept-bind (λ a. a.2) (λ r. r.1) (preallocate h p.preallocated 0 p1 w1) (finish h self)
              (preallocate-Keeps p.preallocated 0 p1 w1 v1) (λ a v2. finish-Keeps self a v2)))

    -- PoolInit keeps what its hooks and calloc keep, whichever way it ends.
    pub init-Keeps :
        (size prealloc_size elt_size : ℕ) (w : W)
        → P w
        → Kept (λ r. r.1) (init h size prealloc_size elt_size w)
    unfolding init
    init-Keeps size n elt w v =
        let self = (h.malloc w sizeof_pool).0 in
        let w1 = (h.malloc w sizeof_pool).1 in
        let v1 = k.malloc w sizeof_pool v in
        let pb = (h.calloc w1 size sizeof_bucket).0 in
        let w2 = (h.calloc w1 size sizeof_bucket).1 in
        let v2 = callocs w1 size sizeof_bucket v1 in
        Kept-either (λ r. r.1) (accepts h size n elt) _ _
          (Kept-either (λ r. r.1) (self == null) _ _ (kept _ _ v1)
            (Kept-either (λ r. r.1) (size == 0) _ _ (fill-Keeps self (blank size n elt) w1 v1)
              (Kept-either (λ r. r.1) (pb == null) _ _
                (kept _ _ (free_pool-Keeps self (blank size n elt) w2 v2))
                (fill-Keeps self (populate size pb (record (blank size n elt) { pb_buffer = pb }))
                  w2 v2))))
          (kept _ (none, w) v)
