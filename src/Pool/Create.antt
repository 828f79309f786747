-- ===== src/Pool/Create.antt =====
-- PoolInit (src/pool.c): the checks of its arguments, the buckets, the preallocated elements, and
-- the way out by PoolFree when something fails.
use dubbo_service_mesh.Base.{
  ℕ, zero, suc, ◌+◌, ◌*◌, ◌%◌, ◌^◌, Bool, true, false, not, ◌&&◌, Option, none, some, List, [], ◌∷◌,
  ltb, ◌==◌, signed32, inc32, dec32, if◌then◌else◌, ◌>>=◌,
}
use dubbo_service_mesh.Pool.{
  Ptr, null, Bucket, Pool, Hooks, call_init, call_cleanup, call_free, call_alloc, free_pool,
}

-- sizeof(Pool) and sizeof(PoolBucket) where a pointer has eight bytes.
abbrev pub sizeof_pool : ℕ
sizeof_pool = 112

abbrev pub sizeof_bucket : ℕ
sizeof_bucket = 24

abbrev is_set : {A : Type 0} → Option A → Bool
is_set none = false
is_set (some _) = true

-- Whether the checks at the head of PoolInit let the arguments pass.
unfoldable pub accepts : {W : Type 0} → Hooks W → (size prealloc_size elt_size : ℕ) → Bool
accepts h size prealloc_size elt_size =
    not (not (size == 0) && ltb size prealloc_size)
    && not (not (size == 0) && elt_size == 0)
    && not (not (elt_size == 0) && is_set h.free)

-- The fields after the memset and the assignments.
unfoldable pub blank : (size prealloc_size elt_size : ℕ) → Pool
blank size prealloc_size elt_size = record {
  max_buckets = size;
  preallocated = prealloc_size;
  allocated = 0;
  alloc_stack_size = 0;
  alloc_stack = [];
  empty_stack = [];
  empty_stack_size = 0;
  data_buffer_size = signed32 (prealloc_size * elt_size % 2 ^ 32);
  data_buffer = null;
  pb_buffer = null;
  elt_size = elt_size;
  outstanding = 0;
  max_outstanding = 0;
}

-- The loop that puts `n` buckets from `pb` on into the empty stack.
unfoldable pub populate : (n : ℕ) → (pb : Ptr) → Pool → Pool
populate zero pb p = p
populate (suc n) pb p = populate n (pb + sizeof_bucket) (record p {
  empty_stack = record { addr = pb; datum = null; prealloc = true } ∷ p.empty_stack;
  empty_stack_size = inc32 p.empty_stack_size;
})

-- A filled bucket on top of the alloc stack.
unfoldable pub stock : Pool → Bucket → Pool
stock p pb = record p {
  allocated = inc32 p.allocated;
  alloc_stack = pb ∷ p.alloc_stack;
  alloc_stack_size = inc32 p.alloc_stack_size;
}

module _ {W : Type 0} (h : Hooks W) where
  -- One round for a pool with no bound: is it done, with which pool and world?
  unfoldable pub prealloc_unlimited : Pool → W → Option (Bool × Pool × W)
  unfolding call_alloc call_init call_cleanup call_free stock
  prealloc_unlimited p w =
      let (pb, w1) = h.malloc w sizeof_bucket in
      if pb == null
      then some (false, p, w1)
      else (let (item, w2) = call_alloc h p w1 in
          if item == null
          then some (false, p, h.dealloc w2 pb)
          else (call_init h p w2 item >>= λ (ret, w3).
              if ret == 1
              then some (true, stock p (record { addr = pb; datum = item; prealloc = false }), w3)
              else some (false, p, h.dealloc (call_free h (call_cleanup h w3 item) item) pb)))

  -- What a round does once Init has returned on element `d` of the bucket on top.
  unfoldable pub prealloc_ready :
      Pool → Bucket → List Bucket → Ptr → ℕ × W → Option (Bool × Pool × W)
  unfolding call_cleanup stock
  prealloc_ready p pb rest d (ret, w) =
      if ret == 1
      then some (
        true,
        stock (record p { empty_stack = rest; empty_stack_size = dec32 p.empty_stack_size })
            (record pb { datum = d }),
        w,
      )
      else some
          (false, record p { empty_stack = record pb { datum = d } ∷ rest }, call_cleanup h w d)

  -- One round, the `u`-th, for a pool with a bound.
  unfoldable pub prealloc_bounded : (u : ℕ) → Pool → W → Option (Bool × Pool × W)
  unfolding call_init prealloc_ready
  prealloc_bounded u p w = elim p.empty_stack [
    | [] ↦ some (false, p, w)
    | pb ∷ rest ↦
        let d = p.data_buffer + u * p.elt_size % 2 ^ 32 in
        call_init h (record p { empty_stack = record pb { datum = d } ∷ rest }) w d
        >>= prealloc_ready p pb rest d
  ]

  -- `n` rounds are left, the next is the `u`-th.
  unfoldable pub preallocate : (n u : ℕ) → Pool → W → Option (Bool × Pool × W)
  unfolding prealloc_unlimited prealloc_bounded
  preallocate zero u p w = some (true, p, w)
  preallocate (suc n) u p w =
      (if p.max_buckets == 0 then prealloc_unlimited p w else prealloc_bounded u p w)
      >>= λ (fine, p', w'). elim fine [
        | true ↦ preallocate n (u + 1) p' w'
        | false ↦ some (false, p', w')
      ]

  -- `goto error` when the loop has failed; the pool itself when it has not.
  unfoldable pub finish : Ptr → Bool × Pool × W → Option (Option Pool × W)
  finish self (fine, p, w) = if fine then some (some p, w) else some (none, free_pool h self p w)

  -- The allocation of the elements' block, and the loop.
  unfoldable pub fill : Ptr → Pool → W → Option (Option Pool × W)
  unfolding preallocate finish
  fill self p w =
      if p.max_buckets == 0
      then preallocate p.preallocated 0 p w >>= finish self
      else (let (d, w') = h.calloc w p.preallocated p.elt_size in
          let p' = record p { data_buffer = d } in
          if d == null
          then some (none, free_pool h self p' w')
          else preallocate p'.preallocated 0 p' w' >>= finish self)

  -- PoolInit. The result is the pool, or `none` for NULL; nothing at all if an Init does not return.
  unfoldable pub init : (size prealloc_size elt_size : ℕ) → W → Option (Option Pool × W)
  unfolding accepts blank populate fill
  init size prealloc_size elt_size w =
      if accepts h size prealloc_size elt_size
      then (let (self, w1) = h.malloc w sizeof_pool in
          let p = blank size prealloc_size elt_size in
          if self == null
          then some (none, w1)
          else if size == 0
          then fill self p w1
          else (let (pb, w2) = h.calloc w1 size sizeof_bucket in
              if pb == null
              then some (none, free_pool h self p w2)
              else fill self (populate size pb (record p { pb_buffer = pb })) w2))
      else some (none, w)
