-- ===== src/Pool.antt =====
-- src/pool.h and src/pool.c: pools of preallocated elements.
-- A stack of `PoolBucket`s linked by `next` is a list, its top first. Addresses are numbers, with 0
-- for NULL. The function pointers of a pool, and libc's malloc, calloc, free and memset, act on a world `W`;
-- an `Init` that does not return is `none`. A uint32_t counter wraps.
pub mod Create
pub mod Build
pub mod Invariant
pub mod Slots
pub mod Stack
pub mod Ownership
pub mod Keeps
pub mod CreateKeeps
pub mod Memory
pub mod Loop
pub mod Leaks
pub mod Tests
pub mod LeaksTests
use dubbo_service_mesh.Base.{
  ℕ, ◌+◌, ◌-◌, Bool, true, false, not, ◌&&◌, ◌||◌, Option, none, some, List, [], ◌∷◌, ltb, ◌==◌, ℤ,
  pos, negsuc, inc32, dec32, if◌then◌else◌, ◌>>=◌,
}

abbrev pub Ptr : Type 0
Ptr = ℕ

abbrev pub null : Ptr
null = 0

-- `addr` is the bucket's own address, and `prealloc` the flag POOL_BUCKET_PREALLOCATED.
pub record Bucket : Type 0 where
  pub addr : Ptr
  pub datum : Ptr
  pub prealloc : Bool

pub record Pool : Type 0 where
  pub max_buckets : ℕ
  pub preallocated : ℕ
  pub allocated : ℕ
  pub alloc_stack_size : ℕ
  pub alloc_stack : List Bucket
  pub empty_stack : List Bucket
  pub empty_stack_size : ℕ
  pub data_buffer_size : ℤ
  pub data_buffer : Ptr
  pub pb_buffer : Ptr
  pub elt_size : ℕ
  pub outstanding : ℕ
  pub max_outstanding : ℕ

-- The function pointers of a pool (`none` is NULL) with their InitData, and libc's functions.
pub record Hooks (W : Type 0) : Type 0 where
  pub alloc : Option (W → Ptr × W)
  pub init : Option (W → Ptr → Option (ℕ × W))
  pub cleanup : Option (W → Ptr → W)
  pub free : Option (W → Ptr → W)
  pub malloc : W → ℕ → Ptr × W
  pub calloc : W → ℕ → ℕ → Ptr × W
  pub dealloc : W → Ptr → W
  pub memset : W → Ptr → ℕ → W

-- PoolDataPreAllocated. The bound is the source's: `delta > data_buffer_size`.
unfoldable pub is_preallocated : Pool → Ptr → Bool
is_preallocated p d = not (ltb d p.data_buffer) && (elim p.data_buffer_size [
  | pos size ↦ not (ltb size (d - p.data_buffer))
  | negsuc _ ↦ false
])

module _ {W : Type 0} (h : Hooks W) where
  -- `p->Init(item, p->InitData)`; PoolInit puts PoolMemset, which returns 1, for NULL.
  unfoldable pub call_init : Pool → W → Ptr → Option (ℕ × W)
  call_init p w item = elim h.init [
    | none ↦ some (1, h.memset w item p.elt_size)
    | some f ↦ f w item
  ]

  unfoldable pub call_cleanup : W → Ptr → W
  call_cleanup w item = elim h.cleanup [ none ↦ w | some f ↦ f w item ]

  unfoldable pub call_free : W → Ptr → W
  call_free w item = elim h.free [ none ↦ h.dealloc w item | some f ↦ f w item ]

  -- `p->Alloc()`, or malloc of one element.
  unfoldable pub call_alloc : Pool → W → Ptr × W
  call_alloc p w = elim h.alloc [ none ↦ h.malloc w p.elt_size | some f ↦ f w ]

  unfoldable pub free_unless_preallocated : Pool → W → Ptr → W
  unfolding is_preallocated call_free
  free_unless_preallocated p w item = if is_preallocated p item then w else call_free w item

-- `p->outstanding++`, and the maximum that goes with it.
unfoldable pub count_out : Pool → Pool
count_out p =
    let out = inc32 p.outstanding in
    record p {
      outstanding = out;
      max_outstanding = if ltb p.max_outstanding out then out else p.max_outstanding;
    }

-- The bucket on top of the alloc stack gives up its data and goes to the empty stack.
unfoldable pub pull : Pool → Bucket → List Bucket → Pool
unfolding count_out
pull p pb rest = count_out (record p {
  alloc_stack = rest;
  alloc_stack_size = dec32 p.alloc_stack_size;
  empty_stack = record pb { datum = null } ∷ p.empty_stack;
  empty_stack_size = inc32 p.empty_stack_size;
})

-- The bucket on top of the empty stack takes the data and goes to the alloc stack.
unfoldable pub push : Pool → Bucket → List Bucket → Ptr → Pool
push p pb rest d = record p {
  empty_stack = rest;
  empty_stack_size = dec32 p.empty_stack_size;
  alloc_stack = record pb { datum = d } ∷ p.alloc_stack;
  alloc_stack_size = inc32 p.alloc_stack_size;
  outstanding = dec32 p.outstanding;
}

module _ {W : Type 0} (h : Hooks W) where
  -- What PoolGet does with an element that it has allocated, once Init has returned.
  unfoldable pub got_fresh : Pool → Ptr → ℕ × W → Option (Ptr × Pool × W)
  unfolding count_out call_cleanup call_free
  got_fresh p item (ret, w) =
      if ret == 1
      then some (item, count_out (record p { allocated = inc32 p.allocated }), w)
      else some (null, p, call_free h (call_cleanup h w item) item)

  -- PoolGet with nothing on the alloc stack.
  unfoldable pub get_fresh : Pool → W → Option (Ptr × Pool × W)
  unfolding call_alloc call_init got_fresh
  get_fresh p w =
      if p.max_buckets == 0 || ltb p.allocated p.max_buckets
      then (let (item, w') = call_alloc h p w in
          if item == null then some (null, p, w') else call_init h p w' item >>= got_fresh p item)
      else some (null, p, w)

  -- PoolGet: the element (or NULL), the pool and the world after it; `none` if Init does not return.
  unfoldable pub get : Pool → W → Option (Ptr × Pool × W)
  unfolding pull get_fresh
  get p w = elim p.alloc_stack [
    | [] ↦ get_fresh p w
    | pb ∷ rest ↦ some (pb.datum, pull p pb rest, w)
  ]

  -- PoolReturn.
  unfoldable pub return : Pool → W → Ptr → Pool × W
  unfolding push call_cleanup free_unless_preallocated
  return p w d = elim p.empty_stack [
    | [] ↦ (
      record p { allocated = dec32 p.allocated; outstanding = dec32 p.outstanding },
      free_unless_preallocated h p (call_cleanup h w d) d,
    )
    | pb ∷ rest ↦ (push p pb rest d, w)
  ]

  free_bucket : W → Bucket → W
  free_bucket w pb = if pb.prealloc then w else h.dealloc w pb.addr

  -- The first loop of PoolFree.
  free_alloc_stack : Pool → List Bucket → W → W
  unfolding free_unless_preallocated call_cleanup free_bucket
  free_alloc_stack p [] w = w
  free_alloc_stack p (pb ∷ rest) w =
      free_alloc_stack p rest
        (free_bucket (free_unless_preallocated h p (call_cleanup h w pb.datum) pb.datum) pb)

  -- Its second loop: only buckets that still hold data have some to clean up.
  free_empty_stack : Pool → List Bucket → W → W
  unfolding free_unless_preallocated call_cleanup free_bucket
  free_empty_stack p [] w = w
  free_empty_stack p (pb ∷ rest) w = free_empty_stack p rest (
      free_bucket
        (if pb.datum == null
          then w
          else free_unless_preallocated h p (call_cleanup h w pb.datum) pb.datum)
        pb)

  -- PoolFree of a pool that stands at `self`.
  unfoldable pub free_pool : Ptr → Pool → W → W
  unfolding free_alloc_stack free_empty_stack
  free_pool self p w =
      let w1 = free_empty_stack p p.empty_stack (free_alloc_stack p p.alloc_stack w) in
      let w2 = if p.pb_buffer == null then w1 else h.dealloc w1 p.pb_buffer in
      let w3 = if p.data_buffer == null then w2 else h.dealloc w2 p.data_buffer in h.dealloc w3 self
