-- ===== src/Pool/Invariant.antt =====
-- The bookkeeping of a bounded pool: its counters agree with its stacks.
use dubbo_service_mesh.Base.{◌+◌, ◌^◌, ◌≤◌, ◌<◌, ◌≡◌, some, arith, length}
use dubbo_service_mesh.Pool.{Ptr, Pool, Hooks, push, get, return}

-- What pool.c keeps true of a pool with a bound.
pub record IsValid (p : Pool) : Type 0 where
  pub bounded : 0 < p.max_buckets
  pub fits : p.max_buckets < 2 ^ 32
  pub buckets : length p.alloc_stack + length p.empty_stack ≡ p.max_buckets
  pub alloc_size : p.alloc_stack_size ≡ length p.alloc_stack
  pub empty_size : p.empty_stack_size ≡ length p.empty_stack
  pub elements : p.allocated ≡ length p.alloc_stack + p.outstanding
  pub room : p.allocated ≤ p.max_buckets
  pub peak : p.outstanding ≤ p.max_outstanding
  pub peak_room : p.max_outstanding ≤ p.max_buckets

-- Every bucket's element is preallocated, so none is made later.
abbrev pub IsFull : Pool → Type 0
IsFull p = p.allocated ≡ p.max_buckets

module _ {W : Type 0} (h : Hooks W) where
  -- PoolGet keeps the bookkeeping of a bounded pool, whichever way it ends.
  pub get-IsValid :
      {p q : Pool} {w : W} {x : Ptr} (w' : W) → get h p w' ≡ some (x, q, w) → IsValid p → IsValid q
  unfolding get
  get-IsValid w' got v = ground arith

  -- PoolReturn keeps the bookkeeping of a bounded pool while an element is out.
  pub return-IsValid :
      {p : Pool} (w : W) (d : Ptr) → 0 < p.outstanding → IsValid p → IsValid (return h p w d).0
  unfolding return push
  return-IsValid w d out v = ground arith
