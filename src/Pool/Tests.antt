-- ===== src/Pool/Tests.antt =====
-- Runs of the pool, and its theorems at a pool of three.
use mathlib.Core.List.{Nodup, Mem, Perm}
use dubbo_service_mesh.Base.{ℕ, ◌+◌, ◌*◌, ◌≡◌, refl, none, some, [], ◌∷◌, ◌++◌, arith, true, pos}
use dubbo_service_mesh.Pool.{null, Pool, Hooks, get, return, call_init, is_preallocated}
use dubbo_service_mesh.Pool.Create.{init}
use dubbo_service_mesh.Pool.Build.{free_items, Supplies, init-IsValid}
use dubbo_service_mesh.Pool.Invariant.{IsValid, get-IsValid, return-IsValid}
use dubbo_service_mesh.Pool.Stack.{Holds, Popped, get-Popped, return-Holds}
use dubbo_service_mesh.Pool.Slots.{laid, laid-Nodup, laid_real}
use dubbo_service_mesh.Pool.Ownership.{Step, Reach, Reach-Nodup}

-- A world that counts the bytes given out, from address 1000.
abbrev bump : Hooks ℕ
bump = record {
  alloc = none;
  init = none;
  cleanup = none;
  free = none;
  malloc = λ w n. (1000 + w, w + n);
  calloc = λ w n m. (1000 + w, w + n * m);
  dealloc = λ w d. w;
  memset = λ w d n. w;
}

bump-Supplies : Supplies bump
unfolding call_init
bump-Supplies = record {
  mallocs = λ w n. omega arith;
  callocs = λ w n m. omega arith;
  readies = λ p w d. (w, refl);
}

abbrev pub three : Pool
three = record {
  max_buckets = 3;
  preallocated = 3;
  allocated = 3;
  alloc_stack_size = 3;
  alloc_stack =
      record { addr = 1112; datum = 1200; prealloc = true }
      ∷ record { addr = 1136; datum = 1192; prealloc = true }
      ∷ record { addr = 1160; datum = 1184; prealloc = true }
      ∷ [];
  empty_stack = [];
  empty_stack_size = 0;
  data_buffer_size = pos 24;
  data_buffer = 1184;
  pb_buffer = 1112;
  elt_size = 8;
  outstanding = 0;
  max_outstanding = 0;
}

-- What PoolInit makes in this world.
init_three : init bump 3 3 8 0 ≡ some (some three, 208)
unfolding init
init_three = refl

-- More elements than buckets, or no element size: NULL.
init_refused : (init bump 3 4 8 0 ≡ some (none, 0)) × (init bump 3 3 0 0 ≡ some (none, 0))
unfolding init
init_refused = (refl, refl)

-- The address just past the block counts as preallocated.
past_the_end : is_preallocated three 1208 ≡ true
unfolding is_preallocated
past_the_end = refl

init-IsValid_example :
    (p : Pool) × (w' : ℕ) × (init bump 3 2 8 0 ≡ some (some p, w'))
    × IsValid p
    × (free_items p ≡ laid p.data_buffer 8 2 0 [])
    × Nodup (free_items p)
    × (¬ Mem null (free_items p))
    × (p.allocated ≡ 2)
    × (p.outstanding ≡ 0)
    × (p.max_buckets ≡ 3)
init-IsValid_example =
    init-IsValid bump bump-Supplies 3 2 8 0 (omega arith) (omega arith) (omega arith) (omega arith)
      (omega arith) refl

three-IsValid : IsValid three
three-IsValid = omega arith

pub three-Holds : Holds three (1200 ∷ 1192 ∷ 1184 ∷ []) 0
three-Holds = record { valid = three-IsValid; full = refl; free = refl; out = refl }

-- `three` after one PoolGet.
abbrev pub two_left : Pool
two_left = record three {
  alloc_stack_size = 2;
  alloc_stack =
      record { addr = 1136; datum = 1192; prealloc = true }
      ∷ record { addr = 1160; datum = 1184; prealloc = true }
      ∷ [];
  empty_stack = record { addr = 1112; datum = null; prealloc = true } ∷ [];
  empty_stack_size = 1;
  outstanding = 1;
  max_outstanding = 1;
}

get-three : get bump three 0 ≡ some (1200, two_left, 0)
unfolding get
get-three = refl

get-IsValid_example : IsValid two_left
get-IsValid_example =
    get-IsValid bump {p = three} {q = two_left} {w = 0} {x = 1200} 0 get-three three-IsValid

return-IsValid_example : IsValid (return bump two_left 0 1200).0
return-IsValid_example =
    return-IsValid bump {p = two_left} 0 1200 (omega arith)
      (get-IsValid bump 0 get-three three-IsValid)

get-Popped_example : Popped three 0 (1200 ∷ 1192 ∷ 1184 ∷ []) 0 (get bump three 0)
get-Popped_example = get-Popped bump 0 three-Holds

pub two_left-Holds : Holds two_left (1192 ∷ 1184 ∷ []) 1
two_left-Holds = record {
  valid = get-IsValid bump 0 get-three three-IsValid;
  full = refl;
  free = refl;
  out = refl;
}

-- After two.
abbrev pub one_left : Pool
one_left = record two_left {
  alloc_stack_size = 1;
  alloc_stack = record { addr = 1160; datum = 1184; prealloc = true } ∷ [];
  empty_stack =
      record { addr = 1136; datum = null; prealloc = true }
      ∷ record { addr = 1112; datum = null; prealloc = true }
      ∷ [];
  empty_stack_size = 2;
  outstanding = 2;
  max_outstanding = 2;
}

pub one_left-Holds : Holds one_left (1184 ∷ []) 2
one_left-Holds = record { valid = omega arith; full = refl; free = refl; out = refl }

return-Holds_example :
    (q : Pool) × (return bump two_left 0 1200 ≡ (q, 0)) × Holds q (1200 ∷ 1192 ∷ 1184 ∷ []) 0
return-Holds_example = return-Holds bump 0 1200 two_left-Holds

-- One element is taken.
one_taken :
    Reach bump (record { pool = three; held = [] }) (record { pool = two_left; held = 1200 ∷ [] })
one_taken = Reach.next Reach.here (Step.took 0 0 get-three (omega arith))

pub slots-Nodup : Nodup {A = ℕ} (1200 ∷ 1192 ∷ 1184 ∷ [])
slots-Nodup = laid-Nodup 1184 8 (omega arith) 3

Reach-Nodup_example :
    Nodup (free_items two_left ++ 1200 ∷ [])
    × Perm (free_items two_left ++ 1200 ∷ []) (1200 ∷ 1192 ∷ 1184 ∷ [])
Reach-Nodup_example =
    Reach-Nodup bump three (1200 ∷ 1192 ∷ 1184 ∷ []) (record { pool = two_left; held = 1200 ∷ [] })
      three-Holds slots-Nodup (laid_real 1184 8 (omega arith) 3) one_taken
