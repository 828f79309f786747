-- ===== src/Pool/LeaksTests.antt =====
-- The theorem on the memory of PoolInit and PoolFree, with an allocator that keeps its live blocks.
use mathlib.Core.List.{Perm, erase, erase-cons-head}
use mathlib.Core.List.Perm
use mathlib.Core.Option.{some-injective}
use native.Mathlib.Decide.{ℕ_discrete}
use dubbo_service_mesh.Base.{
  ℕ, ◌+◌, ◌*◌, ◌≡◌, refl, none, some, List, [], ◌∷◌, arith, subst, ap, ◌∙◌, if◌then◌else◌, ◌==◌,
}
use dubbo_service_mesh.Pool.{Ptr, Hooks, call_init, free_pool}
use dubbo_service_mesh.Pool.Create.{init}
use dubbo_service_mesh.Pool.Memory.{Accounts}
use dubbo_service_mesh.Pool.Leaks.{init-Settles}

-- The bytes given out and the live blocks. Init fails for the element at 1168.
abbrev ledger : Hooks (ℕ × List Ptr)
ledger = record {
  alloc = none;
  init = some (λ w d. some (if d == 1168 then 0 else 1, w));
  cleanup = some (λ w d. w);
  free = none;
  malloc = λ (n, live) k. (1000 + n, (n + k, (1000 + n) ∷ live));
  calloc = λ (n, live) k m. (1000 + n, (n + k * m, (1000 + n) ∷ live));
  dealloc = λ (n, live) d. (n, erase ℕ_discrete live d);
  memset = λ w d n. w;
}

erased :
    (live : List Ptr) (d : Ptr) (xs : List Ptr)
    → Perm live (d ∷ xs)
    → Perm (erase ℕ_discrete live d) xs
erased live d xs v =
    subst (λ l. Perm (erase ℕ_discrete live d) l) (erase-cons-head ℕ_discrete d xs)
      (Perm.erase ℕ_discrete d v)

ledger-Accounts : Accounts ledger (λ w. w.1)
ledger-Accounts = record {
  mallocs = λ w n real. Perm.refl _;
  malloc_fails = λ w n none_left. absurd (omega arith);
  callocs = λ w n m real. Perm.refl _;
  calloc_fails = λ w n m none_left. absurd (omega arith);
  deallocs = λ w d xs v. erased w.1 d xs v;
  memsets = λ w d n. Perm.refl _;
  inits = λ f w d r at got.
      subst (λ x. Perm x.1.1 w.1)
        (some-injective _ _ (ap (λ g. g w d) (some-injective _ _ at) ∙ got)) (Perm.refl _);
  cleanups = λ f w d at. subst (λ g. Perm (g w d).1 w.1) (some-injective _ _ at) (Perm.refl _);
}

-- The second Init fails: NULL, and only the block of before.
failed_init : init ledger 2 2 8 (0, 77 ∷ []) ≡ some (none, (176, 77 ∷ []))
unfolding init call_init free_pool ℕ_discrete
failed_init = refl

init-Settles_example : Perm {A = ℕ} (77 ∷ []) (77 ∷ [])
init-Settles_example =
    init-Settles ledger (λ w. w.1) ledger-Accounts 2 2 8 (0, 77 ∷ []) (none, (176, 77 ∷ []))
      (omega arith) (omega arith) (omega arith) failed_init
