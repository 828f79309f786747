-- ===== src/Pool/Slots.antt =====
-- The slots into which PoolInit cuts the block of elements.
use mathlib.Core.List.{Nodup, Mem, Nodup-cons, Nodup-nil, not-mem-nil, mem-cons}
use mathlib.Core.HLevel.{⊥_prop}
use mathlib.Core.Logic.Or
use dubbo_service_mesh.Base.{ℕ, zero, suc, ◌+◌, ◌*◌, ◌≤◌, ◌<◌, ◌≢◌, List, [], ◌∷◌, arith, All}
use dubbo_service_mesh.Pool.{Ptr, null}

-- An element starts before the end of the block.
pub slot_room : (j n elt_size : ℕ) → j < n → j * elt_size ≤ n * elt_size
slot_room j n elt_size h = grind arith

-- The addresses of the elements `u`, `u + 1`, …, `n` of them, on top of a list.
abbrev pub laid : (base elt_size n u : ℕ) → List Ptr → List Ptr
laid base elt_size zero u ds = ds
laid base elt_size (suc n) u ds = laid base elt_size n (u + 1) ((base + u * elt_size) ∷ ds)

not-mem_of_All : (k : ℕ) (ds : List Ptr) → All (λ d. d < k) ds → ¬ Mem k ds
not-mem_of_All k [] a m = not-mem-nil m
not-mem_of_All k (d ∷ ds) a m =
    Or.elim ⊥_prop (mem-cons.0 m) (λ e. omega arith) (not-mem_of_All k ds a.1)

All-mono : (j k : ℕ) (ds : List Ptr) → j ≤ k → All (λ d. d < j) ds → All (λ d. d < k) ds
All-mono j k [] le a = tt
All-mono j k (d ∷ ds) le a = (omega arith, All-mono j k ds le a.1)

module _ (base elt_size : ℕ) (some_elt : 0 < elt_size) where
  laid-Nodup_from :
      (n u : ℕ) (ds : List Ptr)
      → All (λ d. d < base + u * elt_size) ds
      → Nodup ds
      → Nodup (laid base elt_size n u ds)
  laid-Nodup_from zero u ds a d = d
  laid-Nodup_from (suc n) u ds a d =
      laid-Nodup_from n (u + 1) ((base + u * elt_size) ∷ ds)
        (grind arith, All-mono (base + u * elt_size) (base + (u + 1) * elt_size) ds (grind arith) a)
        (Nodup-cons.1 (not-mem_of_All (base + u * elt_size) ds a, d))

  -- No slot is handed out under two numbers.
  pub laid-Nodup : (n : ℕ) → Nodup (laid base elt_size n 0 [])
  laid-Nodup n = laid-Nodup_from n 0 [] tt Nodup-nil

module _ (base elt_size : ℕ) (real : base ≢ null) where
  laid_real_from :
      (n u : ℕ) (ds : List Ptr) → ¬ Mem null ds → ¬ Mem null (laid base elt_size n u ds)
  laid_real_from zero u ds a = a
  laid_real_from (suc n) u ds a =
      laid_real_from n (u + 1) ((base + u * elt_size) ∷ ds)
        (λ m. Or.elim ⊥_prop (mem-cons.0 m) (λ e. omega arith) a)

  pub laid_real : (n : ℕ) → ¬ Mem null (laid base elt_size n 0 [])
  laid_real n = laid_real_from n 0 [] not-mem-nil
