-- ===== src/Pool/Stack.antt =====
-- A bounded pool refines a stack of free elements, the last one returned on top.
use dubbo_service_mesh.Base.{
  ℕ, ◌+◌, ◌≡◌, refl, subst, suc, some, List, [], ◌∷◌, Option, map, arith, ap,
}
use dubbo_service_mesh.Pool.{Ptr, null, Bucket, Pool, Hooks, pull, push, get, return}
use dubbo_service_mesh.Pool.Invariant.{IsValid, IsFull}
use dubbo_service_mesh.Pool.Build.{free_items}

-- A bounded pool with all its elements made, `xs` of them free and `n` in use.
pub record Holds (p : Pool) (xs : List Ptr) (n : ℕ) : Type 0 where
  pub valid : IsValid p
  pub full : IsFull p
  pub free : free_items p ≡ xs
  pub out : p.outstanding ≡ n

-- What PoolGet does to it, by the free elements.
abbrev pub Popped : {W : Type 0} → Pool → W → List Ptr → ℕ → Option (Ptr × Pool × W) → Type 0
Popped p w [] n r = r ≡ some (null, p, w)
Popped {W} p w (x ∷ xs) n r = (q : Pool) × (r ≡ some (x, q, w)) × Holds q xs (n + 1)

module _ {W : Type 0} (h : Hooks W) where
  get-stack :
      {p : Pool} (w : W) (bs : List Bucket) (n : ℕ)
      → p.alloc_stack ≡ bs
      → Holds p (map (λ b. b.datum) bs) n
      → Popped p w (map (λ b. b.datum) bs) n (get h p w)
  unfolding get
  get-stack w [] n e v = ground arith
  get-stack {p} w (pb ∷ rest) n e v = (
    pull p pb rest,
    rw (e, get),
    record { valid = ground arith; full = ground arith; free = refl; out = ground arith },
  )

  -- PoolGet of a bounded pool with all its elements made takes the top of the free ones, and with
  -- none left it returns NULL and changes nothing.
  pub get-Popped :
      {p : Pool} {xs : List Ptr} {n : ℕ} (w : W) → Holds p xs n → Popped p w xs n (get h p w)
  get-Popped {p} {xs} {n} w v =
      subst (λ ys. Popped p w ys n (get h p w)) v.free
        (get-stack w p.alloc_stack n refl
          (record { valid = v.valid; full = v.full; free = refl; out = v.out }))

  return-stack :
      {p : Pool} {xs : List Ptr} {n : ℕ} (w : W) (d : Ptr) (bs : List Bucket)
      → p.empty_stack ≡ bs
      → Holds p xs (suc n)
      → (q : Pool) × (return h p w d ≡ (q, w)) × Holds q (d ∷ xs) n
  unfolding return
  return-stack w d [] e v = absurd (ground arith)
  return-stack {p} w d (pb ∷ rest) e v = (
    push p pb rest d,
    rw (e, return),
    record {
      valid = ground arith;
      full = ground arith;
      free = ap (◌∷◌ d) v.free;
      out = ground arith;
    },
  )

  -- PoolReturn of any address to a bounded pool with all its elements made and one of them out puts
  -- it on top of the free ones.
  pub return-Holds :
      {p : Pool} {xs : List Ptr} {n : ℕ} (w : W) (d : Ptr)
      → Holds p xs (suc n)
      → (q : Pool) × (return h p w d ≡ (q, w)) × Holds q (d ∷ xs) n
  return-Holds {p} w d v = return-stack w d p.empty_stack refl v
