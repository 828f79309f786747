-- ===== src/Pool/Keeps.antt =====
-- What the hooks of a pool keep of the world, PoolGet and PoolReturn keep.
use dubbo_service_mesh.Base.{
  ℕ, ◌≡◌, refl, subst, inl, inr, ◌||◌, Option, some, List, [], ◌∷◌, arith, ltb, ◌==◌, Bool-cases,
  Option-cases,
}
use dubbo_service_mesh.Pool.{
  Ptr, null, Pool, Bucket, Hooks, is_preallocated, call_init, call_cleanup, call_free, call_alloc,
  free_unless_preallocated, got_fresh, get_fresh, get, return,
}

pub record Keeps {W : Type 0} (P : W → Type 0) (h : Hooks W) : Type 0 where
  pub alloc : (f : W → Ptr × W) → h.alloc ≡ some f → (w : W) → P w → P (f w).1
  pub init :
      (f : W → Ptr → Option (ℕ × W))
      → h.init ≡ some f
      → (w : W) (d : Ptr) (r : ℕ × W) → f w d ≡ some r
      → P w
      → P r.1
  pub cleanup : (f : W → Ptr → W) → h.cleanup ≡ some f → (w : W) (d : Ptr) → P w → P (f w d)
  pub free : (f : W → Ptr → W) → h.free ≡ some f → (w : W) (d : Ptr) → P w → P (f w d)
  pub malloc : (w : W) (n : ℕ) → P w → P (h.malloc w n).1
  pub dealloc : (w : W) (d : Ptr) → P w → P (h.dealloc w d)
  pub memset : (w : W) (d : Ptr) (n : ℕ) → P w → P (h.memset w d n)

module _ {W : Type 0} (P : W → Type 0) (h : Hooks W) (k : Keeps P h) where
  pub call_alloc-Keeps : (p : Pool) (w : W) → P w → P (call_alloc h p w).1
  unfolding call_alloc
  call_alloc-Keeps p w v = elim (Option-cases h.alloc) [
    | inl e ↦ rw (e, call_alloc) (k.malloc w p.elt_size v)
    | inr (f, e) ↦ rw (e, call_alloc) (k.alloc f e w v)
  ]

  pub call_init-Keeps :
      (p : Pool) (w : W) (d : Ptr) (r : ℕ × W) → call_init h p w d ≡ some r → P w → P r.1
  unfolding call_init
  call_init-Keeps p w d r got v = elim (Option-cases h.init) [
    | inl e ↦ subst (λ x. P x) (ground arith) (k.memset w d p.elt_size v)
    | inr (f, e) ↦ k.init f e w d r (ground arith) v
  ]

  pub call_cleanup-Keeps : (w : W) (d : Ptr) → P w → P (call_cleanup h w d)
  unfolding call_cleanup
  call_cleanup-Keeps w d v = elim (Option-cases h.cleanup) [
    | inl e ↦ rw (e, call_cleanup) v
    | inr (f, e) ↦ rw (e, call_cleanup) (k.cleanup f e w d v)
  ]

  pub call_free-Keeps : (w : W) (d : Ptr) → P w → P (call_free h w d)
  unfolding call_free
  call_free-Keeps w d v = elim (Option-cases h.free) [
    | inl e ↦ rw (e, call_free) (k.dealloc w d v)
    | inr (f, e) ↦ rw (e, call_free) (k.free f e w d v)
  ]

  got_fresh-Keeps :
      (p : Pool) (item : Ptr) (r : ℕ × W) (t : Ptr × Pool × W)
      → got_fresh h p item r ≡ some t
      → P r.1
      → P t.2
  unfolding got_fresh
  got_fresh-Keeps p item (ret, w) t got v = elim (Bool-cases (ret == 1)) [
    | inl e ↦ subst (λ x. P x) (ground arith) v
    | inr e ↦ subst (λ x. P x) (ground arith) (call_free-Keeps _ item (call_cleanup-Keeps w item v))
  ]

  get_fresh-Keeps : (p : Pool) (w : W) (t : Ptr × Pool × W) → get_fresh h p w ≡ some t → P w → P t.2
  unfolding get_fresh
  get_fresh-Keeps p w t got v =
      let item = (call_alloc h p w).0 in
      let w' = (call_alloc h p w).1 in
      let v' = call_alloc-Keeps p w v in
      elim (Bool-cases (p.max_buckets == 0 || ltb p.allocated p.max_buckets)) [
        | inr full ↦ subst (λ x. P x) (ground arith) v
        | inl more ↦ elim (Bool-cases (item == null)) [
          | inl none_left ↦ subst (λ x. P x) (ground arith) v'
          | inr fine ↦ elim (Option-cases (call_init h p w' item)) [
            | inl stuck ↦ absurd (ground arith)
            | inr (r, ready) ↦
                got_fresh-Keeps p item r t (ground arith) (call_init-Keeps p w' item r ready v')
          ]
        ]
      ]

  get_stack-Keeps :
      (p : Pool) (bs : List Bucket) (w : W) (t : Ptr × Pool × W)
      → p.alloc_stack ≡ bs
      → get h p w ≡ some t
      → P w
      → P t.2
  unfolding get
  get_stack-Keeps p [] w t e got v = get_fresh-Keeps p w t (rw (e, get) at got) v
  get_stack-Keeps p (pb ∷ rest) w t e got v = subst (λ x. P x) (ground arith) v

  -- PoolGet keeps what its hooks keep.
  pub get-Keeps : (p : Pool) (w : W) (t : Ptr × Pool × W) → get h p w ≡ some t → P w → P t.2
  get-Keeps p w t got v = get_stack-Keeps p p.alloc_stack w t refl got v

  return_stack-Keeps :
      (p : Pool) (bs : List Bucket) (w : W) (d : Ptr)
      → p.empty_stack ≡ bs
      → P w
      → P (return h p w d).1
  unfolding return free_unless_preallocated
  return_stack-Keeps p [] w d e v =
      rw (e, return)
        (elim (Bool-cases (is_preallocated p d)) [
          | inl inside ↦ rw inside (call_cleanup-Keeps w d v)
          | inr outside ↦ rw outside (call_free-Keeps _ d (call_cleanup-Keeps w d v))
        ])
  return_stack-Keeps p (pb ∷ rest) w d e v = rw (e, return) v

  -- So does PoolReturn.
  pub return-Keeps : (p : Pool) (w : W) (d : Ptr) → P w → P (return h p w d).1
  return-Keeps p w d v = return_stack-Keeps p p.empty_stack w d refl v
