-- ===== src/Pool/Loop.antt =====
-- The loop of PoolInit and the memory of the pool: whatever becomes of it, the pool keeps its blocks.
use mathlib.Core.Option.{some-injective}
use dubbo_service_mesh.Base.{
  ℕ, zero, suc, ◌+◌, ◌*◌, ◌%◌, ◌^◌, ◌≤◌, ◌<◌, ◌≡◌, refl, ap, subst, sym, ◌∙◌, inl, inr, true, false,
  Option, some, List, [], ◌∷◌, arith, All, ◌==◌, Bool-cases, Option-cases, Bool,
}
use dubbo_service_mesh.Pool.{Ptr, Pool, Bucket, Hooks, is_preallocated, call_init, free_pool}
use dubbo_service_mesh.Pool.Create.{stock, prealloc_ready, prealloc_bounded, preallocate}
use dubbo_service_mesh.Pool.Memory.{
  Accounts, Inside, MaybeInside, owned, Has, call_init-Has, call_cleanup-Has, free_pool-Has,
}

-- `p` has the blocks of `q`, and all its buckets and elements lie in them.
pub record Lies (q p : Pool) : Type 0 where
  pub same_block : p.data_buffer ≡ q.data_buffer
  pub same_room : p.data_buffer_size ≡ q.data_buffer_size
  pub same_buckets : p.pb_buffer ≡ q.pb_buffer
  pub same_elt : p.elt_size ≡ q.elt_size
  pub same_bound : p.max_buckets ≡ q.max_buckets
  pub filled : All (Inside q) p.alloc_stack
  pub waiting : All (MaybeInside q) p.empty_stack

-- Whether an address lies in the block depends on the block alone.
is_preallocated_same :
    (q p : Pool) (d : Ptr)
    → p.data_buffer ≡ q.data_buffer
    → p.data_buffer_size ≡ q.data_buffer_size
    → is_preallocated p d ≡ is_preallocated q d
unfolding is_preallocated
is_preallocated_same q p d e f = ground arith

All_moves :
    {P Q : Bucket → Type 0} (bs : List Bucket) → ((b : Bucket) → P b → Q b) → All P bs → All Q bs
All_moves [] f a = tt
All_moves (b ∷ bs) f a = (f b a.0, All_moves bs f a.1)

module _ {W : Type 0} (h : Hooks W) (blocks : W → List Ptr) (acc : Accounts h blocks) where
  -- PoolFree of such a pool gives back exactly its blocks.
  pub Lies-free :
      (self : Ptr) (q p : Pool) (w : W) (xs : List Ptr)
      → Lies q p
      → Has h blocks acc (owned self q xs) w
      → Has h blocks acc xs (free_pool h self p w)
  Lies-free self q p w xs l v =
      let same = λ (d : Ptr). sym (is_preallocated_same q p d l.same_block l.same_room) in
      free_pool-Has h blocks acc self p w xs
        (All_moves p.alloc_stack (λ b i. (i.0, sym (same b.datum) ∙ i.1)) l.filled)
        (All_moves p.empty_stack
          (λ b i. (
            i.0,
            elim i.1 [ inl empty ↦ inl empty | inr inside ↦ inr (sym (same b.datum) ∙ inside) ],
          ))
          l.waiting)
        (rw (l.same_block, l.same_buckets) v)

  -- After some rounds of PoolInit's loop: done or not, the pool has its own blocks, and no other
  -- block has come or gone.
  abbrev pub After : Pool → List Ptr → Option (Bool × Pool × W) → Type 0
  After q xs result = (r : Bool × Pool × W) → result ≡ some r → Lies q r.1 × Has h blocks acc xs r.2

  ready-After :
      (q p : Pool) (pb : Bucket) (rest : List Bucket) (d : Ptr) (xs : List Ptr) (r : ℕ × W)
      → Lies q p
      → p.empty_stack ≡ pb ∷ rest
      → is_preallocated q d ≡ true
      → Has h blocks acc xs r.1
      → After q xs (prealloc_ready h p pb rest d r)
  unfolding prealloc_ready stock
  ready-After q p pb rest d xs (ret, w) l e inside v (fine, p', w') got =
      let a : All (MaybeInside q) (pb ∷ rest) = subst (All (MaybeInside q)) e l.waiting in
      elim (Bool-cases (ret == 1)) [
        | inl one ↦
            let same = some-injective _ _ (rw one at got) in
            (
              subst (λ x. Lies q x) (ap (λ x. x.1) same)
                  (record {
                    same_block = l.same_block;
                    same_room = l.same_room;
                    same_buckets = l.same_buckets;
                    same_elt = l.same_elt;
                    same_bound = l.same_bound;
                    filled = ((a.0.0, inside), l.filled);
                    waiting = a.1;
                  }),
              subst (λ x. Has h blocks acc xs x) (ap (λ x. x.2) same) v,
            )
        | inr failed ↦
            let same = some-injective _ _ (rw failed at got) in
            (
              subst (λ x. Lies q x) (ap (λ x. x.1) same)
                  (record {
                    same_block = l.same_block;
                    same_room = l.same_room;
                    same_buckets = l.same_buckets;
                    same_elt = l.same_elt;
                    same_bound = l.same_bound;
                    filled = l.filled;
                    waiting = ((a.0.0, inr inside), a.1);
                  }),
              subst (λ x. Has h blocks acc xs x) (ap (λ x. x.2) same)
                  (call_cleanup-Has h blocks acc w d xs v),
            )
      ]

  bounded-After :
      (q p : Pool) (bs : List Bucket) (u : ℕ) (w : W) (xs : List Ptr)
      → p.empty_stack ≡ bs
      → Lies q p
      → u * q.elt_size < 2 ^ 32
      → is_preallocated q (q.data_buffer + u * q.elt_size) ≡ true
      → Has h blocks acc xs w
      → After q xs (prealloc_bounded h u p w)
  unfolding prealloc_bounded
  bounded-After q p [] u w xs e l small inside v r got =
      let same = some-injective _ _ (rw (e, prealloc_bounded) at got) in
      (
        subst (λ x. Lies q x) (ap (λ x. x.1) same) l,
        subst (λ x. Has h blocks acc xs x) (ap (λ x. x.2) same) v,
      )
  bounded-After q p (pb ∷ rest) u w xs e l small inside v r got =
      let d = p.data_buffer + u * p.elt_size % 2 ^ 32 in
      let whole : u * q.elt_size % 2 ^ 32 ≡ u * q.elt_size = omega arith in
      let p1 = record p { empty_stack = record pb { datum = d } ∷ rest } in
      elim (Option-cases (call_init h p1 w d)) [
        | inl stuck ↦ absurd (ground arith)
        | inr (a, done) ↦
            ready-After q p pb rest d xs a l e (rw (l.same_block, l.same_elt, whole) inside)
              (call_init-Has h blocks acc p1 w d a xs done v) r (ground arith)
      ]

  pub preallocate-After :
      (q : Pool) (k : ℕ)
      → (q.max_buckets == 0) ≡ false
      → ((j : ℕ) → j < k → j * q.elt_size < 2 ^ 32)
      → ((j : ℕ) → j < k → is_preallocated q (q.data_buffer + j * q.elt_size) ≡ true)
      → (n u : ℕ) (p : Pool) (w : W) (xs : List Ptr) → u + n ≤ k
      → Lies q p
      → Has h blocks acc xs w
      → After q xs (preallocate h n u p w)
  unfolding preallocate
  preallocate-After q k bound small room zero u p w xs le l v r got =
      let same = some-injective _ _ got in
      (
        subst (λ x. Lies q x) (ap (λ x. x.1) same) l,
        subst (λ x. Has h blocks acc xs x) (ap (λ x. x.2) same) v,
      )
  preallocate-After q k bound small room (suc n) u p w xs le l v r got =
      let limited : (p.max_buckets == 0) ≡ false = rw l.same_bound bound in
      elim (Option-cases (prealloc_bounded h u p w)) [
        | inl stuck ↦ absurd (ground arith)
        | inr (a, done) ↦
            let (l', v') =
              bounded-After q p p.empty_stack u w xs refl l (small u (omega arith))
                (room u (omega arith)) v a done in
            elim (Bool-cases a.0) [
              | inl fine ↦
                  preallocate-After q k bound small room n (u + 1) a.1 a.2 xs (omega arith) l' v' r
                    (ground arith)
              | inr failed ↦
                  let same : a ≡ r = ground arith in
                  (
                    subst (λ x. Lies q x) (ap (λ x. x.1) same) l',
                    subst (λ x. Has h blocks acc xs x) (ap (λ x. x.2) same) v',
                  )
            ]
      ]
