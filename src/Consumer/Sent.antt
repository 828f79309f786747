-- ===== src/Consumer/Sent.antt =====
-- What the consumer's handlers leave of the sockets' output: aborting, registering events, taking and
-- returning pooled objects send nothing.
use mathlib.Core.Option.{some-injective}
use dubbo_service_mesh.Base.{
  ℤ, ℕ, ◌≡◌, ◌∙◌, subst, inl, inr, none, List, ◌==◌, ltb_ℤ, pos, Bool-cases,
}
use dubbo_service_mesh.Pool
use dubbo_service_mesh.Pool.{Ptr, null, Hooks}
use dubbo_service_mesh.Pool.Keeps.{Keeps, return-Keeps}
use dubbo_service_mesh.Net.{Host, Streams, both_ways}
use dubbo_service_mesh.Consumer.{Consumer, Handler, ca_hooks}
use dubbo_service_mesh.Consumer.Connect.{apa_hooks, cleanup_connection_apa}
use dubbo_service_mesh.Consumer.Handlers.{
  return_ca, abort_apa, abort_connection_ca, release_apa, delete_events, create_or_abort,
}

-- Socket `at` has accepted `xs`.
abbrev pub Sent : {E : Type 0} → (E → ℤ → List ℕ) → ℤ → List ℕ → Consumer E → Type 0
Sent sent at xs s = sent s.host at ≡ xs

module _ {E : Type 0} (net : Host Handler E) (tries : ℕ) (sent : E → ℤ → List ℕ)
    (str : Streams net sent) where
  pub ca_hooks-Sent : (at : ℤ) (xs : List ℕ) → Keeps (Sent sent at xs) (ca_hooks net)
  ca_hooks-Sent at xs = record {
    alloc = λ f e. cc;
    init = λ f e. cc;
    cleanup = λ f e. cc;
    free = λ f e. cc;
    malloc = λ w n v. str.malloc_keeps w.host n at ∙ v;
    dealloc = λ w d v. str.dealloc_keeps w.host d at ∙ v;
    memset = λ w d n v. v;
  }

  pub cleanup-Sent :
      (at : ℤ) (xs : List ℕ) (s : Consumer E) (a : Ptr)
      → Sent sent at xs s
      → Sent sent at xs (cleanup_connection_apa net s a)
  unfolding cleanup_connection_apa
  cleanup-Sent at xs s a v = elim (Bool-cases (ltb_ℤ (pos 0) (s.apa a).fd)) [
    | inl live ↦ rw (live, str.close_keeps) v
    | inr dead ↦ rw dead v
  ]

  -- PoolReturn never calls Init.
  abbrev quiet : ℕ → Hooks (Consumer E)
  quiet i = record (apa_hooks net tries i) { init = none }

  quiet-Sent : (i : ℕ) (at : ℤ) (xs : List ℕ) → Keeps (Sent sent at xs) (quiet i)
  quiet-Sent i at xs = record {
    alloc = λ f e. cc;
    init = λ f e. cc;
    cleanup = λ f e w d v.
        subst (λ g. Sent sent at xs (g w d)) (some-injective _ _ e) (cleanup-Sent at xs w d v);
    free = λ f e. cc;
    malloc = λ w n v. str.malloc_keeps w.host n at ∙ v;
    dealloc = λ w d v. str.dealloc_keeps w.host d at ∙ v;
    memset = λ w d n v. v;
  }

  pub release_apa-Sent :
      (at : ℤ) (xs : List ℕ) (s : Consumer E) (p : Ptr)
      → Sent sent at xs s
      → Sent sent at xs (release_apa net tries s p)
  unfolding release_apa Pool.return
  release_apa-Sent at xs s p v =
      let a = (s.ca p).conn_apa in
      let i = (s.apa a).endpoint in
      elim (Bool-cases (a == null)) [
        | inl absent ↦ rw absent v
        | inr present ↦ rw present (
            return-Keeps (Sent sent at xs) (quiet i) (quiet-Sent i at xs) (s.endpoints i).conn_pool
              (delete_events net tries s (s.apa a).fd both_ways) a (rw str.delete_keeps v))
      ]

  pub abort_apa-Sent :
      (at : ℤ) (xs : List ℕ) (s : Consumer E) (a : Ptr)
      → Sent sent at xs s
      → Sent sent at xs (abort_apa net tries s a)
  unfolding abort_apa
  abort_apa-Sent at xs s a v = elim (Bool-cases (a == null)) [
    | inl absent ↦ rw absent v
    | inr present ↦ rw (present, str.close_keeps, str.delete_keeps) v
  ]

  pub abort-Sent :
      (at : ℤ) (xs : List ℕ) (s : Consumer E) (p : Ptr)
      → Sent sent at xs s
      → Sent sent at xs (abort_connection_ca net tries s p)
  unfolding abort_connection_ca return_ca
  abort-Sent at xs s p v =
      return-Keeps (Sent sent at xs) (ca_hooks net) (ca_hooks-Sent at xs) _ _ p
        (abort_apa-Sent at xs _ (s.ca p).conn_apa (rw (str.close_keeps, str.delete_keeps) v))

  pub create-Sent :
      (at : ℤ) (xs : List ℕ) (s : Consumer E) (fd : ℤ) (mask : ℕ) (f : Handler) (p : Ptr)
      → Sent sent at xs s
      → Sent sent at xs (create_or_abort net tries s fd mask f p)
  unfolding create_or_abort
  create-Sent at xs s fd mask f p v =
      let kept = str.create_keeps s.host fd at mask f p ∙ v in
      elim (Bool-cases (net.create_file_event s.host fd mask f p).0) [
        | inl fine ↦ rw fine kept
        | inr error ↦ rw error (
            abort-Sent at xs (record s { host = (net.create_file_event s.host fd mask f p).1 }) p
              kept)
      ]
