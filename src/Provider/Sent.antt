-- ===== src/Provider/Sent.antt =====
-- What the provider's handlers leave of the sockets' output: aborting, registering events and
-- returning pooled objects send nothing, and change no more of a connection than its descriptor.
use dubbo_service_mesh.Base.{
  ℤ, ℕ, ◌≡◌, ◌∙◌, subst, inl, inr, none, List, ◌==◌, ==_iff, pos, Bool-cases,
}
use dubbo_service_mesh.Pool
use dubbo_service_mesh.Pool.{Ptr, null, Hooks}
use dubbo_service_mesh.Pool.Keeps.{Keeps, return-Keeps}
use dubbo_service_mesh.Net.{Host, Streams, readable, writable}
use dubbo_service_mesh.Provider.{
  ConnectionCaa, Provider, Handler, Parser, write_to_local_provider, read_from_local_provider,
}
use dubbo_service_mesh.Provider.Handlers.{
  caa_hooks, return_caa, abort_ap, abort_connection_caa, create_or_abort, watch_local,
}
use dubbo_service_mesh.Provider.Frame.{Refds}

-- Socket `at` has accepted `xs`.
abbrev pub Sent : {P E : Type 0} → (E → ℤ → List ℕ) → ℤ → List ℕ → Provider P E → Type 0
Sent sent at xs s = sent s.host at ≡ xs

-- A connection but for its descriptor.
abbrev pub body_of : {P : Type 0} → ConnectionCaa P → ConnectionCaa P
body_of c = record c { fd = pos 0 }

-- Connection `p` is `c` but for its descriptor.
abbrev pub Alike : {P : Type 0} → Ptr → ConnectionCaa P → (Ptr → ConnectionCaa P) → ℕ → Type 0
Alike p c f n = body_of (f p) ≡ body_of c

pub Alike-Refds : {P : Type 0} (p : Ptr) (c : ConnectionCaa P) → Refds {P = P} (Alike p c)
Alike-Refds p c f n q fd v = elim (Bool-cases (p == q)) [
  | inl here ↦ rw here (subst (λ r. body_of (f r) ≡ body_of c) ((==_iff p q).0 here) v)
  | inr there ↦ rw there v
]

module _ {P E : Type 0} (http : Parser P (Provider P E)) (net : Host Handler E) (tries : ℕ)
    (sent : E → ℤ → List ℕ) (str : Streams net sent) where
  -- PoolReturn never calls Init.
  abbrev quiet : Hooks (Provider P E)
  quiet = record (caa_hooks http net tries) { init = none; cleanup = none }

  quiet-Sent : (at : ℤ) (xs : List ℕ) → Keeps (Sent sent at xs) quiet
  quiet-Sent at xs = record {
    alloc = λ f e. cc;
    init = λ f e. cc;
    cleanup = λ f e. cc;
    free = λ f e. cc;
    malloc = λ w n v. str.malloc_keeps w.host n at ∙ v;
    dealloc = λ w d v. str.dealloc_keeps w.host d at ∙ v;
    memset = λ w d n v. v;
  }

  return_caa-Sent :
      (at : ℤ) (xs : List ℕ) (s : Provider P E) (p : Ptr)
      → Sent sent at xs s
      → Sent sent at xs (return_caa http net tries s p)
  unfolding return_caa Pool.return Pool.call_cleanup
  return_caa-Sent at xs s p v =
      return-Keeps (Sent sent at xs) quiet (quiet-Sent at xs) s.caa_pool s p v

  abort_ap-Sent :
      (at : ℤ) (xs : List ℕ) (s : Provider P E) (a : Ptr)
      → Sent sent at xs s
      → Sent sent at xs (abort_ap http net tries s a)
  unfolding abort_ap
  abort_ap-Sent at xs s a v = elim (Bool-cases (a == null)) [
    | inl absent ↦ rw absent v
    | inr present ↦ rw (present, str.close_keeps, str.delete_keeps) v
  ]

  pub abort-Sent :
      (at : ℤ) (xs : List ℕ) (s : Provider P E) (p : Ptr)
      → Sent sent at xs s
      → Sent sent at xs (abort_connection_caa http net tries s p)
  unfolding abort_connection_caa
  abort-Sent at xs s p v =
      return_caa-Sent at xs _ p
        (abort_ap-Sent at xs _ (s.caa p).conn_ap (rw (str.close_keeps, str.delete_keeps) v))

  pub create-Sent :
      (at : ℤ) (xs : List ℕ) (s : Provider P E) (fd : ℤ) (mask : ℕ) (f : Handler) (p : Ptr)
      → Sent sent at xs s
      → Sent sent at xs (create_or_abort http net tries s fd mask f p)
  unfolding create_or_abort
  create-Sent at xs s fd mask f p v =
      let kept = str.create_keeps s.host fd at mask f p ∙ v in
      elim (Bool-cases (net.create_file_event s.host fd mask f p).0) [
        | inl fine ↦ rw fine kept
        | inr error ↦ rw error (
            abort-Sent at xs (record s { host = (net.create_file_event s.host fd mask f p).1 }) p
              kept)
      ]

  pub watch-Sent :
      (at : ℤ) (xs : List ℕ) (s : Provider P E) (p a : Ptr)
      → Sent sent at xs s
      → Sent sent at xs (watch_local http net tries s p a)
  unfolding watch_local
  watch-Sent at xs s p a v =
      let s1 = create_or_abort http net tries s (s.ap a).fd writable write_to_local_provider p in
      create-Sent at xs s1 (s1.ap a).fd readable read_from_local_provider p
        (create-Sent at xs s (s.ap a).fd writable write_to_local_provider p v)
