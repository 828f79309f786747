-- ===== src/Consumer/Frame.antt =====
-- What the handlers do beyond the buffers: aborting, registering events, taking and returning pooled
-- objects. All this touches only `fd` and `conn_apa` of a connection.
use mathlib.Core.Option.{some-injective}
use dubbo_service_mesh.Base.{
  ℤ, ℕ, ◌≡◌, subst, sym, inl, inr, some, arith, ◌==◌, ltb_ℤ, pos, negsuc, Bool-cases, Option-cases,
}
use dubbo_service_mesh.Pool
use dubbo_service_mesh.Pool.{Ptr, null, Pool, Hooks}
use dubbo_service_mesh.Pool.Keeps.{Keeps, get-Keeps, return-Keeps}
use dubbo_service_mesh.Net.{Host, readable, writable, both_ways, update}
use dubbo_service_mesh.Consumer.{
  ConnectionCa, Consumer, Handler, put_ca, put_endpoint, ca_hooks, write_to_remote_agent,
  read_from_remote_agent,
}
use dubbo_service_mesh.Consumer.Balance.{get_endpoint_min_latency}
use dubbo_service_mesh.Consumer.Connect.{
  apa_hooks, connect, init_connection_apa, cleanup_connection_apa,
}
use dubbo_service_mesh.Consumer.Handlers.{
  delete_events, create_or_abort, return_ca, abort_apa, abort_connection_ca, watch_remote, take_apa,
  pick_apa, consumer_closed, release_apa,
}

-- A property of the connections that does not look at `fd` and `conn_apa`.
abbrev pub Rewires : ((Ptr → ConnectionCa) → Type 0) → Type 0
Rewires P =
    (f : Ptr → ConnectionCa) (p : Ptr) (fd : ℤ) (a : Ptr)
    → P f
    → P (update f p (record (f p) { fd = fd; conn_apa = a }))

module _ {E : Type 0} (net : Host Handler E) (tries : ℕ) (P : (Ptr → ConnectionCa) → Type 0)
    (rewire : Rewires P) where
  abbrev pub On : Consumer E → Type 0
  On s = P s.ca

  init_connection_apa-On :
      (i : ℕ) (s : Consumer E) (a : Ptr) (r : ℕ × Consumer E)
      → init_connection_apa net tries i s a ≡ some r
      → On s
      → On r.1
  unfolding init_connection_apa
  init_connection_apa-On i s a r got v =
      elim (Option-cases (connect net tries s.host (s.endpoints i).ip (s.endpoints i).port)) [
        | inl e ↦ absurd (ground arith)
        | inr (c, e) ↦ let same : s.ca ≡ r.1.ca = ground arith in subst P same v
      ]

  cleanup_connection_apa-On :
      (s : Consumer E) (a : Ptr) → On s → On (cleanup_connection_apa net s a)
  unfolding cleanup_connection_apa
  cleanup_connection_apa-On s a v = elim (Bool-cases (ltb_ℤ (pos 0) (s.apa a).fd)) [
    | inl live ↦ rw live v
    | inr dead ↦ rw dead v
  ]

  apa_hooks-Keeps : (i : ℕ) → Keeps On (apa_hooks net tries i)
  apa_hooks-Keeps i = record {
    alloc = λ f e. cc;
    init = λ f e w d r got v.
        init_connection_apa-On i w d r
          (subst (λ g. g w d ≡ some r) (some-injective _ _ (sym e)) got) v;
    cleanup = λ f e w d v.
        subst (λ g. On (g w d)) (some-injective _ _ e) (cleanup_connection_apa-On w d v);
    free = λ f e. cc;
    malloc = λ w n v. v;
    dealloc = λ w d v. v;
    memset = λ w d n v. v;
  }

  -- PoolReturn never calls Init, so the memset of the pool of connections plays no part in it.
  abbrev quiet : Hooks (Consumer E)
  quiet = record (ca_hooks net) { memset = λ s p n. s }

  quiet-Keeps : Keeps On quiet
  quiet-Keeps = record {
    alloc = λ f e. cc;
    init = λ f e. cc;
    cleanup = λ f e. cc;
    free = λ f e. cc;
    malloc = λ w n v. v;
    dealloc = λ w d v. v;
    memset = λ w d n v. v;
  }

  pub return_ca-On : (s : Consumer E) (p : Ptr) → On s → On (return_ca net tries s p)
  unfolding return_ca Pool.return
  return_ca-On s p v = return-Keeps On quiet quiet-Keeps s.ca_pool s p v

  abort_apa-On : (s : Consumer E) (a : Ptr) → On s → On (abort_apa net tries s a)
  unfolding abort_apa
  abort_apa-On s a v = elim (Bool-cases (a == null)) [
    | inl absent ↦ rw absent v
    | inr present ↦ rw present v
  ]

  pub abort-On : (s : Consumer E) (p : Ptr) → On s → On (abort_connection_ca net tries s p)
  unfolding abort_connection_ca
  abort-On s p v =
      let c = s.ca p in
      return_ca-On _ p (abort_apa-On _ c.conn_apa (rewire s.ca p (negsuc 0) c.conn_apa v))

  pub create-On :
      (s : Consumer E) (fd : ℤ) (mask : ℕ) (f : Handler) (p : Ptr)
      → On s
      → On (create_or_abort net tries s fd mask f p)
  unfolding create_or_abort
  create-On s fd mask f p v = elim (Bool-cases (net.create_file_event s.host fd mask f p).0) [
    | inl fine ↦ rw fine v
    | inr error ↦
        rw error (abort-On (record s { host = (net.create_file_event s.host fd mask f p).1 }) p v)
  ]

  pub watch-On : (s : Consumer E) (p a : Ptr) → On s → On (watch_remote net tries s p a)
  unfolding watch_remote
  watch-On s p a v =
      let s1 = create_or_abort net tries s (s.apa a).fd writable write_to_remote_agent p in
      create-On s1 (s1.apa a).fd readable read_from_remote_agent p
        (create-On s (s.apa a).fd writable write_to_remote_agent p v)

  take_apa-On : (s : Consumer E) (p a : Ptr) → On s → On (take_apa net tries s p a)
  unfolding take_apa
  take_apa-On s p a v = elim (Bool-cases (a == null)) [
    | inl absent ↦ rw absent (abort-On s p v)
    | inr present ↦ rw present (
        watch-On (put_ca s p (record (s.ca p) { conn_apa = a })) p a
          (rewire s.ca p (s.ca p).fd a v))
  ]

  pub pick_apa-On : (s t : Consumer E) (p : Ptr) → pick_apa net tries s p ≡ some t → On s → On t
  unfolding pick_apa
  pick_apa-On s t p got v =
      elim (Option-cases (get_endpoint_min_latency s.endpoints s.num_endpoints)) [
        | inl e ↦ absurd (ground arith)
        | inr (i, chosen) ↦
            let pool = (s.endpoints i).conn_pool in
            elim (Option-cases (Pool.get (apa_hooks net tries i) pool s)) [
              | inl e ↦ absurd (ground arith)
              | inr (r, taken) ↦
                  let w =
                    get-Keeps On (apa_hooks net tries i) (apa_hooks-Keeps i) pool s r taken v in
                  let s' = put_endpoint r.2 i (record ((r.2).endpoints i) { conn_pool = r.1 }) in
                  let same : take_apa net tries s' p r.0 ≡ t = ground arith in
                  subst (λ x. On x) same (take_apa-On s' p r.0 w)
            ]
      ]

  pub consumer_closed-On :
      (s : Consumer E) (p : Ptr) (fd : ℤ) → On s → On (consumer_closed net tries s p fd)
  unfolding consumer_closed
  consumer_closed-On s p fd v =
      let s1 = return_ca net tries (delete_events net tries s fd both_ways) p in
      let v1 = return_ca-On (delete_events net tries s fd both_ways) p v in
      rewire s1.ca p (negsuc 0) (s1.ca p).conn_apa v1

  pub release_apa-On : (s : Consumer E) (p : Ptr) → On s → On (release_apa net tries s p)
  unfolding release_apa
  release_apa-On s p v =
      let a = (s.ca p).conn_apa in
      elim (Bool-cases (a == null)) [
        | inl absent ↦ rw absent v
        | inr present ↦ rw present (
            let s1 = delete_events net tries s (s.apa a).fd both_ways in
            let i = (s.apa a).endpoint in
            let hooks = apa_hooks net tries i in
            let pool = (s.endpoints i).conn_pool in
            let r = Pool.return hooks pool s1 a in
            let w = return-Keeps On hooks (apa_hooks-Keeps i) pool s1 a v in
            rewire (r.1).ca p ((r.1).ca p).fd null w)
      ]
