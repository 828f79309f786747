-- ===== src/Consumer/Added.antt =====
-- What on_etcd_service_endpoint of src/consumer.c adds to the endpoints, where all remote agents accept
-- connections and no allocation fails.
use mathlib.Core.List.{Nodup, Mem}
use mathlib.Core.Option.{some-injective}
use dubbo_service_mesh.Base.{
  ℕ, ◌+◌, ◌<◌, ◌≡◌, ◌≢◌, refl, ap, sym, ◌∙◌, subst, inl, inr, true, false, some, List, arith, ◌==◌,
  Bool-cases, Option-cases, ltb_ℤ, ℤ, pos, is_neg,
}
use dubbo_service_mesh.Pool.{Ptr, null, Pool, call_init}
use dubbo_service_mesh.Pool.Build.{free_items, Supplies, init-IsValid}
use dubbo_service_mesh.Pool.Stack.{Holds}
use dubbo_service_mesh.Pool.Keeps.{Keeps}
use dubbo_service_mesh.Pool.CreateKeeps.{init-Keeps}
use dubbo_service_mesh.Net.{Host}
use dubbo_service_mesh.Consumer.{Consumer, Handler, Endpoint, put_endpoint}
use dubbo_service_mesh.Consumer.Connect.{
  connect, init_connection_apa, cleanup_connection_apa, apa_hooks,
}
use dubbo_service_mesh.Consumer.Connect.Retry.{init_connection_apa_terminates}
use dubbo_service_mesh.Consumer.Setup.{
  num_conn_per_provider, sizeof_apa, parse_key, keep_pool, on_etcd_service_endpoint,
}

-- Every connection comes up at the first attempt, and no allocation fails.
pub record Reliable {E : Type 0} (net : Host Handler E) : Type 0 where
  pub connects : (e : E) (ip : List ℕ) (port : ℤ) → is_neg (net.tcp_connect e ip port).0 ≡ false
  pub mallocs : (e : E) (n : ℕ) → (net.malloc e n).0 ≢ null
  pub callocs : (e : E) (n m : ℕ) → (net.calloc e n m).0 ≢ null

-- An endpoint for an address: no request counted yet but the one that keeps the latency from a
-- division by zero, and a pool of distinct connection objects, all of them free.
pub record Serves (ip : List ℕ) (port : ℤ) (e : Endpoint) : Type 0 where
  pub at_ip : e.ip ≡ ip
  pub at_port : e.port ≡ port
  pub one_ms : e.total_ms ≡ pos 1
  pub one_req : e.num_reqs ≡ 1
  pub ready : Holds e.conn_pool (free_items e.conn_pool) 0
  pub distinct : Nodup (free_items e.conn_pool)
  pub real : ¬ Mem null (free_items e.conn_pool)
  pub enough : e.conn_pool.allocated ≡ num_conn_per_provider

module _ {E : Type 0} (net : Host Handler E) (tries : ℕ) where
  -- A pool that is made leaves the endpoints as they are.
  abbrev pub EndpointsAre : (ℕ → Endpoint) → ℕ → Consumer E → Type 0
  EndpointsAre f n s = (s.endpoints ≡ f) × (s.num_endpoints ≡ n)

  connect_keeps :
      (i : ℕ) (f : ℕ → Endpoint) (n : ℕ) (s : Consumer E) (d : Ptr) (r : ℕ × Consumer E)
      → init_connection_apa net tries i s d ≡ some r
      → EndpointsAre f n s
      → EndpointsAre f n r.1
  unfolding init_connection_apa
  connect_keeps i f n s d r got v =
      elim (Option-cases (connect net tries s.host (s.endpoints i).ip (s.endpoints i).port)) [
        | inl stuck ↦ absurd (ground arith)
        | inr (a, e) ↦ subst (λ x. EndpointsAre f n x.1) (some-injective _ _ (rw e at got)) v
      ]

  close_keeps :
      (f : ℕ → Endpoint) (n : ℕ) (s : Consumer E) (d : Ptr)
      → EndpointsAre f n s
      → EndpointsAre f n (cleanup_connection_apa net s d)
  unfolding cleanup_connection_apa
  close_keeps f n s d v = elim (Bool-cases (ltb_ℤ (pos 0) (s.apa d).fd)) [
    | inl up ↦ rw up v
    | inr down ↦ rw down v
  ]

  pub apa_hooks-Keeps :
      (i : ℕ) (f : ℕ → Endpoint) (n : ℕ) → Keeps (EndpointsAre f n) (apa_hooks net tries i)
  apa_hooks-Keeps i f n = record {
    alloc = λ g e w v. absurd (ground arith);
    init = λ g e w d r got v.
        connect_keeps i f n w d r (ap (λ g. g w d) (some-injective _ _ e) ∙ got) v;
    cleanup = λ g e w d v.
        subst (λ g. EndpointsAre f n (g w d)) (some-injective _ _ e) (close_keeps f n w d v);
    free = λ g e w d v. absurd (ground arith);
    malloc = λ w m v. v;
    dealloc = λ w d v. v;
    memset = λ w d m v. v;
  }

  apa_hooks-Supplies : Reliable net → 0 < tries → (i : ℕ) → Supplies (apa_hooks net tries i)
  unfolding call_init init_connection_apa connect
  apa_hooks-Supplies rel more i = record {
    mallocs = λ w n. rel.mallocs w.host n;
    callocs = λ w n m. rel.callocs w.host n m;
    readies = λ p w d. (
      _,
      init_connection_apa_terminates net 0 tries i w d
          (record {
            fails = λ j h. absurd (omega arith);
            succeeds = rel.connects w.host (w.endpoints i).ip (w.endpoints i).port;
          })
          more,
    );
  }

  -- One more endpoint for address `a`, and the others as they were.
  pub record Added (s : Consumer E) (a : List ℕ × ℤ) (t : Consumer E) : Type 0 where
    pub counted : t.num_endpoints ≡ s.num_endpoints + 1
    pub serves : Serves a.0 a.1 (t.endpoints s.num_endpoints)
    pub others : (j : ℕ) → j ≢ s.num_endpoints → t.endpoints j ≡ s.endpoints j

  -- The endpoint before its pool is made.
  abbrev pub addressed : Consumer E → List ℕ → ℤ → Consumer E
  addressed s ip port = put_endpoint s s.num_endpoints (record (s.endpoints s.num_endpoints) {
    ip = ip;
    port = port;
    total_ms = pos 1;
    num_reqs = 1;
    score = pos 0;
  })

  abbrev pub with_pool : (i : ℕ) → Pool → Consumer E → Consumer E
  with_pool i q s = record (put_endpoint s i (record (s.endpoints i) { conn_pool = q })) {
    num_endpoints = s.num_endpoints + 1;
  }

  with_pool-Added :
      (s s2 : Consumer E) (ip : List ℕ) (port : ℤ) (q : Pool)
      → EndpointsAre (addressed s ip port).endpoints s.num_endpoints s2
      → Holds q (free_items q) 0
      → Nodup (free_items q)
      → (¬ Mem null (free_items q))
      → q.allocated ≡ num_conn_per_provider
      → Added s (ip, port) (with_pool s.num_endpoints q s2)
  with_pool-Added s s2 ip port q (same, count) holds distinct real all =
      let i = s.num_endpoints in
      let self : (i == i) ≡ true = ground arith in
      record {
        counted = omega arith;
        serves =
            rw (self, same, self)
              (record {
                at_ip = refl;
                at_port = refl;
                one_ms = refl;
                one_req = refl;
                ready = holds;
                distinct = distinct;
                real = real;
                enough = all;
              });
        others =
            λ j other. let there : (j == i) ≡ false = ground arith in rw (there, same, there) refl;
      }

  pub on_etcd_service_endpoint-Added :
      (s : Consumer E) (key : List ℕ) (a : List ℕ × ℤ)
      → Reliable net
      → 0 < tries
      → parse_key key ≡ some a
      → (t : Consumer E) × (on_etcd_service_endpoint net tries s key ≡ some t) × Added s a t
  unfolding on_etcd_service_endpoint keep_pool
  on_etcd_service_endpoint-Added s key (ip, port) rel more parsed =
      let i = s.num_endpoints in
      let s1 = addressed s ip port in
      let (q, s2, made, valid, items, distinct, real, all, out, bound) =
        init-IsValid (apa_hooks net tries i) (apa_hooks-Supplies rel more i) num_conn_per_provider
          num_conn_per_provider sizeof_apa s1 (omega arith) (omega arith) (omega arith)
          (omega arith) (omega arith) refl in
      let (same, count) =
        init-Keeps (EndpointsAre s1.endpoints i) (apa_hooks net tries i)
          (apa_hooks-Keeps i s1.endpoints i) (λ w n m v. v) num_conn_per_provider
          num_conn_per_provider sizeof_apa s1 (refl, refl) (some q, s2) made in
      (
        with_pool i q s2,
        rw (parsed, made) refl,
        with_pool-Added s s2 ip port q (same, count)
            (record { valid = valid; full = all ∙ sym bound; free = refl; out = out }) distinct real
            all,
      )
