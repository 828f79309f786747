-- ===== src/Consumer/Start.antt =====
-- The consumer's agent (src/consumer.c) from its start on: consumer_init, then any events.
use mathlib.Core.Option.{some-injective}
use dubbo_service_mesh.Base.{
  ℕ, ◌≡◌, ap, ◌∙◌, subst, inl, inr, none, some, List, [], ◌∷◌, arith, pos, ltb_ℤ, ◌==◌, Bool-cases,
  Option-cases,
}
use dubbo_service_mesh.Pool.{Ptr}
use dubbo_service_mesh.Pool.Create
use dubbo_service_mesh.Pool.Keeps.{Keeps}
use dubbo_service_mesh.Pool.CreateKeeps.{init-Keeps}
use dubbo_service_mesh.Net.{Host, HostLaws}
use dubbo_service_mesh.Consumer.{Consumer, Handler, zero_ca, ca_hooks}
use dubbo_service_mesh.Consumer.Connect.{
  connect, init_connection_apa, cleanup_connection_apa, apa_hooks,
}
use dubbo_service_mesh.Consumer.Setup.{
  num_conn_for_consumer, num_conn_per_provider, sizeof_ca, sizeof_apa, parse_key, keep_pool,
  keep_ca_pool, on_etcd_service_endpoint, visit, discover_etcd_services, consumer_init,
}
use dubbo_service_mesh.Consumer.Bounds.{AllBounded, ca_hooks-Keeps}
use dubbo_service_mesh.Consumer.Added.{addressed}
use dubbo_service_mesh.Consumer.History.{Reach, Room, Reach-Room}

module _ {E : Type 0} (net : Host Handler E) (tries : ℕ) where
  connect-AllBounded :
      (i : ℕ) (s : Consumer E) (d : Ptr) (r : ℕ × Consumer E)
      → init_connection_apa net tries i s d ≡ some r
      → AllBounded s
      → AllBounded r.1
  unfolding init_connection_apa
  connect-AllBounded i s d r got v =
      elim (Option-cases (connect net tries s.host (s.endpoints i).ip (s.endpoints i).port)) [
        | inl stuck ↦ absurd (ground arith)
        | inr (a, e) ↦ subst (λ x. AllBounded x.1) (some-injective _ _ (rw e at got)) v
      ]

  close-AllBounded :
      (s : Consumer E) (d : Ptr) → AllBounded s → AllBounded (cleanup_connection_apa net s d)
  unfolding cleanup_connection_apa
  close-AllBounded s d v = elim (Bool-cases (ltb_ℤ (pos 0) (s.apa d).fd)) [
    | inl up ↦ rw up v
    | inr down ↦ rw down v
  ]

  apa_hooks-AllBounded : (i : ℕ) → Keeps AllBounded (apa_hooks net tries i)
  apa_hooks-AllBounded i = record {
    alloc = λ g e. cc;
    init = λ g e w d r got v.
        connect-AllBounded i w d r (ap (λ g. g w d) (some-injective _ _ e) ∙ got) v;
    cleanup = λ g e w d v.
        subst (λ g. AllBounded (g w d)) (some-injective _ _ e) (close-AllBounded w d v);
    free = λ g e. cc;
    malloc = λ w m v. v;
    dealloc = λ w d v. v;
    memset = λ w d m v. v;
  }

  on_etcd_service_endpoint-AllBounded :
      (s t : Consumer E) (key : List ℕ)
      → on_etcd_service_endpoint net tries s key ≡ some t
      → AllBounded s
      → AllBounded t
  unfolding on_etcd_service_endpoint keep_pool
  on_etcd_service_endpoint-AllBounded s t key got v = elim (Option-cases (parse_key key)) [
    | inl bad ↦ absurd (ground arith)
    | inr ((ip, port), parsed) ↦
        let i = s.num_endpoints in
        let s1 = addressed net tries s ip port in
        let pool =
          Create.init (apa_hooks net tries i) num_conn_per_provider num_conn_per_provider sizeof_apa
            s1 in
        elim (Option-cases pool) [
          | inl stuck ↦ absurd (ground arith)
          | inr ((none, s2), made) ↦ absurd (ground arith)
          | inr ((some q, s2), made) ↦
              let v2 =
                init-Keeps AllBounded (apa_hooks net tries i) (apa_hooks-AllBounded i)
                  (λ w n m u. u) num_conn_per_provider num_conn_per_provider sizeof_apa s1 v
                  (some q, s2) made in
              subst (λ x. AllBounded x) (some-injective _ _ (rw (parsed, made) at got)) v2
        ]
  ]

  visit-AllBounded :
      (keys : List (List ℕ)) (s t : Consumer E)
      → visit net tries keys s ≡ some t
      → AllBounded s
      → AllBounded t
  unfolding visit
  visit-AllBounded [] s t got v = subst (λ x. AllBounded x) (some-injective _ _ got) v
  visit-AllBounded (key ∷ keys) s t got v =
      elim (Option-cases (on_etcd_service_endpoint net tries s key)) [
        | inl stuck ↦ absurd (ground arith)
        | inr (u, one) ↦
            visit-AllBounded keys u t (ground arith)
              (on_etcd_service_endpoint-AllBounded s u key one v)
      ]

  consumer_init-AllBounded :
      (get_directory : E → List (List ℕ) × (ℕ × E)) (s t : Consumer E)
      → consumer_init net tries get_directory s ≡ some t
      → AllBounded s
      → AllBounded t
  unfolding consumer_init discover_etcd_services keep_ca_pool
  consumer_init-AllBounded get_directory s t got v =
      let s0 = record s { host = (get_directory s.host).1.1 } in
      elim (Option-cases (visit net tries (get_directory s.host).0 s0)) [
        | inl stuck ↦ absurd (ground arith)
        | inr (s1, found) ↦ elim (Bool-cases ((get_directory s.host).1.0 == 0)) [
          | inr failed ↦ absurd (ground arith)
          | inl fine ↦
              let v1 = visit-AllBounded (get_directory s.host).0 s0 s1 found v in
              let pool =
                Create.init (ca_hooks net) num_conn_for_consumer num_conn_for_consumer sizeof_ca
                  s1 in
              elim (Option-cases pool) [
                | inl stuck ↦ absurd (ground arith)
                | inr ((none, s2), made) ↦ absurd (ground arith)
                | inr ((some q, s2), made) ↦
                    let v2 =
                      init-Keeps AllBounded (ca_hooks net) (ca_hooks-Keeps net tries) (λ w n m u. u)
                        num_conn_for_consumer num_conn_for_consumer sizeof_ca s1 v1 (some q, s2)
                        made in
                    subst (λ x. AllBounded x) (some-injective _ _ (rw (found, fine, made) at got))
                      v2
              ]
        ]
      ]

  -- From cleared memory on, once consumer_init has returned and after any history of accepted
  -- connections and handled events, every read and write of the agent stays inside the buffers of its
  -- connection: the room for read is what is left of the buffer, and what is written is what has been
  -- read and not sent, in both directions.
  pub consumer_init-Room :
      (get_directory : E → List (List ℕ) × (ℕ × E)) (s t u : Consumer E) (p : Ptr)
      → HostLaws net
      → ((q : Ptr) → s.ca q ≡ zero_ca)
      → consumer_init net tries get_directory s ≡ some t
      → Reach net tries t u
      → Room net tries u p
  consumer_init-Room get_directory s t u p laws clear got r =
      Reach-Room net tries {s = t} {t = u} p laws
        (consumer_init-AllBounded get_directory s t got (λ q. rw clear (omega arith))) r
