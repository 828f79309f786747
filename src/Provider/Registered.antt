-- ===== src/Provider/Registered.antt =====
-- The key that a provider's agent has registered once provider_init of src/provider.c has returned.
use mathlib.Core.Option.{some-injective}
use dubbo_service_mesh.Base.{
  ℕ, ◌≡◌, ◌∙◌, ap, inl, inr, some, Option, List, ℤ, Bool-cases, Option-cases, arith, ◌>>=◌, ltb,
  length,
}
use dubbo_service_mesh.Net.{Host}
use dubbo_service_mesh.Provider.{Handler, Provider, Parser, ap_hooks}
use dubbo_service_mesh.Provider.Handlers.{caa_hooks}
use dubbo_service_mesh.Pool.Create.{init}
use dubbo_service_mesh.Provider.Register.{service_key, register_etcd_service, etcd_key_size}
use dubbo_service_mesh.Provider.Setup.{
  num_conn_to_provider, num_conn_for_consumer_agent, provider_init, keep_ap_pool, keep_caa_pool,
}

module _ {P E : Type 0} (http : Parser P (Provider P E)) (net : Host Handler E)
    (tries sizeof_caa : ℕ) (get_local_ip_addr : E → List ℕ × E) (etcd_set : E → List ℕ → E) where
  register_etcd_service-key :
      (e : E) (port : ℤ) (r : List ℕ × E)
      → register_etcd_service get_local_ip_addr etcd_set e port ≡ some r
      → service_key (get_local_ip_addr e).0 port ≡ r.0
  unfolding register_etcd_service
  register_etcd_service-key e port r got =
      let key = service_key (get_local_ip_addr e).0 port in
      elim (Bool-cases (ltb (length key) etcd_key_size)) [
        | inl fits ↦ ap (λ x. x.0) (some-injective _ _ (rw fits at got))
        | inr long ↦ absurd (ground arith)
      ]

  chain_key :
      (k : List ℕ) (made : Option (Provider P E)) (fill : Provider P E → Option (Provider P E))
      (r : List ℕ × Provider P E)
      → (made >>= λ s. fill s >>= λ t. some (k, t)) ≡ some r
      → k ≡ r.0
  chain_key k made fill r got = elim (Option-cases made) [
    | inl nothing ↦ absurd (cc)
    | inr (s, one) ↦ elim (Option-cases (fill s)) [
      | inl nothing ↦ absurd (cc)
      | inr (t, two) ↦ ap (λ x. x.0) (some-injective _ _ (rw (one, two) at got))
    ]
  ]

  pub provider_init-service_key :
      (s t : Provider P E) (server_port dubbo_port : ℤ) (key : List ℕ)
      → provider_init http net tries sizeof_caa get_local_ip_addr etcd_set s server_port dubbo_port
        ≡ some (key, t)
      → service_key (get_local_ip_addr s.host).0 server_port ≡ key
  unfolding provider_init
  provider_init-service_key s t server_port dubbo_port key got =
      elim (Option-cases (register_etcd_service get_local_ip_addr etcd_set s.host server_port)) [
        | inl long ↦ absurd (cc)
        | inr (r, registered) ↦
            let s1 = record s { host = r.1; dubbo_port = dubbo_port } in
            register_etcd_service-key s.host server_port r registered
            ∙ chain_key r.0
                (init (ap_hooks http net tries) num_conn_to_provider num_conn_to_provider sizeof_caa
                    s1
                  >>= keep_ap_pool http net tries sizeof_caa get_local_ip_addr etcd_set)
                (λ s2.
                  init (caa_hooks http net tries) num_conn_for_consumer_agent
                    num_conn_for_consumer_agent sizeof_caa s2
                  >>= keep_caa_pool http net tries sizeof_caa get_local_ip_addr etcd_set)
                (key, t) (rw registered at got)
      ]
