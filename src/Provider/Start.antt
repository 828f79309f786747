-- ===== src/Provider/Start.antt =====
-- The provider's agent (src/provider.c) from its start on: provider_init, then any events.
use mathlib.Core.Option.{some-injective}
use dubbo_service_mesh.Base.{ℕ, ◌≡◌, subst, inl, inr, none, some, List, arith, ℤ, Option-cases}
use dubbo_service_mesh.Pool.{Ptr}
use dubbo_service_mesh.Pool.Create
use dubbo_service_mesh.Pool.CreateKeeps.{init-Keeps}
use dubbo_service_mesh.Net.{Host, HostLaws}
use dubbo_service_mesh.Provider.{Provider, Handler, Parser, ParserLaws, ap_hooks, zero_caa}
use dubbo_service_mesh.Provider.Handlers.{caa_hooks}
use dubbo_service_mesh.Provider.Register.{register_etcd_service}
use dubbo_service_mesh.Provider.Setup.{
  num_conn_for_consumer_agent, num_conn_to_provider, keep_ap_pool, keep_caa_pool, provider_init,
}
use dubbo_service_mesh.Provider.Bounds.{AllBounded, ap_hooks-Keeps, caa_hooks-Keeps}
use dubbo_service_mesh.Provider.History.{Reach, Space, Reach-Space}

module _ {P E : Type 0} (http : Parser P (Provider P E)) (net : Host Handler E)
    (tries sizeof_caa : ℕ) (get_local_ip_addr : E → List ℕ × E) (etcd_set : E → List ℕ → E) where
  provider_init-AllBounded :
      (s t : Provider P E) (server_port dubbo_port : ℤ) (key : List ℕ)
      → AllBounded s
      → provider_init http net tries sizeof_caa get_local_ip_addr etcd_set s server_port dubbo_port
        ≡ some (key, t)
      → AllBounded t
  unfolding provider_init keep_ap_pool keep_caa_pool
  provider_init-AllBounded s t server_port dubbo_port key v got =
      elim (Option-cases (register_etcd_service get_local_ip_addr etcd_set s.host server_port)) [
        | inl long ↦ absurd (ground arith)
        | inr ((k, e), registered) ↦
            let s1 = record s { host = e; dubbo_port = dubbo_port } in
            let aps =
              Create.init (ap_hooks http net tries) num_conn_to_provider num_conn_to_provider
                sizeof_caa s1 in
            elim (Option-cases aps) [
              | inl stuck ↦ absurd (ground arith)
              | inr ((none, s2), made) ↦ absurd (ground arith)
              | inr ((some q, s2), made) ↦
                  let v2 =
                    init-Keeps AllBounded (ap_hooks http net tries) (ap_hooks-Keeps http net tries)
                      (λ w n m u. u) num_conn_to_provider num_conn_to_provider sizeof_caa s1 v
                      (some q, s2) made in
                  let s3 = record s2 { ap_pool = q } in
                  let caas =
                    Create.init (caa_hooks http net tries) num_conn_for_consumer_agent
                      num_conn_for_consumer_agent sizeof_caa s3 in
                  elim (Option-cases caas) [
                    | inl stuck ↦ absurd (ground arith)
                    | inr ((none, s4), filled) ↦ absurd (ground arith)
                    | inr ((some q', s4), filled) ↦
                        let v4 =
                          init-Keeps AllBounded (caa_hooks http net tries)
                            (caa_hooks-Keeps http net tries) (λ w n m u. u)
                            num_conn_for_consumer_agent num_conn_for_consumer_agent sizeof_caa s3 v2
                            (some q', s4) filled in
                        let end = some-injective _ _ (rw (registered, made, filled) at got) in
                        subst (λ x. AllBounded x.1) end v4
                  ]
            ]
      ]

  -- From cleared memory on, once provider_init has returned and after any history of accepted
  -- connections and handled events, every read and write of the agent stays inside the buffers of its
  -- connection: the room for read is what is left of the buffer, and the part that is written is the
  -- part of the request that has not been sent.
  pub provider_init-Space :
      (s t u : Provider P E) (server_port dubbo_port : ℤ) (key : List ℕ) (p : Ptr)
      → HostLaws net
      → ParserLaws http
      → ((q : Ptr) → s.caa q ≡ zero_caa http)
      → provider_init http net tries sizeof_caa get_local_ip_addr etcd_set s server_port dubbo_port
        ≡ some (key, t)
      → Reach http net tries t u
      → Space http net tries u p
  provider_init-Space s t u server_port dubbo_port key p laws parses clear got r =
      Reach-Space http net tries {s = t} {t = u} p laws parses
        (provider_init-AllBounded s t server_port dubbo_port key (λ q. rw clear (ground arith)) got)
        r
