-- ===== src/Provider/Setup.antt =====
-- The start of the provider's agent (src/provider.c): provider_init. get_local_ip_addr, which is in
-- Net.Interface, and the etcd client are arguments.
use dubbo_service_mesh.Base.{ℕ, ℤ, Option, none, some, List, ◌>>=◌}
use dubbo_service_mesh.Pool.{Pool}
use dubbo_service_mesh.Pool.Create
use dubbo_service_mesh.Net.{Host}
use dubbo_service_mesh.Provider.{Provider, Handler, Parser, ap_hooks}
use dubbo_service_mesh.Provider.Handlers.{caa_hooks}
use dubbo_service_mesh.Provider.Register.{register_etcd_service}

-- NUM_CONN_FOR_CONSUMER_AGENT and NUM_CONN_TO_PROVIDER
abbrev pub num_conn_for_consumer_agent : ℕ
num_conn_for_consumer_agent = 512

abbrev pub num_conn_to_provider : ℕ
num_conn_to_provider = 512

-- `sizeof_caa` is sizeof(connection_caa_t), which has an http_parser in it; the source gives it for
-- the elements of both pools.
module _ {P E : Type 0} (http : Parser P (Provider P E)) (net : Host Handler E)
    (tries sizeof_caa : ℕ) (get_local_ip_addr : E → List ℕ × E) (etcd_set : E → List ℕ → E) where
  -- A pool that could not be made is NULL, which PoolPrintSaturation reads.
  unfoldable pub keep_ap_pool : Option Pool × Provider P E → Option (Provider P E)
  keep_ap_pool (made, s) = elim made [ none ↦ none | some q ↦ some (record s { ap_pool = q }) ]

  unfoldable pub keep_caa_pool : Option Pool × Provider P E → Option (Provider P E)
  keep_caa_pool (made, s) = elim made [ none ↦ none | some q ↦ some (record s { caa_pool = q }) ]

  -- The key that is registered, and the agent.
  unfoldable pub provider_init :
      Provider P E → (server_port dubbo_port : ℤ) → Option (List ℕ × Provider P E)
  unfolding keep_ap_pool keep_caa_pool
  provider_init s server_port dubbo_port =
      register_etcd_service get_local_ip_addr etcd_set s.host server_port >>= λ (key, e).
      let s1 = record s { host = e; dubbo_port = dubbo_port } in
      Create.init (ap_hooks http net tries) num_conn_to_provider num_conn_to_provider sizeof_caa s1
      >>= keep_ap_pool
      >>= λ s2.
          Create.init (caa_hooks http net tries) num_conn_for_consumer_agent
            num_conn_for_consumer_agent sizeof_caa s2
          >>= keep_caa_pool
          >>= λ s3. some (key, s3)
