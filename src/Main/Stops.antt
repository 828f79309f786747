-- ===== src/Main/Stops.antt =====
-- Either agent from its start to its cleanup: what main of src/main.c leaves.
use mathlib.Core.Option.{some-injective}
use dubbo_service_mesh.Base.{
  ℕ, ◌≡◌, ◌≢◌, ◌∙◌, refl, sym, subst, inl, inr, some, Option, List, Option-cases, ◌>>=◌,
}
use dubbo_service_mesh.Pool.{Ptr}
use dubbo_service_mesh.Net.{Host, HostLaws}
use dubbo_service_mesh.Consumer
use dubbo_service_mesh.Consumer.{Consumer}
use dubbo_service_mesh.Consumer.History as ConsumerHistory
use dubbo_service_mesh.Consumer.Setup.{consumer_init, consumer_cleanup}
use dubbo_service_mesh.Consumer.Start.{consumer_init-Room}
use dubbo_service_mesh.Provider
use dubbo_service_mesh.Provider.{Provider, Parser, ParserLaws, ap_hooks}
use dubbo_service_mesh.Provider.History as ProviderHistory
use dubbo_service_mesh.Provider.Register.{service_key, provider_cleanup}
use dubbo_service_mesh.Provider.Setup.{provider_init}
use dubbo_service_mesh.Provider.Start.{provider_init-Space}
use dubbo_service_mesh.Main.{agent_consumer, Options}
use dubbo_service_mesh.Main.Agents.{
  Process, starting, consuming, providing, Outside, start_consumer, start_provider, stop_consumer,
  stop_provider, new_consumer, new_provider,
}
use dubbo_service_mesh.Main.Runs.{
  Run, FromConsumer, FromProvider, Run-FromConsumer, Run-FromProvider,
}
use dubbo_service_mesh.Provider.Registered.{provider_init-service_key}

module _ {P E : Type 0} (http : Parser P (Provider P E)) (net_c : Host Consumer.Handler E)
    (net_p : Host Provider.Handler E) (out : Outside E) (tries sizeof_caa : ℕ) where
  -- What main leaves: the consumer's agent with its connections inside their buffers, or the provider's
  -- with its connections inside theirs and its key taken out of etcd.
  abbrev pub Done : Options → Process P E → Type 0
  Done o (starting e') = ⊥
  Done o (consuming s) =
      (o.agent_type ≡ agent_consumer) × ((p : Ptr) → ConsumerHistory.Room net_c tries s p)
  Done o (providing key s) =
      (o.agent_type ≢ agent_consumer)
      × ((p : Ptr) → ProviderHistory.Space http net_p tries s p)
      × (ip : List ℕ) × (before : E) × (key ≡ service_key ip o.server_port)
      × (s.host ≡ out.etcd_del before key)

  Done-stop_consumer :
      (o : Options) (e : E) (c : Consumer E) (s : Process P E)
      → HostLaws net_c
      → o.agent_type ≡ agent_consumer
      → consumer_init net_c tries out.etcd_get_directory (new_consumer e) ≡ some c
      → FromConsumer http net_c net_p out tries sizeof_caa c s
      → Done o (stop_consumer http net_c net_p out tries sizeof_caa s)
  unfolding consumer_cleanup
  Done-stop_consumer o e c (consuming u) laws is begun r = (
    is,
    λ p.
        consumer_init-Room net_c tries out.etcd_get_directory (new_consumer e) c u p laws
          (λ q. refl) begun r,
  )
  Done-stop_consumer o e c (starting e') laws is begun r = elim r [ ]
  Done-stop_consumer o e c (providing k u) laws is begun r = elim r [ ]

  pub Done-consumer :
      (ae_main : Process P E → Option (Process P E)) (o : Options) (e : E) (t : Process P E)
      → HostLaws net_c
      → ((s u : Process P E) → ae_main s ≡ some u → Run http net_c net_p out tries sizeof_caa s u)
      → o.agent_type ≡ agent_consumer
      → (start_consumer http net_c net_p out tries sizeof_caa (starting e) >>= ae_main >>= λ s.
          some (stop_consumer http net_c net_p out tries sizeof_caa s))
        ≡ some t
      → Done o t
  Done-consumer ae_main o e t laws runs is got =
      elim (Option-cases (consumer_init net_c tries out.etcd_get_directory (new_consumer e))) [
        | inl failed ↦ absurd (cc)
        | inr (c, begun) ↦ elim (Option-cases (ae_main (consuming c))) [
          | inl stuck ↦ absurd (cc)
          | inr (s, looped) ↦
              let r =
                Run-FromConsumer http net_c net_p out tries sizeof_caa c (consuming c) s
                  ConsumerHistory.Reach.here (runs (consuming c) s looped) in
              let end = some-injective _ _ (rw (begun, looped) at got) in
              subst (Done o) end (Done-stop_consumer o e c s laws is begun r)
        ]
      ]

  Done-stop_provider :
      (o : Options) (e : E) (k : List ℕ) (d : Provider P E) (s : Process P E)
      → HostLaws net_p
      → ParserLaws http
      → o.agent_type ≢ agent_consumer
      → provider_init http net_p tries sizeof_caa out.get_local_ip_addr out.etcd_set
          (new_provider http e)
          o.server_port
          o.dubbo_port
        ≡ some (k, d)
      → FromProvider http net_c net_p out tries sizeof_caa k d s
      → Done o (stop_provider http net_c net_p out tries sizeof_caa s)
  unfolding provider_cleanup
  Done-stop_provider o e k d (providing key u) laws parses other begun (same, r) = (
    other,
    λ p.
        (let v : ProviderHistory.Space http net_p tries u p =
            provider_init-Space http net_p tries sizeof_caa out.get_local_ip_addr out.etcd_set
              (new_provider http e) d u o.server_port o.dubbo_port k p laws parses (λ q. refl) begun
              r in
          record {
            read_in = v.read_in;
            read_resp = v.read_resp;
            write_req = v.write_req;
            room_req = v.room_req;
          }),
    (out.get_local_ip_addr e).0,
    u.host,
    sym (
        provider_init-service_key http net_p tries sizeof_caa out.get_local_ip_addr out.etcd_set
          (new_provider http e) d o.server_port o.dubbo_port k begun
        ∙ same),
    refl,
  )
  Done-stop_provider o e k d (starting e') laws parses other begun r = elim r [ ]
  Done-stop_provider o e k d (consuming u) laws parses other begun r = elim r [ ]

  pub Done-provider :
      (ae_main : Process P E → Option (Process P E)) (o : Options) (e : E) (t : Process P E)
      → HostLaws net_p
      → ParserLaws http
      → ((s u : Process P E) → ae_main s ≡ some u → Run http net_c net_p out tries sizeof_caa s u)
      → o.agent_type ≢ agent_consumer
      → (start_provider http net_c net_p out tries sizeof_caa
            (starting e)
            o.server_port
            o.dubbo_port
          >>= ae_main
          >>= λ s. some (stop_provider http net_c net_p out tries sizeof_caa s))
        ≡ some t
      → Done o t
  Done-provider ae_main o e t laws parses runs other got =
      elim (Option-cases (
        provider_init http net_p tries sizeof_caa out.get_local_ip_addr out.etcd_set
          (new_provider http e) o.server_port o.dubbo_port)) [
            | inl failed ↦ absurd (cc)
            | inr ((k, d), begun) ↦ elim (Option-cases (ae_main (providing k d))) [
              | inl stuck ↦ absurd (cc)
              | inr (s, looped) ↦
                  let r =
                    Run-FromProvider http net_c net_p out tries sizeof_caa k d (providing k d) s
                      (refl, ProviderHistory.Reach.here) (runs (providing k d) s looped) in
                  let end = some-injective _ _ (rw (begun, looped) at got) in
                  subst (Done o) end (Done-stop_provider o e k d s laws parses other begun r)
            ]
          ]
