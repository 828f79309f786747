-- ===== src/Main/Safety.antt =====
-- main of src/main.c as a whole: what the process is when main returns.
use dubbo_service_mesh.Base.{
  ℕ, ◌≡◌, ◌⊎◌, refl, inl, inr, some, Option, List, is_neg, Bool-cases, Option-cases, arith,
}
use dubbo_service_mesh.Net.{Host, HostLaws}
use dubbo_service_mesh.Consumer
use dubbo_service_mesh.Consumer.{Consumer}
use dubbo_service_mesh.Provider
use dubbo_service_mesh.Provider.{Provider, Parser, ParserLaws, ap_hooks}
use dubbo_service_mesh.Main.{
  AgentType, unset, agent_consumer, agent_provider, Options, no_options, parse_options,
  listen_and_watch, run_agent, main,
}
use dubbo_service_mesh.Main.Agents.{Process, starting, Outside, program}
use dubbo_service_mesh.Main.Runs.{Run}
use dubbo_service_mesh.Main.Stops.{Done, Done-consumer, Done-provider}

AgentType-cases : (a : AgentType) → (a ≡ agent_consumer) ⊎ (a ≡ agent_provider) ⊎ (a ≡ unset)
AgentType-cases unset = inr (inr refl)
AgentType-cases agent_consumer = inl refl
AgentType-cases agent_provider = inr (inl refl)

module _ {P E : Type 0} (http : Parser P (Provider P E)) (net_c : Host Consumer.Handler E)
    (net_p : Host Provider.Handler E) (out : Outside E) (tries sizeof_caa : ℕ) where
  Done-run_agent :
      (ae_main : Process P E → Option (Process P E)) (o : Options) (e : E) (t : Process P E)
      → HostLaws net_c
      → HostLaws net_p
      → ParserLaws http
      → ((s u : Process P E) → ae_main s ≡ some u → Run http net_c net_p out tries sizeof_caa s u)
      → run_agent (program http net_c net_p out tries sizeof_caa ae_main) o (starting e) ≡ some t
      → Done http net_c net_p out tries sizeof_caa o t
  unfolding run_agent listen_and_watch
  Done-run_agent ae_main o e t laws_c laws_p parses runs got =
      let e1 = out.etcd_init e o.etcd_host 2379 in
      let (fd, e2) = out.tcp_server e1 o.server_port in
      elim (Bool-cases (is_neg fd)) [
        | inl closed ↦ absurd (ground arith)
        | inr listens ↦ elim (Bool-cases (out.watch e2 fd).0) [
          | inr failed ↦ absurd (ground arith)
          | inl watched ↦ elim (AgentType-cases o.agent_type) [
            | inl is ↦
                Done-consumer http net_c net_p out tries sizeof_caa ae_main o (out.watch e2 fd).1 t
                  laws_c runs is (rw (listens, watched, is) at got)
            | inr (inl is) ↦
                Done-provider http net_c net_p out tries sizeof_caa ae_main o (out.watch e2 fd).1 t
                  laws_p parses runs (ground arith) (rw (listens, watched, is) at got)
            | inr (inr is) ↦
                Done-provider http net_c net_p out tries sizeof_caa ae_main o (out.watch e2 fd).1 t
                  laws_p parses runs (ground arith) (rw (listens, watched, is) at got)
          ]
        ]
      ]

  -- Whatever the event loop does with the process is some history of new connections and events. If
  -- main returns, its options have been read without a failure. As the consumer's agent, every
  -- connection's reads and writes are then inside its buffers. As the provider's agent they are too,
  -- and the last change of the world has taken the agent's key out of etcd: the one that is made of an
  -- address and the server port of the options.
  pub main-Done :
      (ae_main : Process P E → Option (Process P E)) (args : List (ℕ × List ℕ)) (e : E)
      (t : Process P E)
      → HostLaws net_c
      → HostLaws net_p
      → ParserLaws http
      → ((s u : Process P E) → ae_main s ≡ some u → Run http net_c net_p out tries sizeof_caa s u)
      → main (program http net_c net_p out tries sizeof_caa ae_main) args (starting e) ≡ some t
      → (o : Options) × (parse_options args no_options ≡ some o)
        × Done http net_c net_p out tries sizeof_caa o t
  unfolding main
  main-Done ae_main args e t laws_c laws_p parses runs got =
      elim (Option-cases (parse_options args no_options)) [
        | inl failed ↦ absurd (ground arith)
        | inr (o, parsed) ↦
            (o, parsed, Done-run_agent ae_main o e t laws_c laws_p parses runs (rw parsed at got))
      ]
