-- ===== src/Main/Runs.antt =====
-- main of src/main.c with an event loop that runs any history of events: new connections, which
-- accept_tcp_handler hands to the agent, and the handlers of src/consumer.c or src/provider.c.
use mathlib.Core.Option.{some-injective}
use dubbo_service_mesh.Base.{
  ℕ, ◌≡◌, refl, sym, subst, inl, inr, some, Option, List, ℤ, is_neg, Bool-cases, Option-cases,
  ◌>>=◌,
}
use dubbo_service_mesh.Pool.{Ptr}
use dubbo_service_mesh.Net.{Host}
use dubbo_service_mesh.Consumer
use dubbo_service_mesh.Consumer.{Consumer}
use dubbo_service_mesh.Consumer.Handlers as ConsumerHandlers
use dubbo_service_mesh.Consumer.History as ConsumerHistory
use dubbo_service_mesh.Provider
use dubbo_service_mesh.Provider.{Provider, Parser, ParserLaws}
use dubbo_service_mesh.Provider.History as ProviderHistory
use dubbo_service_mesh.Provider.Local
use dubbo_service_mesh.Main.{agent_consumer, agent_provider, accept_tcp_handler}
use dubbo_service_mesh.Main.Agents.{
  Process, starting, consuming, providing, Outside, on_host, agent_of, acceptor, fire_consumer,
  fire_provider,
}

module _ {P E : Type 0} (http : Parser P (Provider P E)) (net_c : Host Consumer.Handler E)
    (net_p : Host Provider.Handler E) (out : Outside E) (tries sizeof_caa : ℕ) where
  pub data Event (s : Process P E) : Process P E → Type 0 where
    connection :
        {t : Process P E} (fd : ℤ)
        → accept_tcp_handler (acceptor http net_c net_p out tries sizeof_caa) (agent_of s) s fd
          ≡ some t
        → Event s t
    consumer_event :
        {t : Process P E} (f : Consumer.Handler) (fd : ℤ) (p : Ptr)
        → fire_consumer http net_c net_p out tries sizeof_caa s f fd p ≡ some t
        → Event s t
    provider_event :
        {t : Process P E} (f : Provider.Handler) (fd : ℤ) (p : Ptr)
        → fire_provider http net_c net_p out tries sizeof_caa s f fd p ≡ some t
        → Event s t
    elsewhere : (f : E → E) → Event s (on_host f s)

  pub data Run (s : Process P E) : Process P E → Type 0 where
    waiting : Run s s
    after : {t u : Process P E} → Run s t → Event t u → Run s u

  -- The process is the consumer's agent, in a state that `c` has reached by events.
  abbrev pub FromConsumer : Consumer E → Process P E → Type 0
  FromConsumer c (starting e) = ⊥
  FromConsumer c (consuming s) = ConsumerHistory.Reach net_c tries c s
  FromConsumer c (providing key s) = ⊥

  abbrev pub FromProvider : List ℕ → Provider P E → Process P E → Type 0
  FromProvider k d (starting e) = ⊥
  FromProvider k d (consuming s) = ⊥
  FromProvider k d (providing key s) = (k ≡ key) × ProviderHistory.Reach http net_p tries d s

  consuming_next-FromConsumer :
      (c : Consumer E) (r : Option (Consumer E)) (t : Process P E)
      → ((d : Consumer E) → r ≡ some d → ConsumerHistory.Reach net_c tries c d)
      → (r >>= λ d. some (consuming d)) ≡ some t
      → FromConsumer c t
  consuming_next-FromConsumer c r t step got = elim (Option-cases r) [
    | inl nothing ↦ absurd (cc)
    | inr (d, e) ↦ subst (FromConsumer c) (some-injective _ _ (rw e at got)) (step d e)
  ]

  providing_next-FromProvider :
      (k : List ℕ) (d : Provider P E) (r : Option (Provider P E)) (t : Process P E)
      → ((u : Provider P E) → r ≡ some u → ProviderHistory.Reach http net_p tries d u)
      → (r >>= λ u. some (providing k u)) ≡ some t
      → FromProvider k d t
  providing_next-FromProvider k d r t step got = elim (Option-cases r) [
    | inl nothing ↦ absurd (cc)
    | inr (u, e) ↦ subst (FromProvider k d) (some-injective _ _ (rw e at got)) (refl, step u e)
  ]

  accept-FromConsumer :
      (c d : Consumer E) (t : Process P E) (fd : ℤ)
      → ConsumerHistory.Reach net_c tries c d
      → accept_tcp_handler
          (acceptor http net_c net_p out tries sizeof_caa)
          agent_consumer
          (consuming d)
          fd
        ≡ some t
      → FromConsumer c t
  unfolding accept_tcp_handler
  accept-FromConsumer c d t fd r got = elim (Bool-cases (is_neg (out.tcp_accept d.host fd).0)) [
    | inl nobody ↦
        subst (FromConsumer c) (some-injective _ _ (rw nobody at got))
          (ConsumerHistory.Reach.next r (ConsumerHistory.Step.elsewhere _))
    | inr somebody ↦
        consuming_next-FromConsumer c _ t
          (λ u e.
            ConsumerHistory.Reach.next
              (ConsumerHistory.Reach.next r (ConsumerHistory.Step.elsewhere _))
              (ConsumerHistory.Step.accepted _ e))
          (rw somebody at got)
  ]

  accept-FromProvider :
      (k key : List ℕ) (d u : Provider P E) (t : Process P E) (fd : ℤ)
      → k ≡ key
      → ProviderHistory.Reach http net_p tries d u
      → accept_tcp_handler
          (acceptor http net_c net_p out tries sizeof_caa)
          agent_provider
          (providing key u)
          fd
        ≡ some t
      → FromProvider k d t
  unfolding accept_tcp_handler
  accept-FromProvider k key d u t fd same r got =
      elim (Bool-cases (is_neg (out.tcp_accept u.host fd).0)) [
        | inl nobody ↦
            subst (FromProvider k d) (some-injective _ _ (rw nobody at got))
              (same, ProviderHistory.Reach.next r (ProviderHistory.Step.elsewhere _))
        | inr somebody ↦
            providing_next-FromProvider k d _ t
              (λ v e.
                ProviderHistory.Reach.next
                  (ProviderHistory.Reach.next r (ProviderHistory.Step.elsewhere _))
                  (ProviderHistory.Step.accepted _ e))
              (rw (somebody, sym same) at got)
      ]

  Event-FromConsumer :
      (c : Consumer E) (s t : Process P E) → FromConsumer c s → Event s t → FromConsumer c t
  Event-FromConsumer c (starting e) t r v = elim r [ ]
  Event-FromConsumer c (providing key s) t r v = elim r [ ]
  Event-FromConsumer c (consuming s) t r (connection fd got) = accept-FromConsumer c s t fd r got
  Event-FromConsumer c (consuming s) t r (consumer_event f fd p got) =
      consuming_next-FromConsumer c (ConsumerHandlers.handle net_c tries s f fd p) t
        (λ u e. ConsumerHistory.Reach.next r (ConsumerHistory.Step.fired f fd p e)) got
  Event-FromConsumer c (consuming s) t r (provider_event f fd p got) = absurd (cc)
  Event-FromConsumer c (consuming s) t r (elsewhere f) =
      ConsumerHistory.Reach.next r (ConsumerHistory.Step.elsewhere _)

  Event-FromProvider :
      (k : List ℕ) (d : Provider P E) (s t : Process P E)
      → FromProvider k d s
      → Event s t
      → FromProvider k d t
  Event-FromProvider k d (starting e) t r v = elim r [ ]
  Event-FromProvider k d (consuming s) t r v = elim r [ ]
  Event-FromProvider k d (providing key s) t r (connection fd got) =
      accept-FromProvider k key d s t fd r.0 r.1 got
  Event-FromProvider k d (providing key s) t r (consumer_event f fd p got) = absurd (cc)
  Event-FromProvider k d (providing key s) t r (provider_event f fd p got) =
      providing_next-FromProvider k d (Local.handle http net_p tries s f fd p) t
        (λ u e. ProviderHistory.Reach.next r.1 (ProviderHistory.Step.fired f fd p e))
        (rw (sym r.0) at got)
  Event-FromProvider k d (providing key s) t r (elsewhere f) =
      (r.0, ProviderHistory.Reach.next r.1 (ProviderHistory.Step.elsewhere _))

  pub Run-FromConsumer :
      (c : Consumer E) (s t : Process P E) → FromConsumer c s → Run s t → FromConsumer c t
  Run-FromConsumer c s t r waiting = r
  Run-FromConsumer c s t r (after {t = u} earlier v) =
      Event-FromConsumer c u t (Run-FromConsumer c s u r earlier) v

  pub Run-FromProvider :
      (k : List ℕ) (d : Provider P E) (s t : Process P E)
      → FromProvider k d s
      → Run s t
      → FromProvider k d t
  Run-FromProvider k d s t r waiting = r
  Run-FromProvider k d s t r (after {t = u} earlier v) =
      Event-FromProvider k d u t (Run-FromProvider k d s u r earlier) v
