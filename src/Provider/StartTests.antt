-- ===== src/Provider/StartTests.antt =====
-- The theorem on the provider's agent from its start on, at a host with memory and a provider that
-- accepts connections.
use dubbo_service_mesh.Base.{
  ℕ, ◌+◌, ◌*◌, ◌≡◌, refl, some, true, is_some, is_some-true, pos, List, arith,
}
use dubbo_service_mesh.Net.{Host, HostLaws}
use dubbo_service_mesh.Text.{bytes, decimal, decimal_from, decimal_int}
use dubbo_service_mesh.Pool.{get, call_init}
use dubbo_service_mesh.Pool.Create.{init}
use dubbo_service_mesh.Provider.{
  Provider, Handler, zero_caa, connect, init_connection_ap, write_to_local_provider,
}
use dubbo_service_mesh.Provider.Handlers.{init_connection_caa}
use dubbo_service_mesh.Provider.Local.{handle, on_write_to_local_provider}
use dubbo_service_mesh.Provider.Setup.{provider_init}
use dubbo_service_mesh.Provider.Register.{register_etcd_service, service_key}
use dubbo_service_mesh.Provider.History.{Step, Reach, Space}
use dubbo_service_mesh.Provider.Start.{provider_init-Space}
use dubbo_service_mesh.Provider.Tests.{quick, whole, serving}
use dubbo_service_mesh.Provider.HistoryTests.{whole-ParserLaws}

-- Its state is the number of bytes that it has given out.
abbrev pub able : Host Handler ℕ
able = record quick { malloc = λ e n. (1000 + e, e + n); calloc = λ e n m. (1000 + e, e + n * m) }

pub able-HostLaws : HostLaws able
able-HostLaws = record { reads = λ e fd count. ground arith; writes = λ e fd bs. omega arith }

abbrev cleared : Provider ℕ ℕ
cleared = record serving { caa = λ q. zero_caa whole }

-- provider_init returns.
starts :
    is_some (
      provider_init whole able 1 8
        (λ e. (bytes "10.0.0.1", e))
        (λ e key. e)
        cleared
        (pos 30000)
        (pos 20880))
    ≡ true
unfolding provider_init register_etcd_service service_key decimal decimal_from decimal_int init
    connect get call_init init_connection_ap init_connection_caa
starts = refl

started :
    (r : List ℕ × Provider ℕ ℕ) × (provider_init whole able 1 8
        (λ e. (bytes "10.0.0.1", e))
        (λ e key. e)
        cleared
        (pos 30000)
        (pos 20880)
      ≡ some r)
started = is_some-true _ starts

-- And then a write event.
one_event :
    Reach whole able 1 started.0.1
      (on_write_to_local_provider whole able 1 started.0.1 (pos 6) 1200)
unfolding handle
one_event = Reach.next Reach.here (Step.fired write_to_local_provider (pos 6) 1200 refl)

provider_init-Space_example :
    Space whole able 1 (on_write_to_local_provider whole able 1 started.0.1 (pos 6) 1200) 1200
provider_init-Space_example =
    provider_init-Space whole able 1 8 (λ e. (bytes "10.0.0.1", e)) (λ e key. e) cleared started.0.1
      (on_write_to_local_provider whole able 1 started.0.1 (pos 6) 1200) (pos 30000) (pos 20880)
      started.0.0 1200 able-HostLaws whole-ParserLaws (λ q. refl) started.1 one_event
