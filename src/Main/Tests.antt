-- ===== src/Main/Tests.antt =====
-- The theorems on main at command lines, and at a host with memory, where one connection arrives.
use dubbo_service_mesh.Base.{
  ℕ, ◌≡◌, refl, Option, some, List, [], ◌∷◌, true, is_some, is_some-true, pos,
}
use dubbo_service_mesh.Text.{bytes, atoi, strncmp_eq, decimal, decimal_from, decimal_int}
use dubbo_service_mesh.Pool.{get, call_init}
use dubbo_service_mesh.Pool.Create.{init}
use dubbo_service_mesh.Consumer.StartTests as ConsumerStart
use dubbo_service_mesh.Provider.{connect, init_connection_ap}
use dubbo_service_mesh.Provider.Handlers.{init_connection_caa, provider_http_handler}
use dubbo_service_mesh.Provider.HistoryTests.{whole-ParserLaws}
use dubbo_service_mesh.Provider.Register.{register_etcd_service, service_key}
use dubbo_service_mesh.Provider.Setup.{provider_init}
use dubbo_service_mesh.Provider.StartTests as ProviderStart
use dubbo_service_mesh.Provider.Tests.{whole}
use dubbo_service_mesh.Main.{Options, no_options, parse_options, accept_tcp_handler, main}
use dubbo_service_mesh.Main.CommandLine.{parse_options_lem, result}
use dubbo_service_mesh.Main.Agents.{Process, starting, Outside, agent_of, acceptor, program}
use dubbo_service_mesh.Main.Runs.{Run, Event}
use dubbo_service_mesh.Main.Safety.{main-Done}
use dubbo_service_mesh.Main.Stops.{Done}

abbrev arguments : List (ℕ × List ℕ)
arguments =
    (b't', bytes "provider-small")
    ∷ (b'e', bytes "etcd")
    ∷ (b'p', bytes "30000")
    ∷ (b'd', bytes "20880")
    ∷ []

parse_options_lem_example : parse_options arguments no_options ≡ some (result arguments no_options)
parse_options_lem_example = parse_options_lem arguments no_options

-- The socket has descriptor 4, and every connection descriptor 5.
abbrev world : Outside ℕ
world = record {
  etcd_init = λ e etcd_host etcd_port. e;
  etcd_get_directory = λ e. ([], (0, e));
  etcd_set = λ e key. e;
  etcd_del = λ e key. e;
  tcp_server = λ e port. (pos 4, e);
  tcp_accept = λ e fd. (pos 5, e);
  watch = λ e fd. (true, e);
  get_local_ip_addr = λ e. (bytes "10.0.0.1", e);
}

-- The event loop sees one new connection.
abbrev one_connection : Process ℕ ℕ → Option (Process ℕ ℕ)
one_connection s =
    accept_tcp_handler (acceptor whole ConsumerStart.able ProviderStart.able world 1 8) (agent_of s)
      s (pos 4)

one_connection-Run :
    (s t : Process ℕ ℕ)
    → one_connection s ≡ some t
    → Run whole ConsumerStart.able ProviderStart.able world 1 8 s t
one_connection-Run s t e = Run.after Run.waiting (Event.connection (pos 4) e)

-- main returns.
returns :
    is_some (
      main
        (program whole ConsumerStart.able ProviderStart.able world 1 8 one_connection)
        arguments
        (starting 0))
    ≡ true
unfolding main parse_options accept_tcp_handler provider_init register_etcd_service service_key
    decimal decimal_from decimal_int atoi strncmp_eq init connect get call_init init_connection_ap
    init_connection_caa provider_http_handler
returns = refl

returned :
    (t : Process ℕ ℕ) × (main
        (program whole ConsumerStart.able ProviderStart.able world 1 8 one_connection)
        arguments
        (starting 0)
      ≡ some t)
returned = is_some-true _ returns

main-Done_example :
    (o : Options) × (parse_options arguments no_options ≡ some o)
    × Done whole ConsumerStart.able ProviderStart.able world 1 8 o returned.0
main-Done_example =
    main-Done whole ConsumerStart.able ProviderStart.able world 1 8 one_connection arguments 0
      returned.0 ConsumerStart.able-HostLaws ProviderStart.able-HostLaws whole-ParserLaws
      one_connection-Run returned.1
