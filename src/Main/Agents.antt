-- ===== src/Main/Agents.antt =====
-- main of src/main.c with the agents of src/consumer.c and src/provider.c in their places.
use dubbo_service_mesh.Base.{ℕ, Bool, Option, none, some, List, [], ℤ, pos, ◌>>=◌}
use dubbo_service_mesh.Pool.{Ptr, Pool}
use dubbo_service_mesh.Net.{Host}
use dubbo_service_mesh.Consumer
use dubbo_service_mesh.Consumer.{Consumer, Endpoint, zero_ca}
use dubbo_service_mesh.Consumer.Handlers as ConsumerHandlers
use dubbo_service_mesh.Consumer.Setup.{consumer_init, consumer_cleanup}
use dubbo_service_mesh.Provider
use dubbo_service_mesh.Provider.{Provider, Parser, zero_caa}
use dubbo_service_mesh.Provider.Handlers as ProviderHandlers
use dubbo_service_mesh.Provider.Local
use dubbo_service_mesh.Provider.Register.{provider_cleanup}
use dubbo_service_mesh.Provider.Setup.{provider_init}
use dubbo_service_mesh.Main.{AgentType, unset, agent_consumer, agent_provider, Acceptor, Program}

-- A pool variable before PoolInit: NULL, which nothing reads.
abbrev no_pool : Pool
no_pool = record {
  max_buckets = 0;
  preallocated = 0;
  allocated = 0;
  alloc_stack_size = 0;
  alloc_stack = [];
  empty_stack = [];
  empty_stack_size = 0;
  data_buffer_size = pos 0;
  data_buffer = 0;
  pb_buffer = 0;
  elt_size = 0;
  outstanding = 0;
  max_outstanding = 0;
}

-- Static memory is zero at the start but for cur_request_id, and so is what calloc gives out.
abbrev no_endpoint : Endpoint
no_endpoint = record {
  ip = [];
  port = pos 0;
  total_ms = pos 0;
  num_reqs = 0;
  score = pos 0;
  conn_pool = no_pool;
}

abbrev pub new_consumer : {E : Type 0} → E → Consumer E
new_consumer e = record {
  host = e;
  ca = λ p. zero_ca;
  apa = λ a. record { fd = pos 0; endpoint = 0; req_start = 0 };
  endpoints = λ i. no_endpoint;
  num_endpoints = 0;
  total_score = pos 0;
  request_counter = 0;
  ca_pool = no_pool;
}

abbrev pub new_provider : {P E : Type 0} → Parser P (Provider P E) → E → Provider P E
new_provider http e = record {
  host = e;
  caa = λ p. zero_caa http;
  ap = λ a. record { fd = pos 0 };
  cur_request_id = 1;
  caa_pool = no_pool;
  ap_pool = no_pool;
  dubbo_port = pos 0;
}

-- What main calls outside the agents: etcd's client, anetTcpServer, anetTcpAccept, the interface's
-- address, and the creation of the event loop with the event for new connections.
pub record Outside (E : Type 0) : Type 0 where
  pub etcd_init : E → Option (List ℕ) → ℕ → E
  pub etcd_get_directory : E → List (List ℕ) × (ℕ × E)
  pub etcd_set : E → List ℕ → E
  pub etcd_del : E → List ℕ → E
  pub tcp_server : E → (port : ℤ) → ℤ × E
  pub tcp_accept : E → (fd : ℤ) → ℤ × E
  pub watch : E → (fd : ℤ) → Bool × E
  pub get_local_ip_addr : E → List ℕ × E

-- The process before one of the agents has started, and after.
pub data Process (P E : Type 0) : Type 0 where
  starting : E → Process P E
  consuming : Consumer E → Process P E
  providing : (etcd_key : List ℕ) → Provider P E → Process P E

abbrev pub on_host : {P E : Type 0} → (E → E) → Process P E → Process P E
on_host f (starting e) = starting (f e)
on_host f (consuming s) = consuming (record s { host = f s.host })
on_host f (providing key s) = providing key (record s { host = f s.host })

abbrev host_of : {P E : Type 0} → Process P E → E
host_of (starting e) = e
host_of (consuming s) = s.host
host_of (providing key s) = s.host

-- A call that answers and changes the world.
abbrev calling : {P E A : Type 0} → (E → A × E) → Process P E → A × Process P E
calling f s = ((f (host_of s)).0, on_host (λ e. (f e).1) s)

-- `agent_type` of a running process.
abbrev pub agent_of : {P E : Type 0} → Process P E → AgentType
agent_of (starting e) = unset
agent_of (consuming s) = agent_consumer
agent_of (providing key s) = agent_provider

abbrev consuming_next : {P E : Type 0} → Option (Consumer E) → Option (Process P E)
consuming_next r = r >>= λ s. some (consuming s)

abbrev providing_next :
    {P E : Type 0} → (etcd_key : List ℕ) → Option (Provider P E) → Option (Process P E)
providing_next key r = r >>= λ s. some (providing key s)

-- The two agents share one event loop's host, as handlers of two kinds: a process runs one of them.
-- An operation of an agent that has not started has no result.
module _ {P E : Type 0} (http : Parser P (Provider P E)) (net_c : Host Consumer.Handler E)
    (net_p : Host Provider.Handler E) (out : Outside E) (tries sizeof_caa : ℕ) where
  abbrev pub accept_consumer : Process P E → (fd : ℤ) → Option (Process P E)
  accept_consumer (starting e) fd = none
  accept_consumer (consuming s) fd =
      consuming_next (ConsumerHandlers.consumer_http_handler net_c tries s fd)
  accept_consumer (providing key s) fd = none

  abbrev pub accept_provider : Process P E → (fd : ℤ) → Option (Process P E)
  accept_provider (starting e) fd = none
  accept_provider (consuming s) fd = none
  accept_provider (providing key s) fd =
      providing_next key (ProviderHandlers.provider_http_handler http net_p tries s fd)

  abbrev pub acceptor : Acceptor (Process P E)
  acceptor = record {
    accept = λ s fd. calling (λ e. out.tcp_accept e fd) s;
    tune = λ s fd. on_host (λ e. net_c.tune e fd) s;
    consumer_http_handler = accept_consumer;
    provider_http_handler = accept_provider;
  }

  -- An event of a connection, for either agent's handlers.
  abbrev pub fire_consumer : Process P E → Consumer.Handler → (fd : ℤ) → Ptr → Option (Process P E)
  fire_consumer (starting e) f fd p = none
  fire_consumer (consuming s) f fd p = consuming_next (ConsumerHandlers.handle net_c tries s f fd p)
  fire_consumer (providing key s) f fd p = none

  abbrev pub fire_provider : Process P E → Provider.Handler → (fd : ℤ) → Ptr → Option (Process P E)
  fire_provider (starting e) f fd p = none
  fire_provider (consuming s) f fd p = none
  fire_provider (providing key s) f fd p =
      providing_next key (Local.handle http net_p tries s f fd p)

  abbrev pub start_consumer : Process P E → Option (Process P E)
  start_consumer (starting e) =
      consuming_next (consumer_init net_c tries out.etcd_get_directory (new_consumer e))
  start_consumer (consuming s) = none
  start_consumer (providing key s) = none

  abbrev pub start_provider : Process P E → (server_port dubbo_port : ℤ) → Option (Process P E)
  start_provider (starting e) server_port dubbo_port =
      provider_init http net_p tries sizeof_caa out.get_local_ip_addr out.etcd_set
        (new_provider http e) server_port dubbo_port
      >>= λ (key, s). some (providing key s)
  start_provider (consuming s) server_port dubbo_port = none
  start_provider (providing key s) server_port dubbo_port = none

  abbrev pub stop_consumer : Process P E → Process P E
  stop_consumer (starting e) = starting e
  stop_consumer (consuming s) = consuming (consumer_cleanup net_c tries s)
  stop_consumer (providing key s) = providing key s

  abbrev pub stop_provider : Process P E → Process P E
  stop_provider (starting e) = starting e
  stop_provider (consuming s) = consuming s
  stop_provider (providing key s) =
      providing key (record s { host = provider_cleanup out.etcd_del s.host key })

  -- `ae_main` is what the event loop does until it is stopped.
  abbrev pub program : (ae_main : Process P E → Option (Process P E)) → Program (Process P E)
  program ae_main = record {
    etcd_init = λ s etcd_host etcd_port. on_host (λ e. out.etcd_init e etcd_host etcd_port) s;
    listen = λ s port. calling (λ e. out.tcp_server e port) s;
    watch = λ s fd. calling (λ e. out.watch e fd) s;
    consumer_init = start_consumer;
    provider_init = start_provider;
    ae_main = ae_main;
    consumer_cleanup = stop_consumer;
    provider_cleanup = stop_provider;
  }
