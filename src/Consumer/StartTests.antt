-- ===== src/Consumer/StartTests.antt =====
-- The theorem on the consumer's agent from its start on, at a host with memory, one key in etcd and a
-- remote agent that accepts connections.
use dubbo_service_mesh.Base.{
  ℕ, ◌+◌, ◌*◌, ◌≡◌, refl, some, List, [], ◌∷◌, arith, true, is_some, is_some-true, length, pos, ltb,
  if◌then◌else◌,
}
use dubbo_service_mesh.Text.{bytes, strrchr, bounded_string, atoi}
use dubbo_service_mesh.Pool.{call_init}
use dubbo_service_mesh.Pool.Create.{init}
use dubbo_service_mesh.Net.{Host, HostLaws, received, closed, wrote}
use dubbo_service_mesh.Consumer.{Consumer, Handler, zero_ca, write_to_remote_agent}
use dubbo_service_mesh.Consumer.Connect.{connect, init_connection_apa}
use dubbo_service_mesh.Consumer.Setup.{consumer_init, parse_key}
use dubbo_service_mesh.Consumer.Handlers.{handle, on_write_to_remote_agent}
use dubbo_service_mesh.Consumer.History.{Step, Reach, Room}
use dubbo_service_mesh.Consumer.Start.{consumer_init-Room}
use dubbo_service_mesh.Consumer.Tests.{running}

-- Its state is the number of bytes that it has given out.
abbrev pub able : Host Handler ℕ
able = record {
  read = λ e fd count. (if ltb count 1 then closed else received b'G' [], e);
  write = λ e fd bs. (wrote (length bs), e);
  close = λ e fd. e;
  create_file_event = λ e fd mask f p. (true, e);
  delete_file_event = λ e fd mask. e;
  clock_gettime = λ e. ((7, 0), e);
  tcp_connect = λ e ip port. (pos 9, e);
  tune = λ e fd. e;
  sleep = λ e n. e;
  malloc = λ e n. (1000 + e, e + n);
  calloc = λ e n m. (1000 + e, e + n * m);
  dealloc = λ e p. e;
}

pub able-HostLaws : HostLaws able
able-HostLaws = record { reads = λ e fd count. ground arith; writes = λ e fd bs. omega arith }

abbrev cleared : Consumer ℕ
cleared = record {
  host = 0;
  ca = λ p. zero_ca;
  apa = λ a. record { fd = pos 0; endpoint = 0; req_start = 0 };
  endpoints = running.endpoints;
  num_endpoints = 0;
  total_score = pos 0;
  request_counter = 0;
  ca_pool = running.ca_pool;
}

abbrev one_key : List (List ℕ)
one_key = bytes "/mesh/10.0.0.1:30000" ∷ []

-- consumer_init returns.
starts : is_some (consumer_init able 1 (λ e. (one_key, (0, e))) cleared) ≡ true
unfolding consumer_init parse_key strrchr bounded_string atoi init connect call_init
    init_connection_apa
starts = refl

started : (t : Consumer ℕ) × (consumer_init able 1 (λ e. (one_key, (0, e))) cleared ≡ some t)
started = is_some-true _ starts

-- And then a write event.
one_event : Reach able 1 started.0 (on_write_to_remote_agent able 1 started.0 (pos 9) 1200)
unfolding handle
one_event = Reach.next Reach.here (Step.fired write_to_remote_agent (pos 9) 1200 refl)

consumer_init-Room_example :
    Room able 1 (on_write_to_remote_agent able 1 started.0 (pos 9) 1200) 1200
consumer_init-Room_example =
    consumer_init-Room able 1 (λ e. (one_key, (0, e))) cleared started.0
      (on_write_to_remote_agent able 1 started.0 (pos 9) 1200) 1200 able-HostLaws (λ q. refl)
      started.1 one_event
