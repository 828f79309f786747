-- ===== src/Consumer/Tests.antt =====
-- The theorems on the consumer's agent at a host that answers each read with `GET` and takes two
-- bytes of each write.
use dubbo_service_mesh.Base.{
  ℕ, ◌+◌, ◌*◌, ◌<◌, ◌≤◌, ◌≡◌, ◌⊎◌, refl, some, List, [], ◌∷◌, ◌++◌, arith, take, length,
  length-take, ltb, true, false, pos, if◌then◌else◌,
}
use dubbo_service_mesh.Pool.{null}
use dubbo_service_mesh.Pool.Stack.{Holds}
use dubbo_service_mesh.Pool.Slots.{laid_real}
use dubbo_service_mesh.Pool.Tests.{
  three, two_left, one_left, three-Holds, two_left-Holds, one_left-Holds,
}
use dubbo_service_mesh.Net.{Host, HostLaws, Streams, received, failed, wrote}
use dubbo_service_mesh.Net.Buffer.{blit, slice}
use dubbo_service_mesh.Text.{bytes}
use dubbo_service_mesh.Consumer.{
  ConnectionCa, Endpoint, Consumer, Handler, write_to_remote_agent, zero_ca,
}
use dubbo_service_mesh.Consumer.Balance.{
  get_endpoint_least_loaded, get_endpoint_min_latency, load_balance_threshold,
  load_protect_threshold, outstanding_of,
}
use dubbo_service_mesh.Consumer.Handlers.{
  handle, consumer_http_handler, on_write_to_remote_agent, on_write_to_consumer,
  abort_connection_ca, watch_remote, release_apa,
}
use dubbo_service_mesh.Consumer.Bounds.{IsBounded, AllBounded}
use dubbo_service_mesh.Consumer.Safety.{handle-AllBounded}
use dubbo_service_mesh.Consumer.Relay.{pending_out}
use dubbo_service_mesh.Consumer.Delivery.{on_write_to_consumer-delivers}
use dubbo_service_mesh.Consumer.Abort.{
  Aborted, abort_connection_ca-Aborted, Accepted, consumer_http_handler-Accepted, Released,
  release_apa-Released, watch_remote_twice,
}
use dubbo_service_mesh.Consumer.Choice.{
  LeastLoaded, get_endpoint_least_loaded-LeastLoaded, Fastest, get_endpoint_min_latency_lem,
}

-- Its state is what the sockets have accepted, in one stream.
abbrev pub tiny : Host Handler (List ℕ)
tiny = record {
  read = λ e fd count. (if ltb count 3 then failed true else received b'G' (b'E' ∷ b'T' ∷ []), e);
  write = λ e fd bs. (wrote (length (take 2 bs)), e ++ take (length (take 2 bs)) bs);
  close = λ e fd. e;
  create_file_event = λ e fd mask f p. (true, e);
  delete_file_event = λ e fd mask. e;
  clock_gettime = λ e. ((7, 0), e);
  tcp_connect = λ e ip port. (pos 9, e);
  tune = λ e fd. e;
  sleep = λ e n. e;
  malloc = λ e n. (null, e);
  calloc = λ e n m. (null, e);
  dealloc = λ e p. e;
}

length-take_le : (n : ℕ) (bs : List ℕ) → length (take n bs) ≤ length bs
length-take_le n bs = omega (arith, length-take n bs)

pub tiny-HostLaws : HostLaws tiny
tiny-HostLaws = record {
  reads = λ e fd count. ground arith;
  writes = λ e fd bs. length-take_le 2 bs;
}

pub tiny-Streams : Streams tiny (λ e fd. e)
tiny-Streams = record {
  wrote_more = λ e fd bs n h. ground arith;
  wrote_none = λ e fd bs again h. absurd (ground arith);
  read_keeps = λ e fd at count. refl;
  create_keeps = λ e fd at mask f p. refl;
  connect_keeps = λ e ip port at. refl;
  tune_keeps = λ e fd at. refl;
  sleep_keeps = λ e n at. refl;
  close_keeps = λ e fd at. refl;
  delete_keeps = λ e fd at mask. refl;
  clock_keeps = λ e at. refl;
  malloc_keeps = λ e n at. refl;
  dealloc_keeps = λ e d at. refl;
}

-- A connection that has read `GET` and `200`, and written one byte of each.
abbrev busy : ConnectionCa
busy = record zero_ca {
  fd = pos 5;
  buf_in = blit (λ _. 0) 0 (bytes "GET");
  nread_in = 3;
  nwrite_in = 1;
  buf_out = blit (λ _. 0) 0 (bytes "200");
  nread_out = 3;
  nwrite_out = 1;
  conn_apa = 1200;
}

busy-IsBounded : IsBounded busy
busy-IsBounded = omega arith

-- Endpoints with `i + 1` requests in `10 * (i + 1)` milliseconds.
abbrev served : ℕ → Endpoint
served i = record {
  ip = bytes "10.0.0.1";
  port = pos 30000;
  total_ms = pos (10 * (i + 1));
  num_reqs = i + 1;
  score = pos 1;
  conn_pool = two_left;
}

abbrev pub running : Consumer (List ℕ)
running = record {
  host = [];
  ca = λ p. busy;
  apa = λ a. record { fd = pos 6; endpoint = 1; req_start = 0 };
  endpoints = served;
  num_endpoints = 2;
  total_score = pos 2;
  request_counter = 0;
  ca_pool = two_left;
}

-- `busy` after reading `GET`.
abbrev pub more_in : ConnectionCa
more_in = record busy {
  buf_in = blit busy.buf_in 3 (bytes "GET");
  nread_in = 6;
  nread_out = 0;
  nwrite_out = 0;
}

pub running-AllBounded : AllBounded running
running-AllBounded = λ q. busy-IsBounded

handle-AllBounded_example : AllBounded (on_write_to_remote_agent tiny 1 running (pos 6) 1192)
unfolding handle
handle-AllBounded_example =
    handle-AllBounded tiny 1 running (on_write_to_remote_agent tiny 1 running (pos 6) 1192)
      write_to_remote_agent (pos 6) 1192 tiny-HostLaws running-AllBounded refl

on_write_to_consumer-delivers_example :
    (on_write_to_consumer tiny 1 running (pos 5) 1192).host
      ++ pending_out ((on_write_to_consumer tiny 1 running (pos 5) 1192).ca 1192)
    ≡ bytes "00"
unfolding slice blit
on_write_to_consumer-delivers_example =
    on_write_to_consumer-delivers tiny 1 (λ e fd. e) tiny-Streams running (pos 5) 1192 tiny-HostLaws
      busy-IsBounded

abort_connection_ca-Aborted_example :
    Aborted tiny 1 running 1200 (1192 ∷ 1184 ∷ []) 0 (abort_connection_ca tiny 1 running 1200)
abort_connection_ca-Aborted_example = abort_connection_ca-Aborted tiny 1 running 1200 two_left-Holds

consumer_http_handler-Accepted_example :
    (t : Consumer (List ℕ)) × (consumer_http_handler tiny 1
        (record running { ca_pool = three })
        (pos 8)
      ≡ some t)
    × Accepted tiny 1 (record running { ca_pool = three }) (pos 8) 0 (1200 ∷ 1192 ∷ 1184 ∷ []) t
consumer_http_handler-Accepted_example =
    consumer_http_handler-Accepted tiny 1 (record running { ca_pool = three }) (pos 8)
      (1200 ∷ 1192 ∷ 1184 ∷ []) 0 three-Holds (laid_real 1184 8 (omega arith) 3)

release_apa-Released_example :
    Released tiny 1 running 1192 1200 1 (1192 ∷ 1184 ∷ []) 0 (release_apa tiny 1 running 1192)
release_apa-Released_example =
    release_apa-Released tiny 1 running 1192 (1192 ∷ 1184 ∷ []) 0 (omega arith) two_left-Holds

-- No event can be registered.
abbrev deaf : Host Handler (List ℕ)
deaf = record tiny { create_file_event = λ e fd mask f p. (false, e) }

watch_remote_twice_example :
    Holds
      (watch_remote deaf 1 (record running { ca_pool = one_left }) 1200 1192).ca_pool
      (1200 ∷ 1200 ∷ 1184 ∷ [])
      0
watch_remote_twice_example =
    watch_remote_twice deaf 1 (record running { ca_pool = one_left }) 1200 1192 (1184 ∷ []) 0
      (λ e fd mask f q. refl) one_left-Holds

get_endpoint_least_loaded-LeastLoaded_example :
    LeastLoaded served 3 (get_endpoint_least_loaded served 3)
get_endpoint_least_loaded-LeastLoaded_example =
    get_endpoint_least_loaded-LeastLoaded served 3 (omega arith)

get_endpoint_min_latency_lem_example :
    (f r : ℕ) × (get_endpoint_min_latency served 2 ≡ some r)
    × Fastest served 2 f
    × ((((served 0).num_reqs < load_balance_threshold)
            ⊎ (load_protect_threshold ≤ outstanding_of served f))
          × LeastLoaded served 2 r
        ⊎ (load_balance_threshold ≤ (served 0).num_reqs)
          × (outstanding_of served f < load_protect_threshold)
          × (r ≡ f))
get_endpoint_min_latency_lem_example =
    get_endpoint_min_latency_lem served 2 (omega arith) (λ j h. omega arith)
