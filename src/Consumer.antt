-- ===== src/Consumer.antt =====
-- src/consumer.h and the state of src/consumer.c: the agent beside a consumer. It takes connections
-- from consumers (`ConnectionCa`), picks an endpoint for each request and relays the bytes over a
-- pooled connection to the provider's agent (`ConnectionApa`).
-- The handlers are in `Handlers` and the choice of an endpoint in `Balance`.
pub mod Balance
pub mod Lottery
pub mod Draw
pub mod DrawTests
pub mod Connect
pub mod Handlers
pub mod Setup
pub mod Added
pub mod Discovered
pub mod Frame
pub mod Bounds
pub mod RequestBounds
pub mod Safety
pub mod History
pub mod Relay
pub mod Sent
pub mod SentRequest
pub mod Delivery
pub mod Flow
pub mod Replies
pub mod Drain
pub mod Start
pub mod Abort
pub mod Choice
pub mod Tests
pub mod HistoryTests
pub mod StartTests
use dubbo_service_mesh.Base.{ℕ, ◌+◌, Bool, Option, none, some, List, ℤ, pos, negsuc, if◌then◌else◌}
use dubbo_service_mesh.Pool.{Ptr, null, Pool, Hooks}
use dubbo_service_mesh.Net.{Host, update}
use dubbo_service_mesh.Net.Buffer.{Buf}

-- CONSUMER_HTTP_REQ_BUF_SIZE and CONSUMER_HTTP_RESP_BUF_SIZE
abbrev pub req_buf_size : ℕ
req_buf_size = 2048

abbrev pub resp_buf_size : ℕ
resp_buf_size = 256

-- Consumer <-> Agent
pub record ConnectionCa : Type 0 where
  pub fd : ℤ
  pub buf_in : Buf
  pub nread_in : ℕ
  pub nwrite_in : ℕ
  pub buf_out : Buf
  pub nread_out : ℕ
  pub nwrite_out : ℕ
  pub conn_apa : Ptr

-- Agent <-> Provider Agent. An endpoint is its index in `endpoints`.
pub record ConnectionApa : Type 0 where
  pub fd : ℤ
  pub endpoint : ℕ
  pub req_start : ℕ

-- The counters of requests and milliseconds are not wrapped.
pub record Endpoint : Type 0 where
  pub ip : List ℕ
  pub port : ℤ
  pub total_ms : ℤ
  pub num_reqs : ℕ
  pub score : ℤ
  pub conn_pool : Pool

-- The static variables of consumer.c, the objects in its pools by address, and the host.
pub record Consumer (E : Type 0) : Type 0 where
  pub host : E
  pub ca : Ptr → ConnectionCa
  pub apa : Ptr → ConnectionApa
  pub endpoints : ℕ → Endpoint
  pub num_endpoints : ℕ
  pub total_score : ℤ
  pub request_counter : ℕ
  pub ca_pool : Pool

-- The functions that consumer.c registers with the event loop.
pub data Handler : Type 0 where
  read_from_consumer : Handler
  write_to_remote_agent : Handler
  read_from_remote_agent : Handler
  write_to_consumer : Handler

-- memset(conn_ca, 0, sizeof(connection_ca_t))
abbrev pub zero_ca : ConnectionCa
zero_ca = record {
  fd = pos 0;
  buf_in = λ _. 0;
  nread_in = 0;
  nwrite_in = 0;
  buf_out = λ _. 0;
  nread_out = 0;
  nwrite_out = 0;
  conn_apa = null;
}

module _ {E : Type 0} where
  abbrev pub put_ca : Consumer E → Ptr → ConnectionCa → Consumer E
  put_ca s p c = record s { ca = update s.ca p c }

  abbrev pub put_apa : Consumer E → Ptr → ConnectionApa → Consumer E
  put_apa s p c = record s { apa = update s.apa p c }

  abbrev pub put_endpoint : Consumer E → ℕ → Endpoint → Consumer E
  put_endpoint s i e = record s { endpoints = update s.endpoints i e }

  -- connection_ca_pool: no Alloc, Cleanup or Free, and PoolMemset for Init.
  abbrev pub ca_hooks : Host Handler E → Hooks (Consumer E)
  ca_hooks net = record {
    alloc = none;
    init = none;
    cleanup = none;
    free = none;
    malloc = λ s n. let (p, e) = net.malloc s.host n in (p, record s { host = e });
    calloc = λ s n m. let (p, e) = net.calloc s.host n m in (p, record s { host = e });
    dealloc = λ s p. record s { host = net.dealloc s.host p };
    memset = λ s p n. put_ca s p zero_ca;
  }
