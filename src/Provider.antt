-- ===== src/Provider.antt =====
-- src/provider.h and the state of src/provider.c: the agent beside a provider. It takes HTTP requests
-- from the consumers' agents (`ConnectionCaa`), turns each into a Dubbo request for the local
-- provider (`ConnectionAp`), and turns the response into an HTTP response.
-- The translation of a request is in `Dubbo`, that of a response in `Response`, the handlers in
-- `Handlers`.
pub mod Dubbo
pub mod Response
pub mod Handlers
pub mod Local
pub mod Frame
pub mod Sent
pub mod Bounds
pub mod ParseBounds
pub mod Safety
pub mod History
pub mod Sendings
pub mod Requests
pub mod Translation
pub mod Delivered
pub mod Posted
pub mod Arrived
pub mod ArrivedTests
pub mod Answered
pub mod NextRequest
pub mod Written
pub mod WrittenTests
pub mod Setup
pub mod Register
pub mod Registered
pub mod Start
pub mod Tests
pub mod HistoryTests
pub mod TranslationTests
pub mod StartTests
use dubbo_service_mesh.Base.{
  ◌+◌, ◌≤◌, ◌≡◌, length, ℕ, zero, suc, ltb, Bool, false, Option, none, some, List, ℤ, pos, negsuc,
  is_neg, ltb_ℤ, if◌then◌else◌, ◌>>=◌,
}
use dubbo_service_mesh.Pool
use dubbo_service_mesh.Pool.{Ptr, null, Pool, Hooks}
use dubbo_service_mesh.Net.{Host, update}
use dubbo_service_mesh.Net.Buffer.{Buf}
use dubbo_service_mesh.Text.{bytes}

-- The functions that provider.c registers with the event loop.
pub data Handler : Type 0 where
  read_from_consumer_agent : Handler
  write_to_local_provider : Handler
  read_from_local_provider : Handler
  write_to_consumer_agent : Handler

-- http_parser, which is not modelled. `P` is the state of a parser and `S` what its callback changes.
-- `execute` is given the callback on_body, which takes a part of the data by its offset and its
-- length; it answers the bytes parsed. No result is a callback that has none.
pub record Parser (P S : Type 0) : Type 0 where
  -- A parser in memory from calloc, and http_parser_init(_, HTTP_REQUEST).
  pub cleared : P
  pub init : P
  pub execute :
      (on_body : S → (at len : ℕ) → Option (ℕ × S)) → P → List ℕ → S → Option (ℕ × (P × S))

-- What the proofs use of http_parser's documentation: it changes what the callback works on only by
-- calling it, each time with a part of the data.
pub record ParserLaws {P S : Type 0} (http : Parser P S) : Type 1 where
  pub keeps :
      (I : S → Type 0) (on_body : S → (at len : ℕ) → Option (ℕ × S)) (q : P) (bs : List ℕ) (s : S)
      (r : ℕ × (P × S))
      → ((s' : S) (at len : ℕ) (a : ℕ × S)
          → at + len ≤ length bs
          → on_body s' at len ≡ some a
          → I s'
          → I a.1)
      → http.execute on_body q bs s ≡ some r
      → I s
      → I r.1.1

-- Consumer Agent <-> Agent. There is one event loop, so `event_loop` is left out.
pub record ConnectionCaa (P : Type 0) : Type 0 where
  pub fd : ℤ
  pub buf_in : Buf
  pub nread_in : ℕ
  pub buf_req : Buf
  pub len_req : ℕ
  pub nwrite_req : ℕ
  pub buf_resp : Buf
  pub nread_resp : ℕ
  pub parser : P
  pub processing : Bool
  pub conn_ap : Ptr

-- Agent <-> Provider
pub record ConnectionAp : Type 0 where
  pub fd : ℤ

-- The static variables of provider.c, the objects in its pools by address, and the host.
pub record Provider (P E : Type 0) : Type 0 where
  pub host : E
  pub caa : Ptr → ConnectionCaa P
  pub ap : Ptr → ConnectionAp
  pub cur_request_id : ℕ
  pub caa_pool : Pool
  pub ap_pool : Pool
  pub dubbo_port : ℤ

module _ {P E : Type 0} where
  abbrev pub put_caa : Provider P E → Ptr → ConnectionCaa P → Provider P E
  put_caa s p c = record s { caa = update s.caa p c }

  abbrev pub put_ap : Provider P E → Ptr → ConnectionAp → Provider P E
  put_ap s a c = record s { ap = update s.ap a c }

  abbrev pub zero_caa : Parser P (Provider P E) → ConnectionCaa P
  zero_caa http = record {
    fd = pos 0;
    buf_in = λ _. 0;
    nread_in = 0;
    buf_req = λ _. 0;
    len_req = 0;
    nwrite_req = 0;
    buf_resp = λ _. 0;
    nread_resp = 0;
    parser = http.cleared;
    processing = false;
    conn_ap = null;
  }

module _ {P E : Type 0} (http : Parser P (Provider P E)) (net : Host Handler E) (tries : ℕ) where
  -- The do-while loop of init_connection_ap, for at most `tries` attempts.
  unfoldable pub connect : (tries : ℕ) → E → ℤ → Option (ℤ × E)
  connect zero e port = none
  connect (suc n) e port =
      let (fd, e') = net.tcp_connect e (bytes "127.0.0.1") port in
      let again = connect n (net.sleep e' 1) port in
      if is_neg fd then again else some (fd, net.tune e' fd)

  unfoldable pub init_connection_ap : Provider P E → Ptr → Option (ℕ × Provider P E)
  unfolding connect
  init_connection_ap s a = connect tries s.host s.dubbo_port >>= λ (fd, e).
      some (1, put_ap (record s { host = e }) a (record { fd = fd }))

  unfoldable pub cleanup_connection_ap : Provider P E → Ptr → Provider P E
  cleanup_connection_ap s a =
      let fd = (s.ap a).fd in
      if ltb_ℤ (pos 0) fd
      then put_ap (record s { host = net.close s.host fd }) a (record { fd = negsuc 0 })
      else s

  abbrev pub ap_hooks : Hooks (Provider P E)
  ap_hooks = record {
    alloc = none;
    init = some init_connection_ap;
    cleanup = some cleanup_connection_ap;
    free = none;
    malloc = λ s n. let (p, e) = net.malloc s.host n in (p, record s { host = e });
    calloc = λ s n m. let (p, e) = net.calloc s.host n m in (p, record s { host = e });
    dealloc = λ s p. record s { host = net.dealloc s.host p };
    memset = λ s p n. put_ap s p (record { fd = pos 0 });
  }
