-- ===== src/Provider/History.antt =====
-- What holds after any history of events: the event loop accepts connections and calls the handlers
-- of src/provider.c in any order, for any socket and connection, and the world changes in between.
use dubbo_service_mesh.Base.{ℤ, ℕ, ◌+◌, ◌≤◌, ◌≡◌, some, arith}
use dubbo_service_mesh.Pool.{Ptr}
use dubbo_service_mesh.Net.{Host, HostLaws}
use dubbo_service_mesh.Net.Buffer.{size_sub}
use dubbo_service_mesh.Provider.{Provider, Handler, Parser, ParserLaws}
use dubbo_service_mesh.Provider.Dubbo.{http_buf_size, req_buf_size, resp_buf_size}
use dubbo_service_mesh.Provider.Handlers.{provider_http_handler}
use dubbo_service_mesh.Provider.Local.{handle}
use dubbo_service_mesh.Provider.Bounds.{IsBounded, AllBounded, provider_http_handler-AllBounded}
use dubbo_service_mesh.Provider.Safety.{handle_bounds}

module _ {P E : Type 0} (http : Parser P (Provider P E)) (net : Host Handler E) (tries : ℕ) where
  pub data Step (s : Provider P E) : Provider P E → Type 0 where
    accepted :
        {t : Provider P E} (fd : ℤ) → provider_http_handler http net tries s fd ≡ some t → Step s t
    fired :
        {t : Provider P E} (f : Handler) (fd : ℤ) (p : Ptr)
        → handle http net tries s f fd p ≡ some t
        → Step s t
    elsewhere : (e : E) → Step s (record s { host = e })

  pub data Reach (s : Provider P E) : Provider P E → Type 0 where
    here : Reach s s
    next : {t u : Provider P E} → Reach s t → Step t u → Reach s u

  Step-AllBounded :
      {s t : Provider P E} → HostLaws net → ParserLaws http → Step s t → AllBounded s → AllBounded t
  Step-AllBounded {s} laws parses (accepted {t} fd e) v =
      provider_http_handler-AllBounded http net tries s t fd e v
  Step-AllBounded {s} laws parses (fired {t} f fd p e) v =
      handle_bounds http net tries s t f fd p laws parses v e
  Step-AllBounded laws parses (elsewhere e) v = v

  Reach-AllBounded :
      {s t : Provider P E}
      → HostLaws net
      → ParserLaws http
      → Reach s t
      → AllBounded s
      → AllBounded t
  Reach-AllBounded laws parses here v = v
  Reach-AllBounded laws parses (next r st) v =
      Step-AllBounded laws parses st (Reach-AllBounded laws parses r v)

  -- Where the handlers of a connection act: inside its buffers, with counts that have not wrapped.
  pub record Space (s : Provider P E) (p : Ptr) : Type 0 where
    pub read_in : (s.caa p).nread_in + size_sub http_buf_size (s.caa p).nread_in ≡ http_buf_size
    pub read_resp :
        (s.caa p).nread_resp + size_sub resp_buf_size (s.caa p).nread_resp ≡ resp_buf_size
    pub write_req :
        (s.caa p).nwrite_req + size_sub (s.caa p).len_req (s.caa p).nwrite_req ≡ (s.caa p).len_req
    pub room_req : (s.caa p).len_req ≤ req_buf_size

  -- After any history that starts with every connection within its buffers, the room that read is
  -- given is exactly what is left of `buf_in` or `buf_resp`, and what write is given is exactly the
  -- part of the request in `buf_req` that has not been written, for every connection.
  pub Reach-Space :
      {s t : Provider P E} (p : Ptr)
      → HostLaws net
      → ParserLaws http
      → AllBounded s
      → Reach s t
      → Space t p
  Reach-Space {s} {t} p laws parses v r =
      let b : IsBounded (t.caa p) = Reach-AllBounded laws parses r v p in omega arith
