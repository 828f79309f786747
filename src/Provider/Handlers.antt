-- ===== src/Provider/Handlers.antt =====
-- The event handlers of src/provider.c. What read, write, aeCreateFileEvent and the HTTP parser
-- answer comes from the host and the parser; log_msg is left out, but for FATAL, which ends the
-- process. A handler has no result where the process ends or memory outside an array is touched.
use dubbo_service_mesh.Base.{
  ℕ, ◌+◌, ◌-◌, ◌%◌, ◌^◌, true, false, Option, none, some, List, [], ◌∷◌, length, ◌==◌, ℤ, negsuc,
  is_neg, if◌then◌else◌, ◌>>=◌,
}
use dubbo_service_mesh.Pool
use dubbo_service_mesh.Pool.{Ptr, null, Hooks}
use dubbo_service_mesh.Net.{Host, received, closed, failed, readable, writable, both_ways}
use dubbo_service_mesh.Net.Buffer.{blit, slice, size_sub}
use dubbo_service_mesh.Provider.{
  Provider, Handler, Parser, read_from_consumer_agent, write_to_local_provider,
  read_from_local_provider, put_caa, put_ap, zero_caa, ap_hooks,
}
use dubbo_service_mesh.Provider.Dubbo.{
  http_buf_size, dubbo_header_len, parse_body, call_payload, assemble, request_fits,
}

-- `tries` bounds the attempts to connect to the provider.
module _ {P E : Type 0} (http : Parser P (Provider P E)) (net : Host Handler E) (tries : ℕ) where
  abbrev pub delete_events : Provider P E → ℤ → ℕ → Provider P E
  delete_events s fd mask = record s { host = net.delete_file_event s.host fd mask }

  abbrev pub close_fd : Provider P E → ℤ → Provider P E
  close_fd s fd = record s { host = net.close s.host fd }

  -- init_connection_caa. No result where the local provider's pool is exhausted: the source then
  -- aborts the element with its event_loop, which in memory from calloc is NULL.
  unfoldable pub init_connection_caa : Provider P E → Ptr → Option (ℕ × Provider P E)
  init_connection_caa s p = Pool.get (ap_hooks http net tries) s.ap_pool s >>= λ (a, pool, s').
      if a == null
      then none
      else some (1, put_caa (record s' { ap_pool = pool }) p (record (s'.caa p) { conn_ap = a }))

  abbrev pub caa_hooks : Hooks (Provider P E)
  caa_hooks = record {
    alloc = none;
    init = some init_connection_caa;
    cleanup = some (λ s p. s);
    free = none;
    malloc = λ s n. let (p, e) = net.malloc s.host n in (p, record s { host = e });
    calloc = λ s n m. let (p, e) = net.calloc s.host n m in (p, record s { host = e });
    dealloc = λ s p. record s { host = net.dealloc s.host p };
    memset = λ s p n. put_caa s p (zero_caa http);
  }

  -- PoolReturn(connection_caa_pool, conn_caa)
  unfoldable pub return_caa : Provider P E → Ptr → Provider P E
  return_caa s p =
      let (pool, s') = Pool.return caa_hooks s.caa_pool s p in record s' { caa_pool = pool }

  -- The part of abort_connection_caa for the connection to the local provider.
  unfoldable pub abort_ap : Provider P E → Ptr → Provider P E
  abort_ap s a =
      if a == null
      then s
      else (let s1 = delete_events s (s.ap a).fd both_ways in
          let s2 = close_fd s1 (s.ap a).fd in put_ap s2 a (record { fd = negsuc 0 }))

  unfoldable pub abort_connection_caa : Provider P E → Ptr → Provider P E
  unfolding abort_ap return_caa
  abort_connection_caa s p =
      let c = s.caa p in
      let s1 = delete_events s c.fd both_ways in
      let s2 = close_fd s1 c.fd in
      let s3 = put_caa s2 p (record c { fd = negsuc 0 }) in return_caa (abort_ap s3 c.conn_ap) p

  -- aeCreateFileEvent for a connection, which is aborted if it fails.
  unfoldable pub create_or_abort : Provider P E → ℤ → ℕ → Handler → Ptr → Provider P E
  unfolding abort_connection_caa
  create_or_abort s fd mask f p =
      let (fine, e) = net.create_file_event s.host fd mask f p in
      let s' = record s { host = e } in if fine then s' else abort_connection_caa s' p

  -- provider_http_handler once PoolGet has answered `p`. The failure to watch the socket is logged as
  -- FATAL.
  unfoldable pub accept_caa : Provider P E → ℤ → Ptr → Option (Provider P E)
  accept_caa s fd p =
      if p == null
      then some (close_fd s fd)
      else (let c = record (s.caa p) {
        fd = fd;
        nread_in = 0;
        len_req = 0;
        nwrite_req = 0;
        nread_resp = 0;
        parser = http.init;
        processing = false;
      } in
          let (fine, e) = net.create_file_event s.host fd readable read_from_consumer_agent p in
          let s' = record (put_caa s p c) { host = e } in if fine then some s' else none)

  unfoldable pub provider_http_handler : Provider P E → (fd : ℤ) → Option (Provider P E)
  unfolding accept_caa
  provider_http_handler s fd = Pool.get caa_hooks s.caa_pool s >>= λ (p, pool, s').
      accept_caa (record s' { caa_pool = pool }) fd p

  -- The end of on_http_body: both events for the connection to the local provider.
  unfoldable pub watch_local : Provider P E → Ptr → (a : Ptr) → Provider P E
  unfolding create_or_abort
  watch_local s p a =
      let s1 = create_or_abort s (s.ap a).fd writable write_to_local_provider p in
      create_or_abort s1 (s1.ap a).fd readable read_from_local_provider p

  -- on_http_body once the payload `text` is known.
  unfoldable pub send_request : Provider P E → Ptr → List ℕ → Option (ℕ × Provider P E)
  unfolding watch_local
  send_request s p text =
      let c = s.caa p in
      let s1 = put_caa s p (record c {
        processing = true;
        buf_req = assemble c.buf_req s.cur_request_id text;
        len_req = length text + dubbo_header_len;
      }) in
      let s2 = record s1 { cur_request_id = (s.cur_request_id + 1) % 2 ^ 32 } in
      if request_fits text
      then if c.conn_ap == null then none else some (0, watch_local s2 p c.conn_ap)
      else none

  -- on_http_body for the connection `p`, `at` being a place in its `buf_in`.
  unfoldable pub on_http_body : Ptr → Provider P E → (at len : ℕ) → Option (ℕ × Provider P E)
  unfolding send_request
  on_http_body p s at len =
      let c = s.caa p in
      if c.processing
      then some (1, s)
      else parse_body (slice c.buf_in at (http_buf_size - at)) len >>= λ call.
          send_request s p (call_payload call)

  -- http_parser_execute on the `bs` that stand in `buf_in` from `nread_in` on.
  unfoldable pub execute : Provider P E → Ptr → List ℕ → Option (ℕ × Provider P E)
  unfolding on_http_body
  execute s p bs =
      let c = s.caa p in
      http.execute (λ s' at len. on_http_body p s' (c.nread_in + at) len) c.parser bs s
      >>= λ (n, r). let (q, s') = r in some (n, put_caa s' p (record (s'.caa p) { parser = q }))

  -- read_from_consumer_agent after a successful read of `bs`.
  unfoldable pub parse_request : Provider P E → Ptr → List ℕ → Option (Provider P E)
  unfolding execute
  parse_request s p bs =
      let c = s.caa p in
      let s1 = put_caa s p (record c { buf_in = blit c.buf_in c.nread_in bs }) in
      execute s1 p bs >>= λ (nparsed, s').
      let c' = s'.caa p in
      some (
        put_caa s' p
          (record c' { nread_in = if nparsed == length bs then c'.nread_in + length bs else 0 }))

  -- read_from_consumer_agent when the consumer's agent has closed.
  unfoldable pub agent_closed : Provider P E → Ptr → ℤ → Option (Provider P E)
  unfolding execute return_caa
  agent_closed s p fd = execute s p [] >>= λ (nparsed, s').
      let s2 = close_fd (delete_events s' fd both_ways) fd in
      some (return_caa (put_caa s2 p (record (s2.caa p) { fd = negsuc 0 })) p)

  unfoldable pub on_read_from_consumer_agent : Provider P E → (fd : ℤ) → Ptr → Option (Provider P E)
  unfolding parse_request agent_closed abort_connection_caa
  on_read_from_consumer_agent s fd p =
      let c = s.caa p in
      if is_neg c.fd
      then some (delete_events s fd both_ways)
      else (let (r, e) = net.read s.host fd (size_sub http_buf_size c.nread_in) in
          let s1 = record s { host = e } in
          let on_bytes = λ (b : ℕ) (bs : List ℕ). parse_request s1 p (b ∷ bs) in
          elim r [
            | received b bs ↦ on_bytes b bs
            | closed ↦ agent_closed s1 p fd
            | failed again ↦ some (if again then s1 else abort_connection_caa s1 p)
          ])
