-- ===== src/Consumer/Handlers.antt =====
-- The event handlers of src/consumer.c. What read, write, aeCreateFileEvent and the clock answer
-- comes from the host; log_msg is left out. A handler with PoolGet on its path has an optional
-- result, since an Init may not return.
use dubbo_service_mesh.Base.{
  ℕ, ◌+◌, Option, some, List, ◌∷◌, length, ◌==◌, ℤ, negsuc, is_neg, ◌+ℤ◌, sub_ℕ, if◌then◌else◌,
  ◌>>=◌,
}
use dubbo_service_mesh.Pool
use dubbo_service_mesh.Pool.{Ptr, null}
use dubbo_service_mesh.Net.{
  Host, received, closed, failed, wrote, refused, readable, writable, both_ways,
}
use dubbo_service_mesh.Net.Buffer.{blit, slice, size_sub}
use dubbo_service_mesh.Net.Clock.{get_current_time_ms}
use dubbo_service_mesh.Consumer.{
  Consumer, Handler, read_from_consumer, write_to_remote_agent, read_from_remote_agent,
  write_to_consumer, req_buf_size, resp_buf_size, zero_ca, put_ca, put_apa, put_endpoint, ca_hooks,
}
use dubbo_service_mesh.Consumer.Connect.{apa_hooks}
use dubbo_service_mesh.Consumer.Balance.{get_endpoint_min_latency}

-- `tries` bounds the attempts to connect when a pool has to make a new connection.
module _ {E : Type 0} (net : Host Handler E) (tries : ℕ) where
  -- aeDeleteFileEvent and close.
  abbrev pub delete_events : Consumer E → ℤ → ℕ → Consumer E
  delete_events s fd mask = record s { host = net.delete_file_event s.host fd mask }

  abbrev pub close_fd : Consumer E → ℤ → Consumer E
  close_fd s fd = record s { host = net.close s.host fd }

  -- PoolReturn(connection_ca_pool, conn_ca)
  unfoldable pub return_ca : Consumer E → Ptr → Consumer E
  return_ca s p =
      let (pool, s') = Pool.return (ca_hooks net) s.ca_pool s p in record s' { ca_pool = pool }

  -- The part of abort_connection_ca for the connection to the provider's agent.
  unfoldable pub abort_apa : Consumer E → Ptr → Consumer E
  abort_apa s a =
      if a == null
      then s
      else (let s1 = delete_events s (s.apa a).fd both_ways in
          let s2 = close_fd s1 (s.apa a).fd in put_apa s2 a (record (s.apa a) { fd = negsuc 0 }))

  unfoldable pub abort_connection_ca : Consumer E → Ptr → Consumer E
  unfolding abort_apa return_ca
  abort_connection_ca s p =
      let c = s.ca p in
      let s1 = delete_events s c.fd both_ways in
      let s2 = close_fd s1 c.fd in
      let s3 = put_ca s2 p (record c { fd = negsuc 0 }) in return_ca (abort_apa s3 c.conn_apa) p

  -- aeCreateFileEvent for a connection, which is aborted if it fails.
  unfoldable pub create_or_abort : Consumer E → ℤ → ℕ → Handler → Ptr → Consumer E
  unfolding abort_connection_ca
  create_or_abort s fd mask f p =
      let (fine, e) = net.create_file_event s.host fd mask f p in
      let s' = record s { host = e } in if fine then s' else abort_connection_ca s' p

  -- consumer_http_handler once PoolGet has answered `p`.
  unfoldable pub accept_ca : Consumer E → ℤ → Ptr → Consumer E
  unfolding create_or_abort
  accept_ca s fd p =
      if p == null
      then close_fd s fd
      else create_or_abort (put_ca s p (record zero_ca { fd = fd })) fd readable read_from_consumer
          p

  unfoldable pub consumer_http_handler : Consumer E → (fd : ℤ) → Option (Consumer E)
  unfolding accept_ca
  consumer_http_handler s fd = Pool.get (ca_hooks net) s.ca_pool s >>= λ (p, pool, s').
      some (accept_ca (record s' { ca_pool = pool }) fd p)

  -- The end of read_from_consumer: both events for the connection to the remote agent.
  unfoldable pub watch_remote : Consumer E → Ptr → (a : Ptr) → Consumer E
  unfolding create_or_abort
  watch_remote s p a =
      let s1 = create_or_abort s (s.apa a).fd writable write_to_remote_agent p in
      create_or_abort s1 (s1.apa a).fd readable read_from_remote_agent p

  -- PoolGet(endpoint->conn_pool) has answered `a`.
  unfoldable pub take_apa : Consumer E → Ptr → (a : Ptr) → Consumer E
  unfolding abort_connection_ca watch_remote
  take_apa s p a =
      if a == null
      then abort_connection_ca s p
      else watch_remote (put_ca s p (record (s.ca p) { conn_apa = a })) p a

  -- The choice of an endpoint, and PoolGet(endpoint->conn_pool).
  unfoldable pub pick_apa : Consumer E → Ptr → Option (Consumer E)
  unfolding take_apa
  pick_apa s p = get_endpoint_min_latency s.endpoints s.num_endpoints >>= λ i.
      Pool.get (apa_hooks net tries i) (s.endpoints i).conn_pool s >>= λ (a, pool, s').
      some (take_apa (put_endpoint s' i (record (s'.endpoints i) { conn_pool = pool })) p a)

  -- read_from_consumer after a successful read of `bs`.
  unfoldable pub relay_request : Consumer E → Ptr → List ℕ → Option (Consumer E)
  unfolding pick_apa watch_remote
  relay_request s p bs =
      let c = s.ca p in
      let s1 = put_ca s p (record c {
        buf_in = blit c.buf_in c.nread_in bs;
        nread_in = c.nread_in + length bs;
        nread_out = 0;
        nwrite_out = 0;
      }) in
      if c.conn_apa == null then pick_apa s1 p else some (watch_remote s1 p c.conn_apa)

  -- read_from_consumer when the consumer has closed.
  unfoldable pub consumer_closed : Consumer E → Ptr → ℤ → Consumer E
  unfolding return_ca
  consumer_closed s p fd =
      let s1 = return_ca (delete_events s fd both_ways) p in
      close_fd (put_ca s1 p (record (s1.ca p) { fd = negsuc 0 })) fd

  unfoldable pub on_read_from_consumer : Consumer E → (fd : ℤ) → Ptr → Option (Consumer E)
  unfolding relay_request consumer_closed abort_connection_ca
  on_read_from_consumer s fd p =
      let c = s.ca p in
      if is_neg c.fd
      then some (delete_events s fd both_ways)
      else (let (r, e) = net.read s.host fd (size_sub req_buf_size c.nread_in) in
          let s1 = record s { host = e } in
          let on_bytes = λ (b : ℕ) (bs : List ℕ). relay_request s1 p (b ∷ bs) in
          elim r [
            | received b bs ↦ on_bytes b bs
            | closed ↦ some (consumer_closed s1 p fd)
            | failed again ↦ some (if again then s1 else abort_connection_ca s1 p)
          ])

  -- _write_to_remote_agent after write has taken `n` bytes.
  unfoldable pub wrote_to_remote : Consumer E → Ptr → ℤ → ℕ → Consumer E
  unfolding get_current_time_ms
  wrote_to_remote s p fd n =
      let c = s.ca p in
      let done = c.nwrite_in + n == c.nread_in in
      let s1 = put_ca s p (record c { nwrite_in = c.nwrite_in + n }) in
      if done
      then (let s2 = delete_events s1 fd writable in
          let (now, e) = get_current_time_ms net s2.host in
          put_apa (record s2 { host = e }) c.conn_apa
            (record (s2.apa c.conn_apa) { req_start = now }))
      else s1

  unfoldable pub on_write_to_remote_agent : Consumer E → (fd : ℤ) → Ptr → Consumer E
  unfolding wrote_to_remote abort_connection_ca
  on_write_to_remote_agent s fd p =
      let c = s.ca p in
      if is_neg c.fd
      then s
      else (let (r, e) =
            net.write s.host fd (slice c.buf_in c.nwrite_in (size_sub c.nread_in c.nwrite_in)) in
          let s1 = record s { host = e } in
          elim r [
            | wrote n ↦ wrote_to_remote s1 p fd n
            | refused again ↦ if again then s1 else abort_connection_ca s1 p
          ])

  -- The statistics of the endpoint that answered.
  unfoldable pub record_latency : Consumer E → (a : Ptr) → Consumer E
  unfolding get_current_time_ms
  record_latency s a =
      let i = (s.apa a).endpoint in
      let ep = s.endpoints i in
      let (now, e) = get_current_time_ms net s.host in
      put_endpoint (record s { host = e }) i
        (record ep {
          num_reqs = ep.num_reqs + 1;
          total_ms = ep.total_ms +ℤ sub_ℕ now (s.apa a).req_start;
        })

  -- read_from_remote_agent after a successful read of `bs`.
  unfoldable pub relay_response : Consumer E → Ptr → List ℕ → Consumer E
  unfolding create_or_abort record_latency
  relay_response s p bs =
      let c = s.ca p in
      let s1 = put_ca s p (record c {
        buf_out = blit c.buf_out c.nread_out bs;
        nread_out = c.nread_out + length bs;
        nread_in = 0;
        nwrite_in = 0;
      }) in
      let s2 = create_or_abort s1 c.fd writable write_to_consumer p in record_latency s2 c.conn_apa

  unfoldable pub on_read_from_remote_agent : Consumer E → (fd : ℤ) → Ptr → Consumer E
  unfolding relay_response abort_connection_ca
  on_read_from_remote_agent s fd p =
      let c = s.ca p in
      if is_neg c.fd
      then delete_events s fd both_ways
      else (let (r, e) = net.read s.host fd (size_sub resp_buf_size c.nread_out) in
          let s1 = record s { host = e } in
          let on_bytes = λ (b : ℕ) (bs : List ℕ). relay_response s1 p (b ∷ bs) in
          elim r [
            | received b bs ↦ on_bytes b bs
            | closed ↦ abort_connection_ca s1 p
            | failed again ↦ if again then s1 else abort_connection_ca s1 p
          ])

  -- The whole response is out: the connection to the remote agent goes back to its pool.
  unfoldable pub release_apa : Consumer E → Ptr → Consumer E
  release_apa s p =
      let a = (s.ca p).conn_apa in
      if a == null
      then s
      else (let s1 = delete_events s (s.apa a).fd both_ways in
          let i = (s1.apa a).endpoint in
          let (pool, s2) = Pool.return (apa_hooks net tries i) (s1.endpoints i).conn_pool s1 a in
          let s3 = put_endpoint s2 i (record (s2.endpoints i) { conn_pool = pool }) in
          put_ca s3 p (record (s3.ca p) { conn_apa = null }))

  -- _write_to_consumer after write has taken `n` bytes.
  unfoldable pub wrote_to_consumer : Consumer E → Ptr → ℤ → ℕ → Consumer E
  unfolding release_apa
  wrote_to_consumer s p fd n =
      let c = s.ca p in
      let done = c.nwrite_out + n == c.nread_out in
      let s1 = put_ca s p (record c { nwrite_out = c.nwrite_out + n }) in
      if done then release_apa (delete_events s1 fd writable) p else s1

  -- Unlike the other handlers, _write_to_consumer also aborts on EAGAIN.
  unfoldable pub on_write_to_consumer : Consumer E → (fd : ℤ) → Ptr → Consumer E
  unfolding wrote_to_consumer abort_connection_ca
  on_write_to_consumer s fd p =
      let c = s.ca p in
      if is_neg c.fd
      then delete_events s fd both_ways
      else (let (r, e) =
            net.write s.host fd
              (slice c.buf_out c.nwrite_out (size_sub c.nread_out c.nwrite_out)) in
          let s1 = record s { host = e } in
          elim r [
            | wrote n ↦ wrote_to_consumer s1 p fd n
            | refused again ↦ abort_connection_ca s1 p
          ])

  -- The event loop calls handler `f` for `fd` with the connection `p`.
  unfoldable pub handle : Consumer E → Handler → (fd : ℤ) → Ptr → Option (Consumer E)
  unfolding on_read_from_consumer on_write_to_remote_agent on_read_from_remote_agent
      on_write_to_consumer
  handle s f fd p = elim f [
    | read_from_consumer ↦ on_read_from_consumer s fd p
    | write_to_remote_agent ↦ some (on_write_to_remote_agent s fd p)
    | read_from_remote_agent ↦ some (on_read_from_remote_agent s fd p)
    | write_to_consumer ↦ some (on_write_to_consumer s fd p)
  ]
