-- ===== src/Consumer/Connect.antt =====
-- The connections to the remote agents (src/consumer.c): init_connection_apa, cleanup_connection_apa
-- and the hooks of an endpoint's pool.
pub mod Retry
use dubbo_service_mesh.Base.{
  ℕ, zero, suc, Option, none, some, List, ℤ, pos, negsuc, is_neg, ltb_ℤ, if◌then◌else◌, ◌>>=◌,
}
use dubbo_service_mesh.Pool.{Ptr, Hooks}
use dubbo_service_mesh.Net.{Host}
use dubbo_service_mesh.Consumer.{Consumer, Handler, put_apa}

module _ {E : Type 0} (net : Host Handler E) where
  -- The do-while loop of init_connection_apa, for at most `tries` attempts: a socket, or nothing
  -- while the remote agent has refused all of them.
  unfoldable pub connect : (tries : ℕ) → E → List ℕ → ℤ → Option (ℤ × E)
  connect zero e ip port = none
  connect (suc n) e ip port =
      let (fd, e') = net.tcp_connect e ip port in
      let again = connect n (net.sleep e' 1) ip port in
      if is_neg fd then again else some (fd, net.tune e' fd)

  -- init_connection_apa for endpoint `i`; it returns 1.
  unfoldable pub init_connection_apa : (tries i : ℕ) → Consumer E → Ptr → Option (ℕ × Consumer E)
  unfolding connect
  init_connection_apa tries i s a =
      connect tries s.host (s.endpoints i).ip (s.endpoints i).port >>= λ (fd, e).
      some (1, put_apa (record s { host = e }) a (record { fd = fd; endpoint = i; req_start = 0 }))

  unfoldable pub cleanup_connection_apa : Consumer E → Ptr → Consumer E
  cleanup_connection_apa s a =
      let fd = (s.apa a).fd in
      if ltb_ℤ (pos 0) fd
      then put_apa (record s { host = net.close s.host fd }) a (record (s.apa a) { fd = negsuc 0 })
      else s

  -- The hooks of `endpoints[i].conn_pool`.
  abbrev pub apa_hooks : (tries i : ℕ) → Hooks (Consumer E)
  apa_hooks tries i = record {
    alloc = none;
    init = some (init_connection_apa tries i);
    cleanup = some cleanup_connection_apa;
    free = none;
    malloc = λ s n. let (p, e) = net.malloc s.host n in (p, record s { host = e });
    calloc = λ s n m. let (p, e) = net.calloc s.host n m in (p, record s { host = e });
    dealloc = λ s p. record s { host = net.dealloc s.host p };
    memset = λ s p n. put_apa s p (record { fd = pos 0; endpoint = 0; req_start = 0 });
  }
