-- ===== src/Consumer/Connect/Retry.antt =====
-- The loop of init_connection_apa (src/consumer.c) ends as soon as the remote agent accepts.
use dubbo_service_mesh.Base.{
  ℕ, zero, suc, ◌<◌, ◌≡◌, refl, true, false, some, List, arith, ℤ, is_neg,
}
use dubbo_service_mesh.Pool.{Ptr}
use dubbo_service_mesh.Net.{Host}
use dubbo_service_mesh.Consumer.{Consumer, Handler, put_apa}
use dubbo_service_mesh.Consumer.Connect.{connect, init_connection_apa}

module _ {E : Type 0} (net : Host Handler E) (ip : List ℕ) (port : ℤ) where
  -- The host after `k` refused attempts, each with the second of sleep behind it.
  abbrev pub refused : (k : ℕ) → E → E
  refused zero e = e
  refused (suc k) e = refused k (net.sleep (net.tcp_connect e ip port).1 1)

  -- Attempt `k`, counted from 0, is the first that succeeds.
  pub record FirstSuccess (k : ℕ) (e : E) : Type 0 where
    pub fails : (j : ℕ) → j < k → is_neg (net.tcp_connect (refused j e) ip port).0 ≡ true
    pub succeeds : is_neg (net.tcp_connect (refused k e) ip port).0 ≡ false

  later_success :
      (k : ℕ) (e : E)
      → FirstSuccess (suc k) e
      → FirstSuccess k (net.sleep (net.tcp_connect e ip port).1 1)
  later_success k e f = record {
    fails = λ j h. f.fails (suc j) (omega arith);
    succeeds = f.succeeds;
  }

  connect-FirstSuccess :
      (k tries : ℕ) (e : E)
      → FirstSuccess k e
      → k < tries
      → let (fd, e') = net.tcp_connect (refused k e) ip port in
        connect net tries e ip port ≡ some (fd, net.tune e' fd)
  unfolding connect
  connect-FirstSuccess k zero e f h = elim h [ ]
  connect-FirstSuccess zero (suc n) e f h = rw f.succeeds refl
  connect-FirstSuccess (suc k) (suc n) e f h = rw (f.fails 0 (omega arith)) (
      connect-FirstSuccess k n (net.sleep (net.tcp_connect e ip port).1 1) (later_success k e f)
        (omega arith))

module _ {E : Type 0} (net : Host Handler E) where
  -- If attempt `k` to connect to an endpoint is the first that succeeds, init_connection_apa returns
  -- 1 whatever number of attempts above `k` is allowed, having slept after each of the `k` others,
  -- and the element is a connection with the new socket to that endpoint.
  pub init_connection_apa_terminates :
      (k tries i : ℕ) (s : Consumer E) (a : Ptr)
      → FirstSuccess net (s.endpoints i).ip (s.endpoints i).port k s.host
      → k < tries
      → let (fd, e) =
          net.tcp_connect
            (refused net (s.endpoints i).ip (s.endpoints i).port k s.host)
            (s.endpoints i).ip
            (s.endpoints i).port in
        init_connection_apa net tries i s a
        ≡ some (
          1,
          put_apa
              (record s { host = net.tune e fd })
              a
              (record { fd = fd; endpoint = i; req_start = 0 }),
        )
  unfolding init_connection_apa
  init_connection_apa_terminates k tries i s a f h =
      rw (connect-FirstSuccess net (s.endpoints i).ip (s.endpoints i).port k tries s.host f h) refl
