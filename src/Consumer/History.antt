-- ===== src/Consumer/History.antt =====
-- What holds after any history of events: the event loop accepts connections and calls the handlers
-- of src/consumer.c in any order, for any socket and connection, and the world changes in between.
use dubbo_service_mesh.Base.{ℤ, ℕ, ◌+◌, ◌≡◌, some, arith}
use dubbo_service_mesh.Pool.{Ptr}
use dubbo_service_mesh.Net.{Host, HostLaws}
use dubbo_service_mesh.Net.Buffer.{size_sub}
use dubbo_service_mesh.Consumer.{Consumer, Handler, req_buf_size, resp_buf_size}
use dubbo_service_mesh.Consumer.Handlers.{consumer_http_handler, handle}
use dubbo_service_mesh.Consumer.Bounds.{IsBounded, AllBounded, consumer_http_handler-AllBounded}
use dubbo_service_mesh.Consumer.Safety.{handle-AllBounded}

module _ {E : Type 0} (net : Host Handler E) (tries : ℕ) where
  pub data Step (s : Consumer E) : Consumer E → Type 0 where
    accepted : {t : Consumer E} (fd : ℤ) → consumer_http_handler net tries s fd ≡ some t → Step s t
    fired :
        {t : Consumer E} (f : Handler) (fd : ℤ) (p : Ptr)
        → handle net tries s f fd p ≡ some t
        → Step s t
    elsewhere : (e : E) → Step s (record s { host = e })

  pub data Reach (s : Consumer E) : Consumer E → Type 0 where
    here : Reach s s
    next : {t u : Consumer E} → Reach s t → Step t u → Reach s u

  Step-AllBounded : {s t : Consumer E} → HostLaws net → Step s t → AllBounded s → AllBounded t
  Step-AllBounded {s} laws (accepted {t} fd e) v =
      consumer_http_handler-AllBounded net tries s t fd e v
  Step-AllBounded {s} laws (fired {t} f fd p e) v = handle-AllBounded net tries s t f fd p laws v e
  Step-AllBounded laws (elsewhere e) v = v

  Reach-AllBounded : {s t : Consumer E} → HostLaws net → Reach s t → AllBounded s → AllBounded t
  Reach-AllBounded laws here v = v
  Reach-AllBounded laws (next r st) v = Step-AllBounded laws st (Reach-AllBounded laws r v)

  -- Where a connection's next read and write act: inside its buffers, with counts that have not
  -- wrapped.
  pub record Room (s : Consumer E) (p : Ptr) : Type 0 where
    pub read_in : (s.ca p).nread_in + size_sub req_buf_size (s.ca p).nread_in ≡ req_buf_size
    pub read_out : (s.ca p).nread_out + size_sub resp_buf_size (s.ca p).nread_out ≡ resp_buf_size
    pub write_in :
        (s.ca p).nwrite_in + size_sub (s.ca p).nread_in (s.ca p).nwrite_in ≡ (s.ca p).nread_in
    pub write_out :
        (s.ca p).nwrite_out + size_sub (s.ca p).nread_out (s.ca p).nwrite_out ≡ (s.ca p).nread_out

  -- After any history that starts with every connection within its buffers, the room that read is
  -- given is exactly what is left of the buffer, and what write is given is exactly what has been
  -- read and not yet written, for every connection and both directions.
  pub Reach-Room : {s t : Consumer E} (p : Ptr) → HostLaws net → AllBounded s → Reach s t → Room t p
  Reach-Room {s} {t} p laws v r =
      let b : IsBounded (t.ca p) = Reach-AllBounded laws r v p in omega arith
