-- ===== src/Consumer/RequestBounds.antt =====
-- The handlers of the request's way keep every connection within its buffers.
use dubbo_service_mesh.Base.{
  ℤ, ℕ, suc, ◌+◌, ◌≤◌, ◌≡◌, subst, inl, inr, some, List, ◌∷◌, arith, length, ◌==◌, is_neg,
  Bool-cases,
}
use dubbo_service_mesh.Pool.{Ptr, null}
use dubbo_service_mesh.Net.{Host, HostLaws, ReadResult-cases, WriteResult-cases}
use dubbo_service_mesh.Net.Buffer.{blit, slice, size_sub, length-slice}
use dubbo_service_mesh.Consumer.{ConnectionCa, Consumer, Handler, req_buf_size, put_ca}
use dubbo_service_mesh.Consumer.Bounds.{
  IsBounded, StoreBounded, AllBounded, update-StoreBounded, bounded-Rewires,
}
use dubbo_service_mesh.Consumer.Frame.{abort-On, watch-On, pick_apa-On, consumer_closed-On}
use dubbo_service_mesh.Consumer.Handlers.{
  abort_connection_ca, watch_remote, relay_request, consumer_closed, on_read_from_consumer,
  wrote_to_remote, on_write_to_remote_agent,
}

module _ {E : Type 0} (net : Host Handler E) (tries : ℕ) where
  relay_request-AllBounded :
      (s t : Consumer E) (p : Ptr) (bs : List ℕ)
      → relay_request net tries s p bs ≡ some t
      → (s.ca p).nread_in + length bs ≤ req_buf_size
      → AllBounded s
      → AllBounded t
  unfolding relay_request
  relay_request-AllBounded s t p bs got fits v =
      let c = s.ca p in
      let s1 = put_ca s p (record c {
        buf_in = blit c.buf_in c.nread_in bs;
        nread_in = c.nread_in + length bs;
        nread_out = 0;
        nwrite_out = 0;
      }) in
      let v1 : AllBounded s1 = update-StoreBounded s.ca p _ (ground (arith, v p)) v in
      elim (Bool-cases (c.conn_apa == null)) [
        | inl absent ↦ pick_apa-On net tries StoreBounded bounded-Rewires s1 t p (ground arith) v1
        | inr present ↦
            let same : watch_remote net tries s1 p c.conn_apa ≡ t = ground arith in
            subst (λ x. AllBounded x) same
              (watch-On net tries StoreBounded bounded-Rewires s1 p c.conn_apa v1)
      ]

  read_in_fits :
      (c : ConnectionCa) (first : ℕ) (rest : List ℕ)
      → IsBounded c
      → suc (length rest) ≤ size_sub req_buf_size c.nread_in
      → c.nread_in + length (first ∷ rest) ≤ req_buf_size
  read_in_fits c first rest v h = omega arith

  pub on_read_from_consumer-AllBounded :
      (s t : Consumer E) (fd : ℤ) (p : Ptr)
      → HostLaws net
      → on_read_from_consumer net tries s fd p ≡ some t
      → AllBounded s
      → AllBounded t
  unfolding on_read_from_consumer
  on_read_from_consumer-AllBounded s t fd p laws got v =
      let c = s.ca p in
      let count = size_sub req_buf_size c.nread_in in
      let s1 = record s { host = (net.read s.host fd count).1 } in
      elim (Bool-cases (is_neg c.fd)) [
        | inl gone ↦ (let same : s.ca ≡ t.ca = ground arith in subst StoreBounded same v)
        | inr live ↦ elim (ReadResult-cases (net.read s.host fd count).0) [
          | inl (b, bs, e) ↦
              let h : suc (length bs) ≤ count = rw e at (laws.reads s.host fd count) in
              relay_request-AllBounded s1 t p (b ∷ bs) (ground arith) (read_in_fits c b bs (v p) h)
                v
          | inr (inl e) ↦
              let same : consumer_closed net tries s1 p fd ≡ t = ground arith in
              subst (λ x. AllBounded x) same
                (consumer_closed-On net tries StoreBounded bounded-Rewires s1 p fd v)
          | inr (inr (again, e)) ↦ elim (Bool-cases again) [
            | inl later ↦ (let same : s.ca ≡ t.ca = ground arith in subst StoreBounded same v)
            | inr error ↦
                let same : abort_connection_ca net tries s1 p ≡ t = ground arith in
                subst (λ x. AllBounded x) same
                  (abort-On net tries StoreBounded bounded-Rewires s1 p v)
          ]
        ]
      ]

  wrote_to_remote-AllBounded :
      (s : Consumer E) (p : Ptr) (fd : ℤ) (n : ℕ)
      → (s.ca p).nwrite_in + n ≤ (s.ca p).nread_in
      → AllBounded s
      → AllBounded (wrote_to_remote net tries s p fd n)
  unfolding wrote_to_remote
  wrote_to_remote-AllBounded s p fd n fits v =
      let c = s.ca p in
      let v1 =
        update-StoreBounded s.ca p (record c { nwrite_in = c.nwrite_in + n }) (ground (arith, v p))
          v in
      elim (Bool-cases (c.nwrite_in + n == c.nread_in)) [
        | inl done ↦ rw done v1
        | inr more ↦ rw more v1
      ]

  write_fits :
      (c : ConnectionCa) (n : ℕ)
      → IsBounded c
      → n ≤ length (slice c.buf_in c.nwrite_in (size_sub c.nread_in c.nwrite_in))
      → c.nwrite_in + n ≤ c.nread_in
  write_fits c n v h =
      omega (arith, length-slice c.buf_in c.nwrite_in (size_sub c.nread_in c.nwrite_in))

  pub on_write_to_remote_agent-AllBounded :
      (s : Consumer E) (fd : ℤ) (p : Ptr)
      → HostLaws net
      → AllBounded s
      → AllBounded (on_write_to_remote_agent net tries s fd p)
  unfolding on_write_to_remote_agent
  on_write_to_remote_agent-AllBounded s fd p laws v =
      let c = s.ca p in
      let bs = slice c.buf_in c.nwrite_in (size_sub c.nread_in c.nwrite_in) in
      let s1 = record s { host = (net.write s.host fd bs).1 } in
      elim (Bool-cases (is_neg c.fd)) [
        | inl gone ↦ rw gone v
        | inr live ↦ elim (WriteResult-cases (net.write s.host fd bs).0) [
          | inl (n, e) ↦
              let h : n ≤ length bs = rw e at (laws.writes s.host fd bs) in
              rw (live, e) (wrote_to_remote-AllBounded s1 p fd n (write_fits c n (v p) h) v)
          | inr (again, e) ↦
              rw (live, e)
                (elim (Bool-cases again) [
                  | inl later ↦ rw later v
                  | inr error ↦ rw error (abort-On net tries StoreBounded bounded-Rewires s1 p v)
                ])
        ]
      ]
