-- ===== src/Consumer/Safety.antt =====
-- No event makes a handler read or write outside a connection's buffers.
use mathlib.Core.Option.{some-injective}
use dubbo_service_mesh.Base.{
  ℤ, ℕ, suc, ◌+◌, ◌≤◌, ◌≡◌, subst, inl, inr, some, List, ◌∷◌, arith, length, ◌==◌, is_neg,
  Bool-cases,
}
use dubbo_service_mesh.Pool.{Ptr}
use dubbo_service_mesh.Net.{Host, HostLaws, ReadResult-cases, WriteResult-cases, writable}
use dubbo_service_mesh.Net.Buffer.{blit, slice, size_sub, length-slice}
use dubbo_service_mesh.Consumer.{
  ConnectionCa, Consumer, Handler, resp_buf_size, put_ca, read_from_consumer, write_to_remote_agent,
  read_from_remote_agent, write_to_consumer,
}
use dubbo_service_mesh.Consumer.Bounds.{
  IsBounded, StoreBounded, AllBounded, update-StoreBounded, bounded-Rewires,
}
use dubbo_service_mesh.Consumer.Frame.{abort-On, create-On, release_apa-On}
use dubbo_service_mesh.Consumer.Handlers.{
  delete_events, record_latency, relay_response, on_read_from_remote_agent, wrote_to_consumer,
  on_write_to_consumer, handle,
}
use dubbo_service_mesh.Consumer.RequestBounds.{
  on_read_from_consumer-AllBounded, on_write_to_remote_agent-AllBounded,
}

module _ {E : Type 0} (net : Host Handler E) (tries : ℕ) where
  relay_response-AllBounded :
      (s : Consumer E) (p : Ptr) (bs : List ℕ)
      → (s.ca p).nread_out + length bs ≤ resp_buf_size
      → AllBounded s
      → AllBounded (relay_response net tries s p bs)
  unfolding relay_response record_latency
  relay_response-AllBounded s p bs fits v =
      let c = s.ca p in
      let s1 = put_ca s p (record c {
        buf_out = blit c.buf_out c.nread_out bs;
        nread_out = c.nread_out + length bs;
        nread_in = 0;
        nwrite_in = 0;
      }) in
      create-On net tries StoreBounded bounded-Rewires s1 c.fd writable write_to_consumer p
        (update-StoreBounded s.ca p _ (ground (arith, v p)) v)

  read_out_fits :
      (c : ConnectionCa) (first : ℕ) (rest : List ℕ)
      → IsBounded c
      → suc (length rest) ≤ size_sub resp_buf_size c.nread_out
      → c.nread_out + length (first ∷ rest) ≤ resp_buf_size
  read_out_fits c first rest v h = omega arith

  pub on_read_from_remote_agent-AllBounded :
      (s : Consumer E) (fd : ℤ) (p : Ptr)
      → HostLaws net
      → AllBounded s
      → AllBounded (on_read_from_remote_agent net tries s fd p)
  unfolding on_read_from_remote_agent
  on_read_from_remote_agent-AllBounded s fd p laws v =
      let c = s.ca p in
      let count = size_sub resp_buf_size c.nread_out in
      let s1 = record s { host = (net.read s.host fd count).1 } in
      elim (Bool-cases (is_neg c.fd)) [
        | inl gone ↦ rw gone v
        | inr live ↦ elim (ReadResult-cases (net.read s.host fd count).0) [
          | inl (b, bs, e) ↦
              let h : suc (length bs) ≤ count = rw e at (laws.reads s.host fd count) in
              rw (live, e)
                (relay_response-AllBounded s1 p (b ∷ bs) (read_out_fits c b bs (v p) h) v)
          | inr (inl e) ↦ rw (live, e) (abort-On net tries StoreBounded bounded-Rewires s1 p v)
          | inr (inr (again, e)) ↦
              rw (live, e)
                (elim (Bool-cases again) [
                  | inl later ↦ rw later v
                  | inr error ↦ rw error (abort-On net tries StoreBounded bounded-Rewires s1 p v)
                ])
        ]
      ]

  wrote_to_consumer-AllBounded :
      (s : Consumer E) (p : Ptr) (fd : ℤ) (n : ℕ)
      → (s.ca p).nwrite_out + n ≤ (s.ca p).nread_out
      → AllBounded s
      → AllBounded (wrote_to_consumer net tries s p fd n)
  unfolding wrote_to_consumer
  wrote_to_consumer-AllBounded s p fd n fits v =
      let c = s.ca p in
      let s1 = put_ca s p (record c { nwrite_out = c.nwrite_out + n }) in
      let v1 : AllBounded s1 = update-StoreBounded s.ca p _ (ground (arith, v p)) v in
      elim (Bool-cases (c.nwrite_out + n == c.nread_out)) [
        | inl done ↦ rw done (
            release_apa-On net tries StoreBounded bounded-Rewires
              (delete_events net tries s1 fd writable) p v1)
        | inr more ↦ rw more v1
      ]

  write_out_fits :
      (c : ConnectionCa) (n : ℕ)
      → IsBounded c
      → n ≤ length (slice c.buf_out c.nwrite_out (size_sub c.nread_out c.nwrite_out))
      → c.nwrite_out + n ≤ c.nread_out
  write_out_fits c n v h =
      omega (arith, length-slice c.buf_out c.nwrite_out (size_sub c.nread_out c.nwrite_out))

  pub on_write_to_consumer-AllBounded :
      (s : Consumer E) (fd : ℤ) (p : Ptr)
      → HostLaws net
      → AllBounded s
      → AllBounded (on_write_to_consumer net tries s fd p)
  unfolding on_write_to_consumer
  on_write_to_consumer-AllBounded s fd p laws v =
      let c = s.ca p in
      let bs = slice c.buf_out c.nwrite_out (size_sub c.nread_out c.nwrite_out) in
      let s1 = record s { host = (net.write s.host fd bs).1 } in
      elim (Bool-cases (is_neg c.fd)) [
        | inl gone ↦ rw gone v
        | inr live ↦ elim (WriteResult-cases (net.write s.host fd bs).0) [
          | inl (n, e) ↦
              let h : n ≤ length bs = rw e at (laws.writes s.host fd bs) in
              rw (live, e) (wrote_to_consumer-AllBounded s1 p fd n (write_out_fits c n (v p) h) v)
          | inr (again, e) ↦ rw (live, e) (abort-On net tries StoreBounded bounded-Rewires s1 p v)
        ]
      ]

  -- Where read and write keep to the counts they are given, every handler, on every branch, leaves
  -- each connection with `nwrite ≤ nread ≤ sizeof(buffer)` in both directions.
  pub handle-AllBounded :
      (s t : Consumer E) (f : Handler) (fd : ℤ) (p : Ptr)
      → HostLaws net
      → AllBounded s
      → handle net tries s f fd p ≡ some t
      → AllBounded t
  unfolding handle
  handle-AllBounded s t read_from_consumer fd p laws v got =
      on_read_from_consumer-AllBounded net tries s t fd p laws got v
  handle-AllBounded s t write_to_remote_agent fd p laws v got =
      subst (λ x. AllBounded x) (some-injective _ _ got)
        (on_write_to_remote_agent-AllBounded net tries s fd p laws v)
  handle-AllBounded s t read_from_remote_agent fd p laws v got =
      subst (λ x. AllBounded x) (some-injective _ _ got)
        (on_read_from_remote_agent-AllBounded s fd p laws v)
  handle-AllBounded s t write_to_consumer fd p laws v got =
      subst (λ x. AllBounded x) (some-injective _ _ got)
        (on_write_to_consumer-AllBounded s fd p laws v)
