-- ===== src/Consumer/Delivery.antt =====
-- What the relay writes to a socket is exactly what it read: bytes accepted and bytes pending are
-- together the same before and after each write event, on every branch.
use dubbo_service_mesh.Base.{
  ℤ, ℕ, ◌+◌, ◌-◌, ◌≤◌, ◌≡◌, refl, ◌∙◌, ap, inl, inr, true, List, ◌++◌, arith, length, take, ◌==◌,
  is_neg, Bool-cases,
}
use dubbo_service_mesh.Pool.{Ptr}
use dubbo_service_mesh.Net.{Host, HostLaws, Streams, WriteResult-cases, writable}
use dubbo_service_mesh.Net.Clock.{get_current_time_ms}
use dubbo_service_mesh.Net.Buffer.{slice, size_sub, length-slice, pending, append-take-pending}
use dubbo_service_mesh.Consumer.{ConnectionCa, Consumer, Handler, put_ca}
use dubbo_service_mesh.Consumer.Bounds.{IsBounded}
use dubbo_service_mesh.Consumer.Frame.{abort-On, release_apa-On}
use dubbo_service_mesh.Consumer.Sent.{Sent, abort-Sent, release_apa-Sent}
use dubbo_service_mesh.Consumer.Relay.{
  pending_in, pending_out, InIs, OutIs, in-Rewires, out-Rewires,
}
use dubbo_service_mesh.Consumer.Handlers.{
  wrote_to_remote, on_write_to_remote_agent, wrote_to_consumer, on_write_to_consumer, delete_events,
}

-- The bytes handed to write are the pending ones, and taking `n` of them leaves the rest.
given :
    (c : ConnectionCa) → IsBounded c → size_sub c.nread_in c.nwrite_in ≡ c.nread_in - c.nwrite_in
given c v = omega arith

given_out :
    (c : ConnectionCa)
    → IsBounded c
    → size_sub c.nread_out c.nwrite_out ≡ c.nread_out - c.nwrite_out
given_out c v = omega arith

module _ {E : Type 0} (net : Host Handler E) (tries : ℕ) (sent : E → ℤ → List ℕ)
    (str : Streams net sent) where
  wrote_to_remote-Sent :
      (s : Consumer E) (p : Ptr) (fd : ℤ) (n : ℕ) (xs : List ℕ)
      → Sent sent fd xs s
      → (Sent sent fd xs (wrote_to_remote net tries s p fd n))
        × (pending_in ((wrote_to_remote net tries s p fd n).ca p)
            ≡ pending (s.ca p).buf_in ((s.ca p).nwrite_in + n) (s.ca p).nread_in)
  unfolding wrote_to_remote get_current_time_ms
  wrote_to_remote-Sent s p fd n xs v =
      let self : (p == p) ≡ true = ground arith in
      elim (Bool-cases ((s.ca p).nwrite_in + n == (s.ca p).nread_in)) [
        | inl done ↦ rw (done, self) (rw (str.clock_keeps, str.delete_keeps) v, refl)
        | inr more ↦ rw (more, self) (v, refl)
      ]

  -- For each write event to a remote agent: what the socket has accepted, followed by the request
  -- bytes still pending, is the same before and after, whether the write takes some bytes, would
  -- block or fails, and also if the connection is already closed. The connection is within its
  -- buffers, and the host keeps to what is documented of write.
  pub on_write_to_remote_agent-delivers :
      (s : Consumer E) (fd : ℤ) (p : Ptr)
      → HostLaws net
      → IsBounded (s.ca p)
      → sent (on_write_to_remote_agent net tries s fd p).host fd
          ++ pending_in ((on_write_to_remote_agent net tries s fd p).ca p)
        ≡ sent s.host fd ++ pending_in (s.ca p)
  unfolding on_write_to_remote_agent
  on_write_to_remote_agent-delivers s fd p laws v =
      let c = s.ca p in
      let bs = slice c.buf_in c.nwrite_in (size_sub c.nread_in c.nwrite_in) in
      let s1 = record s { host = (net.write s.host fd bs).1 } in
      elim (Bool-cases (is_neg c.fd)) [
        | inl gone ↦ rw gone
        | inr live ↦ elim (WriteResult-cases (net.write s.host fd bs).0) [
          | inl (n, e) ↦
              let h : n ≤ length bs = rw e at (laws.writes s.host fd bs) in
              let fits : c.nwrite_in + n ≤ c.nread_in =
                omega
                  (arith, length-slice c.buf_in c.nwrite_in (size_sub c.nread_in c.nwrite_in)) in
              let (to, left) =
                wrote_to_remote-Sent s1 p fd n (sent s.host fd ++ take n (pending_in c)) (
                  str.wrote_more s.host fd bs n e
                  ∙ ap (λ k. sent s.host fd ++ take n (slice c.buf_in c.nwrite_in k))
                      (given c v)) in
              rw (live, e, to, left)
                (append-take-pending (sent s.host fd) c.buf_in c.nwrite_in c.nread_in n fits)
          | inr (again, e) ↦
              let same : Sent sent fd (sent s.host fd) s1 = str.wrote_none s.host fd bs again e in
              rw (live, e)
                (elim (Bool-cases again) [
                  | inl later ↦ rw (later, same)
                  | inr error ↦ rw (
                    error,
                    abort-Sent net tries sent str fd (sent s.host fd) s1 p same,
                    abort-On net tries (InIs p (pending_in c)) (in-Rewires p (pending_in c)) s1 p
                        refl,
                  )
                ])
        ]
      ]

  wrote_to_consumer-Sent :
      (s : Consumer E) (p : Ptr) (fd : ℤ) (n : ℕ) (xs : List ℕ)
      → Sent sent fd xs s
      → (Sent sent fd xs (wrote_to_consumer net tries s p fd n))
        × (pending_out ((wrote_to_consumer net tries s p fd n).ca p)
            ≡ pending (s.ca p).buf_out ((s.ca p).nwrite_out + n) (s.ca p).nread_out)
  unfolding wrote_to_consumer
  wrote_to_consumer-Sent s p fd n xs v =
      let self : (p == p) ≡ true = ground arith in
      let c = s.ca p in
      let left = pending c.buf_out (c.nwrite_out + n) c.nread_out in
      let s1 = put_ca s p (record c { nwrite_out = c.nwrite_out + n }) in
      let now : OutIs p left s1.ca = rw self refl in
      let s2 = delete_events net tries s1 fd writable in
      elim (Bool-cases (c.nwrite_out + n == c.nread_out)) [
        | inl done ↦ rw done (
          release_apa-Sent net tries sent str fd xs s2 p (rw str.delete_keeps v),
          release_apa-On net tries (OutIs p left) (out-Rewires p left) s2 p now,
        )
        | inr more ↦ rw more (v, now)
      ]

  -- For each write event to a consumer: what the socket has accepted, followed by the response bytes
  -- still pending, is the same before and after, whether the write takes some bytes or fails, and also
  -- if the connection is already closed. The connection is within its buffers, and the host keeps to
  -- what is documented of write.
  pub on_write_to_consumer-delivers :
      (s : Consumer E) (fd : ℤ) (p : Ptr)
      → HostLaws net
      → IsBounded (s.ca p)
      → sent (on_write_to_consumer net tries s fd p).host fd
          ++ pending_out ((on_write_to_consumer net tries s fd p).ca p)
        ≡ sent s.host fd ++ pending_out (s.ca p)
  unfolding on_write_to_consumer
  on_write_to_consumer-delivers s fd p laws v =
      let c = s.ca p in
      let bs = slice c.buf_out c.nwrite_out (size_sub c.nread_out c.nwrite_out) in
      let s1 = record s { host = (net.write s.host fd bs).1 } in
      elim (Bool-cases (is_neg c.fd)) [
        | inl gone ↦ rw (gone, str.delete_keeps)
        | inr live ↦ elim (WriteResult-cases (net.write s.host fd bs).0) [
          | inl (n, e) ↦
              let h : n ≤ length bs = rw e at (laws.writes s.host fd bs) in
              let fits : c.nwrite_out + n ≤ c.nread_out =
                omega (
                  arith,
                  length-slice c.buf_out c.nwrite_out (size_sub c.nread_out c.nwrite_out),
                ) in
              let (to, left) =
                wrote_to_consumer-Sent s1 p fd n (sent s.host fd ++ take n (pending_out c)) (
                  str.wrote_more s.host fd bs n e
                  ∙ ap (λ k. sent s.host fd ++ take n (slice c.buf_out c.nwrite_out k))
                      (given_out c v)) in
              rw (live, e, to, left)
                (append-take-pending (sent s.host fd) c.buf_out c.nwrite_out c.nread_out n fits)
          | inr (again, e) ↦
              let same : Sent sent fd (sent s.host fd) s1 = str.wrote_none s.host fd bs again e in
              rw (
                live,
                e,
                abort-Sent net tries sent str fd (sent s.host fd) s1 p same,
                abort-On net tries (OutIs p (pending_out c)) (out-Rewires p (pending_out c)) s1 p
                    refl,
              )
        ]
      ]
