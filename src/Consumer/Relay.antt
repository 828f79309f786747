-- ===== src/Consumer/Relay.antt =====
-- The relay is transparent: in each direction a connection is a queue of bytes. A read puts bytes at
-- its end, a write takes from its front what the socket accepts.
use dubbo_service_mesh.Base.{
  ℤ, ℕ, ◌+◌, ◌≤◌, ◌≡◌, subst, inl, inr, true, false, some, List, ◌∷◌, ◌++◌, arith, length, ◌==◌,
  is_neg, ==_iff, Bool-cases,
}
use dubbo_service_mesh.Pool.{Ptr, null}
use dubbo_service_mesh.Net.{Host, received, writable}
use dubbo_service_mesh.Net.Buffer.{blit, size_sub, pending, pending-blit}
use dubbo_service_mesh.Consumer.{
  ConnectionCa, Consumer, Handler, put_ca, req_buf_size, resp_buf_size, write_to_consumer,
}
use dubbo_service_mesh.Consumer.Frame.{Rewires, create-On, watch-On, pick_apa-On}
use dubbo_service_mesh.Consumer.Handlers.{
  watch_remote, relay_request, on_read_from_consumer, relay_response, record_latency,
  on_read_from_remote_agent,
}

-- The request bytes, and the response bytes, that a connection has read and not yet written.
abbrev pub pending_in : ConnectionCa → List ℕ
pending_in c = pending c.buf_in c.nwrite_in c.nread_in

abbrev pub pending_out : ConnectionCa → List ℕ
pending_out c = pending c.buf_out c.nwrite_out c.nread_out

abbrev pub InIs : Ptr → List ℕ → (Ptr → ConnectionCa) → Type 0
InIs p bs f = pending_in (f p) ≡ bs

abbrev pub OutIs : Ptr → List ℕ → (Ptr → ConnectionCa) → Type 0
OutIs p bs f = pending_out (f p) ≡ bs

pub in-Rewires : (p : Ptr) (bs : List ℕ) → Rewires (InIs p bs)
in-Rewires p bs f q fd a v = elim (Bool-cases (p == q)) [
  | inl here ↦ rw here (subst (λ r. pending_in (f r) ≡ bs) ((==_iff p q).0 here) v)
  | inr there ↦ rw there v
]

pub out-Rewires : (p : Ptr) (bs : List ℕ) → Rewires (OutIs p bs)
out-Rewires p bs f q fd a v = elim (Bool-cases (p == q)) [
  | inl here ↦ rw here (subst (λ r. pending_out (f r) ≡ bs) ((==_iff p q).0 here) v)
  | inr there ↦ rw there v
]

module _ {E : Type 0} (net : Host Handler E) (tries : ℕ) where
  relay_request-pending :
      (s t : Consumer E) (p : Ptr) (bs : List ℕ)
      → relay_request net tries s p bs ≡ some t
      → (s.ca p).nwrite_in ≤ (s.ca p).nread_in
      → pending_in (t.ca p) ≡ pending_in (s.ca p) ++ bs
  unfolding relay_request
  relay_request-pending s t p bs got ordered =
      let c = s.ca p in
      let s1 = put_ca s p (record c {
        buf_in = blit c.buf_in c.nread_in bs;
        nread_in = c.nread_in + length bs;
        nread_out = 0;
        nwrite_out = 0;
      }) in
      let goal = InIs p (pending_in c ++ bs) in
      let fits = in-Rewires p (pending_in c ++ bs) in
      let self : (p == p) ≡ true = ground arith in
      let now : goal s1.ca = rw self (pending-blit c.buf_in c.nwrite_in c.nread_in bs ordered) in
      elim (Bool-cases (c.conn_apa == null)) [
        | inl absent ↦ pick_apa-On net tries goal fits s1 t p (ground arith) now
        | inr present ↦
            let same : watch_remote net tries s1 p c.conn_apa ≡ t = ground arith in
            subst (λ x. goal x.ca) same (watch-On net tries goal fits s1 p c.conn_apa now)
      ]

  -- The bytes that read_from_consumer reads from an open connection join the request's pending bytes
  -- at their end, whatever becomes of the events and of the connection to the remote agent, if the
  -- handler has a result and the positions are in order.
  pub on_read_from_consumer-pending :
      (s t : Consumer E) (fd : ℤ) (p : Ptr) (b : ℕ) (bs : List ℕ)
      → is_neg (s.ca p).fd ≡ false
      → (net.read s.host fd (size_sub req_buf_size (s.ca p).nread_in)).0 ≡ received b bs
      → on_read_from_consumer net tries s fd p ≡ some t
      → (s.ca p).nwrite_in ≤ (s.ca p).nread_in
      → pending_in (t.ca p) ≡ pending_in (s.ca p) ++ b ∷ bs
  unfolding on_read_from_consumer
  on_read_from_consumer-pending s t fd p b bs live read got ordered =
      relay_request-pending
        (record s { host = (net.read s.host fd (size_sub req_buf_size (s.ca p).nread_in)).1 }) t p
        (b ∷ bs) (ground arith) ordered

  relay_response-pending :
      (s : Consumer E) (p : Ptr) (bs : List ℕ)
      → (s.ca p).nwrite_out ≤ (s.ca p).nread_out
      → pending_out ((relay_response net tries s p bs).ca p) ≡ pending_out (s.ca p) ++ bs
  unfolding relay_response record_latency
  relay_response-pending s p bs ordered =
      let c = s.ca p in
      let s1 = put_ca s p (record c {
        buf_out = blit c.buf_out c.nread_out bs;
        nread_out = c.nread_out + length bs;
        nread_in = 0;
        nwrite_in = 0;
      }) in
      let after = pending_out c ++ bs in
      let self : (p == p) ≡ true = ground arith in
      create-On net tries (OutIs p after) (out-Rewires p after) s1 c.fd writable write_to_consumer p
        (rw self (pending-blit c.buf_out c.nwrite_out c.nread_out bs ordered))

  -- The bytes that read_from_remote_agent reads for an open connection join the response's pending
  -- bytes at their end, where the positions are in order.
  pub on_read_from_remote_agent-pending :
      (s : Consumer E) (fd : ℤ) (p : Ptr) (b : ℕ) (bs : List ℕ)
      → is_neg (s.ca p).fd ≡ false
      → (net.read s.host fd (size_sub resp_buf_size (s.ca p).nread_out)).0 ≡ received b bs
      → (s.ca p).nwrite_out ≤ (s.ca p).nread_out
      → pending_out ((on_read_from_remote_agent net tries s fd p).ca p)
        ≡ pending_out (s.ca p) ++ b ∷ bs
  unfolding on_read_from_remote_agent
  on_read_from_remote_agent-pending s fd p b bs live read ordered =
      rw (live, read)
        (relay_response-pending
          (record s { host = (net.read s.host fd (size_sub resp_buf_size (s.ca p).nread_out)).1 }) p
          (b ∷ bs) ordered)
