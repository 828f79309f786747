-- ===== src/Consumer/Flow.antt =====
-- The way of a request through src/consumer.c, over any sequence of reads from the consumer and
-- writes to the remote agent: bytes leave in the order in which they came, none lost and none twice.
use mathlib.Core.List.{append_assoc, append-nil}
use mathlib.Core.Option.{some-injective}
use dubbo_service_mesh.Base.{
  ℤ, ℕ, ◌≡◌, refl, sym, ◌∙◌, ap, ap₂, subst, inl, inr, some, List, [], ◌∷◌, ◌++◌, is_neg,
  Bool-cases, if◌then◌else◌,
}
use dubbo_service_mesh.Pool.{Ptr}
use dubbo_service_mesh.Net.{bytes_of, Host, HostLaws, Streams, ReadResult-cases, both_ways}
use dubbo_service_mesh.Net.Buffer.{size_sub}
use dubbo_service_mesh.Consumer.{Consumer, Handler, req_buf_size}
use dubbo_service_mesh.Consumer.Handlers.{on_read_from_consumer, on_write_to_remote_agent}
use dubbo_service_mesh.Consumer.Bounds.{AllBounded}
use dubbo_service_mesh.Consumer.Frame.{abort-On, consumer_closed-On}
use dubbo_service_mesh.Consumer.RequestBounds.{
  on_read_from_consumer-AllBounded, on_write_to_remote_agent-AllBounded,
}
use dubbo_service_mesh.Consumer.Relay.{pending_in, InIs, in-Rewires, on_read_from_consumer-pending}
use dubbo_service_mesh.Consumer.Sent.{Sent, abort-Sent}
use dubbo_service_mesh.Consumer.SentRequest.{relay_request-Sent, consumer_closed-Sent}
use dubbo_service_mesh.Consumer.Delivery.{on_write_to_remote_agent-delivers}

module _ {E : Type 0} (net : Host Handler E) (tries : ℕ) (sent : E → ℤ → List ℕ)
    (str : Streams net sent) where
  -- What read_from_consumer takes from the socket; nothing if the connection is closed.
  abbrev pub taken : Consumer E → (fd : ℤ) → Ptr → List ℕ
  taken s fd p =
      if is_neg (s.ca p).fd
      then []
      else bytes_of (net.read s.host fd (size_sub req_buf_size (s.ca p).nread_in)).0

  -- Socket `at` has accepted `xs`, and connection `p` has `ys` to send.
  abbrev Holds : ℤ → Ptr → List ℕ → List ℕ → Consumer E → Type 0
  Holds at p xs ys s = Sent sent at xs s × (pending_in (s.ca p) ≡ ys)

  on_read_from_consumer-flow :
      (s t : Consumer E) (fd at : ℤ) (p : Ptr)
      → AllBounded s
      → on_read_from_consumer net tries s fd p ≡ some t
      → Holds at p (sent s.host at) (pending_in (s.ca p) ++ taken s fd p) t
  unfolding on_read_from_consumer
  on_read_from_consumer-flow s t fd at p v got =
      let c = s.ca p in
      let xs = sent s.host at in
      let count = size_sub req_buf_size c.nread_in in
      let s1 = record s { host = (net.read s.host fd count).1 } in
      let kept : Sent sent at xs s1 = str.read_keeps s.host fd at count in
      let same_bytes = sym (append-nil (pending_in c)) in
      elim (Bool-cases (is_neg c.fd)) [
        | inl gone ↦ rw gone (
            subst (λ x. Holds at p xs (pending_in c ++ []) x) (some-injective _ _ (rw gone at got))
              (str.delete_keeps s.host fd at both_ways, same_bytes))
        | inr live ↦ elim (ReadResult-cases (net.read s.host fd count).0) [
          | inl (b, bs, e) ↦
              rw (live, e)
                (
                  relay_request-Sent net tries sent str at xs s1 t p (b ∷ bs) (rw (live, e) at got)
                      kept,
                  on_read_from_consumer-pending net tries s t fd p b bs live e
                      (unfold on_read_from_consumer in got) (v p).sent_in,
                )
          | inr (inl e) ↦
              rw (live, e)
                (subst (λ x. Holds at p xs (pending_in c ++ []) x)
                  (some-injective _ _ (rw (live, e) at got))
                  (
                    consumer_closed-Sent net tries sent str at xs s1 p fd kept,
                    consumer_closed-On net tries (InIs p (pending_in c))
                          (in-Rewires p (pending_in c)) s1 p fd refl
                        ∙ same_bytes,
                  ))
          | inr (inr (again, e)) ↦
              rw (live, e)
                (elim (Bool-cases again) [
                  | inl later ↦
                      subst (λ x. Holds at p xs (pending_in c ++ []) x)
                        (some-injective _ _ (rw (live, e, later) at got)) (kept, same_bytes)
                  | inr error ↦
                      subst (λ x. Holds at p xs (pending_in c ++ []) x)
                        (some-injective _ _ (rw (live, e, error) at got))
                        (
                          abort-Sent net tries sent str at xs s1 p kept,
                          abort-On net tries (InIs p (pending_in c)) (in-Rewires p (pending_in c))
                                s1 p refl
                              ∙ same_bytes,
                        )
                ])
        ]
      ]

  -- A sequence of reads of connection `p` from its consumer's socket, which take `bs`, and of writes
  -- to the socket `at` of its remote agent. In between the state may change in any way that leaves the
  -- connection as it is, all connections within their buffers, and nothing more written to `at`.
  pub data Relays (at : ℤ) (p : Ptr) (s : Consumer E) : List ℕ → Consumer E → Type 0 where
    start : Relays at p s [] s
    reading :
        {bs : List ℕ} {t : Consumer E} (fd : ℤ) (u : Consumer E)
        → Relays at p s bs t
        → on_read_from_consumer net tries t fd p ≡ some u
        → Relays at p s (bs ++ taken t fd p) u
    writing :
        {bs : List ℕ} {t : Consumer E}
        → Relays at p s bs t
        → Relays at p s bs (on_write_to_remote_agent net tries t at p)
    elsewhere :
        {bs : List ℕ} {t : Consumer E} (u : Consumer E)
        → Relays at p s bs t
        → u.ca p ≡ t.ca p
        → AllBounded u
        → sent u.host at ≡ sent t.host at
        → Relays at p s bs u

  Relays-AllBounded :
      {at : ℤ} {p : Ptr} {s t : Consumer E} {bs : List ℕ}
      → HostLaws net
      → AllBounded s
      → Relays at p s bs t
      → AllBounded t
  Relays-AllBounded laws v start = v
  Relays-AllBounded {at} {p} laws v (reading {t} fd u r e) =
      on_read_from_consumer-AllBounded net tries t u fd p laws e (Relays-AllBounded laws v r)
  Relays-AllBounded {at} {p} laws v (writing {t} r) =
      on_write_to_remote_agent-AllBounded net tries t at p laws (Relays-AllBounded laws v r)
  Relays-AllBounded laws v (elsewhere u r kept fine same) = fine

  -- Over every such sequence that starts with all connections within their buffers, what the remote
  -- agent's socket has accepted, followed by what is still pending, is what it was at the start,
  -- followed by the bytes that the reads have taken, in order.
  pub Relays-fifo :
      {at : ℤ} {p : Ptr} {s t : Consumer E} {bs : List ℕ}
      → HostLaws net
      → AllBounded s
      → Relays at p s bs t
      → sent t.host at ++ pending_in (t.ca p) ≡ (sent s.host at ++ pending_in (s.ca p)) ++ bs
  Relays-fifo {s} laws v start = sym (append-nil _)
  Relays-fifo {at} {p} {s} laws v (reading {bs} {t} fd u r e) =
      let (to, left) = on_read_from_consumer-flow t u fd at p (Relays-AllBounded laws v r) e in
      ap₂ ◌++◌ to left
      ∙ sym (append_assoc (sent t.host at) (pending_in (t.ca p)) (taken t fd p))
      ∙ ap (λ l. l ++ taken t fd p) (Relays-fifo laws v r)
      ∙ append_assoc (sent s.host at ++ pending_in (s.ca p)) bs (taken t fd p)
  Relays-fifo {at} {p} laws v (writing {t} r) =
      on_write_to_remote_agent-delivers net tries sent str t at p laws
        (Relays-AllBounded laws v r p)
      ∙ Relays-fifo laws v r
  Relays-fifo {at} {p} laws v (elsewhere u r kept fine same) =
      ap₂ (λ l c. l ++ pending_in c) same kept ∙ Relays-fifo laws v r
