-- ===== src/Consumer/Replies.antt =====
-- The way of a response through src/consumer.c, over any sequence of reads from the remote agent and
-- writes to the consumer.
use mathlib.Core.List.{append_assoc, append-nil}
use dubbo_service_mesh.Base.{
  ℤ, ℕ, ◌+◌, ◌≡◌, refl, sym, ◌∙◌, ap, ap₂, inl, inr, List, [], ◌∷◌, ◌++◌, length, is_neg,
  Bool-cases, if◌then◌else◌,
}
use dubbo_service_mesh.Pool.{Ptr}
use dubbo_service_mesh.Net.{
  bytes_of, Host, HostLaws, Streams, ReadResult-cases, both_ways, writable,
}
use dubbo_service_mesh.Net.Buffer.{size_sub, blit}
use dubbo_service_mesh.Net.Clock.{get_current_time_ms}
use dubbo_service_mesh.Consumer.{Consumer, Handler, resp_buf_size, put_ca, write_to_consumer}
use dubbo_service_mesh.Consumer.Handlers.{
  on_read_from_remote_agent, on_write_to_consumer, relay_response, record_latency, create_or_abort,
  abort_connection_ca,
}
use dubbo_service_mesh.Consumer.Bounds.{AllBounded}
use dubbo_service_mesh.Consumer.Frame.{abort-On}
use dubbo_service_mesh.Consumer.Safety.{
  on_read_from_remote_agent-AllBounded, on_write_to_consumer-AllBounded,
}
use dubbo_service_mesh.Consumer.Relay.{
  pending_out, OutIs, out-Rewires, on_read_from_remote_agent-pending,
}
use dubbo_service_mesh.Consumer.Sent.{Sent, abort-Sent, create-Sent}
use dubbo_service_mesh.Consumer.Delivery.{on_write_to_consumer-delivers}

module _ {E : Type 0} (net : Host Handler E) (tries : ℕ) (sent : E → ℤ → List ℕ)
    (str : Streams net sent) where
  -- What read_from_remote_agent takes from the socket; nothing if the connection is closed.
  abbrev pub taken_out : Consumer E → (fd : ℤ) → Ptr → List ℕ
  taken_out s fd p =
      if is_neg (s.ca p).fd
      then []
      else bytes_of (net.read s.host fd (size_sub resp_buf_size (s.ca p).nread_out)).0

  relay_response-Sent :
      (at : ℤ) (xs : List ℕ) (s : Consumer E) (p : Ptr) (bs : List ℕ)
      → Sent sent at xs s
      → Sent sent at xs (relay_response net tries s p bs)
  unfolding relay_response record_latency get_current_time_ms
  relay_response-Sent at xs s p bs v =
      let c = s.ca p in
      let s1 = put_ca s p (record c {
        buf_out = blit c.buf_out c.nread_out bs;
        nread_out = c.nread_out + length bs;
        nread_in = 0;
        nwrite_in = 0;
      }) in
      let s2 = create_or_abort net tries s1 c.fd writable write_to_consumer p in
      str.clock_keeps s2.host at
      ∙ create-Sent net tries sent str at xs s1 c.fd writable write_to_consumer p v

  -- Socket `at` has accepted `xs`, and connection `p` has `ys` to send to its consumer.
  abbrev Owes : ℤ → Ptr → List ℕ → List ℕ → Consumer E → Type 0
  Owes at p xs ys s = Sent sent at xs s × (pending_out (s.ca p) ≡ ys)

  on_read_from_remote_agent-flow :
      (s : Consumer E) (fd at : ℤ) (p : Ptr)
      → AllBounded s
      → Owes at p
          (sent s.host at)
          (pending_out (s.ca p) ++ taken_out s fd p)
          (on_read_from_remote_agent net tries s fd p)
  unfolding on_read_from_remote_agent
  on_read_from_remote_agent-flow s fd at p v =
      let c = s.ca p in
      let xs = sent s.host at in
      let count = size_sub resp_buf_size c.nread_out in
      let s1 = record s { host = (net.read s.host fd count).1 } in
      let kept : Sent sent at xs s1 = str.read_keeps s.host fd at count in
      let same_bytes = sym (append-nil (pending_out c)) in
      let rewires = out-Rewires p (pending_out c) in
      let aborted : Owes at p xs (pending_out c ++ []) (abort_connection_ca net tries s1 p) = (
        abort-Sent net tries sent str at xs s1 p kept,
        abort-On net tries (OutIs p (pending_out c)) rewires s1 p refl ∙ same_bytes,
      ) in
      elim (Bool-cases (is_neg c.fd)) [
        | inl gone ↦ rw gone (str.delete_keeps s.host fd at both_ways, same_bytes)
        | inr live ↦ elim (ReadResult-cases (net.read s.host fd count).0) [
          | inl (b, bs, e) ↦
              let more =
                on_read_from_remote_agent-pending net tries s fd p b bs live e (v p).sent_out in
              rw (live, e) (relay_response-Sent at xs s1 p (b ∷ bs) kept, rw (live, e) at more)
          | inr (inl e) ↦ rw (live, e) aborted
          | inr (inr (again, e)) ↦
              rw (live, e)
                (elim (Bool-cases again) [
                  | inl later ↦ rw later (kept, same_bytes)
                  | inr error ↦ rw error aborted
                ])
        ]
      ]

  -- A sequence of reads from the remote agent of connection `p`, which take `bs`, and of writes to the
  -- socket `at` of its consumer. In between the state may change in any way that leaves the connection
  -- as it is, all connections within their buffers, and nothing more written to `at`.
  pub data Replies (at : ℤ) (p : Ptr) (s : Consumer E) : List ℕ → Consumer E → Type 0 where
    start : Replies at p s [] s
    reading :
        {bs : List ℕ} {t : Consumer E} (fd : ℤ)
        → Replies at p s bs t
        → Replies at p s (bs ++ taken_out t fd p) (on_read_from_remote_agent net tries t fd p)
    writing :
        {bs : List ℕ} {t : Consumer E}
        → Replies at p s bs t
        → Replies at p s bs (on_write_to_consumer net tries t at p)
    elsewhere :
        {bs : List ℕ} {t : Consumer E} (u : Consumer E)
        → Replies at p s bs t
        → u.ca p ≡ t.ca p
        → AllBounded u
        → sent u.host at ≡ sent t.host at
        → Replies at p s bs u

  Replies-AllBounded :
      {at : ℤ} {p : Ptr} {s t : Consumer E} {bs : List ℕ}
      → HostLaws net
      → AllBounded s
      → Replies at p s bs t
      → AllBounded t
  Replies-AllBounded laws v start = v
  Replies-AllBounded {at} {p} laws v (reading {t} fd r) =
      on_read_from_remote_agent-AllBounded net tries t fd p laws (Replies-AllBounded laws v r)
  Replies-AllBounded {at} {p} laws v (writing {t} r) =
      on_write_to_consumer-AllBounded net tries t at p laws (Replies-AllBounded laws v r)
  Replies-AllBounded laws v (elsewhere u r kept fine same) = fine

  -- Over every such sequence that starts with all connections within their buffers, what the
  -- consumer's socket has accepted, followed by what is still pending, is what it was at the start,
  -- followed by the bytes that the reads have taken, in order; also where the last write of a response
  -- has given the connection to the remote agent back.
  pub Replies-fifo :
      {at : ℤ} {p : Ptr} {s t : Consumer E} {bs : List ℕ}
      → HostLaws net
      → AllBounded s
      → Replies at p s bs t
      → sent t.host at ++ pending_out (t.ca p) ≡ (sent s.host at ++ pending_out (s.ca p)) ++ bs
  Replies-fifo laws v start = sym (append-nil _)
  Replies-fifo {at} {p} {s} laws v (reading {bs} {t} fd r) =
      let (to, left) = on_read_from_remote_agent-flow t fd at p (Replies-AllBounded laws v r) in
      ap₂ ◌++◌ to left
      ∙ sym (append_assoc (sent t.host at) (pending_out (t.ca p)) (taken_out t fd p))
      ∙ ap (λ l. l ++ taken_out t fd p) (Replies-fifo laws v r)
      ∙ append_assoc (sent s.host at ++ pending_out (s.ca p)) bs (taken_out t fd p)
  Replies-fifo {at} {p} laws v (writing {t} r) =
      on_write_to_consumer-delivers net tries sent str t at p laws (Replies-AllBounded laws v r p)
      ∙ Replies-fifo laws v r
  Replies-fifo {at} {p} laws v (elsewhere u r kept fine same) =
      ap₂ (λ l c. l ++ pending_out c) same kept ∙ Replies-fifo laws v r
