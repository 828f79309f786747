-- ===== src/Consumer/SentRequest.antt =====
-- What a socket has accepted is kept by what src/consumer.c does with a request before it is written:
-- the choice of an endpoint, its pool and its connections, and the events.
use mathlib.Core.Option.{some-injective}
use dubbo_service_mesh.Base.{
  ℤ, ℕ, zero, suc, ◌+◌, length, ◌≡◌, ◌∙◌, sym, subst, inl, inr, some, List, arith, ◌==◌, is_neg,
  Bool-cases, Option-cases,
}
use dubbo_service_mesh.Pool
use dubbo_service_mesh.Pool.{Ptr, null, Hooks}
use dubbo_service_mesh.Pool.Keeps.{Keeps, get-Keeps, return-Keeps}
use dubbo_service_mesh.Net.{Host, Streams, both_ways, readable, writable}
use dubbo_service_mesh.Net.Buffer.{blit}
use dubbo_service_mesh.Consumer.{
  Consumer, Handler, ca_hooks, put_ca, put_endpoint, write_to_remote_agent, read_from_remote_agent,
}
use dubbo_service_mesh.Consumer.Balance.{get_endpoint_min_latency}
use dubbo_service_mesh.Consumer.Connect.{apa_hooks, connect, init_connection_apa}
use dubbo_service_mesh.Consumer.Handlers.{
  return_ca, delete_events, create_or_abort, watch_remote, take_apa, pick_apa, relay_request,
  consumer_closed,
}
use dubbo_service_mesh.Consumer.Sent.{Sent, abort-Sent, create-Sent, cleanup-Sent, ca_hooks-Sent}

module _ {E : Type 0} (net : Host Handler E) (tries : ℕ) (sent : E → ℤ → List ℕ)
    (str : Streams net sent) where
  watch-Sent :
      (at : ℤ) (xs : List ℕ) (s : Consumer E) (p a : Ptr)
      → Sent sent at xs s
      → Sent sent at xs (watch_remote net tries s p a)
  unfolding watch_remote
  watch-Sent at xs s p a v =
      let s1 = create_or_abort net tries s (s.apa a).fd writable write_to_remote_agent p in
      create-Sent net tries sent str at xs s1 (s1.apa a).fd readable read_from_remote_agent p
        (create-Sent net tries sent str at xs s (s.apa a).fd writable write_to_remote_agent p v)

  take_apa-Sent :
      (at : ℤ) (xs : List ℕ) (s : Consumer E) (p a : Ptr)
      → Sent sent at xs s
      → Sent sent at xs (take_apa net tries s p a)
  unfolding take_apa
  take_apa-Sent at xs s p a v = elim (Bool-cases (a == null)) [
    | inl absent ↦ rw absent (abort-Sent net tries sent str at xs s p v)
    | inr present ↦
        rw present (watch-Sent at xs (put_ca s p (record (s.ca p) { conn_apa = a })) p a v)
  ]

  -- However often it is refused, connecting sends nothing.
  connect-Sent :
      (at : ℤ) (xs : List ℕ) (n : ℕ) (e : E) (ip : List ℕ) (port : ℤ) (r : ℤ × E)
      → connect net n e ip port ≡ some r
      → sent e at ≡ xs
      → sent r.1 at ≡ xs
  unfolding connect
  connect-Sent at xs zero e ip port r got v = absurd (ground arith)
  connect-Sent at xs (suc n) e ip port r got v =
      let fd = (net.tcp_connect e ip port).0 in
      let e' = (net.tcp_connect e ip port).1 in
      let v' = str.connect_keeps e ip port at ∙ v in
      elim (Bool-cases (is_neg fd)) [
        | inl refused ↦
            connect-Sent at xs n (net.sleep e' 1) ip port r (rw refused at got)
              (str.sleep_keeps e' 1 at ∙ v')
        | inr fine ↦
            let same : net.tune e' fd ≡ r.1 = ground arith in
            subst (λ x. sent x at ≡ xs) same (str.tune_keeps e' fd at ∙ v')
      ]

  init_connection_apa-Sent :
      (at : ℤ) (xs : List ℕ) (i : ℕ) (s : Consumer E) (a : Ptr) (r : ℕ × Consumer E)
      → init_connection_apa net tries i s a ≡ some r
      → Sent sent at xs s
      → Sent sent at xs r.1
  unfolding init_connection_apa
  init_connection_apa-Sent at xs i s a r got v =
      elim (Option-cases (connect net tries s.host (s.endpoints i).ip (s.endpoints i).port)) [
        | inl e ↦ absurd (ground arith)
        | inr (c, e) ↦
            let w = connect-Sent at xs tries s.host (s.endpoints i).ip (s.endpoints i).port c e v in
            let same : c.1 ≡ r.1.host = ground arith in subst (λ x. sent x at ≡ xs) same w
      ]

  apa_hooks-Sent : (i : ℕ) (at : ℤ) (xs : List ℕ) → Keeps (Sent sent at xs) (apa_hooks net tries i)
  apa_hooks-Sent i at xs = record {
    alloc = λ f e. cc;
    init = λ f e w d r got v.
        init_connection_apa-Sent at xs i w d r
          (subst (λ g. g w d ≡ some r) (some-injective _ _ (sym e)) got) v;
    cleanup = λ f e w d v.
        subst (λ g. Sent sent at xs (g w d)) (some-injective _ _ e)
          (cleanup-Sent net tries sent str at xs w d v);
    free = λ f e. cc;
    malloc = λ w n v. str.malloc_keeps w.host n at ∙ v;
    dealloc = λ w d v. str.dealloc_keeps w.host d at ∙ v;
    memset = λ w d n v. v;
  }

  pick_apa-Sent :
      (at : ℤ) (xs : List ℕ) (s t : Consumer E) (p : Ptr)
      → pick_apa net tries s p ≡ some t
      → Sent sent at xs s
      → Sent sent at xs t
  unfolding pick_apa
  pick_apa-Sent at xs s t p got v =
      elim (Option-cases (get_endpoint_min_latency s.endpoints s.num_endpoints)) [
        | inl e ↦ absurd (ground arith)
        | inr (i, chosen) ↦
            let hooks = apa_hooks net tries i in
            let pool = (s.endpoints i).conn_pool in
            elim (Option-cases (Pool.get hooks pool s)) [
              | inl e ↦ absurd (ground arith)
              | inr (r, taken) ↦
                  let w =
                    get-Keeps (Sent sent at xs) hooks (apa_hooks-Sent i at xs) pool s r taken v in
                  let s' = put_endpoint r.2 i (record ((r.2).endpoints i) { conn_pool = r.1 }) in
                  let same : take_apa net tries s' p r.0 ≡ t = ground arith in
                  subst (λ x. Sent sent at xs x) same (take_apa-Sent at xs s' p r.0 w)
            ]
      ]

  pub relay_request-Sent :
      (at : ℤ) (xs : List ℕ) (s t : Consumer E) (p : Ptr) (bs : List ℕ)
      → relay_request net tries s p bs ≡ some t
      → Sent sent at xs s
      → Sent sent at xs t
  unfolding relay_request
  relay_request-Sent at xs s t p bs got v =
      let c = s.ca p in
      let s1 = put_ca s p (record c {
        buf_in = blit c.buf_in c.nread_in bs;
        nread_in = c.nread_in + length bs;
        nread_out = 0;
        nwrite_out = 0;
      }) in
      elim (Bool-cases (c.conn_apa == null)) [
        | inl absent ↦ pick_apa-Sent at xs s1 t p (rw absent at got) v
        | inr present ↦
            subst (λ x. Sent sent at xs x) (some-injective _ _ (rw present at got))
              (watch-Sent at xs s1 p c.conn_apa v)
      ]

  pub consumer_closed-Sent :
      (at : ℤ) (xs : List ℕ) (s : Consumer E) (p : Ptr) (fd : ℤ)
      → Sent sent at xs s
      → Sent sent at xs (consumer_closed net tries s p fd)
  unfolding consumer_closed return_ca
  consumer_closed-Sent at xs s p fd v = rw str.close_keeps (
      return-Keeps (Sent sent at xs) (ca_hooks net) (ca_hooks-Sent net tries sent str at xs)
        s.ca_pool (delete_events net tries s fd both_ways) p (rw str.delete_keeps v))
