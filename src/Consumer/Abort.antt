-- ===== src/Consumer/Abort.antt =====
-- The life of the pooled objects: accepting, aborting, releasing.
use mathlib.Core.List.{Mem, mem-cons_self}
use native.Mathlib.Numerals.{add-one}
use dubbo_service_mesh.Base.{
  ℤ, ℕ, suc, ◌≡◌, ◌≢◌, refl, subst, ==_iff, inl, inr, ◌⊎◌, true, false, some, List, [], ◌∷◌, arith,
  ◌==◌, negsuc, Bool-cases,
}
use dubbo_service_mesh.Pool.{Ptr, null, Pool}
use dubbo_service_mesh.Pool.Stack.{Holds, get-Popped, return-Holds}
use dubbo_service_mesh.Net.{Host, readable, writable, both_ways}
use dubbo_service_mesh.Consumer.{
  Consumer, Handler, ca_hooks, put_ca, zero_ca, read_from_consumer, write_to_remote_agent,
  read_from_remote_agent,
}
use dubbo_service_mesh.Consumer.Connect.{apa_hooks}
use dubbo_service_mesh.Consumer.Handlers.{
  delete_events, close_fd, return_ca, abort_apa, abort_connection_ca, create_or_abort, accept_ca,
  consumer_http_handler, watch_remote, release_apa,
}

module _ {E : Type 0} (net : Host Handler E) (tries : ℕ) where
  return_ca_lem :
      (s : Consumer E) (p : Ptr) {xs : List Ptr} {n : ℕ}
      → Holds s.ca_pool xs (suc n)
      → (q : Pool) × (return_ca net tries s p ≡ record s { ca_pool = q }) × Holds q (p ∷ xs) n
  unfolding return_ca
  return_ca_lem s p v =
      let (q, e, w) = return-Holds (ca_hooks net) s p v in (q, rw (e, return_ca), w)

  record ApaClosed (s : Consumer E) (a : Ptr) (t : Consumer E) : Type 0 where
    closed : (a ≡ null) ⊎ ((t.apa a).fd ≡ negsuc 0)
    ca : t.ca ≡ s.ca
    ca_pool : t.ca_pool ≡ s.ca_pool
    endpoints : t.endpoints ≡ s.endpoints

  abort_apa-ApaClosed : (s : Consumer E) (a : Ptr) → ApaClosed s a (abort_apa net tries s a)
  unfolding abort_apa
  abort_apa-ApaClosed s a = elim (Bool-cases (a == null)) [
    | inl absent ↦
        rw absent
          (record { closed = inl (ground arith); ca = refl; ca_pool = refl; endpoints = refl })
    | inr present ↦
        let self : (a == a) ≡ true = ground arith in
        rw present (record { closed = inr (rw self); ca = refl; ca_pool = refl; endpoints = refl })
  ]

  -- What abort_connection_ca makes of connection `p`.
  pub record Aborted (s : Consumer E) (p : Ptr) (xs : List Ptr) (n : ℕ) (t : Consumer E)
      : Type 0 where
    pub closed_ca : (t.ca p).fd ≡ negsuc 0
    pub closed_apa : ((s.ca p).conn_apa ≡ null) ⊎ ((t.apa (s.ca p).conn_apa).fd ≡ negsuc 0)
    pub freed : Holds t.ca_pool (p ∷ xs) n
    pub endpoints : t.endpoints ≡ s.endpoints
    pub same_apa : (t.ca p).conn_apa ≡ (s.ca p).conn_apa

  -- abort_connection_ca closes both connections and returns the consumer's to its pool. It returns
  -- nothing to the pools of the endpoints, so the connection to the remote agent stays counted as in
  -- use.
  pub abort_connection_ca-Aborted :
      (s : Consumer E) (p : Ptr) {xs : List Ptr} {n : ℕ}
      → Holds s.ca_pool xs (suc n)
      → Aborted s p xs n (abort_connection_ca net tries s p)
  unfolding abort_connection_ca
  abort_connection_ca-Aborted s p {xs} {n} v =
      let a = (s.ca p).conn_apa in
      let s1 = delete_events net tries s (s.ca p).fd both_ways in
      let s2 = close_fd net tries s1 (s.ca p).fd in
      let s3 = put_ca s2 p (record (s.ca p) { fd = negsuc 0 }) in
      let self : (p == p) ≡ true = ground arith in
      let c = abort_apa-ApaClosed s3 a in
      let s4 = abort_apa net tries s3 a in
      let (q, e, w) = return_ca_lem s4 p (rw c.ca_pool v) in
      rw e (record {
        closed_ca = rw (c.ca, self);
        closed_apa = c.closed;
        freed = w;
        endpoints = c.endpoints;
        same_apa = rw (c.ca, self);
      })

  -- How a new connection fares: turned away with its socket closed; served by the object `p`, if the
  -- event loop takes the event for reading from its socket; or aborted, if it does not.
  pub data Accepted (s : Consumer E) (fd : ℤ) (n : ℕ) : List Ptr → Consumer E → Type 0 where
    refused :
        {xs : List Ptr} {t : Consumer E}
        → xs ≡ []
        → t ≡ record s { host = net.close s.host fd }
        → Accepted s fd n xs t
    served :
        {xs : List Ptr} {t : Consumer E} (p : Ptr) (rest : List Ptr)
        → xs ≡ p ∷ rest
        → (net.create_file_event s.host fd readable read_from_consumer p).0 ≡ true
        → t.ca p ≡ record zero_ca { fd = fd }
        → Holds t.ca_pool rest (suc n)
        → Accepted s fd n xs t
    dropped :
        {xs : List Ptr} {t : Consumer E} (p : Ptr) (rest : List Ptr)
        → xs ≡ p ∷ rest
        → (net.create_file_event s.host fd readable read_from_consumer p).0 ≡ false
        → (t.ca p).fd ≡ negsuc 0
        → Holds t.ca_pool xs n
        → Accepted s fd n xs t

  create_or_abort-Accepted :
      (s s' : Consumer E) (fd : ℤ) (p : Ptr) (rest : List Ptr) (n : ℕ)
      → s'.host ≡ s.host
      → s'.ca p ≡ record zero_ca { fd = fd }
      → Holds s'.ca_pool rest (suc n)
      → Accepted s fd n (p ∷ rest) (create_or_abort net tries s' fd readable read_from_consumer p)
  unfolding create_or_abort
  create_or_abort-Accepted s s' fd p rest n here new v =
      let r = net.create_file_event s'.host fd readable read_from_consumer p in
      elim (Bool-cases r.0) [
        | inl fine ↦ rw fine (served p rest refl (rw here at fine) new v)
        | inr error ↦
            let a = abort_connection_ca-Aborted (record s' { host = r.1 }) p v in
            rw error (dropped p rest refl (rw here at error) a.closed_ca a.freed)
      ]

  -- With a full bounded pool whose free objects are not NULL, consumer_http_handler returns. With no
  -- free object it closes the socket and changes nothing else; otherwise, if the event loop takes the
  -- event for reading from the socket, the object on top of the free ones is cleared, given the socket
  -- and taken out of the pool, and if it does not, that object is closed and back on top of the pool.
  pub consumer_http_handler-Accepted :
      (s : Consumer E) (fd : ℤ) (xs : List Ptr) (n : ℕ)
      → Holds s.ca_pool xs n
      → ¬ Mem null xs
      → (t : Consumer E) × (consumer_http_handler net tries s fd ≡ some t) × Accepted s fd n xs t
  unfolding consumer_http_handler accept_ca
  consumer_http_handler-Accepted s fd [] n v real =
      let r = get-Popped (ca_hooks net) s v in
      (record s { host = net.close s.host fd }, rw r, refused refl refl)
  consumer_http_handler-Accepted s fd (p ∷ rest) n v real =
      let (q, r, w) = get-Popped (ca_hooks net) s v in
      let s' = put_ca (record s { ca_pool = q }) p (record zero_ca { fd = fd }) in
      let present : (p == null) ≡ false = elim (Bool-cases (p == null)) [
        | inl e ↦ absurd (real (subst (λ k. Mem k (p ∷ rest)) ((==_iff p null).0 e) mem-cons_self))
        | inr e ↦ e
      ] in
      let self : (p == p) ≡ true = ground arith in
      (
        create_or_abort net tries s' fd readable read_from_consumer p,
        rw (r, present),
        create_or_abort-Accepted s s' fd p rest n refl (rw self) (rw add-one at w),
      )

  -- What release_apa makes of connection `p`, served by connection `a` of endpoint `i`.
  pub record Released (s : Consumer E) (p a i : ℕ) (xs : List Ptr) (n : ℕ) (t : Consumer E)
      : Type 0 where
    pub back : Holds (t.endpoints i).conn_pool (a ∷ xs) n
    pub others : (j : ℕ) → j ≢ i → t.endpoints j ≡ s.endpoints j
    pub unlinked : t.ca p ≡ record (s.ca p) { conn_apa = null }
    pub same_ca : (q : Ptr) → q ≢ p → t.ca q ≡ s.ca q
    pub same_apa : t.apa ≡ s.apa
    pub same_pool : t.ca_pool ≡ s.ca_pool
    pub events : t.host ≡ net.delete_file_event s.host (s.apa a).fd both_ways

  -- For a connection that has one to a remote agent, with an element out of the full bounded pool of
  -- its endpoint: release_apa makes the connection to the remote agent free again at its endpoint and
  -- deletes its events, the other endpoints are as they were, and the consumer's connection keeps its
  -- socket and its buffers and has no connection to a remote agent; no other connection changes.
  pub release_apa-Released :
      (s : Consumer E) (p : Ptr) (xs : List Ptr) (n : ℕ)
      → (s.ca p).conn_apa ≢ null
      → Holds (s.endpoints (s.apa (s.ca p).conn_apa).endpoint).conn_pool xs (suc n)
      → Released s p
          (s.ca p).conn_apa
          (s.apa (s.ca p).conn_apa).endpoint
          xs
          n
          (release_apa net tries s p)
  unfolding release_apa
  release_apa-Released s p xs n real v =
      let a = (s.ca p).conn_apa in
      let i = (s.apa a).endpoint in
      let present : (a == null) ≡ false = ground arith in
      let self : (k : ℕ) → (k == k) ≡ true = λ k. ground arith in
      let s1 = delete_events net tries s (s.apa a).fd both_ways in
      let (q, e, w) = return-Holds (apa_hooks net tries i) s1 a v in
      rw (present, e)
        (record {
          back = rw (self i) w;
          others = λ j ne. ground arith;
          unlinked = rw (self p) refl;
          same_ca = λ q ne. ground arith;
          same_apa = refl;
          events = refl;
          same_pool = refl;
        })

  -- If neither event for the remote agent can be registered, and at least two objects of the full
  -- bounded pool are out, the connection is aborted twice, and its object stands twice among the free
  -- ones.
  pub watch_remote_twice :
      (s : Consumer E) (p a : Ptr) (xs : List Ptr) (n : ℕ)
      → ((e : E) (fd : ℤ) (mask : ℕ) (f : Handler) (q : Ptr)
          → (net.create_file_event e fd mask f q).0 ≡ false)
      → Holds s.ca_pool xs (suc (suc n))
      → Holds (watch_remote net tries s p a).ca_pool (p ∷ p ∷ xs) n
  unfolding watch_remote create_or_abort
  watch_remote_twice s p a xs n fails v =
      let s0 = record s {
        host = (net.create_file_event s.host (s.apa a).fd writable write_to_remote_agent p).1;
      } in
      let a1 = abort_connection_ca-Aborted s0 p v in
      let s1 = abort_connection_ca net tries s0 p in
      let s2 = record s1 {
        host = (net.create_file_event s1.host (s1.apa a).fd readable read_from_remote_agent p).1;
      } in
      rw
        (
          fails s.host (s.apa a).fd writable write_to_remote_agent p,
          fails s1.host (s1.apa a).fd readable read_from_remote_agent p,
        )
        (abort_connection_ca-Aborted s2 p a1.freed).freed
