-- ===== src/Provider/Safety.antt =====
-- No event makes a handler of the provider's agent read or write outside a connection's buffers.
use mathlib.Core.Option.{some-injective}
use dubbo_service_mesh.Base.{
  ℤ, ℕ, suc, ◌+◌, ◌≤◌, ◌≡◌, subst, inl, inr, some, List, ◌∷◌, arith, length, ◌==◌, is_neg,
  Bool-cases, Option-cases,
}
use dubbo_service_mesh.Pool.{Ptr}
use dubbo_service_mesh.Net.{Host, HostLaws, ReadResult-cases, WriteResult-cases, writable}
use dubbo_service_mesh.Net.Buffer.{blit, slice, size_sub, length-slice}
use dubbo_service_mesh.Provider.{
  ConnectionCaa, Provider, Handler, Parser, ParserLaws, read_from_consumer_agent,
  write_to_local_provider, read_from_local_provider, write_to_consumer_agent, put_caa,
}
use dubbo_service_mesh.Provider.Dubbo.{resp_buf_size}
use dubbo_service_mesh.Provider.Response.{is_complete, terminate, http_response}
use dubbo_service_mesh.Provider.Local.{
  wrote_to_local, on_write_to_local_provider, collect_response, on_read_from_local_provider,
  wrote_to_agent, on_write_to_consumer_agent, handle,
}
use dubbo_service_mesh.Provider.Frame.{abort-On, create-On}
use dubbo_service_mesh.Provider.Bounds.{
  IsBounded, StoreBounded, AllBounded, update-StoreBounded, bounded-Refds,
}
use dubbo_service_mesh.Provider.ParseBounds.{on_read_from_consumer_agent-AllBounded}

module _ {P E : Type 0} (http : Parser P (Provider P E)) (net : Host Handler E) (tries : ℕ) where
  wrote_to_local-AllBounded :
      (s : Provider P E) (p : Ptr) (fd : ℤ) (n : ℕ)
      → (s.caa p).nwrite_req + n ≤ (s.caa p).len_req
      → AllBounded s
      → AllBounded (wrote_to_local http net tries s p fd n)
  unfolding wrote_to_local
  wrote_to_local-AllBounded s p fd n fits v =
      let c = s.caa p in
      let v1 =
        update-StoreBounded s.caa p (record c { nwrite_req = c.nwrite_req + n })
          (ground (arith, v p)) v in
      elim (Bool-cases (c.nwrite_req + n == c.len_req)) [
        | inl done ↦ rw done v1
        | inr more ↦ rw more v1
      ]

  write_req_fits :
      (c : ConnectionCaa P) (n : ℕ)
      → IsBounded c
      → n ≤ length (slice c.buf_req c.nwrite_req (size_sub c.len_req c.nwrite_req))
      → c.nwrite_req + n ≤ c.len_req
  write_req_fits c n v h =
      omega (arith, length-slice c.buf_req c.nwrite_req (size_sub c.len_req c.nwrite_req))

  on_write_to_local_provider-AllBounded :
      (s : Provider P E) (fd : ℤ) (p : Ptr)
      → HostLaws net
      → AllBounded s
      → AllBounded (on_write_to_local_provider http net tries s fd p)
  unfolding on_write_to_local_provider
  on_write_to_local_provider-AllBounded s fd p laws v =
      let c = s.caa p in
      let bs = slice c.buf_req c.nwrite_req (size_sub c.len_req c.nwrite_req) in
      let s1 = record s { host = (net.write s.host fd bs).1 } in
      elim (Bool-cases (is_neg c.fd)) [
        | inl gone ↦ rw gone v
        | inr live ↦ elim (WriteResult-cases (net.write s.host fd bs).0) [
          | inl (n, e) ↦
              let h : n ≤ length bs = rw e at (laws.writes s.host fd bs) in
              rw (live, e) (wrote_to_local-AllBounded s1 p fd n (write_req_fits c n (v p) h) v)
          | inr (again, e) ↦
              rw (live, e)
                (elim (Bool-cases again) [
                  | inl later ↦ rw later v
                  | inr error ↦
                      rw error
                        (abort-On http net tries (λ f n. StoreBounded f) bounded-Refds s1 p v)
                ])
        ]
      ]

  collect_response-AllBounded :
      (s : Provider P E) (p : Ptr) (bs : List ℕ)
      → (s.caa p).nread_resp + length bs ≤ resp_buf_size
      → AllBounded s
      → AllBounded (collect_response http net tries s p bs)
  unfolding collect_response
  collect_response-AllBounded s p bs fits v =
      let c = s.caa p in
      let c' = record c {
        buf_resp = blit c.buf_resp c.nread_resp bs;
        nread_resp = c.nread_resp + length bs;
      } in
      let s1 = put_caa s p c' in
      let v1 : AllBounded s1 = update-StoreBounded s.caa p c' (ground (arith, v p)) v in
      elim (Bool-cases (is_complete c'.buf_resp c'.nread_resp)) [
        | inl done ↦ rw done (
            create-On http net tries (λ f n. StoreBounded f) bounded-Refds s1 c.fd writable
              write_to_consumer_agent p v1)
        | inr more ↦ rw more v1
      ]

  read_resp_fits :
      (c : ConnectionCaa P) (first : ℕ) (rest : List ℕ)
      → IsBounded c
      → suc (length rest) ≤ size_sub resp_buf_size c.nread_resp
      → c.nread_resp + length (first ∷ rest) ≤ resp_buf_size
  read_resp_fits c first rest v h = omega arith

  on_read_from_local_provider-AllBounded :
      (s : Provider P E) (fd : ℤ) (p : Ptr)
      → HostLaws net
      → AllBounded s
      → AllBounded (on_read_from_local_provider http net tries s fd p)
  unfolding on_read_from_local_provider
  on_read_from_local_provider-AllBounded s fd p laws v =
      let c = s.caa p in
      let count = size_sub resp_buf_size c.nread_resp in
      let s1 = record s { host = (net.read s.host fd count).1 } in
      let aborted = abort-On http net tries (λ f n. StoreBounded f) bounded-Refds s1 p v in
      elim (Bool-cases (is_neg c.fd)) [
        | inl gone ↦ rw gone v
        | inr live ↦ elim (ReadResult-cases (net.read s.host fd count).0) [
          | inl (b, bs, e) ↦
              let h : suc (length bs) ≤ count = rw e at (laws.reads s.host fd count) in
              rw (live, e)
                (collect_response-AllBounded s1 p (b ∷ bs) (read_resp_fits c b bs (v p) h) v)
          | inr (inl e) ↦ rw (live, e) aborted
          | inr (inr (again, e)) ↦
              rw (live, e)
                (elim (Bool-cases again) [ inl later ↦ rw later v | inr error ↦ rw error aborted ])
        ]
      ]

  wrote_to_agent-AllBounded :
      (s : Provider P E) (p : Ptr) (fd : ℤ) (n len : ℕ)
      → AllBounded s
      → AllBounded (wrote_to_agent http net tries s p fd n len)
  unfolding wrote_to_agent
  wrote_to_agent-AllBounded s p fd n len v = elim (Bool-cases (n == len)) [
    | inl done ↦ rw done (update-StoreBounded s.caa p _ (ground (arith, v p)) v)
    | inr more ↦ rw more v
  ]

  on_write_to_consumer_agent-AllBounded :
      (s t : Provider P E) (fd : ℤ) (p : Ptr)
      → on_write_to_consumer_agent http net tries s fd p ≡ some t
      → AllBounded s
      → AllBounded t
  unfolding on_write_to_consumer_agent
  on_write_to_consumer_agent-AllBounded s t fd p got v =
      let c = s.caa p in
      elim (Bool-cases (is_neg c.fd)) [
        | inl gone ↦ let same : s.caa ≡ t.caa = ground arith in subst StoreBounded same v
        | inr live ↦ elim (Option-cases (http_response c.buf_resp c.nread_resp)) [
          | inl e ↦ absurd (ground arith)
          | inr (out, e) ↦
              let c' = record c { buf_resp = terminate c.buf_resp c.nread_resp } in
              let s1 = record (put_caa s p c') { host = (net.write s.host fd out).1 } in
              let v1 : AllBounded s1 = update-StoreBounded s.caa p c' (ground (arith, v p)) v in
              elim (WriteResult-cases (net.write s.host fd out).0) [
                | inl (n, w) ↦
                    subst (λ x. AllBounded x) (some-injective _ _ (rw (live, e, w) at got))
                      (wrote_to_agent-AllBounded s1 p fd n (length out) v1)
                | inr (again, w) ↦ elim (Bool-cases again) [
                  | inl later ↦
                      subst (λ x. AllBounded x) (some-injective _ _ (rw (live, e, w, later) at got))
                        v1
                  | inr error ↦
                      subst (λ x. AllBounded x) (some-injective _ _ (rw (live, e, w, error) at got))
                        (abort-On http net tries (λ f n. StoreBounded f) bounded-Refds s1 p v1)
                ]
              ]
        ]
      ]

  -- Where read and write keep to the counts they are given and the parser works only through its
  -- callback, every handler that has a result leaves each connection with its positions within
  -- `buf_in`, `buf_req` and `buf_resp` and its request sent at most up to its end.
  pub handle_bounds :
      (s t : Provider P E) (f : Handler) (fd : ℤ) (p : Ptr)
      → HostLaws net
      → ParserLaws http
      → AllBounded s
      → handle http net tries s f fd p ≡ some t
      → AllBounded t
  unfolding handle
  handle_bounds s t read_from_consumer_agent fd p laws parses v got =
      on_read_from_consumer_agent-AllBounded http net tries s t fd p laws parses got v
  handle_bounds s t write_to_local_provider fd p laws parses v got =
      subst (λ x. AllBounded x) (some-injective _ _ got)
        (on_write_to_local_provider-AllBounded s fd p laws v)
  handle_bounds s t read_from_local_provider fd p laws parses v got =
      subst (λ x. AllBounded x) (some-injective _ _ got)
        (on_read_from_local_provider-AllBounded s fd p laws v)
  handle_bounds s t write_to_consumer_agent fd p laws parses v got =
      on_write_to_consumer_agent-AllBounded s t fd p got v
