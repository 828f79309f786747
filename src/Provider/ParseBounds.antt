-- ===== src/Provider/ParseBounds.antt =====
-- Reading and parsing an HTTP request keeps every connection of the provider's agent within its
-- buffers.
use mathlib.Core.Option.{some-injective}
use dubbo_service_mesh.Base.{
  ℤ, ℕ, suc, ◌+◌, ◌-◌, ◌%◌, ◌^◌, ◌≤◌, ◌≡◌, refl, subst, inl, inr, true, false, some, List, [], ◌∷◌,
  arith, length, ◌==◌, is_neg, negsuc, if◌then◌else◌, Bool-cases, Option-cases,
}
use dubbo_service_mesh.Pool.{Ptr, null}
use dubbo_service_mesh.Net.{Host, HostLaws, ReadResult-cases, both_ways, update}
use dubbo_service_mesh.Net.Buffer.{blit, slice, size_sub}
use dubbo_service_mesh.Provider.{ConnectionCaa, Provider, Handler, Parser, ParserLaws, put_caa}
use dubbo_service_mesh.Provider.Dubbo.{
  http_buf_size, dubbo_header_len, parse_body, call_payload, assemble, request_fits,
}
use dubbo_service_mesh.Provider.Handlers.{
  delete_events, close_fd, watch_local, send_request, on_http_body, execute, parse_request,
  agent_closed, on_read_from_consumer_agent,
}
use dubbo_service_mesh.Provider.Frame.{Refds, return_caa-On, abort-On, watch-On}
use dubbo_service_mesh.Provider.Bounds.{
  IsBounded, StoreBounded, AllBounded, update-StoreBounded, bounded-Refds,
}

-- Within the buffers, and connection `p` has read `k` bytes.
abbrev pub ReadsTo : {P : Type 0} → Ptr → ℕ → (Ptr → ConnectionCaa P) → ℕ → Type 0
ReadsTo p k f n = StoreBounded f × ((f p).nread_in ≡ k)

ReadsTo-update :
    {P : Type 0} (p q : Ptr) (k n : ℕ) (f : Ptr → ConnectionCaa P) (c : ConnectionCaa P)
    → IsBounded c
    → c.nread_in ≡ (f q).nread_in
    → ReadsTo p k f n
    → ReadsTo p k (update f q c) n
ReadsTo-update p q k n f c b same v = (update-StoreBounded f q c b v.0, ground arith)

ReadsTo-Refds : {P : Type 0} (p : Ptr) (k : ℕ) → Refds {P = P} (ReadsTo p k)
ReadsTo-Refds p k f n q fd v = ReadsTo-update p q k n f _ (ground (arith, v.0 q)) refl v

module _ {P E : Type 0} (http : Parser P (Provider P E)) (net : Host Handler E) (tries : ℕ) where
  abbrev Reading : Ptr → ℕ → Provider P E → Type 0
  Reading p k s = ReadsTo p k s.caa s.cur_request_id

  send_request-Reading :
      (s : Provider P E) (p : Ptr) (text : List ℕ) (a : ℕ × Provider P E) (k : ℕ)
      → (s.caa p).processing ≡ false
      → send_request http net tries s p text ≡ some a
      → Reading p k s
      → Reading p k a.1
  unfolding send_request
  send_request-Reading s p text a k free got v =
      let c = s.caa p in
      let c' = record c {
        processing = true;
        buf_req = assemble c.buf_req s.cur_request_id text;
        len_req = length text + dubbo_header_len;
      } in
      let s2 = record (put_caa s p c') { cur_request_id = (s.cur_request_id + 1) % 2 ^ 32 } in
      elim (Bool-cases (request_fits text)) [
        | inr long ↦ absurd (ground arith)
        | inl fits ↦ elim (Bool-cases (c.conn_ap == null)) [
          | inl absent ↦ absurd (ground arith)
          | inr present ↦
              let b : IsBounded c' = ground (arith, v.0 p) in
              let w =
                watch-On http net tries (ReadsTo p k) (ReadsTo-Refds p k) s2 p c.conn_ap
                  (ReadsTo-update p p k 0 s.caa c' b refl v) in
              let same : watch_local http net tries s2 p c.conn_ap ≡ a.1 = ground arith in
              subst (λ x. Reading p k x) same w
        ]
      ]

  on_http_body-Reading :
      (s : Provider P E) (p : Ptr) (at len : ℕ) (a : ℕ × Provider P E) (k : ℕ)
      → on_http_body http net tries p s at len ≡ some a
      → Reading p k s
      → Reading p k a.1
  unfolding on_http_body
  on_http_body-Reading s p at len a k got v =
      let mem = slice (s.caa p).buf_in at (http_buf_size - at) in
      elim (Bool-cases (s.caa p).processing) [
        | inl busy ↦ let same : s ≡ a.1 = ground arith in subst (λ x. Reading p k x) same v
        | inr free ↦ elim (Option-cases (parse_body mem len)) [
          | inl e ↦ absurd (ground arith)
          | inr (call, e) ↦ send_request-Reading s p (call_payload call) a k free (ground arith) v
        ]
      ]

  execute-Reading :
      (s : Provider P E) (p : Ptr) (bs : List ℕ) (r : ℕ × Provider P E)
      → ParserLaws http
      → execute http net tries s p bs ≡ some r
      → AllBounded s
      → Reading p (s.caa p).nread_in r.1
  unfolding execute
  execute-Reading s p bs r laws got v =
      let c = s.caa p in
      let k = c.nread_in in
      let on_body =
        λ (s' : Provider P E) (at len : ℕ). on_http_body http net tries p s' (k + at) len in
      elim (Option-cases (http.execute on_body c.parser bs s)) [
        | inl e ↦ absurd (ground arith)
        | inr (a, e) ↦
            let t = a.1.1 in
            let w =
              laws.keeps (Reading p k) on_body c.parser bs s a
                (λ s' at len b inside called i. on_http_body-Reading s' p (k + at) len b k called i)
                e (v, refl) in
            let c' = record (t.caa p) { parser = a.1.0 } in
            let same : put_caa t p c' ≡ r.1 = ground arith in
            subst (λ x. Reading p k x) same
              (ReadsTo-update p p k 0 t.caa c' (ground (arith, w.0 p)) refl w)
      ]

  parse_request-AllBounded :
      (s t : Provider P E) (p : Ptr) (bs : List ℕ)
      → ParserLaws http
      → parse_request http net tries s p bs ≡ some t
      → (s.caa p).nread_in + length bs ≤ http_buf_size
      → AllBounded s
      → AllBounded t
  unfolding parse_request
  parse_request-AllBounded s t p bs laws got fits v =
      let c = s.caa p in
      let s1 = put_caa s p (record c { buf_in = blit c.buf_in c.nread_in bs }) in
      let v1 : AllBounded s1 = update-StoreBounded s.caa p _ (ground (arith, v p)) v in
      elim (Option-cases (execute http net tries s1 p bs)) [
        | inl e ↦ absurd (ground arith)
        | inr (r, e) ↦
            let w = execute-Reading s1 p bs r laws e v1 in
            let self : (p == p) ≡ true = ground arith in
            let k : (s1.caa p).nread_in ≡ c.nread_in = rw self refl in
            let c' = (r.1).caa p in
            let d = record c' {
              nread_in = if r.0 == length bs then c'.nread_in + length bs else 0;
            } in
            let same : update (r.1).caa p d ≡ t.caa = ground arith in
            subst StoreBounded same (update-StoreBounded (r.1).caa p d (ground (arith, w.0 p)) w.0)
      ]

  agent_closed-AllBounded :
      (s t : Provider P E) (p : Ptr) (fd : ℤ)
      → ParserLaws http
      → agent_closed http net tries s p fd ≡ some t
      → AllBounded s
      → AllBounded t
  unfolding agent_closed
  agent_closed-AllBounded s t p fd laws got v =
      elim (Option-cases (execute http net tries s p [])) [
        | inl e ↦ absurd (ground arith)
        | inr (r, e) ↦
            let w = (execute-Reading s p [] r laws e v).0 in
            let s2 = close_fd http net tries (delete_events http net tries r.1 fd both_ways) fd in
            let s3 = put_caa s2 p (record (s2.caa p) { fd = negsuc 0 }) in
            subst (λ x. AllBounded x) (some-injective _ _ (rw e at got))
              (return_caa-On http net tries (λ f n. StoreBounded f) bounded-Refds s3 p
                (bounded-Refds s2.caa 0 p (negsuc 0) w))
      ]

  read_in_fits :
      (c : ConnectionCaa P) (first : ℕ) (rest : List ℕ)
      → IsBounded c
      → suc (length rest) ≤ size_sub http_buf_size c.nread_in
      → c.nread_in + length (first ∷ rest) ≤ http_buf_size
  read_in_fits c first rest v h = omega arith

  pub on_read_from_consumer_agent-AllBounded :
      (s t : Provider P E) (fd : ℤ) (p : Ptr)
      → HostLaws net
      → ParserLaws http
      → on_read_from_consumer_agent http net tries s fd p ≡ some t
      → AllBounded s
      → AllBounded t
  unfolding on_read_from_consumer_agent
  on_read_from_consumer_agent-AllBounded s t fd p laws parses got v =
      let c = s.caa p in
      let count = size_sub http_buf_size c.nread_in in
      let s1 = record s { host = (net.read s.host fd count).1 } in
      elim (Bool-cases (is_neg c.fd)) [
        | inl gone ↦ let same : s.caa ≡ t.caa = ground arith in subst StoreBounded same v
        | inr live ↦ elim (ReadResult-cases (net.read s.host fd count).0) [
          | inl (b, bs, e) ↦
              let h : suc (length bs) ≤ count = rw e at (laws.reads s.host fd count) in
              parse_request-AllBounded s1 t p (b ∷ bs) parses (rw (live, e) at got)
                (read_in_fits c b bs (v p) h) v
          | inr (inl e) ↦ agent_closed-AllBounded s1 t p fd parses (rw (live, e) at got) v
          | inr (inr (again, e)) ↦ elim (Bool-cases again) [
            | inl later ↦
                subst (λ x. AllBounded x) (some-injective _ _ (rw (live, e, later) at got)) v
            | inr error ↦
                subst (λ x. AllBounded x) (some-injective _ _ (rw (live, e, error) at got))
                  (abort-On http net tries (λ f n. StoreBounded f) bounded-Refds s1 p v)
          ]
        ]
      ]
