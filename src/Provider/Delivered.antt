-- ===== src/Provider/Delivered.antt =====
-- A posted form reaches the local provider as one Dubbo request: on_http_body and the write events
-- of src/provider.c together.
use mathlib.Core.Option.{some-injective}
use dubbo_service_mesh.Base.{
  ℤ, ℕ, ◌+◌, ◌-◌, ◌%◌, ◌^◌, ◌≤◌, ◌<◌, ◌≡◌, ◌≢◌, refl, ap, sym, ◌∙◌, subst, inl, inr, true, false,
  some, List, [], ◌++◌, length, arith, is_neg, ◌==◌, Bool-cases,
}
use dubbo_service_mesh.Pool.{Ptr, null}
use dubbo_service_mesh.Net.{Host, HostLaws, Streams, Flows}
use dubbo_service_mesh.Net.Buffer.{slice, length-slice}
use dubbo_service_mesh.Provider.{ConnectionCaa, Provider, Handler, Parser, put_caa}
use dubbo_service_mesh.Provider.Dubbo.{
  Call, http_buf_size, dubbo_header_len, encoded_string_type, string_type, payload, call_payload,
  assemble, parse_body, request_fits,
}
use dubbo_service_mesh.Provider.Dubbo.Fields.{
  Field, IsField, IsLast, body, call_of, parse_body_call,
}
use dubbo_service_mesh.Provider.Dubbo.Frame.{IsCleared, read_frame}
use dubbo_service_mesh.Provider.Handlers.{send_request, on_http_body, watch_local}
use dubbo_service_mesh.Provider.Frame.{watch-On}
use dubbo_service_mesh.Provider.Bounds.{IsBounded}
use dubbo_service_mesh.Provider.Sent.{Sent, body_of, Alike, Alike-Refds, watch-Sent}
use dubbo_service_mesh.Provider.Requests.{Waits, guarded}
use dubbo_service_mesh.Provider.Sendings.{pending_req, Alike-IsBounded, Sendings, Sendings-drain}
use dubbo_service_mesh.Provider.Translation.{call_payload-call_of, on_http_body_translates}

-- The connection with the request `text` under `id` in its buffer.
abbrev pub loaded : {P : Type 0} → ConnectionCaa P → (id : ℕ) → List ℕ → ConnectionCaa P
loaded c id text = record c {
  processing = true;
  buf_req = assemble c.buf_req id text;
  len_req = length text + dubbo_header_len;
}

loaded-IsBounded :
    {P : Type 0} (c : ConnectionCaa P) (id : ℕ) (text : List ℕ)
    → IsBounded c
    → c.nwrite_req ≡ 0
    → request_fits text ≡ true
    → IsBounded (loaded c id text)
loaded-IsBounded c id text v fresh fits = record {
  room_in = v.room_in;
  sent_req = omega (arith, fresh);
  room_req = ground arith;
  room_resp = v.room_resp;
  idle = inl refl;
}

module _ {P E : Type 0} (http : Parser P (Provider P E)) (net : Host Handler E) (tries : ℕ)
    (sent : E → ℤ → List ℕ) (str : Streams net sent) where
  -- It sends nothing itself, and changes no more of the connection than this and its descriptor.
  send_request-loaded :
      (s : Provider P E) (p : Ptr) (text : List ℕ) (a : ℕ × Provider P E) (at : ℤ)
      → send_request http net tries s p text ≡ some a
      → Alike p (loaded (s.caa p) s.cur_request_id text) (a.1).caa (a.1).cur_request_id
        × Sent sent at (sent s.host at) a.1
        × (request_fits text ≡ true)
  unfolding send_request
  send_request-loaded s p text a at got =
      let c = s.caa p in
      let c' = loaded c s.cur_request_id text in
      let s2 = record (put_caa s p c') { cur_request_id = (s.cur_request_id + 1) % 2 ^ 32 } in
      elim (Bool-cases (request_fits text)) [
        | inr long ↦ absurd (ground arith)
        | inl fits ↦ elim (Bool-cases (c.conn_ap == null)) [
          | inl absent ↦ absurd (ground arith)
          | inr present ↦
              let self : (p == p) ≡ true = ground arith in
              let at_p : Alike p c' s2.caa s2.cur_request_id = rw self refl in
              let kept =
                watch-On http net tries (Alike p c') (Alike-Refds p c') s2 p c.conn_ap at_p in
              let quiet =
                watch-Sent http net tries sent str at (sent s.host at) s2 p c.conn_ap refl in
              let same : watch_local http net tries s2 p c.conn_ap ≡ a.1 = ground arith in
              (
                subst (λ x. Alike p c' x.caa x.cur_request_id) same kept,
                subst (λ x. Sent sent at (sent s.host at) x) same quiet,
                fits,
              )
        ]
      ]

  on_http_body-loaded :
      (s : Provider P E) (p : Ptr) (from len : ℕ) (call : Call) (a : ℕ × Provider P E) (at : ℤ)
      → on_http_body http net tries p s from len ≡ some a
      → (s.caa p).processing ≡ false
      → parse_body (slice (s.caa p).buf_in from (http_buf_size - from)) len ≡ some call
      → Alike p
          (loaded (s.caa p) s.cur_request_id (call_payload call))
          (a.1).caa
          (a.1).cur_request_id
        × Sent sent at (sent s.host at) a.1
        × (request_fits (call_payload call) ≡ true)
  unfolding on_http_body
  on_http_body-loaded s p from len call a at got idle parsed =
      send_request-loaded s p (call_payload call) a at (
        sym (
          guarded (s.caa p).processing (1, s)
            (parse_body (slice (s.caa p).buf_in from (http_buf_size - from)) len)
            (λ k. send_request http net tries s p (call_payload k)) call idle parsed)
        ∙ got)

  -- What is pending of a request that was loaded and not yet written is the whole frame.
  whole_frame :
      (c d : ConnectionCaa P) (id : ℕ) (text : List ℕ)
      → body_of d ≡ body_of (loaded c id text)
      → c.nwrite_req ≡ 0
      → pending_req d ≡ slice d.buf_req 0 d.len_req
  whole_frame c d id text same fresh =
      let start : d.nwrite_req ≡ 0 = ap (λ x. x.nwrite_req) same ∙ fresh in
      let size : d.len_req - 0 ≡ d.len_req = omega arith in rw (start, size) refl

  -- The whole frame with `text` under `id` is pending on connection `p`, and since `s` nothing has gone
  -- out to `at`.
  pub record Ready (p : Ptr) (at : ℤ) (id : ℕ) (text : List ℕ) (s t : Provider P E) : Type 0 where
    pub frame : read_frame (pending_req (t.caa p)) ≡ some (record { id = id; text = text })
    pub quiet : sent t.host at ≡ sent s.host at
    pub bounded : IsBounded (t.caa p)
    pub size : length (pending_req (t.caa p)) ≤ dubbo_header_len + length text

  pub on_http_body-Ready :
      (s t : Provider P E) (p : Ptr) (at : ℤ) (from len : ℕ) (a b c d : Field) (tail : List ℕ)
      → IsBounded (s.caa p)
      → (s.caa p).processing ≡ false
      → (s.caa p).conn_ap ≢ null
      → (s.caa p).nwrite_req ≡ 0
      → IsCleared (s.caa p).buf_req
      → s.cur_request_id < 2 ^ 32
      → IsField a
      → IsField b
      → IsField c
      → IsLast d
      → c.value ≡ encoded_string_type
      → slice (s.caa p).buf_in from (http_buf_size - from) ≡ body a b c d tail
      → len + length tail ≡ length (body a b c d tail)
      → on_http_body http net tries p s from len ≡ some (0, t)
      → Ready p at s.cur_request_id (payload a.value b.value string_type d.value) s t
        × ((t.caa p).nread_in ≡ (s.caa p).nread_in)
  on_http_body-Ready s t p at from len a b c d tail v idle real fresh clear small va vb vc vd string
        memory size got =
      let text = payload a.value b.value string_type d.value in
      let call = call_of a b c d tail in
      let same = call_payload-call_of a b c d tail va vb string vd.value_nul in
      let parsed : parse_body (slice (s.caa p).buf_in from (http_buf_size - from)) len ≡ some call =
        rw memory (parse_body_call a b c d tail len va vb vc vd.key_eq vd.key_nul size) in
      let (alike, quiet, fits) = on_http_body-loaded s p from len call (0, t) at got idle parsed in
      let little : request_fits text ≡ true = rw same at fits in
      let (t', got', waits) =
        on_http_body_translates http net tries s p from len a b c d tail idle real clear small va vb
          vc vd string memory size little in
      let end : t' ≡ t = ap (λ x. x.1) (some-injective _ _ (sym got' ∙ got)) in
      let frame = subst (λ x. Waits p s.cur_request_id text x.caa x.cur_request_id) end waits in
      let now = t.caa p in
      let whole = whole_frame (s.caa p) now s.cur_request_id (call_payload call) alike fresh in
      let long : now.len_req ≡ length text + dubbo_header_len =
        rw same at (ap (λ x. x.len_req) alike) in
      (
        record {
          frame = ap read_frame whole ∙ frame.0.frame;
          quiet = quiet;
          bounded =
              Alike-IsBounded (loaded (s.caa p) s.cur_request_id (call_payload call)) now alike
                (loaded-IsBounded (s.caa p) s.cur_request_id (call_payload call) v fresh fits);
          size = omega (arith, ap (λ l. length l) whole, length-slice now.buf_req 0 now.len_req);
        },
        ap (λ x. x.nread_in) alike,
      )

  -- Enough write events send it.
  pub Ready-sent :
      (s t u : Provider P E) (p : Ptr) (at : ℤ) (id k : ℕ) (text : List ℕ)
      → HostLaws net
      → Flows net
      → Ready p at id text s t
      → is_neg (t.caa p).fd ≡ false
      → Sendings http net tries sent str at p t k u
      → dubbo_header_len + length text ≤ k
      → (bytes : List ℕ) × (read_frame bytes ≡ some (record { id = id; text = text }))
        × (sent u.host at ≡ sent s.host at ++ bytes)
        × (pending_req (u.caa p) ≡ [])
  Ready-sent s t u p at id k text laws flows ready live r enough =
      let few = ready.size in
      let (nothing, out) =
        Sendings-drain http net tries sent str {s = t} {t = u} laws flows ready.bounded live r
          (omega arith) in
      (
        pending_req (t.caa p),
        ready.frame,
        out ∙ ap (λ l. l ++ pending_req (t.caa p)) ready.quiet,
        nothing,
      )
