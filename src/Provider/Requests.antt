-- ===== src/Provider/Requests.antt =====
-- What on_http_body of src/provider.c leaves in `buf_req` for the local provider.
use dubbo_service_mesh.Base.{
  ℤ, ℕ, ◌+◌, ◌-◌, ◌%◌, ◌^◌, ◌<◌, ◌≡◌, ◌≢◌, refl, subst, ap, ◌∙◌, inl, inr, true, false, Bool, ◌>>=◌,
  Option, some, List, arith, length, ◌==◌, Bool-cases, Option-cases, if◌then◌else◌,
}
use dubbo_service_mesh.Pool.{Ptr, null}
use dubbo_service_mesh.Net.{Host}
use dubbo_service_mesh.Net.Buffer.{slice}
use dubbo_service_mesh.Provider.{ConnectionCaa, Provider, Handler, Parser, put_caa}
use dubbo_service_mesh.Provider.Dubbo.{
  http_buf_size, dubbo_header_len, Call, parse_body, call_payload, assemble, request_fits,
}
use dubbo_service_mesh.Provider.Dubbo.Frame.{
  IsCleared, read_frame, read_frame-assemble, assemble-IsCleared,
}
use dubbo_service_mesh.Provider.Handlers.{send_request, on_http_body, watch_local}
use dubbo_service_mesh.Provider.Frame.{Refds, watch-On}

-- A connection that waits for its provider, with the request `text` under `id` in `buf_req`.
pub record Sends {P : Type 0} (id : ℕ) (text : List ℕ) (c : ConnectionCaa P) : Type 0 where
  pub frame : read_frame (slice c.buf_req 0 c.len_req) ≡ some (record { id = id; text = text })
  pub cleared : IsCleared c.buf_req
  pub busy : c.processing ≡ true

-- The same of connection `p`, `n` being the id of the next request.
abbrev pub Waits : {P : Type 0} → Ptr → ℕ → List ℕ → (Ptr → ConnectionCaa P) → ℕ → Type 0
Waits p id text f n = Sends id text (f p) × (n ≡ (id + 1) % 2 ^ 32)

refd-Sends :
    {P : Type 0} (id : ℕ) (text : List ℕ) (c : ConnectionCaa P) (fd : ℤ)
    → Sends id text c
    → Sends id text (record c { fd = fd })
refd-Sends id text c fd v = record { frame = v.frame; cleared = v.cleared; busy = v.busy }

Waits-Refds : {P : Type 0} (p : Ptr) (id : ℕ) (text : List ℕ) → Refds {P = P} (Waits p id text)
Waits-Refds p id text f n q fd v = elim (Bool-cases (p == q)) [
  | inl here ↦
      let same : p ≡ q = ground arith in
      (rw here (refd-Sends id text (f q) fd (subst (λ k. Sends id text (f k)) same v.0)), v.1)
  | inr there ↦ (rw there v.0, v.1)
]

pub guarded :
    {A C : Type 0} (b : Bool) (x : A) (o : Option C) (k : C → Option A) (c : C)
    → b ≡ false
    → o ≡ some c
    → (if b then some x else (o >>= k)) ≡ k c
guarded b x o k c free found = rw (free, found) refl

module _ {P E : Type 0} (http : Parser P (Provider P E)) (net : Host Handler E) (tries : ℕ) where
  send_request-Waits :
      (s t : Provider P E) (p : Ptr) (text : List ℕ) (r : ℕ)
      → send_request http net tries s p text ≡ some (r, t)
      → IsCleared (s.caa p).buf_req
      → s.cur_request_id < 2 ^ 32
      → (r ≡ 0) × Waits p s.cur_request_id text t.caa t.cur_request_id
  unfolding send_request
  send_request-Waits s t p text r got clear small =
      let c = s.caa p in
      let id = s.cur_request_id in
      let c' = record c {
        processing = true;
        buf_req = assemble c.buf_req id text;
        len_req = length text + dubbo_header_len;
      } in
      let s2 = record (put_caa s p c') { cur_request_id = (id + 1) % 2 ^ 32 } in
      elim (Bool-cases (request_fits text)) [
        | inr long ↦ absurd (ground arith)
        | inl fits ↦ elim (Bool-cases (c.conn_ap == null)) [
          | inl absent ↦ absurd (ground arith)
          | inr present ↦
              let size : length text + dubbo_header_len ≡ dubbo_header_len + length text =
                omega arith in
              let self : (p == p) ≡ true = ground arith in
              let sends : Sends id text c' = record {
                frame = rw size (read_frame-assemble c.buf_req id text clear small (ground arith));
                cleared = assemble-IsCleared c.buf_req id text clear;
                busy = refl;
              } in
              let w =
                watch-On http net tries (Waits p id text) (Waits-Refds p id text) s2 p c.conn_ap
                  (rw self sends, refl) in
              let same : watch_local http net tries s2 p c.conn_ap ≡ t = ground arith in
              (ground arith, subst (λ x. Waits p id text x.caa x.cur_request_id) same w)
        ]
      ]

  send_request_returns :
      (s : Provider P E) (p : Ptr) (text : List ℕ)
      → request_fits text ≡ true
      → (s.caa p).conn_ap ≢ null
      → IsCleared (s.caa p).buf_req
      → s.cur_request_id < 2 ^ 32
      → (t : Provider P E) × (send_request http net tries s p text ≡ some (0, t))
        × Waits p s.cur_request_id text t.caa t.cur_request_id
  unfolding send_request
  send_request_returns s p text fits real clear small =
      elim (Option-cases (send_request http net tries s p text)) [
        | inl e ↦ absurd (ground arith)
        | inr (a, e) ↦
            let w = send_request-Waits s a.1 p text a.0 e clear small in
            (a.1, e ∙ ap (λ r. some (r, a.1)) w.0, w.1)
      ]

  -- For a connection that is not processing and has a connection to the provider and a `buf_req`
  -- cleared in bytes 3 to 7: if the body in `buf_in` can be taken apart into a call and the call fits
  -- into `buf_req`, on_http_body returns 0 and leaves in `buf_req` one Dubbo request frame with that
  -- call under the current request id, whatever becomes of the events; the connection is processing,
  -- and the next request has the next id, modulo 2 ^ 32.
  pub on_http_body-Waits :
      (s : Provider P E) (p : Ptr) (at len : ℕ) (call : Call)
      → (s.caa p).processing ≡ false
      → (s.caa p).conn_ap ≢ null
      → IsCleared (s.caa p).buf_req
      → s.cur_request_id < 2 ^ 32
      → parse_body (slice (s.caa p).buf_in at (http_buf_size - at)) len ≡ some call
      → request_fits (call_payload call) ≡ true
      → (t : Provider P E) × (on_http_body http net tries p s at len ≡ some (0, t))
        × Waits p s.cur_request_id (call_payload call) t.caa t.cur_request_id
  unfolding on_http_body
  on_http_body-Waits s p at len call idle real clear small parsed fits =
      let c = s.caa p in
      let (t, sent, waits) = send_request_returns s p (call_payload call) fits real clear small in
      (
        t,
        guarded c.processing (1, s) (parse_body (slice c.buf_in at (http_buf_size - at)) len)
              (λ k. send_request http net tries s p (call_payload k)) call idle parsed
            ∙ sent,
        waits,
      )
