-- ===== src/Provider/Translation.antt =====
-- From the form that a consumer posts to the Dubbo request for its provider: on_http_body of
-- src/provider.c.
use dubbo_service_mesh.Base.{
  ℕ, ◌+◌, ◌-◌, ◌^◌, ◌<◌, ◌≡◌, ◌≢◌, refl, subst, true, false, some, List, ◌∷◌, length,
}
use dubbo_service_mesh.Pool.{Ptr, null}
use dubbo_service_mesh.Net.{Host}
use dubbo_service_mesh.Net.Buffer.{slice}
use dubbo_service_mesh.Text.{strncmp_eq}
use dubbo_service_mesh.Text.Search.{Lacks}
use dubbo_service_mesh.Provider.{Provider, Handler, Parser}
use dubbo_service_mesh.Provider.Dubbo.{
  http_buf_size, encoded_string_type, string_type, type_name, payload, call_payload, request_fits,
}
use dubbo_service_mesh.Provider.Dubbo.Fields.{
  Field, IsField, IsLast, form, span, body, call_of, parse_body_call, printed-span,
}
use dubbo_service_mesh.Provider.Dubbo.Frame.{IsCleared}
use dubbo_service_mesh.Provider.Handlers.{on_http_body}
use dubbo_service_mesh.Provider.Requests.{Waits, on_http_body-Waits}

-- The encoded name of the String type, at the start of any memory, is decoded.
type_name-string : (after : List ℕ) → type_name (span encoded_string_type after) ≡ string_type
unfolding type_name strncmp_eq
type_name-string after = refl

pub call_payload-call_of :
    (a b c d : Field) (tail : List ℕ)
    → IsField a
    → IsField b
    → c.value ≡ encoded_string_type
    → Lacks 0 d.value
    → call_payload (call_of a b c d tail) ≡ payload a.value b.value string_type d.value
unfolding call_payload
call_payload-call_of a b c d tail va vb string nul =
    rw
      (
        printed-span a.value (b'&' ∷ form b (b'&' ∷ form c (b'&' ∷ form d tail))) va.value_nul,
        printed-span b.value (b'&' ∷ form c (b'&' ∷ form d tail)) vb.value_nul,
        printed-span d.value tail nul,
        string,
        type_name-string (b'&' ∷ form d tail),
      )
      refl

module _ {P E : Type 0} (http : Parser P (Provider P E)) (net : Host Handler E) (tries : ℕ) where
  -- For a connection that is not processing and has a connection to the provider and a `buf_req`
  -- cleared in bytes 3 to 7: if `buf_in` holds a body of four fields, whose keys hold no `=`, whose
  -- first three values hold no `&`, with no NUL and with the encoded String type as the third value,
  -- and the call fits into `buf_req`, on_http_body returns 0 and leaves in `buf_req` one Dubbo request
  -- frame under the current request id, for the service, the method, java.lang.String and the argument
  -- of the form; the connection is processing, and the next request has the next id, modulo 2 ^ 32.
  pub on_http_body_translates :
      (s : Provider P E) (p : Ptr) (at len : ℕ) (a b c d : Field) (tail : List ℕ)
      → (s.caa p).processing ≡ false
      → (s.caa p).conn_ap ≢ null
      → IsCleared (s.caa p).buf_req
      → s.cur_request_id < 2 ^ 32
      → IsField a
      → IsField b
      → IsField c
      → IsLast d
      → c.value ≡ encoded_string_type
      → slice (s.caa p).buf_in at (http_buf_size - at) ≡ body a b c d tail
      → len + length tail ≡ length (body a b c d tail)
      → request_fits (payload a.value b.value string_type d.value) ≡ true
      → (t : Provider P E) × (on_http_body http net tries p s at len ≡ some (0, t))
        × Waits p s.cur_request_id
            (payload a.value b.value string_type d.value)
            t.caa
            t.cur_request_id
  on_http_body_translates s p at len a b c d tail idle real clear small va vb vc vd string memory
        size fits =
      let call = call_of a b c d tail in
      let same = call_payload-call_of a b c d tail va vb string vd.value_nul in
      let (t, done, waits) =
        on_http_body-Waits http net tries s p at len call idle real clear small
          (rw memory (parse_body_call a b c d tail len va vb vc vd.key_eq vd.key_nul size))
          (rw same fits) in
      (t, done, subst (λ x. Waits p s.cur_request_id x t.caa t.cur_request_id) same waits)
