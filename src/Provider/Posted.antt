-- ===== src/Provider/Posted.antt =====
-- A posted request in the memory of the provider's agent (on_http_body of src/provider.c).
use mathlib.Core.List.{append_assoc}
use dubbo_service_mesh.Base.{
  ℤ, ℕ, ◌+◌, ◌-◌, ◌^◌, ◌≤◌, ◌<◌, ◌≡◌, ◌≢◌, ap, sym, ◌∙◌, true, false, some, Option, List, [], ◌∷◌,
  ◌++◌, length, length-append, arith,
}
use dubbo_service_mesh.Pool.{Ptr, null}
use dubbo_service_mesh.Net.{Host, Streams}
use dubbo_service_mesh.Net.Buffer.{Buf, blit, slice, slice-blit_rest}
use dubbo_service_mesh.Provider.{ConnectionCaa, Provider, Handler, Parser}
use dubbo_service_mesh.Provider.Dubbo.{
  http_buf_size, encoded_string_type, string_type, payload, request_fits,
}
use dubbo_service_mesh.Provider.Dubbo.Fields.{Field, IsField, IsLast, form, body}
use dubbo_service_mesh.Provider.Dubbo.Frame.{IsCleared}
use dubbo_service_mesh.Provider.Handlers.{on_http_body}
use dubbo_service_mesh.Provider.Bounds.{IsBounded}
use dubbo_service_mesh.Provider.Delivered.{Ready, on_http_body-Ready}
use dubbo_service_mesh.Provider.Translation.{on_http_body_translates}

form-append : (f : Field) (xs ys : List ℕ) → form f (xs ++ ys) ≡ form f xs ++ ys
form-append f xs ys =
    ap (λ l. f.key ++ b'=' ∷ l) (sym (append_assoc f.value xs ys))
    ∙ sym (append_assoc f.key (b'=' ∷ (f.value ++ xs)) ys)

body-tail : (a b c d : Field) (tail : List ℕ) → body a b c d tail ≡ body a b c d [] ++ tail
body-tail a b c d tail =
    let last = form-append d [] tail in
    let third = ap (λ l. form c (b'&' ∷ l)) last ∙ form-append c (b'&' ∷ form d []) tail in
    let second =
      ap (λ l. form b (b'&' ∷ l)) third ∙ form-append b (b'&' ∷ form c (b'&' ∷ form d [])) tail in
    ap (λ l. form a (b'&' ∷ l)) second
    ∙ form-append a (b'&' ∷ form b (b'&' ∷ form c (b'&' ∷ form d []))) tail

-- The four values of a call, as the form's rules want them.
pub record IsCall (a b c d : Field) : Type 0 where
  pub service : IsField a
  pub method : IsField b
  pub type : IsField c
  pub arg : IsLast d
  pub string : c.value ≡ encoded_string_type

-- What the documentation of http_parser says of a whole request `head ++ text` whose body is `text`,
-- given to a parser in state `q`: on_body is called once, with the place of the body, and where it
-- returns 0 all is parsed.
pub record Parses {P S : Type 0} (http : Parser P S) (q : P) (head text : List ℕ) : Type 0 where
  pub after : P
  pub calls :
      (on_body : S → (at len : ℕ) → Option (ℕ × S)) (s s' : S)
      → on_body s (length head) (length text) ≡ some (0, s')
      → http.execute on_body q (head ++ text) s ≡ some (length (head ++ text), (after, s'))

-- A connection that waits for a request.
pub record IsIdle {P : Type 0} (c : ConnectionCaa P) : Type 0 where
  pub inside : IsBounded c
  pub at_start : c.nread_in ≡ 0
  pub fresh : c.nwrite_req ≡ 0
  pub idle : c.processing ≡ false
  pub linked : c.conn_ap ≢ null
  pub cleared : IsCleared c.buf_req

module _ {P E : Type 0} (http : Parser P (Provider P E)) (net : Host Handler E) (tries : ℕ)
    (sent : E → ℤ → List ℕ) (str : Streams net sent) where
  -- on_http_body on the request in memory.
  pub on_http_body-arrived :
      (s : Provider P E) (p : Ptr) (at : ℤ) (buf : Buf) (head : List ℕ) (a b c d : Field)
      → IsIdle (s.caa p)
      → (s.caa p).buf_in ≡ blit buf 0 (head ++ body a b c d [])
      → s.cur_request_id < 2 ^ 32
      → IsCall a b c d
      → length (head ++ body a b c d []) ≤ http_buf_size
      → request_fits (payload a.value b.value string_type d.value) ≡ true
      → (t : Provider P E) × (on_http_body http net tries p s
            (length head)
            (length (body a b c d []))
          ≡ some (0, t))
        × Ready http net tries sent str p at s.cur_request_id
            (payload a.value b.value string_type d.value)
            s
            t
        × ((t.caa p).nread_in ≡ (s.caa p).nread_in)
  on_http_body-arrived s p at buf head a b c d v holds small call room fits =
      let text = body a b c d [] in
      let total = length head + length text in
      let tail = slice (blit buf 0 (head ++ text)) total (http_buf_size - total) in
      let size = length-append head text in
      let memory : slice (s.caa p).buf_in (length head) (http_buf_size - length head)
          ≡ body a b c d tail =
        ap (λ m. slice m (length head) (http_buf_size - length head)) holds
        ∙ slice-blit_rest buf http_buf_size head text (omega arith)
        ∙ sym (body-tail a b c d tail) in
      let long : length text + length tail ≡ length (body a b c d tail) =
        sym (ap (λ l. length l) (body-tail a b c d tail) ∙ length-append text tail) in
      let (t, got, waits) =
        on_http_body_translates http net tries s p (length head) (length text) a b c d tail v.idle
          v.linked v.cleared small call.service call.method call.type call.arg call.string memory
          long fits in
      let (ready, place) =
        on_http_body-Ready http net tries sent str s t p at (length head) (length text) a b c d tail
          v.inside v.idle v.linked v.fresh v.cleared small call.service call.method call.type
          call.arg call.string memory long got in
      (t, got, ready, place)
