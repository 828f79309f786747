-- ===== src/Provider/Dubbo.antt =====
-- on_http_body of src/provider.c: the form fields of an HTTP body become a Dubbo request.
pub mod Fields
pub mod Frame
use dubbo_service_mesh.Base.{
  ℕ, ◌+◌, ◌-◌, ◌*◌, ◌/◌, ◌%◌, ◌^◌, Bool, Option, none, some, List, [], ◌∷◌, ◌++◌, length, drop, leb,
  ltb, ℤ, pos, negsuc, sub_ℕ, if◌then◌else◌, ◌>>=◌,
}
use dubbo_service_mesh.Net.Buffer.{Buf, blit}
use dubbo_service_mesh.Text.{bytes, strchr, bounded_string, strncmp_eq}

-- PROVIDER_HTTP_REQ_BUF_SIZE, PROVIDER_DUBBO_REQ_BUF_SIZE, PROVIDER_DUBBO_RESP_BUF_SIZE
abbrev pub http_buf_size : ℕ
http_buf_size = 2048

abbrev pub req_buf_size : ℕ
req_buf_size = 2048

abbrev pub resp_buf_size : ℕ
resp_buf_size = 256

abbrev pub dubbo_header_len : ℕ
dubbo_header_len = 16

abbrev pub dubbo_data_status_len : ℕ
dubbo_data_status_len = 2

-- A value in the body: the memory from its first byte on, and the length computed for it.
pub record Span : Type 0 where
  pub start : List ℕ
  pub len : ℤ

-- `%.*s`: a negative precision counts as none.
unfoldable pub printed : Span → List ℕ
printed v = elim v.len [
  | pos n ↦ bounded_string n v.start
  | negsuc _ ↦ bounded_string (length v.start) v.start
]

pub record Call : Type 0 where
  pub service : Span
  pub method : Span
  pub type : Span
  pub arg : Span

-- `v = strchr(body, '=') + 1; body = strchr(v, '&')`: the value, and the body from the `&` on.
unfoldable pub next_field : List ℕ → Option (Span × List ℕ)
next_field body = strchr b'=' body >>= λ from. strchr b'&' (drop 1 from) >>= λ rest.
    some (record { start = drop 1 from; len = pos (length (drop 1 from) - length rest) }, rest)

-- The four values, `mem` being the memory from `at` to the end of its array. Nothing if a strchr
-- finds nothing, and so returns NULL, which the source goes on to use.
unfoldable pub parse_body : (mem : List ℕ) → (len : ℕ) → Option Call
unfolding next_field
parse_body mem len = next_field mem >>= λ (service, rest1). next_field rest1 >>= λ (method, rest2).
    next_field rest2 >>= λ (type, rest3). strchr b'=' rest3 >>= λ from.
    let start = drop 1 from in
    some (record {
      service = service;
      method = method;
      type = type;
      arg = record { start = start; len = sub_ℕ len (length mem - length start) };
    })

abbrev pub encoded_string_type : List ℕ
encoded_string_type = bytes "Ljava%2Flang%2FString%3B"

abbrev pub string_type : List ℕ
string_type = bytes "Ljava/lang/String;"

abbrev span_length : ℤ → ℕ
span_length (pos n) = n
span_length (negsuc n) = 2 ^ 64 - n - 1

-- "Look up pre-defined mapping": the one type that is decoded.
unfoldable pub type_name : Span → List ℕ
unfolding printed
type_name v =
    if strncmp_eq (span_length v.len) v.start encoded_string_type then string_type else printed v

-- What sprintf prints behind the header.
unfoldable pub payload : (service method type arg : List ℕ) → List ℕ
payload service method type arg =
    bytes "\"2.0.1\"\n\""
    ++ (service
        ++ (bytes "\"\nnull\n\""
            ++ (method
                ++ (bytes "\"\n\""
                    ++ (type
                        ++ (bytes "\"\n\""
                            ++ (arg
                                ++ (bytes "\"\n{\"path\":\"" ++ (service ++ bytes "\"}\n")))))))))

unfoldable pub call_payload : Call → List ℕ
unfolding payload type_name
call_payload c = payload (printed c.service) (printed c.method) (type_name c.type) (printed c.arg)

-- The bytes of htonl.
unfoldable pub be32 : ℕ → List ℕ
be32 n = (n / 2 ^ 24 % 256) ∷ (n / 2 ^ 16 % 256) ∷ (n / 2 ^ 8 % 256) ∷ (n % 256) ∷ []

-- The request in `buf_req`: magic, flags, request id, the data with sprintf's NUL, its length. Bytes
-- 3 to 7 are left as they are.
unfoldable pub assemble : Buf → (request_id : ℕ) → List ℕ → Buf
unfolding be32
assemble buf request_id text =
    let b1 = blit buf 0 (0xda ∷ 0xbb ∷ 0xc6 ∷ []) in
    let b2 = blit b1 8 (be32 request_id) in
    let b3 = blit b2 dubbo_header_len (text ++ 0 ∷ []) in blit b3 12 (be32 (length text))

-- Whether header, data and NUL fit into `buf_req`.
abbrev pub request_fits : List ℕ → Bool
request_fits text = leb (dubbo_header_len + length text + 1) req_buf_size
