-- ===== src/Provider/Response.antt =====
-- The translation of a response in src/provider.c: the length in its Dubbo header, which
-- read_from_local_provider waits for, and the HTTP response of _write_to_consumer_agent.
pub mod Length
use dubbo_service_mesh.Base.{
  ℕ, ◌+◌, ◌-◌, ◌*◌, ◌%◌, ◌^◌, Bool, false, Option, none, some, List, [], ◌∷◌, ◌++◌, length, ℤ, pos,
  negsuc, leb, ltb, ◌==◌, if◌then◌else◌, ◌>>=◌,
}
use dubbo_service_mesh.Net.Buffer.{Buf, blit, slice, size_sub}
use dubbo_service_mesh.Text.{bytes, c_string, decimal}
use dubbo_service_mesh.Provider.Dubbo.{resp_buf_size, dubbo_header_len, dubbo_data_status_len}

-- `ntohl(*((uint32_t *) &buf_resp[12]))`
unfoldable pub data_length : Buf → ℕ
data_length buf = ((buf 12 * 256 + buf 13) * 256 + buf 14) * 256 + buf 15

-- A header and all the data it announces have been read. The sum is a uint32_t.
unfoldable pub is_complete : Buf → (nread_resp : ℕ) → Bool
unfolding data_length
is_complete buf n =
    if ltb dubbo_header_len n then leb ((dubbo_header_len + data_length buf) % 2 ^ 32) n else false

-- `%ld` of a size_t.
unfoldable pub printed_size : ℕ → List ℕ
unfolding decimal
printed_size n = if ltb n (2 ^ 63) then decimal n else b'-' ∷ decimal (2 ^ 64 - n)

abbrev pub response_prefix : List ℕ
response_prefix = bytes "HTTP/1.1 200 OK\r\nContent-Length:"

-- sizeof(resp_buffer)
abbrev pub http_resp_size : ℕ
http_resp_size = 128

-- buf_resp once its last byte, a newline, is '\0'.
unfoldable pub terminate : Buf → (nread_resp : ℕ) → Buf
terminate buf n = blit buf (n - 1) (0 ∷ [])

-- What sprintf leaves in resp_buffer; nothing if it writes outside resp_buffer or reads outside
-- buf_resp, or if there is no byte to terminate.
unfoldable pub http_response : Buf → (nread_resp : ℕ) → Option (List ℕ)
unfolding terminate printed_size
http_response buf n =
    let start = dubbo_header_len + dubbo_data_status_len in
    c_string (slice (terminate buf n) start (resp_buf_size - start)) >>= λ text.
    let out = response_prefix ++ (printed_size (size_sub n 19) ++ (bytes "\r\n\r\n" ++ text)) in
    if n == 0 then none else if ltb (length out) http_resp_size then some out else none
