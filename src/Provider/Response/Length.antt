-- ===== src/Provider/Response/Length.antt =====
-- The HTTP response that _write_to_consumer_agent of src/provider.c makes of a Dubbo response.
use dubbo_service_mesh.Base.{
  ℕ, zero, suc, ◌+◌, ◌-◌, ◌^◌, ◌≤◌, ◌<◌, ◌≡◌, refl, ap, ◌∙◌, some, List, [], ◌∷◌, ◌++◌, arith,
  length, ltb, ◌==◌, length-append, true, false,
}
use dubbo_service_mesh.Net.Buffer.{
  Buf, slice, size_sub, blit, slice-append, slice-blit_before, length-slice,
}
use dubbo_service_mesh.Text.{bytes, decimal, decimal_from}
use dubbo_service_mesh.Text.Search.{Lacks, c_string-append}
use dubbo_service_mesh.Provider.Response.{
  response_prefix, terminate, http_response, printed_size, http_resp_size,
}

length-decimal : (m : ℕ) → m < 100 → length (decimal m) ≤ 2
unfolding decimal decimal_from
length-decimal zero h = omega arith
length-decimal (suc m) h = ground arith

slice_last : (b : Buf) (at k : ℕ) → b at ≡ 0 → slice b at (suc k) ≡ 0 ∷ slice b (at + 1) k
unfolding slice
slice_last b at k e = ap (λ x. x ∷ slice b (at + 1) k) e

-- The memory from the body on, once its last newline has become a NUL.
terminated_body :
    (buf : Buf) (m k : ℕ)
    → slice (terminate buf (19 + m)) 18 (m + suc k)
      ≡ slice buf 18 m ++ 0 ∷ slice (terminate buf (19 + m)) (19 + m) k
unfolding terminate blit
terminated_body buf m k =
    let at : 19 + m - 1 ≡ 18 + m = omega arith in
    let tail : 18 + m + 1 ≡ 19 + m = omega arith in
    let b = blit buf (18 + m) (0 ∷ []) in
    rw (at, slice-append b 18 m (suc k), slice-blit_before buf (18 + m) 18 m (0 ∷ []) (omega arith))
      (ap (λ l. slice buf 18 m ++ l)
        (slice_last b (18 + m) k (ground arith) ∙ ap (λ i. 0 ∷ slice b i k) tail))

-- The room in resp_buffer.
response_fits :
    (m : ℕ) (body : List ℕ)
    → length body ≡ m
    → m ≤ 89
    → ltb (length (response_prefix ++ (decimal m ++ (bytes "\r\n\r\n" ++ body)))) http_resp_size
      ≡ true
response_fits m body e h =
    let digits = length-decimal m (omega arith) in
    let whole = length-append (decimal m) (bytes "\r\n\r\n" ++ body) in ground arith

-- A Dubbo response of `19 + m` bytes in buf_resp, `m` at most 89, with no NUL in its `m` bytes from
-- the 18th on, becomes the HTTP response with the Content-Length `m` and these bytes as its body.
pub http_response_lem :
    (buf : Buf) (m : ℕ)
    → m ≤ 89
    → Lacks 0 (slice buf 18 m)
    → http_response buf (19 + m)
      ≡ some (response_prefix ++ (decimal m ++ (bytes "\r\n\r\n" ++ slice buf 18 m)))
unfolding http_response printed_size
http_response_lem buf m h a =
    let room : 256 - 18 ≡ m + suc (237 - m) = omega arith in
    let size : size_sub (19 + m) 19 ≡ m = omega arith in
    let small : ltb m (2 ^ 63) ≡ true = ground arith in
    let some_byte : (19 + m == 0) ≡ false = ground arith in
    let fits = response_fits m (slice buf 18 m) (length-slice buf 18 m) h in
    rw
      (
        room,
        terminated_body buf m (237 - m),
        c_string-append (slice buf 18 m) (slice (terminate buf (19 + m)) (19 + m) (237 - m)) a,
        size,
        small,
        fits,
        some_byte,
      )
      refl
