-- ===== src/Provider/Written.antt =====
-- The response goes to the consumer's agent: _write_to_consumer_agent of src/provider.c.
use dubbo_service_mesh.Base.{
  take-length, ◌<◌, ℤ, ℕ, ◌+◌, ◌-◌, ◌≤◌, ◌≡◌, refl, ap, sym, ◌∙◌, subst, true, false, some, List,
  [], ◌∷◌, ◌++◌, length, take, length-append, arith, is_neg, ◌==◌,
}
use dubbo_service_mesh.Pool.{Ptr}
use dubbo_service_mesh.Text.{bytes, decimal}
use dubbo_service_mesh.Text.Search.{Lacks}
use dubbo_service_mesh.Net.{Host, Streams, wrote, writable}
use dubbo_service_mesh.Net.Buffer.{blit, slice-blit_before, Buf, slice, slice_parts, length-slice}
use dubbo_service_mesh.Provider.{Provider, Handler, Parser, put_caa}
use dubbo_service_mesh.Provider.Local.{wrote_to_agent, on_write_to_consumer_agent}
use dubbo_service_mesh.Provider.Response.{terminate, http_response, response_prefix}
use dubbo_service_mesh.Provider.Response.Length.{http_response_lem}
use dubbo_service_mesh.Provider.Answered.{answer_of}
use dubbo_service_mesh.Provider.NextRequest.{
  TakesNext, TakesNext-terminated, wrote_to_agent-TakesNext,
}

-- An HTTP response with the body `text`.
abbrev pub http_text : List ℕ → List ℕ
http_text text = response_prefix ++ (decimal (length text) ++ (bytes "\r\n\r\n" ++ text))

-- The text in a Dubbo response: behind 16 bytes of header and two of status, before a newline.
response_text :
    (buf : Buf) (n : ℕ) (front text : List ℕ)
    → length front ≡ 18
    → slice buf 0 n ≡ front ++ (text ++ 10 ∷ [])
    → (n ≡ 19 + length text) × (slice buf 18 (length text) ≡ text)
response_text buf n front text size e =
    let whole = length-append front (text ++ 10 ∷ []) in
    let tail = length-append text (10 ∷ []) in
    let all : n ≡ length front + (length text + 1) =
      sym (length-slice buf 0 n) ∙ ap (λ l. length l) e ∙ omega arith in
    let (first, second) =
      slice_parts buf 0 (length text + 1) front (text ++ 10 ∷ [])
        (subst (λ k. slice buf 0 k ≡ front ++ (text ++ 10 ∷ [])) all e) in
    let at : 0 + length front ≡ 18 = omega arith in
    let (here, last) =
      slice_parts buf 18 1 text (10 ∷ [])
        (subst (λ k. slice buf k (length text + 1) ≡ text ++ 10 ∷ []) at second) in
    (omega arith, here)

response_made :
    (buf : Buf) (text : List ℕ)
    → slice buf 18 (length text) ≡ text
    → length text ≤ 89
    → Lacks 0 text
    → http_response buf (19 + length text) ≡ some (http_text text)
response_made buf text here short nul =
    http_response_lem buf (length text) short (subst (Lacks 0) (sym here) nul)
    ∙ ap (λ l. some (response_prefix ++ (decimal (length text) ++ (bytes "\r\n\r\n" ++ l)))) here

module _ {P E : Type 0} (http : Parser P (Provider P E)) (net : Host Handler E) (tries : ℕ)
    (sent : E → ℤ → List ℕ) (str : Streams net sent) where
  -- The handler, for a response whose text is `out`.
  wrote_out :
      (s : Provider P E) (p : Ptr) (at : ℤ) (out : List ℕ)
      → is_neg (s.caa p).fd ≡ false
      → http_response (s.caa p).buf_resp (s.caa p).nread_resp ≡ some out
      → (net.write s.host at out).0 ≡ wrote (length out)
      → (t : Provider P E) × (on_write_to_consumer_agent http net tries s at p ≡ some t)
        × (sent t.host at ≡ sent s.host at ++ out)
        × TakesNext http net s p at (net.write s.host at out).1 t
  unfolding on_write_to_consumer_agent
  wrote_out s p at out live made takes =
      let c = s.caa p in
      let s0 = put_caa s p (record c { buf_resp = terminate c.buf_resp c.nread_resp }) in
      let s1 = record s0 { host = (net.write s.host at out).1 } in
      let next = wrote_to_agent-TakesNext http net tries s1 p at (length out) in
      (
        wrote_to_agent http net tries s1 p at (length out) (length out),
        rw (live, made, takes) refl,
        ap (λ e. sent e at) next.events
            ∙ str.delete_keeps s1.host at at writable
            ∙ str.wrote_more s.host at out (length out) takes
            ∙ ap (λ l. sent s.host at ++ l) (take-length out),
        TakesNext-terminated http net s p at (net.write s.host at out).1 _ next,
      )

  -- On an open connection with a whole Dubbo response, 18 bytes, at most 89 bytes of text with no NUL
  -- and a newline: where the socket takes the whole HTTP response at once, the handler returns, the
  -- socket has accepted exactly the HTTP response with the text as its body, and the connection takes
  -- the next request.
  pub on_write_to_consumer_agent-TakesNext :
      (s : Provider P E) (p : Ptr) (at : ℤ) (front text : List ℕ)
      → is_neg (s.caa p).fd ≡ false
      → answer_of (s.caa p) ≡ front ++ (text ++ 10 ∷ [])
      → length front ≡ 18
      → length text ≤ 89
      → Lacks 0 text
      → (net.write s.host at (http_text text)).0 ≡ wrote (length (http_text text))
      → (t : Provider P E) × (on_write_to_consumer_agent http net tries s at p ≡ some t)
        × (sent t.host at ≡ sent s.host at ++ http_text text)
        × TakesNext http net s p at (net.write s.host at (http_text text)).1 t
  on_write_to_consumer_agent-TakesNext s p at front text live answer size short nul takes =
      let c = s.caa p in
      let n : c.nread_resp - 0 ≡ c.nread_resp = omega arith in
      let (count, here) = response_text c.buf_resp c.nread_resp front text size (rw n at answer) in
      let out : http_response c.buf_resp c.nread_resp ≡ some (http_text text) =
        rw count (response_made c.buf_resp text here short nul) in
      wrote_out s p at (http_text text) live out takes

  -- What a write of only some of the response leaves.
  abbrev terminated : Provider P E → Ptr → E → Provider P E
  terminated s p e =
      record (put_caa s p
        (record (s.caa p) { buf_resp = terminate (s.caa p).buf_resp (s.caa p).nread_resp })) {
          host = e;
        }

  wrote_some :
      (s : Provider P E) (p : Ptr) (at : ℤ) (out : List ℕ) (n : ℕ)
      → is_neg (s.caa p).fd ≡ false
      → http_response (s.caa p).buf_resp (s.caa p).nread_resp ≡ some out
      → (net.write s.host at out).0 ≡ wrote n
      → n < length out
      → on_write_to_consumer_agent http net tries s at p
        ≡ some (terminated s p (net.write s.host at out).1)
  unfolding on_write_to_consumer_agent wrote_to_agent
  wrote_some s p at out n live made takes less =
      let part : (n == length out) ≡ false = ground arith in rw (live, made, takes, part) refl

  terminated-http_response :
      (s : Provider P E) (p : Ptr) (e : E) (text : List ℕ)
      → (s.caa p).nread_resp ≡ 19 + length text
      → slice (s.caa p).buf_resp 18 (length text) ≡ text
      → length text ≤ 89
      → Lacks 0 text
      → http_response ((terminated s p e).caa p).buf_resp ((terminated s p e).caa p).nread_resp
        ≡ some (http_text text)
  unfolding terminate
  terminated-http_response s p e text count here short nul =
      let self : (p == p) ≡ true = ground arith in
      let m = length text in
      let last : 19 + m - 1 ≡ 18 + m = omega arith in
      let same : slice (blit (s.caa p).buf_resp (18 + m) (0 ∷ [])) 18 m ≡ text =
        slice-blit_before (s.caa p).buf_resp (18 + m) 18 m (0 ∷ []) (omega arith) ∙ here in
      rw (self, count, last)
        (response_made (blit (s.caa p).buf_resp (18 + m) (0 ∷ [])) text same short nul)

  -- On an open connection with a whole Dubbo response, 18 bytes, at most 89 bytes of text with no NUL
  -- and a newline: where the socket takes only the first `n` bytes of the HTTP response, and at the
  -- next write event, before which nothing else goes out to it, all that it is given, the handler
  -- returns both times, and the socket has accepted these `n` bytes and then the whole response.
  pub on_write_to_consumer_agent_resent :
      (s : Provider P E) (p : Ptr) (at : ℤ) (front text : List ℕ) (n : ℕ) (e : E)
      → is_neg (s.caa p).fd ≡ false
      → answer_of (s.caa p) ≡ front ++ (text ++ 10 ∷ [])
      → length front ≡ 18
      → length text ≤ 89
      → Lacks 0 text
      → (net.write s.host at (http_text text)).0 ≡ wrote n
      → n < length (http_text text)
      → sent e at ≡ sent (net.write s.host at (http_text text)).1 at
      → (net.write e at (http_text text)).0 ≡ wrote (length (http_text text))
      → (t : Provider P E) × (u : Provider P E) × (on_write_to_consumer_agent http net tries s at p
          ≡ some t)
        × (on_write_to_consumer_agent http net tries (record t { host = e }) at p ≡ some u)
        × (sent u.host at ≡ (sent s.host at ++ take n (http_text text)) ++ http_text text)
  on_write_to_consumer_agent_resent s p at front text n e live answer size short nul some_bytes less
        between takes =
      let c = s.caa p in
      let from : c.nread_resp - 0 ≡ c.nread_resp = omega arith in
      let (count, here) =
        response_text c.buf_resp c.nread_resp front text size (rw from at answer) in
      let made : http_response c.buf_resp c.nread_resp ≡ some (http_text text) =
        rw count (response_made c.buf_resp text here short nul) in
      let self : (p == p) ≡ true = ground arith in
      let still : is_neg ((terminated s p e).caa p).fd ≡ false = rw self live in
      let (u, got, out, reset) =
        wrote_out (terminated s p e) p at (http_text text) still
          (terminated-http_response s p e text count here short nul) takes in
      (
        terminated s p (net.write s.host at (http_text text)).1,
        u,
        wrote_some s p at (http_text text) n live made some_bytes less,
        got,
        out
            ∙ ap (λ l. l ++ http_text text)
                (between ∙ str.wrote_more s.host at (http_text text) n some_bytes),
      )
