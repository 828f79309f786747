-- ===== src/Provider/Arrived.antt =====
-- A posted request arrives at the provider's agent: read_from_consumer_agent of src/provider.c, with
-- an http_parser that finds the form in it.
use dubbo_service_mesh.Base.{
  ℤ, ℕ, ◌+◌, ◌^◌, ◌≤◌, ◌<◌, ◌≡◌, refl, ap, sym, ◌∙◌, subst, true, false, some, List, [], ◌∷◌, ◌++◌,
  length, arith, is_neg, ◌==◌,
}
use dubbo_service_mesh.Pool.{Ptr}
use dubbo_service_mesh.Net.{Host, HostLaws, Streams, Reads, received}
use dubbo_service_mesh.Net.Buffer.{blit, size_sub}
use dubbo_service_mesh.Provider.{Provider, Handler, Parser, put_caa}
use dubbo_service_mesh.Provider.Dubbo.{
  http_buf_size, dubbo_header_len, string_type, payload, request_fits,
}
use dubbo_service_mesh.Provider.Dubbo.Fields.{Field, body}
use dubbo_service_mesh.Provider.Dubbo.Frame.{read_frame}
use dubbo_service_mesh.Provider.Handlers.{
  on_http_body, execute, parse_request, on_read_from_consumer_agent,
}
use dubbo_service_mesh.Provider.Bounds.{IsBounded}
use dubbo_service_mesh.Provider.Sendings.{pending_req}
use dubbo_service_mesh.Provider.Delivered.{Ready}
use dubbo_service_mesh.Provider.Posted.{IsCall, Parses, IsIdle, on_http_body-arrived}

module _ {P E : Type 0} (http : Parser P (Provider P E)) (net : Host Handler E) (tries : ℕ)
    (sent : E → ℤ → List ℕ) (str : Streams net sent) where
  -- The state after the parser's answer.
  abbrev finished : Provider P E → Ptr → P → ℕ → Provider P E
  finished t p q n =
      let t1 = put_caa t p (record (t.caa p) { parser = q }) in
      put_caa t1 p (record (t1.caa p) { nread_in = (t1.caa p).nread_in + n })

  finished-caa :
      (t : Provider P E) (p : Ptr) (q : P) (n : ℕ)
      → (finished t p q n).caa p
        ≡ record (t.caa p) { parser = q; nread_in = (t.caa p).nread_in + n }
  finished-caa t p q n = let self : (p == p) ≡ true = ground arith in rw self refl

  finished-Ready :
      (s t : Provider P E) (p : Ptr) (at : ℤ) (id : ℕ) (text : List ℕ) (q : P) (n : ℕ)
      → (t.caa p).nread_in + n ≤ http_buf_size
      → Ready http net tries sent str p at id text s t
      → Ready http net tries sent str p at id text s (finished t p q n)
  finished-Ready s t p at id text q n room v =
      let same = finished-caa t p q n in
      let waiting : pending_req ((finished t p q n).caa p) ≡ pending_req (t.caa p) =
        ap pending_req same in
      let old = v.bounded in
      let now : IsBounded (record (t.caa p) { parser = q; nread_in = (t.caa p).nread_in + n }) =
        record {
          room_in = room;
          sent_req = old.sent_req;
          room_req = old.room_req;
          room_resp = old.room_resp;
          idle = old.idle;
        } in
      record {
        frame = ap read_frame waiting ∙ v.frame;
        quiet = v.quiet;
        bounded = subst IsBounded (sym same) now;
        size = subst (λ l. length l ≤ dubbo_header_len + length text) (sym waiting) v.size;
      }

  -- The bytes in the buffer.
  abbrev stored : Provider P E → Ptr → List ℕ → Provider P E
  stored s p bs =
      put_caa s p (record (s.caa p) { buf_in = blit (s.caa p).buf_in (s.caa p).nread_in bs })

  stored-caa :
      (s : Provider P E) (p : Ptr) (bs : List ℕ)
      → (stored s p bs).caa p
        ≡ record (s.caa p) { buf_in = blit (s.caa p).buf_in (s.caa p).nread_in bs }
  stored-caa s p bs = let self : (p == p) ≡ true = ground arith in rw self refl

  stored-IsIdle :
      (s : Provider P E) (p : Ptr) (bs : List ℕ) → IsIdle (s.caa p) → IsIdle ((stored s p bs).caa p)
  stored-IsIdle s p bs v =
      let b = v.inside in
      let now : IsIdle (record (s.caa p) { buf_in = blit (s.caa p).buf_in (s.caa p).nread_in bs }) =
        record {
          inside = record {
            room_in = b.room_in;
            sent_req = b.sent_req;
            room_req = b.room_req;
            room_resp = b.room_resp;
            idle = b.idle;
          };
          at_start = v.at_start;
          fresh = v.fresh;
          idle = v.idle;
          linked = v.linked;
          cleared = v.cleared;
        } in
      subst IsIdle (sym (stored-caa s p bs)) now

  parse_request-finished :
      (s t : Provider P E) (p : Ptr) (bs : List ℕ) (q : P)
      → http.execute
          (λ s' at len.
            on_http_body http net tries p s' (((stored s p bs).caa p).nread_in + at) len)
          ((stored s p bs).caa p).parser
          bs
          (stored s p bs)
        ≡ some (length bs, (q, t))
      → parse_request http net tries s p bs ≡ some (finished t p q (length bs))
  unfolding parse_request execute
  parse_request-finished s t p bs q e =
      let all : (length bs == length bs) ≡ true = ground arith in rw (e, all) refl

  parse_request-Ready :
      (s : Provider P E) (p : Ptr) (at : ℤ) (head : List ℕ) (a b c d : Field)
      → IsIdle (s.caa p)
      → s.cur_request_id < 2 ^ 32
      → IsCall a b c d
      → Parses http (s.caa p).parser head (body a b c d [])
      → length (head ++ body a b c d []) ≤ http_buf_size
      → request_fits (payload a.value b.value string_type d.value) ≡ true
      → (u : Provider P E) × (parse_request http net tries s p (head ++ body a b c d []) ≡ some u)
        × Ready http net tries sent str p at s.cur_request_id
            (payload a.value b.value string_type d.value)
            s
            u
  parse_request-Ready s p at head a b c d v small call parses room fits =
      let text = body a b c d [] in
      let bs = head ++ text in
      let same = stored-caa s p bs in
      let start : ((stored s p bs).caa p).nread_in ≡ 0 = ap (λ c. c.nread_in) same ∙ v.at_start in
      let there : length head ≡ ((stored s p bs).caa p).nread_in + length head = omega arith in
      let holds : ((stored s p bs).caa p).buf_in ≡ blit (s.caa p).buf_in 0 bs =
        ap (λ c. c.buf_in) same ∙ ap (λ k. blit (s.caa p).buf_in k bs) v.at_start in
      let (t, got, ready, place) =
        on_http_body-arrived http net tries sent str (stored s p bs) p at (s.caa p).buf_in head a b
          c d (stored-IsIdle s p bs v) holds small call room fits in
      let body_at = λ (s' : Provider P E) (at' len : ℕ).
        on_http_body http net tries p s' (((stored s p bs).caa p).nread_in + at') len in
      let called = parses.calls body_at (stored s p bs) t (
        subst (λ k. on_http_body http net tries p (stored s p bs) k (length text) ≡ some (0, t))
          there got) in
      let q = ap (λ c. c.parser) same in
      (
        finished t p parses.after (length bs),
        parse_request-finished s t p bs parses.after (
            subst
              (λ k. http.execute body_at k bs (stored s p bs) ≡ some (length bs, (parses.after, t)))
              (sym q) called),
        finished-Ready s t p at s.cur_request_id (payload a.value b.value string_type d.value)
            parses.after (length bs) (omega arith)
            (record {
              frame = ready.frame;
              quiet = ready.quiet;
              bounded = ready.bounded;
              size = ready.size;
            }),
      )

  -- read_from_consumer_agent, where read answers with the whole request at once.
  pub on_read_from_consumer_agent-Ready :
      (s : Provider P E) (p : Ptr) (fd at : ℤ) (first : ℕ) (rest head : List ℕ) (a b c d : Field)
      → HostLaws net
      → IsIdle (s.caa p)
      → is_neg (s.caa p).fd ≡ false
      → s.cur_request_id < 2 ^ 32
      → IsCall a b c d
      → Parses http (s.caa p).parser head (body a b c d [])
      → request_fits (payload a.value b.value string_type d.value) ≡ true
      → (net.read s.host fd http_buf_size).0 ≡ received first rest
      → first ∷ rest ≡ head ++ body a b c d []
      → (u : Provider P E) × (on_read_from_consumer_agent http net tries s fd p ≡ some u)
        × Ready http net tries sent str p at s.cur_request_id
            (payload a.value b.value string_type d.value)
            s
            u
  unfolding on_read_from_consumer_agent
  on_read_from_consumer_agent-Ready s p fd at first rest head a b c d laws v live small call parses
        fits answer same =
      let n = size_sub http_buf_size (s.caa p).nread_in in
      let count : n ≡ http_buf_size = omega (arith, v.at_start) in
      let answer_n : (net.read s.host fd n).0 ≡ received first rest =
        subst (λ k. (net.read s.host fd k).0 ≡ received first rest) (sym count) answer in
      let s1 = record s { host = (net.read s.host fd n).1 } in
      let short : length (first ∷ rest) ≤ n = subst (Reads n) answer_n (laws.reads s.host fd n) in
      let room : length (head ++ body a b c d []) ≤ http_buf_size =
        subst (λ l. length l ≤ http_buf_size) same (omega arith) in
      let (u, got, ready) =
        parse_request-Ready s1 p at head a b c d v small call parses room fits in
      (
        u,
        rw (live, answer_n)
            (subst (λ l. parse_request http net tries s1 p l ≡ some u) (sym same) got),
        record {
          frame = ready.frame;
          quiet = ready.quiet ∙ str.read_keeps s.host fd at n;
          bounded = ready.bounded;
          size = ready.size;
        },
      )
