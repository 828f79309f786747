-- ===== src/Provider/Answered.antt =====
-- The way of a response through src/provider.c: reads from the local provider, in any pieces, and the
-- write to the consumer's agent.
use mathlib.Core.List.{append_assoc, append-nil}
use dubbo_service_mesh.Base.{
  ℤ, ℕ, ◌+◌, ◌≡◌, refl, ap, sym, ◌∙◌, subst, inl, inr, true, List, [], ◌∷◌, ◌++◌, length, arith,
  is_neg, ◌==◌, ==_iff, if◌then◌else◌, Bool-cases,
}
use dubbo_service_mesh.Pool.{Ptr}
use dubbo_service_mesh.Net.{Host, Streams, ReadResult-cases, bytes_of, both_ways, writable}
use dubbo_service_mesh.Net.Buffer.{blit, pending, pending-blit, size_sub}
use dubbo_service_mesh.Provider.{
  ConnectionCaa, Provider, Handler, Parser, put_caa, write_to_consumer_agent,
}
use dubbo_service_mesh.Provider.Dubbo.{resp_buf_size}
use dubbo_service_mesh.Provider.Frame.{Refds, abort-On, create-On}
use dubbo_service_mesh.Provider.Handlers.{abort_connection_caa}
use dubbo_service_mesh.Provider.Local.{collect_response, on_read_from_local_provider}
use dubbo_service_mesh.Provider.Response.{is_complete}
use dubbo_service_mesh.Provider.Sent.{Sent, abort-Sent, create-Sent}

-- The bytes of the response that a connection has so far.
abbrev pub answer_of : {P : Type 0} → ConnectionCaa P → List ℕ
answer_of c = pending c.buf_resp 0 c.nread_resp

abbrev AnswerIs : {P : Type 0} → Ptr → List ℕ → (Ptr → ConnectionCaa P) → ℕ → Type 0
AnswerIs p bs f n = answer_of (f p) ≡ bs

AnswerIs-Refds : {P : Type 0} (p : Ptr) (bs : List ℕ) → Refds {P = P} (AnswerIs p bs)
AnswerIs-Refds p bs f n q fd v = elim (Bool-cases (p == q)) [
  | inl here ↦ rw here (subst (λ r. answer_of (f r) ≡ bs) ((==_iff p q).0 here) v)
  | inr there ↦ rw there v
]

module _ {P E : Type 0} (http : Parser P (Provider P E)) (net : Host Handler E) (tries : ℕ)
    (sent : E → ℤ → List ℕ) (str : Streams net sent) where
  -- Socket `at` has accepted `xs`, and the response of connection `p` is `ys` so far.
  abbrev Has : ℤ → Ptr → List ℕ → List ℕ → Provider P E → Type 0
  Has at p xs ys s = Sent sent at xs s × (answer_of (s.caa p) ≡ ys)

  -- What read_from_local_provider takes from the socket; nothing if the connection is closed.
  abbrev pub taken_resp : Provider P E → (fd : ℤ) → Ptr → List ℕ
  taken_resp s fd p =
      if is_neg (s.caa p).fd
      then []
      else bytes_of (net.read s.host fd (size_sub resp_buf_size (s.caa p).nread_resp)).0

  collect_response-Has :
      (s : Provider P E) (at : ℤ) (p : Ptr) (bs : List ℕ)
      → Has at p
          (sent s.host at)
          (answer_of (s.caa p) ++ bs)
          (collect_response http net tries s p bs)
  unfolding collect_response
  collect_response-Has s at p bs =
      let c = s.caa p in
      let c' = record c {
        buf_resp = blit c.buf_resp c.nread_resp bs;
        nread_resp = c.nread_resp + length bs;
      } in
      let s1 = put_caa s p c' in
      let self : (p == p) ≡ true = ground arith in
      let grown : answer_of (s1.caa p) ≡ answer_of c ++ bs =
        rw self (pending-blit c.buf_resp 0 c.nread_resp bs (omega arith)) in
      elim (Bool-cases (is_complete c'.buf_resp c'.nread_resp)) [
        | inl whole ↦ rw whole (
          create-Sent http net tries sent str at (sent s.host at) s1 c.fd writable
              write_to_consumer_agent p refl,
          create-On http net tries (AnswerIs p (answer_of c ++ bs))
              (AnswerIs-Refds p (answer_of c ++ bs)) s1 c.fd writable write_to_consumer_agent p
              grown,
        )
        | inr part ↦ rw part (refl, grown)
      ]

  abort-Has :
      (s : Provider P E) (at : ℤ) (p : Ptr) (xs ys : List ℕ)
      → Has at p xs ys s
      → Has at p xs ys (abort_connection_caa http net tries s p)
  abort-Has s at p xs ys (to, so_far) = (
    abort-Sent http net tries sent str at xs s p to,
    abort-On http net tries (AnswerIs p ys) (AnswerIs-Refds p ys) s p so_far,
  )

  on_read_from_local_provider-Has :
      (s : Provider P E) (fd at : ℤ) (p : Ptr)
      → Has at p
          (sent s.host at)
          (answer_of (s.caa p) ++ taken_resp s fd p)
          (on_read_from_local_provider http net tries s fd p)
  unfolding on_read_from_local_provider
  on_read_from_local_provider-Has s fd at p =
      let c = s.caa p in
      let xs = sent s.host at in
      let n = size_sub resp_buf_size c.nread_resp in
      let s1 = record s { host = (net.read s.host fd n).1 } in
      let kept : Sent sent at xs s1 = str.read_keeps s.host fd at n in
      let same = sym (append-nil (answer_of c)) in
      elim (Bool-cases (is_neg c.fd)) [
        | inl gone ↦ rw gone (str.delete_keeps s.host fd at both_ways, same)
        | inr live ↦ elim (ReadResult-cases (net.read s.host fd n).0) [
          | inl (b, bs, e) ↦
              let (to, grown) = collect_response-Has s1 at p (b ∷ bs) in
              rw (live, e) (to ∙ kept, grown)
          | inr (inl e) ↦ rw (live, e) (abort-Has s1 at p xs (answer_of c ++ []) (kept, same))
          | inr (inr (again, e)) ↦
              rw (live, e)
                (elim (Bool-cases again) [
                  | inl later ↦ rw later (kept, same)
                  | inr error ↦ rw error (abort-Has s1 at p xs (answer_of c ++ []) (kept, same))
                ])
        ]
      ]

  -- A sequence of reads of connection `p` from its provider, which take `bs`. In between, anything may
  -- happen that neither changes this connection nor writes to `at`.
  pub data Collects (at : ℤ) (p : Ptr) (s : Provider P E) : List ℕ → Provider P E → Type 0 where
    start : Collects at p s [] s
    reading :
        {bs : List ℕ} {t : Provider P E} (fd : ℤ)
        → Collects at p s bs t
        → Collects at p s
            (bs ++ taken_resp t fd p)
            (on_read_from_local_provider http net tries t fd p)
    elsewhere :
        {bs : List ℕ} {t : Provider P E} (u : Provider P E)
        → Collects at p s bs t
        → u.caa p ≡ t.caa p
        → sent u.host at ≡ sent t.host at
        → Collects at p s bs u

  pub Collects-Has :
      {at : ℤ} {p : Ptr} {s t : Provider P E} {bs : List ℕ}
      → Collects at p s bs t
      → Has at p (sent s.host at) (answer_of (s.caa p) ++ bs) t
  Collects-Has start = (refl, sym (append-nil _))
  Collects-Has {at} {p} {s} (reading {bs} {t} fd r) =
      let (to, so_far) = Collects-Has r in
      let (to', grown) = on_read_from_local_provider-Has t fd at p in
      (
        to' ∙ to,
        grown
            ∙ ap (λ l. l ++ taken_resp t fd p) so_far
            ∙ append_assoc (answer_of (s.caa p)) bs (taken_resp t fd p),
      )
  Collects-Has (elsewhere u r kept same) =
      let (to, so_far) = Collects-Has r in (same ∙ to, ap answer_of kept ∙ so_far)
