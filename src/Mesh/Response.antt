-- ===== src/Mesh/Response.antt =====
-- A response on its way back: through src/provider.c to the consumer's agent, and through
-- src/consumer.c to the client.
use mathlib.Core.List.{append_cancel_left, append-nil}
use mathlib.Core.Option.{some-injective}
use dubbo_service_mesh.Base.{
  ℤ, ℕ, ◌≤◌, ◌≡◌, refl, ap, sym, ◌∙◌, subst, false, some, List, [], ◌∷◌, ◌++◌, length, is_neg,
}
use dubbo_service_mesh.Pool.{Ptr}
use dubbo_service_mesh.Text.Search.{Lacks}
use dubbo_service_mesh.Net.{Host, HostLaws, Streams, wrote}
use dubbo_service_mesh.Net.Buffer.{slice}
use dubbo_service_mesh.Consumer
use dubbo_service_mesh.Consumer.{Consumer}
use dubbo_service_mesh.Consumer.Bounds.{AllBounded}
use dubbo_service_mesh.Consumer.Relay.{pending_out}
use dubbo_service_mesh.Consumer.Replies.{Replies, Replies-fifo}
use dubbo_service_mesh.Provider
use dubbo_service_mesh.Provider.{ConnectionCaa, Provider, Parser}
use dubbo_service_mesh.Provider.Answered.{answer_of, Collects, Collects-Has}
use dubbo_service_mesh.Provider.Local.{on_write_to_consumer_agent}
use dubbo_service_mesh.Provider.NextRequest.{TakesNext}
use dubbo_service_mesh.Provider.Written.{http_text, on_write_to_consumer_agent-TakesNext}

no_answer : {P : Type 0} (c : ConnectionCaa P) → c.nread_resp ≡ 0 → answer_of c ≡ []
unfolding slice
no_answer c e = rw e refl

-- `E` is the host of the consumer's agent and `F` that of the provider's.
module _ {P E F : Type 0} (net_c : Host Consumer.Handler E) (tries_c : ℕ) (sent_c : E → ℤ → List ℕ)
    (str_c : Streams net_c sent_c) (http : Parser P (Provider P F))
    (net_p : Host Provider.Handler F) (tries_p : ℕ) (sent_p : F → ℤ → List ℕ)
    (str_p : Streams net_p sent_p) where
  -- What the client's socket has accepted is what the consumer's agent has read.
  replied :
      (s t : Consumer E) (p : Ptr) (to : ℤ) (bs : List ℕ)
      → HostLaws net_c
      → AllBounded s
      → pending_out (s.ca p) ≡ []
      → Replies net_c tries_c sent_c str_c to p s bs t
      → pending_out (t.ca p) ≡ []
      → sent_c t.host to ≡ sent_c s.host to ++ bs
  replied s t p to bs laws v clear r drained =
      sym (append-nil (sent_c t.host to))
      ∙ ap (λ l. sent_c t.host to ++ l) (sym drained)
      ∙ Replies-fifo net_c tries_c sent_c str_c {s = s} {t = t} laws v r
      ∙ ap (λ l. l ++ bs) (ap (λ l. sent_c s.host to ++ l) clear ∙ append-nil (sent_c s.host to))

  -- The provider answers with 18 bytes, a text of at most 89 bytes with no NUL, and a newline. Its
  -- agent reads them, in any pieces, on a connection that had no response yet and stays open, and its
  -- socket to the consumer's agent takes the whole HTTP response at once. If the consumer's agent,
  -- at first with nothing pending for its client and with all connections within their buffers, has
  -- read what that socket has accepted since, and has written it to its client, in any pieces, until
  -- nothing is pending, then the client's socket has accepted exactly the HTTP response with the text
  -- as its body since, and the provider's agent takes the next request on the connection: its parser
  -- and its positions are as at the start, it keeps its sockets, of the events on its socket only the
  -- one for writing is deleted, and no other connection of the agent has changed.
  pub response_crosses :
      (u v w : Provider P F) (q : Ptr) (at : ℤ) (front text : List ℕ) (s t : Consumer E) (p : Ptr)
      (to : ℤ) (bs : List ℕ)
      → (u.caa q).nread_resp ≡ 0
      → Collects http net_p tries_p sent_p str_p at q u (front ++ (text ++ 10 ∷ [])) v
      → length front ≡ 18
      → length text ≤ 89
      → Lacks 0 text
      → is_neg (v.caa q).fd ≡ false
      → (net_p.write v.host at (http_text text)).0 ≡ wrote (length (http_text text))
      → on_write_to_consumer_agent http net_p tries_p v at q ≡ some w
      → HostLaws net_c
      → AllBounded s
      → pending_out (s.ca p) ≡ []
      → Replies net_c tries_c sent_c str_c to p s bs t
      → pending_out (t.ca p) ≡ []
      → sent_p w.host at ≡ sent_p u.host at ++ bs
      → (sent_c t.host to ≡ sent_c s.host to ++ http_text text)
        × TakesNext http net_p v q at (net_p.write v.host at (http_text text)).1 w
  response_crosses u v w q at front text s t p to bs fresh collects size short nul live takes got
        laws bounded clear r drained read =
      let (quiet, whole) = Collects-Has http net_p tries_p sent_p str_p {s = u} {t = v} collects in
      let answer =
        whole ∙ ap (λ l. l ++ (front ++ (text ++ 10 ∷ []))) (no_answer (u.caa q) fresh) in
      let (w', got', out, next) =
        on_write_to_consumer_agent-TakesNext http net_p tries_p sent_p str_p v q at front text live
          answer size short nul takes in
      let end : w' ≡ w = some-injective _ _ (sym got' ∙ got) in
      let same : bs ≡ http_text text = append_cancel_left (sent_p u.host at) bs (http_text text) (
        sym read
        ∙ ap (λ x. sent_p x.host at) (sym end)
        ∙ out
        ∙ ap (λ l. l ++ http_text text) quiet) in
      (
        replied s t p to bs laws bounded clear r drained ∙ ap (λ l. sent_c s.host to ++ l) same,
        subst (λ x. TakesNext http net_p v q at (net_p.write v.host at (http_text text)).1 x) end
            next,
      )
