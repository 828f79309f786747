-- ===== src/Mesh.antt =====
-- Both agents together: a request goes through src/consumer.c at the consumer's side and through
-- src/provider.c at the provider's.
pub mod Response
pub mod ResponseTests
pub mod Tests
use mathlib.Core.List.{append_cancel_left, append-nil}
use mathlib.Core.Option.{some-injective}
use dubbo_service_mesh.Base.{
  ℤ, ℕ, ◌+◌, ◌^◌, ◌≤◌, ◌<◌, ◌≡◌, refl, ap, ap₂, sym, ◌∙◌, subst, true, false, some, List, [], ◌∷◌,
  ◌++◌, length, is_neg,
}
use dubbo_service_mesh.Pool.{Ptr}
use dubbo_service_mesh.Net.{Host, HostLaws, Streams, Flows, received}
use dubbo_service_mesh.Consumer
use dubbo_service_mesh.Consumer.{Consumer}
use dubbo_service_mesh.Consumer.Bounds.{AllBounded}
use dubbo_service_mesh.Consumer.Flow.{Relays, Relays-fifo}
use dubbo_service_mesh.Consumer.Relay.{pending_in}
use dubbo_service_mesh.Provider
use dubbo_service_mesh.Provider.{Provider, Parser}
use dubbo_service_mesh.Provider.Arrived.{on_read_from_consumer_agent-Ready}
use dubbo_service_mesh.Provider.Posted.{IsCall, IsIdle, Parses}
use dubbo_service_mesh.Provider.Delivered.{Ready, Ready-sent}
use dubbo_service_mesh.Provider.Dubbo.{
  http_buf_size, dubbo_header_len, string_type, payload, request_fits,
}
use dubbo_service_mesh.Provider.Dubbo.Fields.{Field, body}
use dubbo_service_mesh.Provider.Dubbo.Frame.{read_frame}
use dubbo_service_mesh.Provider.Handlers.{on_read_from_consumer_agent}
use dubbo_service_mesh.Provider.Sendings.{Sendings, pending_req}

-- `E` is the host of the consumer's agent and `F` that of the provider's.
module _ {P E F : Type 0} (net_c : Host Consumer.Handler E) (tries_c : ℕ) (sent_c : E → ℤ → List ℕ)
    (str_c : Streams net_c sent_c) (http : Parser P (Provider P F))
    (net_p : Host Provider.Handler F) (tries_p : ℕ) (sent_p : F → ℤ → List ℕ)
    (str_p : Streams net_p sent_p) where
  -- What the socket to the provider's agent has accepted is what the client has sent.
  relayed :
      (s t : Consumer E) (p : Ptr) (to : ℤ) (bs new : List ℕ)
      → HostLaws net_c
      → AllBounded s
      → pending_in (s.ca p) ≡ []
      → Relays net_c tries_c sent_c str_c to p s bs t
      → pending_in (t.ca p) ≡ []
      → sent_c t.host to ≡ sent_c s.host to ++ new
      → new ≡ bs
  relayed s t p to bs new laws v clear r drained more =
      let fifo = Relays-fifo net_c tries_c sent_c str_c {s = s} {t = t} laws v r in
      append_cancel_left (sent_c s.host to) new bs (
        sym more
        ∙ sym (append-nil (sent_c t.host to))
        ∙ ap (λ l. sent_c t.host to ++ l) (sym drained)
        ∙ fifo
        ∙ ap (λ l. l ++ bs) (ap (λ l. sent_c s.host to ++ l) clear ∙ append-nil (sent_c s.host to)))

  -- A client posts a request: a head, and a form of four fields, whose keys hold no `=`, whose first
  -- three values hold no `&`, with no NUL and with the encoded String type as the third value. The
  -- consumer's agent, at first with nothing pending on the connection and with all connections within
  -- their buffers, reads it, in any pieces, and writes it to the provider's agent, in any pieces,
  -- until nothing is pending. The provider's agent gets these bytes from one read, on an open
  -- connection that waits for a request; its http_parser finds the body; the call fits into `buf_req`;
  -- and the connection stays open. Where the provider's socket takes at least a byte at each write
  -- event, once there have been as many write events as the request has bytes, among other events, that
  -- socket has accepted exactly one Dubbo request frame since, with the current request id and the
  -- service, the method, java.lang.String and the argument of the form, and nothing is pending.
  pub request_crosses :
      (s t : Consumer E) (p : Ptr) (to : ℤ) (head : List ℕ) (a b c d : Field) (u v w : Provider P F)
      (q : Ptr) (fd at : ℤ) (first : ℕ) (rest : List ℕ) (k : ℕ)
      → HostLaws net_c
      → AllBounded s
      → pending_in (s.ca p) ≡ []
      → Relays net_c tries_c sent_c str_c to p s (head ++ body a b c d []) t
      → pending_in (t.ca p) ≡ []
      → sent_c t.host to ≡ sent_c s.host to ++ first ∷ rest
      → (net_p.read u.host fd http_buf_size).0 ≡ received first rest
      → HostLaws net_p
      → Flows net_p
      → IsIdle (u.caa q)
      → is_neg (u.caa q).fd ≡ false
      → u.cur_request_id < 2 ^ 32
      → IsCall a b c d
      → Parses http (u.caa q).parser head (body a b c d [])
      → request_fits (payload a.value b.value string_type d.value) ≡ true
      → on_read_from_consumer_agent http net_p tries_p u fd q ≡ some v
      → is_neg (v.caa q).fd ≡ false
      → Sendings http net_p tries_p sent_p str_p at q v k w
      → dubbo_header_len + length (payload a.value b.value string_type d.value) ≤ k
      → (bytes : List ℕ) × (read_frame bytes
          ≡ some (record {
            id = u.cur_request_id;
            text = payload a.value b.value string_type d.value;
          }))
        × (sent_p w.host at ≡ sent_p u.host at ++ bytes)
        × (pending_req (w.caa q) ≡ [])
  request_crosses s t p to head a b c d u v w q fd at first rest k laws_c bounded clear r drained
        more answer laws_p flows idle live small call parses fits got still sendings enough =
      let same =
        relayed s t p to (head ++ body a b c d []) (first ∷ rest) laws_c bounded clear r drained
          more in
      let (v', got', ready) =
        on_read_from_consumer_agent-Ready http net_p tries_p sent_p str_p u q fd at first rest head
          a b c d laws_p idle live small call parses fits answer same in
      let end : v' ≡ v = some-injective _ _ (sym got' ∙ got) in
      let text = payload a.value b.value string_type d.value in
      Ready-sent http net_p tries_p sent_p str_p u v w q at u.cur_request_id k text laws_p flows
        (subst (λ x. Ready http net_p tries_p sent_p str_p q at u.cur_request_id text u x) end
          ready)
        still sendings enough
