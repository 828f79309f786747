-- ===== src/Mesh/ResponseTests.antt =====
-- The theorem on a response on its way back, at two hosts that each keep the output of one socket.
use dubbo_service_mesh.Base.{
  ℕ, ◌≡◌, refl, some, List, [], ◌∷◌, ◌++◌, arith, pos, false, is_neg, length,
}
use dubbo_service_mesh.Text.{bytes, c_string, decimal, decimal_from}
use dubbo_service_mesh.Pool.{return}
use dubbo_service_mesh.Net.{Host, wrote}
use dubbo_service_mesh.Net.Buffer.{blit, slice}
use dubbo_service_mesh.Net.Tests.{wire, wire-HostLaws, wire-Streams}
use dubbo_service_mesh.Consumer
use dubbo_service_mesh.Consumer.{Consumer}
use dubbo_service_mesh.Consumer.Handlers.{on_read_from_remote_agent, on_write_to_consumer}
use dubbo_service_mesh.Consumer.Relay.{pending_out}
use dubbo_service_mesh.Consumer.Replies.{Replies}
use dubbo_service_mesh.Provider
use dubbo_service_mesh.Provider.{Provider}
use dubbo_service_mesh.Provider.Answered.{Collects}
use dubbo_service_mesh.Provider.ArrivedTests.{finder, waiting}
use dubbo_service_mesh.Provider.Local.{on_read_from_local_provider, on_write_to_consumer_agent}
use dubbo_service_mesh.Provider.Response.{is_complete, http_response, terminate, printed_size}
use dubbo_service_mesh.Provider.NextRequest.{TakesNext}
use dubbo_service_mesh.Provider.Written.{http_text}
use dubbo_service_mesh.Mesh.Response.{response_crosses}
use dubbo_service_mesh.Mesh.Tests.{or_else, asking, asking-AllBounded}

-- The header of a response with four bytes of data, and its status; the text is `7`.
abbrev front : List ℕ
front = 0xda ∷ 0xbb ∷ 2 ∷ 20 ∷ 0 ∷ 0 ∷ 0 ∷ 0 ∷ 0 ∷ 0 ∷ 0 ∷ 7 ∷ 0 ∷ 0 ∷ 0 ∷ 4 ∷ b'1' ∷ 10 ∷ []

abbrev text : List ℕ
text = bytes "7"

-- All but its first byte.
abbrev later : List ℕ
later =
    0xbb ∷ 2 ∷ 20 ∷ 0 ∷ 0 ∷ 0 ∷ 0 ∷ 0 ∷ 0 ∷ 0 ∷ 7 ∷ 0 ∷ 0 ∷ 0 ∷ 4 ∷ b'1' ∷ 10 ∷ (text ++ 10 ∷ [])

abbrev dubbo : Host Provider.Handler (List ℕ)
dubbo = wire 0xda later

abbrev collected : Provider ℕ (List ℕ)
collected = on_read_from_local_provider finder dubbo 1 waiting (pos 6) 1200

collects :
    Collects finder dubbo 1
      (λ e fd. e)
      (wire-Streams 0xda later)
      (pos 5)
      1200
      waiting
      (front ++ (text ++ 10 ∷ []))
      collected
collects = Collects.reading (pos 6) Collects.start

abbrev written : Provider ℕ (List ℕ)
written = or_else waiting (on_write_to_consumer_agent finder dubbo 1 collected (pos 5) 1200)

stays_open : is_neg (collected.caa 1200).fd ≡ false
unfolding on_read_from_local_provider is_complete blit
stays_open = refl

takes_all :
    (dubbo.write collected.host (pos 5) (http_text text)).0 ≡ wrote (length (http_text text))
takes_all = refl

writes : on_write_to_consumer_agent finder dubbo 1 collected (pos 5) 1200 ≡ some written
unfolding on_read_from_local_provider is_complete on_write_to_consumer_agent http_response terminate
    printed_size slice blit c_string decimal decimal_from
writes = refl

accepted : written.host ≡ http_text text
unfolding on_read_from_local_provider is_complete on_write_to_consumer_agent http_response terminate
    printed_size slice blit c_string decimal decimal_from
accepted = refl

abbrev answer : List ℕ
answer = bytes "TTP/1.1 200 OK\r\nContent-Length:1\r\n\r\n7"

abbrev agent : Host Consumer.Handler (List ℕ)
agent = wire b'H' answer

abbrev read_it : Consumer (List ℕ)
read_it = on_read_from_remote_agent agent 1 asking (pos 9) 1192

abbrev passed_on : Consumer (List ℕ)
passed_on = on_write_to_consumer agent 1 read_it (pos 5) 1192

replies :
    Replies agent 1
      (λ e fd. e)
      (wire-Streams b'H' answer)
      (pos 5)
      1192
      asking
      (b'H' ∷ answer)
      passed_on
replies = Replies.writing (Replies.reading (pos 9) Replies.start)

nothing_pending : pending_out (passed_on.ca 1192) ≡ []
unfolding on_read_from_remote_agent on_write_to_consumer slice return
nothing_pending = refl

nothing_yet : pending_out (asking.ca 1192) ≡ []
unfolding slice
nothing_yet = refl

response_crosses_example :
    (passed_on.host ≡ http_text text)
    × TakesNext finder dubbo collected 1200
        (pos 5)
        (dubbo.write collected.host (pos 5) (http_text text)).1
        written
unfolding decimal
response_crosses_example =
    response_crosses agent 1 (λ e fd. e) (wire-Streams b'H' answer) finder dubbo 1 (λ e fd. e)
      (wire-Streams 0xda later) waiting collected written 1200 (pos 5) front text asking passed_on
      1192 (pos 5) (b'H' ∷ answer) refl collects refl (omega arith) (ground arith) stays_open
      takes_all writes (wire-HostLaws b'H' answer) asking-AllBounded nothing_yet replies
      nothing_pending accepted
