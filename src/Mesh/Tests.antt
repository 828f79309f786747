-- ===== src/Mesh/Tests.antt =====
-- The theorem on both agents together, at two hosts that each keep the output of one socket.
use dubbo_service_mesh.Base.{
  ℕ, zero, suc, ◌≡◌, refl, false, some, List, [], arith, is_neg, pos, Option, none,
}
use dubbo_service_mesh.Net.{Host}
use dubbo_service_mesh.Net.Buffer.{blit, slice}
use dubbo_service_mesh.Consumer
use dubbo_service_mesh.Consumer.{Consumer, ConnectionCa, zero_ca}
use dubbo_service_mesh.Consumer.Bounds.{AllBounded}
use dubbo_service_mesh.Consumer.Flow.{Relays}
use dubbo_service_mesh.Consumer.Handlers.{on_read_from_consumer, on_write_to_remote_agent}
use dubbo_service_mesh.Consumer.Relay.{pending_in}
use dubbo_service_mesh.Consumer.Tests.{running}
use dubbo_service_mesh.Provider.{Provider}
use dubbo_service_mesh.Net.Tests.{wire, wire-HostLaws, wire-Streams, wire-Flows}
use dubbo_service_mesh.Provider.ArrivedTests.{
  client, head, service, method, type, arg, request, posted, is_call, finder, finds, waiting,
  waiting-IsIdle,
}
use dubbo_service_mesh.Provider.Dubbo.{string_type, payload, parse_body, call_payload}
use dubbo_service_mesh.Text.{strchr, bounded_string, strncmp_eq}
use dubbo_service_mesh.Provider.Dubbo.Frame.{read_frame}
use dubbo_service_mesh.Provider.Handlers as ProviderHandlers
use dubbo_service_mesh.Provider.Local.{on_write_to_local_provider}
use dubbo_service_mesh.Provider.Sendings.{pending_req, Sendings}
use dubbo_service_mesh.Mesh.{request_crosses}

-- The client's side.
abbrev line : Host Consumer.Handler (List ℕ)
line = wire b'P' posted

abbrev open_ca : ConnectionCa
open_ca = record zero_ca { fd = pos 5; conn_apa = 1200 }

abbrev pub asking : Consumer (List ℕ)
asking = record running { ca = λ p. open_ca }

pub asking-AllBounded : AllBounded asking
asking-AllBounded q = omega arith

abbrev pub or_else : {A : Type 0} → A → Option A → A
or_else before none = before
or_else before (some a) = a

abbrev read_all : Consumer (List ℕ)
read_all = or_else asking (on_read_from_consumer line 1 asking (pos 5) 1192)

reads_all : on_read_from_consumer line 1 asking (pos 5) 1192 ≡ some read_all
unfolding on_read_from_consumer
reads_all = refl

-- The consumer's agent after one read event and one write event.
abbrev relayed_all : Consumer (List ℕ)
relayed_all = on_write_to_remote_agent line 1 read_all (pos 9) 1192

relays :
    Relays line 1 (λ e fd. e) (wire-Streams b'P' posted) (pos 9) 1192 asking request relayed_all
relays = Relays.writing (Relays.reading (pos 5) read_all Relays.start reads_all)

nothing_pending : pending_in (relayed_all.ca 1192) ≡ []
unfolding on_read_from_consumer on_write_to_remote_agent slice
nothing_pending = refl

accepted : relayed_all.host ≡ request
unfolding on_read_from_consumer on_write_to_remote_agent slice blit
accepted = refl

abbrev arrived : Provider ℕ (List ℕ)
arrived =
    or_else waiting
      (ProviderHandlers.on_read_from_consumer_agent finder client 1 waiting (pos 5) 1200)

arrives :
    ProviderHandlers.on_read_from_consumer_agent finder client 1 waiting (pos 5) 1200 ≡ some arrived
unfolding ProviderHandlers.on_read_from_consumer_agent parse_body strchr slice blit call_payload
    bounded_string strncmp_eq
arrives = refl

stays_open : is_neg (arrived.caa 1200).fd ≡ false
unfolding ProviderHandlers.on_read_from_consumer_agent parse_body strchr slice blit call_payload
    bounded_string strncmp_eq
stays_open = refl

abbrev events : ℕ → Provider ℕ (List ℕ)
events zero = arrived
events (suc k) = on_write_to_local_provider finder client 1 (events k) (pos 6) 1200

sends_all :
    (k : ℕ)
    → Sendings finder client 1
        (λ e fd. e)
        (wire-Streams b'P' posted)
        (pos 6)
        1200
        arrived
        k
        (events k)
sends_all zero = Sendings.start
sends_all (suc k) = Sendings.writing (sends_all k)

request_crosses_example :
    (bs : List ℕ) × (read_frame bs
      ≡ some (record { id = 7; text = payload service.value method.value string_type arg.value }))
    × ((events 100).host ≡ bs)
    × (pending_req ((events 100).caa 1200) ≡ [])
unfolding payload slice
request_crosses_example =
    request_crosses line 1 (λ e fd. e) (wire-Streams b'P' posted) finder client 1 (λ e fd. e)
      (wire-Streams b'P' posted) asking relayed_all 1192 (pos 9) head service method type arg
      waiting arrived (events 100) 1200 (pos 5) (pos 6) b'P' posted 100 (wire-HostLaws b'P' posted)
      asking-AllBounded refl relays nothing_pending accepted refl (wire-HostLaws b'P' posted)
      (wire-Flows b'P' posted) waiting-IsIdle refl (omega arith) is_call finds refl arrives
      stays_open (sends_all 100) (omega arith)
