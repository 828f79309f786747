-- ===== src/Consumer/HistoryTests.antt =====
-- The theorems on sequences of events of src/consumer.c, at the host of the other tests.
use dubbo_service_mesh.Base.{
  ℕ, zero, suc, ◌<◌, ◌≡◌, refl, some, List, [], ◌∷◌, ◌++◌, arith, take, length, ltb, true, pos,
  negsuc, is_neg, if◌then◌else◌,
}
use dubbo_service_mesh.Net.{Host, Flows}
use dubbo_service_mesh.Net.Buffer.{slice, blit}
use dubbo_service_mesh.Text.{bytes}
use dubbo_service_mesh.Consumer.{Consumer, Handler, put_apa, put_ca}
use dubbo_service_mesh.Consumer.Connect.{init_connection_apa}
use dubbo_service_mesh.Consumer.Connect.Retry.{
  refused, FirstSuccess, init_connection_apa_terminates,
}
use dubbo_service_mesh.Consumer.Handlers.{
  on_read_from_remote_agent, on_write_to_consumer, on_read_from_consumer, on_write_to_remote_agent,
  relay_request, watch_remote,
}
use dubbo_service_mesh.Consumer.Relay.{pending_in, pending_out}
use dubbo_service_mesh.Consumer.Flow.{Relays, Relays-fifo}
use dubbo_service_mesh.Consumer.Replies.{Replies, Replies-fifo}
use dubbo_service_mesh.Consumer.Drain.{write_events, write_events-drain}
use dubbo_service_mesh.Consumer.Tests.{
  tiny, tiny-HostLaws, tiny-Streams, running, running-AllBounded, more_in,
}

-- A read of `GET` from the consumer, then a write event to the remote agent.
relayed :
    Relays tiny 1
      (λ e fd. e)
      tiny-Streams
      (pos 6)
      1192
      running
      (bytes "GET")
      (on_write_to_remote_agent tiny 1
        (watch_remote tiny 1 (put_ca running 1192 more_in) 1192 1200)
        (pos 6)
        1192)
unfolding on_read_from_consumer relay_request
relayed = Relays.writing (
    Relays.reading (pos 5) (watch_remote tiny 1 (put_ca running 1192 more_in) 1192 1200)
      Relays.start refl)

Relays-fifo_example :
    let t =
      on_write_to_remote_agent tiny 1
        (watch_remote tiny 1 (put_ca running 1192 more_in) 1192 1200)
        (pos 6)
        1192 in
    t.host ++ pending_in (t.ca 1192) ≡ (running.host ++ pending_in (running.ca 1192)) ++ bytes "GET"
Relays-fifo_example =
    Relays-fifo tiny 1 (λ e fd. e) tiny-Streams {at = pos 6} {p = 1192} {s = running} tiny-HostLaws
      running-AllBounded relayed

tiny-Flows : Flows tiny
tiny-Flows = record { takes = λ e fd bs h. (length (take 2 bs), refl, some_taken bs h) }
  where
    some_taken : (bs : List ℕ) → 0 < length bs → 0 < length (take 2 bs)
    some_taken [] h = omega arith
    some_taken (b ∷ []) h = omega arith
    some_taken (b ∷ c ∷ bs) h = omega arith

write_events-drain_example :
    let t = write_events tiny 1 2 running (pos 6) 1192 in
    (pending_in (t.ca 1192) ≡ []) × (t.host ≡ bytes "ET")
unfolding slice blit
write_events-drain_example =
    write_events-drain tiny 1 (λ e fd. e) tiny-Streams running (pos 6) 1192 tiny-HostLaws tiny-Flows
      running-AllBounded refl

-- The first attempt to connect is refused, and then none.
abbrev late : Host Handler (List ℕ)
late = record tiny {
  tcp_connect = λ e ip port. (if ltb (length e) 1 then negsuc 0 else pos 9, e ++ b'x' ∷ []);
}

late-FirstSuccess :
    FirstSuccess late (running.endpoints 1).ip (running.endpoints 1).port 1 running.host
late-FirstSuccess = record { fails = first_fails; succeeds = refl }
  where
    first_fails :
        (j : ℕ)
        → j < 1
        → is_neg
            (late.tcp_connect
              (refused late (running.endpoints 1).ip (running.endpoints 1).port j running.host)
              (running.endpoints 1).ip
              (running.endpoints 1).port).0
          ≡ true
    first_fails zero h = refl
    first_fails (suc j) h = absurd (omega arith)

init_connection_apa_terminates_example :
    init_connection_apa late 2 1 running 1200
    ≡ some (
      1,
      put_apa
          (record running { host = bytes "xx" })
          1200
          (record { fd = pos 9; endpoint = 1; req_start = 0 }),
    )
init_connection_apa_terminates_example =
    init_connection_apa_terminates late 1 2 1 running 1200 late-FirstSuccess (omega arith)

-- A read of `GET` from the remote agent, then a write event to the consumer.
abbrev answered : Consumer (List ℕ)
answered =
    on_write_to_consumer tiny 1 (on_read_from_remote_agent tiny 1 running (pos 6) 1192) (pos 5) 1192

replied : Replies tiny 1 (λ e fd. e) tiny-Streams (pos 5) 1192 running (bytes "GET") answered
replied = Replies.writing (Replies.reading (pos 6) Replies.start)

Replies-fifo_example :
    answered.host ++ pending_out (answered.ca 1192)
    ≡ (running.host ++ pending_out (running.ca 1192)) ++ bytes "GET"
Replies-fifo_example =
    Replies-fifo tiny 1 (λ e fd. e) tiny-Streams {at = pos 5} {p = 1192} {s = running} tiny-HostLaws
      running-AllBounded replied
