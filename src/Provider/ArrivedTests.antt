-- ===== src/Provider/ArrivedTests.antt =====
-- The theorem on a request that arrives at the provider's agent, at a host with one socket's output
-- and a parser that knows where the body is.
use dubbo_service_mesh.Base.{◌-◌, ℕ, ◌≡◌, refl, some, List, [], ◌++◌, arith, pos, length, ◌>>=◌}
use dubbo_service_mesh.Net.Tests.{wire, wire-HostLaws, wire-Streams}
use dubbo_service_mesh.Net.{Host}
use dubbo_service_mesh.Text.{bytes}
use dubbo_service_mesh.Provider.{Provider, Handler, Parser}
use dubbo_service_mesh.Provider.Dubbo.{payload, string_type, encoded_string_type}
use dubbo_service_mesh.Provider.Dubbo.Fields.{body, Field}
use dubbo_service_mesh.Provider.Handlers.{on_read_from_consumer_agent}
use dubbo_service_mesh.Provider.Delivered.{Ready}
use dubbo_service_mesh.Provider.Tests.{asked, serving, empty, empty-IsCleared}
use dubbo_service_mesh.Provider.Arrived.{on_read_from_consumer_agent-Ready}
use dubbo_service_mesh.Provider.Posted.{IsCall, IsIdle, Parses}

abbrev pub head : List ℕ
head = bytes "POST /\r\n\r\n"

abbrev pub service : Field
service = record { key = bytes "i"; value = bytes "I" }

abbrev pub method : Field
method = record { key = bytes "m"; value = bytes "h" }

abbrev pub type : Field
type = record { key = bytes "t"; value = encoded_string_type }

abbrev pub arg : Field
arg = record { key = bytes "p"; value = bytes "1" }

abbrev pub request : List ℕ
request = head ++ body service method type arg []

-- All but its first byte.
abbrev pub posted : List ℕ
posted = bytes "OST /\r\n\r\n" ++ body service method type arg []

pub is_call : IsCall service method type arg
is_call = record {
  service = ground arith;
  method = ground arith;
  type = ground arith;
  arg = ground arith;
  string = refl;
}

abbrev pub client : Host Handler (List ℕ)
client = wire b'P' posted

-- The body starts behind the head.
abbrev pub finder : Parser ℕ (Provider ℕ (List ℕ))
finder = record {
  cleared = 0;
  init = 0;
  execute = λ on_body q bs s.
      on_body s (length head) (length bs - length head) >>= λ (r, t). some (length bs, (q, t));
}

pub finds : Parses finder 0 head (body service method type arg [])
finds = record { after = 0; calls = λ on_body s s' got. rw got refl }

abbrev pub waiting : Provider ℕ (List ℕ)
waiting = record {
  host = [];
  caa = λ p. record asked { buf_in = empty; nread_in = 0; parser = 0 };
  ap = serving.ap;
  cur_request_id = 7;
  caa_pool = serving.caa_pool;
  ap_pool = serving.ap_pool;
  dubbo_port = pos 20889;
}

pub waiting-IsIdle : IsIdle (waiting.caa 1200)
waiting-IsIdle = record {
  inside = ground arith;
  at_start = refl;
  fresh = refl;
  idle = refl;
  linked = omega arith;
  cleared = empty-IsCleared;
}

on_read_from_consumer_agent-Ready_example :
    (u : Provider ℕ (List ℕ)) × (on_read_from_consumer_agent finder client 1 waiting (pos 5) 1200
      ≡ some u)
    × Ready finder client 1
        (λ e fd. e)
        (wire-Streams b'P' posted)
        1200
        (pos 6)
        7
        (payload service.value method.value string_type arg.value)
        waiting
        u
unfolding payload
on_read_from_consumer_agent-Ready_example =
    on_read_from_consumer_agent-Ready finder client 1 (λ e fd. e) (wire-Streams b'P' posted) waiting
      1200 (pos 5) (pos 6) b'P' posted head service method type arg (wire-HostLaws b'P' posted)
      waiting-IsIdle refl (omega arith) is_call finds refl refl refl
