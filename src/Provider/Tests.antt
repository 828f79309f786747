-- ===== src/Provider/Tests.antt =====
-- The theorems on the provider's agent at one request and one response.
use dubbo_service_mesh.Base.{
  ℕ, ◌+◌, ◌≡◌, refl, some, ◌>>=◌, [], ◌∷◌, ◌++◌, arith, length, pos, ltb, if◌then◌else◌,
}
use dubbo_service_mesh.Net.Buffer.{Buf, blit, slice}
use dubbo_service_mesh.Text.{bytes, decimal}
use dubbo_service_mesh.Provider.Dubbo.{Call, printed, parse_body, assemble, dubbo_header_len}
use dubbo_service_mesh.Provider.Dubbo.Fields.{Field, IsField, body, parse_body-body}
use dubbo_service_mesh.Provider.Dubbo.Frame.{IsCleared, read_frame, read_frame-assemble}
use mathlib.Core.Bool.{true, false}
use dubbo_service_mesh.Pool.{null}
use dubbo_service_mesh.Pool.Tests.{two_left}
use dubbo_service_mesh.Net.{Host, received, closed, wrote}
use dubbo_service_mesh.Provider.{ConnectionCaa, Provider, Handler, Parser}
use dubbo_service_mesh.Provider.Response.{http_response, response_prefix}
use dubbo_service_mesh.Provider.Response.Length.{http_response_lem}

abbrev a_field : Field
a_field = record { key = bytes "interface"; value = bytes "IHello" }

abbrev b_field : Field
b_field = record { key = bytes "method"; value = bytes "hash" }

abbrev c_field : Field
c_field = record { key = bytes "types"; value = bytes "Ljava%2Flang%2FString%3B" }

abbrev d_field : Field
d_field = record { key = bytes "parameter"; value = bytes "a=b" }

a_field-IsField : IsField a_field
a_field-IsField = ground arith

b_field-IsField : IsField b_field
b_field-IsField = ground arith

c_field-IsField : IsField c_field
c_field-IsField = ground arith

parse_body-body_example :
    (call : Call) × (parse_body (body a_field b_field c_field d_field (0 ∷ [])) 73 ≡ some call)
    × (printed call.service ≡ a_field.value)
    × (printed call.method ≡ b_field.value)
    × (printed call.type ≡ c_field.value)
    × (printed call.arg ≡ d_field.value)
parse_body-body_example =
    parse_body-body a_field b_field c_field d_field (0 ∷ []) 73 a_field-IsField b_field-IsField
      c_field-IsField (ground arith) (ground arith) (ground arith) (ground arith)

abbrev pub empty : Buf
empty = λ _. 0

pub empty-IsCleared : IsCleared empty
empty-IsCleared = record { at3 = refl; at4 = refl; at5 = refl; at6 = refl; at7 = refl }

read_frame-assemble_example :
    read_frame (slice (assemble empty 7 (bytes "\"2.0.1\"\n")) 0 (dubbo_header_len + 8))
    ≡ some (record { id = 7; text = bytes "\"2.0.1\"\n" })
read_frame-assemble_example =
    read_frame-assemble empty 7 (bytes "\"2.0.1\"\n") empty-IsCleared (omega arith) (omega arith)

-- `1`, a newline, the response's body and a newline behind a header.
abbrev answered : Buf
answered = blit (λ _. 0) 16 (bytes "1\n-42\n")

http_response_lem_example :
    http_response answered 22
    ≡ some (response_prefix ++ (bytes "3" ++ (bytes "\r\n\r\n" ++ bytes "-42")))
unfolding slice blit decimal
http_response_lem_example = http_response_lem answered 3 (omega arith) (ground arith)

-- A host that answers each read that has room with one byte and takes every write.
abbrev pub quick : Host Handler ℕ
quick = record {
  read = λ e fd count. (if ltb count 1 then closed else received 1 [], e);
  write = λ e fd bs. (wrote (length bs), e);
  close = λ e fd. e;
  create_file_event = λ e fd mask f p. (true, e);
  delete_file_event = λ e fd mask. e;
  clock_gettime = λ e. ((7, 0), e);
  tcp_connect = λ e ip port. (pos 9, e);
  tune = λ e fd. e;
  sleep = λ e n. e;
  malloc = λ e n. (null, e);
  calloc = λ e n m. (null, e);
  dealloc = λ e p. e;
}

-- A parser that takes all its input for a body.
abbrev pub whole : Parser ℕ (Provider ℕ ℕ)
whole = record {
  cleared = 0;
  init = 0;
  execute = λ on_body q bs s. on_body s 0 (length bs) >>= λ (r, t). some (length bs, (q, t));
}

-- A body stands at the end of `buf_in`.
abbrev pub asked : ConnectionCaa ℕ
asked = record {
  fd = pos 5;
  buf_in = blit empty 2033 (bytes "i=I&m=h&t=L&p=1");
  nread_in = 2033;
  buf_req = empty;
  len_req = 0;
  nwrite_req = 0;
  buf_resp = empty;
  nread_resp = 0;
  parser = 0;
  processing = false;
  conn_ap = 1184;
}

abbrev pub serving : Provider ℕ ℕ
serving = record {
  host = 0;
  caa = λ p. asked;
  ap = λ a. record { fd = pos 6 };
  cur_request_id = 7;
  caa_pool = two_left;
  ap_pool = two_left;
  dubbo_port = pos 20889;
}

abbrev one_call : Call
one_call = record {
  service = record { start = bytes "I&m=h&t=L&p=1"; len = pos 1 };
  method = record { start = bytes "h&t=L&p=1"; len = pos 1 };
  type = record { start = bytes "L&p=1"; len = pos 1 };
  arg = record { start = bytes "1"; len = pos 1 };
}
