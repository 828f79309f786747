-- ===== src/Provider/TranslationTests.antt =====
-- The theorems on the way of a form to the local provider, at one form.
-- The theorem on the translation of a form at one form.
use Prim.Native.String.{String}
use dubbo_service_mesh.Base.{ℕ, ◌≡◌, refl, some, [], arith}
use dubbo_service_mesh.Net.Buffer.{blit, slice}
use dubbo_service_mesh.Text.{bytes}
use dubbo_service_mesh.Provider.{Provider}
use dubbo_service_mesh.Provider.Dubbo.{payload, string_type, encoded_string_type}
use dubbo_service_mesh.Provider.Dubbo.Fields.{Field}
use dubbo_service_mesh.Provider.Handlers.{on_http_body}
use dubbo_service_mesh.Provider.Requests.{Waits}
use dubbo_service_mesh.Provider.Translation.{on_http_body_translates}
use dubbo_service_mesh.Provider.Tests.{quick, whole, asked, serving, empty, empty-IsCleared}

abbrev field : String → String → Field
field key value = record { key = bytes key; value = bytes value }

abbrev posted : Provider ℕ ℕ
posted = record serving {
  caa = λ p. record asked {
    buf_in = blit empty 2010 (bytes "i=I&m=h&t=Ljava%2Flang%2FString%3B&p=1");
    nread_in = 2010;
  };
}

on_http_body_translates_example :
    (t : Provider ℕ ℕ) × (on_http_body whole quick 1 1200 posted 2010 38 ≡ some (0, t))
    × Waits 1200 7 (payload (bytes "I") (bytes "h") string_type (bytes "1")) t.caa t.cur_request_id
unfolding slice blit payload
on_http_body_translates_example =
    on_http_body_translates whole quick 1 posted 1200 2010 38 (field "i" "I") (field "m" "h")
      (record { key = bytes "t"; value = encoded_string_type }) (field "p" "1") [] refl
      (omega arith) empty-IsCleared (omega arith) (ground arith) (ground arith) (ground arith)
      (ground arith) refl refl refl refl
