-- ===== src/Provider/Dubbo/Fields.antt =====
-- The form that the consumers post is taken apart into its values.
use dubbo_service_mesh.Base.{
  ℕ, ◌+◌, ◌-◌, ◌≡◌, some, List, ◌∷◌, ◌++◌, arith, length, length-append, pos, sub_ℕ,
}
use dubbo_service_mesh.Text.Search.{Lacks, strchr-append, bounded_string-append}
use dubbo_service_mesh.Provider.Dubbo.{Span, Call, next_field, parse_body, printed}

-- `key=value`; a key holds no `=` and a value no `&`, and neither holds a NUL.
pub record Field : Type 0 where
  pub key : List ℕ
  pub value : List ℕ

pub record IsField (f : Field) : Type 0 where
  pub key_eq : Lacks b'=' f.key
  pub key_nul : Lacks 0 f.key
  pub value_amp : Lacks b'&' f.value
  pub value_nul : Lacks 0 f.value

-- The field at the end of a body: its value may hold a `&`.
pub record IsLast (f : Field) : Type 0 where
  pub key_eq : Lacks b'=' f.key
  pub key_nul : Lacks 0 f.key
  pub value_nul : Lacks 0 f.value

-- The text of a field that `after` follows.
abbrev pub form : Field → List ℕ → List ℕ
form f after = f.key ++ b'=' ∷ (f.value ++ after)

-- The field behind a `&`.
abbrev more : Field → Field
more f = record { key = b'&' ∷ f.key; value = f.value }

more-IsField : (f : Field) → IsField f → IsField (more f)
more-IsField f v = record {
  key_eq = (omega arith, v.key_eq);
  key_nul = (omega arith, v.key_nul);
  value_amp = v.value_amp;
  value_nul = v.value_nul;
}

length-form :
    (f : Field) (after : List ℕ)
    → length (form f after) ≡ length f.key + 1 + length f.value + length after
length-form f after =
    omega (arith, length-append f.key (b'=' ∷ (f.value ++ after)), length-append f.value after)

-- A span whose text is `v`, with `after` behind it in memory.
abbrev pub span : List ℕ → List ℕ → Span
span v after = record { start = v ++ after; len = pos (length v) }

next_field-form :
    (f : Field) (after : List ℕ)
    → IsField f
    → next_field (form f (b'&' ∷ after)) ≡ some (span f.value (b'&' ∷ after), b'&' ∷ after)
unfolding next_field
next_field-form f after v =
    let eq = strchr-append b'=' f.key (f.value ++ b'&' ∷ after) v.key_eq v.key_nul in
    let amp = strchr-append b'&' f.value after v.value_amp v.value_nul in
    let size : length (f.value ++ b'&' ∷ after) - length (b'&' ∷ after) ≡ length f.value =
      omega (arith, length-append f.value (b'&' ∷ after)) in
    rw (eq, amp, size)

pub printed-span : (v after : List ℕ) → Lacks 0 v → printed (span v after) ≡ v
unfolding printed
printed-span v after a = bounded_string-append v after a

-- The body `a&b&c&d`, with `tail` behind it in memory.
abbrev pub body : (a b c d : Field) (tail : List ℕ) → List ℕ
body a b c d tail = form a (b'&' ∷ form b (b'&' ∷ form c (b'&' ∷ form d tail)))

-- The call that such a body is.
abbrev pub call_of : (a b c d : Field) (tail : List ℕ) → Call
call_of a b c d tail = record {
  service = span a.value (b'&' ∷ form b (b'&' ∷ form c (b'&' ∷ form d tail)));
  method = span b.value (b'&' ∷ form c (b'&' ∷ form d tail));
  type = span c.value (b'&' ∷ form d tail);
  arg = span d.value tail;
}

pub parse_body_call :
    (a b c d : Field) (tail : List ℕ) (len : ℕ)
    → IsField a
    → IsField b
    → IsField c
    → Lacks b'=' d.key
    → Lacks 0 d.key
    → len + length tail ≡ length (body a b c d tail)
    → parse_body (body a b c d tail) len ≡ some (call_of a b c d tail)
unfolding parse_body
parse_body_call a b c d tail len va vb vc eq nul size =
    let r3 = b'&' ∷ form d tail in
    let r2 = b'&' ∷ form c r3 in
    let r1 = b'&' ∷ form b r2 in
    let f1 = next_field-form a (form b r2) va in
    let f2 = next_field-form (more b) (form c r3) (more-IsField b vb) in
    let f3 = next_field-form (more c) (form d tail) (more-IsField c vc) in
    let last =
      strchr-append b'=' (b'&' ∷ d.key) (d.value ++ tail) (omega arith, eq) (omega arith, nul) in
    let all = length (body a b c d tail) in
    let arg : sub_ℕ len (all - length (d.value ++ tail)) ≡ pos (length d.value) = ground (
      arith,
      length-form a r1,
      length-form b r2,
      length-form c r3,
      length-form d tail,
      length-append d.value tail,
    ) in
    rw (f1, f2, f3, last, arg)

-- A body of four fields whose keys hold no `=`, whose first three values hold no `&`, and with no NUL
-- before its end, is taken apart into its four values, whatever follows it in memory.
pub parse_body-body :
    (a b c d : Field) (tail : List ℕ) (len : ℕ)
    → IsField a
    → IsField b
    → IsField c
    → Lacks b'=' d.key
    → Lacks 0 d.key
    → Lacks 0 d.value
    → len + length tail ≡ length (body a b c d tail)
    → (call : Call) × (parse_body (body a b c d tail) len ≡ some call)
      × (printed call.service ≡ a.value)
      × (printed call.method ≡ b.value)
      × (printed call.type ≡ c.value)
      × (printed call.arg ≡ d.value)
parse_body-body a b c d tail len va vb vc eq nul value_nul size = (
  call_of a b c d tail,
  parse_body_call a b c d tail len va vb vc eq nul size,
  printed-span a.value _ va.value_nul,
  printed-span b.value _ vb.value_nul,
  printed-span c.value _ vc.value_nul,
  printed-span d.value tail value_nul,
)
