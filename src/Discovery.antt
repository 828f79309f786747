-- ===== src/Discovery.antt =====
-- How the agents find each other: register_etcd_service of src/provider.c writes a key, which
-- on_etcd_service_endpoint of src/consumer.c takes apart.
pub mod Address
pub mod Found
pub mod Tests
use mathlib.Core.List.{append_assoc}
use dubbo_service_mesh.Base.{
  ℕ, suc, ◌+◌, ◌^◌, ◌≤◌, ◌<◌, ◌≡◌, ◌≢◌, refl, ap, sym, subst, ◌∙◌, some, none, List, [], ◌∷◌, ◌++◌,
  arith, length, length-append, All, true, ℤ, pos, negsuc, ltb, inl, inr, Bool-cases,
}
use dubbo_service_mesh.Net.Buffer.{size_sub}
use dubbo_service_mesh.Text.{bytes, decimal, decimal_int, atoi, is_digit, strrchr, bounded_string}
use dubbo_service_mesh.Text.Decimal.{decimal-digits, atoi-decimal_int}
use dubbo_service_mesh.Text.Search.{Lacks, strrchr-append, bounded_string-append}
use dubbo_service_mesh.Provider.Register.{
  service_directory, service_key, register_etcd_service, etcd_key_size,
}
use dubbo_service_mesh.Consumer.Setup.{parse_key}

-- An address as inet_ntoa prints it: digits and dots, so neither `/` nor `:` nor a NUL.
pub record IsAddress (ip : List ℕ) : Type 0 where
  pub no_slash : Lacks b'/' ip
  pub no_colon : Lacks b':' ip
  pub no_nul : Lacks 0 ip

pub digits_lack :
    (c : ℕ) (ds : List ℕ) → is_digit c ≢ true → All (λ d. is_digit d ≡ true) ds → Lacks c ds
digits_lack c [] h a = tt
digits_lack c (d ∷ ds) h a = (λ e. h (subst (λ x. is_digit x ≡ true) e a.0), digits_lack c ds h a.1)

pub Lacks-append : (c : ℕ) (xs ys : List ℕ) → Lacks c xs → Lacks c ys → Lacks c (xs ++ ys)
Lacks-append c [] ys a b = b
Lacks-append c (x ∷ xs) ys a b = (a.0, Lacks-append c xs ys a.1 b)

number-Lacks : (c : ℕ) (i : ℤ) → is_digit c ≢ true → c ≢ b'-' → Lacks c (decimal_int i)
unfolding decimal_int
number-Lacks c (pos n) h m = digits_lack c (decimal n) h (decimal-digits n)
number-Lacks c (negsuc n) h m =
    (λ e. m (sym e), digits_lack c (decimal (suc n)) h (decimal-digits (suc n)))

key_slash :
    (ip : List ℕ) (port : ℤ)
    → IsAddress ip
    → strrchr b'/' (service_key ip port) ≡ some (b'/' ∷ (ip ++ b':' ∷ decimal_int port))
unfolding service_key
key_slash ip port v = strrchr-append b'/' service_directory (ip ++ b':' ∷ decimal_int port) (
    Lacks-append b'/' ip (b':' ∷ decimal_int port) v.no_slash
      (omega arith, number-Lacks b'/' port (ground arith) (ground arith)))

key_colon :
    (ip : List ℕ) (port : ℤ) → strrchr b':' (service_key ip port) ≡ some (b':' ∷ decimal_int port)
unfolding service_key
key_colon ip port =
    ap (strrchr b':') (sym (append_assoc service_directory (b'/' ∷ ip) (b':' ∷ decimal_int port)))
    ∙ strrchr-append b':' (service_directory ++ b'/' ∷ ip) (decimal_int port)
        (number-Lacks b':' port (ground arith) (ground arith))

pub parse_key-service_key :
    (ip : List ℕ) (port : ℤ)
    → IsAddress ip
    → length (service_key ip port) < 2 ^ 64
    → parse_key (service_key ip port) ≡ some (ip, port)
unfolding parse_key service_key
parse_key-service_key ip port v h =
    let whole = length-append service_directory (b'/' ∷ (ip ++ b':' ∷ decimal_int port)) in
    let tail = length-append ip (b':' ∷ decimal_int port) in
    let size : size_sub
          (size_sub (length (ip ++ b':' ∷ decimal_int port)) (length (decimal_int port))) 1
        ≡ length ip =
      omega arith in
    rw
      (
        key_slash ip port v,
        key_colon ip port,
        size,
        bounded_string-append ip (b':' ∷ decimal_int port) v.no_nul,
        atoi-decimal_int port,
      )
      refl

-- Where the address of the interface has no `/`, no `:` and no NUL, the address and the port in a key
-- that a provider's agent registers are the ones that a consumer's agent finds in it.
pub register_etcd_service-parse_key :
    {E : Type 0} (get_local_ip_addr : E → List ℕ × E) (etcd_set : E → List ℕ → E) (e e' : E)
    (port : ℤ) (key : List ℕ)
    → IsAddress (get_local_ip_addr e).0
    → register_etcd_service get_local_ip_addr etcd_set e port ≡ some (key, e')
    → parse_key key ≡ some ((get_local_ip_addr e).0, port)
unfolding register_etcd_service
register_etcd_service-parse_key get_local_ip_addr etcd_set e e' port key v got =
    let made = service_key (get_local_ip_addr e).0 port in
    elim (Bool-cases (ltb (length made) etcd_key_size)) [
      | inl fits ↦
          let same : made ≡ key = ground arith in
          subst (λ k. parse_key k ≡ some ((get_local_ip_addr e).0, port)) same
            (parse_key-service_key (get_local_ip_addr e).0 port v (ground arith))
      | inr long ↦ absurd (ground arith)
    ]
