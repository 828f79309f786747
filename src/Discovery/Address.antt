-- ===== src/Discovery/Address.antt =====
-- The address that get_local_ip_addr of src/util.c prints: a key can hold it, and it fits.
use dubbo_service_mesh.Base.{
  pos, ℕ, ◌<◌, ◌≡◌, ◌≢◌, sym, refl, take, some, List, ◌∷◌, ◌++◌, arith, length, length-append, true,
  ltb,
}
use dubbo_service_mesh.Net.Interface.{InAddr, Interfaces, inet_ntoa, get_local_ip_addr}
use dubbo_service_mesh.Text.{decimal_int, decimal, is_digit}
use dubbo_service_mesh.Text.Decimal.{decimal-digits, length-decimal}
use dubbo_service_mesh.Text.Search.{Lacks}
use dubbo_service_mesh.Provider.Register.{service_key, register_etcd_service, etcd_key_size}
use dubbo_service_mesh.Discovery.{IsAddress, digits_lack, Lacks-append}

-- The bytes of an address and a port as a socket has them.
pub record IsPlace (i : InAddr) (port : ℕ) : Type 0 where
  pub a_byte : i.a < 256
  pub b_byte : i.b < 256
  pub c_byte : i.c < 256
  pub d_byte : i.d < 256
  pub port_word : port < 65536

decimal-Lacks : (c n : ℕ) → (is_digit c ≢ true) → Lacks c (decimal n)
decimal-Lacks c n h = digits_lack c (decimal n) h (decimal-digits n)

inet_ntoa-Lacks : (c : ℕ) (i : InAddr) → is_digit c ≢ true → c ≢ b'.' → Lacks c (inet_ntoa i)
unfolding inet_ntoa
inet_ntoa-Lacks c i h dot =
    let other : b'.' ≢ c = λ e. dot (sym e) in
    let three =
      Lacks-append c (decimal i.c) (b'.' ∷ decimal i.d) (decimal-Lacks c i.c h)
        (other, decimal-Lacks c i.d h) in
    let two =
      Lacks-append c (decimal i.b) (b'.' ∷ (decimal i.c ++ b'.' ∷ decimal i.d))
        (decimal-Lacks c i.b h) (other, three) in
    Lacks-append c (decimal i.a)
      (b'.' ∷ (decimal i.b ++ b'.' ∷ (decimal i.c ++ b'.' ∷ decimal i.d))) (decimal-Lacks c i.a h)
      (other, two)

pub inet_ntoa-IsAddress : (i : InAddr) → IsAddress (inet_ntoa i)
inet_ntoa-IsAddress i = record {
  no_slash = inet_ntoa-Lacks b'/' i (ground arith) (omega arith);
  no_colon = inet_ntoa-Lacks b':' i (ground arith) (omega arith);
  no_nul = inet_ntoa-Lacks 0 i (ground arith) (omega arith);
}

-- The longest is 255.255.255.255:65535.
pub length-service_key :
    (i : InAddr) (port : ℕ)
    → IsPlace i port
    → length (service_key (inet_ntoa i) (pos port)) < etcd_key_size
unfolding service_key inet_ntoa decimal_int
length-service_key i port v =
    let tail = decimal i.c ++ b'.' ∷ decimal i.d in
    let rest = decimal i.b ++ b'.' ∷ tail in
    omega (
      arith,
      length-append (decimal i.a ++ b'.' ∷ rest) (b':' ∷ decimal port),
      length-append (decimal i.a) (b'.' ∷ rest),
      length-append (decimal i.b) (b'.' ∷ tail),
      length-append (decimal i.c) (b'.' ∷ decimal i.d),
      length-decimal 2 i.a (omega (arith, v.a_byte)),
      length-decimal 2 i.b (omega (arith, v.b_byte)),
      length-decimal 2 i.c (omega (arith, v.c_byte)),
      length-decimal 2 i.d (omega (arith, v.d_byte)),
      length-decimal 4 port (omega (arith, v.port_word)),
    )

-- A provider's agent registers under the address of its interface: the key always fits its array.
pub register_etcd_service-get_local_ip_addr :
    {E : Type 0} (net : Interfaces E) (etcd_set : E → List ℕ → E) (interface : List ℕ) (e : E)
    (port : ℕ) (i : InAddr)
    → (net.get_address (net.socket e).1 (net.socket e).0 (take 15 interface)).0 ≡ i
    → IsPlace i port
    → (e' : E) × (register_etcd_service (get_local_ip_addr net interface) etcd_set e (pos port)
        ≡ some (service_key (inet_ntoa i) (pos port), e'))
unfolding register_etcd_service get_local_ip_addr
register_etcd_service-get_local_ip_addr net etcd_set interface e port i at v =
    let fits : ltb (length (service_key (inet_ntoa i) (pos port))) etcd_key_size ≡ true =
      ground (arith, length-service_key i port v) in
    let (fd, e1) = net.socket e in
    let e2 = (net.get_address e1 fd (take 15 interface)).1 in
    (etcd_set (net.close e2 fd) (service_key (inet_ntoa i) (pos port)), rw (at, fits) refl)
