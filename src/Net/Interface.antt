-- ===== src/Net/Interface.antt =====
-- get_local_ip_addr of src/util.c: the address of a network interface as text. The system calls are
-- parameters; inet_ntoa is written out, as dotted decimals.
use dubbo_service_mesh.Base.{ℕ, List, ◌∷◌, ◌++◌, ℤ, take, ◌-◌}
use dubbo_service_mesh.Text.{decimal}

-- struct in_addr, by its bytes.
pub record InAddr : Type 0 where
  pub a : ℕ
  pub b : ℕ
  pub c : ℕ
  pub d : ℕ

-- `get_address` is ioctl with SIOCGIFADDR for a name: the address that stands in the request after it,
-- also where it fails, since the source does not look.
pub record Interfaces (E : Type 0) : Type 0 where
  pub socket : E → ℤ × E
  pub get_address : E → (fd : ℤ) → (name : List ℕ) → InAddr × E
  pub close : E → (fd : ℤ) → E

unfoldable pub inet_ntoa : InAddr → List ℕ
inet_ntoa i = decimal i.a ++ b'.' ∷ (decimal i.b ++ b'.' ∷ (decimal i.c ++ b'.' ∷ decimal i.d))

abbrev pub ifnamsiz : ℕ
ifnamsiz = 16

unfoldable pub get_local_ip_addr :
    {E : Type 0} → Interfaces E → (interface : List ℕ) → E → List ℕ × E
unfolding inet_ntoa
get_local_ip_addr net interface e =
    let (fd, e1) = net.socket e in
    let (address, e2) = net.get_address e1 fd (take (ifnamsiz - 1) interface) in
    (inet_ntoa address, net.close e2 fd)
