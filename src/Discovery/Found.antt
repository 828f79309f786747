-- ===== src/Discovery/Found.antt =====
-- The consumer's agent (discover_etcd_services of src/consumer.c) finds the agents that have
-- registered (service_key of src/provider.c).
use dubbo_service_mesh.Base.{
  ℕ, ◌+◌, ◌≤◌, ◌<◌, ◌≡◌, refl, some, List, [], ◌∷◌, map, arith, length, All, ℤ, pos,
}
use dubbo_service_mesh.Net.{Host}
use dubbo_service_mesh.Provider.Register.{service_key}
use dubbo_service_mesh.Consumer.{Consumer, Handler}
use dubbo_service_mesh.Consumer.Setup.{max_endpoints, discover_etcd_services}
use dubbo_service_mesh.Consumer.Added.{Reliable}
use dubbo_service_mesh.Consumer.Discovered.{Listed, Parsed, visit-Listed}
use dubbo_service_mesh.Net.Interface.{InAddr, inet_ntoa}
use dubbo_service_mesh.Discovery.{parse_key-service_key}
use dubbo_service_mesh.Discovery.Address.{IsPlace, inet_ntoa-IsAddress, length-service_key}

-- An agent of a provider: the address of its interface and its port.
abbrev pub Agent : Type 0
Agent = InAddr × ℕ

-- The key that it registers.
abbrev pub key_of : Agent → List ℕ
key_of (i, port) = service_key (inet_ntoa i) (pos port)

abbrev pub place_of : Agent → List ℕ × ℤ
place_of (i, port) = (inet_ntoa i, pos port)

abbrev pub IsAgent : Agent → Type 0
IsAgent (i, port) = IsPlace i port

pub IsAgent-Parsed :
    (agents : List Agent) → All IsAgent agents → Parsed (map key_of agents) (map place_of agents)
IsAgent-Parsed [] a = tt
IsAgent-Parsed ((i, port) ∷ more) a = (
  parse_key-service_key (inet_ntoa i) (pos port) (inet_ntoa-IsAddress i)
      (omega (arith, length-service_key i port a.0)),
  IsAgent-Parsed more a.1,
)

length-map : (agents : List Agent) → length (map key_of agents) ≡ length agents
length-map [] = refl
length-map (a ∷ more) = omega (arith, length-map more)

module _ {E : Type 0} (net : Host Handler E) (tries : ℕ)
    (get_directory : E → List (List ℕ) × (ℕ × E)) where
  -- If etcd answers with success and with the keys of some agents, each registered under an IPv4
  -- address and a 16-bit port, at most three with the endpoints that are there, every connection comes
  -- up and no allocation fails, then discover_etcd_services returns, and the agents are the next
  -- endpoints, in the order of the keys: each with its address and port and with 512 distinct free
  -- connections.
  pub discover_etcd_services-Listed :
      (agents : List Agent) (s : Consumer E)
      → Reliable net
      → 0 < tries
      → All IsAgent agents
      → (get_directory s.host).0 ≡ map key_of agents
      → (get_directory s.host).1.0 ≡ 0
      → s.num_endpoints + length agents ≤ max_endpoints
      → (t : Consumer E) × (discover_etcd_services net tries get_directory s ≡ some t)
        × (t.num_endpoints ≡ s.num_endpoints + length agents)
        × Listed (map place_of agents) s.num_endpoints t.endpoints
  unfolding discover_etcd_services
  discover_etcd_services-Listed agents s rel more known keys fine room =
      let size = length-map agents in
      let s1 = record s { host = (get_directory s.host).1.1 } in
      let (t, got, count, listed, others) =
        visit-Listed net tries (map key_of agents) (map place_of agents) s1 rel more
          (IsAgent-Parsed agents known) (omega arith) in
      (t, rw (keys, got, fine) refl, omega arith, listed)
