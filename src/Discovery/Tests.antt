-- ===== src/Discovery/Tests.antt =====
-- The theorems on discovery at one address and at two agents.
use dubbo_service_mesh.Base.{ℕ, ◌≡◌, refl, some, List, [], ◌∷◌, arith, pos}
use dubbo_service_mesh.Text.{bytes}
use dubbo_service_mesh.Provider.Register.{service_key, register_etcd_service}
use dubbo_service_mesh.Consumer.Setup.{parse_key}
use dubbo_service_mesh.Net.{Host}
use dubbo_service_mesh.Consumer.{Consumer, Handler}
use dubbo_service_mesh.Consumer.Setup.{discover_etcd_services}
use dubbo_service_mesh.Consumer.Added.{Reliable}
use dubbo_service_mesh.Consumer.Discovered.{Listed}
use dubbo_service_mesh.Consumer.Tests.{tiny, running}
use dubbo_service_mesh.Net.Interface.{InAddr, Interfaces, inet_ntoa, get_local_ip_addr}
use dubbo_service_mesh.Discovery.{register_etcd_service-parse_key}
use dubbo_service_mesh.Discovery.Address.{
  IsPlace, inet_ntoa-IsAddress, register_etcd_service-get_local_ip_addr,
}
use dubbo_service_mesh.Discovery.Found.{discover_etcd_services-Listed}

abbrev place : InAddr
place = record { a = 10; b = 10; c = 10; d = 3 }

-- One interface with this address.
abbrev card : Interfaces ℕ
card = record { socket = λ e. (pos 3, e); get_address = λ e fd name. (place, e); close = λ e fd. e }

one-IsPlace : IsPlace place 30000
one-IsPlace = omega arith

two-IsPlace : IsPlace place 30001
two-IsPlace = omega arith

-- What register_etcd_service registers there.
registered :
    (e' : ℕ) × (register_etcd_service
        (get_local_ip_addr card (bytes "eth0"))
        (λ e key. e)
        0
        (pos 30000)
      ≡ some (service_key (inet_ntoa place) (pos 30000), e'))
registered =
    register_etcd_service-get_local_ip_addr card (λ e key. e) (bytes "eth0") 0 30000 place refl
      one-IsPlace

register_etcd_service-parse_key_example :
    parse_key (service_key (inet_ntoa place) (pos 30000)) ≡ some (inet_ntoa place, pos 30000)
unfolding get_local_ip_addr
register_etcd_service-parse_key_example =
    register_etcd_service-parse_key (get_local_ip_addr card (bytes "eth0")) (λ e key. e) 0
      registered.0 (pos 30000) (service_key (inet_ntoa place) (pos 30000))
      (inet_ntoa-IsAddress place) registered.1

-- Memory is never short.
abbrev roomy : Host Handler (List ℕ)
roomy = record tiny { malloc = λ e n. (1000, e); calloc = λ e n m. (1000, e) }

roomy-Reliable : Reliable roomy
roomy-Reliable = record {
  connects = λ e ip port. refl;
  mallocs = λ e n. omega arith;
  callocs = λ e n m. omega arith;
}

abbrev two_keys : List (List ℕ)
two_keys =
    service_key (inet_ntoa place) (pos 30000) ∷ service_key (inet_ntoa place) (pos 30001) ∷ []

abbrev starting : Consumer (List ℕ)
starting = record running { num_endpoints = 0 }

discover_etcd_services-Listed_example :
    (t : Consumer (List ℕ)) × (discover_etcd_services roomy 1 (λ e. (two_keys, (0, e))) starting
      ≡ some t)
    × (t.num_endpoints ≡ 2)
    × Listed ((inet_ntoa place, pos 30000) ∷ (inet_ntoa place, pos 30001) ∷ []) 0 t.endpoints
discover_etcd_services-Listed_example =
    discover_etcd_services-Listed roomy 1 (λ e. (two_keys, (0, e)))
      ((place, 30000) ∷ (place, 30001) ∷ []) starting roomy-Reliable (omega arith)
      (one-IsPlace, (two-IsPlace, tt)) refl refl (omega arith)
