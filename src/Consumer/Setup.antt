-- ===== src/Consumer/Setup.antt =====
-- The start of the consumer's agent (src/consumer.c): consumer_init, and on_etcd_service_endpoint,
-- which makes an endpoint of a key that a provider's agent has registered.
use dubbo_service_mesh.Base.{
  ℕ, ◌+◌, ◌==◌, Option, none, some, List, [], ◌∷◌, length, drop, ℤ, pos, if◌then◌else◌, ◌>>=◌,
}
use dubbo_service_mesh.Pool.{Pool}
use dubbo_service_mesh.Pool.Create
use dubbo_service_mesh.Net.{Host}
use dubbo_service_mesh.Net.Buffer.{size_sub}
use dubbo_service_mesh.Text.{strrchr, bounded_string, atoi}
use dubbo_service_mesh.Consumer.{Consumer, Handler, put_endpoint, ca_hooks}
use dubbo_service_mesh.Consumer.Connect.{apa_hooks}

-- The length of the array `endpoints`.
abbrev pub max_endpoints : ℕ
max_endpoints = 3

-- NUM_CONN_FOR_CONSUMER and NUM_CONN_PER_PROVIDER
abbrev pub num_conn_for_consumer : ℕ
num_conn_for_consumer = 1024

abbrev pub num_conn_per_provider : ℕ
num_conn_per_provider = 512

-- sizeof(connection_ca_t) and sizeof(connection_apa_t), with eight bytes to a pointer and a long.
abbrev pub sizeof_ca : ℕ
sizeof_ca = 2352

abbrev pub sizeof_apa : ℕ
sizeof_apa = 24

-- The address in a key `.../ip:port`; nothing if strrchr finds nothing.
unfoldable pub parse_key : List ℕ → Option (List ℕ × ℤ)
parse_key key = strrchr b'/' key >>= λ slash. strrchr b':' key >>= λ colon.
    let ip_and_port = drop 1 slash in
    let port = drop 1 colon in
    let ip =
      bounded_string (size_sub (size_sub (length ip_and_port) (length port)) 1) ip_and_port in
    some (ip, atoi port)

module _ {E : Type 0} (net : Host Handler E) (tries : ℕ) where
  -- A pool that could not be made is NULL, which PoolPrintSaturation reads.
  unfoldable pub keep_pool : ℕ → Option Pool × Consumer E → Option (Consumer E)
  keep_pool i (made, s) = elim made [
    | none ↦ none
    | some q ↦ some (record (put_endpoint s i (record (s.endpoints i) { conn_pool = q })) {
      num_endpoints = s.num_endpoints + 1;
    })
  ]

  -- The code has no check of the index: what a write behind the array of three does to other memory is
  -- not modelled, here it goes to one more endpoint.
  unfoldable pub on_etcd_service_endpoint : Consumer E → (key : List ℕ) → Option (Consumer E)
  unfolding parse_key keep_pool
  on_etcd_service_endpoint s key =
      let i = s.num_endpoints in
      let add = λ (ip : List ℕ) (port : ℤ).
        let s1 = put_endpoint s i (record (s.endpoints i) {
          ip = ip;
          port = port;
          total_ms = pos 1;
          num_reqs = 1;
          score = pos 0;
        }) in
        Create.init (apa_hooks net tries i) num_conn_per_provider num_conn_per_provider sizeof_apa
          s1
        >>= keep_pool i in
      parse_key key >>= λ (ip, port). add ip port

  unfoldable pub visit : List (List ℕ) → Consumer E → Option (Consumer E)
  unfolding on_etcd_service_endpoint
  visit [] s = some s
  visit (key ∷ keys) s = on_etcd_service_endpoint s key >>= visit keys

  -- `get_directory` is etcd_get_directory: the keys that it calls back with, and what it returns. A
  -- return value other than 0 ends the process.
  unfoldable pub discover_etcd_services :
      (get_directory : E → List (List ℕ) × (ℕ × E)) → Consumer E → Option (Consumer E)
  unfolding visit
  discover_etcd_services get_directory s =
      let (keys, answer) = get_directory s.host in
      let (ret, e) = answer in
      visit keys (record s { host = e }) >>= λ s'. if ret == 0 then some s' else none

  unfoldable pub keep_ca_pool : Option Pool × Consumer E → Option (Consumer E)
  keep_ca_pool (made, s) = elim made [ none ↦ none | some q ↦ some (record s { ca_pool = q }) ]

  -- srand is left out: the one function that draws a random number is not called, and has it as an
  -- argument.
  unfoldable pub consumer_init :
      (get_directory : E → List (List ℕ) × (ℕ × E)) → Consumer E → Option (Consumer E)
  unfolding discover_etcd_services keep_ca_pool
  consumer_init get_directory s = discover_etcd_services get_directory s >>= λ s1.
      Create.init (ca_hooks net) num_conn_for_consumer num_conn_for_consumer sizeof_ca s1
      >>= keep_ca_pool

  -- consumer_cleanup only logs.
  unfoldable pub consumer_cleanup : Consumer E → Consumer E
  consumer_cleanup s = s
