-- ===== src/Provider/Register.antt =====
-- The registration of a provider's agent at etcd (src/provider.c): register_etcd_service and
-- deregister_etcd_service. get_local_ip_addr, which is in Net.Interface, and the etcd client are
-- arguments.
use dubbo_service_mesh.Base.{ℕ, ℤ, Option, none, some, List, ◌∷◌, ◌++◌, length, ltb, if◌then◌else◌}
use dubbo_service_mesh.Text.{bytes, decimal_int}

abbrev pub service_directory : List ℕ
service_directory = bytes "/dubbomesh/com.alibaba.dubbo.performance.demo.provider.IHelloService"

-- sizeof(etcd_key)
abbrev pub etcd_key_size : ℕ
etcd_key_size = 128

-- What sprintf prints.
unfoldable pub service_key : (ip_addr : List ℕ) → (server_port : ℤ) → List ℕ
service_key ip_addr server_port =
    service_directory ++ b'/' ∷ (ip_addr ++ b':' ∷ decimal_int server_port)

module _ {E : Type 0} where
  -- The key and the host after it; nothing if the key does not fit. What etcd_set returns is only
  -- logged.
  unfoldable pub register_etcd_service :
      (get_local_ip_addr : E → List ℕ × E)
      → (etcd_set : E → List ℕ → E) → E
      → (server_port : ℤ) → Option (List ℕ × E)
  unfolding service_key
  register_etcd_service get_local_ip_addr etcd_set e server_port =
      let (ip_addr, e1) = get_local_ip_addr e in
      let key = service_key ip_addr server_port in
      if ltb (length key) etcd_key_size then some (key, etcd_set e1 key) else none

  unfoldable pub deregister_etcd_service : (etcd_del : E → List ℕ → E) → E → (etcd_key : List ℕ) → E
  deregister_etcd_service etcd_del e etcd_key = etcd_del e etcd_key

  -- provider_cleanup
  unfoldable pub provider_cleanup : (etcd_del : E → List ℕ → E) → E → (etcd_key : List ℕ) → E
  unfolding deregister_etcd_service
  provider_cleanup etcd_del e etcd_key = deregister_etcd_service etcd_del e etcd_key
