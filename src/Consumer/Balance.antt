-- ===== src/Consumer/Balance.antt =====
-- The choice of an endpoint in src/consumer.c.
use dubbo_service_mesh.Base.{
  ℕ, zero, suc, ◌+◌, ◌-◌, Option, none, some, ltb, leb, ◌==◌, ℤ, ltb_ℤ, div_ℤ, if◌then◌else◌, ◌>>=◌,
}
use dubbo_service_mesh.Consumer.{Endpoint}

abbrev pub load_balance_threshold : ℕ
load_balance_threshold = 10000

abbrev pub load_protect_threshold : ℕ
load_protect_threshold = 100

module _ (endpoints : ℕ → Endpoint) where
  abbrev pub outstanding_of : ℕ → ℕ
  outstanding_of i = (endpoints i).conn_pool.outstanding

  -- The loop from `i` on, with `n` rounds left: the least load so far and who has it.
  unfoldable pub scan_load : (n i min_outstanding endpoint : ℕ) → ℕ
  scan_load zero i min_outstanding endpoint = endpoint
  scan_load (suc n) i min_outstanding endpoint =
      let less = ltb (outstanding_of i) min_outstanding in
      scan_load n (i + 1) (if less then outstanding_of i else min_outstanding)
        (if less then i else endpoint)

  -- get_endpoint_least_loaded. The `int` copy of a load is compared as the uint32_t that it was.
  unfoldable pub get_endpoint_least_loaded : (num_endpoints : ℕ) → ℕ
  unfolding scan_load
  get_endpoint_least_loaded num_endpoints = scan_load (num_endpoints - 1) 1 (outstanding_of 0) 0

  -- total_ms / num_reqs; a division by zero is `none`.
  unfoldable pub latency : ℕ → Option ℤ
  latency i =
      if (endpoints i).num_reqs == 0
      then none
      else some (div_ℤ (endpoints i).total_ms (endpoints i).num_reqs)

  unfoldable pub scan_latency : (n i : ℕ) → ℤ → (endpoint : ℕ) → Option ℕ
  scan_latency zero i min_latency endpoint = some endpoint
  scan_latency (suc n) i min_latency endpoint = latency i >>= λ l.
      let less = ltb_ℤ l min_latency in
      scan_latency n (i + 1) (if less then l else min_latency) (if less then i else endpoint)

  -- get_endpoint_min_latency.
  unfoldable pub get_endpoint_min_latency : (num_endpoints : ℕ) → Option ℕ
  unfolding latency scan_latency get_endpoint_least_loaded
  get_endpoint_min_latency num_endpoints =
      if ltb (endpoints 0).num_reqs load_balance_threshold
      then some (get_endpoint_least_loaded num_endpoints)
      else (latency 0 >>= λ first. scan_latency (num_endpoints - 1) 1 first 0 >>= λ endpoint. some (
          if leb load_protect_threshold (outstanding_of endpoint)
          then get_endpoint_least_loaded num_endpoints
          else endpoint))
