-- ===== src/Consumer/Choice.antt =====
-- Which endpoint a request goes to.
use dubbo_service_mesh.Base.{
  ℕ, zero, suc, ◌+◌, ◌-◌, ◌≤◌, ◌<◌, ◌≡◌, refl, ◌⊎◌, inl, inr, some, arith, ltb, leb, ℤ, ltb_ℤ,
  div_ℤ, ◌≤ℤ◌, ◌<ℤ◌, if◌then◌else◌, Bool-cases,
}
use native.Mathlib.Nat.{add-zero}
use native.Mathlib.Numerals.{add-one}
use dubbo_service_mesh.Consumer.{Endpoint}
use dubbo_service_mesh.Consumer.Balance.{
  outstanding_of, scan_load, get_endpoint_least_loaded, latency, scan_latency,
  get_endpoint_min_latency, load_balance_threshold, load_protect_threshold,
}

module _ (endpoints : ℕ → Endpoint) where
  -- The mean latency, as the code computes it.
  abbrev mean : ℕ → ℤ
  mean i = div_ℤ (endpoints i).total_ms (endpoints i).num_reqs

  -- Endpoint `r` is the first of the first `n` with the least load.
  pub record LeastLoaded (n r : ℕ) : Type 0 where
    pub in_range : r < n
    pub least : (j : ℕ) → j < n → outstanding_of endpoints r ≤ outstanding_of endpoints j
    pub first : (j : ℕ) → j < r → outstanding_of endpoints r < outstanding_of endpoints j

  step-LeastLoaded :
      (i e : ℕ)
      → LeastLoaded i e
      → LeastLoaded
          (suc i)
          (if ltb (outstanding_of endpoints i) (outstanding_of endpoints e) then i else e)
  step-LeastLoaded i e v = record {
    in_range = ground (arith, v.in_range);
    least = λ j h. ground (arith, v.least j, v.least e);
    first = λ j h. ground (arith, v.least j, v.first j);
  }

  scan_load-LeastLoaded :
      (n i e m : ℕ)
      → LeastLoaded i e
      → m ≡ outstanding_of endpoints e
      → LeastLoaded (i + n) (scan_load endpoints n i m e)
  unfolding scan_load
  scan_load-LeastLoaded zero i e m v same = rw add-zero v
  scan_load-LeastLoaded (suc n) i e m v same =
      let less = ltb (outstanding_of endpoints i) m in
      let v' : LeastLoaded (i + 1) (if less then i else e) =
        rw (same, add-one) (step-LeastLoaded i e v) in
      let count : i + 1 + n ≡ i + suc n = omega arith in
      rw count at (
        scan_load-LeastLoaded n (i + 1) (if less then i else e)
          (if less then outstanding_of endpoints i else m) v' (ground arith))

  -- With at least one endpoint, get_endpoint_least_loaded picks the first one of least load.
  pub get_endpoint_least_loaded-LeastLoaded :
      (num_endpoints : ℕ)
      → 0 < num_endpoints
      → LeastLoaded num_endpoints (get_endpoint_least_loaded endpoints num_endpoints)
  unfolding get_endpoint_least_loaded
  get_endpoint_least_loaded-LeastLoaded n some_endpoint =
      let one : LeastLoaded 1 0 = record {
        in_range = omega arith;
        least = λ j h. ground arith;
        first = λ j h. elim h [ ];
      } in
      let e : 1 + (n - 1) ≡ n = omega arith in
      rw e at (scan_load-LeastLoaded (n - 1) 1 0 (outstanding_of endpoints 0) one refl)

  -- Endpoint `r` is the first of the first `n` with the least mean latency.
  pub record Fastest (n r : ℕ) : Type 0 where
    pub in_range : r < n
    pub least : (j : ℕ) → j < n → mean r ≤ℤ mean j
    pub first : (j : ℕ) → j < r → mean r <ℤ mean j

  step-Fastest :
      (i e : ℕ) → Fastest i e → Fastest (suc i) (if ltb_ℤ (mean i) (mean e) then i else e)
  step-Fastest i e v = record {
    in_range = ground (arith, v.in_range);
    least = λ j h. ground (arith, v.least j, v.least e);
    first = λ j h. ground (arith, v.least j, v.first j);
  }

  latency-mean : (i : ℕ) → 0 < (endpoints i).num_reqs → latency endpoints i ≡ some (mean i)
  unfolding latency
  latency-mean i h = ground arith

  scan_latency-Fastest :
      (n i e : ℕ) (m : ℤ)
      → ((j : ℕ) → j < i + n → 0 < (endpoints j).num_reqs)
      → Fastest i e
      → m ≡ mean e
      → (r : ℕ) × (scan_latency endpoints n i m e ≡ some r) × Fastest (i + n) r
  unfolding scan_latency
  scan_latency-Fastest zero i e m served v same = (e, refl, rw add-zero v)
  scan_latency-Fastest (suc n) i e m served v same =
      let less = ltb_ℤ (mean i) m in
      let v' : Fastest (i + 1) (if less then i else e) = rw (same, add-one) (step-Fastest i e v) in
      let count : i + 1 + n ≡ i + suc n = omega arith in
      let (r, found, f) =
        scan_latency-Fastest n (i + 1) (if less then i else e) (if less then mean i else m)
          (λ j h. served j (omega arith)) v' (ground arith) in
      (r, rw (latency-mean i (served i (omega arith))) found, rw count at f)

  -- Once every endpoint that is there has served a request, get_endpoint_min_latency returns an
  -- endpoint: the least loaded one while endpoint 0 has served fewer than 10000 requests, or if 100
  -- connections of the fastest one are in use; otherwise the fastest one.
  pub get_endpoint_min_latency_lem :
      (num_endpoints : ℕ)
      → 0 < num_endpoints
      → ((j : ℕ) → j < num_endpoints → 0 < (endpoints j).num_reqs)
      → (f r : ℕ) × (get_endpoint_min_latency endpoints num_endpoints ≡ some r)
        × Fastest num_endpoints f
        × ((((endpoints 0).num_reqs < load_balance_threshold)
                ⊎ (load_protect_threshold ≤ outstanding_of endpoints f))
              × LeastLoaded num_endpoints r
            ⊎ (load_balance_threshold ≤ (endpoints 0).num_reqs)
              × (outstanding_of endpoints f < load_protect_threshold)
              × (r ≡ f))
  unfolding get_endpoint_min_latency
  get_endpoint_min_latency_lem n some_endpoint served =
      let one : Fastest 1 0 = record {
        in_range = omega arith;
        least = λ j h. ground arith;
        first = λ j h. elim h [ ];
      } in
      let count : 1 + (n - 1) ≡ n = omega arith in
      let (f, found, v) =
        scan_latency-Fastest (n - 1) 1 0 (mean 0) (λ j h. served j (omega arith)) one refl in
      let v' : Fastest n f = rw count at v in
      let first = latency-mean 0 (served 0 some_endpoint) in
      let light = get_endpoint_least_loaded-LeastLoaded n some_endpoint in
      let chosen = get_endpoint_least_loaded endpoints n in
      elim (Bool-cases (ltb (endpoints 0).num_reqs load_balance_threshold)) [
        | inl starting ↦ (f, chosen, rw starting, v', inl (inl (ground arith), light))
        | inr started ↦
            elim (Bool-cases (leb load_protect_threshold (outstanding_of endpoints f))) [
              | inl busy ↦
                  (f, chosen, rw (started, first, found, busy), v', inl (inr (ground arith), light))
              | inr idle ↦ (
                f,
                f,
                rw (started, first, found, idle),
                v',
                inr (ground arith, ground arith, refl),
              )
            ]
      ]
