-- ===== src/Consumer/DrawTests.antt =====
-- The theorem on get_endpoint_min_latency_prob, at two endpoints with latencies of 10 and 20 ms.
use dubbo_service_mesh.Base.{
  ℕ, suc, ◌+◌, ◌*◌, ◌/◌, ◌%◌, ◌<◌, ◌≡◌, refl, ap, some, List, arith, leb, pos, if◌then◌else◌,
}
use dubbo_service_mesh.Consumer.{Consumer, Endpoint}
use dubbo_service_mesh.Consumer.Balance.{
  latency, outstanding_of, get_endpoint_least_loaded, load_protect_threshold,
}
use dubbo_service_mesh.Consumer.Lottery.{get_endpoint_min_latency_prob}
use dubbo_service_mesh.Consumer.Draw.{FallsOn, Latencies, shares, get_endpoint_min_latency_prob_lem}
use dubbo_service_mesh.Consumer.Tests.{running}

abbrev uneven : ℕ → Endpoint
uneven i = record (running.endpoints i) { total_ms = pos (10 * (i + 1)); num_reqs = 1 }

abbrev drawing : Consumer (List ℕ)
drawing = record running { endpoints = uneven }

abbrev lat : ℕ → ℕ
lat i = 10 * i + 9

drawing-Latencies : Latencies lat 2 drawing
unfolding latency
drawing-Latencies j less =
    let ms : 10 * (j + 1) / 1 ≡ suc (10 * j + 9) = omega arith in ap (λ k. some (pos k)) ms

get_endpoint_min_latency_prob_lem_example :
    (e : ℕ) × (t : Consumer (List ℕ)) × (e < 2)
    × FallsOn lat (120000 % shares lat 2) e
    × (get_endpoint_min_latency_prob 120000 drawing
        ≡ some (
          if leb load_protect_threshold (outstanding_of t.endpoints e)
              then get_endpoint_least_loaded t.endpoints 2
              else e,
          t,
        ))
get_endpoint_min_latency_prob_lem_example =
    get_endpoint_min_latency_prob_lem lat 120000 drawing refl drawing-Latencies (omega arith)
