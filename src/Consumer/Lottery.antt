-- ===== src/Consumer/Lottery.antt =====
-- get_endpoint_min_latency_prob of src/consumer.c, which draws an endpoint with a chance that falls
-- with its latency. No handler calls it. Its log lines are DEBUG
-- ones, which log_msg of src/log.h drops with their arguments.
use dubbo_service_mesh.Base.{
  ℕ, zero, suc, ◌+◌, ◌/◌, ◌%◌, ◌==◌, leb, Option, none, some, ℤ, pos, negsuc, ◌+ℤ◌, sub_ℕ, pos_part,
  neg_part, ltb_ℤ, if◌then◌else◌, ◌>>=◌,
}
use dubbo_service_mesh.Consumer.{Consumer, put_endpoint}
use dubbo_service_mesh.Consumer.Balance.{
  latency, outstanding_of, get_endpoint_least_loaded, load_protect_threshold,
}

-- rand() % total_score for `rand() = r`; nothing if it is a division by zero.
unfoldable pub draw : (r : ℕ) → ℤ → Option ℕ
draw r (pos zero) = none
draw r (pos (suc n)) = some (r % suc n)
draw r (negsuc n) = some (r % suc n)

-- 1000000 / latency; nothing if it is a division by zero.
unfoldable pub score_at : ℤ → Option ℤ
score_at (pos zero) = none
score_at (pos (suc n)) = some (pos (1000000 / suc n))
score_at (negsuc n) = some (sub_ℕ 0 (1000000 / suc n))

module _ {E : Type 0} where
  unfoldable pub score_of : Consumer E → ℕ → Option ℤ
  unfolding score_at
  score_of s i = latency s.endpoints i >>= score_at

  -- The loop that gives every endpoint its score and adds them up.
  unfoldable pub set_scores : (n i : ℕ) → Consumer E → Option (Consumer E)
  unfolding score_of
  set_scores zero i s = some s
  set_scores (suc n) i s = score_of s i >>= λ score.
      set_scores n (i + 1) (record (put_endpoint s i (record (s.endpoints i) { score = score })) {
        total_score = s.total_score +ℤ score;
      })

  -- The loop that looks for the endpoint the pointer falls on; the first one if there is none.
  unfoldable pub find_endpoint : (n i : ℕ) → Consumer E → (pointer : ℤ) → ℕ
  find_endpoint zero i s pointer = 0
  find_endpoint (suc n) i s pointer =
      let score = (s.endpoints i).score in
      let rest = sub_ℕ (pos_part pointer + neg_part score) (neg_part pointer + pos_part score) in
      let next = find_endpoint n (i + 1) s rest in if ltb_ℤ pointer score then i else next

  unfoldable pub get_endpoint_min_latency_prob : (r : ℕ) → Consumer E → Option (ℕ × Consumer E)
  unfolding set_scores draw find_endpoint
  get_endpoint_min_latency_prob r s =
      let s1 = record s { request_counter = s.request_counter + 1 } in
      let fresh = set_scores s.num_endpoints 0 (record s1 { total_score = pos 0 }) in
      (if s.request_counter % 100 == 0 then fresh else some s1) >>= λ s2.
      draw r s2.total_score >>= λ pointer.
      let i = find_endpoint s2.num_endpoints 0 s2 (pos pointer) in
      let busy = leb load_protect_threshold (outstanding_of s2.endpoints i) in
      some (if busy then get_endpoint_least_loaded s2.endpoints s2.num_endpoints else i, s2)
