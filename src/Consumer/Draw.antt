-- ===== src/Consumer/Draw.antt =====
-- get_endpoint_min_latency_prob of src/consumer.c: an endpoint's share of the random numbers is its
-- score, 1000000 over its latency.
use dubbo_service_mesh.Base.{
  ℕ, zero, suc, ◌+◌, ◌-◌, ◌/◌, ◌%◌, ◌≤◌, ◌<◌, ◌≡◌, refl, ap, sym, subst, ◌∙◌, inl, inr, some, arith,
  true, false, ◌==◌, ltb, leb, lt→ltb, le→ltb, ltb→lt, sub_ℕ, ℤ, pos, ◌+ℤ◌, add-pos, Bool-cases,
  if◌then◌else◌,
}
use dubbo_service_mesh.Net.{update}
use dubbo_service_mesh.Consumer.{Consumer, Endpoint, put_endpoint}
use dubbo_service_mesh.Consumer.Balance.{
  latency, outstanding_of, get_endpoint_least_loaded, load_protect_threshold,
}
use dubbo_service_mesh.Consumer.Lottery.{
  score_at, score_of, set_scores, find_endpoint, draw, get_endpoint_min_latency_prob,
}

-- The share of an endpoint whose latency is `lat i + 1` milliseconds, and of those before `n`.
abbrev pub share : (lat : ℕ → ℕ) → ℕ → ℕ
share lat i = 1000000 / suc (lat i)

abbrev pub shares : (lat : ℕ → ℕ) → (n : ℕ) → ℕ
shares lat zero = 0
shares lat (suc n) = shares lat n + share lat n

latency_score :
    (endpoints : ℕ → Endpoint) (i j : ℕ) (x : ℤ)
    → latency (update endpoints i (record (endpoints i) { score = x })) j ≡ latency endpoints j
unfolding latency
latency_score endpoints i j x = elim (Bool-cases (j == i)) [
  | inl same ↦ let e : j ≡ i = ground arith in rw (same, e) refl
  | inr other ↦ rw other refl
]

-- The endpoint that a number falls on: in its share, counted from the first endpoint.
abbrev pub FallsOn : (lat : ℕ → ℕ) → (q e : ℕ) → Type 0
FallsOn lat q e = (shares lat e ≤ q) × (q < shares lat (suc e))

shares_next : (lat : ℕ → ℕ) (i : ℕ) → shares lat (i + 1) ≡ shares lat i + share lat i
shares_next lat i =
    let e : suc i ≡ i + 1 = omega arith in
    subst (λ k. shares lat k ≡ shares lat i + share lat i) e refl

draw-pos : (r n : ℕ) → 0 < n → draw r (pos n) ≡ some (r % n)
unfolding draw
draw-pos r zero h = absurd (omega arith)
draw-pos r (suc n) h = refl

module _ {E : Type 0} (lat : ℕ → ℕ) where
  -- The first `n` endpoints have the scores of their latencies.
  abbrev pub Scored : (n : ℕ) → Consumer E → Type 0
  Scored n s = (j : ℕ) → j < n → (s.endpoints j).score ≡ pos (share lat j)

  abbrev pub Latencies : (n : ℕ) → Consumer E → Type 0
  Latencies n s = (j : ℕ) → j < n → latency s.endpoints j ≡ some (pos (suc (lat j)))

  find_endpoint-here :
      (n i c p : ℕ) (s : Consumer E)
      → (s.endpoints i).score ≡ pos c
      → p < c
      → find_endpoint (suc n) i s (pos p) ≡ i
  unfolding find_endpoint
  find_endpoint-here n i c p s e h =
      let less : ltb (p + 0) (c + 0) ≡ true = lt→ltb (p + 0) (c + 0) (omega arith) in
      rw (e, less) refl

  find_endpoint-next :
      (n i c p : ℕ) (s : Consumer E)
      → (s.endpoints i).score ≡ pos c
      → c ≤ p
      → find_endpoint (suc n) i s (pos p) ≡ find_endpoint n (i + 1) s (pos (p - c))
  unfolding find_endpoint
  find_endpoint-next n i c p s e h =
      let more : ltb (p + 0) (c + 0) ≡ false = le→ltb (p + 0) (c + 0) (omega arith) in
      let rest : sub_ℕ (p + 0) (0 + c) ≡ pos (p - c) = ground arith in rw (e, more, rest) refl

  find_endpoint_lem :
      (n i : ℕ) (s : Consumer E) (p : ℕ)
      → Scored (i + n) s
      → shares lat i + p < shares lat (i + n)
      → (find_endpoint n i s (pos p) < i + n)
        × FallsOn lat (shares lat i + p) (find_endpoint n i s (pos p))
  find_endpoint_lem zero i s p v h =
      let all : shares lat (i + 0) ≡ shares lat i = ap (shares lat) (omega arith) in
      absurd (omega arith)
  find_endpoint_lem (suc n) i s p v h =
      let here = v i (omega arith) in
      elim (Bool-cases (ltb p (share lat i))) [
        | inl falls ↦
            let e = find_endpoint-here n i (share lat i) p s here (ground arith) in
            rw e (omega arith, (omega arith, omega (arith, ltb→lt p (share lat i) falls)))
        | inr beyond ↦
            let least : share lat i ≤ p = ground arith in
            let e = find_endpoint-next n i (share lat i) p s here least in
            let all : shares lat (i + 1 + n) ≡ shares lat (i + suc n) =
              ap (shares lat) (omega arith) in
            let one = shares_next lat i in
            let (low, (within, above)) =
              find_endpoint_lem n (i + 1) s (p - share lat i) (λ j less. v j (omega arith))
                (omega arith) in
            rw e (omega arith, (omega arith, omega arith))
      ]

  -- What one round leaves: a score, and the sum.
  abbrev scored : Consumer E → ℕ → ℤ → Consumer E
  scored s i x = record (put_endpoint s i (record (s.endpoints i) { score = x })) {
    total_score = s.total_score +ℤ x;
  }

  scored-Latencies : (n i : ℕ) (x : ℤ) (s : Consumer E) → Latencies n s → Latencies n (scored s i x)
  scored-Latencies n i x s v j less = latency_score s.endpoints i j x ∙ v j less

  scored-Scored :
      (i : ℕ) (s : Consumer E) → Scored i s → Scored (i + 1) (scored s i (pos (share lat i)))
  scored-Scored i s v j less = elim (Bool-cases (j == i)) [
    | inl same ↦ let e : j ≡ i = ground arith in rw (same, e) refl
    | inr other ↦ rw other (v j (ground arith))
  ]

  score_of-share :
      (i : ℕ) (s : Consumer E)
      → latency s.endpoints i ≡ some (pos (suc (lat i)))
      → score_of s i ≡ some (pos (share lat i))
  unfolding score_of score_at
  score_of-share i s e = rw e refl

  -- The loop leaves the scores of the latencies, their sum, and everything else but the endpoints.
  set_scores-Scored :
      (n i : ℕ) (s : Consumer E)
      → Latencies (i + n) s
      → Scored i s
      → s.total_score ≡ pos (shares lat i)
      → (t : Consumer E) × (set_scores n i s ≡ some t)
        × Scored (i + n) t
        × (t.total_score ≡ pos (shares lat (i + n)))
        × (t.num_endpoints ≡ s.num_endpoints)
  unfolding set_scores
  set_scores-Scored zero i s l v total = (
    s,
    refl,
    (λ j less. v j (omega arith)),
    total ∙ ap (λ k. pos (shares lat k)) (omega arith),
    refl,
  )
  set_scores-Scored (suc n) i s l v total =
      let x = share lat i in
      let sum : s.total_score +ℤ pos x ≡ pos (shares lat (i + 1)) =
        rw total (add-pos (shares lat i) x ∙ ap pos (sym (shares_next lat i))) in
      let all : i + 1 + n ≡ i + suc n = omega arith in
      let (t, looped, marks, end, same) =
        set_scores-Scored n (i + 1) (scored s i (pos x))
          (λ j less. scored-Latencies (i + suc n) i (pos x) s l j (omega arith))
          (scored-Scored i s v) sum in
      (
        t,
        rw (score_of-share i s (l i (omega arith))) looped,
        (λ j less. marks j (omega arith)),
        end ∙ ap (λ k. pos (shares lat k)) all,
        same,
      )

  find_endpoint_first :
      (n q : ℕ) (t : Consumer E)
      → Scored n t
      → q < shares lat n
      → (find_endpoint n 0 t (pos q) < n) × FallsOn lat q (find_endpoint n 0 t (pos q))
  find_endpoint_first n q t marks h =
      let all : shares lat (0 + n) ≡ shares lat n = ap (shares lat) (omega arith) in
      let (low, (within, above)) =
        find_endpoint_lem n 0 t q (λ j less. marks j (omega arith)) (omega arith) in
      (omega arith, (omega arith, omega arith))

  -- The call, once the scores are set.
  chosen :
      (r n : ℕ) (s t : Consumer E)
      → s.request_counter % 100 ≡ 0
      → set_scores s.num_endpoints 0
          (record s { request_counter = s.request_counter + 1; total_score = pos 0 })
        ≡ some t
      → t.num_endpoints ≡ n
      → t.total_score ≡ pos (shares lat n)
      → 0 < shares lat n
      → get_endpoint_min_latency_prob r s
        ≡ some (
          if leb load_protect_threshold
                (outstanding_of t.endpoints (find_endpoint n 0 t (pos (r % shares lat n))))
              then get_endpoint_least_loaded t.endpoints n
              else find_endpoint n 0 t (pos (r % shares lat n)),
          t,
        )
  unfolding get_endpoint_min_latency_prob
  chosen r n s t hundredth looped same total some_share =
      let drawn : draw r t.total_score ≡ some (r % shares lat n) =
        rw total (draw-pos r (shares lat n) some_share) in
      rw (hundredth, looped, drawn, same) refl

  -- On every hundredth call, where the latency of every endpoint is a positive number of milliseconds
  -- and some latency is at most 1000000: the random number, taken modulo the sum of the scores, falls
  -- on an endpoint in whose share it lies. That endpoint is the result, or the least loaded one where
  -- it is too busy.
  pub get_endpoint_min_latency_prob_lem :
      (r : ℕ) (s : Consumer E)
      → s.request_counter % 100 ≡ 0
      → Latencies s.num_endpoints s
      → 0 < shares lat s.num_endpoints
      → (e : ℕ) × (t : Consumer E) × (e < s.num_endpoints)
        × FallsOn lat (r % shares lat s.num_endpoints) e
        × (get_endpoint_min_latency_prob r s
            ≡ some (
              if leb load_protect_threshold (outstanding_of t.endpoints e)
                  then get_endpoint_least_loaded t.endpoints s.num_endpoints
                  else e,
              t,
            ))
  get_endpoint_min_latency_prob_lem r s hundredth l some_share =
      let n = s.num_endpoints in
      let start = record s { request_counter = s.request_counter + 1; total_score = pos 0 } in
      let (t, looped, marks, total, same) =
        set_scores-Scored n 0 start (λ j less. l j (omega arith)) (λ j less. absurd (omega arith))
          refl in
      let q = r % shares lat n in
      let none_more : 0 + n ≡ n = omega arith in
      let end = total ∙ ap (λ k. pos (shares lat k)) none_more in
      let (low, falls) =
        find_endpoint_first n q t (λ j less. marks j (omega arith)) (omega arith) in
      (
        find_endpoint n 0 t (pos q),
        t,
        low,
        falls,
        chosen r n s t hundredth looped same end some_share,
      )
