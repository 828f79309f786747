-- ===== src/Consumer/Discovered.antt =====
-- What discover_etcd_services of src/consumer.c makes of the keys of provider's agents, where all of
-- them accept connections and no allocation fails, and whatever happens.
use dubbo_service_mesh.Base.{
  ℕ, ◌+◌, ◌≤◌, ◌<◌, ◌≡◌, refl, sym, ◌∙◌, ◌≢◌, subst, some, List, [], ◌∷◌, arith, length, ℤ,
}
use dubbo_service_mesh.Pool.{Pool}
use dubbo_service_mesh.Pool.Create
use dubbo_service_mesh.Net.{Host}
use dubbo_service_mesh.Consumer.{Consumer, Handler, Endpoint}
use dubbo_service_mesh.Consumer.Setup.{max_endpoints, parse_key, visit}
use dubbo_service_mesh.Consumer.Added.{Reliable, Serves, on_etcd_service_endpoint-Added}

-- The endpoints from the `i`-th on serve these addresses.
abbrev pub Listed : List (List ℕ × ℤ) → ℕ → (ℕ → Endpoint) → Type 0
Listed [] i f = Unit
Listed ((ip, port) ∷ more) i f = Serves ip port (f i) × Listed more (i + 1) f

-- The keys hold these addresses.
abbrev pub Parsed : List (List ℕ) → List (List ℕ × ℤ) → Type 0
Parsed [] [] = Unit
Parsed [] (a ∷ more) = ⊥
Parsed (key ∷ keys) [] = ⊥
Parsed (key ∷ keys) (a ∷ more) = (parse_key key ≡ some a) × Parsed keys more

-- The endpoints from the `i`-th on have the addresses in these keys.
abbrev pub Addressed : List (List ℕ) → ℕ → (ℕ → Endpoint) → Type 0
Addressed [] i f = Unit
Addressed (key ∷ keys) i f =
    (parse_key key ≡ some ((f i).ip, (f i).port)) × Addressed keys (i + 1) f

module _ {E : Type 0} (net : Host Handler E) (tries : ℕ) where
  -- Where every connection comes up and no allocation fails, discover_etcd_services makes an endpoint
  -- of each key, in order, if they are all in the array, and no others change.
  pub visit-Listed :
      (keys : List (List ℕ)) (found : List (List ℕ × ℤ)) (s : Consumer E)
      → Reliable net
      → 0 < tries
      → Parsed keys found
      → s.num_endpoints + length keys ≤ max_endpoints
      → (t : Consumer E) × (visit net tries keys s ≡ some t)
        × (t.num_endpoints ≡ s.num_endpoints + length keys)
        × Listed found s.num_endpoints t.endpoints
        × ((j : ℕ) → j < s.num_endpoints → t.endpoints j ≡ s.endpoints j)
  unfolding visit
  visit-Listed [] [] s rel more parsed room = (s, refl, omega arith, tt, λ j h. refl)
  visit-Listed [] (a ∷ found) s rel more parsed room = absurd parsed
  visit-Listed (key ∷ keys) [] s rel more parsed room = absurd parsed
  visit-Listed (key ∷ keys) ((ip, port) ∷ found) s rel more (first, rest) room =
      let (s1, got, one) =
        on_etcd_service_endpoint-Added net tries s key (ip, port) rel more first in
      let count = one.counted in
      let (t, done, counted, listed, kept) =
        visit-Listed keys found s1 rel more rest (omega arith) in
      (
        t,
        rw got done,
        omega arith,
        (
          subst (Serves ip port) (sym (kept s.num_endpoints (omega arith))) one.serves,
          subst (λ n. Listed found n t.endpoints) count listed,
        ),
        λ j h. kept j (omega arith) ∙ one.others j (omega arith),
      )

  -- What a key makes of the endpoints: the next one has its address, and no other changes.
  Places : List ℕ → (s t : Consumer E) → Type 0
  Places key s t =
      (t.num_endpoints ≡ s.num_endpoints + 1)
      × Addressed (key ∷ []) s.num_endpoints t.endpoints
      × ((j : ℕ) → j ≢ s.num_endpoints → t.endpoints j ≡ s.endpoints j)
