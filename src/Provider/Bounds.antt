-- ===== src/Provider/Bounds.antt =====
-- Within its buffers: the invariant on the positions of a provider agent's connection, and that
-- accepting keeps it.
use mathlib.Core.Option.{some-injective}
use dubbo_service_mesh.Base.{
  ℤ, ℕ, ◌≤◌, ◌≡◌, ◌⊎◌, sym, subst, inl, inr, true, false, some, arith, ◌==◌, Bool-cases,
  Option-cases, ltb_ℤ, pos,
}
use dubbo_service_mesh.Pool
use dubbo_service_mesh.Pool.{Ptr, null}
use dubbo_service_mesh.Pool.Keeps.{Keeps, get-Keeps}
use dubbo_service_mesh.Net.{Host, readable, update}
use dubbo_service_mesh.Provider.{
  ConnectionCaa, Provider, Handler, Parser, read_from_consumer_agent, connect, init_connection_ap,
  cleanup_connection_ap, ap_hooks, zero_caa,
}
use dubbo_service_mesh.Provider.Dubbo.{http_buf_size, req_buf_size, resp_buf_size}
use dubbo_service_mesh.Provider.Handlers.{
  init_connection_caa, caa_hooks, accept_caa, provider_http_handler,
}
use dubbo_service_mesh.Provider.Frame.{Refds}

-- The positions of a connection lie within its buffers, it sends only what on_http_body has put
-- together, and while it waits for a request it has nothing to send.
pub record IsBounded {P : Type 0} (c : ConnectionCaa P) : Type 0 where
  pub room_in : c.nread_in ≤ http_buf_size
  pub sent_req : c.nwrite_req ≤ c.len_req
  pub room_req : c.len_req ≤ req_buf_size
  pub room_resp : c.nread_resp ≤ resp_buf_size
  pub idle : (c.processing ≡ true) ⊎ (c.len_req ≡ 0)

-- Every connection object, in use or not.
abbrev pub StoreBounded : {P : Type 0} → (Ptr → ConnectionCaa P) → Type 0
StoreBounded f = (q : Ptr) → IsBounded (f q)

abbrev pub AllBounded : {P E : Type 0} → Provider P E → Type 0
AllBounded s = StoreBounded s.caa

pub update-StoreBounded :
    {P : Type 0} (f : Ptr → ConnectionCaa P) (p : Ptr) (c : ConnectionCaa P)
    → IsBounded c
    → StoreBounded f
    → StoreBounded (update f p c)
update-StoreBounded f p c b v q = elim (Bool-cases (q == p)) [
  | inl here ↦ rw here b
  | inr there ↦ rw there (v q)
]

pub bounded-Refds : {P : Type 0} → Refds {P = P} (λ f n. StoreBounded f)
bounded-Refds f n p fd v = update-StoreBounded f p _ (ground (arith, v p)) v

module _ {P E : Type 0} (http : Parser P (Provider P E)) (net : Host Handler E) (tries : ℕ) where
  init_connection_ap-AllBounded :
      (s : Provider P E) (a : Ptr) (r : ℕ × Provider P E)
      → init_connection_ap http net tries s a ≡ some r
      → AllBounded s
      → AllBounded r.1
  unfolding init_connection_ap
  init_connection_ap-AllBounded s a r got v =
      elim (Option-cases (connect http net tries tries s.host s.dubbo_port)) [
        | inl e ↦ absurd (ground arith)
        | inr (c, e) ↦ let same : s.caa ≡ r.1.caa = ground arith in subst StoreBounded same v
      ]

  cleanup_connection_ap-AllBounded :
      (s : Provider P E) (a : Ptr)
      → AllBounded s
      → AllBounded (cleanup_connection_ap http net tries s a)
  unfolding cleanup_connection_ap
  cleanup_connection_ap-AllBounded s a v = elim (Bool-cases (ltb_ℤ (pos 0) (s.ap a).fd)) [
    | inl live ↦ rw live v
    | inr dead ↦ rw dead v
  ]

  pub ap_hooks-Keeps : Keeps AllBounded (ap_hooks http net tries)
  ap_hooks-Keeps = record {
    alloc = λ f e. cc;
    init = λ f e w d r got v.
        init_connection_ap-AllBounded w d r
          (subst (λ g. g w d ≡ some r) (some-injective _ _ (sym e)) got) v;
    cleanup = λ f e w d v.
        subst (λ g. AllBounded (g w d)) (some-injective _ _ e)
          (cleanup_connection_ap-AllBounded w d v);
    free = λ f e. cc;
    malloc = λ w n v. v;
    dealloc = λ w d v. v;
    memset = λ w d n v. v;
  }

  init_connection_caa-AllBounded :
      (s : Provider P E) (p : Ptr) (r : ℕ × Provider P E)
      → init_connection_caa http net tries s p ≡ some r
      → AllBounded s
      → AllBounded r.1
  unfolding init_connection_caa
  init_connection_caa-AllBounded s p r got v =
      elim (Option-cases (Pool.get (ap_hooks http net tries) s.ap_pool s)) [
        | inl e ↦ absurd (ground arith)
        | inr (t, e) ↦
            let w =
              get-Keeps AllBounded (ap_hooks http net tries) ap_hooks-Keeps s.ap_pool s t e v in
            let c = record ((t.2).caa p) { conn_ap = t.0 } in
            elim (Bool-cases (t.0 == null)) [
              | inl absent ↦ absurd (ground arith)
              | inr present ↦
                  let same : update (t.2).caa p c ≡ r.1.caa = ground arith in
                  subst StoreBounded same
                    (update-StoreBounded (t.2).caa p c (ground (arith, w p)) w)
            ]
      ]

  pub caa_hooks-Keeps : Keeps AllBounded (caa_hooks http net tries)
  caa_hooks-Keeps = record {
    alloc = λ f e. cc;
    init = λ f e w d r got v.
        init_connection_caa-AllBounded w d r
          (subst (λ g. g w d ≡ some r) (some-injective _ _ (sym e)) got) v;
    cleanup = λ f e w d v. subst (λ g. AllBounded (g w d)) (some-injective _ _ e) v;
    free = λ f e. cc;
    malloc = λ w n v. v;
    dealloc = λ w d v. v;
    memset = λ w d n v. update-StoreBounded w.caa d (zero_caa http) (ground arith) v;
  }

  accept_caa-AllBounded :
      (s t : Provider P E) (fd : ℤ) (p : Ptr)
      → accept_caa http net tries s fd p ≡ some t
      → AllBounded s
      → AllBounded t
  unfolding accept_caa
  accept_caa-AllBounded s t fd p got v = elim (Bool-cases (p == null)) [
    | inl absent ↦ let same : s.caa ≡ t.caa = ground arith in subst StoreBounded same v
    | inr present ↦
        let c = record (s.caa p) {
          fd = fd;
          nread_in = 0;
          len_req = 0;
          nwrite_req = 0;
          nread_resp = 0;
          parser = http.init;
          processing = false;
        } in
        elim (Bool-cases (net.create_file_event s.host fd readable read_from_consumer_agent p).0) [
          | inl fine ↦
              let same : update s.caa p c ≡ t.caa = ground arith in
              subst StoreBounded same (update-StoreBounded s.caa p c (ground arith) v)
          | inr error ↦ absurd (ground arith)
        ]
  ]

  -- Accepting a connection leaves every connection object within its buffers.
  pub provider_http_handler-AllBounded :
      (s t : Provider P E) (fd : ℤ)
      → provider_http_handler http net tries s fd ≡ some t
      → AllBounded s
      → AllBounded t
  unfolding provider_http_handler
  provider_http_handler-AllBounded s t fd got v =
      elim (Option-cases (Pool.get (caa_hooks http net tries) s.caa_pool s)) [
        | inl e ↦ absurd (ground arith)
        | inr (r, e) ↦
            let w =
              get-Keeps AllBounded (caa_hooks http net tries) caa_hooks-Keeps s.caa_pool s r e v in
            accept_caa-AllBounded (record (r.2) { caa_pool = r.1 }) t fd r.0 (ground arith) w
      ]
