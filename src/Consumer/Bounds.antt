-- ===== src/Consumer/Bounds.antt =====
-- Within its buffers: the invariant on the positions of a connection, and that accepting keeps it.
use dubbo_service_mesh.Base.{
  ℤ, ℕ, ◌≤◌, ◌≡◌, subst, inl, inr, some, arith, ◌==◌, Bool-cases, Option-cases,
}
use dubbo_service_mesh.Pool
use dubbo_service_mesh.Pool.{Ptr, null}
use dubbo_service_mesh.Pool.Keeps.{Keeps, get-Keeps}
use dubbo_service_mesh.Net.{Host, readable, update}
use dubbo_service_mesh.Consumer.{
  ConnectionCa, Consumer, Handler, req_buf_size, resp_buf_size, ca_hooks, put_ca, zero_ca,
  read_from_consumer,
}
use dubbo_service_mesh.Consumer.Frame.{Rewires, create-On}
use dubbo_service_mesh.Consumer.Handlers.{accept_ca, consumer_http_handler}

-- The positions of a connection lie within its buffers, and it sends only what it has read.
pub record IsBounded (c : ConnectionCa) : Type 0 where
  pub sent_in : c.nwrite_in ≤ c.nread_in
  pub room_in : c.nread_in ≤ req_buf_size
  pub sent_out : c.nwrite_out ≤ c.nread_out
  pub room_out : c.nread_out ≤ resp_buf_size

-- Every connection object, in use or not.
abbrev pub StoreBounded : (Ptr → ConnectionCa) → Type 0
StoreBounded f = (q : Ptr) → IsBounded (f q)

abbrev pub AllBounded : {E : Type 0} → Consumer E → Type 0
AllBounded s = StoreBounded s.ca

pub update-StoreBounded :
    (f : Ptr → ConnectionCa) (p : Ptr) (c : ConnectionCa)
    → IsBounded c
    → StoreBounded f
    → StoreBounded (update f p c)
update-StoreBounded f p c b v q = elim (Bool-cases (q == p)) [
  | inl here ↦ rw here b
  | inr there ↦ rw there (v q)
]

pub bounded-Rewires : Rewires StoreBounded
bounded-Rewires f p fd a v = update-StoreBounded f p _ (ground (arith, v p)) v

module _ {E : Type 0} (net : Host Handler E) (tries : ℕ) where
  pub ca_hooks-Keeps : Keeps AllBounded (ca_hooks net)
  ca_hooks-Keeps = record {
    alloc = λ f e. cc;
    init = λ f e. cc;
    cleanup = λ f e. cc;
    free = λ f e. cc;
    malloc = λ w n v. v;
    dealloc = λ w d v. v;
    memset = λ w d n v. update-StoreBounded w.ca d _ (omega arith) v;
  }

  accept_ca-AllBounded :
      (s : Consumer E) (fd : ℤ) (p : Ptr) → AllBounded s → AllBounded (accept_ca net tries s fd p)
  unfolding accept_ca
  accept_ca-AllBounded s fd p v = elim (Bool-cases (p == null)) [
    | inl absent ↦ rw absent v
    | inr present ↦ rw present (
        create-On net tries StoreBounded bounded-Rewires (put_ca s p (record zero_ca { fd = fd }))
          fd readable read_from_consumer p (update-StoreBounded s.ca p _ (omega arith) v))
  ]

  -- Accepting a connection leaves every connection object within its buffers.
  pub consumer_http_handler-AllBounded :
      (s t : Consumer E) (fd : ℤ)
      → consumer_http_handler net tries s fd ≡ some t
      → AllBounded s
      → AllBounded t
  unfolding consumer_http_handler
  consumer_http_handler-AllBounded s t fd got v =
      elim (Option-cases (Pool.get (ca_hooks net) s.ca_pool s)) [
        | inl e ↦ absurd (ground arith)
        | inr (r, e) ↦
            let w = get-Keeps AllBounded (ca_hooks net) ca_hooks-Keeps s.ca_pool s r e v in
            let s' = record (r.2) { ca_pool = r.1 } in
            let same : accept_ca net tries s' fd r.0 ≡ t = ground arith in
            subst (λ x. AllBounded x) same (accept_ca-AllBounded s' fd r.0 w)
      ]
