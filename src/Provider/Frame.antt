-- ===== src/Provider/Frame.antt =====
-- What the provider's handlers do beyond the buffers: aborting, registering events, returning pooled
-- objects. All this touches only `fd` of a connection.
use dubbo_service_mesh.Base.{ℤ, ℕ, inl, inr, ◌==◌, negsuc, none, Bool-cases}
use dubbo_service_mesh.Pool
use dubbo_service_mesh.Pool.{Ptr, null, Hooks}
use dubbo_service_mesh.Pool.Keeps.{Keeps, return-Keeps}
use dubbo_service_mesh.Net.{Host, readable, writable, update}
use dubbo_service_mesh.Provider.{
  ConnectionCaa, Provider, Handler, Parser, write_to_local_provider, read_from_local_provider,
}
use dubbo_service_mesh.Provider.Handlers.{
  caa_hooks, return_caa, abort_ap, abort_connection_caa, create_or_abort, watch_local,
}

-- A property of the connections and the request id that does not look at `fd`.
abbrev pub Refds : {P : Type 0} → ((Ptr → ConnectionCaa P) → ℕ → Type 0) → Type 0
Refds Q =
    (f : Ptr → ConnectionCaa _) (n : ℕ) (p : Ptr) (fd : ℤ)
    → Q f n
    → Q (update f p (record (f p) { fd = fd })) n

module _ {P E : Type 0} (http : Parser P (Provider P E)) (net : Host Handler E) (tries : ℕ)
    (Q : (Ptr → ConnectionCaa P) → ℕ → Type 0) (refd : Refds Q) where
  abbrev pub On : Provider P E → Type 0
  On s = Q s.caa s.cur_request_id

  -- PoolReturn calls neither Init nor the memset that stands for it.
  abbrev quiet : Hooks (Provider P E)
  quiet = record (caa_hooks http net tries) { init = none; cleanup = none; memset = λ s p n. s }

  quiet-Keeps : Keeps On quiet
  quiet-Keeps = record {
    alloc = λ f e. cc;
    init = λ f e. cc;
    cleanup = λ f e. cc;
    free = λ f e. cc;
    malloc = λ w n v. v;
    dealloc = λ w d v. v;
    memset = λ w d n v. v;
  }

  pub return_caa-On : (s : Provider P E) (p : Ptr) → On s → On (return_caa http net tries s p)
  unfolding return_caa Pool.return Pool.call_cleanup
  return_caa-On s p v = return-Keeps On quiet quiet-Keeps s.caa_pool s p v

  abort_ap-On : (s : Provider P E) (a : Ptr) → On s → On (abort_ap http net tries s a)
  unfolding abort_ap
  abort_ap-On s a v = elim (Bool-cases (a == null)) [
    | inl absent ↦ rw absent v
    | inr present ↦ rw present v
  ]

  pub abort-On : (s : Provider P E) (p : Ptr) → On s → On (abort_connection_caa http net tries s p)
  unfolding abort_connection_caa
  abort-On s p v =
      return_caa-On _ p
        (abort_ap-On _ (s.caa p).conn_ap (refd s.caa s.cur_request_id p (negsuc 0) v))

  pub create-On :
      (s : Provider P E) (fd : ℤ) (mask : ℕ) (f : Handler) (p : Ptr)
      → On s
      → On (create_or_abort http net tries s fd mask f p)
  unfolding create_or_abort
  create-On s fd mask f p v = elim (Bool-cases (net.create_file_event s.host fd mask f p).0) [
    | inl fine ↦ rw fine v
    | inr error ↦
        rw error (abort-On (record s { host = (net.create_file_event s.host fd mask f p).1 }) p v)
  ]

  pub watch-On : (s : Provider P E) (p a : Ptr) → On s → On (watch_local http net tries s p a)
  unfolding watch_local
  watch-On s p a v =
      let s1 = create_or_abort http net tries s (s.ap a).fd writable write_to_local_provider p in
      create-On s1 (s1.ap a).fd readable read_from_local_provider p
        (create-On s (s.ap a).fd writable write_to_local_provider p v)
