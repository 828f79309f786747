-- ===== src/Net/Tests.antt =====
-- A host for the tests of both agents.
use dubbo_service_mesh.Base.{
  take-length, ℕ, ◌≡◌, refl, ap, sym, subst, inl, inr, true, List, ◌∷◌, ◌++◌, arith, ltb, length,
  take, pos, if◌then◌else◌, Bool-cases,
}
use dubbo_service_mesh.Pool.{null}
use dubbo_service_mesh.Net.{Host, HostLaws, Streams, Flows, received, closed, wrote}

-- A host whose state is what its sockets have accepted, in one stream; a write takes everything,
-- and a read answers with the same bytes each time.
abbrev pub wire : {F : Type 0} → (first : ℕ) (rest : List ℕ) → Host F (List ℕ)
wire first rest = record {
  read =
      λ e fd count. (if ltb count (length (first ∷ rest)) then closed else received first rest, e);
  write = λ e fd bs. (wrote (length bs), e ++ bs);
  close = λ e fd. e;
  create_file_event = λ e fd mask f p. (true, e);
  delete_file_event = λ e fd mask. e;
  clock_gettime = λ e. ((7, 0), e);
  tcp_connect = λ e ip port. (pos 9, e);
  tune = λ e fd. e;
  sleep = λ e n. e;
  malloc = λ e n. (null, e);
  calloc = λ e n m. (null, e);
  dealloc = λ e p. e;
}

pub wire-HostLaws : {F : Type 0} (first : ℕ) (rest : List ℕ) → HostLaws {F = F} (wire first rest)
wire-HostLaws first rest = record {
  reads = λ e fd count. elim (Bool-cases (ltb count (length (first ∷ rest)))) [
    | inl short ↦ rw short tt
    | inr enough ↦ rw enough (ground arith)
  ];
  writes = λ e fd bs. omega arith;
}

pub wire-Flows : {F : Type 0} (first : ℕ) (rest : List ℕ) → Flows {F = F} (wire first rest)
wire-Flows first rest = record { takes = λ e fd bs h. (length bs, refl, h) }

pub wire-Streams :
    {F : Type 0} (first : ℕ) (rest : List ℕ) → Streams {F = F} (wire first rest) (λ e fd. e)
wire-Streams first rest = record {
  wrote_more = λ e fd bs n h.
      let size : length bs ≡ n = ground arith in
      subst (λ m. e ++ bs ≡ e ++ take m bs) size (ap (λ l. e ++ l) (sym (take-length bs)));
  wrote_none = λ e fd bs again h. absurd (ground arith);
  read_keeps = λ e fd at count. refl;
  create_keeps = λ e fd at mask f p. refl;
  connect_keeps = λ e ip port at. refl;
  tune_keeps = λ e fd at. refl;
  sleep_keeps = λ e n at. refl;
  close_keeps = λ e fd at. refl;
  delete_keeps = λ e fd at mask. refl;
  clock_keeps = λ e at. refl;
  malloc_keeps = λ e n at. refl;
  dealloc_keeps = λ e d at. refl;
}
