-- ===== src/Debug/Tests.antt =====
-- The theorem on core dumps at a kernel that refuses to raise the hard limit.
use dubbo_service_mesh.Base.{
  ℕ, Bool, ◌+◌, ◌-◌, ◌≡◌, ◌≤◌, refl, ap, inl, inr, arith, some, leb, true, Bool-cases,
  if◌then◌else◌, ◌&&◌,
}
use dubbo_service_mesh.Debug.{Rlimit, Kernel, done, eperm, init_debug}
use dubbo_service_mesh.Debug.CoreLimit.{KernelLaws, Raised, init_debug-Raised}

-- The soft limit, and what the hard limit is above it.
abbrev Limits : Type 0
Limits = ℕ × ℕ

abbrev limit : Limits → Rlimit
limit (cur, more) = record { rlim_cur = cur; rlim_max = cur + more }

abbrev allowed : Limits → Rlimit → Bool
allowed s new = leb new.rlim_cur new.rlim_max && leb new.rlim_max (s.0 + s.1)

abbrev unprivileged : Kernel Limits
unprivileged = record {
  get_dumpable = λ s. (true, s);
  set_dumpable = λ s. (true, s);
  getrlimit = λ s. some (limit s);
  setrlimit = λ s new.
      if allowed s new then (done, (new.rlim_cur, new.rlim_max - new.rlim_cur)) else (eperm, s);
}

same_limit :
    (new : Rlimit)
    → new.rlim_cur ≤ new.rlim_max
    → limit (new.rlim_cur, new.rlim_max - new.rlim_cur) ≡ new
same_limit new h =
    let e : new.rlim_cur + (new.rlim_max - new.rlim_cur) ≡ new.rlim_max = omega arith in
    ap (λ m. record { rlim_cur = new.rlim_cur; rlim_max = m }) e

unprivileged-KernelLaws : KernelLaws unprivileged limit
unprivileged-KernelLaws = record {
  reads = λ s lim e. ground arith;
  sets = λ s new e. elim (Bool-cases (allowed s new)) [
    | inl may ↦ rw may (same_limit new (ground arith))
    | inr may_not ↦ absurd (ground arith)
  ];
  refuses = λ s new e. elim (Bool-cases (allowed s new)) [
    | inl may ↦ absurd (ground arith)
    | inr may_not ↦ rw may_not refl
  ];
  get_keeps = λ s. refl;
  set_keeps = λ s. refl;
  ordered = λ s. omega arith;
}

init_debug-Raised_example : Raised (limit (0, 4096)) (limit (init_debug unprivileged (0, 4096)).1)
init_debug-Raised_example = init_debug-Raised unprivileged limit unprivileged-KernelLaws (0, 4096)

-- The soft limit stays 0, with a hard limit of 4096.
stays : (init_debug unprivileged (0, 4096)).1 ≡ (0, 4096)
unfolding init_debug
stays = refl
