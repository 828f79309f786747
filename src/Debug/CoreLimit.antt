-- ===== src/Debug/CoreLimit.antt =====
-- What core_dump_config of src/debug.c makes of the limits.
use dubbo_service_mesh.Base.{
  ◌≡◌, ◌≢◌, ◌≤◌, ◌⊎◌, inl, inr, refl, sym, subst, ap, ◌∙◌, some, arith, ltb, ◌==◌, ◌&&◌, Bool-cases,
  Option-cases,
}
use dubbo_service_mesh.Debug.{
  Rlimit, rlim_infinity, Answer, done, eperm, other_error, Kernel, fall_back, raise_limit,
  core_dump_config, init_debug,
}

-- What the documentation says of the limits, `limit` being those of the process: getrlimit reads them,
-- setrlimit replaces them or fails and changes nothing, and no other call changes them.
pub record KernelLaws {S : Type 0} (kernel : Kernel S) (limit : S → Rlimit) : Type 0 where
  pub reads : (s : S) (lim : Rlimit) → kernel.getrlimit s ≡ some lim → lim ≡ limit s
  pub sets :
      (s : S) (new : Rlimit)
      → (kernel.setrlimit s new).0 ≡ done
      → limit (kernel.setrlimit s new).1 ≡ new
  pub refuses :
      (s : S) (new : Rlimit)
      → (kernel.setrlimit s new).0 ≢ done
      → limit (kernel.setrlimit s new).1 ≡ limit s
  pub get_keeps : (s : S) → limit (kernel.get_dumpable s).1 ≡ limit s
  pub set_keeps : (s : S) → limit (kernel.set_dumpable s).1 ≡ limit s
  pub ordered : (s : S) → (limit s).rlim_cur ≤ (limit s).rlim_max

-- The soft limit is as it was or infinite, and the hard limit is as it was or infinite.
pub record Raised (old new : Rlimit) : Type 0 where
  pub cur : (new.rlim_cur ≡ old.rlim_cur) ⊎ (new.rlim_cur ≡ rlim_infinity)
  pub max : (new.rlim_max ≡ old.rlim_max) ⊎ (new.rlim_max ≡ rlim_infinity)

Answer-cases : (a : Answer) → (a ≡ done) ⊎ (a ≡ eperm) ⊎ (a ≡ other_error)
Answer-cases done = inl refl
Answer-cases eperm = inr (inl refl)
Answer-cases other_error = inr (inr refl)

unchanged : (old new : Rlimit) → new ≡ old → Raised old new
unchanged old new e = record {
  cur = inl (ap (λ l. l.rlim_cur) e);
  max = inl (ap (λ l. l.rlim_max) e);
}

module _ {S : Type 0} (kernel : Kernel S) (limit : S → Rlimit)
    (laws : KernelLaws kernel limit) where
  fall_back-Raised : (s : S) → Raised (limit s) (limit (fall_back kernel s (limit s) eperm).1)
  unfolding fall_back
  fall_back-Raised s =
      let new : Rlimit = record { rlim_cur = (limit s).rlim_max; rlim_max = rlim_infinity } in
      elim (Bool-cases (ltb (limit s).rlim_cur (limit s).rlim_max)) [
        | inl below ↦ rw below (unchanged _ _ refl)
        | inr same ↦ elim (Answer-cases (kernel.setrlimit s new).0) [
          | inl fine ↦
              let now = laws.sets s new fine in
              let order = laws.ordered s in
              let top : (limit s).rlim_max ≡ (limit s).rlim_cur = ground arith in
              rw (same, fine)
                (record {
                  cur = inl (ap (λ l. l.rlim_cur) now ∙ top);
                  max = inr (ap (λ l. l.rlim_max) now);
                })
          | inr (inl perm) ↦ rw (same, perm) (unchanged _ _ (laws.refuses s new (ground arith)))
          | inr (inr other) ↦ rw (same, other) (unchanged _ _ (laws.refuses s new (ground arith)))
        ]
      ]

  fall_back_refused :
      (s s' : S) (lim : Rlimit)
      → lim ≡ limit s
      → limit s' ≡ limit s
      → Raised (limit s) (limit (fall_back kernel s' lim eperm).1)
  fall_back_refused s s' lim read same =
      subst (λ l. Raised (limit s) (limit (fall_back kernel s' l eperm).1)) (same ∙ sym read)
        (subst (λ l. Raised l (limit (fall_back kernel s' (limit s') eperm).1)) same
          (fall_back-Raised s'))

  raise_limit-Raised : (s : S) → Raised (limit s) (limit (raise_limit kernel s).1)
  unfolding raise_limit
  raise_limit-Raised s =
      let both : Rlimit = record { rlim_cur = rlim_infinity; rlim_max = rlim_infinity } in
      elim (Option-cases (kernel.getrlimit s)) [
        | inl unread ↦ rw (raise_limit, unread) (unchanged _ _ refl)
        | inr (lim, read) ↦
            elim (Bool-cases (lim.rlim_max == rlim_infinity && lim.rlim_cur == rlim_infinity)) [
              | inl already ↦ rw (raise_limit, read, already) (unchanged _ _ refl)
              | inr not_yet ↦ elim (Answer-cases (kernel.setrlimit s both).0) [
                | inl fine ↦
                    let now = laws.sets s both fine in
                    rw (raise_limit, read, not_yet, fine, fall_back)
                      (record {
                        cur = inr (ap (λ l. l.rlim_cur) now);
                        max = inr (ap (λ l. l.rlim_max) now);
                      })
                | inr (inl perm) ↦
                    rw (raise_limit, read, not_yet, perm)
                      (fall_back_refused s (kernel.setrlimit s both).1 lim (laws.reads s lim read)
                        (laws.refuses s both (ground arith)))
                | inr (inr other) ↦
                    rw (raise_limit, read, not_yet, other, fall_back)
                      (unchanged _ _ (laws.refuses s both (ground arith)))
              ]
            ]
      ]

  -- For a kernel of which setrlimit either replaces the limits or changes nothing: after init_debug the
  -- soft limit on a core dump is either the one before or infinite, and so is the hard limit. It is
  -- never raised to a finite hard limit.
  pub init_debug-Raised : (s : S) → Raised (limit s) (limit (init_debug kernel s).1)
  unfolding init_debug core_dump_config
  init_debug-Raised s =
      let s1 = (kernel.get_dumpable s).1 in
      let s2 = (kernel.set_dumpable s1).1 in
      let one : limit s1 ≡ limit s = laws.get_keeps s in
      let two : limit s2 ≡ limit s = laws.set_keeps s1 ∙ one in
      elim (Bool-cases (kernel.get_dumpable s).0) [
        | inr unreadable ↦
            rw (init_debug, core_dump_config, unreadable)
              (subst (λ l. Raised l (limit (raise_limit kernel s1).1)) one (raise_limit-Raised s1))
        | inl readable ↦ elim (Bool-cases (kernel.set_dumpable s1).0) [
          | inr no_way ↦ rw (init_debug, core_dump_config, readable, no_way) (unchanged _ _ two)
          | inl enabled ↦
              rw (init_debug, core_dump_config, readable, enabled)
                (subst (λ l. Raised l (limit (raise_limit kernel s2).1)) two
                  (raise_limit-Raised s2))
        ]
      ]
