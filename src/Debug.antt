-- ===== src/Debug.antt =====
-- src/debug.c: core_dump_config, which raises the limit on the size of a core dump, and dump_stack.
-- prctl, getrlimit, setrlimit and backtrace are parameters. A log line is a value.
pub mod CoreLimit
pub mod Tests
use dubbo_service_mesh.Base.{
  ℕ, ◌-◌, ◌^◌, ◌==◌, Bool, Option, none, some, List, [], ◌∷◌, ltb, if◌then◌else◌, ◌&&◌, map, take,
  length,
}

abbrev pub rlim_infinity : ℕ
rlim_infinity = 2 ^ 64 - 1

-- struct rlimit: the soft limit and the hard one.
pub record Rlimit : Type 0 where
  pub rlim_cur : ℕ
  pub rlim_max : ℕ

-- What setrlimit answers: 0, or -1 with errno.
pub data Answer : Type 0 where
  done : Answer
  eperm : Answer
  other_error : Answer

-- The lines that core_dump_config logs.
pub data Line : Type 0 where
  cannot_get_configuration : Line
  cannot_be_dumpable : Line
  is_dumpable : Line
  cannot_read_limit : Line
  is_unlimited : Line
  set_to_unlimited : Line
  cur_below_max : Line
  set_to_hard_limit : Line
  cannot_set : Line

-- prctl answers whether it has worked. No limit is a getrlimit that has failed. All four are about
-- RLIMIT_CORE of this process.
pub record Kernel (S : Type 0) : Type 0 where
  pub get_dumpable : S → Bool × S
  pub set_dumpable : S → Bool × S
  pub getrlimit : S → Option Rlimit
  pub setrlimit : S → Rlimit → Answer × S

module _ {S : Type 0} (kernel : Kernel S) where
  -- What follows the first setrlimit, whose `new_lim` has both limits at infinity.
  unfoldable pub fall_back : S → (lim : Rlimit) → Answer → List Line × S
  fall_back s lim done = (set_to_unlimited ∷ [], s)
  fall_back s lim other_error = (cannot_set ∷ [], s)
  fall_back s lim eperm =
      let new_lim : Rlimit = record { rlim_cur = lim.rlim_max; rlim_max = rlim_infinity } in
      let (answer, s') = kernel.setrlimit s new_lim in
      if ltb lim.rlim_cur lim.rlim_max then (cur_below_max ∷ [], s) else elim answer [
        | done ↦ (set_to_hard_limit ∷ [], s')
        | eperm ↦ (cannot_set ∷ [], s')
        | other_error ↦ (cannot_set ∷ [], s')
      ]

  -- From getrlimit on.
  unfoldable pub raise_limit : S → List Line × S
  unfolding fall_back
  raise_limit s = elim (kernel.getrlimit s) [
    | none ↦ (cannot_read_limit ∷ [], s)
    | some lim ↦
        let both : Rlimit = record { rlim_cur = rlim_infinity; rlim_max = rlim_infinity } in
        let (answer, s') = kernel.setrlimit s both in
        if lim.rlim_max == rlim_infinity && lim.rlim_cur == rlim_infinity
        then (is_unlimited ∷ [], s)
        else fall_back s' lim answer
  ]

  -- The log lines, and the kernel's state.
  unfoldable pub core_dump_config : S → List Line × S
  unfolding raise_limit
  core_dump_config s =
      let (readable, s1) = kernel.get_dumpable s in
      let (enabled, s2) = kernel.set_dumpable s1 in
      let (rest1, t1) = raise_limit s1 in
      let (rest2, t2) = raise_limit s2 in
      if readable
      then (if enabled then (is_dumpable ∷ rest2, t2) else (cannot_be_dumpable ∷ [], s2))
      else (cannot_get_configuration ∷ rest1, t1)

  unfoldable pub init_debug : S → List Line × S
  unfolding core_dump_config
  init_debug s = core_dump_config s

-- The lines of dump_stack, the first one without a string, for what backtrace and
-- backtrace_symbols answer; nothing if the process exits.
unfoldable pub dump_stack :
    {A T : Type 0}
    → (backtrace : (size : ℕ) → List A) → (backtrace_symbols : List A → Option (List T))
    → Option (List (Option T))
dump_stack backtrace backtrace_symbols =
    let buffer = backtrace 100 in
    elim (backtrace_symbols buffer) [
      | none ↦ none
      | some strings ↦ some (none ∷ map some (take (length buffer) strings))
    ]
