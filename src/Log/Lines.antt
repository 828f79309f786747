-- ===== src/Log/Lines.antt =====
-- What a call of the log of src/log.c writes, and what its version for signal handlers leaves out.
use mathlib.Core.List.{append_assoc}
use dubbo_service_mesh.Base.{
  ℕ, ◌-◌, ◌^◌, ◌<◌, ◌≡◌, refl, arith, ◌∙◌, inl, inr, Bool-cases, true, false, Bool, some, List, ◌∷◌,
  ◌++◌, take, length, ◌&&◌, not, if◌then◌else◌,
}
use dubbo_service_mesh.Text.{bytes, decimal}
use dubbo_service_mesh.Log.{
  Level, fatal, err, info, debug, warn, Output, log_to_stdout, log_to_stderr, log_to_logfile,
  Logger, fprintf, flockfile, fflush, funlockfile, log_conf, log_type_str, has_opt, log_to_file,
  Ending, returns, ending, log_msg_size, log_msg_always, log_msg, unless_debug,
}
use dubbo_service_mesh.Log.Reentrant.{log_to_file_r, log_msg_r_always, log_msg_r}
use dubbo_service_mesh.Log.Position.{position_lem}

-- The console stream of a level.
abbrev pub console : Level → Output
console fatal = log_to_stderr
console err = log_to_stderr
console info = log_to_stdout
console debug = log_to_stdout
console warn = log_to_stderr

abbrev pub is_debug : Level → Bool
is_debug fatal = false
is_debug err = false
is_debug info = false
is_debug debug = true
is_debug warn = false

-- One line: the time, the level and the text; no position.
abbrev pub log_line : Level → (time msg : List ℕ) → List ℕ
log_line type time msg =
    (time ++ bytes "  ")
    ++ ((b'[' ∷ (log_type_str type ++ bytes "] ")) ++ ((msg ++ bytes " ") ++ bytes "\n"))

-- All of a line has gone to a stream under its lock, and has been flushed.
abbrev pub locked_line : Output → List ℕ → Logger → Logger
locked_line fpno line l = funlockfile fpno (fflush fpno (fprintf fpno line (flockfile fpno l)))

-- The line has reached the console stream, and then the file.
abbrev pub logged : Level → (time msg : List ℕ) → Logger → Logger
logged type time msg l =
    let line = log_line type time msg in
    locked_line log_to_logfile line (locked_line (console type) line l)

log_to_file-logged :
    (type : Level) (time pos msg : List ℕ) (l : Logger)
    → l.is_open ≡ true
    → log_to_file type time pos msg l ≡ some (logged type time msg l)
unfolding log_to_file log_conf has_opt log_type_str
log_to_file-logged fatal time pos msg l set = rw set (simp append_assoc refl)
log_to_file-logged err time pos msg l set = rw set (simp append_assoc refl)
log_to_file-logged info time pos msg l set = rw set (simp append_assoc refl)
log_to_file-logged debug time pos msg l set = rw set (simp append_assoc refl)
log_to_file-logged warn time pos msg l set = rw set (simp append_assoc refl)

log_to_file_r-logged :
    (type : Level) (time pos msg : List ℕ) (l : Logger)
    → l.is_open ≡ true
    → log_to_file_r type time pos msg l ≡ some (record (logged type time msg l) { calls = l.calls })
unfolding log_to_file_r log_conf has_opt log_type_str
log_to_file_r-logged fatal time pos msg l set = rw set (simp append_assoc refl)
log_to_file_r-logged err time pos msg l set = rw set (simp append_assoc refl)
log_to_file_r-logged info time pos msg l set = rw set (simp append_assoc refl)
log_to_file_r-logged debug time pos msg l set = rw set (simp append_assoc refl)
log_to_file_r-logged warn time pos msg l set = rw set (simp append_assoc refl)

unless_debug-some :
    (debug_this_file : Bool) (type : Level) (r : Ending × Logger) (l : Logger)
    → unless_debug debug_this_file type (some r) l
      ≡ some (if not debug_this_file && is_debug type then (returns, l) else r)
unless_debug-some true type r l = refl
unless_debug-some false fatal r l = refl
unless_debug-some false err r l = refl
unless_debug-some false info r l = refl
unless_debug-some false debug r l = refl
unless_debug-some false warn r l = refl

module _ (debug_this_file : Bool) (type : Level) (file : List ℕ) (line : ℕ) (time text : List ℕ)
    (l : Logger) where
  -- What a call makes of an open log, if the macro does not drop it, and if it may.
  abbrev pub full : Ending × Logger
  full = (ending type, logged type time (take (log_msg_size - 1) text) l)

  abbrev pub outcome : Ending × Logger
  outcome = if not debug_this_file && is_debug type then (returns, l) else full

  -- The same end and the same texts, and no calls that lock, flush or unlock.
  abbrev pub without_calls : Ending × Logger → Ending × Logger
  without_calls (end, l') = (end, record l' { calls = l.calls })

  always-logged :
      length file < 2 ^ 31
      → line < 2 ^ 31
      → l.is_open ≡ true
      → log_msg_always type file line time text l ≡ some full
  unfolding log_msg_always
  always-logged small int set =
      let (front, back, split, long, size) =
        position_lem 30 file line (omega arith) (omega arith) small int in
      let msg = take (log_msg_size - 1) text in
      let one = log_to_file-logged type time (back ++ b':' ∷ decimal line) msg l set in
      rw (long, one) refl

  -- It has less room for a position, which no level prints.
  always_r-logged :
      length file < 2 ^ 31
      → line < 2 ^ 31
      → l.is_open ≡ true
      → log_msg_r_always type file line time text l ≡ some (without_calls full)
  unfolding log_msg_r_always
  always_r-logged small int set =
      let (front, back, split, short, size) =
        position_lem 16 file line (omega arith) (omega arith) small int in
      let msg = take (log_msg_size - 1) text in
      let one = log_to_file_r-logged type time (back ++ b':' ∷ decimal line) msg l set in
      rw (short, one) refl

  -- On an open log, for a file name and a line number that an int32_t holds, a call of log_msg at any
  -- level returns, or exits if the level is FATAL; a line with the time, the level and at most 1023
  -- bytes of the text is added to the file and to one console stream, stdout for INFO and DEBUG and
  -- stderr for the others, each under the lock of its stream, which is flushed before it is unlocked;
  -- and a DEBUG call does nothing unless DEBUG_THIS_FILE is defined.
  pub log_msg_logged :
      length file < 2 ^ 31
      → line < 2 ^ 31
      → l.is_open ≡ true
      → log_msg debug_this_file type file line time text l ≡ some outcome
  unfolding log_msg
  log_msg_logged small int set =
      rw (always-logged small int set) (unless_debug-some debug_this_file type full l)

  -- On an open log, for a file name and a line number that an int32_t holds: log_msg_r, which signal
  -- handlers call, ends as log_msg does and adds the same text to each stream, but locks, flushes and
  -- unlocks none, while log_msg locks, flushes and unlocks each stream that it writes to.
  pub log_msg_r_unlocked :
      length file < 2 ^ 31
      → line < 2 ^ 31
      → l.is_open ≡ true
      → (log_msg debug_this_file type file line time text l ≡ some outcome)
        × (log_msg_r debug_this_file type file line time text l ≡ some (without_calls outcome))
  unfolding log_msg_r
  log_msg_r_unlocked small int set = (
    log_msg_logged small int set,
    rw (always_r-logged small int set) (
        unless_debug-some debug_this_file type (without_calls full) l
        ∙ elim (Bool-cases (not debug_this_file && is_debug type)) [
          | inl silent ↦ rw silent refl
          | inr loud ↦ rw loud refl
        ]),
  )
