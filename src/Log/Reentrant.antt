-- ===== src/Log/Reentrant.antt =====
-- The versions of the log for signal handlers (src/log.c, and the macro log_msg_r of src/log.h).
use dubbo_service_mesh.Base.{
  ℕ, ◌-◌, Bool, Option, none, some, List, ◌∷◌, ◌++◌, take, if◌then◌else◌, ◌>>=◌,
}
use dubbo_service_mesh.Text.{bytes}
use dubbo_service_mesh.Log.{
  Level, Output, log_to_stdout, log_to_stderr, log_to_logfile, log_opt_time, log_opt_pos,
  log_opt_bar, log_conf, log_type_str, has_opt, Logger, fprintf, is_on, log_msg_size, position,
  Ending, ending, unless_debug,
}

-- As log_with_option, without locking and flushing.
unfoldable pub log_with_option_r : Level → Output → (time pos msg : List ℕ) → Logger → Option Logger
unfolding log_conf log_type_str has_opt
log_with_option_r type fpno time pos msg l =
    let opt = (log_conf type fpno).log_opt in
    let l1 = if has_opt opt log_opt_time then fprintf fpno (time ++ bytes "  ") l else l in
    let l2 =
      if has_opt opt log_opt_bar
      then fprintf fpno (b'[' ∷ (log_type_str type ++ bytes "] ")) l1
      else l1 in
    let l3 = fprintf fpno (msg ++ bytes " ") l2 in
    let l4 = if has_opt opt log_opt_pos then fprintf fpno (b'(' ∷ (pos ++ bytes ")")) l3 else l3 in
    if l.is_open then some (fprintf fpno (bytes "\n") l4) else none

unfoldable pub log_to_file_r : Level → (time pos msg : List ℕ) → Logger → Option Logger
unfolding log_with_option_r
log_to_file_r type time pos msg l =
    (if is_on type log_to_stdout
      then log_with_option_r type log_to_stdout time pos msg l
      else some l)
    >>= λ l1.
        (if is_on type log_to_stderr
          then log_with_option_r type log_to_stderr time pos msg l1
          else some l1)
        >>= λ l2.
            if is_on type log_to_logfile
            then log_with_option_r type log_to_logfile time pos msg l2
            else some l2

-- _log_msg_r
unfoldable pub log_msg_r_always :
    Level → (file : List ℕ) → (line : ℕ) → (time text : List ℕ) → Logger → Option (Ending × Logger)
unfolding position log_to_file_r
log_msg_r_always type file line time text l = position 16 file line >>= λ pos.
    log_to_file_r type time pos (take (log_msg_size - 1) text) l >>= λ l1. some (ending type, l1)

-- The macro log_msg_r.
unfoldable pub log_msg_r :
    (debug_this_file : Bool)
    → Level
    → (file : List ℕ) → (line : ℕ) → (time text : List ℕ) → Logger
    → Option (Ending × Logger)
unfolding log_msg_r_always
log_msg_r debug_this_file type file line time text l =
    unless_debug debug_this_file type (log_msg_r_always type file line time text l) l
