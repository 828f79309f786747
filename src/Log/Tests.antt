-- ===== src/Log/Tests.antt =====
-- The theorems on the log at one call in src/consumer.c.
use dubbo_service_mesh.Base.{
  ℕ, ◌≤◌, ◌≡◌, ◌⊎◌, refl, some, List, [], ◌∷◌, ◌++◌, arith, length, true, false,
}
use dubbo_service_mesh.Text.{bytes, decimal}
use dubbo_service_mesh.Log.{
  Logger, locks, flushes, unlocks, log_to_stderr, log_to_logfile, warn, returns, position,
  log_type_str, log_msg,
}
use dubbo_service_mesh.Log.Reentrant.{log_msg_r}
use dubbo_service_mesh.Log.Position.{position_lem}
use dubbo_service_mesh.Log.Lines.{log_msg_logged, log_msg_r_unlocked}

abbrev fresh : Logger
fresh = record {
  is_open = true;
  to_stdout = [];
  to_stderr = [];
  to_logfile = bytes "-";
  calls = [];
}

position_lem_example :
    (front back : List ℕ) × (bytes "/home/mesh/agent/src/consumer.c" ≡ front ++ back)
    × (position 16 (bytes "/home/mesh/agent/src/consumer.c") 143
        ≡ some (back ++ b':' ∷ decimal 143))
    × ((front ≡ []) × (length (back ++ b':' ∷ decimal 143) ≤ 16)
        ⊎ (length (back ++ b':' ∷ decimal 143) ≡ 16))
position_lem_example =
    position_lem 16 (bytes "/home/mesh/agent/src/consumer.c") 143 (omega arith) (omega arith)
      (omega arith) (omega arith)

abbrev line_out : List ℕ
line_out = bytes " 1 Jun 12:00:00  [WARN] Connection reset \n"

abbrev silent : Logger
silent = record {
  is_open = true;
  to_stdout = [];
  to_stderr = line_out;
  to_logfile = b'-' ∷ line_out;
  calls = [];
}

abbrev written : Logger
written = record silent {
  calls =
      locks log_to_stderr []
      ∷ flushes log_to_stderr line_out
      ∷ unlocks log_to_stderr line_out
      ∷ locks log_to_logfile (bytes "-")
      ∷ flushes log_to_logfile (b'-' ∷ line_out)
      ∷ unlocks log_to_logfile (b'-' ∷ line_out)
      ∷ [];
}

log_msg_logged_example :
    log_msg false warn
      (bytes "consumer.c")
      143
      (bytes " 1 Jun 12:00:00")
      (bytes "Connection reset")
      fresh
    ≡ some (returns, written)
unfolding log_type_str
log_msg_logged_example =
    log_msg_logged false warn (bytes "consumer.c") 143 (bytes " 1 Jun 12:00:00")
      (bytes "Connection reset") fresh (omega arith) (omega arith) refl

log_msg_r_unlocked_example :
    (log_msg false warn
        (bytes "consumer.c")
        143
        (bytes " 1 Jun 12:00:00")
        (bytes "Connection reset")
        fresh
      ≡ some (returns, written))
    × (log_msg_r false warn
          (bytes "consumer.c")
          143
          (bytes " 1 Jun 12:00:00")
          (bytes "Connection reset")
          fresh
        ≡ some (returns, silent))
unfolding log_type_str
log_msg_r_unlocked_example =
    log_msg_r_unlocked false warn (bytes "consumer.c") 143 (bytes " 1 Jun 12:00:00")
      (bytes "Connection reset") fresh (omega arith) (omega arith) refl
