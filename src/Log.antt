-- ===== src/Log.antt =====
-- The log (src/log.c, and the macros of src/log.h): the levels, their table, and which line each
-- output stream gets. The time that strftime prints, the text that vsnprintf makes of the arguments
-- and whether fopen succeeds are parameters.
pub mod Reentrant
pub mod Position
pub mod Lines
pub mod Tests
use dubbo_service_mesh.Base.{
  ℕ, ◌+◌, ◌-◌, ◌/◌, ◌%◌, ◌^◌, ◌==◌, Bool, true, false, Option, none, some, List, [], ◌∷◌, ◌++◌,
  length, ltb, drop, take, ◌&&◌, not, if◌then◌else◌, ◌>>=◌,
}
use dubbo_service_mesh.Net.Buffer.{size_sub}
use dubbo_service_mesh.Text.{bytes, decimal}

-- FATAL to WARN
pub data Level : Type 0 where
  fatal : Level
  err : Level
  info : Level
  debug : Level
  warn : Level

-- LOG_TO_STDOUT, LOG_TO_STDERR and LOG_TO_LOGFILE
pub data Output : Type 0 where
  log_to_stdout : Output
  log_to_stderr : Output
  log_to_logfile : Output

abbrev pub log_opt_time : ℕ
log_opt_time = 1

abbrev pub log_opt_pos : ℕ
log_opt_pos = 2

abbrev pub log_opt_bar : ℕ
log_opt_bar = 4

pub record LogConfig : Type 0 where
  pub log_flag : ℕ
  pub log_opt : ℕ

-- The options of every stream that is used are LOG_OPT_TIME | LOG_OPT_BAR.
abbrev pub log_off : LogConfig
log_off = record { log_flag = 0; log_opt = 0 }

abbrev pub log_on : LogConfig
log_on = record { log_flag = 1; log_opt = 5 }

unfoldable pub log_conf : Level → Output → LogConfig
log_conf fatal log_to_stdout = log_off
log_conf fatal log_to_stderr = log_on
log_conf fatal log_to_logfile = log_on
log_conf err log_to_stdout = log_off
log_conf err log_to_stderr = log_on
log_conf err log_to_logfile = log_on
log_conf info log_to_stdout = log_on
log_conf info log_to_stderr = log_off
log_conf info log_to_logfile = log_on
log_conf debug log_to_stdout = log_on
log_conf debug log_to_stderr = log_off
log_conf debug log_to_logfile = log_on
log_conf warn log_to_stdout = log_off
log_conf warn log_to_stderr = log_on
log_conf warn log_to_logfile = log_on

unfoldable pub log_type_str : Level → List ℕ
log_type_str fatal = bytes "FATAL"
log_type_str err = bytes "ERROR"
log_type_str info = bytes "INFO"
log_type_str debug = bytes "DEBUG"
log_type_str warn = bytes "WARN"

-- A call of flockfile, fflush or funlockfile, with the stream and what it had been given by then.
pub data StreamCall : Type 0 where
  locks : Output → (given : List ℕ) → StreamCall
  flushes : Output → (given : List ℕ) → StreamCall
  unlocks : Output → (given : List ℕ) → StreamCall

-- Whether log_output_fps has been set, what each stream has been given, and the calls that lock,
-- flush and unlock streams, in their order.
pub record Logger : Type 0 where
  pub is_open : Bool
  pub to_stdout : List ℕ
  pub to_stderr : List ℕ
  pub to_logfile : List ℕ
  pub calls : List StreamCall

abbrev pub fprintf : Output → List ℕ → Logger → Logger
fprintf log_to_stdout bs l = record l { to_stdout = l.to_stdout ++ bs }
fprintf log_to_stderr bs l = record l { to_stderr = l.to_stderr ++ bs }
fprintf log_to_logfile bs l = record l { to_logfile = l.to_logfile ++ bs }

abbrev pub given_to : Output → Logger → List ℕ
given_to log_to_stdout l = l.to_stdout
given_to log_to_stderr l = l.to_stderr
given_to log_to_logfile l = l.to_logfile

abbrev pub flockfile : Output → Logger → Logger
flockfile fpno l = record l { calls = l.calls ++ locks fpno (given_to fpno l) ∷ [] }

abbrev pub fflush : Output → Logger → Logger
fflush fpno l = record l { calls = l.calls ++ flushes fpno (given_to fpno l) ∷ [] }

abbrev pub funlockfile : Output → Logger → Logger
funlockfile fpno l = record l { calls = l.calls ++ unlocks fpno (given_to fpno l) ∷ [] }

-- `opened` is whether fopen succeeds; if it does not, the process exits.
unfoldable pub init_log : (opened : Bool) → Logger → Option Logger
init_log opened l =
    let l1 = record l { is_open = true } in
    let stars = bytes "****************************************" in
    let l2 = fprintf log_to_logfile (b'\n' ∷ stars) l1 in
    let l3 = fprintf log_to_logfile (stars ++ bytes "\n\n") l2 in
    if opened then some (fflush log_to_logfile l3) else none

-- A flag of an option word: `log_opt & flag`, the flag being a power of two.
unfoldable pub has_opt : (log_opt flag : ℕ) → Bool
has_opt log_opt flag = log_opt / flag % 2 == 1

-- No result if the stream is NULL.
unfoldable pub log_with_option : Level → Output → (time pos msg : List ℕ) → Logger → Option Logger
unfolding log_conf log_type_str has_opt
log_with_option type fpno time pos msg l =
    let opt = (log_conf type fpno).log_opt in
    let l0 = flockfile fpno l in
    let l1 = if has_opt opt log_opt_time then fprintf fpno (time ++ bytes "  ") l0 else l0 in
    let l2 =
      if has_opt opt log_opt_bar
      then fprintf fpno (b'[' ∷ (log_type_str type ++ bytes "] ")) l1
      else l1 in
    let l3 = fprintf fpno (msg ++ bytes " ") l2 in
    let l4 = if has_opt opt log_opt_pos then fprintf fpno (b'(' ∷ (pos ++ bytes ")")) l3 else l3 in
    let l5 = funlockfile fpno (fflush fpno (fprintf fpno (bytes "\n") l4)) in
    if l.is_open then some l5 else none

-- Does the level go to this stream?
abbrev pub is_on : Level → Output → Bool
unfolding log_conf
is_on type fpno = not ((log_conf type fpno).log_flag == 0)

unfoldable pub log_to_file : Level → (time pos msg : List ℕ) → Logger → Option Logger
unfolding log_with_option
log_to_file type time pos msg l =
    (if is_on type log_to_stdout then log_with_option type log_to_stdout time pos msg l else some l)
    >>= λ l1.
        (if is_on type log_to_stderr
          then log_with_option type log_to_stderr time pos msg l1
          else some l1)
        >>= λ l2.
            if is_on type log_to_logfile
            then log_with_option type log_to_logfile time pos msg l2
            else some l2

-- sizeof(line_str), sizeof(pos_str), sizeof(log_msg)
abbrev pub line_str_size : ℕ
line_str_size = 16

abbrev pub pos_str_size : ℕ
pos_str_size = 32

abbrev pub log_msg_size : ℕ
log_msg_size = 1024

-- `pos_str`: the end of the file's name and the line, for a line number that is not negative. `diff`
-- is computed as a size_t and kept as an int32_t. No result where a text is longer than its array,
-- or `file + diff` stands behind the end of the name.
unfoldable pub position : (pos_max_size : ℕ) → (file : List ℕ) → (line : ℕ) → Option (List ℕ)
position pos_max_size file line =
    let line_str = decimal line in
    let diff = size_sub (length file + length line_str + 1) pos_max_size % 2 ^ 32 in
    let from = if ltb 0 diff && ltb diff (2 ^ 31) then diff else 0 in
    let pos_str = drop from file ++ b':' ∷ decimal line in
    let fits = ltb (length line_str) line_str_size && ltb (length pos_str) pos_str_size in
    if fits && not (ltb (length file) from) then some pos_str else none

-- How a call of the log ends: it returns, or the process exits.
pub data Ending : Type 0 where
  returns : Ending
  exits : Ending

abbrev pub ending : Level → Ending
ending fatal = exits
ending err = returns
ending info = returns
ending debug = returns
ending warn = returns

-- _log_msg; `text` is what the format and its arguments stand for, which vsnprintf cuts.
unfoldable pub log_msg_always :
    Level → (file : List ℕ) → (line : ℕ) → (time text : List ℕ) → Logger → Option (Ending × Logger)
unfolding position log_to_file
log_msg_always type file line time text l = position 30 file line >>= λ pos.
    log_to_file type time pos (take (log_msg_size - 1) text) l >>= λ l1. some (ending type, l1)

-- The test of the macros: without DEBUG_THIS_FILE, nothing at all for DEBUG.
abbrev pub unless_debug :
    (debug_this_file : Bool)
    → Level
    → (call : Option (Ending × Logger)) → Logger
    → Option (Ending × Logger)
unless_debug true type call l = call
unless_debug false fatal call l = call
unless_debug false err call l = call
unless_debug false info call l = call
unless_debug false debug call l = some (returns, l)
unless_debug false warn call l = call

-- The macro log_msg.
unfoldable pub log_msg :
    (debug_this_file : Bool)
    → Level
    → (file : List ℕ) → (line : ℕ) → (time text : List ℕ) → Logger
    → Option (Ending × Logger)
unfolding log_msg_always
log_msg debug_this_file type file line time text l =
    unless_debug debug_this_file type (log_msg_always type file line time text l) l
