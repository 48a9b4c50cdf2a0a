-- ===== src/Logging.antt =====
-- logging/logger.go, logging/options.go: what a logger writes, and when it ends the process. The
-- writer, and the text that the standard logger makes of a prefix and a slice of arguments, are
-- parameters, as is `fmt.Sprintf`. A level is its number, not below 0.
use goraft.Prelude.{
  ℕ, ◌≤◌, ◌≡◌, String, List, [], ◌∷◌, Option, none, some, Bool, true, false, ltb, ◌==◌, str_eq,
  if◌then◌else◌, arith,
}

abbrev pub debug_level : ℕ
debug_level = 0

abbrev pub info_level : ℕ
info_level = 1

abbrev pub warn_level : ℕ
warn_level = 2

abbrev pub error_level : ℕ
error_level = 3

abbrev pub fatal_level : ℕ
fatal_level = 4

-- Another level panics.
unfoldable pub level_string : ℕ → Option String
level_string n =
    if n == debug_level
    then some "DEBUG"
    else if n == info_level
    then some "INFO"
    else if n == warn_level
    then some "WARN"
    else if n == error_level
    then some "ERROR"
    else if n == fatal_level
    then some "FATAL"
    else none

pub record LoggerOptions (W : Type 0) : Type 0 where
  pub writer : Option W
  pub prefix : String
  pub flag : ℕ
  pub level : ℕ
  pub level_set : Bool

unfoldable pub with_writer : {W : Type 0} → Option W → LoggerOptions W → LoggerOptions W
with_writer w o = record o { writer = w }

unfoldable pub with_prefix : {W : Type 0} → String → LoggerOptions W → LoggerOptions W
with_prefix prefix o = record o { prefix = prefix }

unfoldable pub with_flag : {W : Type 0} → ℕ → LoggerOptions W → LoggerOptions W
with_flag flag o = record o { flag = flag }

unfoldable pub with_level : {W : Type 0} → ℕ → LoggerOptions W → LoggerOptions W
with_level level o = record o { level = level; level_set = true }

unfoldable pub apply_logger_options :
    {W : Type 0} → List (LoggerOptions W → LoggerOptions W) → LoggerOptions W → LoggerOptions W
apply_logger_options [] o = o
apply_logger_options (opt ∷ opts) o = apply_logger_options opts (opt o)

-- The defaults are standard error, and the standard flags of the log package.
unfoldable pub new_logger :
    {W : Type 0} → W → ℕ → List (LoggerOptions W → LoggerOptions W) → LoggerOptions W
unfolding apply_logger_options
new_logger {W} default_writer default_flag opts =
    let start : LoggerOptions W = record {
      writer = none;
      prefix = "";
      flag = 0;
      level = 0;
      level_set = false;
    } in
    let o = apply_logger_options opts start in
    record o {
      writer = elim (o.writer) [ none ↦ some default_writer | some w ↦ some w ];
      flag = if o.flag == 0 then default_flag else o.flag;
      prefix = if str_eq o.prefix "" then "raft:" else o.prefix;
      level = if o.level_set then o.level else info_level;
    }

-- What a call does: nothing, a line, or a line and the end of the process.
pub data Logged : Type 0 where
  silent : Logged
  printed exits : String → Logged

module _ {W : Type 0} (text : String → List String → String) (l : LoggerOptions W) where
  unfoldable pub log_debug : List String → Logged
  log_debug args = if ltb debug_level l.level then silent else printed (text "DEBUG: " args)

  unfoldable pub log_debugf : (String → List String → String) → String → List String → Logged
  unfolding log_debug
  log_debugf sprintf format args = log_debug (sprintf format args ∷ [])

  unfoldable pub log_info : List String → Logged
  log_info args = if ltb info_level l.level then silent else printed (text "INFO: " args)

  unfoldable pub log_infof : (String → List String → String) → String → List String → Logged
  unfolding log_info
  log_infof sprintf format args = log_info (sprintf format args ∷ [])

  unfoldable pub log_warn : List String → Logged
  log_warn args = if ltb warn_level l.level then silent else printed (text "WARN: " args)

  unfoldable pub log_warnf : (String → List String → String) → String → List String → Logged
  unfolding log_warn
  log_warnf sprintf format args = log_warn (sprintf format args ∷ [])

  unfoldable pub log_error : List String → Logged
  log_error args = if ltb error_level l.level then silent else printed (text "ERROR: " args)

  unfoldable pub log_errorf : (String → List String → String) → String → List String → Logged
  unfolding log_error
  log_errorf sprintf format args = log_error (sprintf format args ∷ [])

  unfoldable pub log_fatal : List String → Logged
  log_fatal args = if ltb fatal_level l.level then silent else exits (text "FATAL: " args)

  unfoldable pub log_fatalf : (String → List String → String) → String → List String → Logged
  unfolding log_fatal
  log_fatalf sprintf format args = log_fatal (sprintf format args ∷ [])

  -- A fatal error ends the process unless the level lies above all that have a name.
  pub log_fatal_exits :
      (args : List String) → l.level ≤ fatal_level → log_fatal args ≡ exits (text "FATAL: " args)
  unfolding log_fatal
  log_fatal_exits args h = ground arith
