-- ===== src/Logging/Sink.antt =====
-- internal/logging/logging.go: the writer behind the standard logger (Write, emit), its set-up (Init,
-- newSink, Close) and the structured events (emitEvent). The JSON encoder, the layouts of times, the
-- quoting of fmt and the file system are parameters; lumberjack's file is the list of its lines.
pub mod Records
use aba_go_orchestrator.Common.{
  ℕ, Text, lit, is_empty, text_eq, trim_space, ◌==◌, Bool, true, false, not, ◌&&◌, ◌||◌, Option,
  none, some, List, [], ◌∷◌, ◌++◌, is_some, if◌then◌else◌,
}
use aba_go_orchestrator.Logging.{Value, string, scalar, FieldMap, put}

pub data Severity : Type 0 where
  severity_info severity_warn severity_error : Severity

abbrev pub severity_text : Severity → Text
severity_text severity_info = lit "INFO"
severity_text severity_warn = lit "WARN"
severity_text severity_error = lit "ERROR"

pub record Outside : Type 0 where
  pub marshal : FieldMap → Option Text
  pub console_time : ℕ → Text
  pub file_time : ℕ → Text
  pub quote : Text → Text
  pub pid : ℕ
  pub makes_directory : Text → Bool
  pub closes : Bool

-- The lines of the console, and of the file where there is one.
pub record Sink : Type 0 where
  pub console : List Text
  pub file : Option (List Text)

abbrev pub text_or : Text → Option Text → Text
text_or s none = s
text_or s (some t) = t

abbrev with_event : Text → FieldMap → FieldMap
with_event event m = if is_empty event then m else put (lit "event") (string event) m

unfoldable pub console_payload : Outside → Text → Text → FieldMap → Text
console_payload o event msg fields =
    if is_empty event
    then msg
    else text_or msg (o.marshal (put (lit "event") (string event) fields))

-- The record of the file: its own fields are written over the caller's.
unfoldable pub file_record : Outside → ℕ → Severity → Text → Text → FieldMap → FieldMap
file_record o now severity event msg fields = put (lit "pid") (scalar o.pid) (
    with_event event (
      put (lit "message") (string msg) (
        put (lit "level") (string (severity_text severity))
          (put (lit "timestamp") (string (o.file_time now)) fields))))

unfoldable pub fallback_line : Outside → ℕ → Severity → Text → Text
fallback_line o now severity msg =
    lit "{\"timestamp\":"
    ++ o.quote (o.file_time now)
    ++ lit ",\"level\":"
    ++ o.quote (severity_text severity)
    ++ lit ",\"message\":"
    ++ o.quote msg
    ++ lit "}"

abbrev pub add_line : Text → Option (List Text) → Option (List Text)
add_line line none = none
add_line line (some ls) = some (ls ++ line ∷ [])

unfoldable pub file_line : Outside → ℕ → Severity → Text → Text → FieldMap → Text
unfolding file_record fallback_line
file_line o now severity event msg fields =
    text_or (fallback_line o now severity msg)
      (o.marshal (file_record o now severity event msg fields))

unfoldable pub emit : Outside → ℕ → Severity → Text → Text → FieldMap → Sink → Sink
unfolding console_payload file_line
emit o now severity event msg fields s = record s {
  console = s.console ++ (o.console_time now ++ lit " " ++ console_payload o event msg fields) ∷ [];
  file = add_line (file_line o now severity event msg fields) s.file;
}

-- strings.TrimRight by "\r\n".
unfoldable pub trim_right_lines : Text → Text
trim_right_lines [] = []
trim_right_lines (c ∷ s) =
    let rest = trim_right_lines s in if is_empty rest && (c == 13 || c == 10) then [] else c ∷ rest

unfoldable pub write_line : Outside → ℕ → Text → Sink → Sink
unfolding emit trim_right_lines
write_line o now p s = emit o now severity_info [] (trim_right_lines p) [] s

-- The package: the sink of the process, the closer, what Init did, and the lines of the standard logger
-- before it was re-pointed.
pub record Logger : Type 0 where
  pub global : Option Sink
  pub has_closer : Bool
  pub has_run : Bool
  pub init_failed : Bool
  pub init_path : Text
  pub printed : List Text

-- emitEvent.
unfoldable pub emit_event : Outside → ℕ → Severity → Text → FieldMap → Logger → Logger
unfolding emit
emit_event o now severity event fields l = elim l.global [
  | some s ↦ record l { global = some (emit o now severity event event fields s) }
  | none ↦
      elim (o.marshal (
        put (lit "level") (string (severity_text severity))
          (put (lit "event") (string event) fields))) [
            | some line ↦ record l { printed = l.printed ++ line ∷ [] }
            | none ↦ l
          ]
]

abbrev pub default_log_file : Text
default_log_file = lit "logs/orchestrator.log"

abbrev pub path_or_default : Text → Text → Text
path_or_default s fallback = if is_empty s then fallback else s

-- newSink, with filepath.Dir as `directory`.
unfoldable pub new_sink : Outside → (Text → Text) → List Text → Text → Option Sink
new_sink o directory console path =
    let dir = directory (path_or_default path default_log_file) in
    if is_empty dir || text_eq dir (lit ".") || o.makes_directory dir
    then some (record { console = console; file = some [] })
    else none

abbrev pub after_new_sink : Outside → ℕ → Text → Option Sink → Logger → Logger
unfolding emit_event
after_new_sink o now path none l = record l { has_run = true; init_failed = true }
after_new_sink o now path (some s) l =
    emit_event o now severity_info (lit "LOGGING_INITIALIZED")
      ((lit "log_file", string path)
        ∷ (lit "console", string (lit "stderr"))
        ∷ (lit "max_size_mb", scalar 20)
        ∷ (lit "max_backups", scalar 5)
        ∷ (lit "rotate_by_age", scalar 0)
        ∷ [])
      (record l { has_run = true; global = some s; has_closer = true; init_path = path })

-- Init, by sync.Once; the Boolean is whether it returns an error. `configured` is the variable of the
-- environment.
unfoldable pub init : Outside → (Text → Text) → ℕ → Text → Logger → Bool × Logger
unfolding new_sink trim_space
init o directory now configured l =
    let path = path_or_default (trim_space configured) default_log_file in
    let done = after_new_sink o now path (new_sink o directory l.printed path) l in
    if l.has_run then (l.init_failed, l) else (done.init_failed, done)

unfoldable pub close : Outside → Logger → Bool × Logger
close o l = if l.has_closer then (not o.closes, record l { has_closer = false }) else (false, l)

-- Enabled.
unfoldable pub is_enabled : Logger → Bool
is_enabled l = elim l.global [ none ↦ false | some s ↦ is_some s.file ]
