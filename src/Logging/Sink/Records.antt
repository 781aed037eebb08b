-- ===== src/Logging/Sink/Records.antt =====
-- internal/logging/logging.go: what a record of the log holds, and that none is lost.
use aba_go_orchestrator.Common.{
  ℕ, Text, lit, text_eq, is_empty, trim_space, Bool, true, false, Option, none, some, List, [], ◌∷◌,
  ◌++◌, exists, ◌≡◌, refl, sym, ap, ◌∙◌, arith,
}
use aba_go_orchestrator.Logging.{string, scalar, FieldMap, lookup}
use aba_go_orchestrator.Logging.Sink.{
  Severity, severity_text, Outside, Sink, file_record, file_line, emit, add_line, Logger,
  emit_event, init, new_sink, after_new_sink, path_or_default, default_log_file,
}

-- The keys that a record of the file sets itself.
abbrev pub reserved : List Text
reserved = lit "timestamp" ∷ lit "level" ∷ lit "message" ∷ lit "event" ∷ lit "pid" ∷ []

abbrev pub is_reserved : Text → Bool
is_reserved k = exists (λ r. text_eq r k) reserved

other_kept :
    (o : Outside) (now : ℕ) (severity : Severity) (event msg k : Text) (fields : FieldMap)
    → is_empty event ≡ false
    → is_reserved k ≡ false
    → lookup k (file_record o now severity event msg fields) ≡ lookup k fields
unfolding file_record lookup
other_kept o now severity event msg k fields e free = ground (arith, e, free)

-- A record of an event holds the time, the level, the message, the event and the process whatever the
-- caller's fields are called, and every other field as the caller gave it.
pub file_record-lookup :
    (o : Outside) (now : ℕ) (severity : Severity) (event msg k : Text) (fields : FieldMap)
    → is_empty event ≡ false
    → is_reserved k ≡ false
    → let m = file_record o now severity event msg fields in
      (lookup (lit "timestamp") m ≡ some (string (o.file_time now)))
      × (lookup (lit "level") m ≡ some (string (severity_text severity)))
      × (lookup (lit "message") m ≡ some (string msg))
      × (lookup (lit "event") m ≡ some (string event))
      × (lookup (lit "pid") m ≡ some (scalar o.pid))
      × (lookup k m ≡ lookup k fields)
unfolding file_record lookup text_eq
file_record-lookup o now severity event msg k fields e free = (
  rw e refl,
  rw e refl,
  rw e refl,
  rw e refl,
  refl,
  other_kept o now severity event msg k fields e free,
)

-- A record adds one line to the console and one to the file, whether it can be encoded or not, and leaves
-- the lines before it as they are.
emit_lines :
    (o : Outside) (now : ℕ) (severity : Severity) (event msg : Text) (fields : FieldMap) (s : Sink)
    (ls : List Text)
    → s.file ≡ some ls
    → let s' = emit o now severity event msg fields s in
      (c : Text) × (d : Text) × (s'.console ≡ s.console ++ c ∷ []) × (s'.file ≡ some (ls ++ d ∷ []))
unfolding emit
emit_lines o now severity event msg fields s ls h =
    (_, _, refl, ap (add_line (file_line o now severity event msg fields)) h)

after_new_sink-has_run :
    (o : Outside) (now : ℕ) (path : Text) (s : Option Sink) (l : Logger)
    → (after_new_sink o now path s l).has_run ≡ true
unfolding emit_event
after_new_sink-has_run o now path none l = refl
after_new_sink-has_run o now path (some s) l = refl

init_again :
    (o : Outside) (directory : Text → Text) (now : ℕ) (configured : Text) (l : Logger)
    → l.has_run ≡ true
    → init o directory now configured l ≡ (l.init_failed, l)
unfolding init
init_again o directory now configured l h = rw h refl

init-has_run :
    (o : Outside) (directory : Text → Text) (now : ℕ) (configured : Text) (l : Logger) (b : Bool)
    (l' : Logger)
    → init o directory now configured l ≡ (b, l')
    → (l'.has_run ≡ true) × (b ≡ l'.init_failed)
unfolding init
init-has_run o directory now configured l b l' h =
    let path = path_or_default (trim_space configured) default_log_file in
    let s = new_sink o directory l.printed path in
    ground (arith, after_new_sink-has_run o now path s l, h)

-- Init runs once: a second call, whatever the environment and the files say by then, changes nothing and
-- answers what the first one did.
pub init_once :
    (o o' : Outside) (directory directory' : Text → Text) (now later : ℕ)
    (configured changed : Text) (l : Logger)
    → let (failed, l') = init o directory now configured l in
      init o' directory' later changed l' ≡ (failed, l')
init_once o o' directory directory' now later configured changed l =
    let (failed, l') = init o directory now configured l in
    let h = init-has_run o directory now configured l failed l' refl in
    init_again o' directory' later changed l' h.0 ∙ ap (λ b. (b, l')) (sym h.1)
