-- ===== src/Logging.antt =====
-- internal/logging/logging.go: the fields of a diagnostic event, and what is hidden in them. A value
-- of the Go type `any` is one of the cases that isEmptyValue tells apart, or another one.
pub mod Masks
pub mod Redaction
pub mod Sink
use aba_go_orchestrator.Common.{
  ℕ, zero, suc, ◌+◌, ◌-◌, Text, lit, text_eq, is_empty, trim_space, ltb, leb, ◌==◌, Bool, true,
  false, not, ◌&&◌, ◌||◌, Option, none, some, List, [], ◌∷◌, ◌++◌, length, take, drop, replicate,
  exists, first, if◌then◌else◌,
}

pub data Value : Type 0 where
  nil : Value
  string : Text → Value
  strings : List Text → Value
  -- A slice or a map, by its length.
  items entries : ℕ → Value
  -- A boolean, a number, or anything else.
  scalar : ℕ → Value

unfoldable pub is_empty_value : Value → Bool
is_empty_value nil = true
is_empty_value (string s) = is_empty (trim_space s)
is_empty_value (strings []) = true
is_empty_value (strings (s ∷ ss)) = false
is_empty_value (items n) = n == 0
is_empty_value (entries n) = n == 0
is_empty_value (scalar n) = false

-- A field map: the first entry of a key is the one that is read.
abbrev pub Entry : Type 0
Entry = Text × Value

abbrev pub FieldMap : Type 0
FieldMap = List Entry

unfoldable pub lookup : Text → FieldMap → Option Value
lookup k [] = none
lookup k ((j, v) ∷ m) = let rest = lookup k m in if text_eq j k then some v else rest

-- `out[key] = value`.
abbrev pub put : Text → Value → FieldMap → FieldMap
put k v m = (k, v) ∷ m

abbrev put_value : Text → Value → FieldMap → FieldMap
put_value k v m = if is_empty k || is_empty_value v then m else put k v m

abbrev put_pair : Value → Value → FieldMap → FieldMap
put_pair (string k) v m = put_value k v m
put_pair nil v m = m
put_pair (strings ss) v m = m
put_pair (items n) v m = m
put_pair (entries n) v m = m
put_pair (scalar n) v m = m

-- The loop over the pairs; an unpaired key at the end is ignored.
unfoldable pub fields_from : List Value → FieldMap → FieldMap
fields_from [] m = m
fields_from (k ∷ []) m = m
fields_from (k ∷ v ∷ kv) m = fields_from kv (put_pair k v m)

-- Fields.
abbrev pub fields : List Value → FieldMap
fields kv = fields_from kv []

-- The copy of one map over another; the order in which Go walks it does not matter to `lookup`.
abbrev pub merge : FieldMap → FieldMap → FieldMap
merge over base = over ++ base

-- WithFields.
abbrev pub with_fields : FieldMap → List Value → FieldMap
with_fields base kv = merge (fields kv) base

-- StrDeref.
abbrev pub str_deref : Option Text → Text
str_deref none = []
str_deref (some s) = s

abbrev pub stars : ℕ → Text
stars n = replicate n b'*'

abbrev keep_last : ℕ
keep_last = 4

abbrev keep_first : ℕ → ℕ
keep_first n = if leb n (3 + keep_last) then 1 else 3

-- MaskPhone of the trimmed text.
abbrev mask : Text → Text
mask r =
    let n = length r in
    let first = keep_first n in
    if leb n 4
    then stars n
    else if leb n (first + keep_last)
    then stars n
    else take first r ++ stars (n - first - keep_last) ++ drop (n - keep_last) r

unfoldable pub mask_phone : Text → Text
mask_phone phone = mask (trim_space phone)

-- strings.LastIndex by one character.
unfoldable pub last_index : ℕ → Text → Option ℕ
last_index c [] = none
last_index c (d ∷ s) = elim (last_index c s) [
  | some i ↦ some (suc i)
  | none ↦ if c == d then some 0 else none
]

-- strings.Index of "//".
unfoldable pub index_slashes : Text → Option ℕ
index_slashes [] = none
index_slashes (c ∷ []) = none
index_slashes (c ∷ d ∷ s) =
    if c == b'/' && d == b'/'
    then some 0
    else elim (index_slashes (d ∷ s)) [ some i ↦ some (suc i) | none ↦ none ]

abbrev hidden : Text → Text
hidden userinfo = if exists (λ c. b':' == c) userinfo then lit "***:***@" else lit "***@"

abbrev redact_at : Text → ℕ → Option ℕ → Text
redact_at s at none = s
redact_at s at (some scheme_end) =
    let start = scheme_end + 2 in
    let userinfo = take (at - start) (drop start s) in
    if ltb at start
    then s
    else if is_empty userinfo
    then s
    else take start s ++ hidden userinfo ++ drop (at + 1) s

abbrev redact : Text → Option ℕ → Text
redact s none = s
redact s (some at) = redact_at s at (index_slashes s)

-- RedactURL; the empty text has no `@`.
unfoldable pub redact_url : Text → Text
unfolding last_index index_slashes
redact_url raw = let s = trim_space raw in redact s (last_index b'@' s)
