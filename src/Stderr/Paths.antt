-- ===== src/Stderr/Paths.antt =====
-- src/stderr_observation.rs: the functions that find a path in a line.
pub mod Found
pub mod Quoted
use nono_py.Common.{
  ℕ, ◌+◌, Bytes, codes, starts_with, strip_prefix, bytes_eq, Bool, true, false, ◌&&◌, ◌||◌, not,
  List, [], ◌∷◌, ◌++◌, Option, none, some, if◌then◌else◌, leb, ◌==◌, is_empty, length, take, drop,
  any, contains,
}
use nono_py.Nono.{AccessMode, write, read_write}
use nono_py.Policy.Files.{push}
use nono_py.Stderr.Text.{
  to_ascii_lowercase, find, find_any, mentions, trim, trim_start, trim_matches, trim_end_matches,
  first_word, has_control, split,
}

-- `is_empty()` or a control character
abbrev pub is_bad : Bytes → Bool
is_bad s = is_empty s || has_control s

abbrev pub or_else : {A : Type 0} → Option A → Option A → Option A
or_else (some a) o = some a
or_else none o = o

-- `and_then`, and `?` on an option.
abbrev pub and_then : {A : Type 0} → Option A → (A → Option Bytes) → Option Bytes
and_then none f = none
and_then (some a) f = f a

abbrev pub unwrap_or : {A : Type 0} → Option A → A → A
unwrap_or (some a) d = a
unwrap_or none d = d

abbrev pub smaller : ℕ → Option ℕ → ℕ
smaller a none = a
smaller a (some b) = if leb a b then a else b

abbrev pub min_of : Option ℕ → Option ℕ → Option ℕ
min_of (some a) o = some (smaller a o)
min_of none o = o

abbrev pub is_quote : ℕ → Bool
is_quote c = c == b'\'' || c == b'"'

abbrev pub least_end : Bytes → ℕ → List Bytes → ℕ
least_end after_start end [] = end
least_end after_start end (suffix ∷ ss) =
    least_end after_start (smaller end (find suffix after_start)) ss

unfoldable pub path_segment_end : Bytes → ℕ
path_segment_end after_start =
    least_end after_start (unwrap_or (find_any (codes "'\"`)(<>") after_start) (length after_start))
      (codes ": Permission denied"
        ∷ codes ": Operation not permitted"
        ∷ codes ": Read-only file system"
        ∷ [])

-- Without the opening quote, if there is one.
abbrev pub unquoted_of : Bytes → Bytes × Option ℕ
unquoted_of [] = ([], none)
unquoted_of (c ∷ s) = if is_quote c then (s, some c) else (c ∷ s, none)

abbrev pub end_of : Option ℕ → Bytes → ℕ
end_of (some q) after_start = unwrap_or (find (q ∷ []) after_start) (length after_start)
end_of none after_start = path_segment_end after_start

abbrev pub candidate_of : Bytes → Option Bytes
candidate_of candidate = if is_bad candidate then none else some candidate

abbrev pub candidate_at : Option ℕ → Bytes → Option Bytes
candidate_at closing_quote after_start =
    candidate_of (trim (take (end_of closing_quote after_start) after_start))

unfoldable pub extract_path_from_segment : Bytes → Option Bytes
extract_path_from_segment segment =
    let trimmed = trim segment in
    let (unquoted, closing_quote) = unquoted_of trimmed in
    and_then (min_of (find (codes "~/") unquoted) (find (codes "/") unquoted))
      (λ start. if is_empty trimmed then none else candidate_at closing_quote (drop start unquoted))

abbrev pub syscall_words : List Bytes
syscall_words =
    codes "mkdir"
    ∷ codes "mkdtemp"
    ∷ codes "open"
    ∷ codes "copyfile"
    ∷ codes "rename"
    ∷ codes "unlink"
    ∷ []

-- The loop over the words.
unfoldable pub path_after_words : Bytes → List Bytes → Option Bytes
path_after_words line [] = none
path_after_words line (marker ∷ markers) =
    let needle = marker ++ codes " " in
    or_else
      (and_then (find needle (to_ascii_lowercase line))
        (λ idx. extract_path_from_segment (drop (idx + length needle) line)))
      (path_after_words line markers)

unfoldable pub extract_path_after_syscall_word : Bytes → Option Bytes
extract_path_after_syscall_word line = path_after_words line syscall_words

abbrev pub denial_markers : List Bytes
denial_markers =
    codes "Operation not permitted" ∷ codes "Permission denied" ∷ codes "Read-only file system" ∷ []

-- What stands before the first of the markers that the line has.
unfoldable pub before_marker : Bytes → List Bytes → Bytes
before_marker line [] = line
before_marker line (marker ∷ markers) =
    let rest = before_marker line markers in
    elim (find marker line) [ none ↦ rest | some idx ↦ take idx line ]

-- The path of the last segment that has one.
unfoldable pub last_path : List Bytes → Option Bytes
last_path [] = none
last_path (segment ∷ segments) = or_else (last_path segments) (extract_path_from_segment segment)

unfoldable pub extract_denied_path_from_error_line : Bytes → Option Bytes
extract_denied_path_from_error_line line =
    let prefix = before_marker line denial_markers in
    or_else (extract_path_after_syscall_word line) (
      or_else (last_path (split b':' prefix))
        (or_else (extract_path_from_segment prefix) (extract_path_from_segment line)))

abbrev pub prepend : Bytes → Option Bytes → Option Bytes
prepend s none = none
prepend s (some t) = some (s ++ t)

-- The loop over the characters up to the closing quote; `escaped` after a backslash.
unfoldable pub quoted_value : ℕ → Bool → Bytes → Option Bytes
quoted_value quote escaped [] = none
quoted_value quote true (c ∷ s) =
    let rest = quoted_value quote false s in
    if c == quote || c == b'\\' then prepend (c ∷ []) rest else prepend (b'\\' ∷ c ∷ []) rest
quoted_value quote false (c ∷ s) =
    let rest = quoted_value quote (c == b'\\') s in
    if c == b'\\' then rest else if c == quote then some [] else prepend (c ∷ []) rest

-- The quote and what follows it.
abbrev pub property_value : Bytes → Option Bytes
property_value [] = none
property_value (quote ∷ after_quote) =
    if is_quote quote
    then and_then (quoted_value quote false after_quote) (λ value. candidate_of (trim value))
    else none

abbrev pub after_key : Bytes → Option Bytes
after_key s =
    and_then (strip_prefix (trim_start s) (codes ":")) (λ rest. property_value (trim_start rest))

unfoldable pub extract_structured_string_property : Bytes → Bytes → Option Bytes
extract_structured_string_property line key =
    let trimmed = trim line in
    and_then
      (or_else (strip_prefix trimmed key) (
        or_else (strip_prefix trimmed (b'"' ∷ key ++ b'"' ∷ []))
          (strip_prefix trimmed (b'\'' ∷ key ++ b'\'' ∷ []))))
      after_key

unfoldable pub extract_structured_path_property : Bytes → Option Bytes
extract_structured_path_property line = extract_structured_string_property line (codes "path")

abbrev pub write_words : List Bytes
write_words =
    codes "mkdir"
    ∷ codes "mkdtemp"
    ∷ codes "rmdir"
    ∷ codes "unlink"
    ∷ codes "rename"
    ∷ codes "write"
    ∷ codes "copyfile"
    ∷ codes "chmod"
    ∷ codes "chown"
    ∷ codes "utimes"
    ∷ []

unfoldable pub infer_access_from_structured_syscall_line : Bytes → Option AccessMode
infer_access_from_structured_syscall_line line =
    elim (extract_structured_string_property line (codes "syscall")) [
      | none ↦ none
      | some syscall ↦
          some
            (if any (bytes_eq (to_ascii_lowercase syscall)) write_words then write else read_write)
    ]

-- What follows the first of the words that the line has.
unfoldable pub after_word : Bytes → List Bytes → Option Bytes
after_word line [] = none
after_word line (marker ∷ markers) =
    let rest = after_word line markers in
    elim (find marker (to_ascii_lowercase line)) [
      | none ↦ rest
      | some idx ↦ some (drop (idx + length marker) line)
    ]

abbrev pub creating_words : List Bytes
creating_words =
    codes "creating empty " ∷ codes "creating " ∷ codes "create " ∷ codes "writing " ∷ []

-- The punctuation around the word, full stops at its end, and space.
abbrev pub stripped_word : Bytes → Bytes
stripped_word word =
    trim (
      trim_end_matches (λ c. c == b'.') (trim_matches (λ c. contains c (codes "'\"`,:;()[]")) word))

abbrev pub is_relative : Bytes → Bool
is_relative candidate = not (
    is_empty candidate
    || starts_with candidate (codes "/")
    || starts_with candidate (codes "~")
    || starts_with candidate (codes "-")
    || has_control candidate
    || any (bytes_eq (codes "..")) (split b'/' candidate))

abbrev pub join_word : Bytes → Bytes → Option Bytes
join_word current_dir word =
    let candidate = stripped_word word in
    if is_relative candidate then some (push current_dir candidate) else none

unfoldable pub extract_relative_write_path_from_line : Bytes → Bytes → Option Bytes
extract_relative_write_path_from_line line current_dir =
    and_then (and_then (after_word line creating_words) first_word) (join_word current_dir)
