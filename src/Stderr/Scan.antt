-- ===== src/Stderr/Scan.antt =====
-- src/stderr_observation.rs: `analyze_error_output`. The maps are keyed by `path_key`, and hold the
pub mod Keeps
pub mod Laws
-- path that was entered first.
use nono_py.Common.{
  ℕ, suc, Bytes, codes, Bool, true, false, ◌&&◌, ◌||◌, not, List, [], ◌∷◌, ◌++◌, Option, none, some,
  if◌then◌else◌, ltb, leb, bytes_eq, length, take, drop, is_some,
}
use nono_py.Nono.{AccessMode, read, write, read_write}
use nono_py.SortedMap.{Pairs, lookup, insert}
use nono_py.Policy.Checks.{components}
use nono_py.Stderr.Text.{lines}
use nono_py.Stderr.Paths.{
  extract_denied_path_from_error_line, extract_structured_path_property,
  infer_access_from_structured_syscall_line, extract_relative_write_path_from_line, or_else,
}
use nono_py.Stderr.Lines.{
  looks_like_network_denial, looks_like_access_denial, looks_like_structured_access_denial_code,
  looks_like_missing_path, detect_non_sandbox_failure_line, detect_protected_file_in_error_line,
  infer_access_from_error_line, merge_access_modes,
}

abbrev pub max_stderr_bytes : ℕ
max_stderr_bytes = 65536

abbrev pub max_path_hints : ℕ
max_path_hints = 50

abbrev pub max_structured_pending_lines : ℕ
max_structured_pending_lines = 5

-- A component by its kind (the root, `.`, `..` or a name), its bytes and an end below any byte, so
-- that the order of the keys as byte strings is `Ord` of paths.
abbrev pub rank : Bytes → ℕ
rank c =
    if bytes_eq c (codes "/")
    then 1
    else if bytes_eq c (codes ".")
    then 2
    else if bytes_eq c (codes "..")
    then 3
    else 4

abbrev pub raised : Bytes → Bytes
raised [] = 0 ∷ []
raised (b ∷ s) = suc b ∷ raised s

abbrev pub key_of : List Bytes → Bytes
key_of [] = []
key_of (c ∷ cs) = rank c ∷ raised c ++ key_of cs

unfoldable pub path_key : Bytes → Bytes
path_key path = key_of (components path)

pub record ObservedPathHint : Type 0 where
  pub path : Bytes
  pub access : AccessMode

pub record ErrorObservation : Type 0 where
  pub blocked_protected_file : Option Bytes
  pub path_hints : List ObservedPathHint
  pub missing_paths : List Bytes
  pub non_sandbox_failure : Option Bytes
  pub network_blocked_hint : Bool

-- The variables of the loop.
pub record Scan : Type 0 where
  pub blocked_protected_file : Option Bytes
  pub observed : Pairs ObservedPathHint
  pub missing : Pairs Bytes
  pub pending_relative_write : Option Bytes
  pub pending_structured_access_denial : Bool
  pub pending_structured_lines : ℕ
  pub pending_structured_access : Option AccessMode
  pub non_sandbox_failure : Option Bytes
  pub network_blocked_hint : Bool

-- `entry(path).and_modify(…).or_insert(access)`
abbrev pub merged_with : Bytes → AccessMode → Option ObservedPathHint → ObservedPathHint
merged_with path access none = record { path = path; access = access }
merged_with path access (some hint) = record hint { access = merge_access_modes hint.access access }

unfoldable pub observe : Bytes → AccessMode → Pairs ObservedPathHint → Pairs ObservedPathHint
observe path access observed =
    if ltb (length observed) max_path_hints
    then insert (path_key path) (merged_with path access (lookup (path_key path) observed)) observed
    else observed

-- `BTreeSet::insert`: an equal path that is there stays.
unfoldable pub note_missing : Option Bytes → Pairs Bytes → Pairs Bytes
note_missing none missing = missing
note_missing (some path) missing =
    if is_some (lookup (path_key path) missing)
    then missing
    else insert (path_key path) path missing

-- No structured denial is pending.
abbrev pub settled : Scan → Scan
settled st = record st {
  pending_structured_access_denial = false;
  pending_structured_lines = 0;
  pending_structured_access = none;
}

abbrev pub relative_write : Bytes → Option Bytes → Option Bytes
relative_write line none = none
relative_write line (some cwd) = extract_relative_write_path_from_line line cwd

-- What the turn notes first, whatever follows.
abbrev pub note_line : List Bytes → Option Bytes → Bytes → Scan → Scan
note_line protected_paths current_dir line st = record st {
  network_blocked_hint = st.network_blocked_hint || looks_like_network_denial line;
  blocked_protected_file =
      or_else st.blocked_protected_file (detect_protected_file_in_error_line protected_paths line);
  non_sandbox_failure = or_else st.non_sandbox_failure (detect_non_sandbox_failure_line line);
  pending_relative_write = or_else (relative_write line current_dir) st.pending_relative_write;
}

abbrev pub note_code : Bytes → Scan → Scan
note_code line st =
    if looks_like_structured_access_denial_code line
    then record st { pending_structured_access_denial = true; pending_structured_lines = 0 }
    else st

-- A denial in a line without a path is one of writing the path that is pending.
abbrev pub written_at : Option Bytes → Scan → Scan
written_at none st = st
written_at (some path) st = record st {
  observed = observe path write st.observed;
  pending_relative_write = none;
}

abbrev pub denied_at : Bytes → Option Bytes → Scan → Scan
denied_at line none st = written_at st.pending_relative_write st
denied_at line (some path) st = record st {
  observed = observe path (infer_access_from_error_line line path) st.observed;
  pending_relative_write = none;
}

-- The rest of a turn whose line names no structured property.
abbrev pub plain_line : Bytes → Scan → Scan
plain_line line st =
    if looks_like_missing_path line
    then record st { missing = note_missing (extract_denied_path_from_error_line line) st.missing }
    else if looks_like_access_denial line
    then denied_at line (extract_denied_path_from_error_line line) st
    else st

-- The access and the path of a structured property, once both are known; `plain` is the turn without.
abbrev pub structured_at : Option Bytes → Option AccessMode → Scan → Scan → Scan
structured_at (some path) (some access) st plain =
    settled (record st { observed = observe path access st.observed })
structured_at _ _ st plain = plain

abbrev pub structured_line : Bytes → Scan → Scan
structured_line line st =
    let access =
      or_else (infer_access_from_structured_syscall_line line) st.pending_structured_access in
    let st' = record st {
      pending_structured_lines = suc st.pending_structured_lines;
      pending_structured_access = access;
    } in
    if leb st'.pending_structured_lines max_structured_pending_lines
    then structured_at (extract_structured_path_property line) access st' (plain_line line st')
    else plain_line line (settled st)

-- One turn of the loop.
unfoldable pub scan_line : List Bytes → Option Bytes → Bytes → Scan → Scan
scan_line protected_paths current_dir line st =
    let noted = note_code line (note_line protected_paths current_dir line st) in
    if noted.pending_structured_access_denial
    then structured_line line noted
    else plain_line line noted

unfoldable pub scan_lines : List Bytes → Option Bytes → List Bytes → Scan → Scan
scan_lines protected_paths current_dir [] st = st
scan_lines protected_paths current_dir (line ∷ ls) st =
    scan_lines protected_paths current_dir ls (scan_line protected_paths current_dir line st)

abbrev pub initial : Scan
initial = record {
  blocked_protected_file = none;
  observed = [];
  missing = [];
  pending_relative_write = none;
  pending_structured_access_denial = false;
  pending_structured_lines = 0;
  pending_structured_access = none;
  non_sandbox_failure = none;
  network_blocked_hint = false;
}

abbrev pub values : {V : Type 0} → Pairs V → List V
values [] = []
values ((k, v) ∷ m) = v ∷ values m

abbrev pub observation_of : Scan → ErrorObservation
observation_of st = record {
  blocked_protected_file = st.blocked_protected_file;
  path_hints = values st.observed;
  missing_paths = values st.missing;
  non_sandbox_failure = st.non_sandbox_failure;
  network_blocked_hint = st.network_blocked_hint;
}

-- A byte that is not the first of a character.
abbrev pub continues : Bytes → Bool
continues [] = false
continues (b ∷ s) = leb 128 b && ltb b 192

-- The slice panics, `none`, when it would cut a character.
unfoldable pub capped : Bytes → Option Bytes
capped error_output =
    if leb (length error_output) max_stderr_bytes
    then some error_output
    else if continues (drop max_stderr_bytes error_output)
    then none
    else some (take max_stderr_bytes error_output)

unfoldable pub analyze_error_output : Bytes → List Bytes → Option Bytes → Option ErrorObservation
analyze_error_output error_output protected_paths current_dir = elim (capped error_output) [
  | none ↦ none
  | some text ↦ some (observation_of (scan_lines protected_paths current_dir (lines text) initial))
]
