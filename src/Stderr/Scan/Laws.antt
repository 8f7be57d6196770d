-- ===== src/Stderr/Scan/Laws.antt =====
-- What an observation holds once the loop is done.
use nono_py.Common.{
  Bytes, Bool, true, false, ◌&&◌, not, List, [], ◌∷◌, Option, none, some, ◌≡◌, refl, subst, sym,
  length, ◌≤◌, All, leb, arith, Bool-cases, inl, inr, Option-cases, drop, take, ap₂,
}
use mathlib.Core.Option.{some-injective}
use nono_py.SortedMap.{Pairs, IsSorted}
use nono_py.Stderr.Text.{lines}
use nono_py.Stderr.Scan.{
  max_stderr_bytes, max_path_hints, path_key, ObservedPathHint, ErrorObservation, Scan, scan_lines,
  initial, values, observation_of, continues, capped, analyze_error_output,
}
use nono_py.Stderr.Scan.Keeps.{IsFound, HintAt, PathAt, IsSound, scan_lines-IsSound}

-- The slice at the limit would cut a character.
abbrev pub is_cut : Bytes → Bool
is_cut error_output =
    not (leb (length error_output) max_stderr_bytes)
    && continues (drop max_stderr_bytes error_output)

-- Under their keys, in which order they stand.
abbrev pub hint_pairs : List ObservedPathHint → Pairs ObservedPathHint
hint_pairs [] = []
hint_pairs (hint ∷ hints) = (path_key hint.path, hint) ∷ hint_pairs hints

abbrev pub path_pairs : List Bytes → Pairs Bytes
path_pairs [] = []
path_pairs (path ∷ paths) = (path_key path, path) ∷ path_pairs paths

pub record IsBounded (o : ErrorObservation) : Type 0 where
  pub few_hints : length o.path_hints ≤ max_path_hints
  pub hints_sorted : IsSorted (hint_pairs o.path_hints)
  pub missing_sorted : IsSorted (path_pairs o.missing_paths)

pub record AreFound (current_dir : Option Bytes) (o : ErrorObservation) : Type 0 where
  pub hints_found : All (λ hint. IsFound current_dir hint.path) o.path_hints
  pub missing_found : All (IsFound current_dir) o.missing_paths

length-values : {V : Type 0} (m : Pairs V) → length (values m) ≡ length m
length-values [] = refl
length-values ((k, v) ∷ m) = let rest = length-values m in omega arith

module _ (current_dir : Option Bytes) where
  hint_pairs-values :
      (m : Pairs ObservedPathHint) → All (HintAt current_dir) m → hint_pairs (values m) ≡ m
  hint_pairs-values [] h = refl
  hint_pairs-values ((k, hint) ∷ m) ((e, _), hs) =
      ap₂ (λ i rest. (i, hint) ∷ rest) (sym e) (hint_pairs-values m hs)

  path_pairs-values : (m : Pairs Bytes) → All (PathAt current_dir) m → path_pairs (values m) ≡ m
  path_pairs-values [] h = refl
  path_pairs-values ((k, path) ∷ m) ((e, _), hs) =
      ap₂ (λ i rest. (i, path) ∷ rest) (sym e) (path_pairs-values m hs)

  hints_of :
      (m : Pairs ObservedPathHint)
      → All (HintAt current_dir) m
      → All (λ hint. IsFound current_dir hint.path) (values m)
  hints_of [] h = tt
  hints_of ((k, hint) ∷ m) ((_, f), hs) = (f, hints_of m hs)

  paths_of : (m : Pairs Bytes) → All (PathAt current_dir) m → All (IsFound current_dir) (values m)
  paths_of [] h = tt
  paths_of ((k, path) ∷ m) ((_, f), hs) = (f, paths_of m hs)

  observation_of-IsBounded : (st : Scan) → IsSound current_dir st → IsBounded (observation_of st)
  observation_of-IsBounded st s =
      let same = length-values st.observed in
      let few = s.hints.few in
      record {
        few_hints = omega arith;
        hints_sorted =
            subst (λ m. IsSorted m) (sym (hint_pairs-values st.observed s.hints.found))
              s.hints.sorted;
        missing_sorted =
            subst (λ m. IsSorted m) (sym (path_pairs-values st.missing s.absent.found))
              s.absent.sorted;
      }

  observation_of-AreFound :
      (st : Scan) → IsSound current_dir st → AreFound current_dir (observation_of st)
  observation_of-AreFound st s = record {
    hints_found = hints_of st.observed s.hints.found;
    missing_found = paths_of st.missing s.absent.found;
  }

-- The state of the loop in the end.
scanned-IsSound :
    (current_dir : Option Bytes) (protected_paths ls : List Bytes)
    → IsSound current_dir (scan_lines protected_paths current_dir ls initial)
scanned-IsSound current_dir protected_paths ls =
    scan_lines-IsSound current_dir protected_paths ls initial record {
      hints = record { few = omega arith; sorted = tt; found = tt };
      absent = record { sorted = tt; found = tt };
      pending = tt;
    }

capped-some :
    (error_output : Bytes)
    → is_cut error_output ≡ false
    → (text : Bytes) × (capped error_output ≡ some text)
unfolding capped
capped-some error_output h = elim (Bool-cases (leb (length error_output) max_stderr_bytes)) [
  | inl e ↦ (error_output, rw e refl)
  | inr e ↦ elim (Bool-cases (continues (drop max_stderr_bytes error_output))) [
    | inl e' ↦ let h' : true ≡ false = rw (e, e') at h in absurd (cc h')
    | inr e' ↦ (take max_stderr_bytes error_output, rw (e, e') refl)
  ]
]

-- Unless a character of the error output is cut at 65,536 bytes, its analysis gives an observation,
-- with at most fifty path hints; the hints and the missing paths stand in the order of their paths,
-- with no path twice.
pub analyze_error_output-IsBounded :
    (error_output : Bytes) (protected_paths : List Bytes) (current_dir : Option Bytes)
    → is_cut error_output ≡ false
    → (o : ErrorObservation) × (analyze_error_output error_output protected_paths current_dir
        ≡ some o)
      × IsBounded o
unfolding analyze_error_output
analyze_error_output-IsBounded error_output protected_paths current_dir h =
    let (text, e) = capped-some error_output h in
    let sound = scanned-IsSound current_dir protected_paths (lines text) in
    (
      observation_of (scan_lines protected_paths current_dir (lines text) initial),
      rw (analyze_error_output, e) refl,
      observation_of-IsBounded current_dir _ sound,
    )

-- Every path that the analysis of an error output reports, denied or missing, is nonempty and without
-- a control character, or it is the current directory joined with a nonempty relative path that has
-- no control character, no component `..` and neither `~` nor `-` at its start.
pub analyze_error_output-AreFound :
    (error_output : Bytes) (protected_paths : List Bytes) (current_dir : Option Bytes)
    (o : ErrorObservation)
    → analyze_error_output error_output protected_paths current_dir ≡ some o
    → AreFound current_dir o
unfolding analyze_error_output
analyze_error_output-AreFound error_output protected_paths current_dir o h =
    elim (Option-cases (capped error_output)) [
      | inl e ↦
          let h' : ◌≡◌ {A = Option ErrorObservation} none (some o) =
            rw (analyze_error_output, e) at h in
          absurd (cc h')
      | inr (text, e) ↦
          let st : Scan = scan_lines protected_paths current_dir (lines text) initial in
          let h' : some (observation_of st) ≡ some o = rw (analyze_error_output, e) at h in
          subst (AreFound current_dir) (some-injective (observation_of st) o h') (
            observation_of-AreFound current_dir st
              (scanned-IsSound current_dir protected_paths (lines text)))
    ]
