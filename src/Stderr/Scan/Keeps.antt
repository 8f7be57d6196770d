-- ===== src/Stderr/Scan/Keeps.antt =====
-- What every turn of the loop over the lines keeps: few path hints, in the order of their paths, and
-- only paths that were found in a line.
use nono_py.Common.{
  suc, Bytes, Bool, true, false, List, [], ◌∷◌, Option, none, some, if◌then◌else◌, ◌≡◌, refl,
  Bool-cases, Option-cases, inl, inr, ◌⊎◌, length, ◌≤◌, ltb, leb, ltb→lt, All, arith, is_some,
}
use nono_py.Nono.{AccessMode, write}
use nono_py.SortedMap.{
  Pairs, lookup, IsSorted, insert-IsSorted, length-insert, All-insert, All-lookup,
}
use nono_py.Stderr.Paths.{
  or_else, extract_structured_path_property, infer_access_from_structured_syscall_line,
}
use nono_py.Stderr.Paths.Found.{
  IsClean, IsBelow, OnSome, or_else-OnSome, extract_denied_path_from_error_line-IsClean,
  extract_structured_path_property-IsClean, extract_relative_write_path_from_line-IsBelow,
}
use nono_py.Stderr.Lines.{
  looks_like_access_denial, looks_like_missing_path, looks_like_structured_access_denial_code,
}
use nono_py.Stderr.Scan.{
  max_path_hints, max_structured_pending_lines, path_key, ObservedPathHint, Scan, merged_with,
  observe, note_missing, settled, relative_write, note_line, note_code, written_at, denied_at,
  plain_line, structured_at, structured_line, scan_line, scan_lines,
}

-- Both branches have the property.
either : {A : Type 0} (P : A → Type 0) (b : Bool) (x y : A) → P x → P y → P (if b then x else y)
either P true x y px py = px
either P false x y px py = py

module _ (current_dir : Option Bytes) where
  -- The path was found in a line as it is, or joined to the current directory.
  abbrev pub IsFound : Bytes → Type 0
  IsFound path = IsClean path ⊎ IsBelow current_dir path

  abbrev pub HintAt : Bytes × ObservedPathHint → Type 0
  HintAt (k, hint) = (k ≡ path_key hint.path) × IsFound hint.path

  abbrev pub PathAt : Bytes × Bytes → Type 0
  PathAt (k, path) = (k ≡ path_key path) × IsFound path

  pub record AreHints (observed : Pairs ObservedPathHint) : Type 0 where
    pub few : length observed ≤ max_path_hints
    pub sorted : IsSorted observed
    pub found : All HintAt observed

  pub record ArePaths (missing : Pairs Bytes) : Type 0 where
    pub sorted : IsSorted missing
    pub found : All PathAt missing

  pub record IsSound (st : Scan) : Type 0 where
    pub hints : AreHints st.observed
    pub absent : ArePaths st.missing
    pub pending : OnSome (IsBelow current_dir) st.pending_relative_write

  merged_with-HintAt :
      (path : Bytes) (access : AccessMode) (observed : Pairs ObservedPathHint)
      → All HintAt observed
      → IsFound path
      → HintAt (path_key path, merged_with path access (lookup (path_key path) observed))
  merged_with-HintAt path access observed hs h =
      elim (Option-cases (lookup (path_key path) observed)) [
        | inl e ↦ rw e (refl, h)
        | inr (hint, e) ↦ rw e (All-lookup HintAt (path_key path) hint observed e hs)
      ]

  observe-AreHints :
      (path : Bytes) (access : AccessMode) (observed : Pairs ObservedPathHint)
      → IsFound path
      → AreHints observed
      → AreHints (observe path access observed)
  unfolding observe
  observe-AreHints path access observed h hs =
      elim (Bool-cases (ltb (length observed) max_path_hints)) [
        | inr e ↦ rw e hs
        | inl e ↦
            let hint : ObservedPathHint =
              merged_with path access (lookup (path_key path) observed) in
            let below = ltb→lt (length observed) max_path_hints e in
            let grown = length-insert (path_key path) hint observed in
            rw e record {
              few = omega arith;
              sorted = insert-IsSorted (path_key path) hint observed hs.sorted;
              found =
                  All-insert HintAt (path_key path) hint observed
                    (merged_with-HintAt path access observed hs.found h) hs.found;
            }
      ]

  note_missing-ArePaths :
      (o : Option Bytes) (missing : Pairs Bytes)
      → OnSome IsClean o
      → ArePaths missing
      → ArePaths (note_missing o missing)
  unfolding note_missing
  note_missing-ArePaths none missing h ms = ms
  note_missing-ArePaths (some path) missing h ms =
      either ArePaths (is_some (lookup (path_key path) missing)) _ _ ms record {
        sorted = insert-IsSorted (path_key path) path missing ms.sorted;
        found = All-insert PathAt (path_key path) path missing (refl, inl h) ms.found;
      }

  relative_write-IsBelow :
      (line : Bytes) (cwd : Option Bytes) → OnSome (IsBelow cwd) (relative_write line cwd)
  relative_write-IsBelow line none = tt
  relative_write-IsBelow line (some cwd) = extract_relative_write_path_from_line-IsBelow line cwd

  written_at-IsSound :
      (o : Option Bytes) (st : Scan)
      → OnSome (IsBelow current_dir) o
      → IsSound st
      → IsSound (written_at o st)
  written_at-IsSound none st h s = s
  written_at-IsSound (some path) st h s = record {
    hints = observe-AreHints path write st.observed (inr h) s.hints;
    absent = s.absent;
    pending = tt;
  }

  denied_at-IsSound :
      (line : Bytes) (o : Option Bytes) (st : Scan)
      → OnSome IsClean o
      → IsSound st
      → IsSound (denied_at line o st)
  denied_at-IsSound line (some path) st h s = record {
    hints = observe-AreHints path _ st.observed (inl h) s.hints;
    absent = s.absent;
    pending = tt;
  }
  denied_at-IsSound line none st h s = written_at-IsSound st.pending_relative_write st s.pending s

  plain_line-IsSound : (line : Bytes) (st : Scan) → IsSound st → IsSound (plain_line line st)
  plain_line-IsSound line st s =
      let clean = extract_denied_path_from_error_line-IsClean line in
      either IsSound (looks_like_missing_path line) _ _
        (record {
          hints = s.hints;
          absent = note_missing-ArePaths _ st.missing clean s.absent;
          pending = s.pending;
        })
        (either IsSound (looks_like_access_denial line) _ _ (denied_at-IsSound line _ st clean s) s)

  structured_at-IsSound :
      (path : Option Bytes) (access : Option AccessMode) (st plain : Scan)
      → OnSome IsClean path
      → IsSound st
      → IsSound plain
      → IsSound (structured_at path access st plain)
  structured_at-IsSound none access st plain h s p = p
  structured_at-IsSound (some path) none st plain h s p = p
  structured_at-IsSound (some path) (some access) st plain h s p = record {
    hints = observe-AreHints path access st.observed (inl h) s.hints;
    absent = s.absent;
    pending = s.pending;
  }

  structured_line-IsSound :
      (line : Bytes) (st : Scan) → IsSound st → IsSound (structured_line line st)
  structured_line-IsSound line st s =
      let access =
        or_else (infer_access_from_structured_syscall_line line) st.pending_structured_access in
      either IsSound (leb (suc st.pending_structured_lines) max_structured_pending_lines) _ _
        (structured_at-IsSound (extract_structured_path_property line) access _ _
          (extract_structured_path_property-IsClean line)
          (record { hints = s.hints; absent = s.absent; pending = s.pending })
          (plain_line-IsSound line _
            (record { hints = s.hints; absent = s.absent; pending = s.pending })))
        (plain_line-IsSound line (settled st)
          (record { hints = s.hints; absent = s.absent; pending = s.pending }))

  note_code-IsSound : (line : Bytes) (st : Scan) → IsSound st → IsSound (note_code line st)
  note_code-IsSound line st s =
      either IsSound (looks_like_structured_access_denial_code line) _ _
        (record { hints = s.hints; absent = s.absent; pending = s.pending }) s

  scan_line-IsSound :
      (protected_paths : List Bytes) (line : Bytes) (st : Scan)
      → IsSound st
      → IsSound (scan_line protected_paths current_dir line st)
  unfolding scan_line
  scan_line-IsSound protected_paths line st s =
      let noted : Scan = note_line protected_paths current_dir line st in
      let coded : Scan = note_code line noted in
      let sound : IsSound coded = note_code-IsSound line noted (record {
        hints = s.hints;
        absent = s.absent;
        pending =
            or_else-OnSome (IsBelow current_dir) _ _ (relative_write-IsBelow line current_dir)
              s.pending;
      }) in
      either IsSound coded.pending_structured_access_denial _ _
        (structured_line-IsSound line coded sound) (plain_line-IsSound line coded sound)

  pub scan_lines-IsSound :
      (protected_paths : List Bytes) (ls : List Bytes) (st : Scan)
      → IsSound st
      → IsSound (scan_lines protected_paths current_dir ls st)
  unfolding scan_lines
  scan_lines-IsSound protected_paths [] st s = s
  scan_lines-IsSound protected_paths (line ∷ ls) st s =
      scan_lines-IsSound protected_paths ls _ (scan_line-IsSound protected_paths line st s)
