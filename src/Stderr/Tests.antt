-- ===== src/Stderr/Tests.antt =====
-- Lines of error output and what is read from them.
use nono_py.Common.{
  Bytes, codes, starts_with, strip_prefix, bytes_eq, is_utf8, false, [], ◌∷◌, ◌++◌, none, some, ◌≡◌,
  refl,
}
use nono_py.Nono.{read, write}
use nono_py.SortedMap.{lookup, insert, cmp_bytes}
use nono_py.Policy.Checks.{components, segments, normal}
use nono_py.Policy.Files.{push}
use nono_py.Stderr.Text.{
  to_ascii_lowercase, find, find_any, skip_white, reverse_onto, until_white, first_word, drop_while,
  has_control, split, lines, trim,
}
use nono_py.Stderr.Paths.{
  is_bad, path_segment_end, extract_path_from_segment, path_after_words,
  extract_path_after_syscall_word, before_marker, last_path, extract_denied_path_from_error_line,
  quoted_value, after_word, extract_structured_string_property, extract_structured_path_property,
  infer_access_from_structured_syscall_line, extract_relative_write_path_from_line,
}
use nono_py.Stderr.Paths.Quoted.{extract_structured_string_property-escaped}
use nono_py.Stderr.Lines.{
  looks_like_network_denial, looks_like_access_denial, looks_like_structured_access_denial_code,
  looks_like_missing_path, detect_non_sandbox_failure_line, detect_protected_file_in_error_line,
  infer_access_from_error_line, merge_access_modes,
}
use nono_py.Stderr.Scan.{
  ErrorObservation, path_key, observe, note_missing, scan_line, scan_lines, capped,
  analyze_error_output,
}
use nono_py.Stderr.Scan.Laws.{
  is_cut, IsBounded, AreFound, analyze_error_output-IsBounded, analyze_error_output-AreFound,
}

text_functions : Unit {0}
unfolding to_ascii_lowercase find find_any skip_white reverse_onto until_white first_word drop_while
    has_control split lines starts_with strip_prefix bytes_eq is_utf8 lookup insert cmp_bytes
    components segments normal push
text_functions = tt

path_functions : Unit {0}
unfolding text_functions path_segment_end extract_path_from_segment path_after_words
    extract_path_after_syscall_word before_marker last_path extract_denied_path_from_error_line
    quoted_value after_word extract_structured_string_property extract_structured_path_property
    infer_access_from_structured_syscall_line extract_relative_write_path_from_line
path_functions = tt

scan_functions : Unit {0}
unfolding path_functions looks_like_network_denial looks_like_access_denial
    looks_like_structured_access_denial_code looks_like_missing_path detect_non_sandbox_failure_line
    detect_protected_file_in_error_line infer_access_from_error_line merge_access_modes path_key
    observe note_missing scan_line scan_lines capped analyze_error_output
scan_functions = tt

abbrev line_feed : Bytes
line_feed = 10 ∷ []

-- A denied read, a denied write in the current directory, and a missing file.
abbrev error_text : Bytes
error_text =
    codes "cat: /etc/hosts: Operation not permitted"
    ++ line_feed
    ++ (codes "creating out.txt."
        ++ line_feed
        ++ (codes "Permission denied"
            ++ line_feed
            ++ codes "open '/tmp/a': No such file or directory"))

abbrev seen : ErrorObservation
seen = record {
  blocked_protected_file = some (codes "hosts");
  path_hints =
      record { path = codes "/etc/hosts"; access = read }
      ∷ record { path = codes "/w/out.txt"; access = write }
      ∷ [];
  missing_paths = codes "/tmp/a" ∷ [];
  non_sandbox_failure = none;
  network_blocked_hint = false;
}

analyzed : analyze_error_output error_text (codes "/x/hosts" ∷ []) (some (codes "/w")) ≡ some seen
unfolding scan_functions
analyzed = refl

-- A denial of Node, with its properties on lines of their own.
abbrev node_text : Bytes
node_text =
    codes "Error: EACCES: permission denied"
    ++ line_feed
    ++ (codes "  syscall: 'mkdir'," ++ line_feed ++ codes "  path: '/srv/x'")

structured :
    analyze_error_output node_text [] none
    ≡ some record {
      blocked_protected_file = none;
      path_hints = record { path = codes "/srv/x"; access = write } ∷ [];
      missing_paths = [];
      non_sandbox_failure = none;
      network_blocked_hint = false;
    }
unfolding scan_functions
structured = refl

uncut : is_cut error_text ≡ false
uncut = refl

analyze_error_output-IsBounded_example :
    (o : ErrorObservation) × (analyze_error_output error_text
        (codes "/x/hosts" ∷ [])
        (some (codes "/w"))
      ≡ some o)
    × IsBounded o
analyze_error_output-IsBounded_example =
    analyze_error_output-IsBounded error_text (codes "/x/hosts" ∷ []) (some (codes "/w")) uncut

analyze_error_output-AreFound_example : AreFound (some (codes "/w")) seen
analyze_error_output-AreFound_example =
    analyze_error_output-AreFound error_text (codes "/x/hosts" ∷ []) (some (codes "/w")) seen
      analyzed

abbrev quoted_line : Bytes
quoted_line = codes "  path: '/a\\'b',"

abbrev quoted_path : Bytes
quoted_path = codes "/a'b"

trimmed_line : trim quoted_line ≡ codes "path: '/a\\'b',"
unfolding text_functions
trimmed_line = refl

trimmed_path : trim quoted_path ≡ quoted_path
unfolding text_functions
trimmed_path = refl

printable_path : is_bad quoted_path ≡ false
unfolding text_functions
printable_path = refl

extract_structured_string_property-escaped_example :
    extract_structured_string_property quoted_line (codes "path") ≡ some quoted_path
extract_structured_string_property-escaped_example =
    extract_structured_string_property-escaped quoted_line (codes "path") quoted_path (codes ",")
      b'\'' trimmed_line refl trimmed_path printable_path
