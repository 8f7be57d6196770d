-- ===== src/Policy/Paths/Tests.antt =====
-- Paths that expand, and one with a quote.
use nono_py.Common.{
  Bytes, codes, bytes_eq, strip_prefix, starts_with, false, [], ◌∷◌, ◌++◌, Option, none, some, ok,
  err, ◌≡◌, refl, if◌then◌else◌, ◌⊎◌,
}
use nono_py.Policy.Types.{not_set, control_character}
use nono_py.Policy.Paths.{
  escape_from, escape_seatbelt_path, validated_env_path, expand_rest, expand_path,
}
use nono_py.Policy.Paths.Laws.{
  read_quoted, IsExpanded, IsPlain, read_quoted-escape_seatbelt_path, expand_path-expands,
}

abbrev env : Bytes → Option Bytes
env name = if bytes_eq name (codes "HOME") then some (codes "/home/u") else none

expanded :
    (expand_path env (codes "~/x") ≡ ok (codes "/home/u/x"))
    × (expand_path env (codes "$HOME") ≡ ok (codes "/home/u"))
    × (expand_path env (codes "$HOMES") ≡ ok (codes "$HOMES"))
    × (expand_path env (codes "$TMPDIR/a") ≡ err (not_set (codes "TMPDIR")))
unfolding expand_path expand_rest validated_env_path strip_prefix bytes_eq starts_with
expanded = (refl, refl, refl, refl)

expanded_home : expand_path env (codes "$HOME/x") ≡ ok (codes "/home/u/x")
unfolding expand_path expand_rest validated_env_path strip_prefix bytes_eq starts_with
expanded_home = refl

expand_path-expands_example :
    ((codes "/home/u/x" ≡ codes "$HOME/x") × IsPlain (codes "$HOME/x"))
    ⊎ (IsExpanded env (codes "~") (codes "HOME") (codes "$HOME/x") (codes "/home/u/x")
        ⊎ (IsExpanded env (codes "$HOME") (codes "HOME") (codes "$HOME/x") (codes "/home/u/x")
            ⊎ IsExpanded env
                (codes "$TMPDIR")
                (codes "TMPDIR")
                (codes "$HOME/x")
                (codes "/home/u/x")))
expand_path-expands_example =
    expand_path-expands env (codes "$HOME/x") (codes "/home/u/x") expanded_home

-- `/a"\`, escaped
abbrev quoted : Bytes
quoted = b'/' ∷ 92 ∷ 34 ∷ 92 ∷ 92 ∷ []

escaped : escape_seatbelt_path (b'/' ∷ 34 ∷ 92 ∷ []) ≡ ok quoted
unfolding escape_seatbelt_path escape_from
escaped = refl

controls :
    (escape_seatbelt_path (10 ∷ []) ≡ err (control_character (10 ∷ [])))
    × (escape_seatbelt_path (0xC2 ∷ 0x85 ∷ []) ≡ err (control_character (0xC2 ∷ 0x85 ∷ [])))
    × (escape_seatbelt_path (0xC2 ∷ 0xA9 ∷ []) ≡ ok (0xC2 ∷ 0xA9 ∷ []))
unfolding escape_seatbelt_path escape_from
controls = (refl, refl, refl)

read_quoted-escape_seatbelt_path_example :
    read_quoted false (quoted ++ 34 ∷ codes "))") ≡ some (b'/' ∷ 34 ∷ 92 ∷ [], codes "))")
read_quoted-escape_seatbelt_path_example =
    read_quoted-escape_seatbelt_path (b'/' ∷ 34 ∷ 92 ∷ []) (codes "))") quoted escaped
