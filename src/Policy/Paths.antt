-- ===== src/Policy/Paths.antt =====
-- src/policy.rs: `expand_path` and `escape_seatbelt_path`. A `str` is its UTF-8 bytes.
pub mod Laws
mod Tests
use nono_py.Common.{
  Bytes, codes, bytes_eq, strip_prefix, starts_with, Bool, false, ◌&&◌, ◌||◌, leb, ltb, ◌==◌, [],
  ◌∷◌, ◌++◌, Option, none, some, Result, ok, err, ◌>>=◌, if◌then◌else◌, ℕ,
}
use nono_py.Policy.Types.{PolicyError, not_set, not_absolute, control_character}

-- `char::is_control` of the char that starts with byte `c`, the rest of the text after it: the
-- controls are U+0000 to U+001F and U+007F to U+009F.
abbrev pub continues_control : Bytes → Bool
continues_control [] = false
continues_control (d ∷ rest) = leb 0x80 d && leb d 0x9F

abbrev pub is_control : ℕ → Bytes → Bool
is_control c rest = ltb c 0x20 || c == 0x7F || (c == 0xC2 && continues_control rest)

abbrev pub escape_char : ℕ → Bytes
escape_char c = if c == 92 then 92 ∷ 92 ∷ [] else if c == 34 then 92 ∷ 34 ∷ [] else c ∷ []

unfoldable pub escape_from : Bytes → Bytes → Result PolicyError Bytes
escape_from path [] = ok []
escape_from path (c ∷ rest) =
    if is_control c rest
    then err (control_character path)
    else do result ← escape_from path rest; ok (escape_char c ++ result)

unfoldable pub escape_seatbelt_path : Bytes → Result PolicyError Bytes
escape_seatbelt_path path = escape_from path path

-- `env` is `std::env::var`, `none` for its errors.
unfoldable pub validated_env_path : (Bytes → Option Bytes) → Bytes → Result PolicyError Bytes
validated_env_path env name = elim (env name) [
  | none ↦ err (not_set name)
  | some value ↦ if starts_with value (codes "/") then ok value else err (not_absolute name)
]

abbrev pub join : Bytes → Bytes → Bytes
join base rest = base ++ b'/' ∷ rest

-- The branches of `expand_path` after the one for `~` and a lone `$HOME`.
unfoldable pub expand_rest : (Bytes → Option Bytes) → Bytes → Result PolicyError Bytes
expand_rest env path = elim (strip_prefix path (codes "$HOME/")) [
  | some rest ↦ do home ← validated_env_path env (codes "HOME"); ok (join home rest)
  | none ↦
      if bytes_eq path (codes "$TMPDIR")
      then validated_env_path env (codes "TMPDIR")
      else elim (strip_prefix path (codes "$TMPDIR/")) [
        | some rest ↦ do tmpdir ← validated_env_path env (codes "TMPDIR"); ok (join tmpdir rest)
        | none ↦ ok path
      ]
]

unfoldable pub expand_path : (Bytes → Option Bytes) → Bytes → Result PolicyError Bytes
expand_path env path = elim (strip_prefix path (codes "~/")) [
  | some rest ↦ do home ← validated_env_path env (codes "HOME"); ok (join home rest)
  | none ↦
      if bytes_eq path (codes "~") || bytes_eq path (codes "$HOME")
      then validated_env_path env (codes "HOME")
      else expand_rest env path
]
