-- ===== src/Stderr/Paths/Found.antt =====
-- Every path that is found in a line is neither empty nor has a control character, and one that is
-- joined to the current directory is relative.
use nono_py.Common.{
  not, ◌||◌, arith, any, bytes_eq, starts_with, Bytes, codes, Bool, true, false, List, [], ◌∷◌,
  Option, none, some, if◌then◌else◌, ◌≡◌, refl, Bool-cases, inl, inr, is_empty, strip_prefix,
}
use nono_py.Policy.Files.{push}
use nono_py.Stderr.Text.{split, has_control, trim, trim_start}
use nono_py.Stderr.Paths.{
  is_bad, or_else, candidate_of, extract_path_from_segment, syscall_words, path_after_words,
  extract_path_after_syscall_word, last_path, extract_denied_path_from_error_line, property_value,
  and_then, after_key, extract_structured_string_property, extract_structured_path_property,
  stripped_word, is_relative, join_word, extract_relative_write_path_from_line, is_quote,
}

-- Not empty, and without a control character.
abbrev pub IsClean : Bytes → Type 0
IsClean path = (is_empty path ≡ false) × (has_control path ≡ false)

-- The path joins the current directory and a relative one that cannot leave it.
pub record IsBelow (current_dir : Option Bytes) (path : Bytes) : Type 0 where
  pub dir : Bytes
  pub candidate : Bytes
  pub is_dir : current_dir ≡ some dir
  pub joined : path ≡ push dir candidate
  pub clean : IsClean candidate
  pub no_root : starts_with candidate (codes "/") ≡ false
  pub no_home : starts_with candidate (codes "~") ≡ false
  pub no_option : starts_with candidate (codes "-") ≡ false
  pub no_parent : any (bytes_eq (codes "..")) (split b'/' candidate) ≡ false

module _ (P : Bytes → Type 0) where
  -- The predicate holds of the path, if there is one.
  abbrev pub OnSome : Option Bytes → Type 0
  OnSome none = Unit
  OnSome (some p) = P p

  pub or_else-OnSome : (a b : Option Bytes) → OnSome a → OnSome b → OnSome (or_else a b)
  or_else-OnSome none b ha hb = hb
  or_else-OnSome (some p) b ha hb = ha

  and_then-OnSome :
      {A : Type 0} (o : Option A) (f : A → Option Bytes)
      → ((a : A) → OnSome (f a))
      → OnSome (and_then o f)
  and_then-OnSome none f h = tt
  and_then-OnSome (some a) f h = h a

not_bad : (a b : Bool) → (a || b) ≡ false → (a ≡ false) × (b ≡ false)
not_bad a b h = ground arith

candidate_of-IsClean : (s : Bytes) → OnSome IsClean (candidate_of s)
candidate_of-IsClean s = elim (Bool-cases (is_bad s)) [
  | inl e ↦ rw e tt
  | inr e ↦ rw e (not_bad (is_empty s) (has_control s) e)
]

unless_empty-IsClean : (b : Bool) (s : Bytes) → OnSome IsClean (if b then none else candidate_of s)
unless_empty-IsClean true s = tt
unless_empty-IsClean false s = candidate_of-IsClean s

extract_path_from_segment-IsClean :
    (segment : Bytes) → OnSome IsClean (extract_path_from_segment segment)
unfolding extract_path_from_segment
extract_path_from_segment-IsClean segment =
    and_then-OnSome IsClean _ _ (λ start. unless_empty-IsClean (is_empty (trim segment)) _)

path_after_words-IsClean :
    (line : Bytes) (words : List Bytes) → OnSome IsClean (path_after_words line words)
unfolding path_after_words
path_after_words-IsClean line [] = tt
path_after_words-IsClean line (marker ∷ markers) =
    or_else-OnSome IsClean _ _
      (and_then-OnSome IsClean _ _ (λ idx. extract_path_from_segment-IsClean _))
      (path_after_words-IsClean line markers)

last_path-IsClean : (segments : List Bytes) → OnSome IsClean (last_path segments)
unfolding last_path
last_path-IsClean [] = tt
last_path-IsClean (s ∷ ss) =
    or_else-OnSome IsClean _ _ (last_path-IsClean ss) (extract_path_from_segment-IsClean s)

pub extract_denied_path_from_error_line-IsClean :
    (line : Bytes) → OnSome IsClean (extract_denied_path_from_error_line line)
unfolding extract_denied_path_from_error_line extract_path_after_syscall_word
extract_denied_path_from_error_line-IsClean line =
    let clean : (a b : Option Bytes) → _ → _ → _ = or_else-OnSome IsClean in
    clean _ _ (path_after_words-IsClean line syscall_words) (
      clean _ _ (last_path-IsClean _)
        (clean _ _ (extract_path_from_segment-IsClean _) (extract_path_from_segment-IsClean line)))

property_value-IsClean : (s : Bytes) → OnSome IsClean (property_value s)
property_value-IsClean [] = tt
property_value-IsClean (q ∷ s) = elim (Bool-cases (is_quote q)) [
  | inr e ↦ rw e tt
  | inl e ↦ rw e (and_then-OnSome IsClean _ _ (λ value. candidate_of-IsClean (trim value)))
]

after_key-IsClean : (s : Bytes) → OnSome IsClean (after_key s)
after_key-IsClean s =
    and_then-OnSome IsClean (strip_prefix (trim_start s) (codes ":")) _
      (λ rest. property_value-IsClean (trim_start rest))

keyed-IsClean : (o : Option Bytes) → OnSome IsClean (and_then o after_key)
keyed-IsClean o = and_then-OnSome IsClean o after_key after_key-IsClean

pub extract_structured_path_property-IsClean :
    (line : Bytes) → OnSome IsClean (extract_structured_path_property line)
unfolding extract_structured_path_property extract_structured_string_property
extract_structured_path_property-IsClean line = keyed-IsClean _

all_false :
    (a b c d e f : Bool)
    → not (a || b || c || d || e || f) ≡ true
    → (a ≡ false) × (b ≡ false) × (c ≡ false) × (d ≡ false) × (e ≡ false) × (f ≡ false)
all_false a b c d e f h = ground arith

join_word-IsBelow : (cwd word : Bytes) → OnSome (IsBelow (some cwd)) (join_word cwd word)
join_word-IsBelow cwd word = elim (Bool-cases (is_relative (stripped_word word))) [
  | inr e ↦ rw e tt
  | inl e ↦
      let candidate : Bytes = stripped_word word in
      let (empty, root, home, option, control, parent) =
        all_false (is_empty candidate) (starts_with candidate (codes "/"))
          (starts_with candidate (codes "~")) (starts_with candidate (codes "-"))
          (has_control candidate) (any (bytes_eq (codes "..")) (split b'/' candidate)) e in
      rw e record {
        dir = cwd;
        candidate = stripped_word word;
        is_dir = refl;
        joined = refl;
        clean = (empty, control);
        no_root = root;
        no_home = home;
        no_option = option;
        no_parent = parent;
      }
]

pub extract_relative_write_path_from_line-IsBelow :
    (line cwd : Bytes)
    → OnSome (IsBelow (some cwd)) (extract_relative_write_path_from_line line cwd)
unfolding extract_relative_write_path_from_line
extract_relative_write_path_from_line-IsBelow line cwd =
    and_then-OnSome (IsBelow (some cwd)) _ _ (join_word-IsBelow cwd)
