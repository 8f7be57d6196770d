-- ===== src/Diagnostic/Extends.antt =====
-- What pushing onto a list of diagnostics keeps of it.
use mathlib.Core.List.{append-nil, append_assoc}
use nono_py.Common.{
  Bytes, false, List, [], ◌∷◌, ◌++◌, Option, none, some, ◌≡◌, refl, sym, ap, ◌∙◌, inl, inr, All,
  All-append, any, arith, Bool-cases,
}
use nono_py.Diagnostic.{DiagnosticApi, push_unique_diagnostic, push_missing, push_some}

module _ (api : DiagnosticApi) where
  open api use {Diagnostic}

  -- No diagnostic equals one before it.
  abbrev pub IsDistinct : List Diagnostic → Type 0
  IsDistinct [] = Unit
  IsDistinct (d ∷ ds) = All (λ e. api.equal d e ≡ false) ds × IsDistinct ds

  IsDistinct-append :
      (ds : List Diagnostic) (e : Diagnostic)
      → any (λ d. api.equal d e) ds ≡ false
      → IsDistinct ds
      → IsDistinct (ds ++ e ∷ [])
  IsDistinct-append [] e h s = (tt, tt)
  IsDistinct-append (d ∷ ds) e h (a, s) = (
    All-append (λ x. api.equal d x ≡ false) ds (e ∷ []) a (ground arith, tt),
    IsDistinct-append ds e (ground arith) s,
  )

  -- The second list goes on from the first, and is as free of repetitions.
  pub record Extends (ds es : List Diagnostic) : Type 0 where
    pub added : List Diagnostic
    pub extended : es ≡ ds ++ added
    pub distinct : IsDistinct ds → IsDistinct es

  pub same_list : (ds : List Diagnostic) → Extends ds ds
  same_list ds = record { added = []; extended = sym (append-nil ds); distinct = λ s. s }

  pub then_added : (ds es fs : List Diagnostic) → Extends ds es → Extends es fs → Extends ds fs
  then_added ds es fs a b = record {
    added = a.added ++ b.added;
    extended = b.extended ∙ (ap (λ l. l ++ b.added) a.extended ∙ append_assoc ds a.added b.added);
    distinct = λ s. b.distinct (a.distinct s);
  }

  pub push_unique-Extends :
      (ds : List Diagnostic) (d : Diagnostic) → Extends ds (push_unique_diagnostic api ds d)
  unfolding push_unique_diagnostic
  push_unique-Extends ds d = elim (Bool-cases (any (λ e. api.equal e d) ds)) [
    | inl e ↦ rw e (same_list ds)
    | inr e ↦ rw e record { added = d ∷ []; extended = refl; distinct = IsDistinct-append ds d e }
  ]

  pub push_some-Extends :
      (make : Bytes → Diagnostic) (o : Option Bytes) (ds : List Diagnostic)
      → Extends ds (push_some api make o ds)
  push_some-Extends make none ds = same_list ds
  push_some-Extends make (some text) ds = push_unique-Extends ds (make text)

  pub push_missing-Extends :
      (ds : List Diagnostic) (paths : List Bytes) → Extends ds (push_missing api ds paths)
  unfolding push_missing
  push_missing-Extends ds [] = same_list ds
  push_missing-Extends ds (p ∷ ps) =
      let es = push_unique_diagnostic api ds (api.missing_path p) in
      then_added ds es _ (push_unique-Extends ds (api.missing_path p)) (push_missing-Extends es ps)
