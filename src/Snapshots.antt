-- ===== src/Snapshots.antt =====
-- src/undo.rs: `SnapshotManager`, the wrapper around the snapshots of the nono crate.
pub mod Laws
mod Tests
use nono_py.Common.{
  ℕ, zero, suc, ◌+◌, ◌-◌, ◌*◌, Bytes, codes, Bool, true, false, ◌&&◌, List, [], ◌∷◌, ◌++◌, Option,
  none, some, Result, ok, err, if◌then◌else◌, ltb, leb, strip_prefix, is_empty,
}
use nono_py.Stderr.Text.{reverse}

abbrev pub max_u32 : ℕ
max_u32 = 4294967295

abbrev pub is_digit : ℕ → Bool
is_digit c = leb b'0' c && leb c b'9'

-- The number that the digits give, `acc` being that of those before; `none` at anything else, or
-- above the largest `u32`.
unfoldable pub parse_digits : ℕ → Bytes → Option ℕ
parse_digits acc [] = some acc
parse_digits acc (c ∷ s) =
    let value = acc * 10 + (c - b'0') in
    let rest = parse_digits value s in if is_digit c && leb value max_u32 then rest else none

abbrev pub unsigned : Bytes → Option ℕ
unsigned s = if is_empty s then none else parse_digits 0 s

-- `parse::<u32>()`, which allows a plus sign.
unfoldable pub parse_u32 : Bytes → Option ℕ
parse_u32 s = elim (strip_prefix s (codes "+")) [ none ↦ unsigned s | some rest ↦ unsigned rest ]

-- `strip_suffix`
abbrev pub strip_suffix : Bytes → Bytes → Option Bytes
strip_suffix s suffix = elim (strip_prefix (reverse s) (reverse suffix)) [
  | none ↦ none
  | some rest ↦ some (reverse rest)
]

-- The number of the snapshot whose file has the name.
unfoldable pub manifest_number : Bytes → Option ℕ
manifest_number name = elim (strip_suffix name (codes ".json")) [
  | none ↦ none
  | some stem ↦ parse_u32 stem
]

abbrev pub larger : ℕ → Option ℕ → ℕ
larger n none = n
larger n (some m) = if leb n m then m else n

abbrev pub with_number : Option ℕ → Option ℕ → Option ℕ
with_number none max_number = max_number
with_number (some num) max_number = some (larger num max_number)

-- The loop over the entries.
unfoldable pub max_number_of : Option ℕ → List Bytes → Option ℕ
max_number_of max_number [] = max_number
max_number_of max_number (name ∷ names) =
    max_number_of (with_number (manifest_number name) max_number) names

-- The directory of the snapshots: the names in it, if it exists and can be read.
pub data SnapshotsDir : Type 0 where
  missing unreadable : SnapshotsDir
  entries : List Bytes → SnapshotsDir

-- The snapshots of the nono crate: each operation that changes them gives their next state.
pub record SnapshotApi : Type 1 where
  pub Snapshots : Type 0
  pub Manifest : Type 0
  pub Change : Type 0
  pub Failure : Type 0
  pub number : Manifest → ℕ
  pub snapshot_count : Snapshots → ℕ
  pub load_manifest : ℕ → Snapshots → Result Failure Manifest
  pub create_baseline : Snapshots → Result Failure Manifest × Snapshots
  pub create_incremental :
      Manifest → Snapshots → Result Failure (Manifest × List Change) × Snapshots
  pub compute_restore_diff : Manifest → Snapshots → Result Failure (List Change)
  pub restore_to : Manifest → Snapshots → Result Failure (List Change)

pub data SnapshotError (Failure : Type 0) : Type 0 where
  no_previous : SnapshotError Failure
  failed : Failure → SnapshotError Failure

module _ (api : SnapshotApi) where
  open api use {Snapshots, Manifest, Change, Failure}

  pub record SnapshotManager : Type 0 where
    pub inner : Snapshots
    pub latest_manifest : Option Manifest
    pub resumed_count : ℕ

  abbrev pub load_latest : Option ℕ → Snapshots → Result Failure (Option Manifest)
  load_latest none inner = ok none
  load_latest (some n) inner = elim (api.load_manifest n inner) [
    | err e ↦ err e
    | ok manifest ↦ ok (some manifest)
  ]

  unfoldable pub find_latest_manifest_on_disk :
      SnapshotsDir → Snapshots → Result Failure (Option Manifest)
  find_latest_manifest_on_disk missing inner = ok none
  find_latest_manifest_on_disk unreadable inner = load_latest none inner
  find_latest_manifest_on_disk (entries names) inner = load_latest (max_number_of none names) inner

  -- `saturating_add(1)` on `u32`, 0 without a manifest.
  abbrev pub count_after : Option Manifest → ℕ
  count_after none = 0
  count_after (some m) = if ltb (api.number m) max_u32 then api.number m + 1 else max_u32

  -- `new`, once nono has made its snapshots from the paths and their filters.
  unfoldable pub new : SnapshotsDir → Snapshots → Result Failure SnapshotManager
  new dir inner = elim (find_latest_manifest_on_disk dir inner) [
    | err e ↦ err e
    | ok latest ↦
        ok record { inner = inner; latest_manifest = latest; resumed_count = count_after latest }
  ]

  abbrev pub Outcome : Type 0 → Type 0
  Outcome A = Result (SnapshotError Failure) A × SnapshotManager

  unfoldable pub create_baseline : SnapshotManager → Outcome Manifest
  create_baseline mgr =
      let (r, inner) = api.create_baseline mgr.inner in
      elim r [
        | err e ↦ (err (failed e), record mgr { inner = inner })
        | ok manifest ↦ (ok manifest, record mgr { inner = inner; latest_manifest = some manifest })
      ]

  unfoldable pub create_incremental : SnapshotManager → Outcome (Manifest × List Change)
  create_incremental mgr = elim mgr.latest_manifest [
    | none ↦ (err no_previous, mgr)
    | some previous ↦
        let (r, inner) = api.create_incremental previous mgr.inner in
        elim r [
          | err e ↦ (err (failed e), record mgr { inner = inner })
          | ok (manifest, changes) ↦ (
            ok (manifest, changes),
            record mgr { inner = inner; latest_manifest = some manifest },
          )
        ]
  ]

  abbrev pub with_manifest :
      (Manifest → Snapshots → Result Failure (List Change))
      → SnapshotManager
      → ℕ
      → Result Failure (List Change)
  with_manifest f mgr snapshot_number = elim (api.load_manifest snapshot_number mgr.inner) [
    | err e ↦ err e
    | ok manifest ↦ f manifest mgr.inner
  ]

  unfoldable pub compute_restore_diff : SnapshotManager → ℕ → Result Failure (List Change)
  compute_restore_diff = with_manifest api.compute_restore_diff

  unfoldable pub restore_to : SnapshotManager → ℕ → Result Failure (List Change)
  restore_to = with_manifest api.restore_to

  unfoldable pub snapshot_count : SnapshotManager → ℕ
  snapshot_count mgr =
      let inner_count = api.snapshot_count mgr.inner in
      if leb inner_count mgr.resumed_count then mgr.resumed_count else inner_count
