-- ===== src/Snapshots/Tests.antt =====
-- Snapshots that are numbers, taken up again from a directory.
use nono_py.Common.{
  ℕ, ◌+◌, Bytes, codes, List, [], ◌∷◌, none, some, ok, err, ◌≡◌, refl, ◌⊎◌, strip_prefix,
  if◌then◌else◌, leb,
}
use nono_py.Stderr.Text.{reverse_onto}
use nono_py.Snapshots.{
  parse_digits, parse_u32, manifest_number, max_number_of, entries, unreadable, SnapshotApi,
  SnapshotManager, find_latest_manifest_on_disk, new, create_baseline, create_incremental,
  compute_restore_diff, restore_to, snapshot_count,
}
use nono_py.Snapshots.Laws.{IsFirst, IsResumed, new-resumes}

-- A manifest is its number, and a change goes from one number to another.
abbrev numbers : SnapshotApi
numbers = record {
  Snapshots = ℕ;
  Manifest = ℕ;
  Change = ℕ × ℕ;
  Failure = ℕ;
  number = λ m. m;
  snapshot_count = λ n. n;
  load_manifest = λ n s. if leb n 20 then ok n else err n;
  create_baseline = λ s. (ok 0, s + 1);
  create_incremental = λ m s. (ok (m + 1, (m, m + 1) ∷ []), s + 1);
  compute_restore_diff = λ m s. ok ((s, m) ∷ []);
  restore_to = λ m s. ok ((s, m) ∷ []);
}

abbrev names : List Bytes
names =
    codes "0.json" ∷ codes "+12.json" ∷ codes "x.json" ∷ codes "4294967296.json" ∷ codes "7" ∷ []

abbrev resumed : SnapshotManager numbers
resumed = record { inner = 0; latest_manifest = some 12; resumed_count = 13 }

manager_functions : Unit {0}
unfolding parse_digits parse_u32 manifest_number max_number_of find_latest_manifest_on_disk new
    create_baseline create_incremental compute_restore_diff restore_to snapshot_count strip_prefix
    reverse_onto
manager_functions = tt

made : new numbers (entries names) 0 ≡ ok resumed
unfolding manager_functions
made = refl

made_first :
    new numbers unreadable 0 ≡ ok record { inner = 0; latest_manifest = none; resumed_count = 0 }
unfolding manager_functions
made_first = refl

counted : snapshot_count numbers resumed ≡ 13
unfolding manager_functions
counted = refl

next :
    create_incremental numbers resumed
    ≡ (ok (13, (12, 13) ∷ []), record { inner = 1; latest_manifest = some 13; resumed_count = 13 })
unfolding manager_functions
next = refl

refused : restore_to numbers resumed 21 ≡ err 21
unfolding manager_functions
refused = refl

new-resumes_example : IsFirst numbers names resumed ⊎ IsResumed numbers names 0 resumed
new-resumes_example = new-resumes numbers names 0 resumed made
