-- ===== src/SortedMap.antt =====
-- `BTreeMap<Vec<u8>, V>` and `BTreeMap<PathBuf, V>` of the standard library: an association list
-- in the increasing order of its keys, which are byte strings compared as slices are.
mod Defs
mod Order
mod Laws
mod Entries
unfoldable pub use Defs.{cmp_bytes, insert, lookup, from_pairs, insert_all}
pub use Defs.{Pairs, LtB, Above, IsSorted}
pub use Order.{cmp-eq, cmp-flip, LtB-trans}
pub use Laws.*
pub use Entries.*
