-- ===== src/Memtable/Tests.antt =====
-- Concrete entries, and the theorems at concrete inputs.
use beachdb.Prelude.{◌≡◌, [], ◌∷◌}
use beachdb.Keys.{compare_keys, compare_bytes}
use beachdb.Sstable.Block.{BlockEntry}
use beachdb.Sstable.Reader.{scan_block}
use beachdb.Memtable.{lookup}
use beachdb.Memtable.Sorted.{IsSorted, of_scanned, lookup-eq-scan}

abbrev newest : BlockEntry
newest = record { key = record { user_key = 1 ∷ []; seqno = 5; kind = 2 }; value = [] }

abbrev oldest : BlockEntry
oldest = record { key = record { user_key = 1 ∷ []; seqno = 3; kind = 1 }; value = 7 ∷ [] }

entries-IsSorted : IsSorted (newest ∷ oldest ∷ [])
unfolding compare_keys compare_bytes
entries-IsSorted = ((λ e. cc, tt), (tt, tt))

lookup-eq-scan_example :
    lookup (newest ∷ oldest ∷ []) (1 ∷ []) 4
    ≡ of_scanned (scan_block (newest ∷ oldest ∷ []) (1 ∷ []) 4)
lookup-eq-scan_example = lookup-eq-scan (1 ∷ []) 4 (newest ∷ oldest ∷ []) entries-IsSorted
