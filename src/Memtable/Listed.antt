-- ===== src/Memtable/Listed.antt =====
-- A memtable that is a list in key order: what an implementation of the interface is held to. The
-- tests of the engine run on it.
use beachdb.Prelude.{refl, List, [], length}
use beachdb.Sstable.Block.{BlockEntry}
use beachdb.Memtable.{Memtable, IsMemtable, insert_entry, lookup}

abbrev pub listed : Memtable
listed = record {
  Mem = List BlockEntry;
  new_mem = [];
  put = λ k v m. insert_entry (record { key = k; value = v }) m;
  get = λ key seqno m. lookup m key seqno;
  entries = λ m. m;
  size = λ m. length m;
  len = λ m. length m;
}

abbrev pub listed-IsMemtable : IsMemtable listed
listed-IsMemtable = record {
  IsValid = λ m. Unit;
  new_mem-IsValid = tt;
  put-IsValid = λ k v m h. tt;
  entries-new_mem = refl;
  entries-put = λ k v m h. refl;
  get-entries = λ key seqno m h. refl;
  len-entries = λ m h. refl;
}
