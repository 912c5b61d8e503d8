-- ===== src/Lib.antt =====
-- BeachDB: a verified model of the storage engine.
--
-- A write goes through four parts. The engine (engine/db.go) encodes a batch of operations
-- (engine/batch.go), appends it as one record (internal/record) to the write-ahead log
-- (internal/wal), syncs the log, and applies the operations to the memtable (internal/memtable)
-- under fresh sequence numbers. A full memtable is frozen and written to a table file
-- (internal/sstable), which a version edit in the manifest (internal/manifest) publishes. A read
-- asks the memtable, the frozen memtable, and the tables from the newest on. After a crash, the
-- log is replayed.
--
-- Which file models what:
--   Coding, Coding/Decoder  internal/util/coding: the words, the byte reader, and decoders that
--                           read from it
--   Checksum                internal/util/checksum: CRC-32C
--   Keys                    internal/keys: internal keys, their order and encoding
--   Batch                   engine/batch.go: batches and their encoding
--   Record                  internal/record: the record envelope
--   Stream                  internal/wal/reader.go and internal/manifest/reader.go, which differ
--                           in the record format alone
--   Wal                     internal/wal/writer.go, with the buffer of bufio.Writer
--   Manifest/Edit           internal/manifest/edit.go: Encode is encode_edit,
--                           DecodeVersionEdit is decode_version_edit
--   Manifest/Version        internal/manifest/version.go: Apply is apply
--   Manifest/Writer         internal/manifest/record.go, internal/manifest/writer.go
--   Manifest/Current        internal/manifest/current.go: ReadCurrent is read_current, WriteCurrent
--                           is write_current
--   Sstable                 internal/sstable: Block, Index, Footer, Reader (Get is get), Iterator,
--                           Writer
--   Memtable                internal/memtable/memtable.go: the interface, with the laws that the
--                           engine relies on
--   Memtable/SkipList       internal/memtable/skiplist.go: Put is put, Get is get; its child Iterator
--                           has the iterator
--   Engine                  engine/db.go: Write is write, Get is get_key, replayWAL is replay_wal
--   Engine/Edits            engine/db.go: replayManifestStream, applyEditToReplay
--   Engine/Publish          engine/db.go: publishFlushedSSTLocked
--   Engine/Flush            engine/db.go: writeSSTable, flushLoop, flushMemtable
--   Engine/Names            engine/db.go: file names, cleanupOrphanSSTables,
--                           openSSTReadersForVersion, nextAvailableManifestID
-- Functions keep their Go names in the spelling of this language. Below each of these files stand
-- the modules with its proofs, and a module Tests with concrete inputs.
--
-- How Go is modelled. Numbers are natural numbers; where a Go width matters the wrap-around is
-- written out. A byte slice is a list of numbers; slices are never shared, so the copies that the
-- code makes are not visible. A call yields a value, an error, or a panic (Prelude/Results). A
-- method takes the receiver's state and returns the new one. Locks are left out, since each method
-- holds its lock throughout; where the engine waits on its condition variable, what the other
-- goroutines do is an argument, a list of changes to the database; so is what they do while a flush
-- has released the lock. The rounds of the flusher's goroutine also have the condition variable
-- itself, with Broadcast, Signal and the goroutines that sleep on it. A failpoint is an argument. A
-- file is its bytes; the log also has the bytes that bufio.Writer still holds and the number of
-- bytes that were synced, and so have CURRENT and CURRENT.tmp. A crash keeps any front part of the
-- file that has the synced bytes, and of a rename the directory before or after it, until the
-- directory was synced.
--
-- Fuel. The decoding loops run on as many rounds as there are bytes, which is enough since every
-- round takes a byte; out of rounds they would panic, and the theorems on arbitrary input say that
-- they do not. The replays of the log and of the manifest take one round more than the file has
-- bytes. The skip list's loop along a level takes one round more than the list has nodes, and the
-- loop that draws a level as many as there are levels; Put does not panic on a valid list. The binary
-- search of the table reader takes as many rounds as there are blocks.
--
-- Not modelled: failures of the operating system (but for those of WriteCurrent), opening and closing
-- a database, options, the dump tools, and the crash harness of cmd/crash. The memtable is a parameter
-- of the engine's definitions, which the skip list fills; the tests use a list in key order.
pub mod Prelude
pub mod Coding
pub mod Keys
pub mod Batch
pub mod Checksum
pub mod Record
pub mod Stream
pub mod Manifest
pub mod Sstable
pub mod Wal
pub mod Memtable
pub mod Engine
