-- ===== src/Wal.antt =====
-- internal/wal: the record format of the write-ahead log and its writer. The file is the bytes that
-- the operating system has, the buffer the bytes that bufio.Writer still holds, and `synced` how
-- many bytes of the file the last fsync made durable. No call of the operating system fails here;
-- every method holds the writer's lock, which is left out.
pub mod Contents
pub mod Cut
use beachdb.Prelude.{
  ℕ, ◌+◌, ◌-◌, Bool, true, false, List, [], ◌∷◌, ◌++◌, Bytes, length, take, drop, Result, ok, err,
  panic, ltb, leb, ◌==◌, if◌then◌else◌,
}
use beachdb.Record.{Format, RecordError, default_max_payload_size, encode}

-- BEACHWAL
abbrev pub wal_magic : Bytes
wal_magic = 0x42 ∷ 0x45 ∷ 0x41 ∷ 0x43 ∷ 0x48 ∷ 0x57 ∷ 0x41 ∷ 0x4c ∷ []

abbrev pub wal_record_format : Format
wal_record_format = record { magic = wal_magic; max_payload_size = default_max_payload_size }

pub data WalError : Type 0 where
  writer_closed : WalError
  record_error : RecordError → WalError

-- The default size of a bufio.Writer.
abbrev pub buffer_size : ℕ
buffer_size = 4096

pub record Writer : Type 0 where
  pub is_open : Bool
  pub file : Bytes
  pub buf : Bytes
  pub synced : ℕ

-- O_APPEND: the writer starts behind what the file has.
unfoldable pub new_writer : Bytes → Writer
new_writer contents = record { is_open = true; file = contents; buf = []; synced = length contents }

-- bufio.Writer.Write on an empty buffer: what does not fit goes to the file directly.
write_empty : Bytes → Writer → Writer
write_empty p w =
    if ltb buffer_size (length p)
    then record w { file = w.file ++ p; buf = [] }
    else record w { buf = p }

-- bufio.Writer.Write: a record that does not fit fills the buffer, which goes to the file.
write : Bytes → Writer → Writer
unfolding write_empty
write p w =
    if leb (length p) (buffer_size - length w.buf)
    then record w { buf = w.buf ++ p }
    else if length w.buf == 0
    then record w { file = w.file ++ p; buf = [] }
    else write_empty (drop (buffer_size - length w.buf) p)
        (record w { file = w.file ++ (w.buf ++ take (buffer_size - length w.buf) p); buf = [] })

append_record : Result RecordError Bytes → Writer → Result WalError (Unit {0}) × Writer
unfolding write
append_record (err e) w = (err (record_error e), w)
append_record panic w = (panic, w)
append_record (ok bytes) w = if w.is_open then (ok tt, write bytes w) else (err writer_closed, w)

unfoldable pub append : Bytes → Writer → Result WalError (Unit {0}) × Writer
unfolding append_record
append payload w = append_record (encode wal_record_format payload) w

flush : Writer → Writer
flush w = record w { file = w.file ++ w.buf; buf = [] }

unfoldable pub sync : Writer → Result WalError (Unit {0}) × Writer
unfolding flush
sync w =
    if w.is_open
    then (ok tt, record (flush w) { synced = length (flush w).file })
    else (err writer_closed, w)

unfoldable pub close : Writer → Result WalError (Unit {0}) × Writer
unfolding flush
close w =
    if w.is_open
    then (ok tt, record (flush w) { is_open = false; synced = length (flush w).file })
    else (err writer_closed, w)
