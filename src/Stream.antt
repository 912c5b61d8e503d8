-- ===== src/Stream.antt =====
-- internal/wal/reader.go and internal/manifest/reader.go: reading the records of a file, one after
-- the other. The two readers differ in the format alone, which is a parameter here. A file is the
-- bytes that are still to be read; failures of the operating system are not modelled.
pub mod Torn
mod Tests
use beachdb.Prelude.{
  ℕ, zero, suc, ◌+◌, ◌-◌, ◌≡◌, Bool, true, false, List, [], ◌∷◌, ◌++◌, Bytes, Option, none, some,
  length, take, drop,
}
use beachdb.Prelude.{Result, ok, err, panic, ltb, ◌==◌, if◌then◌else◌}
use beachdb.Record.{
  Format, Header, RecordError, truncated, header_size, decode_header, validate_payload,
}

-- io.EOF, ErrReaderClosed, or an error of the record envelope.
pub data ReadError : Type 0 where
  eof reader_closed : ReadError
  record_error : RecordError → ReadError

-- `file` is `none` once the reader is closed; `pos` is the end of the last valid record.
pub record Reader : Type 0 where
  pub file : Option Bytes
  pub pos : ℕ

unfoldable pub new_reader : Bytes → Reader
new_reader contents = record { file = some contents; pos = 0 }

-- io.ReadFull: `eof` if nothing was there, `unexpected_eof` if too little was.
pub data Filled : Type 0 where
  full : Bytes → Bytes → Filled
  nothing unexpected_eof : Filled

unfoldable pub read_full : ℕ → Bytes → Filled
read_full n contents =
    if ltb (length contents) n
    then (if length contents == 0 then nothing else unexpected_eof)
    else full (take n contents) (drop n contents)

-- Reading the payload behind a header: an end of file there is a truncated record.
read_payload : Header → ℕ → Bytes → Result ReadError Bytes × Reader
read_payload hdr pos rest = elim (read_full hdr.payload_length rest) [
  | nothing ↦ (err (record_error truncated), record { file = some []; pos = pos })
  | unexpected_eof ↦ (err (record_error truncated), record { file = some []; pos = pos })
  | full payload rest' ↦ elim (validate_payload payload hdr.checksum) [
    | ok _ ↦
        (ok payload, record { file = some rest'; pos = pos + (header_size + hdr.payload_length) })
    | err e ↦ (err (record_error e), record { file = some rest'; pos = pos })
    | panic ↦ (panic, record { file = some rest'; pos = pos })
  ]
]

read_record : Format → ℕ → Bytes → Result ReadError Bytes × Reader
unfolding read_payload
read_record f pos contents = elim (read_full header_size contents) [
  | nothing ↦ (err eof, record { file = some []; pos = pos })
  | unexpected_eof ↦ (err (record_error truncated), record { file = some []; pos = pos })
  | full header rest ↦ elim (decode_header f header) [
    | ok hdr ↦ read_payload hdr pos rest
    | err e ↦ (err (record_error e), record { file = some rest; pos = pos })
    | panic ↦ (panic, record { file = some rest; pos = pos })
  ]
]

next_in : Format → ℕ → Option Bytes → Result ReadError Bytes × Reader
unfolding read_record
next_in f pos none = (err reader_closed, record { file = none; pos = pos })
next_in f pos (some contents) = read_record f pos contents

unfoldable pub next : Format → Reader → Result ReadError Bytes × Reader
unfolding next_in
next f r = next_in f r.pos r.file

unfoldable pub valid_offset : Reader → ℕ
valid_offset r = r.pos

unfoldable pub close : Reader → Result ReadError (Unit {0}) × Reader
close r = elim r.file [ none ↦ (err reader_closed, r) | some _ ↦ (ok tt, record r { file = none }) ]
