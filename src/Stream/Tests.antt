-- ===== src/Stream/Tests.antt =====
-- Concrete files, and the theorems at concrete inputs.
use beachdb.Prelude.{
  ◌+◌, ◌≡◌, refl, arith, [], ◌∷◌, ◌++◌, Bytes, some, ok, err, length, take, drop, length-take,
  length-drop, take-append-drop, sym,
}
use beachdb.Record.{Format, IsFormat, truncated}
use beachdb.Stream.{next, record_error}
use beachdb.Stream.Torn.{record_of, next-record_of, next_torn, length-record_of}

abbrev small_format : Format
small_format = record { magic = 1 ∷ 2 ∷ 3 ∷ 4 ∷ 5 ∷ 6 ∷ 7 ∷ 8 ∷ []; max_payload_size = 10 }

small_format-IsFormat : IsFormat small_format
small_format-IsFormat = record { magic = refl; max_payload_size = omega arith }

abbrev payload : Bytes
payload = 0x68 ∷ 0x69 ∷ []

next-record_of_example :
    next small_format (record { file = some (record_of small_format payload ++ (0 ∷ [])); pos = 4 })
    ≡ (
      ok payload,
      record { file = some (0 ∷ []); pos = 4 + length (record_of small_format payload) },
    )
next-record_of_example =
    next-record_of small_format small_format-IsFormat payload (omega arith) 4 (0 ∷ [])

abbrev front : Bytes
front = take 19 (record_of small_format payload)

abbrev back : Bytes
back = drop 19 (record_of small_format payload)

total : length (record_of small_format payload) ≡ 20
total = length-record_of small_format small_format-IsFormat payload (omega arith)

next_torn_example :
    next small_format (record { file = some front; pos = 4 })
    ≡ (err (record_error truncated), record { file = some []; pos = 4 })
next_torn_example =
    next_torn small_format small_format-IsFormat payload (omega arith) 4 front back
      (sym (take-append-drop 19 (record_of small_format payload)))
      (omega (arith, total, length-take 19 (record_of small_format payload)))
      (omega (arith, total, length-drop 19 (record_of small_format payload)))
