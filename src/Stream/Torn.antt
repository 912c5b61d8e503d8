-- ===== src/Stream/Torn.antt =====
-- Reading whole records, the end of the file, and a record that a crash cut off.
use beachdb.Prelude.{
  ℕ, ◌+◌, ◌%◌, ◌^◌, ◌≤◌, ◌<◌, ◌≡◌, refl, sym, ap, ◌∙◌, arith, [], ◌++◌, Bytes, some, length, take,
  drop, length-append, length-drop, take-append_length, drop-append_length, take-append_le,
  append_assoc, ok, err, ltb, le→ltb-false, lt→ltb, Bool-cases, inl, inr, ◌⊎◌, ltb→lt, ltb-false→le,
}
use beachdb.Coding.{IsU32}
use beachdb.Checksum.{crc32c, crc32c-IsU32}
use beachdb.Record.{
  Format, IsFormat, Header, truncated, header_size, type_full, encode, encode_header, decode_header,
}
use beachdb.Record.Codec.{decode_header-encode_header, validate_payload_lem, length-encode_header}
use beachdb.Stream.{
  eof, record_error, full, nothing, unexpected_eof, read_full, read_payload, read_record, next_in,
  next,
}

module _ (n : ℕ) (xs : Bytes) where
  read_full_enough : n ≤ length xs → read_full n xs ≡ full (take n xs) (drop n xs)
  unfolding read_full
  read_full_enough h = rw (le→ltb-false (length xs) n h)

  read_full_short : 0 < length xs → length xs < n → read_full n xs ≡ unexpected_eof
  unfolding read_full
  read_full_short h short = ground (arith, lt→ltb (length xs) n short)

  read_full_cases : length xs < n → (read_full n xs ≡ nothing) ⊎ (read_full n xs ≡ unexpected_eof)
  unfolding read_full
  read_full_cases short = ground (arith, lt→ltb (length xs) n short)

pub read_full-append :
    (n : ℕ) (xs rest : Bytes) → length xs ≡ n → read_full n (xs ++ rest) ≡ full xs rest
read_full-append n xs rest e =
    rw (read_full_enough n (xs ++ rest) (omega (arith, length-append xs rest)), ← e)
      (ap (λ (t : Bytes). full t (drop (length xs) (xs ++ rest))) (take-append_length xs rest)
        ∙ ap (full xs) (drop-append_length xs rest))

-- The whole record of a payload that fits.
abbrev pub record_of : Format → Bytes → Bytes
record_of f payload = encode_header f (length payload) (crc32c payload) ++ payload

module _ (f : Format) (good : IsFormat f) (payload : Bytes)
    (fits : length payload ≤ f.max_payload_size) where
  small : IsU32 (length payload)
  small = omega (arith, good.max_payload_size)

  pub encode_fits : encode f payload ≡ ok (record_of f payload)
  unfolding encode
  encode_fits =
      let e : length payload % 2 ^ 32 ≡ length payload = omega (arith, small) in
      rw (e, le→ltb-false f.max_payload_size (length payload) fits)

  header_of : Bytes
  header_of = encode_header f (length payload) (crc32c payload)

  pub length-record_of : length (record_of f payload) ≡ header_size + length payload
  length-record_of = omega (
    arith,
    length-append (encode_header f (length payload) (crc32c payload)) payload,
    length-encode_header f (length payload) (crc32c payload) good,
  )

  decoded : Header
  decoded = record {
    record_type = type_full;
    payload_length = length payload;
    checksum = crc32c payload;
  }

  decode_header_of : decode_header f header_of ≡ ok decoded
  unfolding header_of decoded
  decode_header_of =
      decode_header-encode_header f (length payload) (crc32c payload) good small fits
        (crc32c-IsU32 payload)

  length-header_of : length header_of ≡ header_size
  unfolding header_of
  length-header_of = length-encode_header f (length payload) (crc32c payload) good

  record-header_of : record_of f payload ≡ header_of ++ payload
  unfolding header_of
  record-header_of = refl

  -- A record at the front of the file, of a payload within the format's limit, is read whole, and
  -- the position moves behind it.
  pub next-record_of :
      (pos : ℕ) (rest : Bytes)
      → next f (record { file = some (record_of f payload ++ rest); pos = pos })
        ≡ (ok payload, record { file = some rest; pos = pos + length (record_of f payload) })
  unfolding next decoded
  next-record_of pos rest =
      rw
        (
          length-record_of,
          record-header_of,
          append_assoc header_of payload rest,
          read_record,
          read_full-append 18 header_of (payload ++ rest) length-header_of,
          decode_header_of,
          read_payload,
          read_full-append (length payload) payload rest refl,
          validate_payload_lem payload,
        )
        refl

  -- If the file ends inside a record of a payload within the format's limit, with at least one
  -- byte of it there, reading reports a truncated record, and the position does not move.
  pub next_torn :
      (pos : ℕ) (front back : Bytes)
      → record_of f payload ≡ front ++ back
      → 0 < length front
      → 0 < length back
      → next f (record { file = some front; pos = pos })
        ≡ (err (record_error truncated), record { file = some []; pos = pos })
  unfolding next decoded
  next_torn pos front back e some_front some_back = elim (Bool-cases (ltb (length front) 18)) [
    | inl short ↦ rw (
      next,
      next_in,
      read_record,
      read_full_short 18 front some_front (ltb→lt (length front) 18 short),
    )
    | inr enough ↦
        let whole : length front ≡ length (drop 18 front) + 18 =
          omega (arith, length-drop 18 front, ltb-false→le (length front) 18 enough) in
        let total : 18 + length payload ≡ length front + length back =
          sym length-record_of ∙ ap (length {A = ℕ}) e ∙ length-append front back in
        let header : take 18 front ≡ header_of =
          sym (take-append_le 18 front back (ltb-false→le (length front) 18 enough))
          ∙ ap (take 18) (sym e ∙ record-header_of)
          ∙ ap (λ (k : ℕ). take k (header_of ++ payload)) (sym length-header_of)
          ∙ take-append_length header_of payload in
        let step = read_full_enough 18 front (ltb-false→le (length front) 18 enough) in
        elim (read_full_cases (length payload) (drop 18 front) (omega arith)) [
          | inl none_left ↦
              rw
                (
                  next, next_in, read_record, step, header, decode_header_of, read_payload,
                  none_left,
                )
                refl
          | inr some_left ↦
              rw
                (
                  next, next_in, read_record, step, header, decode_header_of, read_payload,
                  some_left,
                )
                refl
        ]
  ]

pub next_eof :
    (f : Format) (pos : ℕ)
    → next f (record { file = some []; pos = pos })
      ≡ (err eof, record { file = some []; pos = pos })
unfolding next read_full
next_eof f pos = refl
