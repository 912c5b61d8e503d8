-- ===== src/Record/Total.antt =====
-- Headers on any bytes at all.
use beachdb.Prelude.{
  ◌≤◌, ◌≡◌, arith, true, Bytes, length, take, drop, length-take, length-drop, Safe, ltb, ◌==◌,
  ==_iff, Bool-cases, inl, inr, ltb-false→le,
}
use beachdb.Coding.Decoder.Sound.{index-total, uint32-total}
use beachdb.Record.{bytes_equal, Format, Header, RecordError, header_size, type_full, decode_header}

-- What a decoded header has passed: the size, the magic, the type and the payload limit.
pub record Accepts (f : Format) (buf : Bytes) (h : Header) : Type 0 where
  pub size : length buf ≡ header_size
  pub magic : bytes_equal (take 8 buf) f.magic ≡ true
  pub record_type : h.record_type ≡ type_full
  pub payload_length : h.payload_length ≤ f.max_payload_size

-- On any bytes decoding a header returns one that is accepted or an error, with no panic.
pub decode_header-Safe : (f : Format) (buf : Bytes) → Safe (Accepts f buf) (decode_header f buf)
unfolding decode_header
decode_header-Safe f buf = elim (Bool-cases (ltb (length buf) header_size)) [
  | inl short ↦ rw short tt
  | inr enough ↦ elim (Bool-cases (ltb header_size (length buf))) [
    | inl long ↦ rw (enough, long) tt
    | inr exact ↦
        let size : length buf ≡ 18 =
          omega (arith, ltb-false→le (length buf) 18 enough, ltb-false→le 18 (length buf) exact) in
        let (ver, at_8) = index-total {E = RecordError} buf 8 (omega arith) in
        let (type, at_9) = index-total {E = RecordError} buf 9 (omega arith) in
        let (len, at_10) =
          uint32-total {E = RecordError} (take 4 (drop 10 buf))
            (omega (arith, length-take 4 (drop 10 buf), length-drop 10 buf)) in
        let (crc, at_14) =
          uint32-total {E = RecordError} (take 4 (drop 14 buf))
            (omega (arith, length-take 4 (drop 14 buf), length-drop 14 buf)) in
        elim (Bool-cases (bytes_equal (take 8 buf) f.magic)) [
          | inr bad ↦ rw (enough, exact, bad) tt
          | inl magic ↦ elim (Bool-cases (ver == 1)) [
            | inr bad ↦ rw (enough, exact, magic, at_8, bad) tt
            | inl good ↦ elim (Bool-cases (type == 1)) [
              | inr bad ↦ rw (enough, exact, magic, at_8, good, at_9, bad) tt
              | inl full ↦ elim (Bool-cases (ltb f.max_payload_size len)) [
                | inl large ↦ rw (enough, exact, magic, at_8, good, at_9, full, at_10, large) tt
                | inr fits ↦
                    rw (enough, exact, magic, at_8, good, at_9, full, at_10, fits, at_14)
                      (record {
                        size = size;
                        magic = magic;
                        record_type = (==_iff type 1).0 full;
                        payload_length = ltb-false→le f.max_payload_size len fits;
                      })
              ]
            ]
          ]
        ]
  ]
]
