-- ===== src/Engine/Recovery.antt =====
-- Recovery from a log that a crash cut off.
use beachdb.Prelude.{
  ℕ, zero, suc, ◌+◌, ◌≤◌, ◌<◌, ◌≡◌, sym, ap, ◌∙◌, arith, List, [], ◌∷◌, ◌++◌, Bytes, append_assoc,
  Option, none, some, length, take, append-nil, take-append_length, All, length-append, Result, ok,
  ◌>>=◌, ◌⊎◌, inl, inr,
}
use beachdb.Coding.{IsU32}
use beachdb.Batch.{Operation, Batch, BatchError, IsEncodable, encode_operations, decode_batch}
use beachdb.Batch.Codec.{decode_batch-encode_operations}
use beachdb.Wal.{wal_record_format}
use beachdb.Wal.Contents.{wal_record_format-IsFormat}
use beachdb.Wal.Cut.{stream_of, Fits, IsTorn, Cut, cut}
use beachdb.Stream.{ReadError, next, new_reader, valid_offset}
use beachdb.Stream
use beachdb.Stream.Torn.{record_of, length-record_of, next-record_of, next_torn, next_eof}
use beachdb.Memtable.{Memtable}
use beachdb.Engine.{Db, apply_operations, replay_decoded, replay_next, replay_records, replay_wal}

-- The payload that Write appends for these operations.
pub record Logged (ops : List Operation) (payload : Bytes) : Type 0 where
  pub encodes : encode_operations ops ≡ ok payload
  pub few : IsU32 (length ops)
  pub fields : All IsEncodable ops
  pub fits : Fits wal_record_format payload

abbrev pub AllLogged : List (List Operation) → List Bytes → Type 0
AllLogged [] [] = Unit
AllLogged [] (p ∷ ps) = ⊥
AllLogged (ops ∷ opss) [] = ⊥
AllLogged (ops ∷ opss) (p ∷ ps) = Logged ops p × AllLogged opss ps

pub AllLogged-Fits :
    (opss : List (List Operation)) (ps : List Bytes)
    → AllLogged opss ps
    → All (Fits wal_record_format) ps
AllLogged-Fits [] [] h = tt
AllLogged-Fits [] (p ∷ ps) h = absurd h
AllLogged-Fits (ops ∷ opss) [] h = absurd h
AllLogged-Fits (ops ∷ opss) (p ∷ ps) (h, hs) = (h.fits, AllLogged-Fits opss ps hs)

AllLogged-take :
    (n : ℕ) (opss : List (List Operation)) (ps : List Bytes)
    → AllLogged opss ps
    → AllLogged (take n opss) (take n ps)
AllLogged-take zero opss ps h = tt
AllLogged-take (suc n) [] [] h = tt
AllLogged-take (suc n) [] (p ∷ ps) h = absurd h
AllLogged-take (suc n) (ops ∷ opss) [] h = absurd h
AllLogged-take (suc n) (ops ∷ opss) (p ∷ ps) (h, hs) = (h, AllLogged-take n opss ps hs)

decode-Logged :
    (ops : List Operation) (p : Bytes) → Logged ops p → decode_batch p ≡ ok (record { ops = ops })
decode-Logged ops p h =
    ap (λ (x : Result BatchError Bytes). x >>= decode_batch) (sym h.encodes)
    ∙ decode_batch-encode_operations ops h.few h.fields

-- Where the file is truncated: behind the whole records, if there is more.
abbrev pub cut_at : {torn : Bytes} → (torn ≡ []) ⊎ IsTorn wal_record_format torn → ℕ → Option ℕ
cut_at (inl _) pos = none
cut_at (inr _) pos = some pos

module _ (M : Memtable) where
  abbrev pub apply_batches : List (List Operation) → Db M → Db M
  apply_batches [] db = db
  apply_batches (ops ∷ opss) db = apply_batches opss (apply_operations M ops db)

  abbrev pub reader_at : Bytes → ℕ → Stream.Reader
  reader_at contents pos = record { file = some contents; pos = pos }

  replay_one :
      (fuel pos : ℕ) (ops : List Operation) (p rest : Bytes) (db : Db M)
      → Logged ops p
      → replay_records M (suc fuel) (reader_at (record_of wal_record_format p ++ rest) pos) db
        ≡ replay_records M fuel
            (reader_at rest (pos + length (record_of wal_record_format p)))
            (apply_operations M ops db)
  unfolding replay_records replay_next replay_decoded
  replay_one fuel pos ops p rest db h =
      ap
        (λ (x : Result ReadError Bytes × Stream.Reader). replay_next M (replay_records M fuel) x db)
        (next-record_of wal_record_format wal_record_format-IsFormat p h.fits pos rest)
      ∙ ap
          (λ (x : Result BatchError Batch).
            replay_decoded M
              (replay_records M fuel
                (reader_at rest (pos + length (record_of wal_record_format p))))
              x db)
          (decode-Logged ops p h)

  replay_end :
      (fuel pos : ℕ) (torn : Bytes) (part : (torn ≡ []) ⊎ IsTorn wal_record_format torn) (db : Db M)
      → replay_records M (suc fuel) (reader_at torn pos) db ≡ (ok (cut_at part pos), db)
  unfolding replay_records replay_next valid_offset
  replay_end fuel pos torn (inl e) db =
      ap (λ (t : Bytes). replay_records M (suc fuel) (reader_at t pos) db) e
      ∙ ap
          (λ (x : Result ReadError Bytes × Stream.Reader).
            replay_next M (replay_records M fuel) x db)
          (next_eof wal_record_format pos)
  replay_end fuel pos torn (inr t) db =
      ap
        (λ (x : Result ReadError Bytes × Stream.Reader). replay_next M (replay_records M fuel) x db)
        (next_torn wal_record_format wal_record_format-IsFormat t.payload t.fits pos torn t.back
          t.record_eq t.some_torn t.some_back)

  pub replay-stream :
      (opss : List (List Operation)) (ps : List Bytes) (torn : Bytes) (fuel pos : ℕ) (db : Db M)
      → AllLogged opss ps
      → (part : (torn ≡ []) ⊎ IsTorn wal_record_format torn) → length ps < fuel
      → replay_records M fuel (reader_at (stream_of wal_record_format ps ++ torn) pos) db
        ≡ (ok (cut_at part (pos + length (stream_of wal_record_format ps))), apply_batches opss db)
  replay-stream opss ps torn zero pos db h part enough = absurd (omega arith)
  replay-stream [] [] torn (suc fuel) pos db h part enough =
      replay_end fuel pos torn part db ∙ ap (λ (k : ℕ). (ok (cut_at part k), db)) (omega arith)
  replay-stream [] (p ∷ ps) torn (suc fuel) pos db h part enough = absurd h
  replay-stream (ops ∷ opss) [] torn (suc fuel) pos db h part enough = absurd h
  replay-stream (ops ∷ opss) (p ∷ ps) torn (suc fuel) pos db (h, hs) part enough =
      let rec = record_of wal_record_format p in
      let rest = stream_of wal_record_format ps in
      ap (λ (t : Bytes). replay_records M (suc fuel) (reader_at t pos) db)
        (append_assoc rec rest torn)
      ∙ replay_one fuel pos ops p (rest ++ torn) db h
      ∙ replay-stream opss ps torn fuel (pos + length rec) (apply_operations M ops db) hs part
          (omega arith)
      ∙ ap (λ (k : ℕ). (ok (cut_at part k), apply_batches opss (apply_operations M ops db)))
          (omega (arith, length-append rec rest))

-- The log after os.Truncate.
abbrev pub truncate : Option ℕ → Bytes → Bytes
truncate none contents = contents
truncate (some size) contents = take size contents

pub stream-length :
    (ps : List Bytes)
    → All (Fits wal_record_format) ps
    → length ps ≤ length (stream_of wal_record_format ps)
stream-length [] h = omega arith
stream-length (p ∷ ps) (h, hs) =
    let rec = record_of wal_record_format p in
    omega (
      arith,
      length-record_of wal_record_format wal_record_format-IsFormat p h,
      length-append rec (stream_of wal_record_format ps),
      stream-length ps hs,
    )

truncated_eq :
    (whole torn front : Bytes) (part : (torn ≡ []) ⊎ IsTorn wal_record_format torn)
    → front ≡ whole ++ torn
    → truncate (cut_at part (length whole)) front ≡ whole
truncated_eq whole torn front (inl e) h = h ∙ ap (λ (t : Bytes). whole ++ t) e ∙ append-nil whole
truncated_eq whole torn front (inr t) h = ap (take (length whole)) h ∙ take-append_length whole torn

-- What recovery makes of the front part of a log: it applies the first `count` batches, in order and
-- whole, and leaves a log of just these; no more batches are whole in it.
pub record Recovers (M : Memtable) (db : Db M) (opss : List (List Operation)) (ps : List Bytes)
    (front : Bytes) : Type 0 where
  pub count : ℕ
  pub size : Option ℕ
  pub replays : replay_wal M (some front) db ≡ (ok size, apply_batches M (take count opss) db)
  pub leaves : truncate size front ≡ stream_of wal_record_format (take count ps)
  pub most :
      (n : ℕ)
      → n ≤ length ps
      → length (stream_of wal_record_format (take n ps)) ≤ length front
      → n ≤ count

recover-Cut :
    (M : Memtable) (db : Db M) (opss : List (List Operation)) (ps : List Bytes) (front : Bytes)
    → AllLogged opss ps
    → Cut wal_record_format ps front
    → Recovers M db opss ps front
unfolding replay_wal new_reader
recover-Cut M db opss ps front h c =
    let kept = take c.count ps in
    let logged = AllLogged-take c.count opss ps h in
    let whole = stream_of wal_record_format kept in
    let room = stream-length kept (AllLogged-Fits (take c.count opss) kept logged) in
    let total : length front ≡ length whole + length c.torn =
      ap (length {A = ℕ}) c.front_eq ∙ length-append whole c.torn in
    record {
      count = c.count;
      size = cut_at c.torn_part (0 + length whole);
      replays =
          ap
            (λ (t : Bytes).
              replay_records M (length front + 1) (record { file = some t; pos = 0 }) db)
            c.front_eq
          ∙ replay-stream M (take c.count opss) kept c.torn (length front + 1) 0 db logged
              c.torn_part (omega (arith, room, total));
      leaves =
          ap (λ (k : ℕ). truncate (cut_at c.torn_part k) front) (omega arith)
          ∙ truncated_eq whole c.torn front c.torn_part c.front_eq;
      most = c.most;
    }

-- Wherever a crash cuts off the log of some batches that encode within the limits, recovery ends
-- without an error: it applies a prefix of the batches, each of them whole, which has every batch
-- whose record is whole in the file, and cutting the file off at the offset it gives leaves the
-- log of just these batches.
pub replay_wal-Recovers :
    (M : Memtable) (db : Db M) (opss : List (List Operation)) (ps : List Bytes) (front back : Bytes)
    → AllLogged opss ps
    → front ++ back ≡ stream_of wal_record_format ps
    → Recovers M db opss ps front
replay_wal-Recovers M db opss ps front back h e =
    recover-Cut M db opss ps front h
      (cut wal_record_format ps front back (AllLogged-Fits opss ps h) e)
