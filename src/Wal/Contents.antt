-- ===== src/Wal/Contents.antt =====
-- What the writer has of the log: the file and, behind it, the buffer.
use beachdb.Prelude.{
  suc, ◌-◌, ◌≤◌, ◌≡◌, refl, sym, ap, ◌∙◌, arith, Bool, true, [], ◌∷◌, ◌++◌, Bytes, append_assoc,
  append-nil, length, take, drop, take-append-drop, Result, ok, err, ltb, leb, ◌==◌, if◌then◌else◌,
  Bool-cases, inl, inr, ==_iff,
}
use beachdb.Record.{RecordError, IsFormat}
use beachdb.Stream.Torn.{record_of, encode_fits}
use beachdb.Wal.{
  WalError, writer_closed, Writer, buffer_size, wal_record_format, write_empty, write,
  append_record, append, flush, sync,
}

pub wal_record_format-IsFormat : IsFormat wal_record_format
wal_record_format-IsFormat = record { magic = refl; max_payload_size = omega arith }

abbrev pub contents : Writer → Bytes
contents w = w.file ++ w.buf

abbrev pub IsSynced : Writer → Type 0
IsSynced w = (w.buf ≡ []) × (w.synced ≡ length w.file)

write_empty-contents :
    (p : Bytes) (w : Writer) → w.buf ≡ [] → contents (write_empty p w) ≡ w.file ++ p
unfolding write_empty
write_empty-contents p w e = elim (Bool-cases (ltb buffer_size (length p))) [
  | inl big ↦ rw big (append-nil (w.file ++ p))
  | inr fits ↦ rw fits refl
]

empty_of_length : (xs : Bytes) → (length xs == 0) ≡ true → xs ≡ []
empty_of_length [] h = refl
empty_of_length (x ∷ xs) h = absurd (omega (arith, (==_iff (suc (length xs)) 0).0 h))

write-contents : (p : Bytes) (w : Writer) → contents (write p w) ≡ contents w ++ p
unfolding write
write-contents p w = elim (Bool-cases (leb (length p) (buffer_size - length w.buf))) [
  | inl fits ↦ rw fits (sym (append_assoc w.file w.buf p))
  | inr big ↦ elim (Bool-cases (length w.buf == 0)) [
    | inl nothing ↦
        rw (big, nothing, empty_of_length w.buf nothing)
          (append-nil (w.file ++ p) ∙ ap (λ (t : Bytes). t ++ p) (sym (append-nil w.file)))
    | inr some_left ↦
        let room = buffer_size - length w.buf in
        rw (big, some_left)
          (write_empty-contents (drop room p)
              (record w { file = w.file ++ (w.buf ++ take room p); buf = [] }) refl
            ∙ append_assoc w.file (w.buf ++ take room p) (drop room p)
            ∙ ap (λ (t : Bytes). w.file ++ t)
                (append_assoc w.buf (take room p) (drop room p)
                  ∙ ap (λ (t : Bytes). w.buf ++ t) (take-append-drop room p))
            ∙ sym (append_assoc w.file w.buf p))
  ]
]

if_true {ℓ} : {A : Type ℓ} (b : Bool) (x y : A) → b ≡ true → (if b then x else y) ≡ x
if_true b x y h = rw h refl

append_open :
    (w : Writer) (payload : Bytes)
    → w.is_open ≡ true
    → length payload ≤ wal_record_format.max_payload_size
    → append payload w ≡ (ok tt, write (record_of wal_record_format payload) w)
unfolding append append_record
append_open w payload is_open fits =
    ap (λ (x : Result RecordError Bytes). append_record x w)
      (encode_fits wal_record_format wal_record_format-IsFormat payload fits)
    ∙ if_true w.is_open (ok tt, write (record_of wal_record_format payload) w)
        (err writer_closed, w) is_open

-- Appending a payload within the limit to an open log succeeds and adds the payload's record
-- behind what the file and the buffer hold, however full the buffer is.
pub append-contents :
    (w : Writer) (payload : Bytes)
    → w.is_open ≡ true
    → length payload ≤ wal_record_format.max_payload_size
    → ((append payload w).0 ≡ ok tt)
      × (contents (append payload w).1 ≡ contents w ++ record_of wal_record_format payload)
append-contents w payload is_open fits =
    let done = append_open w payload is_open fits in
    (
      ap (λ (x : Result WalError (Unit {0}) × Writer). x.0) done,
      ap (λ (x : Result WalError (Unit {0}) × Writer). contents x.1) done
          ∙ write-contents (record_of wal_record_format payload) w,
    )

write-is_open : (p : Bytes) (w : Writer) → (write p w).is_open ≡ w.is_open
unfolding write write_empty
write-is_open p w = ground arith

pub append-keeps :
    (w : Writer) (payload : Bytes)
    → w.is_open ≡ true
    → length payload ≤ wal_record_format.max_payload_size
    → (append payload w).1.is_open ≡ true
append-keeps w payload is_open fits =
    ap (λ (x : Result WalError (Unit {0}) × Writer). x.1.is_open)
      (append_open w payload is_open fits)
    ∙ write-is_open (record_of wal_record_format payload) w
    ∙ is_open

-- Syncing an open log succeeds, empties the buffer, makes all of the file durable, and adds
-- nothing.
pub sync-contents :
    (w : Writer)
    → w.is_open ≡ true
    → ((sync w).0 ≡ ok tt) × (IsSynced (sync w).1 × (contents (sync w).1 ≡ contents w))
unfolding sync flush
sync-contents w is_open = rw is_open (refl, ((refl, refl), append-nil (w.file ++ w.buf)))
