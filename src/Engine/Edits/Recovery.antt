-- ===== src/Engine/Edits/Recovery.antt =====
-- The replay of a manifest that a crash cut off.
use beachdb.Prelude.{
  ℕ, zero, suc, ◌+◌, ◌≤◌, ◌<◌, ◌≡◌, refl, sym, ap, ◌∙◌, arith, Bool, true, false, List, [], ◌∷◌,
  ◌++◌, Bytes, append_assoc, some, length, take, All, length-append, take-append_length, Result, ok,
  err, panic, ◌>>=◌, ◌⊎◌, inl, inr,
}
use beachdb.Wal.Cut.{stream_of, Fits, IsTorn, Cut, cut}
use beachdb.Stream.{Reader, ReadError, new_reader, valid_offset}
use beachdb.Stream.Torn.{record_of, length-record_of, next-record_of, next_torn, next_eof}
use beachdb.Manifest.Edit.{VersionEdit, EditError, encode_edit, IsEncodable}
use beachdb.Manifest.Edit.RoundTrip.{decode_version_edit-encode_edit}
use beachdb.Manifest.Writer.{manifest_record_format, manifest_record_format-IsFormat}
use beachdb.Engine.Edits.{
  ReplayError, Replay, new_replay, apply_edit_to_replay, end_replay, replay_edit, replay_payload,
  replay_edits, replay_manifest_stream,
}

-- An edit that the manifest can hold.
pub record IsStorable (e : VersionEdit) : Type 0 where
  pub encodable : IsEncodable e
  pub fits : Fits manifest_record_format (encode_edit e)

abbrev pub payloads : List VersionEdit → List Bytes
payloads [] = []
payloads (e ∷ es) = encode_edit e ∷ payloads es

-- The edits one after the other.
abbrev pub apply_edits : List VersionEdit → Replay → Result ReplayError Replay
apply_edits [] res = ok res
apply_edits (e ∷ es) res = apply_edit_to_replay e res >>= apply_edits es

abbrev pub is_torn : {torn : Bytes} → (torn ≡ []) ⊎ IsTorn manifest_record_format torn → Bool
is_torn (inl _) = false
is_torn (inr _) = true

pub bind_assoc :
    {E A B C : Type 0} (m : Result E A) (f : A → Result E B) (g : B → Result E C)
    → ((m >>= f) >>= g) ≡ (m >>= λ a. f a >>= g)
bind_assoc (ok a) f g = refl
bind_assoc (err e) f g = refl
bind_assoc panic f g = refl

bind_ext :
    {E A B : Type 0} (m : Result E A) (f g : A → Result E B)
    → ((a : A) → f a ≡ g a)
    → (m >>= f) ≡ (m >>= g)
bind_ext (ok a) f g h = h a
bind_ext (err e) f g h = refl
bind_ext panic f g h = refl

abbrev pub reader_at : Bytes → ℕ → Reader
reader_at contents pos = record { file = some contents; pos = pos }

replay_one :
    (fuel pos : ℕ) (e : VersionEdit) (rest : Bytes) (res : Replay)
    → IsStorable e
    → replay_edits
        (suc fuel)
        (reader_at (record_of manifest_record_format (encode_edit e) ++ rest) pos)
        res
      ≡ (apply_edit_to_replay e res
          >>= replay_edits fuel
              (reader_at rest (pos + length (record_of manifest_record_format (encode_edit e)))))
unfolding replay_edits replay_payload replay_edit
replay_one fuel pos e rest res h =
    ap (λ (x : Result ReadError Bytes × Reader). replay_payload (replay_edits fuel) x res)
      (next-record_of manifest_record_format manifest_record_format-IsFormat (encode_edit e) h.fits
        pos rest)
    ∙ ap
        (λ (x : Result EditError VersionEdit).
          replay_edit
            (replay_edits fuel
              (reader_at rest (pos + length (record_of manifest_record_format (encode_edit e)))))
            x res)
        (decode_version_edit-encode_edit e h.encodable)

replay_end :
    (fuel pos : ℕ) (torn : Bytes) (part : (torn ≡ []) ⊎ IsTorn manifest_record_format torn)
    (res : Replay)
    → replay_edits (suc fuel) (reader_at torn pos) res ≡ end_replay pos (is_torn part) res
unfolding replay_edits replay_payload valid_offset
replay_end fuel pos torn (inl e) res =
    ap (λ (t : Bytes). replay_edits (suc fuel) (reader_at t pos) res) e
    ∙ ap (λ (x : Result ReadError Bytes × Reader). replay_payload (replay_edits fuel) x res)
        (next_eof manifest_record_format pos)
replay_end fuel pos torn (inr t) res =
    ap (λ (x : Result ReadError Bytes × Reader). replay_payload (replay_edits fuel) x res)
      (next_torn manifest_record_format manifest_record_format-IsFormat t.payload t.fits pos torn
        t.back t.record_eq t.some_torn t.some_back)

pub replay_edits-stream :
    (es : List VersionEdit) (torn : Bytes) (fuel pos : ℕ) (res : Replay)
    → All IsStorable es
    → (part : (torn ≡ []) ⊎ IsTorn manifest_record_format torn) → length es < fuel
    → replay_edits fuel (reader_at (stream_of manifest_record_format (payloads es) ++ torn) pos) res
      ≡ (apply_edits es res
          >>= end_replay
              (pos + length (stream_of manifest_record_format (payloads es)))
              (is_torn part))
replay_edits-stream es torn zero pos res h part enough = absurd (omega arith)
replay_edits-stream [] torn (suc fuel) pos res h part enough =
    replay_end fuel pos torn part res
    ∙ ap (λ (k : ℕ). end_replay k (is_torn part) res) (omega arith)
replay_edits-stream (e ∷ es) torn (suc fuel) pos res (h, hs) part enough =
    let rec = record_of manifest_record_format (encode_edit e) in
    let rest = stream_of manifest_record_format (payloads es) in
    ap (λ (t : Bytes). replay_edits (suc fuel) (reader_at t pos) res) (append_assoc rec rest torn)
    ∙ replay_one fuel pos e (rest ++ torn) res h
    ∙ bind_ext (apply_edit_to_replay e res)
        (replay_edits fuel (reader_at (rest ++ torn) (pos + length rec)))
        (λ (r : Replay).
          apply_edits es r >>= end_replay (pos + length (rec ++ rest)) (is_torn part))
        (λ r.
          replay_edits-stream es torn fuel (pos + length rec) r hs part (omega arith)
          ∙ ap (λ (k : ℕ). apply_edits es r >>= end_replay k (is_torn part))
              (omega (arith, length-append rec rest)))
    ∙ sym (
        bind_assoc (apply_edit_to_replay e res) (apply_edits es)
          (end_replay (pos + length (rec ++ rest)) (is_torn part)))

payloads-take : (n : ℕ) (es : List VersionEdit) → payloads (take n es) ≡ take n (payloads es)
payloads-take zero es = refl
payloads-take (suc n) [] = refl
payloads-take (suc n) (e ∷ es) = ap (λ (ps : List Bytes). encode_edit e ∷ ps) (payloads-take n es)

All-Fits :
    (es : List VersionEdit) → All IsStorable es → All (Fits manifest_record_format) (payloads es)
All-Fits [] h = tt
All-Fits (e ∷ es) (h, hs) = (h.fits, All-Fits es hs)

All-take : (n : ℕ) (es : List VersionEdit) → All IsStorable es → All IsStorable (take n es)
All-take zero es h = tt
All-take (suc n) [] h = tt
All-take (suc n) (e ∷ es) (h, hs) = (h, All-take n es hs)

pub stream-length :
    (es : List VersionEdit)
    → All IsStorable es
    → length es ≤ length (stream_of manifest_record_format (payloads es))
stream-length [] h = omega arith
stream-length (e ∷ es) (h, hs) =
    let rec = record_of manifest_record_format (encode_edit e) in
    omega (
      arith,
      length-record_of manifest_record_format manifest_record_format-IsFormat (encode_edit e)
          h.fits,
      length-append rec (stream_of manifest_record_format (payloads es)),
      stream-length es hs,
    )

-- What the replay makes of the front part of a manifest: it applies the first `count` edits and ends
-- at the offset behind their records; no more edits are whole in it.
pub record ReplaysEdits (es : List VersionEdit) (front : Bytes) : Type 0 where
  pub count : ℕ
  pub offset : ℕ
  pub trimmed : Bool
  pub replays :
      replay_manifest_stream front
      ≡ (apply_edits (take count es) new_replay >>= end_replay offset trimmed)
  pub leaves : take offset front ≡ stream_of manifest_record_format (payloads (take count es))
  pub most :
      (n : ℕ)
      → n ≤ length (payloads es)
      → length (stream_of manifest_record_format (take n (payloads es))) ≤ length front
      → n ≤ count

replay-Cut :
    (es : List VersionEdit) (front : Bytes)
    → All IsStorable es
    → Cut manifest_record_format (payloads es) front
    → ReplaysEdits es front
unfolding replay_manifest_stream new_reader
replay-Cut es front h c =
    let kept = take c.count es in
    let stored = All-take c.count es h in
    let whole = stream_of manifest_record_format (payloads kept) in
    let front_eq : front ≡ whole ++ c.torn =
      c.front_eq
      ∙ ap (λ (ps : List Bytes). stream_of manifest_record_format ps ++ c.torn)
          (sym (payloads-take c.count es)) in
    let total : length front ≡ length whole + length c.torn =
      ap (length {A = ℕ}) front_eq ∙ length-append whole c.torn in
    record {
      count = c.count;
      offset = 0 + length whole;
      trimmed = is_torn c.torn_part;
      replays =
          ap (λ (t : Bytes). replay_edits (length front + 1) (reader_at t 0) new_replay) front_eq
          ∙ replay_edits-stream kept c.torn (length front + 1) 0 new_replay stored c.torn_part
              (omega (arith, stream-length kept stored, total));
      leaves =
          ap (λ (k : ℕ). take k front) (omega arith)
          ∙ ap (take (length whole)) front_eq
          ∙ take-append_length whole c.torn;
      most = c.most;
    }

-- Wherever a crash cuts off a manifest of edits that it can store, the replay gives what applying
-- some first edits, one after the other, gives, with the check for the next file id, and the
-- offset behind their records; these are all the edits whose records are whole in the file.
pub replay_manifest_stream-ReplaysEdits :
    (es : List VersionEdit) (front back : Bytes)
    → All IsStorable es
    → front ++ back ≡ stream_of manifest_record_format (payloads es)
    → ReplaysEdits es front
replay_manifest_stream-ReplaysEdits es front back h e =
    replay-Cut es front h (cut manifest_record_format (payloads es) front back (All-Fits es h) e)
