-- ===== src/Engine/Publish/Recorded.antt =====
-- The manifest describes the database: its replay gives the version and the counters in memory.
use beachdb.Prelude.{
  ℕ, ◌+◌, ◌%◌, ◌^◌, ◌<◌, ◌≡◌, refl, sym, ap, ◌∙◌, arith, true, false, List, [], ◌∷◌, ◌++◌, Bytes,
  All, subst, append_assoc, append-nil, length, Result, ok, err, panic, ◌>>=◌, inl,
}
use beachdb.Wal.Cut.{stream_of}
use beachdb.Stream.{new_reader}
use beachdb.Stream.Torn.{record_of}
use beachdb.Manifest.Edit.{VersionEdit, encode_edit}
use beachdb.Manifest.Version.{Version, apply, contains}
use beachdb.Manifest.Writer.{manifest_record_format, append_fits}
use beachdb.Memtable.{Memtable}
use beachdb.Engine.{Db}
use beachdb.Engine.Edits.{
  Replay, ReplayError, ReplayResult, new_replay, add_live, remove_all_live, apply_edit_to_replay,
  end_replay, replay_manifest_stream, replay_edits,
}
use beachdb.Engine.Edits.Recovery.{
  IsStorable, payloads, apply_edits, reader_at, replay_edits-stream, stream-length,
}
use beachdb.Engine.Publish.{
  SstWriteResult, flush_edit, install, after_manifest, publish_flushed_sst,
}

-- The edits that the manifest holds, and the state that they give.
pub record IsRecorded (M : Memtable) (db : Db M) : Type 0 where
  pub edits : List VersionEdit
  pub replay : Replay
  pub storable : All IsStorable edits
  pub is_open : db.manifest.is_open ≡ true
  pub file : db.manifest.file ≡ stream_of manifest_record_format (payloads edits)
  pub applies : apply_edits edits new_replay ≡ ok replay
  pub version : replay.version ≡ db.version
  pub next_file_id : replay.next_file_id ≡ db.next_sst_id
  pub saw_next_file_id : replay.saw_next_file_id ≡ true
  pub live : All (λ id. id < db.next_sst_id) replay.live_files

contains_below : (n : ℕ) (ids : List ℕ) → All (λ id. id < n) ids → contains n ids ≡ false
unfolding contains
contains_below n [] h = refl
contains_below n (id ∷ ids) (h, hs) = let rest = contains_below n ids hs in ground (arith, h, rest)

All-lt-suc : (n : ℕ) (ids : List ℕ) → All (λ id. id < n) ids → All (λ id. id < n + 1) ids
All-lt-suc n [] h = tt
All-lt-suc n (id ∷ ids) (h, hs) = (omega (arith, h), All-lt-suc n ids hs)

apply_edits-append :
    (es : List VersionEdit) (e : VersionEdit) (res next : Replay) (start : Replay)
    → apply_edits es start ≡ ok res
    → apply_edit_to_replay e res ≡ ok next
    → apply_edits (es ++ (e ∷ [])) start ≡ ok next
apply_edits-append [] e res next start h k =
    let same : start ≡ res = cc in
    ap (λ (r : Replay). apply_edit_to_replay e r >>= apply_edits []) same
    ∙ ap (λ (x : Result ReplayError Replay). x >>= apply_edits []) k
apply_edits-append (x ∷ es) e res next start h k =
    go (apply_edit_to_replay x start) h (λ r p. apply_edits-append es e res next r p k)
  where
    go :
        (m : Result ReplayError Replay)
        → (m >>= apply_edits es) ≡ ok res
        → ((r : Replay) → apply_edits es r ≡ ok res → apply_edits (es ++ (e ∷ [])) r ≡ ok next)
        → (m >>= apply_edits (es ++ (e ∷ []))) ≡ ok next
    go (ok r) p rest = rest r p
    go (err e') p rest = cc
    go panic p rest = cc

stream_of-append :
    (es : List VersionEdit) (e : VersionEdit)
    → stream_of manifest_record_format (payloads (es ++ (e ∷ [])))
      ≡ stream_of manifest_record_format (payloads es)
        ++ record_of manifest_record_format (encode_edit e)
stream_of-append [] e = append-nil (record_of manifest_record_format (encode_edit e))
stream_of-append (x ∷ es) e =
    ap (λ (t : Bytes). record_of manifest_record_format (encode_edit x) ++ t)
      (stream_of-append es e)
    ∙ sym (
        append_assoc (record_of manifest_record_format (encode_edit x))
          (stream_of manifest_record_format (payloads es))
          (record_of manifest_record_format (encode_edit e)))

All-snoc :
    (es : List VersionEdit) (e : VersionEdit)
    → All IsStorable es
    → IsStorable e
    → All IsStorable (es ++ (e ∷ []))
All-snoc [] e h k = (k, tt)
All-snoc (x ∷ es) e (h, hs) k = (h, All-snoc es e hs k)

module _ (M : Memtable) where
  -- The state of the replay behind the edit of a flush.
  replay_of : SstWriteResult → Db M → Replay → Replay
  replay_of res db r = record {
    version = apply r.version (flush_edit M res db);
    next_file_id = (1 + db.next_sst_id) % 2 ^ 64;
    seqno = db.seqno;
    log_number = r.log_number;
    live_files = db.next_sst_id ∷ r.live_files;
    saw_next_file_id = true;
  }

  flush_edit-applies :
      (res : SstWriteResult) (db : Db M) (r : Replay)
      → contains db.next_sst_id r.live_files ≡ false
      → apply_edit_to_replay (flush_edit M res db) r ≡ ok (replay_of res db r)
  unfolding apply_edit_to_replay add_live remove_all_live flush_edit replay_of
  flush_edit-applies res db r new = rw new refl

  -- Let the manifest be open and hold edits whose replay gives the version and the next file id in
  -- memory, with every live id below the latter. Publishing a table without the failpoint succeeds
  -- and keeps this, if the edit can be stored and the next file id stays below 2^64.
  pub publish_flushed_sst-IsRecorded :
      (res : SstWriteResult) (db : Db M)
      → IsRecorded M db
      → IsStorable (flush_edit M res db)
      → db.next_sst_id + 1 < 2 ^ 64
      → ((publish_flushed_sst M false res db).0 ≡ ok tt)
        × IsRecorded M (publish_flushed_sst M false res db).1
  unfolding publish_flushed_sst after_manifest install
  publish_flushed_sst-IsRecorded res db c fits small =
      let edit = flush_edit M res db in
      let applied =
        flush_edit-applies res db c.replay
          (contains_below db.next_sst_id c.replay.live_files c.live) in
      rw (append_fits (encode_edit edit) db.manifest c.is_open fits.fits, after_manifest)
        (
          refl,
          record {
            edits = c.edits ++ (edit ∷ []);
            replay = replay_of res db c.replay;
            storable = All-snoc c.edits edit c.storable fits;
            is_open = refl;
            file =
                ap (λ (t : Bytes). t ++ record_of manifest_record_format (encode_edit edit)) c.file
                ∙ sym (stream_of-append c.edits edit);
            applies =
                apply_edits-append c.edits edit c.replay (replay_of res db c.replay) new_replay
                  c.applies applied;
            version = unfold replay_of in ap (λ (v : Version). apply v edit) c.version;
            next_file_id = unfold replay_of in omega (arith, small);
            saw_next_file_id = unfold replay_of in refl;
            live =
                unfold replay_of in
                subst (λ (n : ℕ). All (λ id. id < n) (db.next_sst_id ∷ c.replay.live_files))
                  (next db small)
                  (omega arith, All-lt-suc db.next_sst_id c.replay.live_files c.live);
          },
        )
    where
      next :
          (db : Db M)
          → db.next_sst_id + 1 < 2 ^ 64
          → db.next_sst_id + 1 ≡ (db.next_sst_id + 1) % 2 ^ 64
      next db small = omega (arith, small)

  -- If the manifest holds edits that give the version and the next file id in memory, then the
  -- replay of its file succeeds with that version and that next file id.
  pub replay_manifest_stream-IsRecorded :
      (db : Db M)
      → IsRecorded M db
      → (r : ReplayResult) × ((replay_manifest_stream db.manifest.file ≡ ok r)
          × ((r.replay.version ≡ db.version) × (r.replay.next_file_id ≡ db.next_sst_id)))
  unfolding replay_manifest_stream new_reader end_replay
  replay_manifest_stream-IsRecorded db c =
      let whole = stream_of manifest_record_format (payloads c.edits) in
      (
        record { replay = c.replay; offset = 0 + length whole; tail_trimmed = false },
        (
          ap (λ (t : Bytes). replay_edits (length t + 1) (reader_at t 0) new_replay)
                (c.file ∙ sym (append-nil whole))
              ∙ replay_edits-stream c.edits [] (length (whole ++ []) + 1) 0 new_replay c.storable
                  (inl refl)
                  (omega (
                    arith,
                    stream-length c.edits c.storable,
                    ap (length {A = ℕ}) (append-nil whole),
                  ))
              ∙ ap (λ (x : Result ReplayError Replay). x >>= end_replay (0 + length whole) false)
                  c.applies
              ∙ rw c.saw_next_file_id refl,
          (c.version, c.next_file_id),
        ),
      )
