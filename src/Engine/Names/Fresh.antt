-- ===== src/Engine/Names/Fresh.antt =====
-- engine/db.go: the number of a new manifest.
use beachdb.Prelude.{
  ℕ, ◌+◌, ◌%◌, ◌^◌, ◌≤◌, ◌<◌, ◌≡◌, refl, ap, ◌∙◌, arith, List, [], ◌∷◌, Bytes, Option, none, some,
  Bool-cases, inl, inr, err,
}
use beachdb.Record.{bytes_equal}
use beachdb.Record.Codec.{eq_of_bytes_equal}
use beachdb.Engine.{missing_file}
use beachdb.Engine.Names.{
  build_manifest_file_name, manifest_file_prefix, trim_prefix, parse_uint, manifest_id, Entry,
  larger_id, max_manifest_id, next_available_manifest_id, open_file,
}
use beachdb.Engine.Names.Decimal.{parse_uint-padded, parse_uint-bound}

manifest_id-build_manifest_file_name :
    (id : ℕ) → id < 2 ^ 64 → manifest_id (build_manifest_file_name id) ≡ some id
unfolding manifest_id build_manifest_file_name trim_prefix
manifest_id-build_manifest_file_name id h = parse_uint-padded 6 id h

parsed-bound :
    (o : Option Bytes) (id : ℕ)
    → elim o [ none ↦ none | some id_str ↦ parse_uint id_str ] ≡ some id
    → id < 2 ^ 64
parsed-bound none id h = ground arith
parsed-bound (some id_str) id h = parse_uint-bound id_str id h

manifest_id-bound : (name : Bytes) (id : ℕ) → manifest_id name ≡ some id → id < 2 ^ 64
unfolding manifest_id
manifest_id-bound name id h = parsed-bound (trim_prefix manifest_file_prefix name) id h

larger_id_le : (m : ℕ) (o : Option ℕ) → m ≤ larger_id m o
larger_id_le m none = omega arith
larger_id_le m (some id) = ground arith

larger_id-some : (m id : ℕ) → id ≤ larger_id m (some id)
larger_id-some m id = ground arith

larger_id-bound :
    (m : ℕ) (o : Option ℕ)
    → m < 2 ^ 64
    → ((id : ℕ) → o ≡ some id → id < 2 ^ 64)
    → larger_id m o < 2 ^ 64
larger_id-bound m none h k = h
larger_id-bound m (some id) h k = let b = k id refl in ground arith

max_manifest_id_le : (m : ℕ) (es : List Entry) → m ≤ max_manifest_id m es
unfolding max_manifest_id
max_manifest_id_le m [] = omega arith
max_manifest_id_le m (e ∷ es) =
    let id = manifest_id e.name in
    omega (arith, larger_id_le m id, max_manifest_id_le (larger_id m id) es)

max_manifest_id-bound : (m : ℕ) (es : List Entry) → m < 2 ^ 64 → max_manifest_id m es < 2 ^ 64
unfolding max_manifest_id
max_manifest_id-bound m [] h = h
max_manifest_id-bound m (e ∷ es) h =
    max_manifest_id-bound (larger_id m (manifest_id e.name)) es
      (larger_id-bound m (manifest_id e.name) h (manifest_id-bound e.name))

open_file_above :
    (n m : ℕ)
    → n < 2 ^ 64
    → (es : List Entry) → max_manifest_id m es < n
    → open_file (build_manifest_file_name n) es ≡ err missing_file
unfolding open_file max_manifest_id
open_file_above n m b [] h = refl
open_file_above n m b (e ∷ es) h =
    elim (Bool-cases (bytes_equal e.name (build_manifest_file_name n))) [
      | inl named ↦
          let id : manifest_id e.name ≡ some n =
            ap manifest_id (eq_of_bytes_equal e.name _ named)
            ∙ manifest_id-build_manifest_file_name n b in
          let seen : n ≤ larger_id m (manifest_id e.name) = rw id (larger_id-some m n) in
          absurd (omega (arith, max_manifest_id_le (larger_id m (manifest_id e.name)) es))
      | inr other ↦ rw other (open_file_above n (larger_id m (manifest_id e.name)) b es h)
    ]

-- If the next manifest id is not 0, to which it wraps behind 2^64 - 1, then no file in the
-- directory has the name of the manifest with that id.
pub next_available_manifest_id_lem :
    (entries : List Entry)
    → 0 < next_available_manifest_id entries
    → open_file (build_manifest_file_name (next_available_manifest_id entries)) entries
      ≡ err missing_file
unfolding next_available_manifest_id
next_available_manifest_id_lem entries h =
    let b : max_manifest_id 0 entries < 2 ^ 64 = max_manifest_id-bound 0 entries (omega arith) in
    open_file_above ((max_manifest_id 0 entries + 1) % 2 ^ 64) 0 (omega arith) entries (omega arith)
