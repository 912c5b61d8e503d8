-- ===== src/Sstable/Writer/Layout.antt =====
-- The bytes of a table file: its blocks one after the other, and the index entries that name them.
use beachdb.Prelude.{
  ℕ, ◌+◌, ◌*◌, ◌≡◌, ◌≤◌, refl, sym, ◌∙◌, ap, arith, List, [], ◌∷◌, ◌++◌, Bytes, length,
  length-append, append_assoc, All,
}
use beachdb.Coding.{put_uint32, put_uint64}
use beachdb.Coding.Words.{length-put_uint32, length-put_uint64}
use beachdb.Checksum.{crc32c}
use beachdb.Keys.{InternalKey, encode}
use beachdb.Sstable.Block.{BlockEntry, encode_entry, zero_key}
use beachdb.Sstable.Block.Codec.{encode_entry_of, encode_entries}
use beachdb.Sstable.Index.{IndexEntry, encode_index_entry, encode_index_entries, build_index_block}
use beachdb.Sstable.Trailer.{length-trailer}
use beachdb.Sstable.Reader.Blocks.{entries_of, LastKey}

abbrev pub last_key_of : List BlockEntry → InternalKey
last_key_of [] = zero_key
last_key_of (e ∷ []) = e.key
last_key_of (e ∷ (f ∷ es)) = last_key_of (f ∷ es)

abbrev pub IsSome : List BlockEntry → Type 0
IsSome [] = ⊥
IsSome (e ∷ es) = Unit

-- A block as the builder finishes it.
abbrev pub block_bytes : List BlockEntry → Bytes
block_bytes b = encode_entries b ++ put_uint32 (crc32c (encode_entries b))

abbrev pub bytes_of : List (List BlockEntry) → Bytes
bytes_of [] = []
bytes_of (b ∷ bs) = block_bytes b ++ bytes_of bs

abbrev pub index_entry_of : ℕ → List BlockEntry → IndexEntry
index_entry_of offset b = record {
  last_key = last_key_of b;
  offset = offset;
  size = length (block_bytes b);
}

abbrev pub index_of : ℕ → List (List BlockEntry) → List IndexEntry
index_of offset [] = []
index_of offset (b ∷ bs) = index_entry_of offset b ∷ index_of (offset + length (block_bytes b)) bs

-- An upper bound of the bytes that entries take in blocks.
abbrev pub cost : List BlockEntry → ℕ
cost [] = 0
cost (e ∷ es) = length (encode_entry_of e) + 4 + cost es

pub last_key_of-LastKey : (b : List BlockEntry) → IsSome b → LastKey b (last_key_of b)
last_key_of-LastKey [] s = absurd s
last_key_of-LastKey (e ∷ []) s = refl
last_key_of-LastKey (e ∷ (f ∷ es)) s = last_key_of-LastKey (f ∷ es) tt

pub last_key_of-append :
    (b : List BlockEntry) (e : BlockEntry) → last_key_of (b ++ (e ∷ [])) ≡ e.key
last_key_of-append [] e = refl
last_key_of-append (x ∷ []) e = refl
last_key_of-append (x ∷ (y ∷ ys)) e = last_key_of-append (y ∷ ys) e

pub entries_of-append :
    (bs cs : List (List BlockEntry)) → entries_of (bs ++ cs) ≡ entries_of bs ++ entries_of cs
entries_of-append [] cs = refl
entries_of-append (b ∷ bs) cs =
    ap (λ t. b ++ t) (entries_of-append bs cs)
    ∙ sym (append_assoc b (entries_of bs) (entries_of cs))

pub bytes_of-append :
    (bs cs : List (List BlockEntry)) → bytes_of (bs ++ cs) ≡ bytes_of bs ++ bytes_of cs
bytes_of-append [] cs = refl
bytes_of-append (b ∷ bs) cs =
    ap (λ t. block_bytes b ++ t) (bytes_of-append bs cs)
    ∙ sym (append_assoc (block_bytes b) (bytes_of bs) (bytes_of cs))

pub index_of-append :
    (offset : ℕ) (bs : List (List BlockEntry)) (b : List BlockEntry)
    → index_of offset (bs ++ (b ∷ []))
      ≡ index_of offset bs ++ (index_entry_of (offset + length (bytes_of bs)) b ∷ [])
index_of-append offset [] b = ap (λ (n : ℕ). index_entry_of n b ∷ []) (omega arith)
index_of-append offset (c ∷ bs) b =
    ap (λ t. index_entry_of offset c ∷ t)
      (index_of-append (offset + length (block_bytes c)) bs b
        ∙ ap (λ (n : ℕ). index_of (offset + length (block_bytes c)) bs ++ (index_entry_of n b ∷ []))
            (omega (arith, length-append (block_bytes c) (bytes_of bs))))

pub cost-append : (es fs : List BlockEntry) → cost (es ++ fs) ≡ cost es + cost fs
cost-append [] fs = omega arith
cost-append (e ∷ es) fs = omega (arith, cost-append es fs)

pub length-cost : (es : List BlockEntry) → length es ≤ cost es
length-cost [] = omega arith
length-cost (e ∷ es) = omega (arith, length-cost es)

encode_entries-cost : (es : List BlockEntry) → IsSome es → length (encode_entries es) + 4 ≤ cost es
encode_entries-cost [] s = absurd s
encode_entries-cost (e ∷ []) s = omega (arith, length-append (encode_entry_of e) [])
encode_entries-cost (e ∷ (f ∷ es)) s = omega (
  arith,
  length-append (encode_entry_of e) (encode_entries (f ∷ es)),
  encode_entries-cost (f ∷ es) tt,
)

pub block_bytes-cost : (b : List BlockEntry) → IsSome b → length (block_bytes b) ≤ cost b
block_bytes-cost b s =
    omega (
      arith,
      encode_entries-cost b s,
      length-trailer (encode_entries b) (crc32c (encode_entries b)),
    )

pub bytes_of-cost :
    (bs : List (List BlockEntry)) → All IsSome bs → length (bytes_of bs) ≤ cost (entries_of bs)
bytes_of-cost [] s = omega arith
bytes_of-cost (b ∷ bs) (s, ss) = omega (
  arith,
  length-append (block_bytes b) (bytes_of bs),
  block_bytes-cost b s,
  bytes_of-cost bs ss,
  cost-append b (entries_of bs),
)

pub length-blocks :
    (bs : List (List BlockEntry)) → All IsSome bs → length bs ≤ length (entries_of bs)
length-blocks [] s = omega arith
length-blocks ([] ∷ bs) (s, ss) = absurd s
length-blocks ((e ∷ b) ∷ bs) (s, ss) =
    omega (arith, length-append b (entries_of bs), length-blocks bs ss)

length-encode_entry :
    (k : InternalKey) (v : Bytes) → length (encode_entry k v) ≡ 8 + length (encode k) + length v
unfolding encode_entry
length-encode_entry k v = omega (
  arith,
  length-append (put_uint32 (length (encode k))) (encode k ++ (put_uint32 (length v) ++ v)),
  length-append (encode k) (put_uint32 (length v) ++ v),
  length-append (put_uint32 (length v)) v,
  length-put_uint32 (length (encode k)),
  length-put_uint32 (length v),
)

length-encode_index_entry :
    (e : IndexEntry) → length (encode_index_entry e) ≡ 16 + length (encode e.last_key)
unfolding encode_index_entry
length-encode_index_entry e = omega (
  arith,
  length-append (put_uint32 (length (encode e.last_key)))
      (encode e.last_key ++ (put_uint64 e.offset ++ put_uint32 e.size)),
  length-append (encode e.last_key) (put_uint64 e.offset ++ put_uint32 e.size),
  length-append (put_uint64 e.offset) (put_uint32 e.size),
  length-put_uint32 (length (encode e.last_key)),
  length-put_uint64 e.offset,
  length-put_uint32 e.size,
)

length-encode_last :
    (b : List BlockEntry) → IsSome b → length (encode (last_key_of b)) + 12 ≤ cost b
length-encode_last [] s = absurd s
length-encode_last (e ∷ []) s = omega (arith, length-encode_entry e.key e.value)
length-encode_last (e ∷ (f ∷ es)) s = omega (arith, length-encode_last (f ∷ es) tt)

pub length-index_of :
    (offset : ℕ) (bs : List (List BlockEntry))
    → All IsSome bs
    → length (encode_index_entries (index_of offset bs)) ≤ 2 * cost (entries_of bs)
unfolding encode_index_entries
length-index_of offset [] s = omega arith
length-index_of offset (b ∷ bs) (s, ss) = omega (
  arith,
  length-append (encode_index_entry (index_entry_of offset b))
      (encode_index_entries (index_of (offset + length (block_bytes b)) bs)),
  length-encode_index_entry (index_entry_of offset b),
  length-encode_last b s,
  length-index_of (offset + length (block_bytes b)) bs ss,
  cost-append b (entries_of bs),
)

pub length-build_index_block :
    (offset : ℕ) (bs : List (List BlockEntry))
    → All IsSome bs
    → length (build_index_block (index_of offset bs)) ≤ 2 * cost (entries_of bs) + 4
unfolding build_index_block
length-build_index_block offset bs s = omega (
  arith,
  length-index_of offset bs s,
  length-trailer (encode_index_entries (index_of offset bs))
      (crc32c (encode_index_entries (index_of offset bs))),
)
