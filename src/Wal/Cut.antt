-- ===== src/Wal/Cut.antt =====
-- The whole records at the front of a log that a crash cut off anywhere.
use beachdb.Prelude.{
  ℕ, zero, suc, ◌+◌, ◌≤◌, ◌<◌, ◌≡◌, refl, sym, ap, ◌∙◌, arith, List, [], ◌∷◌, ◌++◌, Bytes,
  append_assoc, length, take, All, length-append, ◌⊎◌, inl, inr, leb, Bool-cases, leb→le,
  leb-false→lt,
}
use beachdb.Record.{Format}
use beachdb.Stream.Torn.{record_of}

-- The log of some payloads.
abbrev pub stream_of : Format → List Bytes → Bytes
stream_of f [] = []
stream_of f (p ∷ ps) = record_of f p ++ stream_of f ps

abbrev pub Fits : Format → Bytes → Type 0
Fits f p = length p ≤ f.max_payload_size

-- What is behind the last whole record: nothing, or a strict part of a record.
pub record IsTorn (f : Format) (torn : Bytes) : Type 0 where
  pub payload : Bytes
  pub back : Bytes
  pub fits : Fits f payload
  pub record_eq : record_of f payload ≡ torn ++ back
  pub some_torn : 0 < length torn
  pub some_back : 0 < length back

-- `front` has `count` whole records and then the `torn` part; no more records would fit into it.
pub record Cut (f : Format) (ps : List Bytes) (front : Bytes) : Type 0 where
  pub count : ℕ
  pub torn : Bytes
  pub front_eq : front ≡ stream_of f (take count ps) ++ torn
  pub torn_part : (torn ≡ []) ⊎ IsTorn f torn
  pub most : (n : ℕ) → n ≤ length ps → length (stream_of f (take n ps)) ≤ length front → n ≤ count

tail : Bytes → Bytes
tail [] = []
tail (z ∷ zs) = zs

head_eq : (x y : ℕ) (xs ys : Bytes) → x ∷ xs ≡ y ∷ ys → x ≡ y
head_eq x y xs ys e = cc

-- Of two splits of the same bytes, the longer first part starts with the shorter one.
pub split_longer :
    (us ys vs bs : Bytes)
    → us ++ ys ≡ vs ++ bs
    → length vs ≤ length us
    → (more : Bytes) × ((us ≡ vs ++ more) × (bs ≡ more ++ ys))
split_longer us ys [] bs e h = (us, (refl, sym e))
split_longer [] ys (v ∷ vs) bs e h = absurd (omega arith)
split_longer (u ∷ us) ys (v ∷ vs) bs e h =
    let (more, (p, q)) = split_longer us ys vs bs (unfold tail in ap tail e) (omega arith) in
    (more, (rw (p, head_eq u v (us ++ ys) (vs ++ bs) e) refl, q))

module _ (f : Format) where
  IsTorn-front :
      (p front back rest : Bytes)
      → Fits f p
      → front ++ back ≡ record_of f p ++ rest
      → length front < length (record_of f p)
      → (front ≡ []) ⊎ IsTorn f front
  IsTorn-front p [] back rest fits e short = inl refl
  IsTorn-front p (x ∷ xs) back rest fits e short =
      let (more, (whole, _)) =
        split_longer (record_of f p) rest (x ∷ xs) back (sym e) (omega (arith, short)) in
      let total : length (record_of f p) ≡ suc (length xs) + length more =
        ap (length {A = ℕ}) whole ∙ length-append (x ∷ xs) more in
      inr (record {
        payload = p;
        back = more;
        fits = fits;
        record_eq = whole;
        some_torn = omega arith;
        some_back = omega (arith, short, total);
      })

  nothing_left : (front back : Bytes) → front ++ back ≡ [] → front ≡ []
  nothing_left [] back e = refl
  nothing_left (x ∷ xs) back e = cc

  -- Wherever a log of payloads within the limit is cut, the front part has some whole records and
  -- at most a strict part of one more.
  pub cut :
      (ps : List Bytes) (front back : Bytes)
      → All (Fits f) ps
      → front ++ back ≡ stream_of f ps
      → Cut f ps front
  cut [] front back fits e = record {
    count = 0;
    torn = front;
    front_eq = refl;
    torn_part = inl (nothing_left front back e);
    most = λ n h _. h;
  }
  cut (p ∷ ps) front back (fit, fits) e =
      elim (Bool-cases (leb (length (record_of f p)) (length front))) [
        | inl whole ↦
            let (more, (front_eq, rest_eq)) =
              split_longer front back (record_of f p) (stream_of f ps) e (leb→le _ _ whole) in
            let c = cut ps more back fits (sym rest_eq) in
            let total : length front ≡ length (record_of f p) + length more =
              ap (length {A = ℕ}) front_eq ∙ length-append (record_of f p) more in
            record {
              count = suc c.count;
              torn = c.torn;
              front_eq =
                  front_eq
                  ∙ ap (λ (t : Bytes). record_of f p ++ t) c.front_eq
                  ∙ sym (append_assoc (record_of f p) (stream_of f (take c.count ps)) c.torn);
              torn_part = c.torn_part;
              most = λ n h room. more_records p ps front more c n h room total;
            }
        | inr short ↦
            let lt = leb-false→lt (length (record_of f p)) (length front) short in
            record {
              count = 0;
              torn = front;
              front_eq = refl;
              torn_part = IsTorn-front p front back (stream_of f ps) fit e lt;
              most = λ n h room. no_records p ps front n room lt;
            }
      ]
    where
      more_records :
          (p : Bytes) (ps : List Bytes) (front more : Bytes) (c : Cut f ps more) (n : ℕ)
          → n ≤ suc (length ps)
          → length (stream_of f (take n (p ∷ ps))) ≤ length front
          → length front ≡ length (record_of f p) + length more
          → n ≤ suc c.count
      more_records p ps front more c zero h room total = omega arith
      more_records p ps front more c (suc n) h room total =
          let sum = length-append (record_of f p) (stream_of f (take n ps)) in
          let le = c.most n (omega arith) (omega (arith, sum, room, total)) in omega (arith, le)

      no_records :
          (p : Bytes) (ps : List Bytes) (front : Bytes) (n : ℕ)
          → length (stream_of f (take n (p ∷ ps))) ≤ length front
          → length front < length (record_of f p)
          → n ≤ 0
      no_records p ps front zero room lt = omega arith
      no_records p ps front (suc n) room lt =
          let sum = length-append (record_of f p) (stream_of f (take n ps)) in
          absurd (omega (arith, sum, room, lt))
