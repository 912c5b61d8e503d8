-- ===== src/Coding/Decoder/Consumes.antt =====
-- Decoders that read exactly what an encoder wrote.
use beachdb.Prelude.{
  ℕ, ◌+◌, ◌≡◌, ap, ◌∙◌, arith, [], ◌∷◌, ◌++◌, Bytes, append_assoc, append-nil, subst,
}
use beachdb.Prelude.{length, length-append, Bool, false, Result, ok}
use beachdb.Coding.{
  IsU32, IsU64, put_uint32, put_uint64, ByteReader, ReadError, advance, read_byte, read_uint32,
  read_uint64, read_bytes,
}
use beachdb.Coding.Words.{length-put_uint32, length-put_uint64}
use beachdb.Coding.Unread.{
  Unread, advance-Unread, read_byte-Unread, read_uint32-Unread, read_uint64-Unread,
  read_bytes-Unread,
}
use beachdb.Coding.Decoder.{Decoder, pure, lift, fail_if, reading, ◌>>=◌, ◌>>◌}

-- Before `bs`, whatever follows, the decoder returns `a` and moves behind `bs`.
pub record Consumes {E A : Type 0} (m : Decoder E A) (bs : Bytes) (a : A) : Type 0 where
  pub at :
      (r : ByteReader) (rest : Bytes) → Unread r (bs ++ rest) → m r ≡ ok (a, advance (length bs) r)

pub advance-advance : (m n : ℕ) (r : ByteReader) → advance n (advance m r) ≡ advance (m + n) r
advance-advance m n r = ground arith

pub advance-zero : (r : ByteReader) → advance 0 r ≡ r
advance-zero r = ground arith

module _ {E A : Type 0} where
  pub Consumes-pure : (a : A) → Consumes {E = E} (pure a) [] a
  Consumes-pure a = record { at = λ r rest h. ap (λ (t : ByteReader). ok (a, t)) (ground arith) }

  pub Consumes-lift : {m : Result E A} {a : A} → m ≡ ok a → Consumes (lift m) [] a
  Consumes-lift {a = a} e = record {
    at = λ r rest h. rw e (ap (λ (t : ByteReader). ok (a, t)) (ground arith));
  }

  pub Consumes-reading :
      {m : Decoder ReadError A} {bs : Bytes} {a : A} (e : E)
      → Consumes m bs a
      → Consumes (reading m e) bs a
  Consumes-reading e c = record { at = λ r rest h. rw (c.at r rest h) }

module _ {E A B : Type 0} where
  pub Consumes-bind :
      (m : Decoder E A) (f : A → Decoder E B) {bs cs : Bytes} {a : A} {b : B}
      → Consumes m bs a
      → Consumes (f a) cs b
      → Consumes (m >>= f) (bs ++ cs) b
  Consumes-bind m f {bs = bs} {cs = cs} {a = a} {b = b} c d = record {
    at = λ r rest h.
        let h' : Unread r (bs ++ (cs ++ rest)) = rw (append_assoc bs cs rest) at h in
        rw (c.at r (cs ++ rest) h', ◌>>=◌)
          (d.at (advance (length bs) r) rest (advance-Unread bs (cs ++ rest) r h')
            ∙ ap (λ (t : ByteReader). ok (b, t))
                (advance-advance (length bs) (length cs) r
                  ∙ ap (λ (n : ℕ). advance n r) (omega (arith, length-append bs cs))));
  }

-- A guard that passes.
pub Consumes-check :
    {E B : Type 0} {k : Decoder E B} {bs : Bytes} {b : B} {test : Bool} (e : E)
    → test ≡ false
    → Consumes k bs b
    → Consumes (fail_if test e >> k) bs b
Consumes-check {k = k} e passes c = record { at = λ r rest h. rw (passes, ◌>>=◌) (c.at r rest h) }

pub Consumes-read_byte : (b : ℕ) → Consumes read_byte (b ∷ []) b
Consumes-read_byte b = record { at = λ r rest h. read_byte-Unread b rest r h }

pub Consumes-read_uint32 : (v : ℕ) → IsU32 v → Consumes read_uint32 (put_uint32 v) v
Consumes-read_uint32 v small = record {
  at = λ r rest h. rw (length-put_uint32 v) (read_uint32-Unread v rest r small h);
}

pub Consumes-read_uint64 : (v : ℕ) → IsU64 v → Consumes read_uint64 (put_uint64 v) v
Consumes-read_uint64 v small = record {
  at = λ r rest h. rw (length-put_uint64 v) (read_uint64-Unread v rest r small h);
}

pub Consumes-read_bytes : (bs : Bytes) → Consumes (read_bytes (length bs)) bs bs
Consumes-read_bytes bs = record { at = λ r rest h. read_bytes-Unread bs rest r h }

-- A last read whose value is put into a result.
pub Consumes-map :
    {E A B : Type 0} {m : Decoder E A} (f : A → Decoder E B) (g : A → B) {bs : Bytes} {a : A}
    → Consumes m bs a
    → f ≡ (λ x. pure (g x))
    → Consumes (m >>= f) bs (g a)
Consumes-map {m = m} f g {bs = bs} {a = a} c e =
    subst (λ (t : Bytes). Consumes (m >>= f) t (g a)) (append-nil bs)
      (rw e (Consumes-bind m (λ x. pure (g x)) c (Consumes-pure (g a))))
