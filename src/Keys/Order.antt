-- ===== src/Keys/Order.antt =====
-- `compare_keys` is a total order: user keys ascending, then the newest version first.
use beachdb.Prelude.{◌<◌, ◌≡◌, ◌≢◌, refl, sym, ap, ◌∙◌, ◌↔◌, arith, Ordering, [], ◌∷◌, Bytes}
use beachdb.Keys.{InternalKey, compare_bytes, compare_keys}

abbrev pub swap : Ordering → Ordering
swap Ordering.lt = Ordering.gt
swap Ordering.eq = Ordering.eq
swap Ordering.gt = Ordering.lt

pub compare_bytes_refl : (as' : Bytes) → compare_bytes as' as' ≡ Ordering.eq
unfolding compare_bytes
compare_bytes_refl [] = refl
compare_bytes_refl (a ∷ as') = ground (arith, compare_bytes_refl as')

pub eq_of_compare_bytes : (as' bs : Bytes) → compare_bytes as' bs ≡ Ordering.eq → as' ≡ bs
unfolding compare_bytes
eq_of_compare_bytes [] [] e = refl
eq_of_compare_bytes [] (b ∷ bs) e = cc
eq_of_compare_bytes (a ∷ as') [] e = cc
eq_of_compare_bytes (a ∷ as') (b ∷ bs) e = ground (arith, eq_of_compare_bytes as' bs)

pub compare_bytes-swap : (as' bs : Bytes) → compare_bytes bs as' ≡ swap (compare_bytes as' bs)
unfolding compare_bytes
compare_bytes-swap [] [] = refl
compare_bytes-swap [] (b ∷ bs) = refl
compare_bytes-swap (a ∷ as') [] = refl
compare_bytes-swap (a ∷ as') (b ∷ bs) = ground (arith, compare_bytes-swap as' bs)

pub compare_bytes_trans :
    (as' bs cs : Bytes)
    → compare_bytes as' bs ≡ Ordering.lt
    → compare_bytes bs cs ≡ Ordering.lt
    → compare_bytes as' cs ≡ Ordering.lt
unfolding compare_bytes
compare_bytes_trans [] (b ∷ bs) (c ∷ cs) p q = refl
compare_bytes_trans as' [] [] p q = cc
compare_bytes_trans as' (b ∷ bs) [] p q = cc
compare_bytes_trans [] [] (c ∷ cs) p q = cc
compare_bytes_trans (a ∷ as') [] (c ∷ cs) p q = cc
compare_bytes_trans (a ∷ as') (b ∷ bs) (c ∷ cs) p q =
    ground
      (arith, compare_bytes_trans as' bs cs, eq_of_compare_bytes as' bs, eq_of_compare_bytes bs cs)

-- Comparing two keys the other way round gives the opposite result.
pub compare_keys-swap : (a b : InternalKey) → compare_keys b a ≡ swap (compare_keys a b)
unfolding compare_keys
compare_keys-swap a b = ground (arith, compare_bytes-swap a.user_key b.user_key)

-- Two keys compare equal exactly when they have the same user key and the same sequence number.
pub compare_keys-eq_iff :
    (a b : InternalKey)
    → (compare_keys a b ≡ Ordering.eq) ↔ ((a.user_key ≡ b.user_key) × (a.seqno ≡ b.seqno))
unfolding compare_keys
compare_keys-eq_iff a b = (
  λ e. ground (arith, eq_of_compare_bytes a.user_key b.user_key),
  λ (p, q). rw (p, q) (ground (arith, compare_bytes_refl b.user_key)),
)

-- If one key sorts before a second and that before a third, the first sorts before the third.
pub compare_keys_trans :
    (a b c : InternalKey)
    → compare_keys a b ≡ Ordering.lt
    → compare_keys b c ≡ Ordering.lt
    → compare_keys a c ≡ Ordering.lt
unfolding compare_keys
compare_keys_trans a b c p q = ground (
  arith,
  compare_bytes_trans a.user_key b.user_key c.user_key,
  eq_of_compare_bytes a.user_key b.user_key,
  eq_of_compare_bytes b.user_key c.user_key,
  compare_bytes_refl c.user_key,
)

-- Of two versions of one user key, one sorts before the other exactly when its sequence number is
-- larger.
pub compare_keys_newest :
    (a b : InternalKey)
    → a.user_key ≡ b.user_key
    → (compare_keys a b ≡ Ordering.lt) ↔ (b.seqno < a.seqno)
unfolding compare_keys
compare_keys_newest a b e =
    let same : compare_bytes a.user_key b.user_key ≡ Ordering.eq =
      ap (compare_bytes a.user_key) (sym e) ∙ compare_bytes_refl a.user_key in
    (λ p. ground (arith, same), λ p. ground (arith, same))

-- Internal keys are in a total order: comparing the other way round gives the opposite result; two
-- keys compare equal exactly when they have the same user key and sequence number; one key that
-- sorts before a second that sorts before a third sorts before the third; and of two versions of
-- one user key the one with the larger sequence number sorts first, and only that.
pub compare_keys_order :
    (a b c : InternalKey)
    → (compare_keys b a ≡ swap (compare_keys a b))
      × ((compare_keys a b ≡ Ordering.eq) ↔ ((a.user_key ≡ b.user_key) × (a.seqno ≡ b.seqno)))
      × (compare_keys a b ≡ Ordering.lt
          → compare_keys b c ≡ Ordering.lt
          → compare_keys a c ≡ Ordering.lt)
      × (a.user_key ≡ b.user_key → (compare_keys a b ≡ Ordering.lt) ↔ (b.seqno < a.seqno))
compare_keys_order a b c = (
  compare_keys-swap a b,
  compare_keys-eq_iff a b,
  compare_keys_trans a b c,
  compare_keys_newest a b,
)

-- `a` sorts before `b`, or level with it.
abbrev pub KeyLe : InternalKey → InternalKey → Type 0
KeyLe a b = compare_keys a b ≢ Ordering.gt

pub KeyLe-trans : (a b c : InternalKey) → KeyLe a b → KeyLe b c → KeyLe a c
unfolding compare_keys
KeyLe-trans a b c p q e = ground (
  arith,
  p,
  q,
  compare_bytes_trans a.user_key b.user_key c.user_key,
  eq_of_compare_bytes a.user_key b.user_key,
  eq_of_compare_bytes b.user_key c.user_key,
  compare_bytes_refl c.user_key,
)

pub KeyLe-total : (a b : InternalKey) → compare_keys a b ≡ Ordering.gt → KeyLe b a
KeyLe-total a b e p = cc (e, p, compare_keys-swap a b)
