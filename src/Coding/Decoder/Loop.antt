-- ===== src/Coding/Decoder/Loop.antt =====
-- The loop over what remains, on the bytes of a run of its body.
use beachdb.Prelude.{
  ℕ, zero, suc, ◌≤◌, ◌<◌, ◌≡◌, sym, ap, ◌∙◌, arith, [], ◌++◌, Bytes, append_assoc, append-nil,
  length, length-append, ok, lt→ltb, le→ltb-false, ltb, true, false, subst,
}
use beachdb.Coding.{ByteReader, advance, remaining}
use beachdb.Coding.Unread.{Unread, advance-Unread, remaining-Unread}
use beachdb.Coding.Decoder.{Decoder, ◌>>=◌, while_remaining}
use beachdb.Coding.Decoder.Consumes.{Consumes, advance-advance, advance-zero}

-- `body` takes the variables from `s` to `s'` over these bytes, a round at a time.
pub data Run {E S : Type 0} (body : S → Decoder E S) : S → Bytes → S → Type 0 where
  stop : {s : S} → Run body s [] s
  round :
      {s s' t : S} {bs cs : Bytes}
      → 0 < length bs
      → Consumes (body s) bs s'
      → Run body s' cs t
      → Run body s (bs ++ cs) t

module _ {E S : Type 0} (body : S → Decoder E S) (s : S) (r : ByteReader) where
  pub while_remaining_done :
      (fuel : ℕ) → ltb 0 (remaining r) ≡ false → while_remaining fuel body s r ≡ ok (s, r)
  unfolding while_remaining
  while_remaining_done zero e = rw (e, while_remaining)
  while_remaining_done (suc fuel) e = rw (e, while_remaining)

  pub while_remaining_more :
      (fuel : ℕ)
      → ltb 0 (remaining r) ≡ true
      → while_remaining (suc fuel) body s r ≡ (body s >>= λ s'. while_remaining fuel body s') r
  unfolding while_remaining
  while_remaining_more fuel e = rw (e, while_remaining)

-- The fuel is enough when it is at least the number of bytes.
pub while_remaining-Run :
    {E S : Type 0} (body : S → Decoder E S) {s t : S} {bs : Bytes} (fuel : ℕ) (r : ByteReader)
    → Run body s bs t
    → length bs ≤ fuel
    → Unread r bs
    → while_remaining fuel body s r ≡ ok (t, advance (length bs) r)
while_remaining-Run body {s = s} fuel r stop enough h =
    while_remaining_done body s r fuel
      (le→ltb-false 0 (remaining r) (omega (arith, remaining-Unread h)))
    ∙ ap (λ (q : ByteReader). ok (s, q)) (sym (advance-zero r))
while_remaining-Run body zero r (round {bs = bs} {cs = cs} some_byte c rest) enough h =
    absurd (omega (arith, length-append bs cs))
while_remaining-Run body {s = s} {t = t} (suc fuel) r
      (round {s' = s'} {bs = bs} {cs = cs} some_byte c rest) enough h =
    while_remaining_more body s r fuel
      (lt→ltb 0 (remaining r) (omega (arith, remaining-Unread h, length-append bs cs)))
    ∙ rw (c.at r cs h, ◌>>=◌)
        (while_remaining-Run body fuel (advance (length bs) r) rest
            (omega (arith, length-append bs cs)) (advance-Unread bs cs r h)
          ∙ ap (λ (q : ByteReader). ok (t, q))
              (advance-advance (length bs) (length cs) r
                ∙ ap (λ (n : ℕ). advance n r) (omega (arith, length-append bs cs))))

-- Two runs, one after the other.
pub Run-append :
    {E S : Type 0} {body : S → Decoder E S} {s t u : S} {bs cs : Bytes}
    → Run body s bs t
    → Run body t cs u
    → Run body s (bs ++ cs) u
Run-append stop b = b
Run-append {body = body} {s = s} {u = u} {cs = ds} (round {bs = bs} {cs = cs} h c r) b =
    subst (λ (x : Bytes). Run body s x u) (sym (append_assoc bs cs ds)) (round h c (Run-append r b))

pub Run-one :
    {E S : Type 0} {body : S → Decoder E S} {s t : S} {bs : Bytes}
    → 0 < length bs
    → Consumes (body s) bs t
    → Run body s bs t
Run-one {body = body} {s = s} {t = t} {bs = bs} h c =
    subst (λ (x : Bytes). Run body s x t) (append-nil bs) (round h c stop)
