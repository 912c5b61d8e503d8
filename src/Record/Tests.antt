-- ===== src/Record/Tests.antt =====
-- Concrete headers, and the theorems at concrete inputs.
use beachdb.Prelude.{◌≡◌, refl, arith, [], ◌∷◌, err}
use beachdb.Record.{Format, IsFormat, new_format, bad_magic_size}

-- BEACHWAL, with a limit of ten bytes.
abbrev small_format : Format
small_format = record {
  magic = 0x42 ∷ 0x45 ∷ 0x41 ∷ 0x43 ∷ 0x48 ∷ 0x57 ∷ 0x41 ∷ 0x4c ∷ [];
  max_payload_size = 10;
}

bad_magic_is_refused : new_format (1 ∷ 2 ∷ []) 0 ≡ err bad_magic_size
unfolding new_format
bad_magic_is_refused = refl

small_format-IsFormat : IsFormat small_format
small_format-IsFormat = record { magic = refl; max_payload_size = omega arith }
