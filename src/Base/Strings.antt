-- ===== src/Base/Strings.antt =====
-- Go strings and byte slices as lists of bytes, with the two library calls that the source makes on
-- them: comparison, and strings.TrimSpace over UTF-8.
use Prim.Native.Nat.{ℕ}
use mathlib.Core.Path.{◌≡◌, refl}
use mathlib.Core.Logic.{◌↔◌}
use mathlib.Core.Bool.{Bool, true, false, ◌&&◌, ◌||◌, not}
use mathlib.Core.List.{List, [], ◌∷◌, reverse}
use native.Mathlib.Omega.{arith}
use spice_agent.Base.Tests.{ltb, leb, ◌==◌, if◌then◌else◌}

abbrev pub Bytes : Type 0
Bytes = List ℕ

-- Equality of strings.
unfoldable pub bytes_eq : Bytes → Bytes → Bool
bytes_eq [] [] = true
bytes_eq [] (b ∷ bs) = false
bytes_eq (a ∷ as') [] = false
bytes_eq (a ∷ as') (b ∷ bs) = a == b && bytes_eq as' bs

pub bytes_eq_iff : (a b : Bytes) → (bytes_eq a b ≡ true) ↔ (a ≡ b)
unfolding bytes_eq
bytes_eq_iff [] [] = ground arith
bytes_eq_iff [] (b ∷ bs) = ground arith
bytes_eq_iff (a ∷ as') [] = ground arith
bytes_eq_iff (a ∷ as') (b ∷ bs) = ground (arith, bytes_eq_iff as' bs)

pub bytes_eq_refl : (a : Bytes) → bytes_eq a a ≡ true
bytes_eq_refl a = (bytes_eq_iff a a).1 refl

-- The order of strings.
unfoldable pub bytes_ltb : Bytes → Bytes → Bool
bytes_ltb [] [] = false
bytes_ltb [] (b ∷ bs) = true
bytes_ltb (a ∷ as') [] = false
bytes_ltb (a ∷ as') (b ∷ bs) =
    let later = bytes_ltb as' bs in if ltb a b then true else if a == b then later else false

-- unicode.IsSpace by the length of the rune's encoding: U+0009 to U+000D and U+0020 in one byte,
-- U+0085 and U+00A0 in two, U+1680, U+2000 to U+200A, U+2028, U+2029, U+202F, U+205F and U+3000 in
-- three.
unfoldable pub space1 : ℕ → Bool
space1 a = (leb 9 a && leb a 13) || a == 32

unfoldable pub space2 : ℕ → ℕ → Bool
space2 a b = a == 0xc2 && (b == 0x85 || b == 0xa0)

unfoldable pub space3 : ℕ → ℕ → ℕ → Bool
space3 a b c =
    (a == 0xe1 && b == 0x9a && c == 0x80)
    || (a == 0xe2
        && b == 0x80
        && ((leb 0x80 c && leb c 0x8a) || c == 0xa8 || c == 0xa9 || c == 0xaf))
    || (a == 0xe2 && b == 0x81 && c == 0x9f)
    || (a == 0xe3 && b == 0x80 && c == 0x80)

-- Drops leading whitespace; `s2` and `s3` take the bytes in the order in which they are met.
trim_with : (ℕ → ℕ → Bool) → (ℕ → ℕ → ℕ → Bool) → Bytes → Bytes
unfolding space1
trim_with s2 s3 [] = []
trim_with s2 s3 (a ∷ []) = if space1 a then [] else a ∷ []
trim_with s2 s3 (a ∷ b ∷ []) =
    let one = trim_with s2 s3 (b ∷ []) in
    if space1 a then one else if s2 a b then [] else a ∷ b ∷ []
trim_with s2 s3 (a ∷ b ∷ c ∷ r) =
    let one = trim_with s2 s3 (b ∷ c ∷ r) in
    let two = trim_with s2 s3 (c ∷ r) in
    let three = trim_with s2 s3 r in
    if space1 a then one else if s2 a b then two else if s3 a b c then three else a ∷ b ∷ c ∷ r

-- strings.TrimSpace: from the front, then from the back.
unfoldable pub trim_space : Bytes → Bytes
unfolding trim_with space2 space3
trim_space s =
    reverse
      (trim_with (λ a b. space2 b a) (λ a b c. space3 c b a) (reverse (trim_with space2 space3 s)))

-- The test `s == "" || s != strings.TrimSpace(s)`, which many validators make.
unfoldable pub blank_or_padded : Bytes → Bool
unfolding bytes_eq trim_space
blank_or_padded s = bytes_eq s [] || not (bytes_eq s (trim_space s))
