-- ===== src/Encode.antt =====
-- `pathencode`, `pathdecode` and `s8pathencode` of src/u-config.c.
use u_config.Base.{
  ℕ, ◌<◌, Bool, false, not, ◌||◌, [], ◌∷◌, Bytes, ◌==◌, if◌then◌else◌, ◌≡◌, refl, arith, map,
}
use u_config.S8.{whitespace}

unfoldable pub pathencode : ℕ → ℕ
pathencode c =
    if c == b'\t'
    then 0xf8
    else if c == b'\n'
    then 0xf9
    else if c == b'\r'
    then 0xfa
    else if c == b' '
    then 0xfb
    else if c == b'$'
    then 0xfc
    else if c == b'('
    then 0xfd
    else if c == b')'
    then 0xfe
    else c

unfoldable pub pathdecode : ℕ → ℕ
pathdecode c =
    if c == 0xf8
    then b'\t'
    else if c == 0xf9
    then b'\n'
    else if c == 0xfa
    then b'\r'
    else if c == 0xfb
    then b' '
    else if c == 0xfc
    then b'$'
    else if c == 0xfd
    then b'('
    else if c == 0xfe
    then b')'
    else c

-- The first loop: does any byte change under `pathencode`?
unfoldable pub needs_encoding : Bytes → Bool
unfolding pathencode
needs_encoding [] = false
needs_encoding (c ∷ s) = not (pathencode c == c) || needs_encoding s

unfoldable pub encode_all : Bytes → Bytes
unfolding pathencode
encode_all [] = []
encode_all (c ∷ s) = pathencode c ∷ encode_all s

unfoldable pub s8pathencode : Bytes → Bytes
unfolding needs_encoding encode_all
s8pathencode s = if not (needs_encoding s) then s else encode_all s

-- The bytes that no illegal UTF-8 byte of the encoding clashes with.
abbrev pub IsPlain : Bytes → Type 0
IsPlain [] = Unit {0}
IsPlain (c ∷ s) = (c < 0xf8) × IsPlain s

-- No byte of the text separates tokens, starts a variable or is a parenthesis.
unfoldable pub is_special : ℕ → Bool
unfolding whitespace
is_special c = whitespace c || c == b'$' || c == b'(' || c == b')'

abbrev pub HasNoSpecial : Bytes → Type 0
HasNoSpecial [] = Unit {0}
HasNoSpecial (c ∷ s) = (is_special c ≡ false) × HasNoSpecial s

encode_all-same : (s : Bytes) → needs_encoding s ≡ false → encode_all s ≡ s
unfolding needs_encoding encode_all
encode_all-same [] h = refl
encode_all-same (c ∷ s) h = ground (arith, encode_all-same s)

-- Copying only where a byte changes makes no difference.
pub s8pathencode-encode_all : (s : Bytes) → s8pathencode s ≡ encode_all s
unfolding s8pathencode
s8pathencode-encode_all s = ground (arith, encode_all-same s)

pub pathdecode-pathencode : (c : ℕ) → c < 0xf8 → pathdecode (pathencode c) ≡ c
unfolding pathdecode pathencode
pathdecode-pathencode c h = ground arith

map-pathdecode-encode_all : (s : Bytes) → IsPlain s → map pathdecode (encode_all s) ≡ s
unfolding encode_all
map-pathdecode-encode_all [] h = refl
map-pathdecode-encode_all (c ∷ s) h =
    cc (pathdecode-pathencode c h.0, map-pathdecode-encode_all s h.1)

-- The encoding is undone byte by byte, where the path holds none of the bytes 0xf8 to 0xff.
pub pathdecode-s8pathencode : (s : Bytes) → IsPlain s → map pathdecode (s8pathencode s) ≡ s
pathdecode-s8pathencode s h = rw (s8pathencode-encode_all s) (map-pathdecode-encode_all s h)

pathencode-is_special : (c : ℕ) → is_special (pathencode c) ≡ false
unfolding is_special pathencode
pathencode-is_special c = ground arith

encode_all-HasNoSpecial : (s : Bytes) → HasNoSpecial (encode_all s)
unfolding encode_all
encode_all-HasNoSpecial [] = tt
encode_all-HasNoSpecial (c ∷ s) = (pathencode-is_special c, encode_all-HasNoSpecial s)

-- An encoded path holds no white space, no `$` and no parenthesis.
pub s8pathencode-HasNoSpecial : (s : Bytes) → HasNoSpecial (s8pathencode s)
s8pathencode-HasNoSpecial s = rw (s8pathencode-encode_all s) (encode_all-HasNoSpecial s)
