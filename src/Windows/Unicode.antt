-- ===== src/Windows/Unicode.antt =====
-- UTF-8 and UTF-16 of main_windows.c. A code point is a natural number: no caller has a negative
-- one. A mask of low bits is a remainder, a shift to the right a quotient, and bits that are joined
-- with others below them are added.
pub mod Laws
pub mod Texts
pub mod Formed
use u_config.Base.{
  ℕ, zero, suc, ◌+◌, ◌-◌, ◌*◌, ◌/◌, ◌%◌, Bool, true, false, not, ◌&&◌, ◌||◌, [], ◌∷◌, ◌++◌, Bytes,
  List, ltb, leb, ◌==◌, if◌then◌else◌, length, drop,
}

abbrev pub replacement_character : ℕ
replacement_character = 0xfffd

pub record Utf8 : Type 0 where
  pub tail : Bytes
  pub rune : ℕ

-- `(b & 0xc0) == 0x80`
unfoldable pub is_continuation : ℕ → Bool
is_continuation b = b / 64 == 2

-- The end of the switch: one byte is skipped.
unfoldable pub reject8 : Bytes → Utf8
reject8 s = record { tail = drop 1 s; rune = replacement_character }

unfoldable pub decode_two : Bytes → Utf8
unfolding is_continuation reject8
decode_two (a ∷ b ∷ s) =
    let rune = a % 32 * 64 + b % 64 in
    if is_continuation b && leb 0x80 rune
    then record { tail = s; rune = rune }
    else reject8 (a ∷ b ∷ s)
decode_two s = reject8 s

unfoldable pub decode_three : Bytes → Utf8
unfolding is_continuation reject8
decode_three (a ∷ b ∷ c ∷ s) =
    let rune = a % 16 * 4096 + b % 64 * 64 + c % 64 in
    if is_continuation b
      && is_continuation c
      && leb 0x800 rune
      && not (leb 0xd800 rune && leb rune 0xdfff)
    then record { tail = s; rune = rune }
    else reject8 (a ∷ b ∷ c ∷ s)
decode_three s = reject8 s

unfoldable pub decode_four : Bytes → Utf8
unfolding is_continuation reject8
decode_four (a ∷ b ∷ c ∷ d ∷ s) =
    let rune = a % 16 * 262144 + b % 64 * 4096 + c % 64 * 64 + d % 64 in
    if is_continuation b
      && is_continuation c
      && is_continuation d
      && leb 0x10000 rune
      && leb rune 0x10ffff
    then record { tail = s; rune = rune }
    else reject8 (a ∷ b ∷ c ∷ d ∷ s)
decode_four s = reject8 s

-- `switch (s.s[0]&0xf0)`; the string is not empty.
unfoldable pub utf8decode : Bytes → Utf8
unfolding decode_two decode_three decode_four reject8
utf8decode [] = record { tail = []; rune = 0 }
utf8decode (a ∷ s) =
    let kind = a % 256 / 16 in
    if kind == 12 || kind == 13
    then decode_two (a ∷ s)
    else if kind == 14
    then decode_three (a ∷ s)
    else if kind == 15
    then decode_four (a ∷ s)
    else if leb a 0x7f
    then record { tail = s; rune = a }
    else reject8 (a ∷ s)

-- `if (rune<0 || (rune>=0xd800 && rune<=0xdfff) || rune>0x10ffff)`
unfoldable pub replaced : ℕ → ℕ
replaced rune =
    if (leb 0xd800 rune && leb rune 0xdfff) || ltb 0x10ffff rune
    then replacement_character
    else rune

unfoldable pub encode8 : ℕ → Bytes
encode8 rune =
    if ltb rune 0x80
    then rune ∷ []
    else if ltb rune 0x800
    then (0xc0 + rune / 64) ∷ (0x80 + rune % 64) ∷ []
    else if ltb rune 0x10000
    then (0xe0 + rune / 4096) ∷ (0x80 + rune / 64 % 64) ∷ (0x80 + rune % 64) ∷ []
    else (0xf0 + rune / 262144)
      ∷ (0x80 + rune / 4096 % 64)
      ∷ (0x80 + rune / 64 % 64)
      ∷ (0x80 + rune % 64)
      ∷ []

unfoldable pub utf8encode : ℕ → Bytes
unfolding replaced encode8
utf8encode rune = encode8 (replaced rune)

-- The strings of `c16`.
abbrev pub Units : Type 0
Units = List ℕ

pub record Utf16 : Type 0 where
  pub tail : Units
  pub rune : ℕ

unfoldable pub reject16 : Units → Utf16
reject16 s = record { tail = s; rune = replacement_character }

abbrev pub is_low : ℕ → Bool
is_low u = leb 0xdc00 u && leb u 0xdfff

abbrev pub is_high : ℕ → Bool
is_high u = leb 0xd800 u && leb u 0xdbff

-- The string is not empty.
unfoldable pub utf16decode : Units → Utf16
unfolding reject16
utf16decode [] = record { tail = []; rune = 0 }
utf16decode (hi ∷ []) =
    if is_low hi || is_high hi then reject16 [] else record { tail = []; rune = hi }
utf16decode (hi ∷ lo ∷ s) =
    if is_low hi
    then reject16 (lo ∷ s)
    else if is_high hi
    then (if is_low lo
        then record { tail = s; rune = 0x10000 + (hi - 0xd800) * 1024 + (lo - 0xdc00) }
        else reject16 (lo ∷ s))
    else record { tail = lo ∷ s; rune = hi }

unfoldable pub encode16 : ℕ → Units
encode16 rune =
    if leb 0x10000 rune
    then ((rune - 0x10000) / 1024 + 0xd800) ∷ ((rune - 0x10000) % 1024 + 0xdc00) ∷ []
    else rune ∷ []

unfoldable pub utf16encode : ℕ → Units
unfolding replaced encode16
utf16encode rune = encode16 (replaced rune)

-- The two passes of `towide_`: the length that is allocated, and the units that are written. A round
-- takes a byte at least, so the length of the string is enough rounds.
unfoldable pub wide_length : ℕ → Bytes → ℕ
unfolding utf8decode utf16encode
wide_length f [] = 0
wide_length zero (c ∷ s) = 0
wide_length (suc f) (c ∷ s) =
    let state = utf8decode (c ∷ s) in length (utf16encode state.rune) + wide_length f state.tail

unfoldable pub wide_loop : ℕ → Units → Bytes → Units
unfolding utf8decode utf16encode
wide_loop f w [] = w
wide_loop zero w (c ∷ s) = w
wide_loop (suc f) w (c ∷ s) =
    let state = utf8decode (c ∷ s) in wide_loop f (w ++ utf16encode state.rune) state.tail

unfoldable pub towide : Bytes → Units
unfolding wide_loop
towide s = wide_loop (length s) [] s

-- The two passes of `fromwide_`.
unfoldable pub narrow_length : ℕ → Units → ℕ
unfolding utf16decode utf8encode
narrow_length f [] = 0
narrow_length zero (u ∷ w) = 0
narrow_length (suc f) (u ∷ w) =
    let state = utf16decode (u ∷ w) in length (utf8encode state.rune) + narrow_length f state.tail

unfoldable pub narrow_loop : ℕ → Bytes → Units → Bytes
unfolding utf16decode utf8encode
narrow_loop f s [] = s
narrow_loop zero s (u ∷ w) = s
narrow_loop (suc f) s (u ∷ w) =
    let state = utf16decode (u ∷ w) in narrow_loop f (s ++ utf8encode state.rune) state.tail

unfoldable pub fromwide : Units → Bytes
unfolding narrow_loop
fromwide w = narrow_loop (length w) [] w
