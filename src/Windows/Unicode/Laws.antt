-- ===== src/Windows/Unicode/Laws.antt =====
-- One code point through each code and back.
use u_config.Base.{
  ℕ, ◌+◌, ◌-◌, ◌/◌, ◌%◌, ◌≤◌, ◌<◌, Bool, true, ◌&&◌, ◌||◌, [], ◌∷◌, ◌++◌, Bytes, ltb, leb, ◌≡◌,
  arith, Bool-cases, inl, inr,
}
use u_config.Windows.Unicode.{
  is_continuation, decode_two, decode_three, decode_four, utf8decode, replaced, encode8, utf8encode,
  Units, utf16decode, encode16, utf16encode,
}

-- A Unicode scalar value: no surrogate, and no more than 0x10ffff.
abbrev pub is_scalar : ℕ → Bool
is_scalar rune = (ltb rune 0xd800 || ltb 0xdfff rune) && leb rune 0x10ffff

pub replaced_scalar : (rune : ℕ) → is_scalar rune ≡ true → replaced rune ≡ rune
unfolding replaced
replaced_scalar rune h = ground arith

decode_two-encode :
    (rune : ℕ) (s : Bytes)
    → 0x80 ≤ rune
    → rune < 0x800
    → utf8decode ((0xc0 + rune / 64) ∷ (0x80 + rune % 64) ∷ s) ≡ record { tail = s; rune = rune }
unfolding utf8decode decode_two is_continuation
decode_two-encode rune s l h = ground arith

decode_three-encode :
    (rune : ℕ) (s : Bytes)
    → 0x800 ≤ rune
    → rune < 0x10000
    → is_scalar rune ≡ true
    → utf8decode ((0xe0 + rune / 4096) ∷ (0x80 + rune / 64 % 64) ∷ (0x80 + rune % 64) ∷ s)
      ≡ record { tail = s; rune = rune }
unfolding utf8decode decode_three is_continuation
decode_three-encode rune s l h g = ground arith

decode_four-encode :
    (rune : ℕ) (s : Bytes)
    → 0x10000 ≤ rune
    → is_scalar rune ≡ true
    → utf8decode (
        (0xf0 + rune / 262144)
        ∷ (0x80 + rune / 4096 % 64)
        ∷ (0x80 + rune / 64 % 64)
        ∷ (0x80 + rune % 64)
        ∷ s)
      ≡ record { tail = s; rune = rune }
unfolding utf8decode decode_four is_continuation
decode_four-encode rune s l g = ground arith

decode_one-encode :
    (rune : ℕ) (s : Bytes) → rune < 0x80 → utf8decode (rune ∷ s) ≡ record { tail = s; rune = rune }
unfolding utf8decode
decode_one-encode rune s l = ground arith

utf8decode-encode8 :
    (rune : ℕ) (s : Bytes)
    → is_scalar rune ≡ true
    → utf8decode (encode8 rune ++ s) ≡ record { tail = s; rune = rune }
unfolding encode8
utf8decode-encode8 rune s g = elim (Bool-cases (ltb rune 0x80)) [
  | inl e ↦ rw e (decode_one-encode rune s (ground arith))
  | inr n ↦ rw n (elim (Bool-cases (ltb rune 0x800)) [
    | inl e ↦ rw e (decode_two-encode rune s (ground arith) (ground arith))
    | inr n' ↦ rw n' (elim (Bool-cases (ltb rune 0x10000)) [
      | inl e ↦ rw e (decode_three-encode rune s (ground arith) (ground arith) g)
      | inr n'' ↦ rw n'' (decode_four-encode rune s (ground arith) g)
    ])
  ])
]

utf16decode_one :
    (rune : ℕ) (s : Units)
    → is_scalar rune ≡ true
    → rune < 0x10000
    → utf16decode (rune ∷ s) ≡ record { tail = s; rune = rune }
unfolding utf16decode
utf16decode_one rune [] g l = ground arith
utf16decode_one rune (u ∷ s) g l = ground arith

utf16decode_pair :
    (rune : ℕ) (s : Units)
    → is_scalar rune ≡ true
    → 0x10000 ≤ rune
    → utf16decode (((rune - 0x10000) / 1024 + 0xd800) ∷ ((rune - 0x10000) % 1024 + 0xdc00) ∷ s)
      ≡ record { tail = s; rune = rune }
unfolding utf16decode
utf16decode_pair rune s g l = ground arith

utf16decode-encode16 :
    (rune : ℕ) (s : Units)
    → is_scalar rune ≡ true
    → utf16decode (encode16 rune ++ s) ≡ record { tail = s; rune = rune }
unfolding encode16
utf16decode-encode16 rune s g = elim (Bool-cases (leb 0x10000 rune)) [
  | inl e ↦ rw e (utf16decode_pair rune s g (ground arith))
  | inr n ↦ rw n (utf16decode_one rune s g (ground arith))
]

replaced-is_scalar : (rune : ℕ) → is_scalar (replaced rune) ≡ true
unfolding replaced
replaced-is_scalar rune = ground arith

-- What `utf8encode_` writes, `utf8decode_` reads back, with any string behind it: the code point, or
-- the replacement character for a surrogate and for what is above 0x10ffff.
pub utf8decode-utf8encode :
    (rune : ℕ) (s : Bytes)
    → utf8decode (utf8encode rune ++ s) ≡ record { tail = s; rune = replaced rune }
unfolding utf8encode
utf8decode-utf8encode rune s = utf8decode-encode8 (replaced rune) s (replaced-is_scalar rune)

-- What `utf16encode_` writes, `utf16decode_` reads back, in the same way.
pub utf16decode-utf16encode :
    (rune : ℕ) (s : Units)
    → utf16decode (utf16encode rune ++ s) ≡ record { tail = s; rune = replaced rune }
unfolding utf16encode
utf16decode-utf16encode rune s = utf16decode-encode16 (replaced rune) s (replaced-is_scalar rune)
