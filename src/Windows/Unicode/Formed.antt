-- ===== src/Windows/Unicode/Formed.antt =====
-- Every text that is converted is well formed.
use mathlib.Core.Path.{subst}
use u_config.Base.{
  ◌^◌, ℕ, zero, suc, ◌≤◌, ◌<◌, true, [], ◌∷◌, ◌++◌, Bytes, List, leb, length, ◌≡◌, refl, sym, ap,
  ◌∙◌, arith, Bool-cases, inl, inr, append_assoc, append-nil,
}
use u_config.Windows.Unicode.{
  Units, reject8, decode_two, decode_three, decode_four, utf8decode, encode16, utf16encode,
  wide_loop, towide, fromwide,
}
use u_config.Windows.Unicode.Laws.{is_scalar, replaced_scalar}
use u_config.Windows.Unicode.Texts.{
  text8, text16, fromwide-towide, fromwide-text16, length-utf8decode_tail,
}

abbrev pub AllScalar : List ℕ → Type 0
AllScalar [] = Unit {0}
AllScalar (rune ∷ runes) = (is_scalar rune ≡ true) × AllScalar runes

-- Every number fits in 16 bits.
abbrev pub AreUnits : Units → Type 0
AreUnits [] = Unit {0}
AreUnits (u ∷ w) = (u < 2 ^ 16) × AreUnits w

decode_two-is_scalar : (a : ℕ) (s : Bytes) → is_scalar (decode_two (a ∷ s)).rune ≡ true
unfolding decode_two reject8
decode_two-is_scalar a [] = refl
decode_two-is_scalar a (b ∷ s) = ground arith

decode_three-is_scalar : (a : ℕ) (s : Bytes) → is_scalar (decode_three (a ∷ s)).rune ≡ true
unfolding decode_three reject8
decode_three-is_scalar a [] = refl
decode_three-is_scalar a (b ∷ []) = refl
decode_three-is_scalar a (b ∷ c ∷ s) = ground arith

decode_four-is_scalar : (a : ℕ) (s : Bytes) → is_scalar (decode_four (a ∷ s)).rune ≡ true
unfolding decode_four reject8
decode_four-is_scalar a [] = refl
decode_four-is_scalar a (b ∷ []) = refl
decode_four-is_scalar a (b ∷ c ∷ []) = refl
decode_four-is_scalar a (b ∷ c ∷ d ∷ s) = ground arith

utf8decode-is_scalar : (a : ℕ) (s : Bytes) → is_scalar (utf8decode (a ∷ s)).rune ≡ true
unfolding utf8decode reject8
utf8decode-is_scalar a s =
    ground (arith, decode_two-is_scalar a s, decode_three-is_scalar a s, decode_four-is_scalar a s)

AreUnits-append : (v w : Units) → AreUnits v → AreUnits w → AreUnits (v ++ w)
AreUnits-append [] w h k = k
AreUnits-append (u ∷ v) w (n, h) k = (n, AreUnits-append v w h k)

utf16encode-AreUnits : (rune : ℕ) → is_scalar rune ≡ true → AreUnits (utf16encode rune)
unfolding utf16encode encode16
utf16encode-AreUnits rune h = elim (Bool-cases (leb 0x10000 rune)) [
  | inl e ↦ let same = replaced_scalar rune h in rw (same, e) (ground arith, (ground arith, tt))
  | inr n ↦ let same = replaced_scalar rune h in rw (same, n) (ground arith, tt)
]

text16-AreUnits : (runes : List ℕ) → AllScalar runes → AreUnits (text16 runes)
unfolding text16
text16-AreUnits [] h = tt
text16-AreUnits (rune ∷ runes) (h, hs) =
    AreUnits-append (utf16encode rune) (text16 runes) (utf16encode-AreUnits rune h)
      (text16-AreUnits runes hs)

wide_loop-AllScalar :
    (f : ℕ) (s : Bytes)
    → length s ≤ f
    → (runes : List ℕ) × AllScalar runes × ((w : Units) → wide_loop f w s ≡ w ++ text16 runes)
unfolding wide_loop text16
wide_loop-AllScalar f [] l = ([], tt, λ w. sym (append-nil w))
wide_loop-AllScalar zero (c ∷ s) l = ground arith
wide_loop-AllScalar (suc f) (c ∷ s) l =
    let d = utf8decode (c ∷ s) in
    let (runes, h, e) =
      wide_loop-AllScalar f d.tail (omega (arith, length-utf8decode_tail c s, l)) in
    (
      d.rune ∷ runes,
      (utf8decode-is_scalar c s, h),
      λ w. e (w ++ utf16encode d.rune) ∙ append_assoc w (utf16encode d.rune) (text16 runes),
    )

-- Of any bytes, well formed or not, `towide` makes the UTF-16 of Unicode scalar values, so that every unit
-- fits in 16 bits, no surrogate stands alone, and UTF-8 holds the text without a loss.
pub towide-AllScalar :
    (s : Bytes)
    → (runes : List ℕ) × AllScalar runes
      × (towide s ≡ text16 runes)
      × AreUnits (towide s)
      × (fromwide (towide s) ≡ text8 runes)
      × (towide (fromwide (towide s)) ≡ towide s)
unfolding towide
towide-AllScalar s =
    let (runes, h, e) = wide_loop-AllScalar (length s) s (omega arith) in
    let same : towide s ≡ text16 runes = e [] in
    let (to, from) = fromwide-towide runes in
    (
      runes,
      h,
      same,
      subst AreUnits (sym same) (text16-AreUnits runes h),
      ap fromwide same ∙ fromwide-text16 runes,
      ap (λ w. towide (fromwide w)) same ∙ from ∙ sym same,
    )
