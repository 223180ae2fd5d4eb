-- ===== src/Windows/Unicode/Texts.antt =====
-- Whole strings through `towide_` and `fromwide_`.
use u_config.Base.{
  ℕ, zero, suc, ◌+◌, ◌≤◌, ◌<◌, [], ◌∷◌, ◌++◌, Bytes, List, length, ◌≡◌, refl, ap, sym, ◌∙◌, arith,
  length-append, append_assoc, append-nil,
}
use u_config.Windows.Unicode.{
  Utf8, reject8, decode_two, decode_three, decode_four, utf8decode, replaced, encode8, utf8encode,
  Units, Utf16, reject16, utf16decode, encode16, utf16encode, wide_length, wide_loop, towide,
  narrow_length, narrow_loop, fromwide,
}
use u_config.Windows.Unicode.Laws.{utf8decode-utf8encode, utf16decode-utf16encode}

-- A text of code points, in either code.
unfoldable pub text8 : List ℕ → Bytes
unfolding utf8encode
text8 [] = []
text8 (rune ∷ runes) = utf8encode rune ++ text8 runes

unfoldable pub text16 : List ℕ → Units
unfolding utf16encode
text16 [] = []
text16 (rune ∷ runes) = utf16encode rune ++ text16 runes

-- Every call of a decoder takes something.
length-decode_two_tail : (a : ℕ) (s : Bytes) → length (decode_two (a ∷ s)).tail ≤ length s
unfolding decode_two reject8
length-decode_two_tail a [] = omega arith
length-decode_two_tail a (b ∷ s) = ground arith

length-decode_three_tail : (a : ℕ) (s : Bytes) → length (decode_three (a ∷ s)).tail ≤ length s
unfolding decode_three reject8
length-decode_three_tail a [] = omega arith
length-decode_three_tail a (b ∷ []) = omega arith
length-decode_three_tail a (b ∷ c ∷ s) = ground arith

length-decode_four_tail : (a : ℕ) (s : Bytes) → length (decode_four (a ∷ s)).tail ≤ length s
unfolding decode_four reject8
length-decode_four_tail a [] = omega arith
length-decode_four_tail a (b ∷ []) = omega arith
length-decode_four_tail a (b ∷ c ∷ []) = omega arith
length-decode_four_tail a (b ∷ c ∷ d ∷ s) = ground arith

pub length-utf8decode_tail : (a : ℕ) (s : Bytes) → length (utf8decode (a ∷ s)).tail ≤ length s
unfolding utf8decode reject8
length-utf8decode_tail a s =
    ground
      (arith, length-decode_two_tail a s, length-decode_three_tail a s, length-decode_four_tail a s)

length-utf16decode_tail : (u : ℕ) (w : Units) → length (utf16decode (u ∷ w)).tail ≤ length w
unfolding utf16decode reject16
length-utf16decode_tail u [] = ground arith
length-utf16decode_tail u (v ∷ w) = ground arith

length-utf8encode : (rune : ℕ) → 0 < length (utf8encode rune)
unfolding utf8encode encode8
length-utf8encode rune = ground arith

length-utf16encode : (rune : ℕ) → 0 < length (utf16encode rune)
unfolding utf16encode encode16
length-utf16encode rune = ground arith

utf16encode-replaced : (rune : ℕ) → utf16encode (replaced rune) ≡ utf16encode rune
unfolding utf16encode replaced
utf16encode-replaced rune = ground arith

utf8encode-replaced : (rune : ℕ) → utf8encode (replaced rune) ≡ utf8encode rune
unfolding utf8encode replaced
utf8encode-replaced rune = ground arith

wide_loop_round :
    (f rune : ℕ) (w : Units) (s tail : Bytes)
    → utf8decode s ≡ record { tail = tail; rune = rune }
    → 0 < length s
    → wide_loop (suc f) w s ≡ wide_loop f (w ++ utf16encode rune) tail
unfolding wide_loop
wide_loop_round f rune w [] tail e l = ground arith
wide_loop_round f rune w (c ∷ s) tail e l =
    ap (λ (d : Utf8). wide_loop f (w ++ utf16encode d.rune) d.tail) e

narrow_loop_round :
    (f rune : ℕ) (s : Bytes) (w tail : Units)
    → utf16decode w ≡ record { tail = tail; rune = rune }
    → 0 < length w
    → narrow_loop (suc f) s w ≡ narrow_loop f (s ++ utf8encode rune) tail
unfolding narrow_loop
narrow_loop_round f rune s [] tail e l = ground arith
narrow_loop_round f rune s (u ∷ w) tail e l =
    ap (λ (d : Utf16). narrow_loop f (s ++ utf8encode d.rune) d.tail) e

wide_loop-text8 :
    (runes : List ℕ) (f : ℕ) (w : Units)
    → length (text8 runes) ≤ f
    → wide_loop f w (text8 runes) ≡ w ++ text16 runes
unfolding text8 text16
wide_loop-text8 [] f w l = unfold wide_loop in sym (append-nil w)
wide_loop-text8 (rune ∷ runes) zero w l =
    ground (arith, length-utf8encode rune, length-append (utf8encode rune) (text8 runes))
wide_loop-text8 (rune ∷ runes) (suc f) w l =
    wide_loop_round f (replaced rune) w _ _ (utf8decode-utf8encode rune (text8 runes))
      (omega (arith, length-utf8encode rune, length-append (utf8encode rune) (text8 runes)))
    ∙ ap (λ (v : Units). wide_loop f (w ++ v) (text8 runes)) (utf16encode-replaced rune)
    ∙ wide_loop-text8 runes f (w ++ utf16encode rune)
        (omega (arith, length-utf8encode rune, length-append (utf8encode rune) (text8 runes)))
    ∙ append_assoc w (utf16encode rune) (text16 runes)

narrow_loop-text16 :
    (runes : List ℕ) (f : ℕ) (s : Bytes)
    → length (text16 runes) ≤ f
    → narrow_loop f s (text16 runes) ≡ s ++ text8 runes
unfolding text8 text16
narrow_loop-text16 [] f s l = unfold narrow_loop in sym (append-nil s)
narrow_loop-text16 (rune ∷ runes) zero s l =
    ground (arith, length-utf16encode rune, length-append (utf16encode rune) (text16 runes))
narrow_loop-text16 (rune ∷ runes) (suc f) s l =
    narrow_loop_round f (replaced rune) s _ _ (utf16decode-utf16encode rune (text16 runes))
      (omega (arith, length-utf16encode rune, length-append (utf16encode rune) (text16 runes)))
    ∙ ap (λ (v : Bytes). narrow_loop f (s ++ v) (text16 runes)) (utf8encode-replaced rune)
    ∙ narrow_loop-text16 runes f (s ++ utf8encode rune)
        (omega (arith, length-utf16encode rune, length-append (utf16encode rune) (text16 runes)))
    ∙ append_assoc s (utf8encode rune) (text8 runes)

pub towide-text8 : (runes : List ℕ) → towide (text8 runes) ≡ text16 runes
unfolding towide
towide-text8 runes = wide_loop-text8 runes (length (text8 runes)) [] (omega arith)

pub fromwide-text16 : (runes : List ℕ) → fromwide (text16 runes) ≡ text8 runes
unfolding fromwide
fromwide-text16 runes = narrow_loop-text16 runes (length (text16 runes)) [] (omega arith)

-- A text in UTF-8, of any code points, comes back from UTF-16 as it was, and a text in UTF-16 comes
-- back from UTF-8. Where a code point is a surrogate or above 0x10ffff, the texts hold the replacement
-- character.
pub fromwide-towide :
    (runes : List ℕ)
    → (fromwide (towide (text8 runes)) ≡ text8 runes)
      × (towide (fromwide (text16 runes)) ≡ text16 runes)
fromwide-towide runes = (
  ap fromwide (towide-text8 runes) ∙ fromwide-text16 runes,
  ap towide (fromwide-text16 runes) ∙ towide-text8 runes,
)

length-wide_loop :
    (f : ℕ) (w : Units) (s : Bytes) → length (wide_loop f w s) ≡ length w + wide_length f s
unfolding wide_loop wide_length
length-wide_loop f w [] = omega arith
length-wide_loop zero w (c ∷ s) = omega arith
length-wide_loop (suc f) w (c ∷ s) =
    let d = utf8decode (c ∷ s) in
    omega (
      arith,
      length-wide_loop f (w ++ utf16encode d.rune) d.tail,
      length-append w (utf16encode d.rune),
    )

length-narrow_loop :
    (f : ℕ) (s : Bytes) (w : Units) → length (narrow_loop f s w) ≡ length s + narrow_length f w
unfolding narrow_loop narrow_length
length-narrow_loop f s [] = omega arith
length-narrow_loop zero s (u ∷ w) = omega arith
length-narrow_loop (suc f) s (u ∷ w) =
    let d = utf16decode (u ∷ w) in
    omega (
      arith,
      length-narrow_loop f (s ++ utf8encode d.rune) d.tail,
      length-append s (utf8encode d.rune),
    )

-- More rounds than there are bytes change nothing.
wide_loop-enough :
    (f g : ℕ) (w : Units) (s : Bytes)
    → length s ≤ f
    → length s ≤ g
    → wide_loop f w s ≡ wide_loop g w s
unfolding wide_loop
wide_loop-enough f g w [] l m = refl
wide_loop-enough zero g w (c ∷ s) l m = ground arith
wide_loop-enough (suc f) zero w (c ∷ s) l m = ground arith
wide_loop-enough (suc f) (suc g) w (c ∷ s) l m =
    let d = utf8decode (c ∷ s) in
    wide_loop-enough f g (w ++ utf16encode d.rune) d.tail
      (omega (arith, length-utf8decode_tail c s)) (omega (arith, length-utf8decode_tail c s))

narrow_loop-enough :
    (f g : ℕ) (s : Bytes) (w : Units)
    → length w ≤ f
    → length w ≤ g
    → narrow_loop f s w ≡ narrow_loop g s w
unfolding narrow_loop
narrow_loop-enough f g s [] l m = refl
narrow_loop-enough zero g s (u ∷ w) l m = ground arith
narrow_loop-enough (suc f) zero s (u ∷ w) l m = ground arith
narrow_loop-enough (suc f) (suc g) s (u ∷ w) l m =
    let d = utf16decode (u ∷ w) in
    narrow_loop-enough f g (s ++ utf8encode d.rune) d.tail
      (omega (arith, length-utf16decode_tail u w)) (omega (arith, length-utf16decode_tail u w))

-- On any input, well formed or not, each second pass writes as many units as the first pass counted
-- for its allocation, and no number of rounds above the length of the input changes the result.
pub length-towide :
    (s : Bytes) (w : Units) (more : ℕ)
    → (length (towide s) ≡ wide_length (length s) s)
      × (length (fromwide w) ≡ narrow_length (length w) w)
      × (wide_loop (length s + more) [] s ≡ towide s)
      × (narrow_loop (length w + more) [] w ≡ fromwide w)
unfolding towide fromwide
length-towide s w more = (
  omega (arith, length-wide_loop (length s) [] s),
  omega (arith, length-narrow_loop (length w) [] w),
  wide_loop-enough (length s + more) (length s) [] s (omega arith) (omega arith),
  narrow_loop-enough (length w + more) (length w) [] w (omega arith) (omega arith),
)
