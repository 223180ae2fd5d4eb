-- ===== src/Windows/Files/Found.antt =====
-- The names that a search of Windows finds.
use u_config.Base.{
  ℕ, ◌-◌, ◌<◌, [], ◌∷◌, ◌++◌, Bytes, List, codes, map, length, take-append, length-append,
  append_assoc, ◌≡◌, refl, sym, ap, ◌∙◌, arith,
}
use u_config.S8.{cuttail}
use u_config.Windows.Unicode.{
  Units, utf8encode, utf16encode, encode8, encode16, replaced, towide, fromwide,
}
use u_config.Windows.Unicode.Texts.{text8, text16, towide-text8, fromwide-text16}
use u_config.Windows.Files.{wide_name, glob_of, found_files, os_listing}

-- No code point is 0, which would end the name.
abbrev pub AreNamed : List ℕ → Type 0
AreNamed [] = Unit {0}
AreNamed (rune ∷ runes) = (0 < rune) × AreNamed runes

abbrev pub AllNamed : List (List ℕ) → Type 0
AllNamed [] = Unit {0}
AllNamed (name ∷ names) = AreNamed name × AllNamed names

-- The buffers that hold the names: a terminator behind each, and what was in the buffer before.
abbrev pub buffers_of : (List ℕ → Units) → List (List ℕ) → List Units
buffers_of behind [] = []
buffers_of behind (name ∷ names) = (text16 name ++ (0 ∷ behind name)) ∷ buffers_of behind names

text8-append : (a b : List ℕ) → text8 (a ++ b) ≡ text8 a ++ text8 b
unfolding text8
text8-append [] b = refl
text8-append (rune ∷ a) b =
    ap (λ s. utf8encode rune ++ s) (text8-append a b)
    ∙ sym (append_assoc (utf8encode rune) (text8 a) (text8 b))

wide_name-utf16encode :
    (rune : ℕ) (w : Units)
    → 0 < rune
    → wide_name (utf16encode rune ++ w) ≡ utf16encode rune ++ wide_name w
unfolding wide_name utf16encode encode16 replaced
wide_name-utf16encode rune w h = ground arith

wide_name-text16 :
    (runes : List ℕ) (behind : Units)
    → AreNamed runes
    → wide_name (text16 runes ++ (0 ∷ behind)) ≡ text16 runes
unfolding wide_name text16
wide_name-text16 [] behind h = refl
wide_name-text16 (rune ∷ runes) behind (n, h) =
    ap wide_name (append_assoc (utf16encode rune) (text16 runes) (0 ∷ behind))
    ∙ wide_name-utf16encode rune (text16 runes ++ (0 ∷ behind)) n
    ∙ ap (λ w. utf16encode rune ++ w) (wide_name-text16 runes behind h)

found_files-buffers_of :
    (behind : List ℕ → Units) (names : List (List ℕ))
    → AllNamed names
    → found_files (buffers_of behind names) ≡ map text8 names
unfolding found_files
found_files-buffers_of behind [] h = refl
found_files-buffers_of behind (name ∷ names) (n, h) =
    ap (◌∷◌ (fromwide (wide_name (text16 name ++ (0 ∷ behind name)))))
      (found_files-buffers_of behind names h)
    ∙ ap (λ w. fromwide w ∷ map text8 names) (wide_name-text16 name (behind name) n)
    ∙ ap (λ s. s ∷ map text8 names) (fromwide-text16 name)

cuttail-terminator : (s : Bytes) → cuttail (s ++ (0 ∷ [])) 1 ≡ s
unfolding cuttail
cuttail-terminator s =
    let size : length (s ++ (0 ∷ [])) - 1 ≡ length s = omega (arith, length-append s (0 ∷ [])) in
    rw size (take-append s (0 ∷ []))

glob_of-text8 :
    (path : List ℕ)
    → glob_of (text8 path ++ (0 ∷ [])) ≡ text8 (path ++ (codes "\\*.pc" ++ (0 ∷ [])))
unfolding glob_of text8 utf8encode encode8 replaced
glob_of-text8 path =
    ap (λ s. s ++ (codes "\\*.pc" ++ (0 ∷ []))) (cuttail-terminator (text8 path))
    ∙ sym (text8-append path (codes "\\*.pc" ++ (0 ∷ [])))

-- For a directory with a path in UTF-8, the search is asked for the UTF-16 of the path with `\*.pc` and a
-- terminator behind it, and of the names that it finds, with anything in the buffers behind their
-- terminators, the listing is the UTF-8 in the same order. The names have no code point 0.
pub os_listing-text8 :
    (find_files : Units → List Units) (behind : List ℕ → Units) (path : List ℕ)
    (names : List (List ℕ))
    → AllNamed names
    → find_files (text16 (path ++ (codes "\\*.pc" ++ (0 ∷ [])))) ≡ buffers_of behind names
    → os_listing find_files (text8 path ++ (0 ∷ [])) ≡ map text8 names
unfolding os_listing
os_listing-text8 find_files behind path names h e =
    ap (λ s. found_files (find_files (towide s))) (glob_of-text8 path)
    ∙ ap (λ w. found_files (find_files w)) (towide-text8 (path ++ (codes "\\*.pc" ++ (0 ∷ []))))
    ∙ ap found_files e
    ∙ found_files-buffers_of behind names h
