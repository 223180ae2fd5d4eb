-- ===== src/Windows/Console/Given.antt =====
-- What is given to the console, and how much of it is taken.
use u_config.Base.{
  ◌&&◌, ℕ, ◌≤◌, ◌<◌, Bool, true, false, not, [], ◌∷◌, ◌++◌, List, length, ◌≡◌, refl, sym, ap, ◌∙◌,
  inl, inr, arith, Bool-cases, append_assoc, append-nil,
}
use u_config.Windows.Unicode.{Units, utf16encode, encode16}
use u_config.Windows.Unicode.Texts.{text16}

-- Units of whole code points, so that no surrogate pair is split.
abbrev pub IsWhole : Units → Type 0
IsWhole w = (runes : List ℕ) × (w ≡ text16 runes)

abbrev pub AreWhole : List Units → Type 0
AreWhole [] = Unit {0}
AreWhole (w ∷ ws) = IsWhole w × AreWhole ws

pub AreWhole-append :
    (ws : List Units) (w : Units) → AreWhole ws → IsWhole w → AreWhole (ws ++ (w ∷ []))
AreWhole-append [] w h n = (n, tt)
AreWhole-append (v ∷ ws) w (a, h) n = (a, AreWhole-append ws w h n)

pub text16-append :
    (runes : List ℕ) (rune : ℕ) → text16 (runes ++ (rune ∷ [])) ≡ text16 runes ++ utf16encode rune
unfolding text16
text16-append [] rune = append-nil (utf16encode rune)
text16-append (r ∷ runes) rune =
    ap (◌++◌ (utf16encode r)) (text16-append runes rune)
    ∙ sym (append_assoc (utf16encode r) (text16 runes) (utf16encode rune))

pub length-utf16encode :
    (rune : ℕ) → (0 < length (utf16encode rune)) × (length (utf16encode rune) ≤ 2)
unfolding utf16encode encode16
length-utf16encode rune = (ground arith, ground arith)

-- Either no call failed, and what was given and what is left in the buffer is the whole; or one failed,
-- and what was given is a beginning of the whole.
abbrev pub Keeps : Bool → Units → Units → Units → Type 0
Keeps false given buf whole = given ++ buf ≡ whole
Keeps true given buf whole = (rest : Units) × (given ++ rest ≡ whole)

pub Keeps-put :
    (err : Bool) (given buf whole units : Units)
    → Keeps err given buf whole
    → Keeps err given (buf ++ units) (whole ++ units)
Keeps-put false given buf whole units h =
    sym (append_assoc given buf units) ∙ ap (λ w. w ++ units) h
Keeps-put true given buf whole units (rest, h) =
    (rest ++ units, sym (append_assoc given rest units) ∙ ap (λ w. w ++ units) h)

pub Keeps-flush :
    (taken : Bool) (given buf whole : Units)
    → given ++ buf ≡ whole
    → Keeps (not taken) (given ++ buf) [] whole
Keeps-flush true given buf whole h = append-nil (given ++ buf) ∙ h
Keeps-flush false given buf whole h = ([], append-nil (given ++ buf) ∙ h)

pub Keeps-drop :
    (err : Bool) (given buf whole : Units)
    → err ≡ true
    → Keeps err given buf whole
    → Keeps err given [] whole
Keeps-drop true given buf whole e h = h
Keeps-drop false given buf whole e h = ground arith

pub Keeps-none :
    (err : Bool) (given buf whole : Units)
    → err ≡ false
    → Keeps err given buf whole
    → given ++ buf ≡ whole
Keeps-none true given buf whole e h = ground arith
Keeps-none false given buf whole e h = h

module _ (write_console : List Units → Units → Bool) where
  -- Every call succeeds, behind the calls before it.
  unfoldable pub all_taken : List Units → List Units → Bool
  all_taken before [] = true
  all_taken before (w ∷ ws) = write_console before w && all_taken (before ++ (w ∷ [])) ws

  pub all_taken-append :
      (before ws : List Units) (w : Units)
      → all_taken before (ws ++ (w ∷ [])) ≡ (all_taken before ws && write_console (before ++ ws) w)
  unfolding all_taken
  all_taken-append before [] w =
      let e = append-nil before in
      rw e (elim (Bool-cases (write_console before w)) [ inl t ↦ rw t refl | inr f ↦ rw f refl ])
  all_taken-append before (v ∷ ws) w =
      let e = append_assoc before (v ∷ []) ws in
      elim (Bool-cases (write_console before v)) [
        | inl t ↦ rw t (all_taken-append (before ++ (v ∷ [])) ws w ∙ rw e refl)
        | inr f ↦ rw f refl
      ]
