-- ===== src/Windows/Cmdline/Quoting.antt =====
-- Command lines that are written with quotes, over code points.
use u_config.Base.{
  ℕ, zero, suc, Bool, ◌&&◌, not, true, false, [], ◌∷◌, ◌++◌, List, ◌==◌, if◌then◌else◌, ◌≡◌,
}
use u_config.Windows.Unicode.Laws.{is_scalar}

abbrev pub slashes : ℕ → List ℕ
slashes zero = []
slashes (suc n) = 0x5c ∷ slashes n

-- The rest of a quoted argument behind `n` backslashes: backslashes are doubled before a quote and at
-- the end, and a quote has one more before it.
unfoldable pub quoted_rest : ℕ → List ℕ → List ℕ
quoted_rest n [] = slashes n ++ (0x22 ∷ [])
quoted_rest n (c ∷ arg) =
    let slash = quoted_rest (suc n) arg in
    let other = quoted_rest 0 arg in
    if c == 0x5c then c ∷ slash else if c == 0x22 then slashes (suc n) ++ (c ∷ other) else c ∷ other

-- The program's name in quotes, then every argument in quotes behind a space.
unfoldable pub quote_arguments : List (List ℕ) → List ℕ
unfolding quoted_rest
quote_arguments [] = []
quote_arguments (arg ∷ args) = 0x20 ∷ (0x22 ∷ (quoted_rest 0 arg ++ quote_arguments args))

unfoldable pub command_line : List ℕ → List (List ℕ) → List ℕ
unfolding quote_arguments
command_line program args = 0x22 ∷ (program ++ (0x22 ∷ quote_arguments args))

-- A Unicode scalar value but U+0000, which ends a command line.
abbrev pub is_char : ℕ → Bool
is_char c = is_scalar c && not (c == 0)

abbrev pub AreChars : List ℕ → Type 0
AreChars [] = Unit {0}
AreChars (c ∷ s) = (is_char c ≡ true) × AreChars s

-- No quote stands in the program's name.
abbrev pub HasNoQuote : List ℕ → Type 0
HasNoQuote [] = Unit {0}
HasNoQuote (c ∷ s) = ((c == 0x22) ≡ false) × HasNoQuote s

abbrev pub AllChars : List (List ℕ) → Type 0
AllChars [] = Unit {0}
AllChars (s ∷ ss) = AreChars s × AllChars ss
