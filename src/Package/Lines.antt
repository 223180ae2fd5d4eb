-- ===== src/Package/Lines.antt =====
-- One line of a package file, read by the loops of `parsepackage`.
use u_config.Base.{
  ℕ, ◌+◌, Bool, true, false, not, ◌||◌, [], ◌∷◌, ◌++◌, Bytes, ◌≡◌, ◌≢◌, refl, arith, length, ◌==◌,
  ◌⊎◌, ap, ◌∙◌, take-append,
}
use u_config.S8.{whitespace}
use u_config.Package.Pieces.{meant}
use u_config.Package.Values.{
  Layout, IsLayout, value_text, after_end, read_value-meant, IsOneLine, skip_line-IsOneLine,
}
use u_config.Package.{
  skip_line, starts_with_byte, skip_white, key_loop, Read, Parsed, Target, variable, field, ignored,
  duplicate, target, write, Line, next, stop, assignment, line,
}

-- A byte of a name: no white space, and none of the bytes that end a name or begin a comment.
unfoldable pub is_key : ℕ → Bool
is_key c = not (whitespace c || c == b'\n' || c == b'=' || c == b':' || c == b'#')

abbrev pub AllKey : Bytes → Type 0
AllKey [] = Unit {0}
AllKey (c ∷ s) = (is_key c ≡ true) × AllKey s

abbrev pub IsKey : Bytes → Type 0
IsKey s = AllKey s × (s ≢ [])

key_loop-AllKey :
    (key r : Bytes) (n c sep : ℕ)
    → AllKey key
    → (sep ≡ b'=') ⊎ (sep ≡ b':')
    → key_loop n n c (key ++ (sep ∷ r)) ≡ record { end = n + length key; c = sep; rest = r }
unfolding key_loop is_key
key_loop-AllKey [] r n c sep h s = ground arith
key_loop-AllKey (x ∷ key) r n c sep h s = ground (arith, key_loop-AllKey key r (n + 1) x sep h.1 s)

skip_white-key : (key r : Bytes) → IsKey key → skip_white (key ++ r) ≡ key ++ r
unfolding skip_white is_key
skip_white-key [] r h = absurd (h.1 refl)
skip_white-key (c ∷ key) r h = ground arith

no_comment : (key r : Bytes) → IsKey key → starts_with_byte (key ++ r) b'#' ≡ false
unfolding is_key
no_comment [] r h = absurd (h.1 refl)
no_comment (c ∷ key) r h = ground arith

-- What a line does: it ends the parse for a duplicate, or writes its value.
abbrev pub wrote : Parsed → Target → Bytes → Bytes → Line
wrote pkg (duplicate r) v rest = stop r
wrote pkg (variable key) v rest = next (write pkg (variable key) v) rest
wrote pkg (field id) v rest = next (write pkg (field id) v) rest
wrote pkg ignored v rest = next pkg rest

assignment-meant :
    (pkg : Parsed) (t : Target) (v : Layout) (rest : Bytes)
    → IsLayout v
    → assignment pkg t (value_text v rest) ≡ wrote pkg t (meant v.pieces) (after_end v.comment rest)
unfolding assignment
assignment-meant pkg (duplicate r) v rest h = refl
assignment-meant pkg (variable key) v rest h =
    ap (λ (r : Read). next (write pkg (variable key) r.value) r.rest) (read_value-meant v rest h)
assignment-meant pkg (field id) v rest h =
    ap (λ (r : Read). next (write pkg (field id) r.value) r.rest) (read_value-meant v rest h)
assignment-meant pkg ignored v rest h =
    ap (λ (r : Read). next pkg r.rest) (read_value-meant v rest h)

-- The text of one line.
abbrev pub line_text : Bytes → ℕ → Layout → Bytes → Bytes
line_text key sep v rest = key ++ (sep ∷ value_text v rest)

is_sep : (sep : ℕ) → (sep ≡ b'=') ⊎ (sep ≡ b':') → (sep == b'=' || sep == b':') ≡ true
is_sep sep h = ground arith

pub line-line_text :
    (pkg : Parsed) (key rest : Bytes) (v : Layout) (sep : ℕ)
    → IsKey key
    → IsLayout v
    → (sep ≡ b'=') ⊎ (sep ≡ b':')
    → line pkg (skip_white (line_text key sep v rest))
      ≡ wrote pkg (target pkg sep key) (meant v.pieces) (after_end v.comment rest)
unfolding line
line-line_text pkg key rest v sep k h s =
    let r = value_text v rest in
    let found : key_loop 0 0 0 (key ++ (sep ∷ r)) ≡ record { end = length key; c = sep; rest = r } =
      key_loop-AllKey key r 0 0 sep k.0 s
      ∙ ap (λ n. record { end = n; c = sep; rest = r }) (omega arith) in
    rw (skip_white-key key (sep ∷ r) k) (
      rw (no_comment key (sep ∷ r) k) (
        rw found (
          rw (is_sep sep s)
            (rw (take-append key (sep ∷ r)) (assignment-meant pkg (target pkg sep key) v rest h)))))

-- A line that is a comment.
pub line-comment :
    (pkg : Parsed) (comment rest : Bytes)
    → IsOneLine comment
    → line pkg (skip_white (b'#' ∷ (comment ++ (b'\n' ∷ rest)))) ≡ next pkg rest
unfolding line skip_white whitespace skip_line
line-comment pkg comment rest h = ap (next pkg) (skip_line-IsOneLine comment rest h)
