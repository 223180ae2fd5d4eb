-- ===== src/Package/Values.antt =====
-- The loops of `parsepackage` over a value, with blanks around it and a comment behind it.
use u_config.Base.{
  ℕ, suc, zero, ◌+◌, ◌-◌, ◌≤◌, ◌<◌, Bool, true, false, not, ◌&&◌, ◌||◌, [], ◌∷◌, ◌++◌, Bytes, List,
  ◌≡◌, refl, arith, if◌then◌else◌, length, ◌==◌, ap, ◌∙◌, length-append, take-append, Bool-cases,
  inl, inr, Option, some, none,
}
use u_config.S8.{whitespace}
use u_config.Package.{stripescapes, skip_line, lead_loop, value_loop, read_value}
use u_config.Package.Pieces.{
  Piece, plain, hash, broken, broken_return, pieces_text, meant, is_text, ArePieces, escaped-hash,
  escaped-broken, escaped-broken_return, stripescapes-pieces_text,
}

-- White space within a line.
unfoldable pub is_blank : ℕ → Bool
is_blank c = whitespace c && not (c == b'\n')

abbrev pub AllBlank : Bytes → Type 0
AllBlank [] = Unit {0}
AllBlank (c ∷ s) = (is_blank c ≡ true) × AllBlank s

-- No newline stands in the text.
abbrev pub IsOneLine : Bytes → Type 0
IsOneLine [] = Unit {0}
IsOneLine (c ∷ s) = ((c == b'\n') ≡ false) × IsOneLine s

-- The end of a line, with a comment or with none, and the text behind it; and where the loop stops.
abbrev pub end_text : Option Bytes → Bytes → Bytes
end_text none rest = b'\n' ∷ rest
end_text (some comment) rest = b'#' ∷ (comment ++ (b'\n' ∷ rest))

abbrev pub after_end : Option Bytes → Bytes → Bytes
after_end none rest = b'\n' ∷ rest
after_end (some comment) rest = rest

abbrev pub IsEnd : Option Bytes → Type 0
IsEnd none = Unit {0}
IsEnd (some comment) = IsOneLine comment

pub skip_line-IsOneLine : (s rest : Bytes) → IsOneLine s → skip_line (s ++ (b'\n' ∷ rest)) ≡ rest
unfolding skip_line
skip_line-IsOneLine [] rest h = refl
skip_line-IsOneLine (c ∷ s) rest (n, h) = rw n (skip_line-IsOneLine s rest h)

-- Whether there are escapes, and the end of the value that is scanned from index `n`.
abbrev escapes : List Piece → Bool
escapes [] = false
escapes (plain c ∷ ps) = escapes ps
escapes (hash ∷ ps) = true
escapes (broken ∷ ps) = true
escapes (broken_return ∷ ps) = true

abbrev scanned : ℕ → ℕ → List Piece → ℕ
scanned n end [] = end
scanned n end (plain c ∷ ps) = scanned (n + 1) (if whitespace c then end else n + 1) ps
scanned n end (hash ∷ ps) = scanned (n + 2) (n + 2) ps
scanned n end (broken ∷ ps) = scanned (n + 2) end ps
scanned n end (broken_return ∷ ps) = scanned (n + 3) end ps

value_loop-end :
    (e : Option Bytes) (rest : Bytes) (f n end : ℕ) (cleanup : Bool)
    → IsEnd e
    → value_loop (suc f) n end cleanup (end_text e rest)
      ≡ record { end = end; cleanup = cleanup; rest = after_end e rest }
unfolding value_loop skip_line
value_loop-end none rest f n end cleanup h = refl
value_loop-end (some comment) rest f n end cleanup h =
    ap (λ r. record { end = end; cleanup = cleanup; rest = r }) (skip_line-IsOneLine comment rest h)

is_blank_lem :
    (c : ℕ)
    → is_blank c ≡ true
    → (whitespace c ≡ true)
      × ((c == b'\n') ≡ false)
      × ((c == b'#') ≡ false)
      × ((c == b'\\') ≡ false)
unfolding is_blank whitespace
is_blank_lem c h = (ground arith, ground arith, ground arith, ground arith)

value_loop-AllBlank :
    (blanks : Bytes) (e : Option Bytes) (rest : Bytes) (f n end : ℕ) (cleanup : Bool)
    → AllBlank blanks
    → IsEnd e
    → length blanks < f
    → value_loop f n end cleanup (blanks ++ end_text e rest)
      ≡ record { end = end; cleanup = cleanup; rest = after_end e rest }
unfolding value_loop
value_loop-AllBlank blanks e rest zero n end cleanup h k l = ground arith
value_loop-AllBlank [] e rest (suc f) n end cleanup h k l = value_loop-end e rest f n end cleanup k
value_loop-AllBlank (c ∷ blanks) e rest (suc f) n end cleanup h k l =
    let (white, newline, comment, backslash) = is_blank_lem c h.0 in
    let same : (if whitespace c then end else n + 1) ≡ end = ground arith in
    rw (newline, comment, backslash)
      (value_loop-AllBlank blanks e rest f (n + 1) (if whitespace c then end else n + 1) cleanup h.1
          k (omega (arith, l))
        ∙ ap (λ x. record { end = x; cleanup = cleanup; rest = after_end e rest }) same)

value_loop-pieces_text :
    (ps : List Piece) (blanks : Bytes) (e : Option Bytes) (rest : Bytes) (f n end : ℕ)
    (cleanup : Bool)
    → ArePieces ps
    → AllBlank blanks
    → IsEnd e
    → length ps + length blanks < f
    → value_loop f n end cleanup (pieces_text ps ++ (blanks ++ end_text e rest))
      ≡ record { end = scanned n end ps; cleanup = cleanup || escapes ps; rest = after_end e rest }
unfolding value_loop is_text
value_loop-pieces_text ps blanks e rest zero n end cleanup h b k l = ground arith
value_loop-pieces_text [] blanks e rest (suc f) n end cleanup h b k l =
    value_loop-AllBlank blanks e rest (suc f) n end cleanup b k (omega (arith, l))
    ∙ ap (λ c. record { end = end; cleanup = c; rest = after_end e rest }) (ground arith)
value_loop-pieces_text (plain c ∷ ps) blanks e rest (suc f) n end cleanup h b k l = ground (
  arith,
  value_loop-pieces_text ps blanks e rest f (n + 1) (if whitespace c then end else n + 1) cleanup
      h.1 b k,
)
value_loop-pieces_text (hash ∷ ps) blanks e rest (suc f) n end cleanup h b k l =
    value_loop-pieces_text ps blanks e rest f (n + 2) (n + 2) true h b k (omega (arith, l))
    ∙ ap (λ c. record { end = scanned (n + 2) (n + 2) ps; cleanup = c; rest = after_end e rest })
        (ground arith)
value_loop-pieces_text (broken ∷ ps) blanks e rest (suc f) n end cleanup h b k l =
    rw (escaped-broken (pieces_text ps ++ (blanks ++ end_text e rest))) (
      value_loop-pieces_text ps blanks e rest f (n + 2) end true h b k (omega (arith, l))
      ∙ ap (λ c. record { end = scanned (n + 2) end ps; cleanup = c; rest = after_end e rest })
          (ground arith))
value_loop-pieces_text (broken_return ∷ ps) blanks e rest (suc f) n end cleanup h b k l =
    rw (escaped-broken_return (pieces_text ps ++ (blanks ++ end_text e rest))) (
      value_loop-pieces_text ps blanks e rest f (n + 3) end true h b k (omega (arith, l))
      ∙ ap (λ c. record { end = scanned (n + 3) end ps; cleanup = c; rest = after_end e rest })
          (ground arith))

lead_loop-AllBlank :
    (blanks q : Bytes) (f : ℕ)
    → AllBlank blanks
    → length blanks ≤ f
    → lead_loop f (blanks ++ q) ≡ lead_loop (f - length blanks) q
unfolding lead_loop
lead_loop-AllBlank [] q f h l = let e : f - 0 ≡ f = omega arith in rw e refl
lead_loop-AllBlank (c ∷ blanks) q zero h l = ground arith
lead_loop-AllBlank (c ∷ blanks) q (suc f) h l =
    let (white, newline, comment, backslash) = is_blank_lem c h.0 in
    let e : suc f - suc (length blanks) ≡ f - length blanks = omega arith in
    rw (backslash, newline, white, e) (lead_loop-AllBlank blanks q f h.1 (omega (arith, l)))

-- The value begins with no white space and no escaped newline, or it is empty, and then no blanks are
-- counted behind it.
abbrev pub Begins : List Piece → Bytes → Type 0
Begins [] blanks = blanks ≡ []
Begins (plain c ∷ ps) blanks = whitespace c ≡ false
Begins (hash ∷ ps) blanks = Unit {0}
Begins (broken ∷ ps) blanks = 0 < 0
Begins (broken_return ∷ ps) blanks = 0 < 0

-- It ends with no white space and no escaped newline.
abbrev pub Ends : List Piece → Type 0
Ends [] = Unit {0}
Ends (plain c ∷ []) = whitespace c ≡ false
Ends (hash ∷ []) = Unit {0}
Ends (broken ∷ []) = 0 < 0
Ends (broken_return ∷ []) = 0 < 0
Ends (x ∷ y ∷ ps) = Ends (y ∷ ps)

lead_loop_stop :
    (f c : ℕ) (p : Bytes)
    → (c == b'\\') ≡ false
    → (c == b'\n' || not (whitespace c)) ≡ true
    → lead_loop f (c ∷ p) ≡ c ∷ p
unfolding lead_loop
lead_loop_stop zero c p n h = refl
lead_loop_stop (suc f) c p n h = rw (n, h) refl

lead_loop-end_text :
    (e : Option Bytes) (rest : Bytes) (f : ℕ) → lead_loop f (end_text e rest) ≡ end_text e rest
unfolding whitespace
lead_loop-end_text none rest f = lead_loop_stop f b'\n' rest refl refl
lead_loop-end_text (some comment) rest f =
    lead_loop_stop f b'#' (comment ++ (b'\n' ∷ rest)) refl refl

lead_loop-hash : (f : ℕ) (q : Bytes) → lead_loop f (b'\\' ∷ b'#' ∷ q) ≡ b'\\' ∷ b'#' ∷ q
unfolding lead_loop
lead_loop-hash zero q = refl
lead_loop-hash (suc f) q = rw (escaped-hash q) refl

lead_loop-Begins :
    (ps : List Piece) (blanks : Bytes) (e : Option Bytes) (rest : Bytes) (f : ℕ)
    → ArePieces ps
    → Begins ps blanks
    → lead_loop f (pieces_text ps ++ (blanks ++ end_text e rest))
      ≡ pieces_text ps ++ (blanks ++ end_text e rest)
unfolding is_text
lead_loop-Begins [] blanks e rest f h b = rw b (lead_loop-end_text e rest f)
lead_loop-Begins (plain c ∷ ps) blanks e rest f h b =
    lead_loop_stop f c (pieces_text ps ++ (blanks ++ end_text e rest)) (ground arith) (ground arith)
lead_loop-Begins (hash ∷ ps) blanks e rest f h b =
    lead_loop-hash f (pieces_text ps ++ (blanks ++ end_text e rest))
lead_loop-Begins (broken ∷ ps) blanks e rest f h b = ground arith
lead_loop-Begins (broken_return ∷ ps) blanks e rest f h b = ground arith

scanned-Ends :
    (ps : List Piece) (n end : ℕ)
    → Ends ps
    → 0 < length ps
    → scanned n end ps ≡ n + length (pieces_text ps)
scanned-Ends [] n end h l = ground arith
scanned-Ends (plain c ∷ []) n end h l = rw h (omega arith)
scanned-Ends (hash ∷ []) n end h l = omega arith
scanned-Ends (broken ∷ []) n end h l = ground arith
scanned-Ends (broken_return ∷ []) n end h l = ground arith
scanned-Ends (plain c ∷ y ∷ ps) n end h l =
    scanned-Ends (y ∷ ps) (n + 1) (if whitespace c then end else n + 1) h (omega arith)
    ∙ omega arith
scanned-Ends (hash ∷ y ∷ ps) n end h l =
    scanned-Ends (y ∷ ps) (n + 2) (n + 2) h (omega arith) ∙ omega arith
scanned-Ends (broken ∷ y ∷ ps) n end h l =
    scanned-Ends (y ∷ ps) (n + 2) end h (omega arith) ∙ omega arith
scanned-Ends (broken_return ∷ y ∷ ps) n end h l =
    scanned-Ends (y ∷ ps) (n + 3) end h (omega arith) ∙ omega arith

meant-plain : (ps : List Piece) → escapes ps ≡ false → pieces_text ps ≡ meant ps
meant-plain [] h = refl
meant-plain (plain c ∷ ps) h = ap (◌∷◌ c) (meant-plain ps h)
meant-plain (hash ∷ ps) h = cc
meant-plain (broken ∷ ps) h = cc
meant-plain (broken_return ∷ ps) h = cc

length-pieces_text : (ps : List Piece) → length ps ≤ length (pieces_text ps)
length-pieces_text [] = omega arith
length-pieces_text (plain c ∷ ps) = omega (arith, length-pieces_text ps)
length-pieces_text (hash ∷ ps) = omega (arith, length-pieces_text ps)
length-pieces_text (broken ∷ ps) = omega (arith, length-pieces_text ps)
length-pieces_text (broken_return ∷ ps) = omega (arith, length-pieces_text ps)

length-end_text : (e : Option Bytes) (rest : Bytes) → 0 < length (end_text e rest)
length-end_text none rest = omega arith
length-end_text (some comment) rest = omega arith

-- A value with all that surrounds it in its line.
pub record Layout : Type 0 where
  pub lead : Bytes
  pub pieces : List Piece
  pub blanks : Bytes
  pub comment : Option Bytes

pub record IsLayout (v : Layout) : Type 0 where
  pub lead : AllBlank v.lead
  pub pieces : ArePieces v.pieces
  pub begins : Begins v.pieces v.blanks
  pub ends : Ends v.pieces
  pub blanks : AllBlank v.blanks
  pub comment : IsEnd v.comment

abbrev pub value_text : Layout → Bytes → Bytes
value_text v rest = v.lead ++ (pieces_text v.pieces ++ (v.blanks ++ end_text v.comment rest))

scanned_all : (ps : List Piece) → Ends ps → scanned 0 0 ps ≡ length (pieces_text ps)
scanned_all [] h = refl
scanned_all (x ∷ ps) h = scanned-Ends (x ∷ ps) 0 0 h (omega arith) ∙ omega arith

cleaned :
    (ps : List Piece)
    → ArePieces ps
    → (if escapes ps then stripescapes (pieces_text ps) else pieces_text ps) ≡ meant ps
cleaned ps h = elim (Bool-cases (escapes ps)) [
  | inl e ↦ rw e (stripescapes-pieces_text ps h)
  | inr n ↦ rw n (meant-plain ps n)
]

-- What is read of a value is what its pieces mean.
pub read_value-meant :
    (v : Layout) (rest : Bytes)
    → IsLayout v
    → read_value (value_text v rest)
      ≡ record { value = meant v.pieces; rest = after_end v.comment rest }
unfolding read_value
read_value-meant v rest h =
    let text = pieces_text v.pieces in
    let tail = v.blanks ++ end_text v.comment rest in
    let p = v.lead ++ (text ++ tail) in
    let led : lead_loop (length p) p ≡ text ++ tail =
      lead_loop-AllBlank v.lead (text ++ tail) (length p) h.lead
        (omega (arith, length-append v.lead (text ++ tail)))
      ∙ lead_loop-Begins v.pieces v.blanks v.comment rest (length p - length v.lead) h.pieces
          h.begins in
    let looped =
      value_loop-pieces_text v.pieces v.blanks v.comment rest (length (text ++ tail)) 0 0 false
        h.pieces h.blanks h.comment
        (omega (
          arith,
          length-append text tail,
          length-append v.blanks (end_text v.comment rest),
          length-pieces_text v.pieces,
          length-end_text v.comment rest,
        )) in
    rw led (
      rw looped (
        rw (scanned_all v.pieces h.ends) (
          rw (take-append text tail) (
            ap (λ x. record { value = x; rest = after_end v.comment rest })
              (cleaned v.pieces h.pieces)))))
