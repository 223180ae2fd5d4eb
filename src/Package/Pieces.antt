-- ===== src/Package/Pieces.antt =====
-- How a value is written in a line of a package file, and what its escapes stand for.
use u_config.Base.{
  ℕ, suc, zero, ◌≤◌, Bool, true, not, ◌||◌, [], ◌∷◌, ◌++◌, Bytes, List, ◌≡◌, refl, arith, length,
  ◌==◌, ap,
}
use u_config.S8.{startswith, s8equals, takehead}
use u_config.Package.{escaped, strip_loop, stripescapes}

-- A byte that stands for itself, an escaped `#`, and an escaped newline with and without a return.
pub data Piece : Type 0 where
  plain : ℕ → Piece
  hash broken broken_return : Piece

abbrev pub piece_text : Piece → Bytes
piece_text (plain c) = c ∷ []
piece_text hash = b'\\' ∷ b'#' ∷ []
piece_text broken = b'\\' ∷ b'\n' ∷ []
piece_text broken_return = b'\\' ∷ b'\r' ∷ b'\n' ∷ []

abbrev pub pieces_text : List Piece → Bytes
pieces_text [] = []
pieces_text (x ∷ ps) = piece_text x ++ pieces_text ps

-- The value that is meant.
abbrev pub meant : List Piece → Bytes
meant [] = []
meant (plain c ∷ ps) = c ∷ meant ps
meant (hash ∷ ps) = b'#' ∷ meant ps
meant (broken ∷ ps) = meant ps
meant (broken_return ∷ ps) = meant ps

unfoldable pub is_text : ℕ → Bool
is_text c = not (c == b'\n' || c == b'#' || c == b'\\')

abbrev pub ArePieces : List Piece → Type 0
ArePieces [] = Unit {0}
ArePieces (plain c ∷ ps) = (is_text c ≡ true) × ArePieces ps
ArePieces (hash ∷ ps) = ArePieces ps
ArePieces (broken ∷ ps) = ArePieces ps
ArePieces (broken_return ∷ ps) = ArePieces ps

pub escaped-hash : (q : Bytes) → escaped (b'\\' ∷ b'#' ∷ q) ≡ 0
unfolding escaped startswith takehead s8equals
escaped-hash q = ground arith

pub escaped-broken : (q : Bytes) → escaped (b'\\' ∷ b'\n' ∷ q) ≡ 2
unfolding escaped startswith takehead s8equals
escaped-broken q = ground arith

pub escaped-broken_return : (q : Bytes) → escaped (b'\\' ∷ b'\r' ∷ b'\n' ∷ q) ≡ 3
unfolding escaped startswith takehead s8equals
escaped-broken_return q = ground arith

strip_loop-pieces_text :
    (ps : List Piece) (f : ℕ)
    → ArePieces ps
    → length (pieces_text ps) ≤ f
    → strip_loop f (pieces_text ps) ≡ meant ps
unfolding strip_loop is_text
strip_loop-pieces_text [] f h l = refl
strip_loop-pieces_text (plain c ∷ ps) zero h l = ground arith
strip_loop-pieces_text (plain c ∷ ps) (suc f) h l = ground (arith, strip_loop-pieces_text ps f h.1)
strip_loop-pieces_text (hash ∷ ps) zero h l = ground arith
strip_loop-pieces_text (hash ∷ ps) (suc zero) h l = ground arith
strip_loop-pieces_text (hash ∷ ps) (suc (suc f)) h l =
    rw (escaped-hash (pieces_text ps))
      (ap (◌∷◌ b'#') (strip_loop-pieces_text ps f h (omega (arith, l))))
strip_loop-pieces_text (broken ∷ ps) zero h l = ground arith
strip_loop-pieces_text (broken ∷ ps) (suc f) h l =
    rw (escaped-broken (pieces_text ps)) (strip_loop-pieces_text ps f h (omega (arith, l)))
strip_loop-pieces_text (broken_return ∷ ps) zero h l = ground arith
strip_loop-pieces_text (broken_return ∷ ps) (suc f) h l =
    rw (escaped-broken_return (pieces_text ps)) (strip_loop-pieces_text ps f h (omega (arith, l)))

-- With the fuel that it is given, `stripescapes` takes every escape out.
pub stripescapes-pieces_text :
    (ps : List Piece) → ArePieces ps → stripescapes (pieces_text ps) ≡ meant ps
unfolding stripescapes
stripescapes-pieces_text ps h = strip_loop-pieces_text ps (length (pieces_text ps)) h (omega arith)
