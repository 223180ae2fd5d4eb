-- ===== src/Version/Lex.antt =====
-- The lexicographic order of lists of numbers, as a comparison with the results of the C code.
use u_config.Base.{ℕ, [], ◌∷◌, if◌then◌else◌, List, ◌≡◌, refl, arith, ltb}
use u_config.Base.Sign.{ℤ, pos, negsuc, neg}

unfoldable pub lex : List ℕ → List ℕ → ℤ
lex [] [] = pos 0
lex [] (y ∷ ys) = negsuc 0
lex (x ∷ xs) [] = pos 1
lex (x ∷ xs) (y ∷ ys) = if ltb x y then negsuc 0 else if ltb y x then pos 1 else lex xs ys

pub lex-swap : (xs ys : List ℕ) → lex ys xs ≡ neg (lex xs ys)
unfolding lex
lex-swap [] [] = refl
lex-swap [] (y ∷ ys) = refl
lex-swap (x ∷ xs) [] = refl
lex-swap (x ∷ xs) (y ∷ ys) = ground (arith, lex-swap xs ys)

pub lex_refl : (xs : List ℕ) → lex xs xs ≡ pos 0
unfolding lex
lex_refl [] = refl
lex_refl (x ∷ xs) = ground (arith, lex_refl xs)

pub eq_of_lex : (xs ys : List ℕ) → lex xs ys ≡ pos 0 → xs ≡ ys
unfolding lex
eq_of_lex [] [] h = refl
eq_of_lex [] (y ∷ ys) h = cc
eq_of_lex (x ∷ xs) [] h = ground arith
eq_of_lex (x ∷ xs) (y ∷ ys) h = ground (arith, eq_of_lex xs ys)

pub lex_trans :
    (xs ys zs : List ℕ) → lex xs ys ≡ negsuc 0 → lex ys zs ≡ negsuc 0 → lex xs zs ≡ negsuc 0
unfolding lex
lex_trans [] ys [] h k = ground (arith, lex-swap [] ys)
lex_trans [] ys (z ∷ zs) h k = refl
lex_trans (x ∷ xs) [] zs h k = cc
lex_trans (x ∷ xs) (y ∷ ys) [] h k = cc
lex_trans (x ∷ xs) (y ∷ ys) (z ∷ zs) h k = ground (arith, lex_trans xs ys zs)
