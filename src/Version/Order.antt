-- ===== src/Version/Order.antt =====
-- `compareversions` refines the lexicographic order of version keys, and so is a total order.
use u_config.Base.{
  ℕ, suc, zero, ◌≤◌, ◌<◌, true, false, ◌&&◌, [], ◌∷◌, ◌++◌, Bytes, List, ◌≡◌, refl, ap, ◌∙◌, arith,
  Bool-cases, inl, inr, length, Option, some, none, length-take, length-drop, ◌↔◌,
}
use u_config.Base.Sign.{ℤ, pos, negsuc, neg}
use u_config.S8.{digit, digits, prefix_len}
use u_config.S8.Laws.{prefix_len-le}
use u_config.Version.{compare_runs, compare_loop, compareversions}
use u_config.Version.Key.{version_key, key_at-run, version_key-injective}
use u_config.Version.Lex.{lex, lex_refl, eq_of_lex, lex-swap, lex_trans}

version_key-other :
    (c : ℕ) (cs : Bytes) → digit c ≡ false → version_key (c ∷ cs) ≡ c ∷ version_key cs
unfolding version_key
version_key-other c cs h = rw h refl

length_run :
    (c : ℕ) (cs : Bytes)
    → digit c ≡ true
    → length (digits (c ∷ cs)).head ≡ suc (prefix_len digit cs)
unfolding digits prefix_len
length_run c cs h =
    rw h (omega (arith, length-take (prefix_len digit cs) cs, prefix_len-le digit cs))

length_after_run : (c : ℕ) (cs : Bytes) → digit c ≡ true → length (digits (c ∷ cs)).tail ≤ length cs
unfolding digits prefix_len
length_after_run c cs h = rw h (omega (arith, length-drop (prefix_len digit cs) cs))

version_key-run :
    (c : ℕ) (cs : Bytes)
    → digit c ≡ true
    → version_key (c ∷ cs)
      ≡ b'0'
        ∷ length (digits (c ∷ cs)).head
        ∷ ((digits (c ∷ cs)).head ++ version_key (digits (c ∷ cs)).tail)
unfolding version_key
version_key-run c cs h = rw (length_run c cs h) (
    unfold digits in
    unfold prefix_len in rw h (ap (λ r. b'0' ∷ suc (prefix_len digit cs) ∷ c ∷ r) (key_at-run cs)))

or_else : Option ℤ → ℤ → ℤ
or_else none z = z
or_else (some r) z = r

compare_runs-lex :
    (pa pb : Bytes) (xs ys : List ℕ)
    → length pa ≡ length pb
    → lex (pa ++ xs) (pb ++ ys) ≡ or_else (compare_runs pa pb) (lex xs ys)
unfolding compare_runs lex or_else
compare_runs-lex [] [] xs ys h = refl
compare_runs-lex [] (b ∷ pb) xs ys h = absurd (omega arith)
compare_runs-lex (a ∷ pa) [] xs ys h = absurd (omega arith)
compare_runs-lex (a ∷ pa) (b ∷ pb) xs ys h = ground (arith, compare_runs-lex pa pb xs ys)

-- One byte that is no digit orders against a run of digits as against its first digit.
compare_loop-other :
    (f a b : ℕ) (va vb : Bytes)
    → digit a && digit b ≡ false
    → compare_loop f va vb ≡ some (lex (version_key va) (version_key vb))
    → compare_loop (suc f) (a ∷ va) (b ∷ vb)
      ≡ some (lex (version_key (a ∷ va)) (version_key (b ∷ vb)))
unfolding compare_loop lex digit version_key
compare_loop-other f a b va vb h ih = ground arith

compare_loop-runs :
    (f a b : ℕ) (va vb : Bytes)
    → digit a ≡ true
    → digit b ≡ true
    → compare_loop f (digits (a ∷ va)).tail (digits (b ∷ vb)).tail
      ≡ some (lex (version_key (digits (a ∷ va)).tail) (version_key (digits (b ∷ vb)).tail))
    → compare_loop (suc f) (a ∷ va) (b ∷ vb)
      ≡ some (lex (version_key (a ∷ va)) (version_key (b ∷ vb)))
unfolding compare_loop lex or_else
compare_loop-runs f a b va vb da db ih =
    let pa = digits (a ∷ va) in
    let pb = digits (b ∷ vb) in
    ground (
      arith,
      version_key-run a va da,
      version_key-run b vb db,
      compare_runs-lex pa.head pb.head (version_key pa.tail) (version_key pb.tail),
    )

compare_loop-lex :
    (f : ℕ) (va vb : Bytes)
    → length va < f
    → compare_loop f va vb ≡ some (lex (version_key va) (version_key vb))
compare_loop-lex zero va vb h = absurd (omega arith)
compare_loop-lex (suc f) [] [] h = unfold compare_loop lex version_key in refl
compare_loop-lex (suc f) [] (b ∷ vb) h = unfold compare_loop lex version_key in ground arith
compare_loop-lex (suc f) (a ∷ va) [] h = unfold compare_loop lex version_key in ground arith
compare_loop-lex (suc f) (a ∷ va) (b ∷ vb) h = elim (Bool-cases (digit a && digit b)) [
  | inl both ↦
      compare_loop-runs f a b va vb (ground arith) (ground arith)
        (compare_loop-lex f _ _ (omega (arith, length_after_run a va (ground arith))))
  | inr other ↦ compare_loop-other f a b va vb other (compare_loop-lex f va vb (omega arith))
]

-- The loop ends within its fuel, and its result is the lexicographic order of the keys.
pub compareversions-lex :
    (va vb : Bytes) → compareversions va vb ≡ some (lex (version_key va) (version_key vb))
unfolding compareversions
compareversions-lex va vb = compare_loop-lex (suc (length va)) va vb (omega arith)

-- Two versions compare as equal exactly when they are the same bytes.
pub compareversions_eq_iff : (va vb : Bytes) → (compareversions va vb ≡ some (pos 0)) ↔ (va ≡ vb)
compareversions_eq_iff va vb = rw (compareversions-lex va vb) (
  λ e. version_key-injective va vb (eq_of_lex (version_key va) (version_key vb) (cc)),
  λ e. rw e (ap some (lex_refl (version_key vb))),
)

-- Swapping the versions negates the result.
pub compareversions_swap :
    (va vb : Bytes)
    → (r : ℤ) × (compareversions va vb ≡ some r) × (compareversions vb va ≡ some (neg r))
compareversions_swap va vb = (
  lex (version_key va) (version_key vb),
  compareversions-lex va vb,
  compareversions-lex vb va ∙ ap some (lex-swap (version_key va) (version_key vb)),
)

-- The order is transitive.
pub compareversions_trans :
    (va vb vc : Bytes)
    → compareversions va vb ≡ some (negsuc 0)
    → compareversions vb vc ≡ some (negsuc 0)
    → compareversions va vc ≡ some (negsuc 0)
compareversions_trans va vb vc h k =
    compareversions-lex va vc
    ∙ ap some (
        lex_trans (version_key va) (version_key vb) (version_key vc)
          (cc (compareversions-lex va vb)) (cc (compareversions-lex vb vc)))
