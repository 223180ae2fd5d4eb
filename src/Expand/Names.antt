-- ===== src/Expand/Names.antt =====
-- Where `expand` finds the name of a variable.
use u_config.Base.{
  ℕ, suc, ◌+◌, [], ◌∷◌, ◌++◌, Bytes, ◌≡◌, refl, ap, ◌∙◌, length, take, drop, arith, not, ◌==◌,
  length-append, take-append,
}
use u_config.S8.{prefix_len}
use u_config.S8.Cuts.{Lacks}
use u_config.Expand.{nothing, variable, dollar, scan, after_name, name_at}

pub scan-free : (k : ℕ) (s : Bytes) → Lacks b'$' s → scan k s ≡ nothing
unfolding scan
scan-free k [] h = refl
scan-free k (c ∷ []) h = refl
scan-free k (c ∷ d ∷ s) h = ground (arith, scan-free (k + 1) (d ∷ s))

pub scan-variable :
    (k : ℕ) (a s : Bytes) → Lacks b'$' a → scan k (a ++ (b'$' ∷ b'{' ∷ s)) ≡ variable (k + length a)
unfolding scan
scan-variable k [] s h = ap variable (omega arith)
scan-variable k (c ∷ []) s h = rw h.0 (ap variable (omega arith))
scan-variable k (c ∷ d ∷ a) s h =
    rw h.0 (scan-variable (k + 1) (d ∷ a) s h.1 ∙ ap variable (omega arith))

pub scan-dollar :
    (k : ℕ) (a s : Bytes) → Lacks b'$' a → scan k (a ++ (b'$' ∷ b'$' ∷ s)) ≡ dollar (k + length a)
unfolding scan
scan-dollar k [] s h = ap dollar (omega arith)
scan-dollar k (c ∷ []) s h = rw h.0 (ap dollar (omega arith))
scan-dollar k (c ∷ d ∷ a) s h = rw h.0 (scan-dollar (k + 1) (d ∷ a) s h.1 ∙ ap dollar (omega arith))

pub prefix_len-name :
    (name rest : Bytes)
    → Lacks b'}' name
    → prefix_len (λ c. not (c == b'}')) (name ++ (b'}' ∷ rest)) ≡ length name
unfolding prefix_len
prefix_len-name [] rest h = refl
prefix_len-name (c ∷ name) rest h = rw h.0 (ap suc (prefix_len-name name rest h.1))

pub drop-past : (a b : Bytes) (k : ℕ) → drop (length a + k) (a ++ b) ≡ drop k b
drop-past [] b k = let e : 0 + k ≡ k = omega arith in rw e refl
drop-past (x ∷ a) b k =
    let e : suc (length a) + k ≡ suc (length a + k) = omega arith in rw e (drop-past a b k)

pub take-past : (a b : Bytes) (k : ℕ) → take (length a + k) (a ++ b) ≡ a ++ take k b
take-past [] b k = let e : 0 + k ≡ k = omega arith in rw e refl
take-past (x ∷ a) b k =
    let e : suc (length a) + k ≡ suc (length a + k) = omega arith in
    rw e (ap (◌∷◌ x) (take-past a b k))

-- A text with a variable in it, cut at the variable.
abbrev pub with_variable : Bytes → Bytes → Bytes → Bytes
with_variable a name b = a ++ (b'$' ∷ b'{' ∷ (name ++ (b'}' ∷ b)))

pub drop_name :
    (a name b : Bytes) → drop (length a + 2) (with_variable a name b) ≡ name ++ (b'}' ∷ b)
drop_name a name b = drop-past a (b'$' ∷ b'{' ∷ (name ++ (b'}' ∷ b))) 2

pub name_at-variable :
    (a name b : Bytes) → Lacks b'}' name → name_at (with_variable a name b) (length a + 2) ≡ name
unfolding name_at
name_at-variable a name b h =
    rw (drop_name a name b, prefix_len-name name b h) (take-append name (b'}' ∷ b))

pub length-with_variable :
    (a name b : Bytes) → length (with_variable a name b) ≡ length a + length name + length b + 3
length-with_variable a name b =
    omega
      (arith, length-append a (b'$' ∷ b'{' ∷ (name ++ (b'}' ∷ b))), length-append name (b'}' ∷ b))

pub after_name-variable :
    (a name b : Bytes)
    → Lacks b'}' name
    → after_name (with_variable a name b) (length a + 2) ≡ length a + (length name + 3)
unfolding after_name
after_name-variable a name b h =
    rw (drop_name a name b, prefix_len-name name b h)
      (ground (arith, length-with_variable a name b))

pub cuthead-variable :
    (a name b : Bytes) → drop (length a + (length name + 3)) (with_variable a name b) ≡ b
cuthead-variable a name b =
    let e : length name + 3 ≡ suc (suc (length name + 1)) = omega arith in
    drop-past a (b'$' ∷ b'{' ∷ (name ++ (b'}' ∷ b))) (length name + 3)
    ∙ rw e (drop-past name (b'}' ∷ b) 1)
