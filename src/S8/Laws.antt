-- ===== src/S8/Laws.antt =====
-- Laws of the byte-string operations.
use u_config.Base.{
  ℕ, ◌+◌, ◌≤◌, ◌≡◌, refl, ◌↔◌, Bool, true, [], ◌∷◌, Bytes, length, arith, length-take, length-drop,
  not,
}
use u_config.S8.{u8compare, s8equals, prefix_len, skiptokenspace, nexttoken, tokenspace}
use u_config.Base.Sign.{is_zero}

eq_of_u8compare : (a b : Bytes) → length a ≡ length b → is_zero (u8compare a b) ≡ true → a ≡ b
unfolding u8compare
eq_of_u8compare [] [] l h = refl
eq_of_u8compare [] (y ∷ b) l h = absurd (omega arith)
eq_of_u8compare (x ∷ a) [] l h = absurd (omega arith)
eq_of_u8compare (x ∷ a) (y ∷ b) l h = ground (arith, eq_of_u8compare a b)

u8compare_self : (a : Bytes) → is_zero (u8compare a a) ≡ true
unfolding u8compare
u8compare_self [] = refl
u8compare_self (x ∷ a) = ground (arith, u8compare_self a)

pub s8equals_refl : (a : Bytes) → s8equals a a ≡ true
unfolding s8equals
s8equals_refl a = ground (arith, u8compare_self a)

eq_of_s8equals : (a b : Bytes) → s8equals a b ≡ true → a ≡ b
unfolding s8equals
eq_of_s8equals a b h = ground (arith, eq_of_u8compare a b)

-- `s8equals` decides equality of byte strings.
pub s8equals_iff : (a b : Bytes) → (s8equals a b ≡ true) ↔ (a ≡ b)
s8equals_iff a b = (eq_of_s8equals a b, λ e. rw e (s8equals_refl b))

pub prefix_len-le : (p : ℕ → Bool) (s : Bytes) → prefix_len p s ≤ length s
unfolding prefix_len
prefix_len-le p [] = omega arith
prefix_len-le p (c ∷ cs) = ground (arith, prefix_len-le p cs)

pub length-skiptokenspace : (s : Bytes) → length (skiptokenspace s) ≤ length s
unfolding skiptokenspace
length-skiptokenspace [] = omega arith
length-skiptokenspace (c ∷ cs) = ground (arith, length-skiptokenspace cs)

-- A token and what follows it are no longer than what they are cut from.
pub length-nexttoken :
    (s : Bytes) → length (nexttoken s).head + length (nexttoken s).tail ≤ length s
unfolding nexttoken
length-nexttoken s =
    let t = skiptokenspace s in
    let len = prefix_len (λ c. not (tokenspace c)) t in
    omega (
      arith,
      length-skiptokenspace s,
      length-take len t,
      length-drop len t,
      prefix_len-le (λ c. not (tokenspace c)) t,
    )
