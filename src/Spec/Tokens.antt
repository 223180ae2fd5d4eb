-- ===== src/Spec/Tokens.antt =====
-- The tokens of an argument, and how they are read off printed ones.
use u_config.Base.{
  suc, false, not, [], ◌∷◌, ◌++◌, Bytes, ◌≡◌, ◌≢◌, refl, length, ap, take-append, drop-append,
}
use u_config.S8.{tokenspace, prefix_len, skiptokenspace, nexttoken, takehead, cuthead}

-- Not empty, and with no byte that separates tokens.
abbrev pub AllToken : Bytes → Type 0
AllToken [] = Unit {0}
AllToken (c ∷ s) = (tokenspace c ≡ false) × AllToken s

abbrev pub IsToken : Bytes → Type 0
IsToken s = AllToken s × (s ≢ [])

prefix_len-AllToken :
    (tok rest : Bytes)
    → AllToken tok
    → prefix_len (λ c. not (tokenspace c)) (tok ++ (b' ' ∷ rest)) ≡ length tok
unfolding prefix_len
prefix_len-AllToken [] rest h = unfold tokenspace in refl
prefix_len-AllToken (c ∷ tok) rest h = rw h.0 (ap suc (prefix_len-AllToken tok rest h.1))

skiptokenspace-token : (tok rest : Bytes) → IsToken tok → skiptokenspace (tok ++ rest) ≡ tok ++ rest
unfolding skiptokenspace
skiptokenspace-token [] rest h = absurd (h.1 refl)
skiptokenspace-token (c ∷ tok) rest h = rw h.0.0 refl

-- A token is read off in front of a space.
pub nexttoken-token :
    (tok rest : Bytes)
    → IsToken tok
    → nexttoken (tok ++ (b' ' ∷ rest)) ≡ record { head = tok; tail = b' ' ∷ rest }
unfolding nexttoken takehead cuthead
nexttoken-token tok rest h = rw (skiptokenspace-token tok (b' ' ∷ rest) h) (
    rw (prefix_len-AllToken tok rest h.0)
      (rw (take-append tok (b' ' ∷ rest), drop-append tok (b' ' ∷ rest)) refl))

pub nexttoken-space : (s : Bytes) → nexttoken (b' ' ∷ s) ≡ nexttoken s
unfolding nexttoken skiptokenspace tokenspace
nexttoken-space s = refl
