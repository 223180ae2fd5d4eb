-- ===== src/Version/Key.antt =====
-- A version as a list of numbers whose lexicographic order is the order of versions: a byte that is
-- no digit stands for itself, and a run of digits for a zero digit, its length and its digits.
use u_config.Base.{
  arith, ℕ, suc, Bool, true, false, [], ◌∷◌, ◌++◌, Bytes, if◌then◌else◌, List, ◌≡◌, refl, ap,
  Bool-cases, inl, inr, take, drop,
}
use u_config.S8.{digit, prefix_len}

abbrev pub key_at : Bool → Bytes → List ℕ
key_at inside [] = []
key_at true (c ∷ cs) = if digit c then c ∷ key_at true cs else c ∷ key_at false cs
key_at false (c ∷ cs) =
    if digit c then b'0' ∷ suc (prefix_len digit cs) ∷ c ∷ key_at true cs else c ∷ key_at false cs

unfoldable pub version_key : Bytes → List ℕ
version_key s = key_at false s

-- Behind a whole run of digits it makes no difference that one stood there.
pub key_at-run :
    (s : Bytes)
    → key_at true s ≡ take (prefix_len digit s) s ++ key_at false (drop (prefix_len digit s) s)
unfolding prefix_len
key_at-run [] = refl
key_at-run (c ∷ cs) = elim (Bool-cases (digit c)) [
  | inl d ↦ rw d (ap (◌∷◌ c) (key_at-run cs))
  | inr n ↦ rw n (rw n)
]

key_at-injective : (inside : Bool) (s t : Bytes) → key_at inside s ≡ key_at inside t → s ≡ t
unfolding digit
key_at-injective true [] [] e = refl
key_at-injective false [] [] e = refl
key_at-injective true [] (d ∷ t) e = ground arith
key_at-injective false [] (d ∷ t) e = ground arith
key_at-injective true (c ∷ s) [] e = ground arith
key_at-injective false (c ∷ s) [] e = ground arith
key_at-injective true (c ∷ s) (d ∷ t) e =
    ground (arith, key_at-injective true s t, key_at-injective false s t)
key_at-injective false (c ∷ s) (d ∷ t) e =
    ground (arith, key_at-injective true s t, key_at-injective false s t)

pub version_key-injective : (s t : Bytes) → version_key s ≡ version_key t → s ≡ t
unfolding version_key
version_key-injective s t e = key_at-injective false s t e
