-- ===== src/S8.antt =====
-- The byte strings of src/u-config.c, `s8`: classes of bytes, slices, tokens and cuts. A slice is
-- the list of its bytes; a pointer that may be null is an `Option`.
pub mod Laws
pub mod Cuts
use u_config.Base.{
  ℕ, suc, zero, ◌+◌, ◌-◌, Bool, true, false, not, ◌&&◌, ◌||◌, List, [], ◌∷◌, Bytes, leb, ◌==◌,
  if◌then◌else◌, length, take, drop, codes,
}
use u_config.Base.Sign.{ℤ, pos, sub_ℕ, is_zero}

unfoldable pub digit : ℕ → Bool
digit c = leb b'0' c && leb c b'9'

unfoldable pub whitespace : ℕ → Bool
whitespace c = c == b'\t' || c == b'\n' || c == b'\r' || c == b' '

unfoldable pub pathsep : ℕ → Bool
pathsep c = c == b'/' || c == b'\\'

unfoldable pub tokenspace : ℕ → Bool
unfolding whitespace
tokenspace c = whitespace c || c == b','

-- `u8compare` of two arrays of one length `n`, the length of either list.
pub u8compare : Bytes → Bytes → ℤ
u8compare (a ∷ as_) (b ∷ bs) =
    let d = sub_ℕ a b in let rest = u8compare as_ bs in if is_zero d then rest else d
u8compare _ _ = pos 0

unfoldable pub s8equals : Bytes → Bytes → Bool
unfolding u8compare
s8equals a b = length a == length b && is_zero (u8compare a b)

unfoldable pub cuthead : Bytes → ℕ → Bytes
cuthead s off = drop off s

unfoldable pub takehead : Bytes → ℕ → Bytes
takehead s len = take len s

unfoldable pub cuttail : Bytes → ℕ → Bytes
cuttail s len = take (length s - len) s

unfoldable pub taketail : Bytes → ℕ → Bytes
unfolding cuthead
taketail s len = cuthead s (length s - len)

unfoldable pub startswith : Bytes → Bytes → Bool
unfolding s8equals takehead
startswith s prefix = leb (length prefix) (length s) && s8equals (takehead s (length prefix)) prefix

pub record S8pair : Type 0 where
  pub head : Bytes
  pub tail : Bytes

-- The index loops `for (; len<s.len && p(s.s[len]); len++)`: how many bytes of the front satisfy `p`.
unfoldable pub prefix_len : (ℕ → Bool) → Bytes → ℕ
prefix_len p [] = 0
prefix_len p (c ∷ cs) = if p c then suc (prefix_len p cs) else 0

unfoldable pub digits : Bytes → S8pair
unfolding prefix_len digit takehead cuthead
digits s = let len = prefix_len digit s in record { head = takehead s len; tail = cuthead s len }

unfoldable pub skiptokenspace : Bytes → Bytes
unfolding tokenspace
skiptokenspace [] = []
skiptokenspace (c ∷ cs) = if tokenspace c then skiptokenspace cs else c ∷ cs

unfoldable pub nexttoken : Bytes → S8pair
unfolding skiptokenspace prefix_len tokenspace takehead cuthead
nexttoken s =
    let t = skiptokenspace s in
    let len = prefix_len (λ c. not (tokenspace c)) t in
    record { head = takehead t len; tail = cuthead t len }

pub record Cut : Type 0 where
  pub head : Bytes
  pub tail : Bytes
  pub ok : Bool

unfoldable pub s8cut : Bytes → ℕ → Cut
unfolding prefix_len takehead cuthead
s8cut s delim =
    let len = prefix_len (λ c. not (c == delim)) s in
    if len == length s
    then record { head = s; tail = cuthead s (length s); ok = false }
    else record { head = takehead s len; tail = cuthead s (len + 1); ok = true }

-- The bytes before the terminator.
unfoldable pub s8fromcstr : Bytes → Bytes
s8fromcstr [] = []
s8fromcstr (c ∷ z) = let s = s8fromcstr z in if c == 0 then [] else c ∷ s
