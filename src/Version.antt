-- ===== src/Version.antt =====
-- Version operators and `compareversions` of src/u-config.c. `versop_ERR` is `none`, so that the
-- functions which assert another operator take an `Op`.
pub mod Key
pub mod Lex
pub mod Order
use u_config.Base.{
  ℕ, suc, zero, Bool, true, false, not, ◌||◌, [], ◌∷◌, Bytes, ltb, if◌then◌else◌, length, codes,
  Option, none, some,
}
use u_config.Base.Sign.{ℤ, pos, negsuc, is_zero, is_neg}
use u_config.S8.{digit, digits, s8equals}

pub data Op : Type 0 where
  lt lte eq gte gt : Op

unfoldable pub parseop : Bytes → Option Op
unfolding s8equals
parseop s =
    if s8equals (codes "<") s
    then some lt
    else if s8equals (codes "<=") s
    then some lte
    else if s8equals (codes "=") s
    then some eq
    else if s8equals (codes ">=") s
    then some gte
    else if s8equals (codes ">") s
    then some gt
    else none

unfoldable pub opname : Op → Bytes
opname lt = codes "<"
opname lte = codes "<="
opname eq = codes "="
opname gte = codes ">="
opname gt = codes ">"

unfoldable pub validcompare : Op → ℤ → Bool
validcompare lt result = is_neg result
validcompare lte result = is_neg result || is_zero result
validcompare eq result = is_zero result
validcompare gte result = not (is_neg result)
validcompare gt result = not (is_neg result || is_zero result)

-- The comparison of two runs of digits of one length; `none` when the loop ends.
pub compare_runs : Bytes → Bytes → Option ℤ
compare_runs (a ∷ pa) (b ∷ pb) =
    let rest = compare_runs pa pb in
    if ltb a b then some (negsuc 0) else if ltb b a then some (pos 1) else rest
compare_runs _ _ = none

-- `va` and `vb` from the index `i` on: the bytes before it are equal and of one number, so the last
-- comparison of lengths is that of what is left.
pub compare_loop : ℕ → Bytes → Bytes → Option ℤ
compare_loop zero va vb = none
compare_loop (suc f) (a ∷ va) (b ∷ vb) =
    let pa = digits (a ∷ va) in
    let pb = digits (b ∷ vb) in
    let next = compare_loop f va vb in
    let after = compare_loop f pa.tail pb.tail in
    if not (digit a) || not (digit b)
    then (if ltb a b then some (negsuc 0) else if ltb b a then some (pos 1) else next)
    else if ltb (length pa.head) (length pb.head)
    then some (negsuc 0)
    else if ltb (length pb.head) (length pa.head)
    then some (pos 1)
    else elim (compare_runs pa.head pb.head) [ some r ↦ some r | none ↦ after ]
compare_loop (suc f) va vb =
    if ltb (length va) (length vb)
    then some (negsuc 0)
    else if ltb (length vb) (length va)
    then some (pos 1)
    else some (pos 0)

-- Each round takes a byte at least, so the fuel is enough; `Order.compareversions-lex` shows it.
unfoldable pub compareversions : Bytes → Bytes → Option ℤ
unfolding compare_loop compare_runs digits digit
compareversions va vb = compare_loop (suc (length va)) va vb
