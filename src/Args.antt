-- ===== src/Args.antt =====
-- The argument list of src/u-config.c, `args`: which of repeated arguments are kept.
pub mod Index
pub mod Positions
pub mod Kept
use u_config.Base.{
  ℕ, suc, zero, ◌+◌, Bool, true, false, not, ◌&&◌, ◌||◌, [], ◌∷◌, ◌++◌, Bytes, List, ltb, ◌==◌,
  if◌then◌else◌, codes, Option, none, some, length,
}
use u_config.Base.Sign.{ℤ, pos, negsuc, is_zero}
use u_config.S8.{s8equals, startswith}
use u_config.Trie.{Trie, leaf, find, insert, assign}
use u_config.Search.{append}

-- The byte at an index of the string; an index out of range is not read.
unfoldable pub byte_is : Bytes → ℕ → ℕ → Bool
byte_is [] i c = false
byte_is (x ∷ s) zero c = x == c
byte_is (x ∷ s) (suc i) c = byte_is s i c

-- `arg.s[1]` against each of the flags
unfoldable pub flag_loop : Bytes → Bytes → Bool
unfolding byte_is
flag_loop arg [] = false
flag_loop arg (c ∷ flags) = if byte_is arg 1 c then true else flag_loop arg flags

unfoldable pub dedupable : Bytes → Bool
unfolding flag_loop s8equals
dedupable arg =
    if ltb (length arg) 3 || not (byte_is arg 0 b'-')
    then false
    else if s8equals arg (codes "-pthread")
    then true
    else flag_loop arg (codes "DILflm")

-- A position is the index plus one, zero for none yet, and -1 for an argument to leave out.
pub record Args : Type 0 where
  pub list : List Bytes
  pub positions : Trie ℤ
  pub count : ℕ

abbrev pub no_args : Args
no_args = record { list = []; positions = leaf; count = 0 }

-- The position behind the pointer of `findargpos`.
abbrev pub position_in : Option ℤ → ℤ
position_in none = pos 0
position_in (some z) = z

-- The node of `findargpos`, with its position set where it was zero or the argument is a library.
unfoldable pub place : Bytes → ℕ → Trie ℤ → Trie ℤ
unfolding startswith
place arg position positions =
    let found = insert arg (pos 0) positions in
    if is_zero (position_in (find arg found)) || startswith arg (codes "-l")
    then assign arg (pos (1 + position)) found
    else found

unfoldable pub appendarg : Args → Bytes → Args
unfolding append dedupable place
appendarg args arg =
    let position = args.count in
    record {
      list = append args.list arg;
      positions = if dedupable arg then place arg position args.positions else args.positions;
      count = args.count + 1;
    }

unfoldable pub excludearg : Args → Bytes → Args
excludearg args arg = record args {
  positions = assign arg (negsuc 0) (insert arg (pos 0) args.positions);
}

abbrev pub is_position : ℤ → ℕ → Bool
is_position (pos n) i = n == i
is_position (negsuc n) i = false

abbrev pub in_place : Option ℤ → ℕ → Bool
in_place none position = true
in_place (some z) position = is_position z (position + 1)

unfoldable pub inposition : Args → Bytes → ℕ → Bool
inposition args arg position = in_place (find arg args.positions) position
