-- ===== src/Args/Kept.antt =====
-- Which arguments are in position: a specification by the list alone.
use u_config.Base.{
  Bool, not, ◌&&◌, [], ◌∷◌, ◌++◌, Bytes, List, ◌≡◌, arith, if◌then◌else◌, length, codes,
}
use u_config.S8.{startswith}
use u_config.Args.{Args, dedupable, in_place, inposition}
use u_config.Args.Index.{mem, mem-middle, first_index-middle, last_index-middle}
use u_config.Args.Positions.{Holds, position_of}

-- Of the occurrences of one argument: a library stays where it stands last, any other that may be
-- given once where it stands first, and the rest wherever they stand; but what is excluded goes,
-- unless it is a library.
abbrev pub keeps : List Bytes → List Bytes → Bytes → List Bytes → Bool
keeps excluded seen a rest =
    if dedupable a
    then (if startswith a (codes "-l")
        then not (mem a rest)
        else not (mem a excluded) && not (mem a seen))
    else not (mem a excluded)

unfoldable pub kept : List Bytes → List Bytes → List Bytes → List Bytes
unfolding mem
kept excluded seen [] = []
kept excluded seen (a ∷ rest) =
    let later = kept excluded (seen ++ (a ∷ [])) rest in
    if keeps excluded seen a rest then a ∷ later else later

in_place-keeps :
    (excluded seen rest : List Bytes) (a : Bytes)
    → in_place (position_of excluded (seen ++ (a ∷ rest)) a) (length seen)
      ≡ keeps excluded seen a rest
in_place-keeps excluded seen rest a =
    ground
      (arith, mem-middle a seen rest, first_index-middle a seen rest, last_index-middle a seen rest)

-- The test of an argument at its own index.
pub inposition-keeps :
    (excluded seen rest : List Bytes) (a : Bytes) (args : Args)
    → Holds excluded (seen ++ (a ∷ rest)) args
    → inposition args a (length seen) ≡ keeps excluded seen a rest
unfolding inposition
inposition-keeps excluded seen rest a args h =
    rw (h.positions a) (in_place-keeps excluded seen rest a)
