-- ===== src/Process/Listed.antt =====
-- What the list of the packages is to hold in the middle of `process`: the names that are in it, and
-- those that entries of the stack are to put there.
use u_config.Base.{
  ℕ, suc, Bytes, ◌≡◌, length, Option, none, some, List, [], ◌∷◌, true, if◌then◌else◌,
}
use u_config.S8.{s8equals}
use u_config.Trie.{find}
use u_config.Load.{Pkg}
use u_config.Process.{Pkgs, Procstate, is_loaded}

-- How often a name stands in a list.
unfoldable pub occurrences : Bytes → List Bytes → ℕ
unfolding s8equals
occurrences name [] = 0
occurrences name (x ∷ xs) =
    let rest = occurrences name xs in if s8equals x name then suc rest else rest

-- The package that an entry puts in the list when it is on top again.
abbrev pub named : Option Bytes → List Bytes → List Bytes
named none names = names
named (some name) names = name ∷ names

abbrev pub pending : List Procstate → List Bytes → List Bytes
pending [] names = names
pending (s ∷ stack) names = named s.newpkg (pending stack names)

-- A name with no package stands nowhere, one with a package once, and the package was loaded.
abbrev pub Stands : Bytes → Option Pkg → ℕ → Type 0
Stands name none n = n ≡ 0
Stands name (some p) n = (p.realname ≡ name) × (is_loaded p ≡ true) × (n ≡ 1)

-- A set of packages against the names that are or will be in its list.
pub record IsListed (t : Pkgs) (names : List Bytes) : Type 0 where
  pub each : (name : Bytes) → Stands name (find name t.pkgs) (occurrences name names)
  pub count : t.count ≡ length names
