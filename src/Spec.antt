-- ===== src/Spec.antt =====
-- `parsespecs` of src/u-config.c: package specifications, a name with an operator and a version.
pub mod Tokens
pub mod Laws
pub mod RoundTrip
use u_config.Base.{
  ℕ, suc, zero, ◌+◌, Bool, true, false, not, ◌&&◌, ◌||◌, [], ◌∷◌, ◌++◌, Bytes, List, if◌then◌else◌,
  codes, Option, none, some, length, Result, ok, fail, out_of_fuel, ◌>>=◌,
}
use u_config.S8.{nexttoken}
use u_config.Version.{Op, parseop, opname}

pub record Pkgspec : Type 0 where
  pub name : Bytes
  pub op : Option Op
  pub version : Option Bytes

abbrev pub newpkgspec : Bytes → Pkgspec
newpkgspec name = record { name = name; op = none; version = none }

-- The list `head` and the pointer `pkg`, which is null or points to the first of the list.
pub data Specs : Type 0 where
  closed : List Pkgspec → Specs
  opened : Pkgspec → List Pkgspec → Specs

-- The package that the messages name, if there is one.
unfoldable pub in_package : Option Bytes → Bytes
in_package none = []
in_package (some realname) = codes " in package '" ++ (realname ++ codes "'")

unfoldable pub unexpected_operator : Bytes → Option Bytes → Bytes
unfolding in_package
unexpected_operator tok p =
    codes "pkg-config: "
    ++ (codes "unexpected operator '" ++ (tok ++ (codes "'" ++ (in_package p ++ codes "\n"))))

unfoldable pub expected_version : Op → Option Bytes → Bytes
unfolding in_package opname
expected_version op p =
    codes "pkg-config: "
    ++ (codes "expected version following operator " ++ (opname op ++ (in_package p ++ codes "\n")))

-- `checknotop`
unfoldable pub checknotop : Bytes → Option Bytes → Specs → Result Specs
unfolding parseop unexpected_operator
checknotop tok p next = elim (parseop tok) [
  | some op ↦ fail (unexpected_operator tok p)
  | none ↦ ok next
]

unfoldable pub with_op : Pkgspec → List Pkgspec → Bytes → Option Op → Specs
with_op pkg head tok (some op) = opened (record pkg { op = some op }) head
with_op pkg head tok none = opened (newpkgspec tok) (pkg ∷ head)

unfoldable pub after_op : Pkgspec → List Pkgspec → Bytes → Option Op → Specs
unfolding with_op parseop
after_op pkg head tok none = with_op pkg head tok (parseop tok)
after_op pkg head tok (some op) = closed (record pkg { version = some tok } ∷ head)

-- One token.
unfoldable pub take_token : Option Bytes → Bytes → Specs → Result Specs
unfolding checknotop after_op
take_token p tok (closed head) = checknotop tok p (opened (newpkgspec tok) head)
take_token p tok (opened pkg head) = ok (after_op pkg head tok pkg.op)

-- `for (;;)` over one argument; a round reads a token that is not empty.
unfoldable pub arg_loop : ℕ → Option Bytes → Bytes → Specs → Result Specs
unfolding nexttoken take_token
arg_loop zero p s specs = out_of_fuel
arg_loop (suc f) p s specs =
    let sp = nexttoken s in
    elim sp.head [
      | [] ↦ ok specs
      | c ∷ tok ↦ do specs' ← take_token p sp.head specs; arg_loop f p sp.tail specs'
    ]

unfoldable pub args_loop : Option Bytes → List Bytes → Specs → Result Specs
unfolding arg_loop
args_loop p [] specs = ok specs
args_loop p (arg ∷ args) specs = do
  specs' ← arg_loop (suc (length arg)) p arg specs
  args_loop p args specs'

unfoldable pub dangling : Option Bytes → Pkgspec → List Pkgspec → Option Op → Result (List Pkgspec)
unfolding expected_version
dangling p pkg head none = ok (pkg ∷ head)
dangling p pkg head (some op) = elim pkg.version [
  | none ↦ fail (expected_version op p)
  | some v ↦ ok (pkg ∷ head)
]

unfoldable pub finish : Option Bytes → Specs → Result (List Pkgspec)
unfolding dangling
finish p (closed head) = ok head
finish p (opened pkg head) = dangling p pkg head pkg.op

unfoldable pub parsespecs : List Bytes → Option Bytes → Result (List Pkgspec)
unfolding args_loop finish
parsespecs args p = do specs ← args_loop p args (closed []); finish p specs
