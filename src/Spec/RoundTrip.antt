-- ===== src/Spec/RoundTrip.antt =====
-- Printed specifications are read back.
use mathlib.Core.List.{reverse, reverse-append}
use u_config.Base.{
  ℕ, suc, zero, ◌+◌, ◌<◌, [], ◌∷◌, ◌++◌, Bytes, List, ◌≡◌, refl, arith, length, length-append, ap,
  sym, ◌∙◌, Option, none, some, fun_ext, map, append-nil, append_assoc, Result, ok, ◌>>=◌,
}
use u_config.S8.{S8pair, nexttoken, tokenspace}
use u_config.Version.{Op, lt, lte, eq, gte, gt, parseop, opname}
use u_config.Spec.{
  Pkgspec, newpkgspec, Specs, closed, opened, checknotop, with_op, after_op, take_token, arg_loop,
  args_loop, dangling, finish, parsespecs,
}
use u_config.Spec.Tokens.{IsToken, nexttoken-token, nexttoken-space}

-- What a user asks for.
pub data Request : Type 0 where
  plain : Bytes → Request
  versioned : Bytes → Op → Bytes → Request

abbrev pub to_spec : Request → Pkgspec
to_spec (plain name) = newpkgspec name
to_spec (versioned name op version) = record { name = name; op = some op; version = some version }

abbrev pub IsName : Bytes → Type 0
IsName name = IsToken name × (parseop name ≡ none)

abbrev pub IsFormed : List Request → Type 0
IsFormed [] = Unit {0}
IsFormed (plain name ∷ rs) = IsName name × IsFormed rs
IsFormed (versioned name op version ∷ rs) = IsName name × IsToken version × IsFormed rs

-- Each token with a space behind it.
abbrev pub print_onto : Request → Bytes → Bytes
print_onto (plain name) rest = name ++ (b' ' ∷ rest)
print_onto (versioned name op version) rest =
    name ++ (b' ' ∷ (opname op ++ (b' ' ∷ (version ++ (b' ' ∷ rest)))))

abbrev pub print_requests : List Request → Bytes
print_requests [] = []
print_requests (r ∷ rs) = print_onto r (print_requests rs)

-- Every operator is read back from its name.
pub parseop-opname : (op : Op) → parseop (opname op) ≡ some op
unfolding parseop opname
parseop-opname lt = refl
parseop-opname lte = refl
parseop-opname eq = refl
parseop-opname gte = refl
parseop-opname gt = refl

opname-IsToken : (op : Op) → IsToken (opname op)
unfolding opname tokenspace
opname-IsToken lt = ((refl, tt), λ e. ground arith)
opname-IsToken lte = ((refl, (refl, tt)), λ e. ground arith)
opname-IsToken eq = ((refl, tt), λ e. ground arith)
opname-IsToken gte = ((refl, (refl, tt)), λ e. ground arith)
opname-IsToken gt = ((refl, tt), λ e. ground arith)

abbrev round : ℕ → Option Bytes → Specs → S8pair → Result Specs
round f p specs sp = elim sp.head [
  | [] ↦ ok specs
  | c ∷ tok ↦ do specs' ← take_token p sp.head specs; arg_loop f p sp.tail specs'
]

arg_loop-round :
    (f : ℕ) (p : Option Bytes) (s : Bytes) (specs : Specs)
    → arg_loop (suc f) p s specs ≡ round f p specs (nexttoken s)
unfolding arg_loop
arg_loop-round f p s specs = refl

arg_loop-space :
    (f : ℕ) (p : Option Bytes) (s : Bytes) (specs : Specs)
    → arg_loop f p (b' ' ∷ s) specs ≡ arg_loop f p s specs
unfolding arg_loop
arg_loop-space zero p s specs = refl
arg_loop-space (suc f) p s specs =
    arg_loop-round f p (b' ' ∷ s) specs
    ∙ ap (round f p specs) (nexttoken-space s)
    ∙ sym (arg_loop-round f p s specs)

arg_loop-token :
    (f : ℕ) (p : Option Bytes) (tok rest : Bytes) (specs : Specs)
    → IsToken tok
    → arg_loop (suc f) p (tok ++ (b' ' ∷ rest)) specs
      ≡ (take_token p tok specs >>= λ specs'. arg_loop f p rest specs')
arg_loop-token f p [] rest specs h = absurd (h.1 refl)
arg_loop-token f p (c ∷ tok) rest specs h =
    arg_loop-round f p ((c ∷ tok) ++ (b' ' ∷ rest)) specs
    ∙ ap (round f p specs) (nexttoken-token (c ∷ tok) rest h)
    ∙ (ap (λ k. take_token p (c ∷ tok) specs >>= k) (fun_ext (arg_loop-space f p rest)))

-- The specification that is open has no operator yet.
abbrev IsSettled : Specs → Type 0
IsSettled (closed head) = Unit {0}
IsSettled (opened pkg head) = pkg.op ≡ none

abbrev pending : Specs → List Pkgspec
pending (closed head) = head
pending (opened pkg head) = pkg ∷ head

abbrev after : Specs → Request → Specs
after specs (plain name) = opened (newpkgspec name) (pending specs)
after specs (versioned name op version) =
    closed (to_spec (versioned name op version) ∷ pending specs)

take_token-name :
    (p : Option Bytes) (name : Bytes) (specs : Specs)
    → IsSettled specs
    → parseop name ≡ none
    → take_token p name specs ≡ ok (opened (newpkgspec name) (pending specs))
unfolding take_token checknotop after_op with_op
take_token-name p name (closed head) s h = rw (h, checknotop) refl
take_token-name p name (opened pkg head) s h =
    ap (λ o. ok (after_op pkg head name o)) s ∙ ap (λ o. ok (with_op pkg head name o)) h

take_token-op :
    (p : Option Bytes) (name : Bytes) (op : Op) (head : List Pkgspec)
    → take_token p (opname op) (opened (newpkgspec name) head)
      ≡ ok (opened (record { name = name; op = some op; version = none }) head)
unfolding take_token after_op with_op
take_token-op p name op head = rw (parseop-opname op, with_op) refl

abbrev settle : Specs → List Request → Specs
settle specs [] = specs
settle specs (r ∷ rs) = settle (after specs r) rs

length-token : (tok rest : Bytes) → length (tok ++ (b' ' ∷ rest)) ≡ length tok + length rest + 1
length-token tok rest = omega (arith, length-append tok (b' ' ∷ rest))

-- A token read with enough fuel leaves enough for the rest.
arg_loop-enough :
    (f : ℕ) (p : Option Bytes) (tok rest : Bytes) (specs : Specs)
    → IsToken tok
    → length (tok ++ (b' ' ∷ rest)) < f
    → (g : ℕ) × (length rest < g)
      × (arg_loop f p (tok ++ (b' ' ∷ rest)) specs
          ≡ (take_token p tok specs >>= λ specs'. arg_loop g p rest specs'))
arg_loop-enough zero p tok rest specs h l = elim l [ ]
arg_loop-enough (suc f) p tok rest specs h l =
    (f, omega (arith, length-token tok rest), arg_loop-token f p tok rest specs h)

-- Reading one printed request.
arg_loop-request :
    (f : ℕ) (p : Option Bytes) (r : Request) (rest : Bytes) (specs : Specs)
    → IsSettled specs
    → IsFormed (r ∷ [])
    → length (print_onto r rest) < f
    → (g : ℕ) × (length rest < g)
      × (arg_loop f p (print_onto r rest) specs ≡ arg_loop g p rest (after specs r))
arg_loop-request f p (plain name) rest specs s h l =
    let (g, k, e) = arg_loop-enough f p name rest specs h.0.0 l in
    (g, k, e ∙ rw (take_token-name p name specs s h.0.1) refl)
arg_loop-request f p (versioned name op version) rest specs s h l =
    let rest1 = version ++ (b' ' ∷ rest) in
    let rest2 = opname op ++ (b' ' ∷ rest1) in
    let named = newpkgspec name in
    let (g2, k2, e2) = arg_loop-enough f p name rest2 specs h.0.0 l in
    let (g1, k1, e1) =
      arg_loop-enough g2 p (opname op) rest1 (opened named (pending specs)) (opname-IsToken op)
        k2 in
    let with_op = record named { op = some op } in
    let (g, k, e) = arg_loop-enough g1 p version rest (opened with_op (pending specs)) h.1 k1 in
    (
      g,
      k,
      e2
          ∙ rw (take_token-name p name specs s h.0.1) (
              e1
              ∙ rw (take_token-op p name op (pending specs))
                  (e ∙ (unfold take_token after_op in refl))),
    )

IsSettled-after : (specs : Specs) (r : Request) → IsSettled (after specs r)
IsSettled-after specs (plain name) = refl
IsSettled-after specs (versioned name op version) = tt

first-IsFormed :
    (r : Request) (rs : List Request) → IsFormed (r ∷ rs) → IsFormed (r ∷ []) × IsFormed rs
first-IsFormed (plain name) rs h = ((h.0, tt), h.1)
first-IsFormed (versioned name op version) rs h = ((h.0, h.1, tt), h.2)

arg_loop_empty :
    (f : ℕ) (p : Option Bytes) (specs : Specs) → 0 < f → arg_loop f p [] specs ≡ ok specs
unfolding arg_loop
arg_loop_empty zero p specs h = elim h [ ]
arg_loop_empty (suc f) p specs h = refl

arg_loop-print :
    (rs : List Request) (f : ℕ) (p : Option Bytes) (specs : Specs)
    → IsSettled specs
    → IsFormed rs
    → length (print_requests rs) < f
    → arg_loop f p (print_requests rs) specs ≡ ok (settle specs rs)
arg_loop-print [] f p specs s h l = arg_loop_empty f p specs (omega arith)
arg_loop-print (r ∷ rs) f p specs s h l =
    let (now, later) = first-IsFormed r rs h in
    let (g, k, e) = arg_loop-request f p r (print_requests rs) specs s now l in
    e ∙ arg_loop-print rs g p (after specs r) (IsSettled-after specs r) later k

finish-settled :
    (p : Option Bytes) (specs : Specs) → IsSettled specs → finish p specs ≡ ok (pending specs)
unfolding finish dangling
finish-settled p (closed head) s = refl
finish-settled p (opened pkg head) s = ap (dangling p pkg head) s

IsSettled-settle :
    (rs : List Request) (specs : Specs) → IsSettled specs → IsSettled (settle specs rs)
IsSettled-settle [] specs s = s
IsSettled-settle (r ∷ rs) specs s = IsSettled-settle rs (after specs r) (IsSettled-after specs r)

pending-after : (specs : Specs) (r : Request) → pending (after specs r) ≡ to_spec r ∷ pending specs
pending-after specs (plain name) = refl
pending-after specs (versioned name op version) = refl

pending-settle :
    (rs : List Request) (specs : Specs)
    → pending (settle specs rs) ≡ reverse (map to_spec rs) ++ pending specs
pending-settle [] specs = refl
pending-settle (r ∷ rs) specs =
    pending-settle rs (after specs r)
    ∙ rw (pending-after specs r) (
        sym (
          ap (λ l. l ++ pending specs) (reverse-append (to_spec r ∷ []) (map to_spec rs))
          ∙ append_assoc (reverse (map to_spec rs)) (to_spec r ∷ []) (pending specs)))

-- Requests that are printed with a space behind each token are read back, the last one first.
pub parsespecs-print :
    (rs : List Request) (p : Option Bytes)
    → IsFormed rs
    → parsespecs (print_requests rs ∷ []) p ≡ ok (reverse (map to_spec rs))
unfolding parsespecs args_loop
parsespecs-print rs p h =
    let s = print_requests rs in
    rw (arg_loop-print rs (suc (length s)) p (closed []) tt h (omega arith)) (
      finish-settled p (settle (closed []) rs) (IsSettled-settle rs (closed []) tt)
      ∙ ap ok (pending-settle rs (closed []) ∙ append-nil _))
