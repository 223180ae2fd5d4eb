-- ===== src/Settings/Total.antt =====
-- The loop of the options comes to an end.
use mathlib.Core.Path.{subst}
use u_config.Base.{
  ℕ, zero, suc, ◌≤◌, ◌<◌, Bool, true, false, ◌||◌, [], ◌∷◌, Bytes, List, codes, Option, none, some,
  Result, ok, fail, out_of_fuel, ◌>>=◌, length, ◌≡◌, ◌≢◌, ap, ◌∙◌, refl, arith, Bool-cases, inl,
  inr,
}
use u_config.S8.{s8equals, Cut, s8cut}
use u_config.Search.{Search, prependpath}
use u_config.Options.{Options, Optresult, next_loop, nextoption, getargopt, getargopt_in}
use u_config.Settings.{
  Settings, Listing, Applied, continued, printed_usage, printed_version, returned, null_write,
  switches, valued, named, defined, searched, take_value, listed, special, valued_option,
  switch_option, apply_option, apply, options_loop,
}

-- A result with at most `n` arguments left, where the loop goes on.
abbrev Fits : ℕ → Result Applied → Type 0
Fits n (ok (continued p s)) = length p.args ≤ n
Fits n (ok printed_usage) = Unit {0}
Fits n (ok printed_version) = Unit {0}
Fits n (ok returned) = Unit {0}
Fits n (ok null_write) = Unit {0}
Fits n (fail e) = Unit {0}
Fits n out_of_fuel = 0 < 0

length-next_loop :
    (dashdash : Bool) (args : List Bytes) (r : Optresult)
    → (next_loop dashdash args).result ≡ some r
    → length (next_loop dashdash args).options.args < length args
unfolding next_loop
length-next_loop dashdash [] r e = cc
length-next_loop dashdash (arg ∷ args) r e = let rest = length-next_loop true args r in ground arith

listed-Fits :
    (haslisting : Bool) (listing : Listing) (s : Settings) (p : Options) (option : Bytes)
    → Fits (length p.args) (listed haslisting listing s p option)
unfolding listed
listed-Fits true listing s p option = omega arith
listed-Fits false listing s p option = tt

special-Fits :
    (haslisting : Bool) (s : Settings) (p : Options) (option : Bytes)
    → Fits (length p.args) (special haslisting s p option)
unfolding special
special-Fits haslisting s p option =
    elim (Bool-cases (s8equals option (codes "h") || s8equals option (codes "-help"))) [
      | inl e ↦ rw e tt
      | inr n ↦ rw n (elim (Bool-cases (s8equals option (codes "-version"))) [
        | inl e ↦ rw e tt
        | inr n ↦ rw n (elim (Bool-cases (s8equals option (codes "-list-all"))) [
          | inl e ↦ rw e (listed-Fits haslisting _ s p option)
          | inr n ↦ rw n (elim (Bool-cases (s8equals option (codes "-list-package-names"))) [
            | inl e ↦ rw e (listed-Fits haslisting _ s p option)
            | inr n ↦ rw n tt
          ])
        ])
      ])
    ]

abbrev Setter : Type 0
Setter = Settings → Options → Bytes → Result Applied

abbrev AllFit : List (Bytes × Setter) → Type 0
AllFit [] = Unit {0}
AllFit ((n, set) ∷ options) =
    ((s : Settings) (p : Options) (v : Bytes) → Fits (length p.args) (set s p v)) × AllFit options

defined-Fits :
    (s : Settings) (p : Options) (v : Bytes) (c : Cut) → Fits (length p.args) (defined s p v c)
unfolding defined
defined-Fits s p v c = elim (Bool-cases c.ok) [ inl e ↦ rw e (omega arith) | inr n ↦ rw n tt ]

searched-Fits :
    (s : Settings) (p : Options) (found : Option Search)
    → Fits (length p.args) (ok (searched s p found))
unfolding searched
searched-Fits s p none = tt
searched-Fits s p (some search) = omega arith

valued-AllFit : AllFit valued
unfolding valued
valued-AllFit = (
  λ s p v. omega arith,
  (
    λ s p v. searched-Fits s p (prependpath s.search v),
    (
      λ s p v. omega arith,
      (
        λ s p v. defined-Fits s p v (s8cut v b'='),
        (λ s p v. tt, (λ s p v. omega arith, (λ s p v. omega arith, (λ s p v. omega arith, tt)))),
      ),
    ),
  ),
)

named-AllFit :
    (options : List (Bytes × Setter)) (name : Bytes) (set : Setter)
    → AllFit options
    → named options name ≡ some set
    → (s : Settings) (p : Options) (v : Bytes) → Fits (length p.args) (set s p v)
unfolding named
named-AllFit [] name set h e s p v = cc
named-AllFit ((n, first) ∷ options) name set h e s p v = elim (Bool-cases (s8equals name n)) [
  | inl t ↦
      let same : first ≡ set = some_value (rw t at e) in
      subst (λ g. Fits (length p.args) (g s p v)) same (h.0 s p v)
  | inr f ↦ named-AllFit options name set h.1 (rw f at e) s p v
]
  where
    some_value : {a b : Setter} → some a ≡ some b → a ≡ b
    some_value e = cc

Fits-mono : (m n : ℕ) (r : Result Applied) → m ≤ n → Fits m r → Fits n r
Fits-mono m n (ok (continued p s)) l h = omega arith
Fits-mono m n (ok printed_usage) l h = tt
Fits-mono m n (ok printed_version) l h = tt
Fits-mono m n (ok returned) l h = tt
Fits-mono m n (ok null_write) l h = tt
Fits-mono m n (fail e) l h = tt
Fits-mono m n out_of_fuel l h = h

getargopt_in-Fits :
    (args : List Bytes) (dashdash : Bool) (option : Bytes) (set : Setter) (s : Settings)
    → ((p : Options) (v : Bytes) → Fits (length p.args) (set s p v))
    → Fits (length args) (getargopt_in args dashdash option >>= λ a. set s a.options a.value)
unfolding getargopt_in
getargopt_in-Fits [] dashdash option set s h = tt
getargopt_in-Fits (arg ∷ args) dashdash option set s h =
    Fits-mono (length args) (suc (length args)) _ (omega arith) (h _ arg)

take_value-Fits :
    (p : Options) (option : Bytes) (value : Option Bytes) (set : Setter) (s : Settings)
    → ((p' : Options) (v : Bytes) → Fits (length p'.args) (set s p' v))
    → Fits (length p.args) (take_value p option value >>= λ a. set s a.options a.value)
unfolding take_value getargopt
take_value-Fits p option (some v) set s h = h p v
take_value-Fits p option none set s h = getargopt_in-Fits p.args p.dashdash option set s h

valued_option-Fits :
    (haslisting : Bool) (s : Settings) (p : Options) (option : Bytes) (value : Option Bytes)
    → (o : Option Setter) → named valued option ≡ o
    → Fits (length p.args) (valued_option haslisting s p option value o)
unfolding valued_option
valued_option-Fits haslisting s p option value none e = special-Fits haslisting s p option
valued_option-Fits haslisting s p option value (some set) e =
    take_value-Fits p option value set s (named-AllFit valued option set valued-AllFit e s)

switch_option-Fits :
    (haslisting : Bool) (s : Settings) (p : Options) (option : Bytes) (value : Option Bytes)
    → (o : Option (Settings → Settings))
    → Fits (length p.args) (switch_option haslisting s p option value o)
unfolding switch_option
switch_option-Fits haslisting s p option value (some set) = omega arith
switch_option-Fits haslisting s p option value none =
    valued_option-Fits haslisting s p option value (named valued option) refl

apply-Fits :
    (haslisting : Bool) (s : Settings) (p : Options) (r : Optresult)
    → Fits (length p.args) (apply haslisting s p r)
unfolding apply apply_option
apply-Fits haslisting s p r = elim (Bool-cases r.isoption) [
  | inr n ↦ rw n (omega arith)
  | inl t ↦ rw t (switch_option-Fits haslisting s p r.arg r.value (named switches r.arg))
]

-- How the loop goes on from the outcome of an option.
unfoldable pub go_on : ℕ → Bool → Result Applied → Result Applied
go_on f haslisting m = m >>= λ applied. elim applied [
  | continued p' s' ↦ options_loop f haslisting s' p'
  | other ↦ ok other
]

go_on-ne-out_of_fuel :
    (f n : ℕ) (haslisting : Bool) (m : Result Applied)
    → ((s : Settings) (p : Options)
        → length p.args < f
        → options_loop f haslisting s p ≢ out_of_fuel)
    → Fits n m
    → n < f
    → go_on f haslisting m ≢ out_of_fuel
unfolding go_on
go_on-ne-out_of_fuel f n haslisting (ok (continued p s)) ih h l = ih s p (omega arith)
go_on-ne-out_of_fuel f n haslisting (ok printed_usage) ih h l = λ e. cc
go_on-ne-out_of_fuel f n haslisting (ok printed_version) ih h l = λ e. cc
go_on-ne-out_of_fuel f n haslisting (ok returned) ih h l = λ e. cc
go_on-ne-out_of_fuel f n haslisting (ok null_write) ih h l = λ e. cc
go_on-ne-out_of_fuel f n haslisting (fail t) ih h l = λ e. cc
go_on-ne-out_of_fuel f n haslisting out_of_fuel ih h l = λ e. omega arith

pub options_loop-none :
    (f : ℕ) (haslisting : Bool) (s : Settings) (p : Options)
    → (nextoption p).result ≡ none
    → options_loop (suc f) haslisting s p ≡ ok (continued (nextoption p).options s)
unfolding options_loop
options_loop-none f haslisting s p e = rw (e, options_loop) refl

options_loop-some :
    (f : ℕ) (haslisting : Bool) (s : Settings) (p : Options) (r : Optresult)
    → (nextoption p).result ≡ some r
    → options_loop (suc f) haslisting s p
      ≡ go_on f haslisting (apply haslisting s (nextoption p).options r)
unfolding options_loop go_on
options_loop-some f haslisting s p r e = rw (e, options_loop) refl

pub options_loop-next :
    (f : ℕ) (haslisting : Bool) (s : Settings) (p q : Options) (r : Optresult)
    → nextoption p ≡ record { options = q; result = some r }
    → options_loop (suc f) haslisting s p ≡ go_on f haslisting (apply haslisting s q r)
options_loop-next f haslisting s p q r e =
    options_loop-some f haslisting s p r (ap (λ n. n.result) e)
    ∙ ap (λ n. go_on f haslisting (apply haslisting s n.options r)) e

length-nextoption :
    (p : Options) (r : Optresult)
    → (nextoption p).result ≡ some r
    → length (nextoption p).options.args < length p.args
unfolding nextoption
length-nextoption p r e = length-next_loop p.dashdash p.args r e

-- One round, by what `nextoption` returns.
round-ne-out_of_fuel :
    (f : ℕ) (haslisting : Bool) (s : Settings) (p : Options) (o : Option Optresult)
    → ((s' : Settings) (p' : Options)
        → length p'.args < f
        → options_loop f haslisting s' p' ≢ out_of_fuel)
    → length p.args < suc f
    → (nextoption p).result ≡ o
    → options_loop (suc f) haslisting s p ≢ out_of_fuel
round-ne-out_of_fuel f haslisting s p none ih l e =
    rw (options_loop-none f haslisting s p e) (λ w. cc)
round-ne-out_of_fuel f haslisting s p (some r) ih l e =
    let shorter = length-nextoption p r e in
    rw (options_loop-some f haslisting s p r e) (
      go_on-ne-out_of_fuel f (length (nextoption p).options.args) haslisting _ ih
        (apply-Fits haslisting s (nextoption p).options r) (omega arith))

-- With more rounds than there are arguments, the loop of the options ends: they are all read, or one
-- of them ends the program.
pub options_loop-ne-out_of_fuel :
    (f : ℕ) (haslisting : Bool) (s : Settings) (p : Options)
    → length p.args < f
    → options_loop f haslisting s p ≢ out_of_fuel
options_loop-ne-out_of_fuel zero haslisting s p l = λ e. omega arith
options_loop-ne-out_of_fuel (suc f) haslisting s p l =
    round-ne-out_of_fuel f haslisting s p (nextoption p).result
      (options_loop-ne-out_of_fuel f haslisting) l refl
