-- ===== src/Package/Total.antt =====
-- The rounds of `parsepackage` are enough, whatever the text.
use u_config.Base.{
  ℕ, suc, zero, ◌-◌, ◌≤◌, ◌||◌, [], ◌∷◌, Bytes, ◌≡◌, ◌≢◌, refl, arith, length, take, Bool-cases,
  inl, inr, ◌==◌, ◌⊎◌, Option, some, none,
}
use u_config.Package.{
  FieldId, Fields, starts_with_byte, skip_white, key_loop, Parsed, ParseResult, parse_ok, dupfield,
  dupvariable, out_of_fuel, Target, variable, field, ignored, duplicate, variable_target,
  field_target, named_target, target, Line, next, stop, assignment, line, parse_loop, parsepackage,
  no_package,
}
use u_config.Package.Scan.{length-skip_white, length-skip_line, length-key_loop, length-read_value}

-- A line leaves at most `n` bytes, or ends the parse for a duplicate.
abbrev pub Leaves : ℕ → Line → Type 0
Leaves n (next pkg rest) = length rest ≤ n
Leaves n (stop (dupfield key)) = Unit {0}
Leaves n (stop (dupvariable key)) = Unit {0}
Leaves n (stop (parse_ok pkg)) = ⊥
Leaves n (stop out_of_fuel) = ⊥

assignment-Leaves_target :
    (pkg : Parsed) (t : Target) (p : Bytes)
    → ((r : ParseResult) → t ≡ duplicate r → Leaves 0 (stop r))
    → Leaves (length p) (assignment pkg t p)
unfolding assignment
assignment-Leaves_target pkg (variable key) p h = length-read_value p
assignment-Leaves_target pkg (field id) p h = length-read_value p
assignment-Leaves_target pkg ignored p h = length-read_value p
assignment-Leaves_target pkg (duplicate (dupfield key)) p h = tt
assignment-Leaves_target pkg (duplicate (dupvariable key)) p h = tt
assignment-Leaves_target pkg (duplicate (parse_ok q)) p h = h (parse_ok q) refl
assignment-Leaves_target pkg (duplicate out_of_fuel) p h = h out_of_fuel refl

abbrev IsDuplicate : Target → Type 0
IsDuplicate (duplicate r) = Leaves 0 (stop r)
IsDuplicate t = Unit {0}

variable-IsDuplicate : (key : Bytes) (old : Option Bytes) → IsDuplicate (variable_target key old)
unfolding variable_target
variable-IsDuplicate key none = tt
variable-IsDuplicate key (some old) = tt

field-IsDuplicate :
    (key : Bytes) (id : FieldId) (old : Option Bytes) → IsDuplicate (field_target key id old)
unfolding field_target
field-IsDuplicate key id none = tt
field-IsDuplicate key id (some old) = tt

named-IsDuplicate :
    (fields : Fields) (key : Bytes) (id : Option FieldId) → IsDuplicate (named_target fields key id)
unfolding named_target
named-IsDuplicate fields key none = tt
named-IsDuplicate fields key (some id) = field-IsDuplicate key id _

target-IsDuplicate : (pkg : Parsed) (c : ℕ) (key : Bytes) → IsDuplicate (target pkg c key)
unfolding target
target-IsDuplicate pkg c key = elim (Bool-cases (c == b'=')) [
  | inl e ↦ rw e (variable-IsDuplicate key _)
  | inr e ↦ rw e (named-IsDuplicate pkg.fields key _)
]

from_IsDuplicate :
    (t : Target) (r : ParseResult) → IsDuplicate t → t ≡ duplicate r → Leaves 0 (stop r)
from_IsDuplicate t r h e = rw e at h

Leaves-mono : (n m : ℕ) (l : Line) → n ≤ m → Leaves n l → Leaves m l
Leaves-mono n m (next pkg rest) h k = omega arith
Leaves-mono n m (stop (dupfield key)) h k = tt
Leaves-mono n m (stop (dupvariable key)) h k = tt
Leaves-mono n m (stop (parse_ok pkg)) h k = k
Leaves-mono n m (stop out_of_fuel) h k = k

line-Leaves : (pkg : Parsed) (p : Bytes) → Leaves (length p - 1) (line pkg p)
unfolding line
line-Leaves pkg p =
    let key = key_loop 0 0 0 p in
    let t = target pkg key.c (take key.end p) in
    elim (Bool-cases (starts_with_byte p b'#')) [
      | inl e ↦ rw e (length-skip_line p)
      | inr e ↦ rw e (elim (Bool-cases (key.c == b'=' || key.c == b':')) [
        | inl k ↦ rw k (
            Leaves-mono (length key.rest) (length p - 1) (assignment pkg t key.rest)
              (length-key_loop 0 0 0 p)
              (assignment-Leaves_target pkg t key.rest
                (λ r. from_IsDuplicate t r (target-IsDuplicate pkg key.c (take key.end p)))))
        | inr k ↦ rw k (length-key_loop 0 0 0 p)
      ])
    ]

pub Line-cases :
    (l : Line)
    → ((pkg : Parsed) × (rest : Bytes) × (l ≡ next pkg rest)) ⊎ ((r : ParseResult) × (l ≡ stop r))
Line-cases (next pkg rest) = inl (pkg, rest, refl)
Line-cases (stop r) = inr (r, refl)

-- What a line leaves is shorter than the text it was read from.
pub length-line_rest :
    (pkg pkg' : Parsed) (c : ℕ) (p rest : Bytes)
    → line pkg (skip_white (c ∷ p)) ≡ next pkg' rest
    → length rest ≤ length p
length-line_rest pkg pkg' c p rest e =
    let l : Leaves (length (skip_white (c ∷ p)) - 1) (next pkg' rest) =
      rw e at (line-Leaves pkg (skip_white (c ∷ p))) in
    omega (arith, length-skip_white (c ∷ p))

stop-ne-out_of_fuel :
    (pkg : Parsed) (p : Bytes) (r : ParseResult) → line pkg p ≡ stop r → r ≢ out_of_fuel
stop-ne-out_of_fuel pkg p r e o =
    let l : Leaves (length p - 1) (stop out_of_fuel) = rw o at (rw e at (line-Leaves pkg p)) in l

parse_loop-ne-out_of_fuel :
    (f : ℕ) (pkg : Parsed) (p : Bytes) → length p ≤ f → parse_loop f pkg p ≢ out_of_fuel
unfolding parse_loop
parse_loop-ne-out_of_fuel zero pkg [] h = cc
parse_loop-ne-out_of_fuel (suc f) pkg [] h = cc
parse_loop-ne-out_of_fuel zero pkg (c ∷ p) h = absurd (omega arith)
parse_loop-ne-out_of_fuel (suc f) pkg (c ∷ p) h =
    elim (Line-cases (line pkg (skip_white (c ∷ p)))) [
      | inl (pkg', rest, e) ↦
          let shorter = length-line_rest pkg pkg' c p rest e in
          rw (e, parse_loop) (parse_loop-ne-out_of_fuel f pkg' rest (omega arith))
      | inr (r, e) ↦ rw (e, parse_loop) (stop-ne-out_of_fuel pkg (skip_white (c ∷ p)) r e)
    ]

-- `parsepackage` returns a package or names a duplicate, on every text.
pub parsepackage-ne-out_of_fuel : (src : Bytes) → parsepackage src ≢ out_of_fuel
unfolding parsepackage
parsepackage-ne-out_of_fuel src =
    parse_loop-ne-out_of_fuel (length src) no_package src (omega arith)
