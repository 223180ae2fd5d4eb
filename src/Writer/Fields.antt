-- ===== src/Writer/Fields.antt =====
-- Reading a field into a writer: the loop ends, and appends the arguments that pass the filter.
use u_config.Base.{
  ℕ, suc, zero, ◌≤◌, [], ◌∷◌, ◌++◌, Bytes, List, ◌≡◌, refl, arith, if◌then◌else◌, length, ap, ◌∙◌,
  Option, none, some, Bool-cases, Option-cases, inl, inr, append_assoc, append-nil, Result, ok,
  fail,
}
use u_config.Dequote.{dequote}
use u_config.Dequote.Laws.{length-dequote_tail}
use u_config.Args.{Args, appendarg}
use u_config.Args.Positions.{Holds, appendarg-Holds}
use u_config.Writer.{
  Filter, FieldWriter, filterok, unmatched_quote, appendfield_loop, with_args, appendfield,
}

-- The arguments of a field, in order; `none` where a quote is open. `n` bounds the field's length.
unfoldable pub arguments_at : ℕ → Bytes → Option (List Bytes)
arguments_at n [] = some []
arguments_at zero (x ∷ field) = none
arguments_at (suc n) (x ∷ field) = elim (dequote (x ∷ field)) [
  | none ↦ none
  | some r ↦ elim (arguments_at n r.tail) [ none ↦ none | some as_ ↦ some (r.arg ∷ as_) ]
]

unfoldable pub arguments : Bytes → Option (List Bytes)
unfolding arguments_at
arguments field = arguments_at (length field) field

-- Those that pass the filter.
abbrev pub passing : Filter → List Bytes → List Bytes
passing f [] = []
passing f (a ∷ as_) = if filterok f a then a ∷ passing f as_ else passing f as_

abbrev pub append_all : Args → List Bytes → Args
append_all args [] = args
append_all args (a ∷ as_) = append_all (appendarg args a) as_

abbrev pub outcome : Filter → Bytes → Args → Option (List Bytes) → Result Args
outcome f realname args none = fail (unmatched_quote realname)
outcome f realname args (some as_) = ok (append_all args (passing f as_))

outcome-cons :
    (f : Filter) (realname : Bytes) (args : Args) (a : Bytes) (rest : Option (List Bytes))
    → outcome f realname (if filterok f a then appendarg args a else args) rest
      ≡ outcome f realname args (elim rest [ none ↦ none | some as_ ↦ some (a ∷ as_) ])
outcome-cons f realname args a none = refl
outcome-cons f realname args a (some as_) = elim (Bool-cases (filterok f a)) [
  | inl e ↦ rw e refl
  | inr e ↦ rw e refl
]

appendfield_loop-outcome :
    (n : ℕ) (f : Filter) (realname field : Bytes) (args : Args)
    → length field ≤ n
    → appendfield_loop n f realname args field ≡ outcome f realname args (arguments_at n field)
unfolding appendfield_loop arguments_at
appendfield_loop-outcome n f realname [] args h = refl
appendfield_loop-outcome zero f realname (x ∷ field) args h = absurd (omega arith)
appendfield_loop-outcome (suc n) f realname (x ∷ field) args h =
    elim (Option-cases (dequote (x ∷ field))) [
      | inl e ↦ rw (e, appendfield_loop, arguments_at) refl
      | inr (r, e) ↦
          let shorter = length-dequote_tail x field r e in
          let args' = if filterok f r.arg then appendarg args r.arg else args in
          rw (e, appendfield_loop, arguments_at)
            (appendfield_loop-outcome n f realname r.tail args' (omega arith)
              ∙ outcome-cons f realname args r.arg (arguments_at n r.tail))
    ]

-- A field is read to its end: its arguments that pass the filter are appended in order, or the
-- program ends because a quote is open.
pub appendfield-outcome :
    (w : FieldWriter) (realname field : Bytes)
    → appendfield w realname field
      ≡ with_args w (outcome w.filter realname w.args (arguments field))
unfolding appendfield arguments
appendfield-outcome w realname field =
    ap (with_args w)
      (appendfield_loop-outcome (length field) w.filter realname field w.args (omega arith))

-- The arguments that a writer holds, after more were appended.
pub append_all-Holds :
    (excluded l : List Bytes) (as_ : List Bytes) (args : Args)
    → Holds excluded l args
    → Holds excluded (l ++ as_) (append_all args as_)
append_all-Holds excluded l [] args h = rw append-nil h
append_all-Holds excluded l (a ∷ as_) args h = rw (← append_assoc l (a ∷ []) as_) (
    append_all-Holds excluded (l ++ (a ∷ [])) as_ (appendarg args a)
      (appendarg-Holds excluded l args a h))
