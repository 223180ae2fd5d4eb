-- ===== src/Program/Fields.antt =====
-- The arguments of all fields together, and a writer that reads the fields.
use u_config.Base.{
  Bool, true, false, [], ◌∷◌, ◌++◌, Bytes, List, if◌then◌else◌, Option, none, some, Result, ok,
  fail, out_of_fuel, ◌>>=◌, >>=_same, >>=_assoc, ◌≡◌, refl, ap, ◌∙◌, Bool-cases, inl, inr,
}
use u_config.Load.{Pkg, text_of}
use u_config.Args.{Args, appendarg}
use u_config.Writer.{Filter, FieldWriter, unmatched_quote, with_args, appendfield}
use u_config.Writer.Fields.{arguments, passing, append_all, outcome, appendfield-outcome}
use u_config.Program.{appendcflags, appendlibs_of, appendlibs}

-- The fields that are read of the packages, with the names of the packages, in order.
abbrev pub cflags_fields : Bool → List Pkg → List (Bytes × Bytes)
cflags_fields static_ [] = []
cflags_fields static_ (p ∷ pkgs) =
    (p.realname, text_of p.fields.cflags)
    ∷ ((if static_ then (p.realname, text_of p.fields.cflags_private) ∷ [] else [])
        ++ cflags_fields static_ pkgs)

-- Without `--static`, only those of the packages that are required in public.
abbrev pub libs_fields : Bool → List Pkg → List (Bytes × Bytes)
libs_fields static_ [] = []
libs_fields static_ (p ∷ pkgs) =
    (if static_
      then (p.realname, text_of p.fields.libs) ∷ (p.realname, text_of p.fields.libs_private) ∷ []
      else if p.flags.public
      then (p.realname, text_of p.fields.libs) ∷ []
      else [])
    ++ libs_fields static_ pkgs

abbrev pub read_field : Filter → Bytes → Option (List Bytes) → Result (List Bytes)
read_field f realname none = fail (unmatched_quote realname)
read_field f realname (some as_) = ok (passing f as_)

-- The arguments of all fields that pass the filter, or the first field with an open quote.
abbrev pub gathered : Filter → List (Bytes × Bytes) → Result (List Bytes)
gathered f [] = ok []
gathered f ((realname, field) ∷ fields) = do
  as_ ← read_field f realname (arguments field)
  rest ← gathered f fields
  ok (as_ ++ rest)

abbrev pub append_fields : FieldWriter → List (Bytes × Bytes) → Result FieldWriter
append_fields w [] = ok w
append_fields w ((realname, field) ∷ fields) = do
  w' ← appendfield w realname field
  append_fields w' fields

abbrev pub appended : FieldWriter → Result (List Bytes) → Result FieldWriter
appended w (ok l) = ok (record w { args = append_all w.args l })
appended w (fail e) = fail e
appended w out_of_fuel = out_of_fuel

append_all-append :
    (k l : List Bytes) (args : Args) → append_all (append_all args k) l ≡ append_all args (k ++ l)
append_all-append [] l args = refl
append_all-append (a ∷ k) l args = append_all-append k l (appendarg args a)

appended-next :
    (w : FieldWriter) (k : List Bytes) (r : Result (List Bytes))
    → appended (record w { args = append_all w.args k }) r
      ≡ appended w (r >>= λ rest. ok (k ++ rest))
appended-next w k (ok l) = ap (λ a. ok (record w { args = a })) (append_all-append k l w.args)
appended-next w k (fail e) = refl
appended-next w k out_of_fuel = refl

append_fields-read :
    (w : FieldWriter) (realname : Bytes) (fields : List (Bytes × Bytes))
    (words : Option (List Bytes))
    → ((w' : FieldWriter) → append_fields w' fields ≡ appended w' (gathered w'.filter fields))
    → (with_args w (outcome w.filter realname w.args words) >>= λ w'. append_fields w' fields)
      ≡ appended w (
          read_field w.filter realname words >>= λ as_.
          (gathered w.filter fields >>= λ rest. ok (as_ ++ rest)))
unfolding with_args
append_fields-read w realname fields none ih = refl
append_fields-read w realname fields (some as_) ih =
    ih (record w { args = append_all w.args (passing w.filter as_) })
    ∙ appended-next w (passing w.filter as_) (gathered w.filter fields)

pub append_fields-gathered :
    (fields : List (Bytes × Bytes)) (w : FieldWriter)
    → append_fields w fields ≡ appended w (gathered w.filter fields)
append_fields-gathered [] w = refl
append_fields-gathered ((realname, field) ∷ fields) w =
    ap (λ r. r >>= λ w'. append_fields w' fields) (appendfield-outcome w realname field)
    ∙ append_fields-read w realname fields (arguments field) (append_fields-gathered fields)

pub appendcflags-append_fields :
    (static_ : Bool) (pkgs : List Pkg) (w : FieldWriter)
    → appendcflags static_ w pkgs ≡ append_fields w (cflags_fields static_ pkgs)
unfolding appendcflags
appendcflags-append_fields static_ [] w = refl
appendcflags-append_fields true (p ∷ pkgs) w =
    >>=_same (appendfield w p.realname (text_of p.fields.cflags)) _ _ λ w'.
      >>=_same (appendfield w' p.realname (text_of p.fields.cflags_private)) _ _
        λ w''. appendcflags-append_fields true pkgs w''
appendcflags-append_fields false (p ∷ pkgs) w =
    >>=_same (appendfield w p.realname (text_of p.fields.cflags)) _ _
      λ w'. appendcflags-append_fields false pkgs w'

pub appendlibs-append_fields :
    (static_ : Bool) (pkgs : List Pkg) (w : FieldWriter)
    → appendlibs static_ w pkgs ≡ append_fields w (libs_fields static_ pkgs)
unfolding appendlibs appendlibs_of
appendlibs-append_fields static_ [] w = refl
appendlibs-append_fields true (p ∷ pkgs) w =
    >>=_assoc (appendfield w p.realname (text_of p.fields.libs)) _ _
    ∙ (>>=_same (appendfield w p.realname (text_of p.fields.libs)) _ _ λ w'.
        >>=_same (appendfield w' p.realname (text_of p.fields.libs_private)) _ _
          λ w''. appendlibs-append_fields true pkgs w'')
appendlibs-append_fields false (p ∷ pkgs) w = elim (Bool-cases p.flags.public) [
  | inl e ↦ rw e (
      >>=_same (appendfield w p.realname (text_of p.fields.libs)) _ _
        λ w'. appendlibs-append_fields false pkgs w')
  | inr n ↦ rw n (appendlibs-append_fields false pkgs w)
]
