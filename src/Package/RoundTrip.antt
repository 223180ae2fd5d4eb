-- ===== src/Package/RoundTrip.antt =====
-- Package files that are written out line by line, with comments and escapes, are read back.
use u_config.Base.{
  ℕ, suc, zero, ◌≤◌, Bool, true, ◌&&◌, [], ◌∷◌, ◌++◌, Bytes, List, ◌≡◌, refl, arith, length, inl,
  inr, ◌⊎◌, ap, sym, ◌∙◌, Option, some, none, codes,
}
use u_config.S8.{whitespace}
use u_config.Trie.{find}
use u_config.Env.{bind, value_of}
use u_config.Package.{
  FieldId, name, description, url, version, requires, requires_private, conflicts, libs,
  libs_private, cflags, cflags_private, fieldbyid, set_field, fieldbyname, skip_white, key_loop,
  Parsed, ParseResult, parse_ok, dupfield, dupvariable, variable_target, field_target, named_target,
  target, write, Line, next, stop, line, parse_loop, parsepackage, no_package,
}
use u_config.Package.Total.{Line-cases, length-line_rest}
use u_config.Package.Pieces.{meant}
use u_config.Package.Values.{Layout, IsLayout, IsOneLine, after_end}
use u_config.Package.Lines.{is_key, AllKey, IsKey, line_text, wrote, line-line_text, line-comment}

-- Any number of rounds from the length on gives one result.
parse_loop-bound :
    (f g : ℕ) (pkg : Parsed) (p : Bytes)
    → length p ≤ f
    → length p ≤ g
    → parse_loop f pkg p ≡ parse_loop g pkg p
unfolding parse_loop
parse_loop-bound f g pkg [] h k = refl
parse_loop-bound zero g pkg (c ∷ p) h k = absurd (omega arith)
parse_loop-bound (suc f) zero pkg (c ∷ p) h k = absurd (omega arith)
parse_loop-bound (suc f) (suc g) pkg (c ∷ p) h k =
    elim (Line-cases (line pkg (skip_white (c ∷ p)))) [
      | inl (pkg', rest, e) ↦
          let l = length-line_rest pkg pkg' c p rest e in
          rw (e, parse_loop) (parse_loop-bound f g pkg' rest (omega arith) (omega arith))
      | inr (r, e) ↦ rw (e, parse_loop) refl
    ]

abbrev pub parse_from : Parsed → Bytes → ParseResult
parse_from pkg p = parse_loop (length p) pkg p

abbrev pub followed : Line → ParseResult
followed (next pkg rest) = parse_from pkg rest
followed (stop r) = r

parse_from-line :
    (pkg : Parsed) (c : ℕ) (p : Bytes)
    → parse_from pkg (c ∷ p) ≡ followed (line pkg (skip_white (c ∷ p)))
unfolding parse_loop
parse_from-line pkg c p = elim (Line-cases (line pkg (skip_white (c ∷ p)))) [
  | inl (pkg', rest, e) ↦
      let l = length-line_rest pkg pkg' c p rest e in
      rw (e, parse_loop) (parse_loop-bound (length p) (length rest) pkg' rest l (omega arith))
  | inr (r, e) ↦ rw (e, parse_loop) refl
]

line_empty : (pkg : Parsed) → line pkg [] ≡ next pkg []
unfolding line key_loop
line_empty pkg = refl

-- A newline in front changes nothing.
parse_from-newline :
    (pkg : Parsed) (rest : Bytes) → parse_from pkg (b'\n' ∷ rest) ≡ parse_from pkg rest
unfolding skip_white whitespace
parse_from-newline pkg [] = parse_from-line pkg b'\n' [] ∙ ap followed (line_empty pkg)
parse_from-newline pkg (c ∷ p) = parse_from-line pkg b'\n' (c ∷ p) ∙ sym (parse_from-line pkg c p)

parse_from-text :
    (pkg : Parsed) (key rest : Bytes) (v : Layout) (sep : ℕ)
    → IsKey key
    → IsLayout v
    → (sep ≡ b'=') ⊎ (sep ≡ b':')
    → parse_from pkg (line_text key sep v rest)
      ≡ followed (wrote pkg (target pkg sep key) (meant v.pieces) (after_end v.comment rest))
parse_from-text pkg [] rest v sep k h s = absurd (k.1 refl)
parse_from-text pkg (c ∷ key) rest v sep k h s =
    parse_from-line pkg c _ ∙ ap followed (line-line_text pkg (c ∷ key) rest v sep k h s)

parse_from-after_end :
    (pkg : Parsed) (e : Option Bytes) (rest : Bytes)
    → parse_from pkg (after_end e rest) ≡ parse_from pkg rest
parse_from-after_end pkg none rest = parse_from-newline pkg rest
parse_from-after_end pkg (some comment) rest = refl

-- A line of a package file: a variable, a field, or a comment.
pub data Entry : Type 0 where
  assign : Bytes → Layout → Entry
  declare : FieldId → Layout → Entry
  remark : Bytes → Entry

pub field_name : FieldId → Bytes
field_name name = codes "Name"
field_name description = codes "Description"
field_name url = codes "URL"
field_name version = codes "Version"
field_name requires = codes "Requires"
field_name requires_private = codes "Requires.private"
field_name conflicts = codes "Conflicts"
field_name libs = codes "Libs"
field_name libs_private = codes "Libs.private"
field_name cflags = codes "Cflags"
field_name cflags_private = codes "Cflags.private"

abbrev pub AreEntries : List Entry → Type 0
AreEntries [] = Unit {0}
AreEntries (assign key v ∷ es) = IsKey key × IsLayout v × AreEntries es
AreEntries (declare id v ∷ es) = IsLayout v × AreEntries es
AreEntries (remark text ∷ es) = IsOneLine text × AreEntries es

abbrev pub print_entries : List Entry → Bytes
print_entries [] = []
print_entries (assign key v ∷ es) = line_text key b'=' v (print_entries es)
print_entries (declare id v ∷ es) = line_text (field_name id) b':' v (print_entries es)
print_entries (remark text ∷ es) = b'#' ∷ (text ++ (b'\n' ∷ print_entries es))

-- What the entries mean, one after another: each name is given once.
pub meaning : Parsed → List Entry → ParseResult
meaning pkg [] = parse_ok pkg
meaning pkg (assign key v ∷ es) =
    let rest = meaning (record pkg { env = bind key (meant v.pieces) pkg.env }) es in
    elim (value_of (find key pkg.env)) [ none ↦ rest | some old ↦ dupvariable key ]
meaning pkg (declare id v ∷ es) =
    let rest =
      meaning (record pkg { fields = set_field pkg.fields id (some (meant v.pieces)) }) es in
    elim (fieldbyid pkg.fields id) [ none ↦ rest | some old ↦ dupfield (field_name id) ]
meaning pkg (remark text ∷ es) = meaning pkg es

-- Every field is found by its name.
pub fieldbyname-field_name : (id : FieldId) → fieldbyname (field_name id) ≡ some id
unfolding fieldbyname field_name
fieldbyname-field_name name = refl
fieldbyname-field_name description = refl
fieldbyname-field_name url = refl
fieldbyname-field_name version = refl
fieldbyname-field_name requires = refl
fieldbyname-field_name requires_private = refl
fieldbyname-field_name conflicts = refl
fieldbyname-field_name libs = refl
fieldbyname-field_name libs_private = refl
fieldbyname-field_name cflags = refl
fieldbyname-field_name cflags_private = refl

all_keys : Bytes → Bool
all_keys [] = true
all_keys (c ∷ s) = is_key c && all_keys s

AllKey-of : (s : Bytes) → all_keys s ≡ true → AllKey s
unfolding all_keys
AllKey-of [] h = tt
AllKey-of (c ∷ s) h = (ground arith, AllKey-of s (ground arith))

field_name-IsKey : (id : FieldId) → IsKey (field_name id)
unfolding field_name is_key whitespace all_keys
field_name-IsKey name = (AllKey-of (codes "Name") refl, λ e. cc)
field_name-IsKey description = (AllKey-of (codes "Description") refl, λ e. cc)
field_name-IsKey url = (AllKey-of (codes "URL") refl, λ e. cc)
field_name-IsKey version = (AllKey-of (codes "Version") refl, λ e. cc)
field_name-IsKey requires = (AllKey-of (codes "Requires") refl, λ e. cc)
field_name-IsKey requires_private = (AllKey-of (codes "Requires.private") refl, λ e. cc)
field_name-IsKey conflicts = (AllKey-of (codes "Conflicts") refl, λ e. cc)
field_name-IsKey libs = (AllKey-of (codes "Libs") refl, λ e. cc)
field_name-IsKey libs_private = (AllKey-of (codes "Libs.private") refl, λ e. cc)
field_name-IsKey cflags = (AllKey-of (codes "Cflags") refl, λ e. cc)
field_name-IsKey cflags_private = (AllKey-of (codes "Cflags.private") refl, λ e. cc)

target_variable :
    (pkg : Parsed) (key : Bytes)
    → target pkg b'=' key ≡ variable_target key (value_of (find key pkg.env))
unfolding target
target_variable pkg key = refl

target_field :
    (pkg : Parsed) (id : FieldId)
    → target pkg b':' (field_name id) ≡ field_target (field_name id) id (fieldbyid pkg.fields id)
unfolding target named_target
target_field pkg id = ap (named_target pkg.fields (field_name id)) (fieldbyname-field_name id)

abbrev unless_given : Option Bytes → ParseResult → ParseResult → ParseResult
unless_given none rest dup = rest
unless_given (some old) rest dup = dup

variable_followed :
    (old : Option Bytes) (pkg : Parsed) (key v rest : Bytes)
    → followed (wrote pkg (variable_target key old) v rest)
      ≡ unless_given old
          (parse_from (record pkg { env = bind key v pkg.env }) rest)
          (dupvariable key)
unfolding variable_target write
variable_followed none pkg key v rest = refl
variable_followed (some o) pkg key v rest = refl

field_followed :
    (old : Option Bytes) (pkg : Parsed) (id : FieldId) (key v rest : Bytes)
    → followed (wrote pkg (field_target key id old) v rest)
      ≡ unless_given old
          (parse_from (record pkg { fields = set_field pkg.fields id (some v) }) rest)
          (dupfield key)
unfolding field_target write
field_followed none pkg id key v rest = refl
field_followed (some o) pkg id key v rest = refl

meaning-assign :
    (pkg : Parsed) (key : Bytes) (v : Layout) (es : List Entry)
    → meaning pkg (assign key v ∷ es)
      ≡ unless_given
          (value_of (find key pkg.env))
          (meaning (record pkg { env = bind key (meant v.pieces) pkg.env }) es)
          (dupvariable key)
unfolding meaning
meaning-assign pkg key v es = ground arith

meaning_declare :
    (pkg : Parsed) (id : FieldId) (v : Layout) (es : List Entry)
    → meaning pkg (declare id v ∷ es)
      ≡ unless_given
          (fieldbyid pkg.fields id)
          (meaning (record pkg { fields = set_field pkg.fields id (some (meant v.pieces)) }) es)
          (dupfield (field_name id))
unfolding meaning
meaning_declare pkg id v es = ground arith

meaning_remark :
    (pkg : Parsed) (text : Bytes) (es : List Entry)
    → meaning pkg (remark text ∷ es) ≡ meaning pkg es
unfolding meaning
meaning_remark pkg text es = refl

-- Reading the text of entries does what the entries mean.
parse_from-entries :
    (es : List Entry) (pkg : Parsed)
    → AreEntries es
    → parse_from pkg (print_entries es) ≡ meaning pkg es
parse_from-entries [] pkg h = unfold parse_loop meaning in refl
parse_from-entries (assign key v ∷ es) pkg (k, val, h) =
    let pkg' = record pkg { env = bind key (meant v.pieces) pkg.env } in
    let old = value_of (find key pkg.env) in
    let text = print_entries es in
    parse_from-text pkg key text v b'=' k val (inl refl)
    ∙ ap (λ t. followed (wrote pkg t (meant v.pieces) (after_end v.comment text)))
        (target_variable pkg key)
    ∙ variable_followed old pkg key (meant v.pieces) (after_end v.comment text)
    ∙ ap (λ r. unless_given old r (dupvariable key))
        (parse_from-after_end pkg' v.comment text ∙ parse_from-entries es pkg' h)
    ∙ sym (meaning-assign pkg key v es)
parse_from-entries (declare id v ∷ es) pkg (val, h) =
    let pkg' = record pkg { fields = set_field pkg.fields id (some (meant v.pieces)) } in
    let old = fieldbyid pkg.fields id in
    let text = print_entries es in
    parse_from-text pkg (field_name id) text v b':' (field_name-IsKey id) val (inr refl)
    ∙ ap (λ t. followed (wrote pkg t (meant v.pieces) (after_end v.comment text)))
        (target_field pkg id)
    ∙ field_followed old pkg id (field_name id) (meant v.pieces) (after_end v.comment text)
    ∙ ap (λ r. unless_given old r (dupfield (field_name id)))
        (parse_from-after_end pkg' v.comment text ∙ parse_from-entries es pkg' h)
    ∙ sym (meaning_declare pkg id v es)
parse_from-entries (remark comment ∷ es) pkg (c, h) =
    parse_from-line pkg b'#' _
    ∙ ap followed (line-comment pkg comment (print_entries es) c)
    ∙ parse_from-entries es pkg h
    ∙ sym (meaning_remark pkg comment es)

-- A file of lines is parsed as they mean, a variable or a field that is given twice included. A line is a
-- comment, or a nonempty name of a variable with no white space, `=`, `:` or `#`, and `=`, or the name of a
-- field and `:`; then blanks, a value, blanks, and a comment or none. The value is written with an escape
-- before each `#` that is in it, may be broken by escaped newlines, which are taken out, and has no other
-- backslash or newline; it neither begins nor ends with white space or an escaped newline.
pub parsepackage-print_entries :
    (es : List Entry) → AreEntries es → parsepackage (print_entries es) ≡ meaning no_package es
unfolding parsepackage
parsepackage-print_entries es h = parse_from-entries es no_package h
