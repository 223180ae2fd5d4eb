-- ===== src/Package.antt =====
-- Packages of src/u-config.c: `fieldbyid`, `fieldbyname`, `stripescapes` and `parsepackage`.
pub mod Scan
pub mod Total
pub mod Pieces
pub mod Values
pub mod Lines
pub mod RoundTrip
use u_config.Base.{
  ℕ, suc, zero, ◌+◌, ◌-◌, Bool, true, false, not, ◌&&◌, ◌||◌, [], ◌∷◌, ◌++◌, Bytes, List,
  if◌then◌else◌, codes, Option, none, some, length, take, drop, ◌==◌,
}
use u_config.S8.{whitespace, s8equals, startswith}
use u_config.Trie.{leaf, find, insert}
use u_config.Env.{Env, bind, value_of}

-- The fields, in the order of their ids.
pub data FieldId : Type 0 where
  name description url version requires requires_private : FieldId
  conflicts libs libs_private cflags cflags_private : FieldId

pub record Fields : Type 0 where
  pub name : Option Bytes
  pub description : Option Bytes
  pub url : Option Bytes
  pub version : Option Bytes
  pub requires : Option Bytes
  pub requires_private : Option Bytes
  pub conflicts : Option Bytes
  pub libs : Option Bytes
  pub libs_private : Option Bytes
  pub cflags : Option Bytes
  pub cflags_private : Option Bytes

abbrev pub no_fields : Fields
no_fields = record {
  name = none;
  description = none;
  url = none;
  version = none;
  requires = none;
  requires_private = none;
  conflicts = none;
  libs = none;
  libs_private = none;
  cflags = none;
  cflags_private = none;
}

-- `*fieldbyid(p, id)`, read and written
unfoldable pub fieldbyid : Fields → FieldId → Option Bytes
fieldbyid p FieldId.name = p.name
fieldbyid p FieldId.description = p.description
fieldbyid p FieldId.url = p.url
fieldbyid p FieldId.version = p.version
fieldbyid p FieldId.requires = p.requires
fieldbyid p FieldId.requires_private = p.requires_private
fieldbyid p FieldId.conflicts = p.conflicts
fieldbyid p FieldId.libs = p.libs
fieldbyid p FieldId.libs_private = p.libs_private
fieldbyid p FieldId.cflags = p.cflags
fieldbyid p FieldId.cflags_private = p.cflags_private

unfoldable pub set_field : Fields → FieldId → Option Bytes → Fields
set_field p FieldId.name v = record p { name = v }
set_field p FieldId.description v = record p { description = v }
set_field p FieldId.url v = record p { url = v }
set_field p FieldId.version v = record p { version = v }
set_field p FieldId.requires v = record p { requires = v }
set_field p FieldId.requires_private v = record p { requires_private = v }
set_field p FieldId.conflicts v = record p { conflicts = v }
set_field p FieldId.libs v = record p { libs = v }
set_field p FieldId.libs_private v = record p { libs_private = v }
set_field p FieldId.cflags v = record p { cflags = v }
set_field p FieldId.cflags_private v = record p { cflags_private = v }

abbrev pub field_names : List (Bytes × FieldId)
field_names =
    (codes "Name", FieldId.name)
    ∷ (codes "Description", FieldId.description)
    ∷ (codes "URL", FieldId.url)
    ∷ (codes "Version", FieldId.version)
    ∷ (codes "Requires", FieldId.requires)
    ∷ (codes "Requires.private", FieldId.requires_private)
    ∷ (codes "Conflicts", FieldId.conflicts)
    ∷ (codes "Libs", FieldId.libs)
    ∷ (codes "Libs.private", FieldId.libs_private)
    ∷ (codes "Cflags", FieldId.cflags)
    ∷ (codes "Cflags.private", FieldId.cflags_private)
    ∷ []

unfoldable pub named_in : List (Bytes × FieldId) → Bytes → Option FieldId
unfolding s8equals
named_in [] key = none
named_in ((field, id) ∷ fields) key = if s8equals field key then some id else named_in fields key

unfoldable pub fieldbyname : Bytes → Option FieldId
unfolding named_in
fieldbyname key = named_in field_names key

-- The number of escape bytes at the beginning.
unfoldable pub escaped : Bytes → ℕ
unfolding startswith
escaped s =
    if startswith s (b'\\' ∷ b'\n' ∷ [])
    then 2
    else if startswith s (b'\\' ∷ b'\r' ∷ b'\n' ∷ [])
    then 3
    else 0

abbrev pub starts_with_byte : Bytes → ℕ → Bool
starts_with_byte [] c = false
starts_with_byte (x ∷ s) c = x == c

-- The copy loop; a round takes a byte, or an escape.
unfoldable pub strip_loop : ℕ → Bytes → Bytes
strip_loop f [] = []
strip_loop zero (b ∷ s) = []
strip_loop (suc f) (b ∷ s) =
    let r = escaped (b ∷ s) in
    let past = strip_loop f (drop r (b ∷ s)) in
    let next = strip_loop f s in
    if b == b'\\'
    then (if not (r == 0) then past else if starts_with_byte s b'#' then next else b ∷ next)
    else b ∷ next

unfoldable pub stripescapes : Bytes → Bytes
unfolding strip_loop
stripescapes s = strip_loop (length s) s

-- What `parsepackage` fills in.
pub record Parsed : Type 0 where
  pub env : Env
  pub fields : Fields

abbrev pub no_package : Parsed
no_package = record { env = leaf; fields = no_fields }

pub data ParseResult : Type 0 where
  parse_ok : Parsed → ParseResult
  dupfield : Bytes → ParseResult
  dupvariable : Bytes → ParseResult
  out_of_fuel : ParseResult

-- `for (; p<e && whitespace(*p); p++) {}`
unfoldable pub skip_white : Bytes → Bytes
skip_white [] = []
skip_white (c ∷ p) = if whitespace c then skip_white p else c ∷ p

-- `while (p<e && *p++!='\n') {}`
unfoldable pub skip_line : Bytes → Bytes
skip_line [] = []
skip_line (c ∷ p) = if c == b'\n' then p else skip_line p

-- The name: its end, the byte that ended it, and what follows that.
pub record Key : Type 0 where
  pub end : ℕ
  pub c : ℕ
  pub rest : Bytes

unfoldable pub key_loop : ℕ → ℕ → ℕ → Bytes → Key
key_loop n end c [] = record { end = end; c = c; rest = [] }
key_loop n end c (x ∷ p) =
    let more = key_loop (n + 1) (if whitespace x then end else n + 1) x p in
    if x == b'\n' || x == b'=' || x == b':' then record { end = end; c = x; rest = p } else more

-- Leading space of a value; newlines may be escaped.
unfoldable pub lead_loop : ℕ → Bytes → Bytes
lead_loop f [] = []
lead_loop zero (c ∷ p) = c ∷ p
lead_loop (suc f) (c ∷ p) =
    let r = escaped (c ∷ p) in
    let past = lead_loop f (drop r (c ∷ p)) in
    let next = lead_loop f p in
    if c == b'\\'
    then (if not (r == 0) then past else c ∷ p)
    else if c == b'\n' || not (whitespace c)
    then c ∷ p
    else next

-- The value: its end, whether it holds escapes, and what follows it.
pub record Value : Type 0 where
  pub end : ℕ
  pub cleanup : Bool
  pub rest : Bytes

unfoldable pub value_loop : ℕ → ℕ → ℕ → Bool → Bytes → Value
value_loop f n end cleanup [] = record { end = end; cleanup = cleanup; rest = [] }
value_loop zero n end cleanup (c ∷ p) = record { end = end; cleanup = cleanup; rest = c ∷ p }
value_loop (suc f) n end cleanup (c ∷ p) =
    let r = escaped (c ∷ p) in
    let hash = value_loop f (n + 2) (n + 2) true (drop 1 p) in
    let newline = value_loop f (n + r) end true (drop r (c ∷ p)) in
    let backslash = value_loop f (n + 1) end cleanup p in
    let next = value_loop f (n + 1) (if whitespace c then end else n + 1) cleanup p in
    if c == b'\n'
    then record { end = end; cleanup = cleanup; rest = c ∷ p }
    else if c == b'#'
    then record { end = end; cleanup = cleanup; rest = skip_line (c ∷ p) }
    else if c == b'\\'
    then (if starts_with_byte p b'#' then hash else if not (r == 0) then newline else backslash)
    else next

-- The bytes of the value that begins here, and the rest of the text.
pub record Read : Type 0 where
  pub value : Bytes
  pub rest : Bytes

unfoldable pub read_value : Bytes → Read
read_value p =
    let beg = lead_loop (length p) p in
    let v = value_loop (length beg) 0 0 false beg in
    let text = take v.end beg in
    record { value = if v.cleanup then stripescapes text else text; rest = v.rest }

-- A name that was found at `=` or at `:`: a duplicate, or a place to write to, or nothing to write.
pub data Target : Type 0 where
  variable : Bytes → Target
  field : FieldId → Target
  ignored : Target
  duplicate : ParseResult → Target

unfoldable pub variable_target : Bytes → Option Bytes → Target
variable_target key none = variable key
variable_target key (some old) = duplicate (dupvariable key)

unfoldable pub field_target : Bytes → FieldId → Option Bytes → Target
field_target key id none = field id
field_target key id (some old) = duplicate (dupfield key)

unfoldable pub named_target : Fields → Bytes → Option FieldId → Target
named_target fields key none = ignored
named_target fields key (some id) = field_target key id (fieldbyid fields id)

unfoldable pub target : Parsed → ℕ → Bytes → Target
target pkg c key =
    if c == b'='
    then variable_target key (value_of (find key pkg.env))
    else named_target pkg.fields key (fieldbyname key)

unfoldable pub write : Parsed → Target → Bytes → Parsed
write pkg (variable key) value = record pkg { env = bind key value pkg.env }
write pkg (field id) value = record pkg { fields = set_field pkg.fields id (some value) }
write pkg ignored value = pkg
write pkg (duplicate r) value = pkg

-- One line, from a byte that is no white space and no comment: the new package and the rest, or
-- the end of the parse.
pub data Line : Type 0 where
  next : Parsed → Bytes → Line
  stop : ParseResult → Line

unfoldable pub assignment : Parsed → Target → Bytes → Line
assignment pkg (duplicate r) p = stop r
assignment pkg (variable key) p =
    let v = read_value p in next (write pkg (variable key) v.value) v.rest
assignment pkg (field id) p = let v = read_value p in next (write pkg (field id) v.value) v.rest
assignment pkg ignored p = let v = read_value p in next pkg v.rest

unfoldable pub line : Parsed → Bytes → Line
line pkg p =
    if starts_with_byte p b'#'
    then next pkg (skip_line p)
    else (let key = key_loop 0 0 0 p in
        if key.c == b'=' || key.c == b':'
        then assignment pkg (target pkg key.c (take key.end p)) key.rest
        else next pkg key.rest)

-- `while (p < e)`: every round takes a byte.
unfoldable pub parse_loop : ℕ → Parsed → Bytes → ParseResult
parse_loop f pkg [] = parse_ok pkg
parse_loop zero pkg (c ∷ p) = out_of_fuel
parse_loop (suc f) pkg (c ∷ p) = elim (line pkg (skip_white (c ∷ p))) [
  | next pkg' rest ↦ parse_loop f pkg' rest
  | stop r ↦ r
]

unfoldable pub parsepackage : Bytes → ParseResult
parsepackage src = parse_loop (length src) no_package src

-- All that a run of `parsepackage` computes with.
unfoldable pub parse : Bytes → ParseResult
unfolding parsepackage parse_loop line skip_white skip_line key_loop assignment target
    variable_target named_target field_target fieldbyname fieldbyid find write bind set_field
    read_value lead_loop value_loop stripescapes escaped whitespace
parse src = parsepackage src
