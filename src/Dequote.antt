-- ===== src/Dequote.antt =====
-- `shellmeta` and `dequote` of src/u-config.c: one argument of a field is read under the shell's
-- quotes, and printed with the shell's special bytes escaped.
pub mod Laws
pub mod Safe
use u_config.Base.{
  ℕ, suc, zero, Bool, true, false, not, ◌&&◌, ◌||◌, [], ◌∷◌, ◌++◌, Bytes, ◌==◌, if◌then◌else◌,
  codes, Option, none, some,
}
use u_config.S8.{whitespace}
use u_config.Encode.{pathdecode}

abbrev pub meta : Bytes
meta = codes "\"!#%&'*<>?[\\]`{|}"

unfoldable pub meta_loop : ℕ → Bytes → Bool
unfolding pathdecode
meta_loop c [] = false
meta_loop c (m ∷ ms) = if m == c || not (pathdecode c == c) then true else meta_loop c ms

unfoldable pub shellmeta : ℕ → Bool
unfolding meta_loop
shellmeta c = meta_loop c meta

-- The variable `quote`: zero, a single or a double quote.
pub data Quote : Type 0 where
  outside single double : Quote

pub record Dequoted : Type 0 where
  pub arg : Bytes
  pub tail : Bytes

-- One byte: the new `quote` and `escaped`, and what is printed; or the end of the argument.
pub data Step : Type 0 where
  go : Quote → Bool → Bytes → Step
  break : Step

unfoldable pub in_single : ℕ → Bool → Step
in_single c escaped =
    let decoded = pathdecode c in
    if c == b'\''
    then go outside escaped []
    else if c == b' ' || shellmeta c
    then go single escaped (b'\\' ∷ decoded ∷ [])
    else go single escaped (decoded ∷ [])

unfoldable pub in_double : ℕ → Bool → Step
in_double c true =
    let decoded = pathdecode c in
    if not (c == b'\\') && not (c == b'"')
    then go double false
        (b'\\' ∷ ((if c == b' ' || shellmeta c then b'\\' ∷ [] else []) ++ (decoded ∷ [])))
    else go double false (decoded ∷ [])
in_double c false =
    let decoded = pathdecode c in
    if c == b'"'
    then go outside false []
    else if c == b' ' || shellmeta c
    then go double false (b'\\' ∷ decoded ∷ [])
    else go double (c == b'\\') (decoded ∷ [])

unfoldable pub in_outside : ℕ → Bool → Step
in_outside c escaped =
    let decoded = pathdecode c in
    if c == b'\''
    then go single escaped []
    else if c == b'"'
    then go double escaped []
    else if shellmeta c
    then go outside escaped (b'\\' ∷ decoded ∷ [])
    else if c == b' '
    then break
    else go outside escaped (c ∷ [])

-- `if (whitespace(c)) c = ' ';`
unfoldable pub blank : ℕ → ℕ
unfolding whitespace
blank c = if whitespace c then b' ' else c

unfoldable pub step : Quote → Bool → ℕ → Step
unfolding in_single in_double in_outside blank
step single escaped c = in_single (blank c) escaped
step double escaped c = in_double (blank c) escaped
step outside escaped c = in_outside (blank c) escaped

-- `none` is a result that is not `ok`: a quote is open.
unfoldable pub finish : Quote → Bytes → Bytes → Option Dequoted
finish outside out tail = some (record { arg = out; tail = tail })
finish single out tail = none
finish double out tail = none

unfoldable pub dequote_loop : Quote → Bool → Bytes → Bytes → Option Dequoted
unfolding step finish
dequote_loop quote escaped out [] = finish quote out []
dequote_loop quote escaped out (c ∷ s) = elim (step quote escaped c) [
  | go quote' escaped' printed ↦ dequote_loop quote' escaped' (out ++ printed) s
  | break ↦ finish quote out (c ∷ s)
]

unfoldable pub skipspace : Bytes → Bytes
unfolding whitespace
skipspace [] = []
skipspace (c ∷ s) = if whitespace c then skipspace s else c ∷ s

unfoldable pub dequote : Bytes → Option Dequoted
unfolding dequote_loop skipspace shellmeta
dequote s = dequote_loop outside false [] (skipspace s)
