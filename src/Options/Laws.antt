-- ===== src/Options/Laws.antt =====
-- What the options of an argument list are, and what `parseuint` computes.
use u_config.Base.{
  ℕ, zero, suc, ◌+◌, ◌-◌, ◌*◌, ◌≤◌, ◌<◌, Bool, true, false, not, ◌||◌, [], ◌∷◌, ◌++◌, Bytes, List,
  ltb, leb, ◌==◌, if◌then◌else◌, codes, length, none, some, ◌≡◌, refl, ap, ◌∙◌, arith, map, inl,
  inr, Bool-cases, length-append, drop, take-append,
}
use u_config.S8.{digit, s8equals, cuthead, takehead, prefix_len, s8cut}
use u_config.S8.Laws.{s8equals_iff}
use u_config.S8.Cuts.{Lacks}
use u_config.Args.{byte_is}
use u_config.Options.{
  Options, newoptions, Optresult, option_value, option_of, next_loop, nextoption, results,
  parseuint_loop, parseuint,
}

-- The number that the digits of a string write, behind those of `v`.
unfoldable pub decimal_from : ℕ → Bytes → ℕ
decimal_from v [] = v
decimal_from v (c ∷ s) =
    let with_digit = decimal_from (v * 10 + (c - b'0')) s in
    let without = decimal_from v s in if digit c then with_digit else without

decimal_from-ge : (v : ℕ) (s : Bytes) → v ≤ decimal_from v s
unfolding decimal_from
decimal_from-ge v [] = omega arith
decimal_from-ge v (c ∷ s) =
    let d = decimal_from-ge (v * 10 + (c - b'0')) s in
    let k = decimal_from-ge v s in
    elim (Bool-cases (digit c)) [ inl e ↦ rw e (omega arith) | inr n ↦ rw n k ]

parseuint_loop-decimal :
    (v : ℕ) (s : Bytes) (hi : ℕ)
    → v < hi
    → parseuint_loop v s hi ≡ (if leb hi (decimal_from v s) then hi else decimal_from v s)
unfolding decimal_from parseuint_loop
parseuint_loop-decimal v [] hi l = ground arith
parseuint_loop-decimal v (c ∷ s) hi l = elim (Bool-cases (digit c)) [
  | inl e ↦ rw e (elim (Bool-cases (leb hi (v * 10 + (c - b'0')))) [
    | inl big ↦ let d = decimal_from-ge (v * 10 + (c - b'0')) s in rw big (ground arith)
    | inr small ↦ rw small (parseuint_loop-decimal (v * 10 + (c - b'0')) s hi (ground arith))
  ])
  | inr n ↦ rw n (parseuint_loop-decimal v s hi l)
]

-- Below a positive limit, `parseuint` gives the decimal number of the digits in the string, whatever
-- stands between them, and the limit where that number is the limit or above.
pub parseuint-decimal :
    (s : Bytes) (hi : ℕ)
    → 0 < hi
    → parseuint s hi ≡ (if leb hi (decimal_from 0 s) then hi else decimal_from 0 s)
unfolding parseuint
parseuint-decimal s hi l = parseuint_loop-decimal 0 s hi l

-- One argument before `--`, by what it means.
pub data Word : Type 0 where
  positional : Bytes → Word
  flag : Bytes → Word
  setting : Bytes → Bytes → Word

abbrev pub print_word : Word → Bytes
print_word (positional arg) = arg
print_word (flag name) = b'-' ∷ name
print_word (setting name value) = b'-' ∷ (name ++ (b'=' ∷ value))

abbrev pub argument : Bytes → Optresult
argument arg = record { arg = arg; value = none; isoption = false }

abbrev pub meaning : Word → Optresult
meaning (positional arg) = argument arg
meaning (flag name) = record { arg = name; value = none; isoption = true }
meaning (setting name value) = record { arg = name; value = some value; isoption = true }

-- Not read as an option: shorter than two bytes, or with another first byte.
abbrev pub no_option : Bytes → Bool
no_option arg = ltb (length arg) 2 || not (byte_is arg 0 b'-')

abbrev pub IsWord : Word → Type 0
IsWord (positional arg) = no_option arg ≡ true
IsWord (flag name) =
    Lacks b'=' name × (0 < length name) × (s8equals (b'-' ∷ name) (codes "--") ≡ false)
IsWord (setting name value) = Lacks b'=' name

abbrev pub AreWords : List Word → Type 0
AreWords [] = Unit {0}
AreWords (w ∷ ws) = IsWord w × AreWords ws

prefix_len-Lacks :
    (delim : ℕ) (name : Bytes)
    → Lacks delim name
    → prefix_len (λ c. not (c == delim)) name ≡ length name
unfolding prefix_len
prefix_len-Lacks delim [] l = refl
prefix_len-Lacks delim (c ∷ name) l = rw (l.0) (ap suc (prefix_len-Lacks delim name l.1))

prefix_len-at :
    (delim : ℕ) (name value : Bytes)
    → Lacks delim name
    → prefix_len (λ c. not (c == delim)) (name ++ (delim ∷ value)) ≡ length name
unfolding prefix_len
prefix_len-at delim [] value l = ground arith
prefix_len-at delim (c ∷ name) value l = rw (l.0) (ap suc (prefix_len-at delim name value l.1))

drop-past :
    (delim : ℕ) (name value : Bytes) → drop (length name + 1) (name ++ (delim ∷ value)) ≡ value
drop-past delim [] value = refl
drop-past delim (c ∷ name) value =
    let e : suc (length name) + 1 ≡ suc (length name + 1) = omega arith in
    rw e (drop-past delim name value)

option_of-flag : (name : Bytes) → Lacks b'=' name → option_of (b'-' ∷ name) ≡ meaning (flag name)
unfolding option_of option_value s8cut cuthead
option_of-flag name l =
    let t : (length name == length name) ≡ true = ground arith in
    rw (prefix_len-Lacks b'=' name l, t) refl

option_of-setting :
    (name value : Bytes)
    → Lacks b'=' name
    → option_of (b'-' ∷ (name ++ (b'=' ∷ value))) ≡ meaning (setting name value)
unfolding option_of option_value s8cut cuthead takehead
option_of-setting name value l =
    let whole = length-append name (b'=' ∷ value) in
    let t : (length name == length (name ++ (b'=' ∷ value))) ≡ false = ground arith in
    rw
      (
        prefix_len-at b'=' name value l,
        t,
        drop-past b'=' name value,
        take-append name (b'=' ∷ value),
      )
      refl

-- A setting is not `--`.
setting_not_dashes :
    (name value : Bytes) → s8equals (b'-' ∷ (name ++ (b'=' ∷ value))) (codes "--") ≡ false
setting_not_dashes name value =
    elim (Bool-cases (s8equals (b'-' ∷ (name ++ (b'=' ∷ value))) (codes "--"))) [
      | inr n ↦ n
      | inl e ↦ by_name name ((s8equals_iff (b'-' ∷ (name ++ (b'=' ∷ value))) (codes "--")).0 e)
    ]
  where
    by_name :
        (n : Bytes)
        → b'-' ∷ (n ++ (b'=' ∷ value)) ≡ codes "--"
        → s8equals (b'-' ∷ (name ++ (b'=' ∷ value))) (codes "--") ≡ false
    by_name [] e = cc
    by_name (c ∷ []) e = cc
    by_name (c ∷ d ∷ n) e = cc

pub next_loop-word :
    (w : Word) (args : List Bytes)
    → IsWord w
    → next_loop false (print_word w ∷ args)
      ≡ record { options = record { args = args; dashdash = false }; result = some (meaning w) }
unfolding next_loop
next_loop-word (positional arg) args h = rw h refl
next_loop-word (flag name) args (l, n, d) =
    let long : ltb (suc (length name)) 2 ≡ false = ground arith in
    rw (long, d, option_of-flag name l) refl
next_loop-word (setting name value) args l =
    let whole = length-append name (b'=' ∷ value) in
    let long : ltb (suc (length (name ++ (b'=' ∷ value)))) 2 ≡ false = ground arith in
    rw (long, setting_not_dashes name value, option_of-setting name value l) refl

length-map_print : (words : List Word) → length (map print_word words) ≡ length words
length-map_print [] = refl
length-map_print (w ∷ words) = ap suc (length-map_print words)

-- Behind `--` every argument is a result.
results-dashed :
    (f : ℕ) (args : List Bytes)
    → length args ≤ f
    → results f (record { args = args; dashdash = true }) ≡ map argument args
unfolding results nextoption next_loop
results-dashed zero [] l = refl
results-dashed zero (arg ∷ args) l = ground arith
results-dashed (suc f) [] l = refl
results-dashed (suc f) (arg ∷ args) l =
    ap (◌∷◌ (argument arg)) (results-dashed f args (omega (arith, l)))

results-step :
    (f : ℕ) (p q : Options) (r : Optresult)
    → nextoption p ≡ record { options = q; result = some r }
    → results (suc f) p ≡ r ∷ results f q
unfolding results
results-step f p q r e = rw (e, results) (ap (λ n. r ∷ results f n.options) e)

results-dashes :
    (f : ℕ) (rest : List Bytes)
    → results (suc f) (record { args = codes "--" ∷ rest; dashdash = false })
      ≡ results (suc f) (record { args = rest; dashdash = true })
unfolding results nextoption next_loop byte_is s8equals
results-dashes f rest = refl

results_from-words :
    (f : ℕ) (words : List Word) (rest : List Bytes)
    → AreWords words
    → length words + length rest < f
    → results f (record { args = map print_word words ++ (codes "--" ∷ rest); dashdash = false })
      ≡ map meaning words ++ map argument rest
unfolding nextoption
results_from-words zero words rest h l = ground arith
results_from-words (suc f) [] rest h l =
    results-dashes f rest ∙ results-dashed (suc f) rest (omega (arith, l))
results_from-words (suc f) (w ∷ words) rest h l =
    results-step f _ _ (meaning w)
      (next_loop-word w (map print_word words ++ (codes "--" ∷ rest)) h.0)
    ∙ ap (◌∷◌ (meaning w)) (results_from-words f words rest h.1 (omega (arith, l)))

-- The arguments of the command line are read back: positional arguments, flags and settings, whose
-- names have no `=`, give their meanings in order, and behind `--` every argument is positional. As
-- many rounds as there are arguments are enough.
pub results-words :
    (words : List Word) (rest : List Bytes)
    → AreWords words
    → results
        (length (map print_word words ++ (codes "--" ∷ rest)))
        (newoptions (map print_word words ++ (codes "--" ∷ rest)))
      ≡ map meaning words ++ map argument rest
unfolding newoptions
results-words words rest h =
    results_from-words (length (map print_word words ++ (codes "--" ∷ rest))) words rest h (
      let n = length-append (map print_word words) (codes "--" ∷ rest) in
      let m = length-map_print words in omega arith)
