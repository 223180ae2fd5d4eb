-- ===== src/Windows/Cmdline/RoundTrip.antt =====
-- Arguments that were quoted for the command line are read back.
use u_config.Base.{
  ℕ, zero, suc, ◌+◌, ◌-◌, ◌/◌, ◌%◌, true, false, [], ◌∷◌, ◌++◌, Bytes, List, ◌==◌, length, take,
  ◌≡◌, refl, ap, sym, ◌∙◌, arith, Bool-cases, inl, inr, length-append, append_assoc, append-nil,
  map, take-append,
}
use u_config.Windows.Unicode.{encode8}
use u_config.Windows.Unicode.{Units}
use u_config.Windows.Unicode.Texts.{text8, text16}
use u_config.Windows.Cmdline.{
  State, outside, quoted, slash_quoted, quoted_exit, first_quoted, Machine, start, put, finish,
  step_outside, step_unquoted, step_quoted, unwrite, step_slash, step_exit, step_begin,
  step_first_quoted, step_in, step, end_in, cmdline_to_argv8,
}
use u_config.Windows.Cmdline.Quoting.{
  slashes, quoted_rest, quote_arguments, command_line, AreChars, HasNoQuote, AllChars,
}
use u_config.Windows.Cmdline.Points.{run, run-append, cmdline_loop-text16, raw8, raw8-text8}

abbrev at : State → ℕ → List Bytes → Bytes → Machine
at state slash args cur = record { state = state; slash = slash; args = args; cur = cur }

-- In quotes, behind `n` backslashes.
abbrev inside : ℕ → ℕ → List Bytes → Bytes → Machine
inside zero k args cur = at quoted k args cur
inside (suc n) k args cur = at slash_quoted (suc n) args cur

length-slashes : (n : ℕ) → length (slashes n) ≡ n
length-slashes zero = refl
length-slashes (suc n) = ap suc (length-slashes n)

step_backslash :
    (n k : ℕ) (args : List Bytes) (cur : Bytes)
    → step (inside n k args cur) 0x5c ≡ inside (suc n) k args (cur ++ (0x5c ∷ []))
unfolding step step_in step_quoted step_slash put encode8
step_backslash zero k args cur = refl
step_backslash (suc n) k args cur = let e : suc n + 1 ≡ suc (suc n) = omega arith in rw e refl

run-slashes :
    (j n k : ℕ) (args : List Bytes) (cur : Bytes)
    → run (slashes j) (inside n k args cur) ≡ inside (j + n) k args (cur ++ slashes j)
run-slashes zero n k args cur = let e : 0 + n ≡ n = omega arith in rw (e, append-nil cur) refl
run-slashes (suc j) n k args cur =
    let e : suc j + n ≡ j + suc n = omega arith in
    ap (run (slashes j)) (step_backslash n k args cur)
    ∙ run-slashes j (suc n) k args (cur ++ (0x5c ∷ []))
    ∙ rw (e, append_assoc cur (0x5c ∷ []) (slashes j)) refl

-- Taking back the backslashes that were written last.
take_back : (cur : Bytes) (j : ℕ) → take (length (cur ++ slashes j) - j) (cur ++ slashes j) ≡ cur
take_back cur j =
    let e : length (cur ++ slashes j) - j ≡ length cur =
      omega (arith, length-append cur (slashes j), length-slashes j) in
    rw e (take-append cur (slashes j))

-- Behind twice as many backslashes a quote ends the quotes.
step_close :
    (n k : ℕ) (args : List Bytes) (cur : Bytes)
    → (k' : ℕ) × (step (inside (n + n) k args (cur ++ slashes n)) 0x22 ≡ at quoted_exit k' args cur)
unfolding step step_in step_quoted step_slash unwrite
step_close zero k args cur = (k, rw (append-nil cur) refl)
step_close (suc n) k args cur =
    let d : suc n + suc n ≡ suc (n + suc n) = omega arith in
    let even : (suc (n + suc n) % 2 == 1) ≡ false = ground arith in
    let half : (1 + suc (n + suc n)) / 2 ≡ suc n = omega arith in
    (suc (n + suc n), rw d (rw (even, half, take_back cur (suc n)) refl))

-- Behind one more it is a part of the argument.
step_literal :
    (n k : ℕ) (args : List Bytes) (cur : Bytes)
    → (k' : ℕ) × (step (inside (suc n + n) k args (cur ++ slashes (suc n))) 0x22
        ≡ inside 0 k' args (cur ++ (0x22 ∷ [])))
unfolding step step_in step_quoted step_slash unwrite put encode8
step_literal n k args cur =
    let d : suc n + n ≡ suc (n + n) = omega arith in
    let odd : (suc (n + n) % 2 == 1) ≡ true = ground arith in
    let half : (1 + suc (n + n)) / 2 ≡ suc n = omega arith in
    (suc (n + n), rw d (rw (odd, half, take_back cur (suc n)) refl))

step_other :
    (c n k : ℕ) (args : List Bytes) (cur : Bytes)
    → (c == 0x5c) ≡ false
    → (c == 0x22) ≡ false
    → (k' : ℕ) × (step (inside n k args cur) c ≡ inside 0 k' args (cur ++ encode8 c))
unfolding step step_in step_quoted step_slash put
step_other c zero k args cur h g = (k, rw (g, h) refl)
step_other c (suc n) k args cur h g = (suc n, rw (g, h) refl)

-- The rest of a quoted argument is read up to the quote that ends it.
abbrev Reads : List ℕ → Machine → List Bytes → Bytes → Type 0
Reads s m args cur = (k : ℕ) × (run s m ≡ at quoted_exit k args cur)

Reads-step :
    (s t : List ℕ) (m m' : Machine) (args : List Bytes) (cur cur' : Bytes)
    → run s m ≡ m'
    → cur ≡ cur'
    → Reads t m' args cur
    → Reads (s ++ t) m args cur'
Reads-step s t m m' args cur cur' e p (k, h) =
    (k, run-append s t m ∙ ap (run t) e ∙ h ∙ ap (at quoted_exit k args) p)

run-quoted_rest :
    (arg : List ℕ) (n k : ℕ) (args : List Bytes) (cur : Bytes)
    → Reads (quoted_rest n arg) (inside n k args cur) args (cur ++ raw8 arg)
unfolding quoted_rest encode8
run-quoted_rest [] n k args cur =
    let (k', e) = step_close n k args cur in
    Reads-step (slashes n) (0x22 ∷ []) _ _ args cur _ (run-slashes n n k args cur)
      (sym (append-nil cur)) (k', e)
run-quoted_rest (c ∷ arg) n k args cur = elim (Bool-cases (c == 0x5c)) [
  | inl e ↦
      let p : c ≡ 0x5c = ground arith in
      rw p (
        Reads-step (0x5c ∷ []) (quoted_rest (suc n) arg) _ _ args _ _ (step_backslash n k args cur)
          (append_assoc cur (0x5c ∷ []) (raw8 arg))
          (run-quoted_rest arg (suc n) k args (cur ++ (0x5c ∷ []))))
  | inr h ↦ rw h (elim (Bool-cases (c == 0x22)) [
    | inl e ↦
        let p : c ≡ 0x22 = ground arith in
        let (k', l) = step_literal n k args cur in
        rw p (
          Reads-step (slashes (suc n)) (0x22 ∷ quoted_rest 0 arg) _ _ args _ _
            (run-slashes (suc n) n k args cur) (append_assoc cur (0x22 ∷ []) (raw8 arg))
            (Reads-step (0x22 ∷ []) (quoted_rest 0 arg) _ _ args _ _ l refl
              (run-quoted_rest arg 0 k' args (cur ++ (0x22 ∷ [])))))
    | inr g ↦ rw g (
        let (k', e) = step_other c n k args cur h g in
        Reads-step (c ∷ []) (quoted_rest 0 arg) _ _ args _ _ e
          (append_assoc cur (encode8 c) (raw8 arg))
          (run-quoted_rest arg 0 k' args (cur ++ encode8 c)))
  ])
]

unfoldable ended : Machine → List Bytes
ended m = end_in m.state m

-- A space behind an argument, a space between arguments, and the quote that begins one.
step_space :
    (k : ℕ) (before : List Bytes) (cur : Bytes)
    → (step (at quoted_exit k before cur) 0x20 ≡ at outside k (before ++ (cur ∷ [])) [])
      × (step (at outside k before cur) 0x20 ≡ at outside k before cur)
      × (step (at outside k before cur) 0x22 ≡ inside 0 k before cur)
unfolding step step_in step_exit step_unquoted step_outside finish
step_space k before cur = (refl, refl, refl)

run-quote_arguments :
    (args : List (List ℕ)) (k : ℕ) (before : List Bytes) (cur : Bytes)
    → ended (run (quote_arguments args) (at quoted_exit k before cur))
      ≡ before ++ (cur ∷ map raw8 args)
unfolding quote_arguments ended end_in
run-quote_arguments [] k before cur = refl
run-quote_arguments (arg ∷ args) k before cur =
    let (close, between, opens) = step_space k before cur in
    let (close', between', opens') = step_space k (before ++ (cur ∷ [])) [] in
    let (k', h) = run-quoted_rest arg 0 k (before ++ (cur ∷ [])) [] in
    ap (λ m. ended (run (quoted_rest 0 arg ++ quote_arguments args) (step m 0x22))) close
    ∙ ap (λ m. ended (run (quoted_rest 0 arg ++ quote_arguments args) m)) opens'
    ∙ ap ended (run-append (quoted_rest 0 arg) (quote_arguments args) _)
    ∙ ap (λ m. ended (run (quote_arguments args) m)) h
    ∙ run-quote_arguments args k' (before ++ (cur ∷ [])) (raw8 arg)
    ∙ append_assoc before (cur ∷ []) (raw8 arg ∷ map raw8 args)

-- The arguments behind the program's name, whose quotes are closed.
run_outside :
    (args : List (List ℕ)) (k : ℕ) (program : Bytes)
    → ended (run (quote_arguments args) (at outside k (program ∷ []) [])) ≡ program ∷ map raw8 args
unfolding quote_arguments ended end_in
run_outside [] k program = refl
run_outside (arg ∷ args) k program =
    let (close, between, opens) = step_space k (program ∷ []) [] in
    let (k', h) = run-quoted_rest arg 0 k (program ∷ []) [] in
    ap (λ m. ended (run (quoted_rest 0 arg ++ quote_arguments args) (step m 0x22))) between
    ∙ ap (λ m. ended (run (quoted_rest 0 arg ++ quote_arguments args) m)) opens
    ∙ ap ended (run-append (quoted_rest 0 arg) (quote_arguments args) _)
    ∙ ap (λ m. ended (run (quote_arguments args) m)) h
    ∙ run-quote_arguments args k' (program ∷ []) (raw8 arg)

step_program :
    (c k : ℕ) (cur : Bytes)
    → (c == 0x22) ≡ false
    → step (at first_quoted k [] cur) c ≡ at first_quoted k [] (cur ++ encode8 c)
unfolding step step_in step_first_quoted put
step_program c k cur h = rw h refl

run_program :
    (program rest : List ℕ) (k : ℕ) (cur : Bytes)
    → HasNoQuote program
    → run (program ++ (0x22 ∷ rest)) (at first_quoted k [] cur)
      ≡ run rest (at outside k ((cur ++ raw8 program) ∷ []) [])
unfolding step step_in step_first_quoted finish
run_program [] rest k cur h = ap (λ p. run rest (at outside k (p ∷ []) [])) (sym (append-nil cur))
run_program (c ∷ program) rest k cur (hc, hs) =
    ap (run (program ++ (0x22 ∷ rest))) (step_program c k cur hc)
    ∙ (run_program program rest k (cur ++ encode8 c) hs
        ∙ ap (λ p. run rest (at outside k (p ∷ []) []))
            (append_assoc cur (encode8 c) (raw8 program)))

map-raw8 : (args : List (List ℕ)) → AllChars args → map raw8 args ≡ map text8 args
map-raw8 [] h = refl
map-raw8 (arg ∷ args) (ha, hs) = rw (raw8-text8 arg ha, map-raw8 args hs) refl

AreChars-append : (s t : List ℕ) → AreChars s → AreChars t → AreChars (s ++ t)
AreChars-append [] t h g = g
AreChars-append (c ∷ s) t (hc, hs) g = (hc, AreChars-append s t hs g)

slashes-AreChars : (n : ℕ) → AreChars (slashes n)
slashes-AreChars zero = tt
slashes-AreChars (suc n) = (refl, slashes-AreChars n)

quoted_rest-AreChars : (n : ℕ) (arg : List ℕ) → AreChars arg → AreChars (quoted_rest n arg)
unfolding quoted_rest
quoted_rest-AreChars n [] h =
    AreChars-append (slashes n) (0x22 ∷ []) (slashes-AreChars n) (refl, tt)
quoted_rest-AreChars n (c ∷ arg) (hc, hs) =
    let slash = quoted_rest-AreChars (suc n) arg hs in
    let other = quoted_rest-AreChars 0 arg hs in
    let more =
      AreChars-append (slashes (suc n)) (c ∷ quoted_rest 0 arg) (slashes-AreChars (suc n))
        (hc, other) in
    elim (Bool-cases (c == 0x5c)) [
      | inl e ↦ rw e (hc, slash)
      | inr h ↦
          rw h (elim (Bool-cases (c == 0x22)) [ inl e ↦ rw e more | inr g ↦ rw g (hc, other) ])
    ]

quote_arguments-AreChars : (args : List (List ℕ)) → AllChars args → AreChars (quote_arguments args)
unfolding quote_arguments
quote_arguments-AreChars [] h = tt
quote_arguments-AreChars (arg ∷ args) (ha, hs) = (
  refl,
  (
    refl,
    AreChars-append (quoted_rest 0 arg) (quote_arguments args) (quoted_rest-AreChars 0 arg ha)
        (quote_arguments-AreChars args hs),
  ),
)

run-command_line :
    (program : List ℕ) (args : List (List ℕ))
    → HasNoQuote program
    → ended (run (command_line program args) start) ≡ raw8 program ∷ map raw8 args
unfolding command_line step step_in step_begin
run-command_line program args q =
    ap ended (run_program program (quote_arguments args) 0 [] q) ∙ run_outside args 0 (raw8 program)

-- A command line of a program's name with no quote in it, and of any arguments, each in quotes with
-- backslashes before its quotes and its end, is split into the UTF-8 of the name and of the arguments,
-- whatever stands in memory behind its terminator. All of them are of Unicode scalar values but U+0000.
pub cmdline_to_argv8-command_line :
    (program : List ℕ) (args : List (List ℕ)) (behind : Units)
    → HasNoQuote program
    → AreChars program
    → AllChars args
    → cmdline_to_argv8 (text16 (command_line program args) ++ (0 ∷ behind))
      ≡ map text8 (program ∷ args)
unfolding cmdline_to_argv8 ended
cmdline_to_argv8-command_line program args behind q hp ha =
    let all : AreChars (command_line program args) =
      unfold command_line in
      (
        refl,
        AreChars-append program (0x22 ∷ quote_arguments args) hp
            (refl, quote_arguments-AreChars args ha),
      ) in
    ap ended (cmdline_loop-text16 (command_line program args) behind start all)
    ∙ run-command_line program args q
    ∙ rw (raw8-text8 program hp, map-raw8 args ha) refl
