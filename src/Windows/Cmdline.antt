-- ===== src/Windows/Cmdline.antt =====
-- `cmdline_to_argv8` of src/cmdline.c: a command line in UTF-16 is split into arguments in UTF-8.
pub mod Quoting
pub mod Points
pub mod RoundTrip
use u_config.Base.{
  ℕ, suc, ◌+◌, ◌-◌, ◌*◌, ◌/◌, ◌%◌, Bool, true, false, ◌&&◌, ◌||◌, [], ◌∷◌, ◌++◌, Bytes, List, ◌==◌,
  if◌then◌else◌, length, take,
}
use u_config.Windows.Unicode.{Units, encode8}

-- The states 0 to 8.
pub data State : Type 0 where
  outside unquoted quoted slash_unquoted slash_quoted quoted_exit : State
  begin first_unquoted first_quoted : State

-- `args` are the arguments that `argv` points to and that have their terminator, `cur` is what was
-- written behind them. An argument is begun when the state is no longer `outside`.
pub record Machine : Type 0 where
  pub state : State
  pub slash : ℕ
  pub args : List Bytes
  pub cur : Bytes

abbrev pub start : Machine
start = record { state = begin; slash = 0; args = []; cur = [] }

-- The encoding behind the switch: that of `utf8encode_`, but a lone surrogate is kept.
unfoldable pub put : Machine → ℕ → Machine
unfolding encode8
put m c = record m { cur = m.cur ++ encode8 c }

-- `*buf++ = 0; state = 0;`
unfoldable pub finish : Machine → Machine
finish m = record m { state = outside; args = m.args ++ (m.cur ∷ []); cur = [] }

abbrev pub blank : ℕ → Bool
blank c = c == 0x09 || c == 0x20

unfoldable pub step_outside : Machine → ℕ → Machine
unfolding put
step_outside m c =
    if blank c
    then m
    else if c == 0x22
    then record m { state = quoted }
    else if c == 0x5c
    then put (record m { state = slash_unquoted; slash = 1 }) c
    else put (record m { state = unquoted }) c

unfoldable pub step_unquoted : Machine → ℕ → Machine
unfolding put finish
step_unquoted m c =
    if blank c
    then finish m
    else if c == 0x22
    then record m { state = quoted }
    else if c == 0x5c
    then put (record m { state = slash_unquoted; slash = 1 }) c
    else put m c

unfoldable pub step_quoted : Machine → ℕ → Machine
unfolding put
step_quoted m c =
    if c == 0x22
    then record m { state = quoted_exit }
    else if c == 0x5c
    then put (record m { state = slash_quoted; slash = 1 }) c
    else put m c

-- `buf -= (1 + slash) >> 1`
unfoldable pub unwrite : Machine → Machine
unwrite m = record m { cur = take (length m.cur - (1 + m.slash) / 2) m.cur }

-- A sequence of backslashes; `again` is the step of the state `state - 2`, which reads `c` again.
unfoldable pub step_slash : (Machine → ℕ → Machine) → State → Machine → ℕ → Machine
unfolding unwrite put
step_slash again back m c =
    if c == 0x22
    then (if m.slash % 2 == 1
        then put (record (unwrite m) { state = back }) c
        else again (record (unwrite m) { state = back }) c)
    else if c == 0x5c
    then put (record m { slash = m.slash + 1 }) c
    else again (record m { state = back }) c

unfoldable pub step_exit : Machine → ℕ → Machine
unfolding put step_unquoted
step_exit m c =
    if c == 0x22
    then put (record m { state = unquoted }) c
    else step_unquoted (record m { state = unquoted }) c

unfoldable pub step_begin : Machine → ℕ → Machine
unfolding put finish
step_begin m c =
    if blank c
    then finish m
    else if c == 0x22
    then record m { state = first_quoted }
    else put (record m { state = first_unquoted }) c

unfoldable pub step_first_unquoted : Machine → ℕ → Machine
unfolding put finish
step_first_unquoted m c = if blank c then finish m else put m c

unfoldable pub step_first_quoted : Machine → ℕ → Machine
unfolding put finish
step_first_quoted m c = if c == 0x22 then finish m else put m c

-- `switch (state)`
unfoldable pub step_in : State → Machine → ℕ → Machine
unfolding step_outside step_unquoted step_quoted step_slash step_exit step_begin step_first_unquoted
    step_first_quoted
step_in outside m c = step_outside m c
step_in unquoted m c = step_unquoted m c
step_in quoted m c = step_quoted m c
step_in slash_unquoted m c = step_slash step_unquoted unquoted m c
step_in slash_quoted m c = step_slash step_quoted quoted m c
step_in quoted_exit m c = step_exit m c
step_in begin m c = step_begin m c
step_in first_unquoted m c = step_first_unquoted m c
step_in first_quoted m c = step_first_quoted m c

unfoldable pub step : Machine → ℕ → Machine
unfolding step_in
step m c = step_in m.state m c

-- `c>>10 == 0x36 && *cmd>>10 == 0x37`
unfoldable pub is_pair : ℕ → ℕ → Bool
is_pair c d = c / 1024 == 0x36 && d / 1024 == 0x37

-- `while (*cmd)`: the memory from the command line on. What is in it has a terminator, and `*cmd` behind a
-- unit that is read is the next one.
unfoldable pub cmdline_loop : Units → Machine → Machine
unfolding step is_pair
cmdline_loop [] m = m
cmdline_loop (c ∷ []) m = if c == 0 then m else step m c
cmdline_loop (c ∷ d ∷ cmd) m =
    let paired = cmdline_loop cmd (step m (0x10000 + (c - 0xd800) * 1024 + (d - 0xdc00))) in
    let single = cmdline_loop (d ∷ cmd) (step m c) in
    if c == 0 then m else if is_pair c d then paired else single

-- `*buf = 0`: an argument that is begun ends.
unfoldable pub end_in : State → Machine → List Bytes
end_in outside m = m.args
end_in s m = m.args ++ (m.cur ∷ [])

unfoldable pub cmdline_to_argv8 : Units → List Bytes
unfolding cmdline_loop end_in
cmdline_to_argv8 cmd = let m = cmdline_loop cmd start in end_in m.state m
