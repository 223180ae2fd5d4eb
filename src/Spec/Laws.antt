-- ===== src/Spec/Laws.antt =====
-- `parsespecs` ends, and reads back what is printed.
use u_config.Base.{
  ℕ, suc, zero, ◌<◌, [], ◌∷◌, Bytes, List, ◌≡◌, ◌≢◌, refl, arith, length, ap, sym, Option,
  List-cases, inl, inr, Result, ok, fail, out_of_fuel, ◌>>=◌,
}
use u_config.S8.{nexttoken}
use u_config.S8.Laws.{length-nexttoken}
use u_config.Spec.{
  Specs, closed, opened, checknotop, take_token, arg_loop, args_loop, dangling, finish, parsespecs,
}

take_token-ne-out_of_fuel :
    (p : Option Bytes) (tok : Bytes) (specs : Specs) → take_token p tok specs ≢ out_of_fuel
unfolding take_token checknotop
take_token-ne-out_of_fuel p tok (closed head) = ground arith
take_token-ne-out_of_fuel p tok (opened pkg head) = ground arith

arg_loop-ne-out_of_fuel :
    (f : ℕ) (p : Option Bytes) (s : Bytes) (specs : Specs)
    → length s < f
    → arg_loop f p s specs ≢ out_of_fuel
unfolding arg_loop
arg_loop-ne-out_of_fuel zero p s specs h = elim h [ ]
arg_loop-ne-out_of_fuel (suc f) p s specs h = elim (List-cases (nexttoken s).head) [
  | inl e ↦ rw (e, arg_loop) (ground arith)
  | inr (c, tok, e) ↦
      let l = length-nexttoken s in
      let n : suc (length tok) ≡ length (nexttoken s).head = ap length (sym e) in
      let ih =
        λ (specs' : Specs). arg_loop-ne-out_of_fuel f p (nexttoken s).tail specs' (omega arith) in
      let first = take_token-ne-out_of_fuel p (nexttoken s).head specs in
      rw (e, arg_loop) (later (take_token p (nexttoken s).head specs) first ih)
]
  where
    later :
        (r : Result Specs)
        → r ≢ out_of_fuel
        → ((specs' : Specs) → arg_loop f p (nexttoken s).tail specs' ≢ out_of_fuel)
        → (r >>= λ specs'. arg_loop f p (nexttoken s).tail specs') ≢ out_of_fuel
    later (ok specs') n k = k specs'
    later (fail e) n k = ground arith
    later out_of_fuel n k = n

bind-ne-out_of_fuel :
    {A B : Type 0} (r : Result A) (k : A → Result B)
    → r ≢ out_of_fuel
    → ((a : A) → k a ≢ out_of_fuel)
    → (r >>= k) ≢ out_of_fuel
bind-ne-out_of_fuel (ok a) k n h = h a
bind-ne-out_of_fuel (fail e) k n h = cc
bind-ne-out_of_fuel out_of_fuel k n h = absurd (n refl)

args_loop-ne-out_of_fuel :
    (p : Option Bytes) (args : List Bytes) (specs : Specs) → args_loop p args specs ≢ out_of_fuel
unfolding args_loop
args_loop-ne-out_of_fuel p [] specs = cc
args_loop-ne-out_of_fuel p (arg ∷ args) specs =
    bind-ne-out_of_fuel (arg_loop (suc (length arg)) p arg specs) _
      (arg_loop-ne-out_of_fuel (suc (length arg)) p arg specs (omega arith))
      (args_loop-ne-out_of_fuel p args)

finish-ne-out_of_fuel : (p : Option Bytes) (specs : Specs) → finish p specs ≢ out_of_fuel
unfolding finish dangling
finish-ne-out_of_fuel p (closed head) = cc
finish-ne-out_of_fuel p (opened pkg head) = ground arith

-- The loops read every argument to its end, so `parsespecs` returns specifications or one of its
-- two errors.
pub parsespecs-ne-out_of_fuel :
    (args : List Bytes) (p : Option Bytes) → parsespecs args p ≢ out_of_fuel
unfolding parsespecs
parsespecs-ne-out_of_fuel args p =
    bind-ne-out_of_fuel (args_loop p args (closed [])) (finish p)
      (args_loop-ne-out_of_fuel p args (closed [])) (finish-ne-out_of_fuel p)
