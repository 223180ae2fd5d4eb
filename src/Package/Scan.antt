-- ===== src/Package/Scan.antt =====
-- The scanning loops leave no more than they were given.
use u_config.Base.{
  ℕ, suc, zero, ◌+◌, ◌-◌, ◌≤◌, Bool, true, false, [], ◌∷◌, Bytes, arith, if◌then◌else◌, length,
  drop, length-drop,
}
use u_config.S8.{whitespace}
use u_config.Package.{escaped, skip_white, skip_line, key_loop, lead_loop, value_loop, read_value}

pub length-skip_white : (p : Bytes) → length (skip_white p) ≤ length p
unfolding skip_white
length-skip_white [] = omega arith
length-skip_white (c ∷ p) = ground (arith, length-skip_white p)

pub length-skip_line : (p : Bytes) → length (skip_line p) ≤ length p - 1
unfolding skip_line
length-skip_line [] = omega arith
length-skip_line (c ∷ p) = ground (arith, length-skip_line p)

pub length-key_loop : (n end c : ℕ) (p : Bytes) → length (key_loop n end c p).rest ≤ length p - 1
unfolding key_loop
length-key_loop n end c [] = omega arith
length-key_loop n end c (x ∷ p) =
    ground (arith, length-key_loop (n + 1) (if whitespace x then end else n + 1) x p)

length-lead_loop : (f : ℕ) (p : Bytes) → length (lead_loop f p) ≤ length p
unfolding lead_loop
length-lead_loop zero [] = omega arith
length-lead_loop (suc f) [] = omega arith
length-lead_loop zero (c ∷ p) = omega arith
length-lead_loop (suc f) (c ∷ p) = ground (
  arith,
  length-lead_loop f p,
  length-lead_loop f (drop (escaped (c ∷ p)) (c ∷ p)),
  length-drop (escaped (c ∷ p)) (c ∷ p),
)

length-value_loop :
    (f n end : ℕ) (cleanup : Bool) (p : Bytes)
    → length (value_loop f n end cleanup p).rest ≤ length p
unfolding value_loop
length-value_loop zero n end cleanup [] = omega arith
length-value_loop (suc f) n end cleanup [] = omega arith
length-value_loop zero n end cleanup (c ∷ p) = omega arith
length-value_loop (suc f) n end cleanup (c ∷ p) =
    let r = escaped (c ∷ p) in
    ground (
      arith,
      length-value_loop f (n + 2) (n + 2) true (drop 1 p),
      length-value_loop f (n + r) end true (drop r (c ∷ p)),
      length-value_loop f (n + 1) end cleanup p,
      length-value_loop f (n + 1) (if whitespace c then end else n + 1) cleanup p,
      length-drop 1 p,
      length-drop r (c ∷ p),
      length-skip_line (c ∷ p),
    )

pub length-read_value : (p : Bytes) → length (read_value p).rest ≤ length p
unfolding read_value
length-read_value p =
    let beg = lead_loop (length p) p in
    omega (arith, length-lead_loop (length p) p, length-value_loop (length beg) 0 0 false beg)
