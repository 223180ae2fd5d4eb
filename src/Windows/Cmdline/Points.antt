-- ===== src/Windows/Cmdline/Points.antt =====
-- The loop of `cmdline_to_argv8` over a text of code points, which has no lone surrogate.
use u_config.Base.{
  ℕ, ◌+◌, ◌-◌, ◌*◌, ◌/◌, ◌%◌, ◌≤◌, ◌<◌, true, false, [], ◌∷◌, ◌++◌, Bytes, List, leb, ◌==◌, ◌≡◌,
  refl, ap, ◌∙◌, arith, Bool-cases, inl, inr,
}
use u_config.Windows.Unicode.{Units, encode8, utf8encode, encode16, utf16encode}
use u_config.Windows.Unicode.Laws.{is_scalar, replaced_scalar}
use u_config.Windows.Unicode.Texts.{text8, text16}
use u_config.Windows.Cmdline.{Machine, step, is_pair, cmdline_loop}
use u_config.Windows.Cmdline.Quoting.{is_char, AreChars}

-- The machine over code points.
abbrev pub run : List ℕ → Machine → Machine
run [] m = m
run (c ∷ s) m = run s (step m c)

pub run-append : (s t : List ℕ) (m : Machine) → run (s ++ t) m ≡ run t (run s m)
run-append [] t m = refl
run-append (c ∷ s) t m = run-append s t (step m c)

is_char_scalar : (c : ℕ) → is_char c ≡ true → is_scalar c ≡ true
is_char_scalar c h = ground arith

cmdline_loop_single :
    (c : ℕ) (w : Units) (m : Machine)
    → is_char c ≡ true
    → c < 0x10000
    → cmdline_loop (c ∷ w) m ≡ cmdline_loop w (step m c)
unfolding cmdline_loop is_pair
cmdline_loop_single c [] m h l = let z : (c == 0) ≡ false = ground arith in rw z refl
cmdline_loop_single c (d ∷ w) m h l =
    let z : (c == 0) ≡ false = ground arith in
    let n : (c / 1024 == 0x36) ≡ false = ground arith in rw (z, n) refl

cmdline_loop_pair :
    (c : ℕ) (w : Units) (m : Machine)
    → is_scalar c ≡ true
    → 0x10000 ≤ c
    → cmdline_loop (((c - 0x10000) / 1024 + 0xd800) ∷ ((c - 0x10000) % 1024 + 0xdc00) ∷ w) m
      ≡ cmdline_loop w (step m c)
unfolding cmdline_loop is_pair
cmdline_loop_pair c w m h l =
    let z : ((c - 0x10000) / 1024 + 0xd800 == 0) ≡ false = ground arith in
    let a : (((c - 0x10000) / 1024 + 0xd800) / 1024 == 0x36) ≡ true = ground arith in
    let b : (((c - 0x10000) % 1024 + 0xdc00) / 1024 == 0x37) ≡ true = ground arith in
    let v : 0x10000
          + ((c - 0x10000) / 1024 + 0xd800 - 0xd800) * 1024
          + ((c - 0x10000) % 1024 + 0xdc00 - 0xdc00)
        ≡ c =
      omega arith in
    rw (z, a, b, v) refl

utf16encode_small : (c : ℕ) → is_scalar c ≡ true → c < 0x10000 → utf16encode c ≡ c ∷ []
unfolding utf16encode encode16
utf16encode_small c h l = ground (arith, replaced_scalar c h)

utf16encode_large :
    (c : ℕ)
    → is_scalar c ≡ true
    → 0x10000 ≤ c
    → utf16encode c ≡ ((c - 0x10000) / 1024 + 0xd800) ∷ ((c - 0x10000) % 1024 + 0xdc00) ∷ []
unfolding utf16encode encode16
utf16encode_large c h l = ground (arith, replaced_scalar c h)

pub cmdline_loop-text16 :
    (s : List ℕ) (behind : Units) (m : Machine)
    → AreChars s
    → cmdline_loop (text16 s ++ (0 ∷ behind)) m ≡ run s m
unfolding text16
cmdline_loop-text16 [] [] m h = unfold cmdline_loop in refl
cmdline_loop-text16 [] (d ∷ behind) m h = unfold cmdline_loop in refl
cmdline_loop-text16 (c ∷ s) behind m (hc, hs) =
    let scalar = is_char_scalar c hc in
    elim (Bool-cases (leb 0x10000 c)) [
      | inl e ↦
          let l : 0x10000 ≤ c = ground arith in
          rw (utf16encode_large c scalar l) (
            cmdline_loop_pair c (text16 s ++ (0 ∷ behind)) m scalar l
            ∙ cmdline_loop-text16 s behind (step m c) hs)
      | inr n ↦
          let l : c < 0x10000 = ground arith in
          rw (utf16encode_small c scalar l) (
            cmdline_loop_single c (text16 s ++ (0 ∷ behind)) m hc l
            ∙ cmdline_loop-text16 s behind (step m c) hs)
    ]

-- The bytes of code points, surrogates included.
abbrev pub raw8 : List ℕ → Bytes
raw8 [] = []
raw8 (c ∷ s) = encode8 c ++ raw8 s

pub raw8-text8 : (s : List ℕ) → AreChars s → raw8 s ≡ text8 s
unfolding text8 utf8encode
raw8-text8 [] h = refl
raw8-text8 (c ∷ s) h =
    rw (replaced_scalar c (is_char_scalar c h.0)) (ap (◌++◌ (encode8 c)) (raw8-text8 s h.1))
