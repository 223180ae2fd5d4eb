-- ===== src/Arena/Copy/Buffer.antt =====
-- Strings that are printed to the buffer in an arena's space.
use mathlib.Core.Path.{subst}
use u_config.Base.{
  ℕ, zero, suc, ◌+◌, ◌-◌, ◌≤◌, ◌<◌, true, [], ◌∷◌, ◌++◌, Bytes, List, ltb, ◌==◌, Result, ok, fail,
  out_of_fuel, ◌>>=◌, ◌≡◌, refl, sym, ap, ◌∙◌, inl, inr, arith, Bool-cases,
}
use u_config.Output.{oom}
use u_config.Arena.{Arena, Memory}
use u_config.Arena.Copy.{
  Slice, Membuf, newmembuf, Printed, not_full, prints8_loop, prints8, gets8, finalize,
}
use u_config.Arena.Copy.Texts.{
  bytes_at, text, Beside, Apart, bytes_at_same, bytes_at-add, u8copy-Beside, bytes_at-u8copy,
}
use u_config.Arena.Copy.Duplicate.{AreUsed}

-- The bytes are put behind those of the buffer, with room for one more, and nothing else is changed; or the
-- buffer is too small.
abbrev Adds : Membuf → ℕ → Bytes → Memory → Result Printed → Type 0
Adds b n t m (ok p) =
    (p.to ≡ record b { len = b.len + n })
    × (b.len + n ≤ b.cap)
    × (bytes_at n (b.buf + b.len) p.memory ≡ t)
    × ((x : ℕ) → Beside (b.buf + b.len) n x → p.memory x ≡ m x)
Adds b n t m (fail e) = (e ≡ oom) × (b.cap ≤ b.len + n)
Adds b n t m out_of_fuel = 0 < 0

module _ (b : Membuf) (s : Slice) (m : Memory) where
  prints8_loop-Adds :
      (n : ℕ)
      → s.len ≡ n
      → b.len ≤ b.cap
      → Apart s.s n b.buf b.cap
      → Adds b n (bytes_at n s.s m) m (prints8_loop n n b s m)
  unfolding prints8_loop not_full bytes_at
  prints8_loop-Adds zero size l apart =
      let e : b.len + 0 ≡ b.len = omega arith in rw e (refl, l, refl, λ x h. refl)
  prints8_loop-Adds (suc k) size l apart = elim (Bool-cases (ltb (b.cap - b.len) (suc k))) [
    | inl short ↦
        let full : (b.len + (b.cap - b.len) == b.cap) ≡ true = ground arith in
        rw (short, full) (refl, ground arith)
    | inr fits ↦ elim (Bool-cases (b.len + suc k == b.cap)) [
      | inl full ↦ rw (fits, full) (refl, ground arith)
      | inr room ↦
          let none_left : suc k - suc k ≡ 0 = omega arith in
          let front : s.s + (s.len - suc k) ≡ s.s = omega (arith, size) in
          let here : Apart (b.buf + b.len) (suc k) s.s (suc k) = ground arith in
          rw (fits, room, none_left, front)
            (
              refl,
              ground arith,
              bytes_at-u8copy (suc k) (b.buf + b.len) s.s m here,
              λ x h. u8copy-Beside (suc k) (b.buf + b.len) s.s m x h,
            )
    ]
  ]

  prints8-Adds :
      b.len ≤ b.cap → Apart s.s s.len b.buf b.cap → Adds b s.len (text s m) m (prints8 b s m)
  unfolding prints8
  prints8-Adds l apart = prints8_loop-Adds s.len refl l apart

-- Strings that are printed one behind another, and what they are together.
abbrev pub print_all : Membuf → List Slice → Memory → Result Printed
print_all b [] m = ok (record { to = b; memory = m })
print_all b (s ∷ ss) m = prints8 b s m >>= λ p. print_all p.to ss p.memory

abbrev pub total : List Slice → ℕ
total [] = 0
total (s ∷ ss) = s.len + total ss

abbrev pub all_text : List Slice → Memory → Bytes
all_text [] m = []
all_text (s ∷ ss) m = text s m ++ all_text ss m

abbrev pub AreApart : List Slice → ℕ → ℕ → Type 0
AreApart [] a n = Unit {0}
AreApart (s ∷ ss) a n = Apart s.s s.len a n × AreApart ss a n

all_text_same :
    (ss : List Slice) (a n : ℕ) (m m' : Memory)
    → AreApart ss a n
    → ((x : ℕ) → Beside a n x → m x ≡ m' x)
    → all_text ss m ≡ all_text ss m'
all_text_same [] a n m m' h same = refl
all_text_same (s ∷ ss) a n m m' (apart, h) same =
    ap (λ t. t ++ all_text ss m) (bytes_at_same s.len s.s m m' λ x l k. same x (ground arith))
    ∙ ap (λ t. text s m' ++ t) (all_text_same ss a n m m' h same)

abbrev with_len : Membuf → ℕ → Membuf
with_len b len = record b { len = len }

-- One string, and those behind it.
Adds-both :
    (b : Membuf) (n k : ℕ) (t t' : Bytes) (m : Memory) (p : Printed) (r : Result Printed)
    → Adds b n t m (ok p)
    → Adds p.to k t' p.memory r
    → Adds b (n + k) (t ++ t') m r
Adds-both b n k t t' m p (ok q) (to, room, bytes, same) (to', room', bytes', same') =
    let len : p.to.len ≡ b.len + n = ap (λ x. x.len) to in
    let buf : p.to.buf ≡ b.buf = ap (λ x. x.buf) to in
    let cap : p.to.cap ≡ b.cap = ap (λ x. x.cap) to in
    let sum : b.len + n + k ≡ b.len + (n + k) = omega arith in
    let second : p.to.buf + p.to.len ≡ b.buf + b.len + n = omega (arith, len, buf) in
    (
      to' ∙ ap (λ x. with_len x (x.len + k)) to ∙ ap (with_len b) sum,
      omega (arith, room', len, cap),
      bytes_at-add n k (b.buf + b.len) q.memory
          ∙ ap (λ t. t ++ bytes_at k (b.buf + b.len + n) q.memory)
              (bytes_at_same n (b.buf + b.len) q.memory p.memory
                  (λ x l h. same' x (inl (omega (arith, second, h))))
                ∙ bytes)
          ∙ ap (λ t'. t ++ t') (ap (λ a. bytes_at k a q.memory) (sym second) ∙ bytes'),
      λ x h. same' x (ground (arith, second)) ∙ same x (ground arith),
    )
Adds-both b n k t t' m p (fail e) (to, room, bytes, same) (message, full) =
    let len : p.to.len ≡ b.len + n = ap (λ x. x.len) to in
    let cap : p.to.cap ≡ b.cap = ap (λ x. x.cap) to in (message, omega (arith, full, len, cap))
Adds-both b n k t t' m p out_of_fuel a h = h

Adds-next :
    (b : Membuf) (n k : ℕ) (t t' : Bytes) (m : Memory) (r : Result Printed)
    (next : Printed → Result Printed)
    → Adds b n t m r
    → ((p : Printed) → Adds b n t m (ok p) → Adds p.to k t' p.memory (next p))
    → Adds b (n + k) (t ++ t') m (r >>= next)
Adds-next b n k t t' m (fail e) next (same, full) h = (same, omega (arith, full))
Adds-next b n k t t' m out_of_fuel next a h = a
Adds-next b n k t t' m (ok p) next a h = Adds-both b n k t t' m p (next p) a (h p a)

print_all-Adds :
    (b : Membuf) (ss : List Slice) (m : Memory)
    → b.len ≤ b.cap
    → AreApart ss b.buf b.cap
    → Adds b (total ss) (all_text ss m) m (print_all b ss m)
unfolding bytes_at
print_all-Adds b [] m l h =
    let e : b.len + 0 ≡ b.len = omega arith in rw e (refl, l, refl, λ x h. refl)
print_all-Adds b (s ∷ ss) m l (apart, h) =
    Adds-next b s.len (total ss) (text s m) (all_text ss m) m (prints8 b s m)
      (λ p. print_all p.to ss p.memory) (prints8-Adds b s m l apart)
      λ p (to, room, bytes, same).
        let len : p.to.len ≡ b.len + s.len = ap (λ x. x.len) to in
        let buf : p.to.buf ≡ b.buf = ap (λ x. x.buf) to in
        let cap : p.to.cap ≡ b.cap = ap (λ x. x.cap) to in
        let apart' : AreApart ss p.to.buf p.to.cap = rw (buf, cap) h in
        subst (λ t. Adds p.to (total ss) t p.memory (print_all p.to ss p.memory))
          (all_text_same ss b.buf b.cap p.memory m h λ x o. same x (ground arith))
          (print_all-Adds p.to ss p.memory (omega (arith, len, cap, room)) apart')

-- The string is what was printed, its bytes are taken from the beginning of the space, and no string
-- outside of the space is changed.
pub record IsPrinted (a : Arena) (ss : List Slice) (m : Memory) (p : Printed) : Type 0 where
  pub same : text (finalize p.to).slice p.memory ≡ all_text ss m
  pub at_beg : (finalize p.to).slice ≡ record { s = a.beg; len = total ss }
  pub arena : (finalize p.to).arena ≡ record a { beg = a.beg + total ss }
  pub within : a.beg + total ss ≤ a.end
  pub others : (t : Slice) → AreUsed a t.s t.len → text t p.memory ≡ text t m

abbrev pub Prints : Arena → List Slice → Memory → Result Printed → Type 0
Prints a ss m (ok p) = IsPrinted a ss m p
Prints a ss m (fail e) = (e ≡ oom) × (a.end - a.beg ≤ total ss)
Prints a ss m out_of_fuel = 0 < 0

abbrev slice_of : ℕ → ℕ → Slice
slice_of s len = record { s = s; len = len }

abbrev moved : Arena → ℕ → Arena
moved a n = record a { beg = a.beg + n }

Adds-Prints :
    (a : Arena) (ss : List Slice) (m : Memory) (r : Result Printed)
    → a.beg ≤ a.end
    → Adds (newmembuf a) (total ss) (all_text ss m) m r
    → Prints a ss m r
unfolding newmembuf finalize gets8
Adds-Prints a ss m (ok p) l (to, room, bytes, same) =
    let none_before : 0 + total ss ≡ total ss = omega arith in
    let begins : a.beg ≡ a.beg + 0 = omega arith in
    let len : p.to.len ≡ total ss = ap (λ x. x.len) to ∙ none_before in
    let buf : p.to.buf ≡ a.beg = ap (λ x. x.buf) to in
    record {
      same =
          ap (λ n. bytes_at n p.to.buf p.memory) len
          ∙ ap (λ s. bytes_at (total ss) s p.memory) (buf ∙ begins)
          ∙ bytes;
      at_beg = ap (λ s. slice_of s p.to.len) buf ∙ ap (slice_of a.beg) len;
      arena = ap (λ x. moved x.perm x.len) to ∙ ap (moved a) none_before;
      within = omega (arith, room, l);
      others = λ t u. bytes_at_same t.len t.s p.memory m λ x k n. same x (ground arith);
    }
Adds-Prints a ss m (fail e) l (message, full) = (message, omega (arith, full))
Adds-Prints a ss m out_of_fuel l h = h

-- Strings outside of the space that the arena has left, printed one behind another to a buffer of
-- `newmembuf` and finalized, are in memory the string of all their bytes, at the beginning of this space,
-- which then begins behind it; every string outside of the space keeps its bytes. Only where the strings
-- together leave no byte of the space, the program fails with the message.
pub print_all-IsPrinted :
    (a : Arena) (ss : List Slice) (m : Memory)
    → a.beg ≤ a.end
    → AreApart ss a.beg (a.end - a.beg)
    → Prints a ss m (print_all (newmembuf a) ss m)
print_all-IsPrinted a ss m l h =
    Adds-Prints a ss m (print_all (newmembuf a) ss m) l
      (print_all-Adds (newmembuf a) ss m (unfold newmembuf in omega arith) (unfold newmembuf in h))
