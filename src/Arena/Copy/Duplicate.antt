-- ===== src/Arena/Copy/Duplicate.antt =====
-- A string that is copied to a block of the arena.
use u_config.Base.{ℕ, ◌+◌, ◌-◌, ◌≤◌, ◌<◌, Result, ok, fail, out_of_fuel, ◌>>=◌, ◌≡◌, ap, ◌∙◌, arith}
use u_config.Output.{oom}
use u_config.Arena.{Arena, Memory, Allocated, alloc}
use u_config.Arena.Bounds.{Allocates, IsBlock, alloc-Allocates}
use u_config.Arena.Copy.{u8copy, Slice, s8copy, Placed, news8, duplicate}
use u_config.Arena.Copy.Texts.{text, Apart, bytes_at_same, u8copy-Beside, bytes_at-u8copy}

-- The range does not meet the space that the arena has left.
abbrev pub AreUsed : Arena → ℕ → ℕ → Type 0
AreUsed a s n = Apart s n a.beg (a.end - a.beg)

-- The slice has the string's bytes, it lies in what was the arena's space and no longer is, and no string
-- outside of this space is changed.
pub record IsCopy (a : Arena) (name : Slice) (m : Memory) (p : Placed) : Type 0 where
  pub same : text p.slice p.memory ≡ text name m
  pub beg : p.arena.beg ≡ a.beg
  pub left : a.beg ≤ p.arena.end
  pub taken : p.arena.end ≤ p.slice.s
  pub within : p.slice.s + p.slice.len ≤ a.end
  pub others : (t : Slice) → AreUsed a t.s t.len → text t p.memory ≡ text t m

abbrev pub Duplicates : Arena → Slice → Memory → Result Placed → Type 0
Duplicates a name m (ok p) = IsCopy a name m p
Duplicates a name m (fail e) = (e ≡ oom) × (a.end - a.beg < name.len + 8)
Duplicates a name m out_of_fuel = 0 < 0

abbrev placed : ℕ → Allocated → Placed
placed len r = record {
  slice = record { s = r.block; len = len };
  arena = r.arena;
  memory = r.memory;
}

module _ (a : Arena) (name : Slice) (m : Memory) (l : a.beg ≤ a.end)
    (used : AreUsed a name.s name.len) where
  block-IsCopy :
      (r : Allocated)
      → IsBlock a 1 name.len m r
      → IsCopy a name m (record {
        slice = record { s = r.block; len = name.len };
        arena = r.arena;
        memory = u8copy name.len r.block name.s r.memory;
      })
  block-IsCopy r h =
      let at_end = h.at_end in
      let from = h.from in
      let rest_beg = ap (λ x. x.beg) h.rest in
      let rest_end = ap (λ x. x.end) h.rest in
      let apart : Apart r.block name.len name.s name.len = ground arith in
      record {
        same =
            bytes_at-u8copy name.len r.block name.s r.memory apart
            ∙ bytes_at_same name.len name.s r.memory m λ x k n. h.zeros.outside x (ground arith);
        beg = rest_beg;
        left = omega (arith, rest_end, from);
        taken = omega (arith, rest_end);
        within = omega (arith, at_end);
        others = λ t u. bytes_at_same t.len t.s (u8copy name.len r.block name.s r.memory) m λ x k n.
            u8copy-Beside name.len r.block name.s r.memory x (ground arith)
            ∙ h.zeros.outside x (ground arith);
      }

  allocated-Duplicates :
      (r : Result Allocated)
      → Allocates a 1 name.len m r
      → Duplicates a name m (do
        copy ← (r >>= λ b. ok (placed name.len b))
        ok (record copy { memory = (s8copy copy.slice name copy.memory).memory }))
  unfolding s8copy
  allocated-Duplicates (ok r) h = block-IsCopy r h
  allocated-Duplicates (fail e) (same, (pad, (small, rounds), less)) = (same, omega arith)
  allocated-Duplicates out_of_fuel h = h

-- A string outside of the space that the arena has left is copied by `news8` and `s8copy` to a block that
-- is taken from this space, and every string outside of the space keeps its bytes. Only where the space is
-- less than the string and 8 bytes may the copy fail, with the message.
pub duplicate-IsCopy :
    (a : Arena) (name : Slice) (m : Memory)
    → a.beg ≤ a.end
    → AreUsed a name.s name.len
    → Duplicates a name m (duplicate a name m)
unfolding duplicate news8
duplicate-IsCopy a name m l used =
    allocated-Duplicates a name m l used (alloc a 1 name.len m)
      (alloc-Allocates a 1 name.len m l (omega arith))
