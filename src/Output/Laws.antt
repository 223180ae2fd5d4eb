-- ===== src/Output/Laws.antt =====
-- What reaches the descriptor of a buffer, and when a buffer in memory is full.
use u_config.Base.{
  ℕ, zero, suc, ◌+◌, ◌-◌, ◌≤◌, ◌<◌, true, false, [], ◌∷◌, ◌++◌, Bytes, List, ltb, ◌==◌,
  if◌then◌else◌, length, take, drop, ok, fail, ◌≡◌, refl, sym, ap, ◌∙◌, arith, append_assoc,
  append-nil, length-append, length-take, length-drop, take-append-drop, take-length, drop-length,
  Bool-cases, inl, inr,
}
use u_config.Output.{
  Sink, memory, file, U8buf, oom, os_write, flush_to, flush, filled, prints8_loop, prints8_to,
  prints8,
}
use u_config.Output.Chunks.{joined, AreChunks, joined-append, AreChunks-append}

-- A buffer of a descriptor between two operations.
pub record IsOutput (b : U8buf) : Type 0 where
  pub to_file : b.fd ≡ file
  pub has_room : length b.buf < b.cap
  pub chunks : AreChunks b.cap b.written

-- All bytes given to the buffer, in order.
abbrev pub text : U8buf → Bytes
text b = joined b.written ++ b.buf

joined-os_write : (ws : List Bytes) (buf : Bytes) → joined (os_write ws buf) ≡ joined ws ++ buf
unfolding os_write
joined-os_write ws [] = sym (append-nil (joined ws))
joined-os_write ws (c ∷ buf) = joined-append ws (c ∷ buf)

AreChunks-os_write :
    (cap : ℕ) (ws : List Bytes) (buf : Bytes)
    → AreChunks cap ws
    → length buf ≤ cap
    → AreChunks cap (os_write ws buf)
unfolding os_write
AreChunks-os_write cap ws [] h l = h
AreChunks-os_write cap ws (c ∷ buf) h l = AreChunks-append cap ws (c ∷ buf) h (omega arith) l

-- A buffer after more text.
pub record Printed (b : U8buf) (s : Bytes) (b' : U8buf) : Type 0 where
  pub output : IsOutput b'
  pub same_cap : b'.cap ≡ b.cap
  pub appended : text b' ≡ text b ++ s

-- A buffer that may be full.
record IsFilling (b : U8buf) : Type 0 where
  pub to_file : b.fd ≡ file
  pub bounded : length b.buf ≤ b.cap
  pub positive : 0 < b.cap
  pub chunks : AreChunks b.cap b.written

below : {m n : ℕ} → m ≤ n → (m == n) ≡ false → m < n
below l e = ground arith

filled-Printed : (b : U8buf) → IsFilling b → (b' : U8buf) × (filled b ≡ ok b') × Printed b [] b'
unfolding filled flush flush_to
filled-Printed b h = elim (Bool-cases (length b.buf == b.cap)) [
  | inl full ↦ (
    record b { buf = []; written = os_write b.written b.buf },
    rw (full, h.to_file) refl,
    record {
      output = record {
        to_file = h.to_file;
        has_room = h.positive;
        chunks = AreChunks-os_write b.cap b.written b.buf h.chunks h.bounded;
      };
      same_cap = refl;
      appended = ap (λ t. t ++ []) (joined-os_write b.written b.buf);
    },
  )
  | inr n ↦ (
    b,
    rw n refl,
    record {
      output = record { to_file = h.to_file; has_room = below (h.bounded) n; chunks = h.chunks };
      same_cap = refl;
      appended = sym (append-nil (text b));
    },
  )
]

-- What a round copies: something, within the space and the string.
round_count :
    (cap len left : ℕ)
    → len < cap
    → 0 < left
    → (0 < (if ltb (cap - len) left then cap - len else left))
      × ((if ltb (cap - len) left then cap - len else left) ≤ cap - len)
round_count cap len left l n = ground arith

length-copied :
    (n cap : ℕ) (buf s : Bytes)
    → length buf < cap
    → n ≤ cap - length buf
    → length (buf ++ take n s) ≤ cap
length-copied n cap buf s l m = omega (arith, length-append buf (take n s), length-take n s)

length-left : (n f c : ℕ) (s : Bytes) → 0 < n → length s ≤ f → length (drop n (c ∷ s)) ≤ f
length-left n f c s l m = omega (arith, length-drop n (c ∷ s))

join_parts :
    (w buf s t2 t3 : Bytes) (n : ℕ)
    → t2 ≡ (w ++ (buf ++ take n s)) ++ []
    → t3 ≡ t2 ++ drop n s
    → t3 ≡ (w ++ buf) ++ s
join_parts w buf s t2 t3 n p q =
    q
    ∙ ap (λ t. t ++ drop n s) (p ∙ append-nil _ ∙ sym (append_assoc w buf (take n s)))
    ∙ append_assoc (w ++ buf) (take n s) (drop n s)
    ∙ ap (◌++◌ (w ++ buf)) (take-append-drop n s)

prints8_loop-Printed :
    (f : ℕ) (b : U8buf) (s : Bytes)
    → IsOutput b
    → length s ≤ f
    → (b' : U8buf) × (prints8_loop f b s ≡ ok b') × Printed b s b'
unfolding prints8_loop
prints8_loop-Printed f b [] h l =
    (b, refl, record { output = h; same_cap = refl; appended = sym (append-nil (text b)) })
prints8_loop-Printed zero b (c ∷ s) h l = ground arith
prints8_loop-Printed (suc f) b (c ∷ s) h l =
    let avail = b.cap - length b.buf in
    let left = suc (length s) in
    let count = if ltb avail left then avail else left in
    let b1 : U8buf = record b { buf = b.buf ++ take count (c ∷ s) } in
    let (some_bytes, fits) = round_count b.cap (length b.buf) left h.has_room (omega arith) in
    let filling : IsFilling b1 = record {
      to_file = h.to_file;
      bounded = length-copied count b.cap b.buf (c ∷ s) h.has_room fits;
      positive = positive_room h.has_room;
      chunks = h.chunks;
    } in
    let (b2, e, p) = filled-Printed b1 filling in
    let (b3, e', q) =
      prints8_loop-Printed f b2 (drop count (c ∷ s)) p.output
        (length-left count f c s some_bytes (under l)) in
    (
      b3,
      rw e e',
      record {
        output = q.output;
        same_cap = q.same_cap ∙ p.same_cap;
        appended =
            join_parts (joined b.written) b.buf (c ∷ s) (text b2) (text b3) count p.appended
              q.appended;
      },
    )
  where
    positive_room : {m n : ℕ} → m < n → 0 < n
    positive_room l = omega arith

    under : {m n : ℕ} → suc m ≤ suc n → m ≤ n
    under l = omega arith

prints8_to-file :
    (fd : Sink) (b : U8buf) (s : Bytes)
    → fd ≡ file
    → prints8_to fd b s ≡ prints8_loop (length s) b s
unfolding prints8_to
prints8_to-file fd b s e = rw e refl

prints8_to-memory :
    (fd : Sink) (b : U8buf) (s : Bytes)
    → fd ≡ memory
    → prints8_to fd b s ≡ prints8_loop (length s) b s
unfolding prints8_to
prints8_to-memory fd b s e = rw e refl

flush_to-memory : (fd : Sink) (b : U8buf) → fd ≡ memory → flush_to fd b ≡ fail oom
unfolding flush_to
flush_to-memory fd b e = rw e refl

filled_full : (b : U8buf) → b.fd ≡ memory → length b.buf ≡ b.cap → filled b ≡ fail oom
unfolding filled flush
filled_full b m e =
    let t : (length b.buf == b.cap) ≡ true = ground arith in rw t (flush_to-memory b.fd b m)

filled_room : (b : U8buf) → length b.buf < b.cap → filled b ≡ ok b
unfolding filled
filled_room b l = let t : (length b.buf == b.cap) ≡ false = ground arith in rw t refl

prints8_loop-memory :
    (b : U8buf) (s : Bytes)
    → b.fd ≡ memory
    → length b.buf < b.cap
    → prints8_loop (length s) b s ≡ (
        if ltb (length b.buf + length s) b.cap
        then ok (record b { buf = b.buf ++ s })
        else fail oom)
unfolding prints8_loop
prints8_loop-memory b [] m l =
    let t : ltb (length b.buf + 0) b.cap ≡ true = ground arith in rw (t, append-nil b.buf) refl
prints8_loop-memory b (c ∷ s) m l =
    let left = suc (length s) in
    let avail = b.cap - length b.buf in
    elim (Bool-cases (ltb (length b.buf + left) b.cap)) [
      | inl fits ↦
          let small : ltb avail left ≡ false = ground arith in
          let size = length-append b.buf (c ∷ s) in
          let room : length b.buf + left < b.cap = ground arith in
          let e = filled_room (record b { buf = b.buf ++ (c ∷ s) }) (rw size room) in
          rw (fits, small, take-length s, e, drop-length s) refl
      | inr over ↦
          let count : (if ltb avail left then avail else left) ≡ avail = ground arith in
          let none_left : b.cap ≤ length b.buf + left = ground arith in
          let size : length (b.buf ++ take avail (c ∷ s)) ≡ b.cap =
            omega (arith, length-append b.buf (take avail (c ∷ s)), length-take avail (c ∷ s)) in
          let e = filled_full (record b { buf = b.buf ++ take avail (c ∷ s) }) m size in
          rw (over, count, e) refl
    ]

-- A buffer of a descriptor that has room takes every string: the bytes that were written before and
-- those in the buffer are followed by the string, every write has a byte at least and no more than
-- the capacity, and the buffer has room again.
pub prints8-Printed :
    (b : U8buf) (s : Bytes) → IsOutput b → (b' : U8buf) × (prints8 b s ≡ ok b') × Printed b s b'
unfolding prints8
prints8-Printed b s h =
    let (b', e, p) = prints8_loop-Printed (length s) b s h (omega arith) in
    (b', prints8_to-file b.fd b s h.to_file ∙ e, p)

-- A buffer in memory that has room takes a string if that leaves room, and else the program ends out
-- of memory.
prints8_memory :
    (b : U8buf) (s : Bytes)
    → b.fd ≡ memory
    → length b.buf < b.cap
    → prints8 b s ≡ (
        if ltb (length b.buf + length s) b.cap
        then ok (record b { buf = b.buf ++ s })
        else fail oom)
unfolding prints8
prints8_memory b s m l = prints8_to-memory b.fd b s m ∙ prints8_loop-memory b s m l
