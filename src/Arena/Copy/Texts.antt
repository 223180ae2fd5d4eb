-- ===== src/Arena/Copy/Texts.antt =====
-- What copies leave in memory.
use u_config.Base.{
  ℕ, zero, suc, ◌+◌, ◌%◌, ◌≤◌, ◌<◌, [], ◌∷◌, ◌++◌, Bytes, length, ◌≡◌, refl, ap, ◌∙◌, ◌⊎◌, inl, inr,
  arith,
}
use u_config.Arena.{Memory, write_byte, fillbytes}
use u_config.Arena.Copy.{u8copy, memcpy, memset, Slice}

-- The bytes from an address on.
unfoldable pub bytes_at : ℕ → ℕ → Memory → Bytes
bytes_at zero a m = []
bytes_at (suc n) a m = m a ∷ bytes_at n (a + 1) m

abbrev pub text : Slice → Memory → Bytes
text s m = bytes_at s.len s.s m

-- The address is not one of the `n` from `a` on.
abbrev pub Beside : ℕ → ℕ → ℕ → Type 0
Beside a n x = (x < a) ⊎ (a + n ≤ x)

-- Two ranges have no address in common.
abbrev pub Apart : ℕ → ℕ → ℕ → ℕ → Type 0
Apart a n b k = (a + n ≤ b) ⊎ (b + k ≤ a)

pub length-bytes_at : (n a : ℕ) (m : Memory) → length (bytes_at n a m) ≡ n
unfolding bytes_at
length-bytes_at zero a m = refl
length-bytes_at (suc n) a m = ap suc (length-bytes_at n (a + 1) m)

pub bytes_at_same :
    (n a : ℕ) (m m' : Memory)
    → ((x : ℕ) → a ≤ x → x < a + n → m x ≡ m' x)
    → bytes_at n a m ≡ bytes_at n a m'
unfolding bytes_at
bytes_at_same zero a m m' h = refl
bytes_at_same (suc n) a m m' h =
    ap (λ c. c ∷ bytes_at n (a + 1) m) (h a (omega arith) (omega arith))
    ∙ ap (◌∷◌ (m' a)) (bytes_at_same n (a + 1) m m' λ x l k. h x (omega arith) (omega arith))

pub bytes_at-add :
    (n k a : ℕ) (m : Memory) → bytes_at (n + k) a m ≡ bytes_at n a m ++ bytes_at k (a + n) m
unfolding bytes_at
bytes_at-add zero k a m =
    let e : a + 0 ≡ a = omega arith in let f : 0 + k ≡ k = omega arith in rw (e, f) refl
bytes_at-add (suc n) k a m =
    let e : a + suc n ≡ a + 1 + n = omega arith in
    let f : suc n + k ≡ suc (n + k) = omega arith in
    rw (e, f) (ap (◌∷◌ (m a)) (bytes_at-add n k (a + 1) m))

pub u8copy-Beside :
    (n dst src : ℕ) (m : Memory) (x : ℕ) → Beside dst n x → u8copy n dst src m x ≡ m x
unfolding u8copy write_byte
u8copy-Beside zero dst src m x h = refl
u8copy-Beside (suc n) dst src m x (inl l) =
    u8copy-Beside n (dst + 1) (src + 1) (write_byte m dst (m src)) x (inl (omega arith))
    ∙ ground arith
u8copy-Beside (suc n) dst src m x (inr l) =
    u8copy-Beside n (dst + 1) (src + 1) (write_byte m dst (m src)) x (inr (omega arith))
    ∙ ground arith

pub bytes_at-u8copy :
    (n dst src : ℕ) (m : Memory)
    → Apart dst n src n
    → bytes_at n dst (u8copy n dst src m) ≡ bytes_at n src m
unfolding bytes_at u8copy write_byte
bytes_at-u8copy zero dst src m h = refl
bytes_at-u8copy (suc n) dst src m h =
    let m' = write_byte m dst (m src) in
    let first : u8copy n (dst + 1) (src + 1) m' dst ≡ m src =
      u8copy-Beside n (dst + 1) (src + 1) m' dst (inl (omega arith)) ∙ ground arith in
    let apart : Apart (dst + 1) n (src + 1) n = ground arith in
    ap (λ c. c ∷ bytes_at n (dst + 1) (u8copy n (dst + 1) (src + 1) m')) first
    ∙ ap (◌∷◌ (m src)) (
        bytes_at-u8copy n (dst + 1) (src + 1) m' apart
        ∙ bytes_at_same n (src + 1) m' m λ x l k. ground arith)

-- The routines of src/memory.c do as the loops of src/u-config.c.
memcpy-u8copy : (n d s : ℕ) (m : Memory) → memcpy n d s m ≡ u8copy n d s m
unfolding memcpy u8copy write_byte
memcpy-u8copy zero d s m = refl
memcpy-u8copy (suc n) d s m = memcpy-u8copy n (d + 1) (s + 1) (write_byte m d (m s))

memset-fillbytes : (n d c : ℕ) (m : Memory) → memset n d c m ≡ fillbytes n d (c % 256) m
unfolding memset fillbytes write_byte
memset-fillbytes zero d c m = refl
memset-fillbytes (suc n) d c m = memset-fillbytes n (d + 1) c (write_byte m d (c % 256))
