-- ===== src/Platform/Little.antt =====
-- Numbers in memory, as the fields of the structures that the kernel writes.
use u_config.Base.{ℕ, zero, suc, ◌+◌, ◌*◌, [], ◌∷◌, ◌++◌, Bytes, length, ◌≡◌, refl, ap, arith}

-- A number of `k` bytes in memory, the lowest first.
unfoldable pub little : ℕ → Bytes → ℕ
little zero s = 0
little (suc k) [] = 0
little (suc k) (c ∷ s) = c + 256 * little k s

pub little-append : (k : ℕ) (a b : Bytes) → length a ≡ k → little k (a ++ b) ≡ little k a
unfolding little
little-append zero a b h = refl
little-append (suc k) [] b h = ground arith
little-append (suc k) (c ∷ a) b h = ap (λ n. c + 256 * n) (little-append k a b (ground arith))
