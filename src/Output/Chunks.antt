-- ===== src/Output/Chunks.antt =====
-- The texts of writes to a descriptor.
use u_config.Base.{
  ℕ, ◌≤◌, ◌<◌, [], ◌∷◌, ◌++◌, Bytes, List, length, ◌≡◌, sym, ap, ◌∙◌, append_assoc, append-nil,
}

abbrev pub joined : List Bytes → Bytes
joined [] = []
joined (w ∷ ws) = w ++ joined ws

-- Every write has at least one byte, and at most `cap`.
abbrev pub AreChunks : ℕ → List Bytes → Type 0
AreChunks cap [] = Unit {0}
AreChunks cap (w ∷ ws) = (0 < length w) × ((length w ≤ cap) × AreChunks cap ws)

pub joined-append : (ws : List Bytes) (w : Bytes) → joined (ws ++ (w ∷ [])) ≡ joined ws ++ w
joined-append [] w = append-nil w
joined-append (v ∷ ws) w = ap (◌++◌ v) (joined-append ws w) ∙ sym (append_assoc v (joined ws) w)

pub AreChunks-append :
    (cap : ℕ) (ws : List Bytes) (w : Bytes)
    → AreChunks cap ws
    → 0 < length w
    → length w ≤ cap
    → AreChunks cap (ws ++ (w ∷ []))
AreChunks-append cap [] w h n l = (n, (l, tt))
AreChunks-append cap (v ∷ ws) w (a, (b, h)) n l = (a, (b, AreChunks-append cap ws w h n l))
