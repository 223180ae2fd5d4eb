-- ===== src/FilePaths.antt =====
-- `dirname`, `basename`, `buildpath`, `realnameispath` and `pathtorealname` of src/u-config.c.
pub mod Laws
use u_config.Base.{
  ℕ, zero, suc, ◌+◌, ◌-◌, Bool, true, false, not, ◌&&◌, [], ◌∷◌, ◌++◌, Bytes, ltb, ◌==◌,
  if◌then◌else◌, length, codes, get_elem?, Option, none, some,
}
use u_config.S8.{pathsep, takehead, taketail, cuthead, cuttail, s8equals}

-- `pathsep(path.s[i])`, at an index that the loops keep in range.
unfoldable pub sep_at : Bytes → ℕ → Bool
unfolding pathsep
sep_at [] i = false
sep_at (c ∷ s) zero = pathsep c
sep_at (c ∷ s) (suc i) = sep_at s i

-- `while (len>0 && !pathsep(path.s[--len])) {}`
pub dirname_loop : Bytes → ℕ → ℕ
dirname_loop path zero = 0
dirname_loop path (suc len) =
    let next = dirname_loop path len in if not (sep_at path len) then next else len

unfoldable pub dirname : Bytes → Bytes
unfolding dirname_loop takehead sep_at
dirname path = takehead path (dirname_loop path (length path))

-- `for (; len>0 && !pathsep(path.s[len-1]); len--) {}`
pub basename_loop : Bytes → ℕ → ℕ
basename_loop path zero = 0
basename_loop path (suc len) =
    let next = basename_loop path len in if not (sep_at path len) then next else suc len

unfoldable pub basename : Bytes → Bytes
unfolding basename_loop taketail sep_at
basename path = taketail path (length path - basename_loop path (length path))

-- The four copies fill the new string; its last byte is the terminator.
unfoldable pub buildpath : Bytes → Bytes → Bytes
buildpath dir pc = dir ++ (codes "/" ++ (pc ++ (codes ".pc" ++ 0 ∷ [])))

unfoldable pub realnameispath : Bytes → Bool
unfolding taketail s8equals
realnameispath realname = ltb 3 (length realname) && s8equals (taketail realname 3) (codes ".pc")

-- `for (i = 0; i < path.len; i++) if (pathsep(path.s[i])) baselen = i + 1;`
pub baselen_loop : ℕ → ℕ → Bytes → ℕ
baselen_loop i baselen [] = baselen
baselen_loop i baselen (c ∷ s) = baselen_loop (i + 1) (if pathsep c then i + 1 else baselen) s

unfoldable pub pathtorealname : Bytes → Bytes
unfolding realnameispath baselen_loop cuthead cuttail pathsep
pathtorealname path =
    if not (realnameispath path) then path else cuttail (cuthead path (baselen_loop 0 0 path)) 3
