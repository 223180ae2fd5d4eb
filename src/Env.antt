-- ===== src/Env.antt =====
-- The environments of src/u-config.c: `insert` as it is used on an `env`, and `lookup`. A value is a
-- string or the null string that a new binding has.
use u_config.Base.{Bytes, ◌≡◌, if◌then◌else◌, Option, none, some, arith}
use u_config.S8.{s8equals}
use u_config.S8.Laws.{s8equals_refl}
use u_config.Trie.{Trie, find, insert, assign}
use u_config.Trie.Laws.{find-insert, find-assign}

abbrev pub Env : Type 0
Env = Trie (Option Bytes)

-- The string behind the pointer that a search returns, null where there is none.
abbrev pub value_of : Option (Option Bytes) → Option Bytes
value_of none = none
value_of (some v) = v

-- `*insert(&e, name, perm) = value`
unfoldable pub bind : Bytes → Bytes → Env → Env
unfolding insert assign
bind name value e = assign name (some value) (insert name none e)

-- The global environment first, then the other.
abbrev or_else : Option (Option Bytes) → Option (Option Bytes) → Option (Option Bytes)
or_else none s = s
or_else (some v) s = some v

unfoldable pub lookup : Env → Env → Bytes → Option Bytes
unfolding find
lookup global env name = value_of (or_else (find name global) (find name env))

pub find-bind :
    (name other value : Bytes) (e : Env)
    → find other (bind name value e)
      ≡ (if s8equals name other then some (some value) else find other e)
unfolding bind
find-bind name other value e = ground (
  arith,
  find-assign name other (some value) (insert name none e),
  s8equals_refl name,
  find-insert name other none e,
  find-insert name name none e,
)

-- A variable that is bound globally has that value whatever the package says, and any other has the
-- package's.
pub lookup-bind_global :
    (name other value : Bytes) (global env : Env)
    → lookup (bind name value global) env other
      ≡ (if s8equals name other then some value else lookup global env other)
unfolding lookup
lookup-bind_global name other value global env = ground (arith, find-bind name other value global)

pub lookup-bind_env :
    (name other value : Bytes) (global env : Env)
    → find other global ≡ none
    → lookup global (bind name value env) other
      ≡ (if s8equals name other then some value else lookup global env other)
unfolding lookup
lookup-bind_env name other value global env h = ground (arith, find-bind name other value env)
