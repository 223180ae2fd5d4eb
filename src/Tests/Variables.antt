-- ===== src/Tests/Variables.antt =====
-- Expansion of variables.
use u_config.Base.{Bytes, ◌≡◌, refl, codes}
use u_config.Trie.{leaf}
use u_config.Env.{Env, bind, lookup}
use u_config.S8.{cuthead, takehead}
use u_config.Expand.{scan, name_at, after_name, done}
use u_config.Expand.Machine.{expand, expansion, expand-expansion, max_depth}

abbrev vars : Env
vars = bind (codes "libdir") (codes "${prefix}/lib") (bind (codes "prefix") (codes "/usr") leaf)

abbrev loop : Env
loop = bind (codes "a") (codes "${a}x") leaf

abbrev file : Bytes
file = codes "x.pc"

libdir : expand leaf vars file (codes "-L${libdir} $$") ≡ done (codes "-L/usr/lib $")
unfolding expand lookup bind scan name_at cuthead after_name takehead
libdir = refl

expand-expansion_example :
    expand leaf vars file (codes "-L${libdir}")
    ≡ expansion leaf vars file max_depth (codes "-L${libdir}")
expand-expansion_example = expand-expansion leaf vars file (codes "-L${libdir}")
