-- ===== src/Program/Checks.antt =====
-- What a successful run has checked.
use u_config.Base.{
  ℕ, true, false, [], ◌∷◌, Bytes, List, ◌==◌, ◌≡◌, refl, Option, none, some, Bool-cases, inl, inr,
  Result, ok, fail, out_of_fuel,
}
use u_config.Version.{Op}
use u_config.Expand
use u_config.Expand.{Expansion, done, stopped}
use u_config.Spec.{Pkgspec, parsespecs}
use u_config.Load.{Filemap, Pkg, text_of}
use u_config.Process.{Pkgs, satisfies, process}
use u_config.Settings.{Config, Settings}
use u_config.Program.{
  next, with_result, check_override, print_packages, checked_packages, packages, processor_of,
  run_packages,
}

abbrev pub AllSatisfy : Op → Bytes → List Pkg → Type 0
AllSatisfy op want [] = Unit {0}
AllSatisfy op want (p ∷ pkgs) =
    (satisfies op (text_of p.fields.version) want ≡ true) × AllSatisfy op want pkgs

check_override-AllSatisfy :
    (op : Op) (want : Bytes) (pkgs : List Pkg) (a : Bytes)
    → check_override (some op) want pkgs ≡ done a
    → AllSatisfy op want pkgs
unfolding check_override
check_override-AllSatisfy op want [] a h = tt
check_override-AllSatisfy op want (p ∷ pkgs) a h =
    elim (Bool-cases (satisfies op (text_of p.fields.version) want)) [
      | inl e ↦ (e, check_override-AllSatisfy op want pkgs a (rw e at h))
      | inr n ↦ let q = rw n at h in cc
    ]

-- What was checked of the packages, where an operator was given.
abbrev pub AreChecked : Option Op → Bytes → List Pkg → Type 0
AreChecked none want pkgs = Unit {0}
AreChecked (some op) want pkgs = AllSatisfy op want pkgs

check_override-AreChecked :
    (o : Option Op) (want : Bytes) (pkgs : List Pkg) (a : Bytes)
    → check_override o want pkgs ≡ done a
    → AreChecked o want pkgs
check_override-AreChecked none want pkgs a h = tt
check_override-AreChecked (some op) want pkgs a h = check_override-AllSatisfy op want pkgs a h

next-done : (m k : Expansion) (out : Bytes) → next m k ≡ done out → (a : Bytes) × (m ≡ done a)
next-done (done a) k out h = (a, refl)
next-done (stopped a e) k out h = cc
next-done Expand.out_of_fuel k out h = cc

with_result-done {ℓ} :
    {A : Type ℓ} (r : Result A) (k : A → Expansion) (out : Bytes)
    → with_result r k ≡ done out
    → (a : A) × (r ≡ ok a) × (k a ≡ done out)
with_result-done (ok a) k out h = (a, refl, h)
with_result-done (fail e) k out h = cc
with_result-done out_of_fuel k out h = cc

-- A run that ends well has parsed its specifications, processed them and found a package at least;
-- with `--atleast-version`, `--exact-version` or `--max-version`, the version of every package that was
-- loaded satisfies the operator.
pub run_packages-AreChecked :
    (os_mapfile : Bytes → Filemap) (fuel : ℕ) (conf : Config) (s : Settings) (out : Bytes)
    → run_packages os_mapfile fuel conf s ≡ done out
    → (specs : List Pkgspec) × (t : Pkgs) × (parsespecs s.args none ≡ ok specs)
      × (process os_mapfile (processor_of s) fuel specs ≡ ok t)
      × ((t.count == 0) ≡ false)
      × AreChecked s.override_op s.override_version (packages t)
unfolding run_packages checked_packages print_packages
run_packages-AreChecked os_mapfile fuel conf s out h =
    let (specs, e, h') = with_result-done (parsespecs s.args none) _ out h in
    let (t, e', h'') = with_result-done (process os_mapfile (processor_of s) fuel specs) _ out h' in
    elim (Bool-cases (t.count == 0)) [
      | inl z ↦ let q = rw z at h'' in cc
      | inr n ↦
          let (a, c) =
            next-done (check_override s.override_op s.override_version (packages t)) _ out
              (rw n at h'') in
          (
            specs,
            t,
            e,
            e',
            n,
            check_override-AreChecked s.override_op s.override_version (packages t) a c,
          )
    ]
