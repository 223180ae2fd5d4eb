-- ===== src/Tests/Platform.antt =====
-- Runs and witnesses of the platform layers.
use u_config.Base.{
  not, none, Bool, if◌then◌else◌, ◌++◌, ℕ, min, [], ◌∷◌, Bytes, List, length, ◌==◌, map, codes,
  Option, some, ◌≡◌, refl, arith,
}
use u_config.S8.{s8equals}
use u_config.S8.Cuts.{lacks, Lacks-lacks}
use u_config.FilePaths.{dirname}
use u_config.Search.{newsearch, appendpath}
use u_config.Search.Laws.{components}
use u_config.Settings.{start}
use u_config.Output.Chunks.{joined, AreChunks}
use u_config.Arena.{Arena, alloc}
use u_config.Arena.Bounds.{Allocates, alloc-Allocates}
use u_config.Windows.Console.{console_write}
use u_config.Windows.Console.Given.{all_taken, AreWhole, Keeps}
use u_config.Windows.Console.Writes.{console_write-Keeps}
use u_config.Windows.Startup.{
  slash_of, normalize, normalize_given, installdir, append2, makepath, fromenv, or_empty,
  default_path, fixed_path, windows_config,
}
use u_config.Windows.Startup.Directories.{below, start-windows_config}
use u_config.Load.{found}
use u_config.Windows.Unicode.{Units, towide, fromwide}
use u_config.Windows.Unicode.Texts.{text8, text16, fromwide-towide}
use u_config.Windows.Cmdline.{cmdline_to_argv8}
use u_config.Windows.Cmdline.Quoting.{quoted_rest, quote_arguments, command_line}
use u_config.Windows.Cmdline.RoundTrip.{cmdline_to_argv8-command_line}
use u_config.Platform.{sent, os_write_loop, os_write, os_mapfile, os_listing}
use u_config.Platform.Write.{Progresses, Delivered, os_write-Delivered}
use u_config.Platform.Map.{Gives, os_mapfile-found}

-- "p" and the arguments `a\"b c` and `\`.
abbrev program : List ℕ
program = b'p' ∷ []

abbrev arguments : List (List ℕ)
arguments = codes "a\\\"b c" ∷ codes "\\" ∷ []

quoted_line : command_line program arguments ≡ codes "\"p\" \"a\\\\\\\"b c\" \"\\\\\""
unfolding command_line quote_arguments quoted_rest
quoted_line = refl

cmdline_to_argv8-command_line_example :
    cmdline_to_argv8 (text16 (command_line program arguments) ++ (0 ∷ codes "x y"))
    ≡ map text8 (program ∷ arguments)
cmdline_to_argv8-command_line_example =
    cmdline_to_argv8-command_line program arguments (codes "x y") (refl, tt) (refl, tt)
      ((refl, (refl, (refl, (refl, (refl, (refl, tt)))))), ((refl, tt), tt))

-- A letter, the euro sign and a code point above 0xffff.
abbrev runes : List ℕ
runes = 0x61 ∷ 0x20ac ∷ 0x1f600 ∷ []

fromwide-towide_example :
    (fromwide (towide (text8 runes)) ≡ text8 runes)
    × (towide (fromwide (text16 runes)) ≡ text16 runes)
fromwide-towide_example = fromwide-towide runes

-- A byte that begins no sequence and a lone surrogate.
abbrev broken : Bytes
broken = 0xff ∷ 0x61 ∷ []

-- A kernel that takes two bytes of a call, or the one that there is.
abbrev two_bytes : ℕ → ℕ → Option ℕ
two_bytes n len = some (min 2 len)

some_inj : (a b : ℕ) → some a ≡ some b → a ≡ b
some_inj a b e = ground arith

two_bytes-Progresses : Progresses two_bytes
two_bytes-Progresses = record {
  takes = λ n len r l e.
      let same = some_inj (min 2 len) r e in (omega (arith, l, same), omega (arith, l, same));
}

written_in_pairs : os_write two_bytes (codes "hello") ≡ sent (codes "hello")
unfolding os_write os_write_loop
written_in_pairs = refl

os_write-Delivered_example :
    Delivered two_bytes (codes "hello") (os_write two_bytes (codes "hello"))
os_write-Delivered_example = os_write-Delivered two_bytes two_bytes-Progresses (codes "hello")

-- A kernel that gives three bytes of a call, or what there is.
abbrev three_bytes : ℕ → ℕ → ℕ → ℕ
three_bytes n len left = min 3 (min len left)

three_bytes-Gives : Gives three_bytes
three_bytes-Gives = record {
  some_bytes = λ n len left l m. omega (arith, l, m);
  asked = λ n len left. omega arith;
  there = λ n len left. omega arith;
}

os_mapfile-found_example :
    os_mapfile three_bytes 9 (some (codes "Name: x\n")) ≡ found (codes "Name: x\n")
os_mapfile-found_example = os_mapfile-found three_bytes three_bytes-Gives 9 (codes "Name: x\n")

only_packages :
    os_listing (some (codes "x.pc" ∷ codes "x.pc.in" ∷ codes "pc" ∷ codes "y.pc" ∷ []))
    ≡ codes "x.pc" ∷ codes "y.pc" ∷ []
only_packages = unfold os_listing in refl

abbrev variables : List (Bytes × Bytes)
variables =
    (codes "HOME", codes "/root")
    ∷ (codes "PKG_CONFIG_LIBDIR", codes "/a=b")
    ∷ (codes "PKG_CONFIG_PATH", [])
    ∷ []

-- A console that takes the first text only.
abbrev once : List Units → Units → Bool
once before text = length before == 0

console_write-Keeps_example :
    AreChunks 256 (console_write once (codes "hello")).written
    × AreWhole (console_write once (codes "hello")).written
    × ((console_write once (codes "hello")).err
        ≡ not (all_taken once [] (console_write once (codes "hello")).written))
    × Keeps
        (console_write once (codes "hello")).err
        (joined (console_write once (codes "hello")).written)
        []
        (towide (codes "hello"))
console_write-Keeps_example = console_write-Keeps once (codes "hello")

abbrev exe : Units
exe = codes "C:\\u\\bin\\pkg-config.exe"

-- PKG_CONFIG_PATH is set, and nothing else.
abbrev path_only : Bytes → Option Units
path_only name =
    if s8equals name (codes "PKG_CONFIG_PATH") then some (codes "D:\\a;;D:\\b") else none

searched :
    (start (windows_config [] exe path_only)).search.list
    ≡ codes "D:/a" ∷ codes "D:/b" ∷ codes "C:/u/lib/pkgconfig" ∷ codes "C:/u/share/pkgconfig" ∷ []
unfolding start windows_config fixed_path default_path fromenv installdir normalize slash_of
    makepath append2 normalize_given s8equals appendpath newsearch dirname fromwide
searched = refl

start-windows_config_example :
    (start (windows_config [] exe path_only)).search.list
    ≡ components b';' (normalize (or_empty (fromenv path_only (codes "PKG_CONFIG_PATH"))))
      ++ (normalize (below [] exe (codes "/lib/pkgconfig"))
          ∷ normalize (below [] exe (codes "/share/pkgconfig"))
          ∷ [])
unfolding lacks installdir normalize slash_of dirname fromwide fromenv s8equals
start-windows_config_example =
    start-windows_config [] exe path_only (Lacks-lacks b';' (installdir exe) refl) tt refl

abbrev room : Arena
room = record { beg = 1000; end = 1100 }

alloc-Allocates_example : Allocates room 3 5 (λ x. 7) (alloc room 3 5 (λ x. 7))
alloc-Allocates_example = alloc-Allocates room 3 5 (λ x. 7) (omega arith) (omega arith)
