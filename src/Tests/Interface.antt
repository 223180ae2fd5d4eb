-- ===== src/Tests/Interface.antt =====
-- Options and output buffers.
use u_config.Base.{
  ◌++◌, [], ◌∷◌, List, ◌≡◌, true, false, none, fail, refl, arith, codes, map, length, ok,
}
use u_config.S8.{s8equals}
use u_config.Args.{byte_is}
use u_config.Options.{Options, newoptions, results}
use u_config.Options.Laws.{
  Word, positional, flag, setting, print_word, meaning, argument, AreWords, results-words,
}
use u_config.Settings.{Config, start, options_loop}
use u_config.Output.{U8buf, newfdbuf, prints8}
use u_config.Output.Laws.{IsOutput, Printed, prints8-Printed}

abbrev words : List Word
words = flag (codes "h") ∷ setting (codes "W") (codes "/a=b") ∷ positional (codes "zlib") ∷ []

words-AreWords : AreWords words
unfolding s8equals byte_is
words-AreWords = (((refl, tt), omega arith, refl), ((refl, tt), (refl, tt)))

results-words_example :
    results
      (length (map print_word words ++ (codes "--" ∷ codes "-x" ∷ [])))
      (newoptions (map print_word words ++ (codes "--" ∷ codes "-x" ∷ [])))
    ≡ map meaning words ++ map argument (codes "-x" ∷ [])
results-words_example = results-words words (codes "-x" ∷ []) words-AreWords

abbrev small : U8buf
small = newfdbuf 4

small-IsOutput : IsOutput small
unfolding newfdbuf
small-IsOutput = record { to_file = refl; has_room = omega arith; chunks = tt }

prints8-Printed_example :
    (b' : U8buf) × (prints8 small (codes "abcdefghi") ≡ ok b')
    × Printed small (codes "abcdefghi") b'
prints8-Printed_example = prints8-Printed small (codes "abcdefghi") small-IsOutput

abbrev host : Config
host = record {
  pc_path = codes "/p";
  pc_sysincpath = codes "/i";
  pc_syslibpath = codes "/l";
  envpath = [];
  fixedpath = codes "/p:/q";
  top_builddir = none;
  sys_incpath = codes "/i";
  sys_libpath = codes "/l";
  print_sysinc = none;
  print_syslib = none;
  define_prefix = false;
  haslisting = true;
  delim = b':';
}

abbrev two_options : Options
two_options = record { args = codes "--static" ∷ codes "--variable" ∷ []; dashdash = false }

missing_value :
    options_loop 3 true (start host) two_options
    ≡ fail (codes "pkg-config: argument missing for --variable\n")
unfolding options_loop start
missing_value = refl
