-- ===== src/Lib.antt =====
-- u-config, a small pkg-config clone in C: its core, src/u-config.c, as functions and state machines.
--
-- The program reads its options, searches directories for package files, parses them, expands their
-- variables, loads what they require, and prints the compiler arguments of their fields. The parts
-- and the files that model them:
--
-- S8, S8/Laws, S8/Cuts: byte strings (s8equals, startswith, digits, nexttoken, s8cut). A slice is the
--   list of its bytes; a string whose pointer may be null is an Option.
-- Trie, Trie/Laws, Env: s8hash and the hash tries of insert, locate and findargpos, one algorithm over
--   three node types; lookup in two environments.
-- Encode: pathencode, pathdecode, s8pathencode.
-- FilePaths, FilePaths/Laws: dirname, basename, buildpath, realnameispath, pathtorealname.
-- Version and below: parseop, opname, validcompare, compareversions. Version/Key and Version/Lex are
--   the order of versions with no C in it, Version/Order relates the two.
-- Search, Search/Laws: newsearch, append, appendpath, prependpath. none is the write through a null
--   pointer.
-- Expand and below: expand, its stack of 128 strings as a list. Expand/Spec is the meaning of a string
--   by recursion on the depth that is left, Expand/Machine relates the two. The machine is run for the
--   number of rounds that the recursion counts.
-- Dequote and below: shellmeta and dequote.
-- Args and below: dedupable, appendarg, excludearg, inposition. Args/Kept says which arguments are kept
--   by the list of arguments alone.
-- Options, Options/Laws: nextoption, getargopt, parseuint. Output, Output/Laws: u8buf, flush, prints8,
--   with the writes to a descriptor as a list; the parts above these print into plain strings.
-- Settings, Settings/Total: the option loop of uconfig and the variables that the options set.
-- Writer and below: filterok, msvcize, insertsyspath, appendfield, writeargs, as the text they print.
-- Spec and below: parsespecs. Package and below: fieldbyname, stripescapes, parsepackage. Both give the
--   text of their errors or the duplicate's name; their loops run on the length of their text.
--   Package/Pieces and Package/Values are the ways to write a value, with escapes, blanks and a comment.
-- Load and below: readpackage, findpackage, setprefix, expandmerge. os_mapfile, which the platform
--   provides, is a parameter.
-- Process and below: process with its stack of 256 entries, on fuel that is a parameter; process_step
--   is one round. A pointer to a package is its realname, which is its key in the trie. Process/Order
--   is the meaning of an entry by recursion on the entries that there is room for, Process/Machine
--   relates the two, and Process/Depth says which stacks the rounds reach. Process/Once and the files
--   that it uses follow the list of the packages through the rounds.
-- Program: uconfig behind its options, one definition for each of its phases. A phase gives what it
--   prints on out, and the text of err where it fails. Program/Usage and Program/Listing: usage, list.
--   Program/Exit: uconfig as a whole, with what reaches the two descriptors and the exit status; out is
--   written when its 4096 bytes are full and at the end. The fuel of uconfig is that of process.
--   Program/Fields and Program/Gathered are the output for compiler arguments by the lists of all
--   arguments, with no writer and no trie in it; Writer/System the lists of those that are left out.
--   Program/Rounds is about the loops that end silently on too little fuel.
-- Windows/Unicode and below: utf8decode_, utf8encode_, utf16decode_, utf16encode_, towide_, fromwide_ of
--   main_windows.c. Windows/Cmdline and below: cmdline_to_argv8 of src/cmdline.c, its nine states by
--   name; a character that is read again is read in the same step. Windows/Cmdline/Quoting writes the
--   command lines that it reads back.
-- Windows/Console and below: os_write of main_windows.c with flushconsole_ and printc32_. Windows/Startup
--   and below: normalize_, installdir_, makepath_, fromenv_ and the configuration of mainCRTStartup; the
--   string that fixedpath shares with pc_path is normalized in both. Windows/Files and below: os_mapfile
--   and os_listing of main_windows.c. Windows/Unicode/Formed: the code points of converted texts.
--   Windows/Session and below: the calls of os_write in a run, and the exit status.
-- Platform and below: os_write, os_mapfile, os_listing of main_posix.c and src/linux_noarch.c, where the
--   system calls are parameters that are told their number, what they are asked for and what is left.
--   Platform/Environment: the macros of a build, and the configuration that main and os_main make of them
--   and of the environment.
--   Platform/Directory and below: os_listing of src/linux_noarch.c, over the bytes that getdents64 writes
--   to its buffer; a round takes a record, and the fuel bounds the number of calls. Platform/Start and
--   below: main of main_posix.c, entrypoint and os_main of src/linux_noarch.c, from the words on the stack.
-- Wasm and below: main_wasm.c over the calls of its host. Wasm: the open directories and find_dirfd.
--   Wasm/Files: os_mapfile, os_write. Wasm/Directory: os_listing, over the bytes that fd_readdir writes
--   and the memory behind them, with the offset that a negative length moves back; a round takes the 24
--   bytes of a header at least unless the offset moves back, and the fuel bounds the number of calls.
--   Wasm/Start: _start. The fuel of find_preopens bounds the number of descriptors that are tried.
-- Arena and below: fillbytes and alloc over addresses and a memory. Arena/Copy and below: strings as they
--   are in memory, with news8, s8copy, newmembuf, prints8, finalize and src/memory.c. The other parts take
--   memory as unlimited and strings as lists.
-- Base and below: names, tests, lists over the native numbers, and Result. A fail is a call of os_fail
--   after the given text was written to the error stream.
-- Tests and below: runs at concrete inputs.
--
-- Not modelled: of main_windows.c, main_posix.c, main_wasm.c and src/linux_noarch.c the arenas,
-- os_fail and what only calls the system; the entry points in assembly (main_linux_*.c), main_msvc.c and
-- src/miniwin32.h; the tests, and main_fuzz.c, whose build goes on behind a missing field.
pub mod Base
pub mod S8
pub mod Arena
pub mod Version
pub mod Encode
pub mod FilePaths
pub mod Search
pub mod Trie
pub mod Env
pub mod Expand
pub mod Dequote
pub mod Args
pub mod Options
pub mod Output
pub mod Writer
pub mod Settings
pub mod Spec
pub mod Package
pub mod Load
pub mod Process
pub mod Program
pub mod Platform
pub mod Windows
pub mod Wasm
pub mod Tests
