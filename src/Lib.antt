-- ===== src/Lib.antt =====
-- Verification library of lua-testcase: the C modules under src/ that the test runner of the Lua
-- modules under lib/ and bin/ is built on. Each C module is a handful of functions that Lua
-- calls; each takes its arguments from Lua, calls the operating system, keeps a little state of
-- its own in a userdatum, and returns values to Lua.
--
-- Common holds the shared names: Boolean tests, lists, and integers with the conversions between
-- the C integer types. Lua is the exchange with Lua: its values, the checks of lauxlib on
-- arguments (Lua/Args), and how a C function runs (Lua/Run): on a state, against an operating
-- system that is a parameter and may answer each call by all that was called and answered before,
-- with a trace of the calls. What the system is relied on for stands as a named hypothesis of the
-- theorem that needs it.
--
-- Timer is src/timer.c: Timer.antt has the userdatum testcase_timer_t and its methods (start_lua
-- is start, and so on), Timer/Clock the Darwin clock and nanotime, Timer/Units the choice of a
-- unit, Timer/Sleep sleep and the time that it asks for, Timer/Refinement the stopwatch that a
-- timer implements. Times are kept modulo 2 ^ 64.
--
-- Fork is src/fork.c: Fork.antt has the process userdatum and wait, pid, is_child, gc and fork;
-- Fork/Safety is about the calls made over its life, Fork/Table about many userdata of one
-- process and Fork/Inherited about those that it has from its parent (Fork/Events has what it
-- does with them), Fork/Report about results.
--
-- Signal is src/signal.c: Signal.antt has the table SIGNALS, on whatever system, and the two
-- lookups; Signal/Names has signames, what its table holds is in its child modules; Signal/Calls
-- has the functions that Lua calls, Signal/Lookup and Signal/Agreement what holds of them.
-- Signal/Dispositions joins them to src/nosigpipe.c, which is Nosigpipe.antt.
--
-- Rlimit is src/rlimit.c: Rlimit.antt has rlimit_lua and its steps, Rlimit/RoundTrip and
-- Rlimit/Errors what holds of them.
--
-- Socketpair is src/socketpair.c: Socketpair.antt has the methods, Socketpair/Lifetime is about a
-- descriptor from its creation to gc, Socketpair/Flags about O_NONBLOCK, Socketpair/Buffers about
-- the buffer sizes, Socketpair/Stream about what is written to one socket and read from the
-- other.
--
-- Readdir is src/readdir.c: Readdir.antt has readdir_lua, on fuel, with errno and the height of
-- the Lua stack as its state; Readdir/Visits is about its result, the stream and the stack,
-- Readdir/Ends about its end.
--
-- Select is src/select.c: Select.antt has head_lua, tail_lua and len_lua on the list of the
-- arguments, Select/Split is about what they split.
--
-- Xpcall is src/xpcall.c: Xpcall.antt has xpcall_lua on the Lua stack, Xpcall/Results is about
-- what it returns.
--
-- Nosigchld is src/nosigchld.c: Nosigchld.antt has nosigchld_lua and the state that it keeps,
-- Nosigchld/Disposition is about the process's disposition of SIGCHLD.
--
-- Stat is src/stat.c and src/fstat.c: Stat.antt has stat_lua and fstat_lua, Stat/Perm is about
-- the text of the permissions, Stat/Documented about what the two return and its fields,
-- Stat/Descriptors about the descriptor of fstat and what the two agree on.
--
-- Descriptor is src/close.c and src/shutdown.c: Descriptor.antt has close_lua and shutdown_lua,
-- Descriptor/Handles is about the descriptor that they take from an argument, Descriptor/Options
-- about the option of shutdown.
--
-- Realpath is src/realpath.c: Realpath.antt has luaopen_testcase_realpath (luaopen) and
-- realpath_lua, Realpath/Buffer is about the buffer.
--
-- Loading is luaopen_testcase_timer, _fork, _socketpair, _signal and _select of their files:
-- Loading.antt has the Lua machine that they run on, Loading/Loops their loops over arrays of
-- functions, Loading/Modules the modules that are tables, Loading/Userdata those that make a
-- metatable, with what Lua code reaches through it in Loading/Userdata/Dispatch and
-- Loading/Userdata/Methods; Loading/Calls joins them to the models of timer, fork and socketpair,
-- whose functions the methods are. Loading/Functions has luaopen_* of the modules that are one
-- function. Lua/Format is about texts that a C function formats.
--
-- Process is src/chdir.c and src/getpid.c. Runner is lib/runner.lua: Runner.antt has call,
-- run_test, run_setup_teadown, run_file and the loop of run over files, with chdir of
-- lib/filesystem.lua, Runner/Selection has select_testcases, Runner/Run has run, block and
-- unblock. Runner/Functions is about single functions, Runner/Counts and Runner/Files about a
-- file, Runner/Totals about all files, Runner/Directory about the working directory. Command is
-- bin/testcase.lua: Command.antt has what follows loadfiles, Command/Selected get_pathnames and
-- get_files, Command/Selected/Names is about their loops, Command/Selected/Paths about the paths
-- of the arguments, Command/Selected/Files about the list, and Command/Selected/Trees about the
-- list where getfiles is that of Walk. Registry is lib/registry.lua: Registry.antt has add, clear
-- and getlist, Registry/Added is about what is in the registry, Registry/Results about the
-- results of add, Registry/Visited and Registry/Listed about the list of getlist;
-- Command/Registered joins it to the command. Getopts is lib/getopts.lua: Getopts/Names is about
-- the value of --testcase, Getopts/Order about the whole line. Paths is lib/trim.lua, and
-- trim_cwd of lib/filesystem.lua. Walk is walkdir and getfiles of lib/filesystem.lua: Walk/Trees
-- has the trees of files that they are to list, Walk/Visits is about a directory, Walk/Lists
-- about walkdir, Walk/Found about getfiles, Walk/Whole about the names before trim_cwd. Eval is
-- parse_inlineopt of lib/eval.lua: Eval/Phases says what the lines of a file are to do,
-- Eval/Breaks and Eval/Checks are about line breaks and single lines, Eval/Inline about the
-- whole, Eval/Splits cuts a text into lines, and Eval/Replaced is about what is replaced. Printer
-- is lib/printer.lua: Printer/Loops and Printer/Formats are about parse_format, Printer/Lines
-- about printline. Iohook is lib/iohook.lua, Iohook/Sessions is about its calls in sequence.
--
-- The loop of readdir_lua runs on fuel, for a directory may have no end; any fuel greater than
-- the number of its entries is enough (Readdir/Visits). The loop of parse_testcase takes one more
-- than the length of its value (Getopts/Names). Other loops run over lists (the table of signals,
-- the arguments, the list of method calls of a theorem), and use none, but for walkdir, which
-- needs as much as the tree is deep (a link that leads back to a directory above it has no such
-- depth), and the loops over lines, which take one more than the length of the text. Not
-- modelled: eval's loading of a file, getstat, vstringify, the texts of the command's output, and
-- what only calls Lua (getcwd, exit, testcase). The texts that snprintf and strerror make are
-- kept as what they are made from.
pub mod Command
pub mod Common
pub mod Lua
pub mod Timer
pub mod Fork
pub mod Getopts
pub mod Registry
pub mod Signal
pub mod Iohook
pub mod Eval
pub mod Paths
pub mod Printer
pub mod Walk
pub mod Process
pub mod Rlimit
pub mod Runner
pub mod Socketpair
pub mod Nosigchld
pub mod Nosigpipe
pub mod Stat
pub mod Readdir
pub mod Select
pub mod Xpcall
pub mod Descriptor
pub mod Realpath
pub mod Loading
