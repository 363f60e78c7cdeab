-- ===== src/Lib.antt =====
-- A C library for 64-bit RISC OS (riscos64-simple-binaries), clib/: its own code, as AArch64 builds it.
--
-- The library gives programs and modules the C environment over the operating system's SWIs. A program
-- prints through `_vprintf`, which reads the format and hands pieces of text to an outputter: the one of
-- `sprintf` stores them in a buffer, others send them to a stream. A stream is a FILE with a dispatch
-- table, for the console, a file or a growing buffer. Blocks of memory come from `malloc`, over one of
-- several heap implementations. At the start the environment handlers are taken over, the heap is
-- laid out and the command line is cut into arguments, of which some redirect the standard streams; at
-- the end the exit handlers run, the streams are closed and the environment is put back.
--
-- The parts, and the files that model them:
--   Base            the shared helpers: C's tests, signed numbers, lists; `arith` for `omega`
--   Memory          clib/string/memmove.c; in Memory/ also memcpy.c (Copy), memset.c (Fill), memchr.c and
--                   memcmp.c (Search); Blit is the description of a copy, Move proves it of memmove,
--                   Word has the 64-bit words that clib/malloc.c stores.
--                   Memory is a function from addresses to bytes
--   Cvt/Decimal     clib/conversion/cvt_decimal.c (`__cvt_uint64_decimal`)
--   Cvt/Hex         clib/conversion/cvt_hex.c (`__cvt_uint64_hex`)
--   Io/Vprintf      clib/io/io-vprintf.c: the scan of a conversion (Vprintf), the texts of numbers and
--                   strings (Number), the conversions, fields and the loop of `_vprintf` (Convert). Its
--                   outputter is the interface `OutputterOf`. Related compares two outputters, Collected
--                   and Decimals say what the conversions print, Fuel and Scanned that the loop ends
--   Io/Sprintf      clib/io/io-sprintf.c: the outputter of a string; Io/Printf joins it to `_vprintf` as
--                   `vsprintf` and `vsnprintf`, and in Printf/Screen the outputter of the screen, clib/io/io-printf.c
--   Io/Sscanf       clib/io/sscanf.c
--   Io/Memstream    clib/io/io-memstream.c: the growing buffer, over any `realloc`
--   Io/Stream       clib/io/io-file-read.c, io-file-write.c, io-file-seek.c, io-file-misc.c and
--                   io-internal.h: the operations on a FILE, over the interface `Dispatch` of a device
--   Io/Open         clib/io/io-file-fopen.c and io-init.c: modes, opening, the chain of open files
--   Io/Reopen       clib/io/io-file-fopen-lesser.c, io-file-seek-lesser.c, and `__io_init`
--   Io/Fprintf      clib/io/io-fprintf.c, io-console.c, clib/errno/perror.c, and the checked calls of
--                   clib/io/stackcheck.c: `_vprintf` with the outputter of a stream
--   Io/Console      clib/io/io-consoleio.c: writing to the screen, over the interface `Vdu`; in
--                   Console/Input reading from the keyboard, over `Keyboard`, with the clock of
--                   Runtime/Clock, and `fgets` of clib/io/io-fgets.c
--   Fs/Device       clib/fs/fs-io.c: a file as the device of Io/Stream, over the interface `FileSwitch`
--   Fs/Errors       clib/fs/fs-errors.c, fs-remove.c and fs-rename.c
--   Fs/Tmpnam       clib/fs/fs-tmpnam.c
--   Fs/Tmpfile      clib/fs/fs-tmpfile.c, and `__fs_close` of fs-io.c
--   Str             clib/string/str*.c: a string is the bytes up to the first 0 (Memory/Text). Str/Copy,
--                   Compare, Span and Find hold the theorems. Str/Break is strpbrk.c, Str/Duplicate is
--                   strdup.c, which copies into blocks of Heap/Malloc
--   Ctypes          clib/ctypes: the tables of case (Ctypes) and of classes (Flags)
--   Start/Layout    clib/main.c, the checks of memory, and clib/heap/init.c
--   Start/Args      clib/main.c, both passes over the command line. The second rewrites it in place: InPlace
--                   compares it with a pass over lists (Written), Split the two passes with each other, and Words
--                   says what becomes of words
--   Start/Redirect  clib/main.c, `__cli_redirection`, over any `freopen`; its description is `redirected` in Laws
--   Runtime/Atexit  clib/atexit.c, with the static array
--   Runtime/Clock   clib/time/time-clock.c
--   Runtime/Env     clib/env.c: `_env_init` and `_env_restore`, over the interface `Environment`
--   Runtime/Handlers  clib/env.c, the handlers, and clib/clib.c, as the calls that they make
--   Runtime/Signal  clib/signal.c, with handlers that may do anything to the program's state
--   Runtime/Library clib/clib.c and module.c: the parts as they start, and as they end
--   Runtime/Failures  clib/assert.c, abort.c, `__stack_chk_fail`, `__heap_fatal`, and the default actions
--                   of clib/signal.c, as the calls that they make
--   Runtime/Time    clib/time/time-time.c
--   Sysvars         clib/sysvars: `getenv` with its buffer, over OS_ReadVarVal and an allocator
--   Kernel/Unwind   clib/kernel/kernel-unwind.c and kernel-backtrace.c
--   Kernel/Swi      clib/kernel/kernel-swi.c, kernel-swix.c and kernel-state.c, over the interface `Kernel`,
--                   which is `_kernel_swi`; Passing follows the arguments
--   Kernel/Calls    the veneers of clib/kernel: OS_Args, OS_Byte, OS_Find, OS_GBPB, OS_Word, OS_CLI and others
--   Heap/Impl       clib/heap/_heap_implementation.h, the interface of a heap
--   Heap/Accumulator  clib/heap/accumulator.c, an implementation of it
--   Heap/OsHeap     clib/heap/osheap.c, another, over OS_Heap
--   Heap/O1         clib/heap/o1heap-shim.c, the default one, over the calls of o1heap
--   Heap/Malloc     clib/malloc.c, over any implementation and over OS_Module
--   Tests           the theorems at concrete inputs, and runs
-- A Laws module beside a part holds its theorems.
--
-- Operations are functions from a state to a result and the state afterwards. Errors are values:
-- `errno` is a field of the state, NULL is 0 or `none`. Numbers are natural numbers with C's wrap-around
-- written out where it can happen; an `int` that may be negative is a `ℤ`. The SWIs, and what a handler or
-- a device does, are parameters: records whose fields are functions, and whose laws, if any, are what the
-- operating system documents.
--
-- Fuel. The loops of `memcpy` and `memset` run on the size, of which each round takes at least one byte.
-- `while (pad > 0)` of `_vprintf` runs on the padding, which each round makes smaller, the loop over lines
-- on the length of the text, and the loop over the format on its length, since each turn takes at least
-- one character. The console's loop runs on the number of bytes, the passes over the command line
-- and the loop over the arguments on their length. The theorems of these functions say what they give,
-- and so that the fuel is enough. The functions on strings return `none` if the terminator is not
-- reached; their theorems ask for more fuel than the string has characters. `getenv` has more turns
-- than its buffer has sizes, and the backtrace ends if the frames go up.
--
-- Not modelled: the operating system, the start-up code and the single SWIs in assembler; the texts of
-- errors and the calendar, which are copies; `abs`, `labs`, `atoi` and `atol`, which have no logic of
-- their own; the failure of `calloc` in `fopen`. Values of <signal.h>, <errno.h> and
-- <ctype.h>, which do not belong to the repository, are parameters. Code of other
-- projects in clib/ (the BSD sort, search, random, strtol, strtok, strcase and strftime, openlibm in clib/maths,
-- compiler-rt in clib/builtins, o1heap) is no subject of this library. A `long` of the target has 64 bits.
-- Where C leaves the behaviour undefined (an `int` that overflows in a field width, an argument of the
-- wrong type) the model gives some value, which the files say.
pub mod Base
pub mod Memory
pub mod Cvt
pub mod Io
pub mod Runtime
pub mod Heap
pub mod Start
pub mod Str
pub mod Fs
pub mod Kernel
pub mod Sysvars
pub mod Ctypes
mod Tests
