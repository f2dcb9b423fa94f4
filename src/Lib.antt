-- ===== src/Lib.antt =====
-- The program is an ELF reader and section merger for ARM object files, with the loader of a remote
-- ARM simulator beside it. ARM_runner.c loads a file into one structure, prints parts of it, moves its
-- symbols, carries out its absolute relocations, removes its relocation sections and writes it back.
-- arm_simulator_interface.c sends code to a simulator in packets of the gdb protocol.
--
-- Parts and files:
--   Common      Boolean tests on the native numbers, lists, and fixed-width words with the byte swaps
--               of <byteswap.h> on a little-endian host.
--   Stdio       what the program uses of <stdio.h>: a source stream with a position, a destination
--               stream, and the outcomes `ok`, `exit` (exit(1)) and `fault` (undefined behaviour: an
--               access outside an array, a pointer that is null or was never set).
--   Elf         structure.h, and the structures of <elf.h>.
--   Header      loadHeader of Functions/readElfHeader.c and writeHeader of Functions/writeFile.c.
--   Sections    loadTabSectionHeader of Functions/readSectionHeader.c, writeSectionHeader of
--               Functions/writeFile.c.
--   Symbols     loadSymTable of Functions/readSymTable.c.
--   Relocs      loadRelocTable of Functions/readRelocTable.c; Counts is about what it counts.
--   Contents    loadSectionContent of Functions/readSectionContent.c.
--   Names       printName of util.c.
--   Implantation
--               Functions/implantation.c: Delete is deleteRel, Move correctSymTable and Patch
--               correctABSReloc.
--   Writer      compare and writeSectionContent of Functions/writeFile.c.
--   Display     the printing functions of Functions/: lines are lists of items, each a text, a number
--               or the characters of a name.
--   Runner      main of ARM_runner.c, as a run of options over the structure and the two files;
--               Start opens the files. The file that is written is the subject of Coherent, Reread,
--               Alike, Moves and Relocated.
--   Fits        main again: the sizes of the fields and the counts from one call to the next.
--   Debug       add_debug_to, __is_debugged and __debug_raw_binary of debug.c, and the macro
--               is_debugged of debug.h where it keeps its first answer (Cached).
--   Gdb         the packets of gdb_protocol.c, is_big_endian of util.c.
--   Scanner     scanner.c: its tables and the loop that matches a token. Rules reads the patterns of
--               scanner.l by themselves, as the specification of that loop. There the input is one
--               list of characters; Buffer is yylex on the buffer that `read` fills, with its memory;
--               Stack is the stack of such buffers and their lifetime.
--   Simulator   the actions of scanner.l, the answers of gdb_protocol.c, arm_simulator_interface.c,
--               and main of ARM_runner_example.c.
--   Examples    the theorems at concrete data.
--
-- A C integer is a natural number with its wrap-around written out. A function that reads the source
-- is a step of the monad `M`; reading moves the position, which later functions rely on only behind
-- their own fseek. Pointers that are never written are told apart from null ones and from blocks. An
-- array is a list, and an index outside it a fault. What a failed fread leaves behind is not read.
--
-- Loops over a counted array are structural in the count. The `while` of deleteRel runs on e_shnum
-- rounds of fuel, of which each removes a section or passes one. The search of __is_debugged and the
-- rounds of gdb_write_memory return `none` where their fuel does not suffice; the search starts with
-- one round more than there are names, and the sending of memory with one for each byte. The scanner
-- takes a round for a token, of which each has a character at least, and its chain of default states
-- has three at most. On the buffer, a round of yylex is one through a NUL or through a read, and fuel
-- is asked for above twice the number of characters. The loop of yylex_destroy takes two rounds of
-- fuel, since the second finds no buffer.
--
-- qsort is a parameter, since the C standard leaves the order of equal offsets open; where something is
-- assumed of it, it is that no element of the table is lost. Parameters too are access and fopen for
-- the start of the program, read for the scanner, what malloc and realloc leave in new memory, and
-- socket, connect and the addresses of getaddrinfo for arm_connect. The byte orders of host and
-- simulator are arguments of the packets that write a register.
--
-- Not modelled: memory that malloc refuses, an fwrite that fails, the printing itself, getopt_long, atoi and strtol, which
-- give `main` its options; csapp.c, a support library; of scanner.c, yylex on a buffer over memory that
-- is not filled again and the accessors, which the program does not call, and input(), which it does
-- not compile; the scripts and build files.
pub mod Common
pub mod Stdio
pub mod Elf
pub mod Header
pub mod Sections
pub mod Symbols
pub mod Relocs
pub mod Contents
pub mod Names
pub mod Implantation
pub mod Writer
pub mod Debug
pub mod Gdb
pub mod Display
pub mod Runner
pub mod Scanner
pub mod Simulator
pub mod Fits
pub mod Examples
