-- ===== src/Lib.antt =====
-- The tool chain and the runtime of cova, a small scripting language, as far as they are modelled:
-- the lexer, the types and the layout of structs, constant folding, the assembly of the compiled
-- functions, the linker, the program image, the byte segments, the program memory, the bytecode
-- and the virtual machine of the Go package in cova/.
--
-- The parts. A script is compiled and linked into a program: bytecode, constants, initialised
-- data, the sizes of the segments and a table of function descriptors. Before, an optimizer may
-- fold the constants of its syntax tree. The compiler puts the code of its functions one behind
-- the other. The linker gives every function an index, writes it into the calls and collects the
-- parameters of all functions in two tables. A linked program may be written as an image, from
-- which it is loaded later. The machine loads a program, resets its memory, enters the entry point
-- and executes one instruction after another, on an operand stack and on call frames that are both
-- segments of its memory. A call of a host function goes through a dispatcher that the host
-- registers. Every operation returns a status, and the first failure of a run is kept in a record
-- that the host may ask for.
--
--   Prelude        numbers, lists and integers that the other modules share
--   Status         cova/vm-status.go: the statuses, and the record of the last fault
--   Kind           cova/types.go: the value kinds, opcodes and operations, with their numbers
--   Segment        cova/segment-memory.go: byte slices with a capacity. One function with a width
--                  n stands for the four functions of 1, 2, 4 and 8 bytes (`read_uint` for
--                  ReadUint8 to ReadUint64, and so on); a word is a number, cut to n bytes
--   Address        cova/segment-memory.go: addresses of a segment and an index
--   Memory         cova/program-memory.go: the segments by their numbers, reads and writes
--   Code           cova/code-memory.go: the encoding of instructions, the appends and the reads
--   Word           the integer arithmetic and comparisons of cova/vm.go on bit patterns
--   Floats         floating point, a parameter
--   Program        cova/types.go: the linked program
--   Types          cova/types.go: Type and its alignment; Basic (the named types, PromoteType,
--                  pointers, valueKindFromType), Layout (ArrayOf, NewStructType, alignUpInt) and Align
--                  (alignUpU32, checkedAlignUpU32)
--   Lex            cova/lex.go: Tokenize and what it calls; Kinds (the tables), Literals (numbers and
--                  strings), Scan (the loop); Progress, Widths, Laws, Order and Ends are about it
--   Image          cova/image.go: validateProgramImage, linkedProgramToImage, linkedProgramFromImage,
--                  BuildProgramImage and OpenProgramImage
--   Link           cova/link.go: Link, one function for each of its loops; Params, Functions and Calls
--                  follow the loops, Program is about the whole
--   Compile        cova/compile.go: assembleFunctionBlocks; Jumps is about the operands of the jumps,
--                  Blocks about the place of each function, Operands about the calls
--   Optimize       cova/optimize.go: the folding of two literals (optimizerArithmetic,
--                  optimizerCompare and the conversions of literals)
--   Vm             cova/vm.go: State (the struct VM, setFault, recordStatus, the random numbers),
--                  Stack (pushes and pops), Compute (arithmetic, comparison, conversion), Calls
--                  (enterScriptFunction, returnFromFunction), BuiltIn (executeBuiltIn and what it
--                  calls; the functions' numbers are those of cova/builtins.go), Run (callExtern, the
--                  instructions and the loop of RunLoaded), Load (LoadProgram, Reset, RunLoaded, Run)
--                  and Image (LoadProgramImage, RunImage)
--   Vm.Keeps       what every operation of the machine keeps, one child for each part of the machine
--   Tests          a small program, a host and a memory, a struct, a line to lex, functions to
--                  assemble and to link, an image and constants to fold, and the theorems at them
--
-- The machine is a record that the actions pass on. An action of type M A takes the state and ends
-- with a value or with a status, and with the state either way, since the source returns statuses
-- and keeps what it had changed. `recorded` is the caller's `return vm.recordStatus(status)`.
--
-- Numbers are natural numbers; the arithmetic of the source wraps around where its type does, and
-- `% 2 ^ w` says so. An `int` is taken to have 64 bits, so that the conversions of hostIntFromUint32
-- succeed. Pointers that the source tests for nil are never nil here.
--
-- A function that may fail with a message returns a value of Checked: the value, or an error whose
-- name stands for the message. Types hold each other by `nil` or a reference, as the pointers of the
-- source do; a type is compared by what it is made of.
--
-- A script may loop for ever. The loop takes fuel, the number of instructions it may execute, and a
-- run that uses it up ends as such and not as a success. No theorem says that a run ends.
--
-- Parameters. Floats holds the floating-point operations of Go and of package math, as functions of
-- bit patterns, without laws. A float expression that a compiler may fuse is computed step by step.
-- The time between two ticks is a function of the milliseconds. The host's dispatcher is a function
-- from the import and the machine to a status and the machine; the theorems that need it ask that it
-- keeps the machine well formed, which includes the program that is loaded, and that it has recorded
-- no fault when it returns VMStatusOK. ImageCodec is package codestream, which writes the bytes of
-- an image and reads them; where it matters, the theorem asks that it reads back what it wrote.
--
-- The capacity that `append` leaves behind a copy of so many bytes, which the length does not tell, is
-- a parameter of the linker and of the assembly: a patch of a word behind the end of the code is lost
-- in it, or is a panic behind it. No theorem asks anything of it.
--
-- The lexer takes a turn of its loop for a rune, a comment or a token. What it needs of the packages
-- unicode, utf8 and strconv is the record Unicode, a parameter; a rune is taken to have at least one
-- byte. The length of the source is its fuel.
--
-- Not modelled: the parser, the type checker and code generator (cova/parse*.go, the rest of
-- cova/compile.go, cova/context.go) and what of cova/ast.go belongs to them; the walk of the
-- optimizer over the syntax tree; the report and the debug symbols of the linker; IsSameType,
-- which compares pointers; the extern block that the host binds, whose bytes the host and the
-- script share; the command line; and the runtime in C++ under source/.
pub mod Prelude
pub mod Status
pub mod Kind
pub mod Segment
pub mod Address
pub mod Memory
pub mod Code
pub mod Compile
pub mod Word
pub mod Floats
pub mod Program
pub mod Types
pub mod Lex
pub mod Image
pub mod Link
pub mod Optimize
pub mod Vm
pub mod Tests
