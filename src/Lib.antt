-- ===== src/Lib.antt =====
-- AkLisp: a Lisp interpreter in C. Source text is read by the lexer, compiled to a bytecode and
-- run by an executor; all of them keep their objects in lists and vectors, and the objects come
-- from the pools of a mark and sweep allocator.
--
-- Files and the code that they model:
--   Base, Base/*    shared helpers: lists over the native numbers, Boolean tests, blocks of bytes
--   Vector          src/vector.c. `struct akl_vector` is a record; its memory is a list of bytes, a
--                   pointer into it is an offset, NULL is `none`
--   Gc/Word         the bit macros of src/gc.c on one `unsigned int`
--   Gc/Pool         `struct akl_gc_pool` and the functions on one pool
--   Gc/Types        the types, their pools, the marks, and what the objects refer to
--   Gc/Sweep        the markers of the base types and akl_gc_sweep
--   Gc/Alloc        the pools of a type and akl_gc_malloc
--   Gc/Memory       akl_alloc and its like over the callbacks of the memory, with the count of bytes
--   Lexer/*         src/lexer.c on a string device: its characters, the device and its buffer, the loops
--                   that copy a word, and akl_lex
--   Lists           src/list.c over a heap that maps an address to an entry; a `struct akl_list` is a
--                   value, and a function that updates one returns the new header
--   Frames          the value stack and the frames of src/aklisp.c: two headers on shared entries
--   Values, Values/* `struct akl_value` as a tree, its constructors and conversions (src/types.c), copies
--                   (src/list.c) and akl_compare_values (src/aklisp.c)
--   Machine         the value stack as a sequence, with the frame as positions in it
--   Machine/Code    instructions and labels, and their builders in src/compile.c
--   Machine/Exec    akl_ir_exec_branch, the calls of functions, akl_execute
--   Compile/Parse   the parser of quoted data in src/parser.c
--   Compile/Forms   akl_compile_next, akl_parse_params and the special forms of src/lib_spec.c
--   Compile/Lists   akl_compile_list and akl_compile
--   Compile/Expr    expressions, the lexemes they are read from, the code that the compiler builds for
--                   each, and a semantics without code
--   Builtins        the functions in C of src/lib.c that lisp programs call; Builtins/Args the functions of
--                   src/aklisp.c that take their arguments off a frame, Builtins/Table the table
--                   `akl_basic_funs`, through which the executor calls them
--   Symbols         symbols, global variables and the declaration of functions, src/types.c and src/util.c;
--                   Symbols/Globals puts them under the executor
--   Features        the switches of the interpreter by name, src/util.c and src/gc.c
--   Errors          the list of errors in src/aklisp.c
-- Modules below these hold invariants, refinements, limits and, in Tests, runs of the code and
-- its theorems at concrete data.
--
-- How the parts interact: gc.c keeps the memory of a pool in a vector, and lists get their entries
-- from akl_gc_malloc. In Lists the entry that the allocator hands out is an argument, `fresh`.
--
-- Compile works on the list of the lexemes that akl_lex returns; symbols, functions and functions in C
-- are numbers. A value does not know its place in the source and is not shared; what the variables
-- are is a parameter, as are atof, strcmp and the symbol table. A special form gets its own copy of
-- the context, so that the code and the arguments of the function around it come back.
--
-- Integers are natural numbers; a double is its bits; an `unsigned int` wraps at 2^32
-- where the code computes with it.
-- What `realloc`, `malloc` or an uninitialised variable leave is an argument: `junk`, `fresh`, `ind`.
-- A pointer that is followed although it is NULL or holds nothing is `none`, a fault; so is an
-- assertion that fails.
-- Fuel: akl_gc_malloc calls itself after a collection, at most once. The loops of the lexer get one
-- unit for each character that is left and one or two more. The parser gets more units than there
-- are lexemes, the executor one for each instruction; the run of a program says that some number
-- of units is enough.
--
-- A red-black tree is the record `Tree` of its operations by names, with the laws `IsTree` of a search
-- tree and of `strcasecmp`.
-- The functions of the library get the operations of the processor on doubles and integers as the record
-- `Arith`, and `atoi` and `strtok` as functions. `map`, `foldl` and `times` call back with the executor.
--
-- Not modelled: the red-black trees of src/akl_tree.h (code of another project), the operating
-- system layer, the interactive program, modules, files, printing, the assembler, `append!` and
-- `insert!`, which change a list that others may share, user types, markers that an extension registers,
-- and what a frame reads after a pop or a call took one of its entries off the stack: such a step of
-- the executor is `none`.
pub mod Base
pub mod Vector
pub mod Gc
pub mod Lists
pub mod Lexer
pub mod Frames
pub mod Values
pub mod Machine
pub mod Compile
pub mod Errors
pub mod Builtins
pub mod Symbols
pub mod Features
