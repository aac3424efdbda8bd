-- ===== src/Lib.antt =====
-- Animula is a virtual machine for Scheme on small devices. A program is a stream of byte codes
-- that the interpreter (vm.c) runs over a stack of bytes; the objects on the stack are packed
-- records of a type and a 32-bit word (inc/types.h), which is a number, a pointer to a block of
-- the heap, or an entry point. The primitives (primitives.c, number.c, bytevector.c) pop objects
-- and push their result. The parts meet in the object: the frames hold objects and saved
-- registers, the arithmetic and the bytevectors take and give objects, and the lists, pairs and
-- strings are blocks of one heap (Store) that objects point to and that equality walks.
--
-- The files:
--   Prelude, Prelude/*   the library's names, tests, lists and integers over the native numbers.
--   Run                  how a C function ends: with a value, in PANIC, or in undefined behaviour.
--   Object               inc/types.h, inc/object.h and object.c: object types, objects, constants.
--   Number/Gcd           inc/lib.h: `gcd` and `gcd64`; its theorems stand in Number/Gcd/Laws.
--   Number/Float         the floats of the C compiler and libm, a parameter of what uses them.
--   Number/Cast          type_cast.c and inc/type_cast.h.
--   Number/Arith         primitives.c: `_int_add` to `_int_remainder`. Reduce has the end that sums,
--                        products and quotients share, Exact the sums and products of rationals,
--                        Div the quotients, Ints the integers.
--   Number/Compare       primitives.c: `_int_eq`, `_int_gt`, `_int_lt`, `_int_le`, `_int_ge`.
--   Number/Rounding      number.c: the rounding procedures and the tests of numbers.
--   Vm/Memory            the bytes of the stack, and the layout of numbers and objects in them.
--   Vm/State             `struct LambdaVM`, and the state that a step of the machine threads through.
--   Vm/Stack             the pushes and pops of inc/vm.h.
--   Vm/Frame             `SAVE_ENV`, `FIX_PC`, `PROC_CALL`, `RESTORE`, shadow frames, variables. Laws
--                        has the bytes of a frame, Call the whole of a call and its return,
--                        Tail the tail calls, Simple the frames of `SAVE_ENV_SIMPLE`.
--   Vm/Decode            vm.c: the fetch of byte codes and operands, and the classes of byte codes.
--   Vm/Interp            vm.c and `CALL`: the functions of the classes of byte codes, `create_closure`,
--                        `generate_object`, `dispatch` and `vm_run`. Reach has the step relation of
--                        the machine, Fixed (Frames, Codes) what no byte code changes, Variables the
--                        variables that are written and the environments of closures.
--   Vm/Cells             the steps of the heap that the machine itself takes: cells, nodes, blocks.
--   Vm/Alloc             vm.c: the objects that `generate_object` allocates, and
--                        `handle_optional_args`. Insert has the heap of a list that grows, Lists the
--                        list that is built from the stack.
--   Vm/Prims             vm.c: `call_prim` for the primitives that are functions of objects, over the
--                        table of `primitives_init`. Groups has the cases, Laws the arithmetic byte
--                        codes, Cons the objects that `cons` leaves in the frame of `call_prim`.
--   Vm/Apply             vm.c: `call_prim` with `map`, `for-each`, `apply` and the exceptions, and
--                        `apply_proc`; `services` fills the record that the interpreter takes.
--                        Each of Alloc, Prims and Apply has a child Fixed, on what it leaves alone.
--   Vm/Load              vm.c: `vm_init_globals` and `vm_load_lef`, which install an image.
--   Bytevector           bytevector.c over a heap of blocks; Copy has the copies
--                        that `_bytevector_append` makes, Append the whole of it.
--   Store                inc/types.h: the heap of objects, list nodes, lists, pairs and strings.
--   Lists                list.c. Chain has the chains of nodes, Laws the length and the references,
--                        Update `_list_set`, Pairs `_car`, `_cdr` and `_cons`, Append the loop of
--                        `_list_append` and (Append/Laws) the whole of it, Sort the bubble sort,
--                        whose passes on numbers are in Sort/Bubble.
--   Strings              str.c; Bytes has the functions of string.h that it uses, Laws the strings
--                        that are read and made, Update those that are written to, FromList
--                        `_list_to_string`.
--   Equality             primitives.c: `_not`, `_eq`, `_eqv`, `_equal` and the tests of types.
--   Gc                   gc.c and inc/obg_gc.h, the collector of the builds without tinygc: the
--                        nodes allocated in advance and their booking. Free has the release of an
--                        object and of what it refers to, Roots the active roots of the stack,
--                        Collect the collection of the pools, the sweep and the pool allocation;
--                        Collect/Balance, Steps and Drain count the nodes, and Returns has the
--                        predicate of what a run returns.
--   Lef                  lef.c, inc/lef.h, storage.c: the loading of an image from its file.
--   */Tests              the theorems at concrete inputs.
--
-- Function names lose the underscore in front of them, and macros are in lower case. An object
-- `ret` that a primitive fills is an argument, and what it holds afterwards is the result. A value
-- is as in C on a 32-bit machine with little-endian words: `imm_int_t` has 32 bits and wraps where
-- the source casts, registers have 16 bits (`% 2 ^ 16`), `sizeof (Object)` is 5, a frame has 11
-- bytes, and a bit field begins at the lowest bit; the type of a byte code is its upper four bits.
-- A `s64_t` is an unbounded integer: the products and sums of the source stay inside 64 bits. What
-- C leaves undefined (a division by 0, an overflow, a null pointer, an access behind a block or
-- segment) is the outcome `fault`, and `PANIC` the outcome `panic`.
--
-- The loop of `gcd` runs on fuel, one more than its second argument, which falls in every round;
-- that this is enough is among the results. The loops over the nodes of a list run on fuel too,
-- and so does `_equal`: more fuel than the list has nodes is enough, and only a cyclic list, on
-- which C does not end, has none that is. `vm_run` runs on fuel, a round of the machine each;
-- Vm/Interp/Reach has the machine without it. The loops of `map`, `for-each` and `apply`, the
-- rounds of `apply_proc` and the calls of primitives inside one another share the fuel of
-- `services`, and `free_object` and `build_active_root` have fuel for the depth of an object, the
-- length of its lists and the frames; both end in `fault` where C would still go on. Every other
-- definition is without loops or falls with its argument. A string literal is an address in the
-- code, of which the heap has a copy; `write_back` of Vm/Alloc changes the code, and the immutable
-- bytevectors that show it, where a primitive writes to such a string. A new block of the heap is
-- zeroed, as `GC_malloc` of tinygc leaves it, and `char` is unsigned, as on the ARM boards.
--
-- Not modelled: the symbol table (`create_symbol_table`; the address of the symbols is the
-- parameter `Addresses`, that of the body of an image `body_at`); vector.c, whose two functions
-- are stubs; the loading of an image from a device (`load_lef_from_uart`, `load_lef_from_flash`);
-- `vm_init`, `vm_clean` and `vm_restart`, which allocate, free and reset; of the collector,
-- `gc_recycle_current_frame`, which is compiled on request only, and the release of the nodes at
-- the end (`gc_clean`); the reads of str.c from the console. An allocation of a block succeeds and
-- gives a block of its own, and the machine runs in the build with tinygc, where the collector's
-- hooks are empty. The device calls, the console and printing, which `call_prim` reaches, are the
-- parameter `Board`; the shell and the start of the program are input and output. tinygc.c,
-- inc/tiny_gc.h, inc/rbtree.h and inc/qlist.h come from other projects.
pub mod Prelude
pub mod Run
pub mod Object
pub mod Number
pub mod Vm
pub mod Store
pub mod Lists
pub mod Strings
pub mod Equality
pub mod Gc
pub mod Lef
pub mod Bytevector
