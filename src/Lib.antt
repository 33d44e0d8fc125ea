-- ===== src/Lib.antt =====
-- A model of the Cranelift backend of rustc, with proofs.
--
-- The program (src/) turns rustc's intermediate representation into Cranelift instructions. Its
-- parts call one another: a function is generated on a `FunctionCx`, which holds the builder of the
-- Cranelift function and the queries of rustc; operations on numbers take and give `CValue`s, which are
-- SSA values or lie in memory behind a `Pointer`; and a limiter bounds how many functions are
-- generated at once.
--
-- How the files correspond to the code:
-- - Clif.antt is the interface of Cranelift's instruction builder. Cranelift is a dependency, so it is
--   a parameter: the record `Clif` has one operation for each kind of instruction that the code
--   appends, and `Clif.Documented` states what Cranelift documents of them, as laws over the bit
--   pattern of a value. The laws are those of well typed instructions; `Clif.Concrete` has a machine
--   that meets all of them.
-- - Codegen.antt has rustc's types, layouts and operators as far as the code matches on them, the
--   queries of rustc as the parameter `Tcx`, and the monad of code generation: the state `Fx` and
--   `panic` for `unreachable!`, `bug!`, `unwrap` and failed assertions.
-- - Types.antt and FunctionCx.antt are src/common.rs: the mapping of types; constants, comparisons with
--   a constant, stack slots, whose bounds are in `FunctionCx.Slots`.
-- - Pointer.antt is src/pointer.rs, with the addresses that pointers stand for in `Pointer.Addresses`.
-- - ValueAndPlace.antt and the files below it are src/value_and_place.rs: the values here, Place the places,
--   Fields the fields of both, Write what is written to a place, Assignable the check of the types, Literals the
--   values of constants.
--   ReadBack and ReadBackPair read back what was written, Elements has the addresses of elements.
-- - Unsize.antt is `size_and_align_of` of src/unsize.rs: Dynamic has the formula for the layout, Alignments the
--   rounding that the code leaves out, Layouts the single instructions and Computed the whole. `Unsize.Coerce` has the coercions of that file, Slices those
--   from arrays to slices. Vtable.antt has the common entries of src/vtable.rs.
-- - Body.antt and the files below it, and Panics.antt, are src/base.rs: Places the places of MIR, Operands the
--   operands and with them the values of constants of src/constant.rs, Syntax the statements and terminators of
--   MIR as far as they are modelled, Statements and Terminators their code. Blocks are not numbered in the
--   model: the code of a block ends in an `Exit`, which names the blocks of MIR that it goes to, and the block of
--   a failed assertion. The state after an assertion is that of the failure's block. Assigns, Branches, Jumps and
--   Repeats have the theorems on them.
-- - Optimize.antt is src/optimize/peephole.rs, with the data flow graph as a parameter: `Optimize.Meaning` proves
--   what the two lookups say of a value.
-- - Prelude.antt is `codegen_fn_prelude` of src/abi/mod.rs, with the layouts of the places in `Prelude.Layouts` and
--   `Prelude.Places`, and Variadic.antt `adjust_call_for_c_variadic` of the same
--   file, where `Variadic.Stack` says what is passed on the stack.
-- - Returns.antt is src/abi/returning.rs and `make_local_place` of src/abi/mod.rs; `Returns.Forwarded` has results
--   that are returned again.
-- - Constants.antt is src/constant.rs, the worklist of allocations and statics: Worklist, References and
--   Items say what each step leaves on the worklist, Kept and Defines what it keeps and defines in the module,
--   with the behaviour of cranelift_module as hypotheses (`Kept.Documented`), Ends, Reachable and Given have the
--   theorems on the loop.
--   Linkage.antt is src/linkage.rs, Analyze.antt src/analyze.rs.
-- - InlineAsm.antt and the files below it are src/inline_asm.rs: Registers and Slots allocate the registers and
--   the stack slots of the operands, Clashes and SlotsApart have the theorems on them, Overlaps the rounds.
-- - LibCall.antt is `lib_call` of src/abi/mod.rs, CodegenI128.antt is src/codegen_i128.rs.
-- - Cast.antt is src/cast.rs, with the integer casts proved in `Cast.Integers`.
-- - Discriminant.antt and the files below it are src/discriminant.rs. The write to a place is a result:
--   the value, and for an enum the field that it goes to. `Niche` has the decoding of tags and
--   `RoundTrip` the encoding with it.
-- - PassMode.antt and the files below it are src/abi/pass_mode.rs: Params has the signatures, Values the
--   parameters of the entry block, Casted the values that a call passes, Covers the bytes that the registers
--   hold, CastRoundTrip the way through memory and back.
-- - Num.antt and the files below it are src/num.rs. `Num.Exact` is the description by integers that
--   the emitted instructions are measured against.
-- - ConcurrencyLimiter.antt and the files below it are src/concurrency_limiter.rs: State has the
--   operations on the guarded state, System the limiter among its threads, where a history is any
--   sequence of events under the mutex; Safety has the theorems on histories, Poison those on what comes
--   after a failure.
-- - Examples.antt runs the theorems at concrete inputs.
--
-- Bounds: a word of w bits is a number below 2 ^ w, with the remainder written out; an immediate is
-- an integer in the range of `i64`. `size_and_align_of` has fuel for the nesting of layouts, which is
-- finite: its theorem holds of every layout that is nested no deeper. The coercions of structs have
-- fuel for the nesting too. A loop that a repeat expression emits is read as its run, on fuel of one more than
-- the count, which its theorem proves enough. `assignable` has the limit that
-- src/value_and_place.rs gives it, 16. `define_all_allocs` has fuel for the rounds of its loop, and ends
-- with the bound that its theorem states.
--
-- Not modelled: comments in the emitted code, debug locations, memory flags, and the parts of the
-- repository that no file above names: calls of MIR but for variadic arguments, drops, thread locals,
-- casts to function pointers, `dyn*`, the evaluation of constants, intrinsics, the text of inline assembly,
-- debug information, drivers, the build system and the scripts.
pub mod Common
pub mod Clif
pub mod Codegen
pub mod Types
pub mod Pointer
pub mod FunctionCx
pub mod ValueAndPlace
pub mod LibCall
pub mod CodegenI128
pub mod Num
pub mod Examples
pub mod ConcurrencyLimiter
pub mod Cast
pub mod PassMode
pub mod Discriminant
pub mod InlineAsm
pub mod Panics
pub mod Vtable
pub mod Unsize
pub mod Body
pub mod Linkage
pub mod Constants
pub mod Analyze
pub mod Optimize
pub mod Returns
pub mod Prelude
pub mod Variadic
