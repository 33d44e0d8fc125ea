-- ===== src/Constants.antt =====
-- src/constant.rs: the statics and the anonymous allocations of the program, which are defined by a worklist.
-- Link sections are left out.
pub mod Worklist
pub mod References
pub mod Items
pub mod Ends
pub mod Kept
pub mod Defines
pub mod Reachable
pub mod Given
use Prim.Native.String.{String, ◌++◌}
use rustc_codegen_cranelift.Common.{
  ℕ, zero, suc, ◌+◌, Bool, true, false, not, ◌&&◌, ◌||◌, ◌==◌, Option, none, some, List, [], ◌∷◌,
  if◌then◌else◌, replicate, ◌%◌, ◌^◌,
}
use rustc_codegen_cranelift.Codegen.{
  Result, ok, panic, pure, fail, lift, assert, unwrap, ◌>>=◌, ◌>>◌,
}
use rustc_codegen_cranelift.Common.Int.{ℤ, pos}
use rustc_codegen_cranelift.FunctionCx.{as_i64}
use rustc_codegen_cranelift.Linkage.{Linkage, RLinkage, get_static_linkage}

-- rustc_middle::mir::interpret: memory with its pointers, at offsets, to other allocations, and what an
-- allocation stands for.
pub record Allocation : Type 0 where
  pub align : ℕ
  pub bytes : List ℕ
  pub is_mut : Bool
  pub ptrs : List (ℕ × ℕ)

pub data GlobalAlloc : Type 0 where
  function : ℕ → GlobalAlloc
  memory : Allocation → GlobalAlloc
  vtable : ℕ → Option ℕ → GlobalAlloc
  static : ℕ → GlobalAlloc

-- The attributes of a static, its symbol and the alignment of its type.
pub record StaticAttrs : Type 0 where
  pub symbol_name : String
  pub import_linkage : Option RLinkage
  pub linkage : Option RLinkage
  pub thread_local : Bool
  pub is_mutable : Bool
  pub is_reachable : Bool
  pub pref_align : ℕ

-- The queries of rustc, and `read_target_uint` of the bytes at an offset.
pub record Program : Type 0 where
  pub global_alloc : ℕ → GlobalAlloc
  pub vtable_allocation : ℕ → Option ℕ → ℕ
  pub eval_static_initializer : ℕ → Option Allocation
  pub static_attrs : ℕ → StaticAttrs
  pub read_target_uint : List ℕ → ℕ → ℕ
  pub pointer_bytes : ℕ

-- cranelift_module: the contents of a data object, with the addresses that it has of functions and data.
pub record DataDescription : Type 0 where
  pub align : ℕ
  pub contents : List ℕ
  pub function_addrs : List (ℕ × ℕ)
  pub data_addrs : List (ℕ × ℕ × ℤ)

pub data Defined (M : Type 0) : Type 0 where
  defined : M → Defined M
  duplicate failed : Defined M

-- cranelift_module::Module, where an error is `panic` but for the duplicate definition.
pub record Module : Type 1 where
  pub M : Type 0
  pub declare_data : String → Linkage → Bool → Bool → M → Result (ℕ × M)
  pub declare_anonymous_data : Bool → M → Result (ℕ × M)
  pub declare_function : ℕ → M → Result (ℕ × M)
  pub define_data : ℕ → DataDescription → M → Defined M

pub data TodoItem : Type 0 where
  alloc static : ℕ → TodoItem

-- `TodoItem::eq`
unfoldable pub item_eq : TodoItem → TodoItem → Bool
item_eq (alloc a) (alloc b) = a == b
item_eq (static a) (static b) = a == b
item_eq _ _ = false

-- The worklist is a stack; the last item comes first.
pub record ConstantCx : Type 0 where
  pub todo : List TodoItem
  pub anon_allocs : List (ℕ × ℕ)

unfoldable pub is_weak : Option RLinkage → Bool
is_weak (some RLinkage.external_weak) = true
is_weak (some RLinkage.weak_any) = true
is_weak _ = false

module _ (objects_of : Module) (program : Program) where
  open objects_of use {M, declare_data, declare_anonymous_data, declare_function, define_data}

  -- The state: the work that is left, and the module.
  pub record State : Type 0 where
    pub cx : ConstantCx
    pub objects : M

  abbrev pub Step : Type 0 → Type 0
  Step A = State → Result (A × State)

  unfoldable pub in_module : {A : Type 0} → (M → Result (A × M)) → Step A
  in_module f s = elim (f s.objects) [
    | panic ↦ panic
    | ok (a, m) ↦ ok (a, record s { objects = m })
  ]

  -- A definition, and one that may be there already.
  unfoldable pub must_define : ℕ → DataDescription → Step (Unit {0})
  must_define id contents s = elim (define_data id contents s.objects) [
    | defined m ↦ ok (tt, record s { objects = m })
    | duplicate ↦ panic
    | failed ↦ panic
  ]

  unfoldable pub may_define : ℕ → DataDescription → Step (Unit {0})
  may_define id contents s = elim (define_data id contents s.objects) [
    | defined m ↦ ok (tt, record s { objects = m })
    | duplicate ↦ ok (tt, s)
    | failed ↦ panic
  ]

  unfoldable pub find_anon : ℕ → List (ℕ × ℕ) → Option ℕ
  find_anon a [] = none
  find_anon a ((b, id) ∷ l) = if a == b then some id else find_anon a l

  unfoldable pub remember : ℕ → ℕ → Step ℕ
  remember alloc_id id s =
      ok (id, record s { cx = record s.cx { anon_allocs = (alloc_id, id) ∷ s.cx.anon_allocs } })

  -- `anon_allocs.entry(alloc_id).or_insert_with(declare_anonymous_data)`
  unfoldable pub anon_entry : ℕ → Bool → Step ℕ
  unfolding find_anon remember in_module
  anon_entry alloc_id is_mut s = elim (find_anon alloc_id s.cx.anon_allocs) [
    | some id ↦ ok (id, s)
    | none ↦ (in_module (declare_anonymous_data is_mut) >>= remember alloc_id) s
  ]

  abbrev pub push : TodoItem → Step (Unit {0})
  push item s = ok (tt, record s { cx = record s.cx { todo = item ∷ s.cx.todo } })

  unfoldable pub data_id_for_alloc_id : ℕ → Bool → Step ℕ
  unfolding anon_entry
  data_id_for_alloc_id alloc_id is_mut = push (alloc alloc_id) >> anon_entry alloc_id is_mut

  unfoldable pub data_id_for_vtable : ℕ → Option ℕ → Step ℕ
  unfolding data_id_for_alloc_id
  data_id_for_vtable ty trait_ref =
      data_id_for_alloc_id (program.vtable_allocation ty trait_ref) false

  -- Zeros, and the address of the data object.
  abbrev pub null_pointer : StaticAttrs → ℕ → DataDescription
  null_pointer attrs data_id = record {
    align = attrs.pref_align;
    contents = replicate program.pointer_bytes 0;
    function_addrs = [];
    data_addrs = (0, data_id, pos 0) ∷ [];
  }

  -- A static with an import linkage is reached through a pointer that the linker may leave zero.
  unfoldable pub import_static : StaticAttrs → RLinkage → Bool → Step ℕ
  unfolding in_module may_define is_weak
  import_static attrs import_linkage definition = do
    assert (not definition)
    assert (not attrs.is_mutable)
    let linkage = if is_weak (some import_linkage) then Linkage.preemptible else Linkage.import
    data_id ← in_module (declare_data attrs.symbol_name linkage false attrs.thread_local)
    ref_data_id ←
        in_module (
          declare_data ("_rust_extern_with_linkage_" ++ attrs.symbol_name) Linkage.local false
            false)
    may_define ref_data_id (null_pointer attrs data_id)
    pure ref_data_id

  unfoldable pub static_linkage : StaticAttrs → Bool → Result Linkage
  unfolding get_static_linkage is_weak
  static_linkage attrs true = get_static_linkage attrs.linkage attrs.is_reachable
  static_linkage attrs false =
      ok (if is_weak attrs.linkage then Linkage.preemptible else Linkage.import)

  unfoldable pub own_static : StaticAttrs → Bool → Bool → Step ℕ
  unfolding static_linkage in_module
  own_static attrs definition definition_writable = do
    linkage ← lift (static_linkage attrs definition)
    in_module (declare_data attrs.symbol_name linkage definition_writable attrs.thread_local)

  unfoldable pub data_id_for_static : ℕ → Bool → Bool → Step ℕ
  unfolding import_static own_static
  data_id_for_static def_id definition definition_writable =
      let attrs = program.static_attrs def_id in
      elim attrs.import_linkage [
        | some import_linkage ↦ import_static attrs import_linkage definition
        | none ↦ own_static attrs definition definition_writable
      ]

  -- The offset is a u32 and the addend an i64 there.
  unfoldable pub with_data : DataDescription → ℕ → ℕ → ℕ → DataDescription
  unfolding as_i64
  with_data contents offset id addend = record contents {
    data_addrs = (offset % 2 ^ 32, id, as_i64 (pos addend)) ∷ contents.data_addrs;
  }

  unfoldable pub relocated : GlobalAlloc → ℕ → ℕ → ℕ → DataDescription → Step DataDescription
  unfolding data_id_for_alloc_id data_id_for_vtable data_id_for_static in_module with_data
  relocated (function instance) alloc_id offset addend contents = do
    assert (addend == 0)
    func_id ← in_module (declare_function instance)
    pure (record contents { function_addrs = (offset % 2 ^ 32, func_id) ∷ contents.function_addrs })
  relocated (memory target) alloc_id offset addend contents = do
    id ← data_id_for_alloc_id alloc_id target.is_mut
    pure (with_data contents offset id addend)
  relocated (vtable ty trait_ref) alloc_id offset addend contents = do
    id ← data_id_for_vtable ty trait_ref
    pure (with_data contents offset id addend)
  relocated (static def_id) alloc_id offset addend contents = do
    assert (not (program.static_attrs def_id).thread_local)
    id ← data_id_for_static def_id false false
    pure (with_data contents offset id addend)

  unfoldable pub relocations : Allocation → List (ℕ × ℕ) → DataDescription → Step DataDescription
  unfolding relocated
  relocations memory_of [] contents = pure contents
  relocations memory_of ((offset, alloc_id) ∷ ptrs) contents =
      relocated (program.global_alloc alloc_id) alloc_id offset
        (program.read_target_uint memory_of.bytes offset) contents
      >>= relocations memory_of ptrs

  unfoldable pub memory_item : GlobalAlloc → ℕ → Step (ℕ × Allocation)
  unfolding anon_entry
  memory_item (memory a) alloc_id = anon_entry alloc_id a.is_mut >>= λ id. pure (id, a)
  memory_item _ alloc_id = fail

  -- The data object of an item, and its contents.
  unfoldable pub chosen : TodoItem → Step (ℕ × Allocation)
  unfolding memory_item data_id_for_static
  chosen (alloc alloc_id) = memory_item (program.global_alloc alloc_id) alloc_id
  chosen (static def_id) = do
    a ← unwrap (program.eval_static_initializer def_id)
    id ← data_id_for_static def_id true a.is_mut
    pure (id, a)

  unfoldable pub define_item : TodoItem → Step (Unit {0})
  unfolding chosen relocations must_define
  define_item item = do
    (id, a) ← chosen item
    contents ←
        relocations a a.ptrs
          (record { align = a.align; contents = a.bytes; function_addrs = []; data_addrs = [] })
    must_define id contents

  unfoldable pub contains : TodoItem → List TodoItem → Bool
  unfolding item_eq
  contains x [] = false
  contains x (y ∷ ys) = item_eq y x || contains x ys

  -- What is defined at the end, with the state, unless the code panics.
  pub data Outcome : Type 0 where
    finished : List TodoItem → State → Outcome
    panicked out_of_fuel : Outcome

  abbrev pub popped : State → List TodoItem → State
  popped s rest = record s { cx = record s.cx { todo = rest } }

  unfoldable pub next :
      List TodoItem → State → TodoItem → List TodoItem → Result (List TodoItem × State)
  unfolding contains define_item
  next done s item rest = elim (contains item done) [
    | true ↦ ok (done, popped s rest)
    | false ↦ elim (define_item item (popped s rest)) [
      | panic ↦ panic
      | ok (_, s') ↦ ok (item ∷ done, s')
    ]
  ]

  unfoldable pub define_all_allocs : ℕ → List TodoItem → State → Outcome
  unfolding next
  define_all_allocs zero done s = out_of_fuel
  define_all_allocs (suc n) done s = elim s.cx.todo [
    | [] ↦ finished done s
    | item ∷ rest ↦ elim (next done s item rest) [
      | panic ↦ panicked
      | ok (done', s') ↦ define_all_allocs n done' s'
    ]
  ]
