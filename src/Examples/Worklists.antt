-- ===== src/Examples/Worklists.antt =====
-- The theorems on the worklist of constants at a concrete program.
use Prim.Native.String.{String}
use rustc_codegen_cranelift.Common.{
  ℕ, ◌+◌, ◌≡◌, ◌≢◌, refl, ap, subst, arith, true, false, none, some, List, [], ◌∷◌,
}
use rustc_codegen_cranelift.Common.Int.{pos}
use rustc_codegen_cranelift.Codegen.{ok}
use rustc_codegen_cranelift.Constants.{
  Program, DataDescription, Module, memory, TodoItem, alloc, static, item_eq, State,
  define_all_allocs, out_of_fuel, contains, defined,
}
use rustc_codegen_cranelift.Constants.References.{asked_by}
use rustc_codegen_cranelift.Constants.Items.{ptrs_of}
use rustc_codegen_cranelift.Constants.Kept.{Documented}
use rustc_codegen_cranelift.Constants.Defines.{HasData}
use rustc_codegen_cranelift.Constants.Reachable.{listed, referred}
use rustc_codegen_cranelift.Constants.Given.{define_all_allocs-HasData}
use rustc_codegen_cranelift.Constants.Ends.{has, refers, pending, define_all_allocs-ends}

-- A module that remembers the names and the contents that it was given, and how many objects it has.
record Objects : Type 0 where
  count : ℕ
  names : List (String × ℕ)
  contents : List (ℕ × DataDescription)

abbrev objects : Module
objects = record {
  M = Objects;
  declare_data = λ name linkage writable tls m.
      ok (m.count, record m { count = m.count + 1; names = (name, m.count) ∷ m.names });
  declare_anonymous_data = λ is_mut m. ok (m.count, record m { count = m.count + 1 });
  declare_function = λ instance m. ok (m.count, record m { count = m.count + 1 });
  define_data = λ id c m. defined (record m { contents = (id, c) ∷ m.contents });
}

data Listed {A : Type 0} (x : A) : List A → Type 0 where
  first : (xs : List A) → Listed x (x ∷ xs)
  later : (y : A) (xs : List A) → Listed x xs → Listed x (y ∷ xs)

record Grown (m m' : Objects) : Type 0 where
  names : (x : String × ℕ) → Listed x m.names → Listed x m'.names
  contents : (x : ℕ × DataDescription) → Listed x m.contents → Listed x m'.contents

same_lists : (m m' : Objects) → m.names ≡ m'.names → m.contents ≡ m'.contents → Grown m m'
same_lists m m' e h = record {
  names = λ x l. subst (λ xs. Listed x xs) e l;
  contents = λ x l. subst (λ xs. Listed x xs) h l;
}

pair_of : {A : Type 0} (x y : A) → ok x ≡ ok y → x ≡ y
pair_of x y e = cc

abbrev documented : Documented objects
documented = record {
  HasContents = λ m id c. Listed (id, c) m.contents;
  Named = λ m n id. Listed (n, id) m.names;
  Keeps = Grown;
  Keeps_refl = λ m. same_lists m m refl refl;
  Keeps_trans = λ l m n h k. record {
    names = λ x p. k.names x (h.names x p);
    contents = λ x p. k.contents x (h.contents x p);
  };
  contents_kept = λ m m' h id c p. h.contents (id, c) p;
  names_kept = λ m m' h n id p. h.names (n, id) p;
  declare_data_Named = λ n linkage writable tls m id m' e.
      let same_id : m.count ≡ id = ap (λ p. p.0) (pair_of _ _ e) in
      let same_state : record m { count = m.count + 1; names = (n, m.count) ∷ m.names } ≡ m' =
        ap (λ p. p.1) (pair_of _ _ e) in
      rw (← same_state, ← same_id)
        (
          record { names = λ x p. later (n, m.count) m.names p; contents = λ x p. p },
          first m.names,
        );
  declare_anonymous_data_Keeps = λ is_mut m id m' e.
      let same_state : record m { count = m.count + 1 } ≡ m' = ap (λ p. p.1) (pair_of _ _ e) in
      rw (← same_state) (record { names = λ x p. p; contents = λ x p. p });
  declare_function_Keeps = λ instance m id m' e.
      let same_state : record m { count = m.count + 1 } ≡ m' = ap (λ p. p.1) (pair_of _ _ e) in
      rw (← same_state) (record { names = λ x p. p; contents = λ x p. p });
  define_data_HasContents = λ id c m m' e.
      let same_state : record m { contents = (id, c) ∷ m.contents } ≡ m' = cc in
      rw (← same_state) (
        record { names = λ x p. p; contents = λ x p. later (id, c) m.contents p },
        first m.contents,
      );
}

-- Every allocation and every static points to allocation 0.
abbrev program : Program
program = record {
  global_alloc =
      λ a. memory (record { align = 8; bytes = 0 ∷ []; is_mut = false; ptrs = (0, 0) ∷ [] });
  vtable_allocation = λ ty trait_ref. 0;
  eval_static_initializer =
      λ d. some (record { align = 8; bytes = 1 ∷ []; is_mut = false; ptrs = (0, 0) ∷ [] });
  static_attrs = λ d. record {
    symbol_name = "s";
    import_linkage = none;
    linkage = none;
    thread_local = false;
    is_mutable = false;
    is_reachable = true;
    pref_align = 8;
  };
  read_target_uint = λ bytes offset. 0;
  pointer_bytes = 8;
}

abbrev nothing_yet : Objects
nothing_yet = record { count = 0; names = []; contents = [] }

abbrev start : State objects program
start = record { cx = record { todo = alloc 1 ∷ []; anon_allocs = [] }; objects = nothing_yet }

abbrev both : List TodoItem
both = alloc 0 ∷ alloc 1 ∷ []

both_closed :
    (x y : TodoItem)
    → has objects program x both ≡ true
    → has objects program y (refers objects program x) ≡ true
    → has objects program y both ≡ true
unfolding contains ptrs_of asked_by item_eq
both_closed (alloc a) (alloc b) h k = ground arith
both_closed (alloc a) (static b) h k = absurd cc
both_closed (static a) y h k = absurd cc

start_within :
    (y : TodoItem) → has objects program y (alloc 1 ∷ []) ≡ true → has objects program y both ≡ true
unfolding contains item_eq
start_within (alloc b) h = ground arith
start_within (static b) h = absurd cc

define_all_allocs-ends_example : define_all_allocs objects program 4 [] start ≢ out_of_fuel
unfolding pending contains item_eq ptrs_of asked_by
define_all_allocs-ends_example =
    define_all_allocs-ends objects program both both_closed 4 [] start start_within (omega arith)

-- Static 0 points to allocation 0, which points to itself.
abbrev from_static : State objects program
from_static = record {
  cx = record { todo = static 0 ∷ []; anon_allocs = [] };
  objects = nothing_yet;
}

abbrev pointing : ℕ → DataDescription
pointing byte = record {
  align = 8;
  contents = byte ∷ [];
  function_addrs = [];
  data_addrs = (0, 1, pos 0) ∷ [];
}

abbrev at_the_end : State objects program
at_the_end = record {
  cx = record { todo = []; anon_allocs = (0, 1) ∷ [] };
  objects = record {
    count = 2;
    names = ("s", 0) ∷ [];
    contents = (1, pointing 0) ∷ (0, pointing 1) ∷ [];
  };
}

define_all_allocs-HasData_example : HasData objects program documented (alloc 0) at_the_end
unfolding define_all_allocs contains ptrs_of asked_by item_eq
define_all_allocs-HasData_example =
    define_all_allocs-HasData objects program documented 4 (alloc 0 ∷ static 0 ∷ []) from_static
      at_the_end (alloc 0) refl (referred (static 0) (alloc 0) (listed (static 0) refl) refl)
