-- ===== src/Linkage.antt =====
-- src/linkage.rs: how symbols are seen by the linker.
use rustc_codegen_cranelift.Common.{Bool, Option, none, some, if◌then◌else◌}
use rustc_codegen_cranelift.Codegen.{Result, ok, panic}

-- cranelift_module::Linkage
pub data Linkage : Type 0 where
  import local preemptible hidden export : Linkage

-- rustc_middle::mir::mono::Linkage and Visibility
pub data RLinkage : Type 0 where
  external available_externally link_once_any link_once_odr weak_any weak_odr : RLinkage
  appending internal private external_weak common : RLinkage

pub data Visibility : Type 0 where
  default hidden protected : Visibility

unfoldable pub get_clif_linkage : RLinkage → Visibility → Bool → Result Linkage
get_clif_linkage RLinkage.external Visibility.default is_compiler_builtins =
    if is_compiler_builtins then ok Linkage.hidden else ok Linkage.export
get_clif_linkage RLinkage.internal Visibility.default is_compiler_builtins = ok Linkage.local
get_clif_linkage RLinkage.external Visibility.hidden is_compiler_builtins = ok Linkage.hidden
get_clif_linkage RLinkage.weak_any Visibility.default is_compiler_builtins = ok Linkage.preemptible
get_clif_linkage _ _ _ = panic

explicit_linkage : RLinkage → Result Linkage
explicit_linkage RLinkage.external = ok Linkage.export
explicit_linkage RLinkage.internal = ok Linkage.local
explicit_linkage RLinkage.external_weak = ok Linkage.preemptible
explicit_linkage RLinkage.weak_any = ok Linkage.preemptible
explicit_linkage _ = panic

-- The linkage attribute of a static, and whether it is reachable and not generic.
unfoldable pub get_static_linkage : Option RLinkage → Bool → Result Linkage
unfolding explicit_linkage
get_static_linkage (some linkage) reachable = explicit_linkage linkage
get_static_linkage none reachable = if reachable then ok Linkage.export else ok Linkage.hidden
