-- ===== src/Variadic.antt =====
-- src/abi/mod.rs, `adjust_call_for_c_variadic`: the signature and the values of a call of a variadic function of C.
pub mod Stack
use rustc_codegen_cranelift.Common.{
  ℕ, zero, suc, ◌+◌, ◌-◌, ◌==◌, ltb, leb, Bool, true, false, ◌&&◌, List, [], ◌∷◌, ◌++◌, length,
  take, replicate, if◌then◌else◌,
}
use rustc_codegen_cranelift.Common.Int.{pos}
use rustc_codegen_cranelift.Clif.{
  Ty, i64, ty_bits, is_int, Clif, AbiParam, abi_param, ArgumentPurpose, struct_argument,
}
use rustc_codegen_cranelift.Codegen.{Tcx, Cg, Result, ok, panic, pure, lift, assert, ◌>>=◌, ◌>>◌}
use rustc_codegen_cranelift.PassMode.Params.{ArgAbi, PassMode, indirect, get_abi_param}

-- The first elements are left out.
unfoldable pub drop {ℓ} : {A : Type ℓ} → ℕ → List A → List A
drop zero xs = xs
drop (suc n) [] = []
drop (suc n) (x ∷ xs) = drop n xs

-- `FnAbi`, as far as a variadic call needs it.
pub record FnAbi : Type 0 where
  pub ret : ArgAbi
  pub args : List ArgAbi
  pub fixed_count : ℕ
  pub conv_is_c : Bool

unfoldable pub is_indirect : PassMode → Bool
is_indirect (indirect _ _ _) = true
is_indirect _ = false

-- 128-bit integers take two registers, everything else one.
unfoldable pub integer_registers_used : List AbiParam → ℕ
unfolding ty_bits
integer_registers_used [] = 0
integer_registers_used (p ∷ ps) =
    (if ty_bits p.value_type == 128 then 2 else 1) + integer_registers_used ps

-- `Vec::splice` of an empty range.
unfoldable pub splice {ℓ} : {A : Type ℓ} → ℕ → List A → List A → List A
unfolding drop
splice at added xs = take at xs ++ added ++ drop at xs

is_struct_argument : ArgumentPurpose → Bool
is_struct_argument (struct_argument _) = true
is_struct_argument _ = false

unfoldable pub no_struct_arguments : List AbiParam → Bool
unfolding is_struct_argument
no_struct_arguments [] = true
no_struct_arguments (p ∷ ps) =
    (if is_struct_argument p.purpose then false else true) && no_struct_arguments ps

unfoldable pub all_int : List AbiParam → Bool
unfolding is_int
all_int [] = true
all_int (p ∷ ps) = is_int p.value_type && all_int ps

module _ (c : Clif) (tcx : Tcx) where
  open c use {Value, iconst}

  joined : Result (List AbiParam) → Result (List AbiParam) → Result (List AbiParam)
  joined (ok ps) (ok qs) = ok (ps ++ qs)
  joined _ _ = panic

  unfoldable pub params_of : List ArgAbi → Result (List AbiParam)
  unfolding get_abi_param joined
  params_of [] = ok []
  params_of (a ∷ rest) = joined (get_abi_param tcx a) (params_of rest)

  -- Registers are filled up to the eighth, so that what is variadic is passed on the stack.
  unfoldable pub pad : ℕ → ℕ → List AbiParam → List Value → Cg c (List AbiParam × List Value)
  unfolding splice integer_registers_used
  pad first fixed abi_params call_args =
      let used = integer_registers_used (drop first (take fixed abi_params)) in
      assert (leb first fixed)
      >> (if ltb used 8
          then (assert (leb fixed (length call_args))
              >> pure (
                splice fixed (replicate (8 - used) (abi_param i64)) abi_params,
                splice fixed (replicate (8 - used) (iconst i64 (pos 0))) call_args,
              ))
          else pure (abi_params, call_args))

  -- Of Apple's AArch64 only.
  unfoldable pub padded :
      Bool → ℕ → ℕ → List AbiParam → List Value → Cg c (List AbiParam × List Value)
  unfolding pad no_struct_arguments
  padded false first fixed abi_params call_args = pure (abi_params, call_args)
  padded true first fixed abi_params call_args = do
    (ps, vs) ←
        if ltb fixed (length abi_params)
        then pad first fixed abi_params call_args
        else pure (abi_params, call_args)
    assert (no_struct_arguments ps)
    pure (ps, vs)

  -- The parameters of the signature, and the values that are passed.
  unfoldable pub adjust_call_for_c_variadic :
      Bool → FnAbi → List AbiParam → List Value → Cg c (List AbiParam × List Value)
  unfolding params_of padded is_indirect all_int
  adjust_call_for_c_variadic apple_aarch64 fn_abi sig_params call_args =
      let first = if is_indirect fn_abi.ret.mode then 1 else 0 in
      assert fn_abi.conv_is_c >> assert (leb fn_abi.fixed_count (length fn_abi.args)) >> (do
        fixed ← lift (params_of (take fn_abi.fixed_count fn_abi.args))
        variadic ← lift (params_of (drop fn_abi.fixed_count fn_abi.args))
        let known = take first sig_params ++ fixed
        (ps, vs) ← padded apple_aarch64 first (length known) (known ++ variadic) call_args
        assert (all_int ps)
        assert (length ps == length vs)
        pure (ps, vs))
