-- ===== src/Variadic/Stack.antt =====
-- src/abi/mod.rs, `adjust_call_for_c_variadic`: on Apple's AArch64, what is variadic is passed on the stack.
use rustc_codegen_cranelift.Common.{
  ℕ, zero, suc, ◌+◌, ◌-◌, ◌==◌, ◌≡◌, ◌≤◌, ◌<◌, refl, sym, ap, true, ltb, List, [], ◌∷◌, ◌++◌,
  length, take, replicate, arith, if◌then◌else◌, length-append, length-take, ==_iff, lt→ltb, le→leb,
  max, Bool-cases, inl, inr,
}
use mathlib.Core.List.{append-nil}
use rustc_codegen_cranelift.Common.Int.{pos}
use rustc_codegen_cranelift.Clif.{i64, ty_bits, is_int, Clif, AbiParam, abi_param}
use rustc_codegen_cranelift.Codegen.{Tcx, ok, pure, bind-ok}
use rustc_codegen_cranelift.Variadic.{
  drop, FnAbi, is_indirect, integer_registers_used, no_struct_arguments, all_int, params_of, pad,
  padded, adjust_call_for_c_variadic,
}

take-append : {A : Type 0} (xs ys : List A) → take (length xs) (xs ++ ys) ≡ xs
take-append [] ys = refl
take-append (x ∷ xs) ys = ap (λ r. x ∷ r) (take-append xs ys)

drop-append : {A : Type 0} (xs ys : List A) → drop (length xs) (xs ++ ys) ≡ ys
unfolding drop
drop-append [] ys = refl
drop-append (x ∷ xs) ys = drop-append xs ys

registers-append :
    (ps qs : List AbiParam)
    → integer_registers_used (ps ++ qs) ≡ integer_registers_used ps + integer_registers_used qs
unfolding integer_registers_used
registers-append [] qs = omega arith
registers-append (p ∷ ps) qs = omega (arith, registers-append ps qs)

registers-padding : (n : ℕ) → integer_registers_used (replicate n (abi_param i64)) ≡ n
unfolding integer_registers_used ty_bits
registers-padding zero = refl
registers-padding (suc n) = omega (arith, registers-padding n)

no_struct-append :
    (ps qs : List AbiParam)
    → no_struct_arguments ps ≡ true
    → no_struct_arguments qs ≡ true
    → no_struct_arguments (ps ++ qs) ≡ true
unfolding no_struct_arguments
no_struct-append [] qs h k = k
no_struct-append (p ∷ ps) qs h k = ground (arith, no_struct-append ps qs)

no_struct-padding : (n : ℕ) → no_struct_arguments (replicate n (abi_param i64)) ≡ true
unfolding no_struct_arguments
no_struct-padding zero = refl
no_struct-padding (suc n) = no_struct-padding n

all_int-append :
    (ps qs : List AbiParam) → all_int ps ≡ true → all_int qs ≡ true → all_int (ps ++ qs) ≡ true
unfolding all_int
all_int-append [] qs h k = k
all_int-append (p ∷ ps) qs h k = ground (arith, all_int-append ps qs)

all_int-padding : (n : ℕ) → all_int (replicate n (abi_param i64)) ≡ true
unfolding all_int is_int
all_int-padding zero = refl
all_int-padding (suc n) = all_int-padding n

drop-before :
    {A : Type 0} (n : ℕ) (xs ys : List A) → n ≤ length xs → drop n (xs ++ ys) ≡ drop n xs ++ ys
unfolding drop
drop-before zero xs ys h = refl
drop-before (suc n) [] ys h = absurd (omega arith)
drop-before (suc n) (x ∷ xs) ys h = drop-before n xs ys (omega arith)

length-replicate : {A : Type 0} (n : ℕ) (a : A) → length (replicate n a) ≡ n
length-replicate zero a = refl
length-replicate (suc n) a = ap suc (length-replicate n a)

module _ (c : Clif) (tcx : Tcx) where
  open c use {Value, Fx, iconst}

  -- Registers for integers, and values for them.
  abbrev pub filled : ℕ → List AbiParam → List AbiParam → List AbiParam
  filled n known variadic = known ++ replicate n (abi_param i64) ++ variadic

  abbrev pub filled_values : ℕ → List Value → List Value → List Value
  filled_values n vs ws = vs ++ replicate n (iconst i64 (pos 0)) ++ ws

  -- The registers that the known parameters leave.
  abbrev pub left : ℕ → List AbiParam → ℕ
  left first known = 8 - integer_registers_used (drop first known)

  pad-fills :
      (first : ℕ) (known variadic : List AbiParam) (vs ws : List Value) (fx : Fx)
      → first ≤ length known
      → length vs ≡ length known
      → pad c tcx first (length known) (known ++ variadic) (vs ++ ws) fx
        ≡ ok
            ((filled (left first known) known variadic, filled_values (left first known) vs ws), fx)
  unfolding pad
  pad-fills first known variadic vs ws fx h same =
      elim (Bool-cases (ltb (integer_registers_used (drop first known)) 8)) [
        | inl e ↦
            rw
              (
                take-append known variadic,
                le→leb _ _ h,
                e,
                le→leb (length known) (length (vs ++ ws))
                    (omega (arith, length-append vs ws, same)),
                drop-append known variadic,
                sym same,
                take-append vs ws,
                drop-append vs ws,
              )
              refl
        | inr e ↦
            let none_left : left first known ≡ 0 = ground arith in
            rw
              (
                take-append known variadic,
                le→leb _ _ h,
                e,
                none_left,
                append-nil known,
                append-nil vs,
              )
              refl
      ]

  registers-left :
      (first : ℕ) (known : List AbiParam)
      → first ≤ length known
      → integer_registers_used (drop first (known ++ replicate (left first known) (abi_param i64)))
        ≡ max 8 (integer_registers_used (drop first known))
  registers-left first known h =
      rw
        (
          drop-before first known (replicate (left first known) (abi_param i64)) h,
          registers-append (drop first known) (replicate (left first known) (abi_param i64)),
          registers-padding (left first known),
        )
        (omega arith)

  same_lengths :
      (n : ℕ) (known variadic : List AbiParam) (vs ws : List Value)
      → length vs ≡ length known
      → length ws ≡ length variadic
      → (length (filled n known variadic) == length (filled_values n vs ws)) ≡ true
  same_lengths n known variadic vs ws h k = (==_iff _ _).1 (
      omega (
        arith,
        length-append (known ++ replicate n (abi_param i64)) variadic,
        length-append known (replicate n (abi_param i64)),
        length-append (vs ++ replicate n (iconst i64 (pos 0))) ws,
        length-append vs (replicate n (iconst i64 (pos 0))),
        length-replicate n (abi_param i64),
        length-replicate n (iconst i64 (pos 0)),
        h,
        k,
      ))

  padded-fills :
      (first n : ℕ) (known variadic : List AbiParam) (vs ws : List Value) (fx : Fx)
      → 0 < length variadic
      → no_struct_arguments known ≡ true
      → no_struct_arguments variadic ≡ true
      → pad c tcx first (length known) (known ++ variadic) (vs ++ ws) fx
        ≡ ok ((filled n known variadic, filled_values n vs ws), fx)
      → padded c tcx true first (length known) (known ++ variadic) (vs ++ ws) fx
        ≡ ok ((filled n known variadic, filled_values n vs ws), fx)
  unfolding padded pad
  padded-fills first n known variadic vs ws fx some plain_known plain_variadic run =
      bind-ok
        (if ltb (length known) (length (known ++ variadic))
          then pad c tcx first (length known) (known ++ variadic) (vs ++ ws)
          else pure (known ++ variadic, vs ++ ws))
        _ (filled n known variadic, filled_values n vs ws) fx fx _
        (rw
          (lt→ltb (length known) (length (known ++ variadic))
            (omega (arith, length-append known variadic)))
          run)
        (rw
          (no_struct-append (known ++ replicate n (abi_param i64)) variadic
            (no_struct-append known _ plain_known (no_struct-padding n)) plain_variadic)
          refl)

  adjust_call-fills :
      (fn_abi : FnAbi) (sig_params fixed variadic : List AbiParam) (vs ws : List Value)
      (first n : ℕ) (fx : Fx)
      → fn_abi.conv_is_c ≡ true
      → fn_abi.fixed_count ≤ length fn_abi.args
      → first ≡ (if is_indirect fn_abi.ret.mode then 1 else 0)
      → params_of c tcx (take fn_abi.fixed_count fn_abi.args) ≡ ok fixed
      → params_of c tcx (drop fn_abi.fixed_count fn_abi.args) ≡ ok variadic
      → 0 < length variadic
      → length vs ≡ length (take first sig_params ++ fixed)
      → length ws ≡ length variadic
      → all_int (take first sig_params ++ fixed) ≡ true
      → all_int variadic ≡ true
      → no_struct_arguments (take first sig_params ++ fixed) ≡ true
      → no_struct_arguments variadic ≡ true
      → pad c tcx first
          (length (take first sig_params ++ fixed))
          ((take first sig_params ++ fixed) ++ variadic)
          (vs ++ ws)
          fx
        ≡ ok ((filled n (take first sig_params ++ fixed) variadic, filled_values n vs ws), fx)
      → adjust_call_for_c_variadic c tcx true fn_abi sig_params (vs ++ ws) fx
        ≡ ok ((filled n (take first sig_params ++ fixed) variadic, filled_values n vs ws), fx)
  unfolding adjust_call_for_c_variadic
  adjust_call-fills fn_abi sig_params fixed variadic vs ws first n fx conv counted result of_fixed
        of_variadic some same_fixed same_variadic int_fixed int_variadic plain_fixed plain_variadic
        run =
      let known = take first sig_params ++ fixed in
      rw (conv, le→leb _ _ counted, sym result, of_fixed, of_variadic)
        (bind-ok (padded c tcx true first (length known) (known ++ variadic) (vs ++ ws)) _
          (filled n known variadic, filled_values n vs ws) fx fx _
          (padded-fills first n known variadic vs ws fx some plain_fixed plain_variadic run)
          (rw
            (
              all_int-append (known ++ replicate n (abi_param i64)) variadic
                  (all_int-append known _ int_fixed (all_int-padding n)) int_variadic,
              same_lengths n known variadic vs ws same_fixed same_variadic,
            )
            refl))

  -- On Apple's AArch64, a call in the convention of C of arguments with integer types comes back with what is
  -- variadic last. In front of it are the known parameters and as many integers, which are passed as zeros, as the
  -- known parameters leave of the eight integer registers, not counting the pointer to the result; so exactly eight
  -- registers are used before it, or what the known parameters use if that is more.
  pub variadic_arguments-Stack :
      (fn_abi : FnAbi) (sig_params fixed variadic : List AbiParam) (vs ws : List Value) (first : ℕ)
      (fx : Fx)
      → fn_abi.conv_is_c ≡ true
      → fn_abi.fixed_count ≤ length fn_abi.args
      → first ≡ (if is_indirect fn_abi.ret.mode then 1 else 0)
      → first ≤ length sig_params
      → params_of c tcx (take fn_abi.fixed_count fn_abi.args) ≡ ok fixed
      → params_of c tcx (drop fn_abi.fixed_count fn_abi.args) ≡ ok variadic
      → 0 < length variadic
      → length vs ≡ length (take first sig_params ++ fixed)
      → length ws ≡ length variadic
      → all_int (take first sig_params ++ fixed) ≡ true
      → all_int variadic ≡ true
      → no_struct_arguments (take first sig_params ++ fixed) ≡ true
      → no_struct_arguments variadic ≡ true
      → (adjust_call_for_c_variadic c tcx true fn_abi sig_params (vs ++ ws) fx
          ≡ ok (
            (
              filled
                  (left first (take first sig_params ++ fixed))
                  (take first sig_params ++ fixed)
                  variadic,
              filled_values (left first (take first sig_params ++ fixed)) vs ws,
            ),
            fx,
          ))
        × (integer_registers_used (
              drop first (
                (take first sig_params ++ fixed)
                ++ replicate (left first (take first sig_params ++ fixed)) (abi_param i64)))
            ≡ max 8 (integer_registers_used (drop first (take first sig_params ++ fixed))))
  variadic_arguments-Stack fn_abi sig_params fixed variadic vs ws first fx conv counted result
        has_result of_fixed of_variadic some same_fixed same_variadic int_fixed int_variadic
        plain_fixed plain_variadic =
      let known = take first sig_params ++ fixed in
      let behind_result : first ≤ length known = omega (
        arith,
        length-append (take first sig_params) fixed,
        length-take first sig_params,
        has_result,
      ) in
      (
        adjust_call-fills fn_abi sig_params fixed variadic vs ws first (left first known) fx conv
            counted result of_fixed of_variadic some same_fixed same_variadic int_fixed int_variadic
            plain_fixed plain_variadic
            (pad-fills first known variadic vs ws fx behind_result same_fixed),
        registers-left first known behind_result,
      )
