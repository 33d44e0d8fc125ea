-- ===== src/Body/Repeats.antt =====
-- src/base.rs, `Rvalue::Repeat`: the loop ends, and has written every element.
use rustc_codegen_cranelift.Common.{
  ℕ, zero, suc, ◌+◌, ◌^◌, ◌<◌, ◌≤◌, ◌≡◌, ◌≢◌, refl, ap, ◌∙◌, Bool, true, false, not, Option, List,
  [], ◌∷◌, ◌==◌, bit, arith, if◌then◌else◌,
}
use mathlib.Core.Path.{fun_ext}
use native.Mathlib.Nat.{zero-mod}
use rustc_codegen_cranelift.Types.{clif_type}
use rustc_codegen_cranelift.ValueAndPlace.ReadBack.{positive}
use rustc_codegen_cranelift.Common.Int.{pos}
use rustc_codegen_cranelift.Common.Word.{mod_below}
use rustc_codegen_cranelift.Clif.{Ty, ty_bits, is_int, IntCc, Clif, iadd_imm}
use rustc_codegen_cranelift.Clif.Documented.{Documented, modulus, int_cc}
use rustc_codegen_cranelift.Codegen.{Tcx, Cg, ok, pure, ◌>>=◌, ◌>>◌}
use rustc_codegen_cranelift.FunctionCx.{as_i64, as_i64-small}
use rustc_codegen_cranelift.ValueAndPlace.{CValue}
use rustc_codegen_cranelift.ValueAndPlace.Place.{CPlace, place_index}
use rustc_codegen_cranelift.ValueAndPlace.Write.{write_cvalue}
use rustc_codegen_cranelift.Body.Statements.{repeat_loop, is_i8, codegen_repeat}

module _ (c : Clif) (d : Documented c) (tcx : Tcx) (pointer_type : Ty) (depth : ℕ)
    (local_map : ℕ → Option (CPlace c)) where
  open c use {Value, Fx, value_type, icmp_imm, binary_imm, is_nonzero}
  open d use {bits}

  -- The values stand for the numbers from `i` up to `n`.
  abbrev pub Counts : ℕ → List Value → ℕ → Type 0
  Counts i [] n = i ≡ n
  Counts i (v ∷ vs) n = (bits v ≡ i) × Counts (suc i) vs n

  -- One write for each index.
  unfoldable pub write_each : CPlace c → CValue c → List Value → Cg c (Unit {0})
  write_each lval v [] = pure tt
  write_each lval v (i ∷ is) =
      (place_index c tcx pointer_type lval i >>= λ to. write_cvalue c tcx pointer_type to v)
      >> write_each lval v is

  module _ (lval : CPlace c) (v : CValue c) (times : ℕ) (small : times < 2 ^ 63)
      (fits : times < modulus pointer_type) where
    abbrev loop : ℕ → Value → Cg c (Unit {0})
    loop = repeat_loop c tcx pointer_type depth local_map lval v times

    done_iff :
        (index : Value)
        → value_type index ≡ pointer_type
        → is_nonzero (icmp_imm IntCc.equal index (as_i64 (pos times))) ≡ (bits index == times)
    unfolding int_cc
    done_iff index t =
        rw (d.is_nonzero_bits, d.icmp_imm_bits, t, as_i64-small times small, mod_below times _ fits)
          (bit_test (bits index == times))
      where
        bit_test : (b : Bool) → not (bit b == 0) ≡ b
        bit_test true = refl
        bit_test false = refl

    next_index :
        (index : Value) (i : ℕ)
        → value_type index ≡ pointer_type
        → bits index ≡ i
        → i < times
        → bits (binary_imm iadd_imm index (pos 1)) ≡ suc i
    next_index index i t b h =
        rw (d.iadd_imm_bits, t, b, mod_below 1 (modulus pointer_type) (omega arith))
          (mod_below (i + 1) (modulus pointer_type) (omega arith) ∙ omega arith)

    abbrev body : Value → Cg c (Unit {0})
    body index =
        place_index c tcx pointer_type lval index >>= λ to. write_cvalue c tcx pointer_type to v

    loop-step :
        (rounds : ℕ) (index : Value) (done : Bool) (fx : Fx)
        → is_nonzero (icmp_imm IntCc.equal index (as_i64 (pos times))) ≡ done
        → loop (suc rounds) index fx
          ≡ (if done
                then pure tt
                else (body index >> loop rounds (binary_imm iadd_imm index (pos 1))))
              fx
    unfolding repeat_loop
    loop-step rounds index true fx e = rw (e, repeat_loop) refl
    loop-step rounds index false fx e = rw (e, repeat_loop) refl

    loop-writes :
        (rounds i : ℕ) (index : Value)
        → value_type index ≡ pointer_type
        → bits index ≡ i
        → i + rounds ≡ times
        → (is : List Value) × Counts i is times
          × ((fx : Fx) → loop (suc rounds) index fx ≡ write_each lval v is fx)
    unfolding write_each
    loop-writes zero i index t b e =
        ([], omega (arith, e), λ fx. loop-step zero index true fx (done_iff index t ∙ ground arith))
    loop-writes (suc rounds) i index t b e =
        let next = binary_imm iadd_imm index (pos 1) in
        let (is, counts, same) =
          loop-writes rounds (suc i) next (d.imm_type _ _ _ ∙ t)
            (next_index index i t b (omega (arith, e))) (omega (arith, e)) in
        (
          index ∷ is,
          (b, counts),
          λ fx.
              loop-step (suc rounds) index false fx (done_iff index t ∙ ground arith)
              ∙ ap (λ k. (body index >> k) fx) (fun_ext same),
        )

  -- `[v; times]` of a value with bytes that is no byte itself comes to an end: it writes the value once to each
  -- index from 0 up to `times`, in this order, and nothing else.
  pub repeat-writes :
      (lval : CPlace c) (v : CValue c) (times : ℕ) (t : Option Ty)
      → is_int pointer_type ≡ true
      → ty_bits pointer_type ≤ 64
      → times < 2 ^ 63
      → times < modulus pointer_type
      → v.layout.size ≢ 0
      → clif_type tcx v.layout.ty ≡ ok t
      → is_i8 c tcx pointer_type depth local_map t ≡ false
      → (is : List Value) × Counts 0 is times
        × ((fx : Fx)
            → codegen_repeat c tcx pointer_type depth local_map lval v times fx
              ≡ write_each lval v is fx)
  unfolding codegen_repeat
  repeat-writes lval v times t i narrow small fits some_bytes typed no_byte =
      let zero_bits : bits (c.iconst pointer_type (pos 0)) ≡ 0 =
        rw (d.iconst_bits pointer_type (pos 0) i narrow) (zero-mod (modulus pointer_type)) in
      let (is, counts, same) =
        loop-writes lval v times small fits times 0 (c.iconst pointer_type (pos 0))
          (d.iconst_type pointer_type (pos 0)) zero_bits (omega arith) in
      (is, counts, λ fx. rw (positive v.layout.size some_bytes, typed) (rw no_byte (same fx)))
