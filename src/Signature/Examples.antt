-- ===== src/Signature/Examples.antt =====
-- The signature `(I[[DLA;J)D` of an instance method.
use shujit.Base.{◌≡◌, false, some, [], ◌∷◌, arith}
use shujit.Signature.{
  prepare_compiled_code_info, terse_sig_int, terse_sig_object, terse_sig_long, terse_sig_double,
  terse_sig_endfunc,
}
use shujit.Signature.Types.{
  elem, array, int, double, long, class_type, print_signature, print_result,
}
use shujit.Signature.RoundTrip.{prepare_compiled_code_info-print_signature}

prepare_compiled_code_info-print_signature_example :
    prepare_compiled_code_info false (
      b'('
      ∷ print_signature
          (elem int ∷ array 1 double ∷ elem (class_type (b'A' ∷ [])) ∷ elem long ∷ [])
          (some (elem double)))
    ≡ some (
      record {
        argsizes = 1 ∷ 1 ∷ 1 ∷ 1 ∷ 2 ∷ 0 ∷ 2 ∷ [];
        terse_sig =
            terse_sig_int ∷ terse_sig_object ∷ terse_sig_object ∷ terse_sig_long ∷ terse_sig_endfunc
            ∷ terse_sig_double ∷ [];
        ret_sig = some (print_result (some (elem double)));
      },
      2,
    )
prepare_compiled_code_info-print_signature_example =
    prepare_compiled_code_info-print_signature false
      (elem int ∷ array 1 double ∷ elem (class_type (b'A' ∷ [])) ∷ elem long ∷ [])
      (some (elem double)) (tt, (tt, ((λ e. cc, tt), (tt, tt)))) tt (omega arith)
