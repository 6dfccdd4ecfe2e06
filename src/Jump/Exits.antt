-- ===== src/Jump/Exits.antt =====
-- compile.c, resolveExcRetSwitch: the byte code offsets in the native code, the jumps to the exception handler and those to
-- the end of the method. The places of each instruction are generated tables, which are parameters.
use shujit.Base.{
  ℕ, ◌+◌, ◌-◌, ◌%◌, ◌^◌, ◌<◌, ◌≡◌, refl, ap, ◌∙◌, arith, List, [], ◌∷◌, ◌++◌, some, Bool, ◌==◌,
  if◌then◌else◌, ℤ, pos, negsuc, get_or, write_at, write_at-append, get_or-append, length,
  length-append, either_branch,
}
use shujit.Opcode.{opc_return}
use shujit.PcEntry.{PcEntry, state}
use shujit.Jump.{le_bytes, fits_char, displacement, shorten_jmp, resolve_jump}
use shujit.Jump.Machine.{next}
use shujit.Jump.Lands.{jmp_bytes, resolve_jump-jmp, next-jmp}

-- `bytepc_table`, `jumpexc_table` and `constant_table[opc_return][state][0]`, by opcode and state.
pub record Places : Type 0 where
  pub bytepcs : ℕ → ℕ → List ℕ
  pub jumpexcs : ℕ → ℕ → List ℕ
  pub return_jump : ℕ → ℕ

-- The bit pattern of an `int32_t`.
abbrev pub word : ℤ → ℕ
word (pos n) = n % 2 ^ 32
word (negsuc n) = 2 ^ 32 - 1 - n % 2 ^ 32

-- `resolve PC in bytecode`
unfoldable pub resolve_bytepcs : List ℕ → ℕ → List ℕ → ℕ → List ℕ
resolve_bytepcs code nativeoff [] byteoff = code
resolve_bytepcs code nativeoff (k ∷ ks) byteoff =
    resolve_bytepcs (write_at (nativeoff + k) (le_bytes byteoff) code) nativeoff ks byteoff

-- The operand of a jump, and the short form of `0xe9`.
unfoldable pub resolve_exit : List ℕ → ℕ → ℕ → List ℕ
resolve_exit code target argoff =
    let arg = displacement target argoff in
    let patched = write_at argoff (le_bytes arg) code in
    if get_or patched (argoff - 1) 0 == 0xe9 then shorten_jmp patched argoff arg else patched

-- `resolve jump to exception handler`
unfoldable pub resolve_jumpexcs : List ℕ → ℕ → List ℕ → ℕ → List ℕ
unfolding resolve_exit
resolve_jumpexcs code nativeoff [] exc_off = code
resolve_jumpexcs code nativeoff (k ∷ ks) exc_off =
    resolve_jumpexcs (resolve_exit code exc_off (nativeoff + k)) nativeoff ks exc_off

-- The round for an entry, but for the tables of switches.
unfoldable pub resolve_exits : Places → ℕ → ℕ → List ℕ → PcEntry → List ℕ
unfolding resolve_bytepcs resolve_jumpexcs state
resolve_exits places exc_off fin_off code e =
    let st = state e in
    let code1 =
      resolve_bytepcs code e.nativeoff (places.bytepcs e.opcode st) (word e.increasing_byteoff) in
    let code2 = resolve_jumpexcs code1 e.nativeoff (places.jumpexcs e.opcode st) exc_off in
    if e.opcode == opc_return
    then resolve_exit code2 fin_off (e.nativeoff + places.return_jump st)
    else code2

unfoldable pub resolve_exc_ret : Places → ℕ → ℕ → List ℕ → List PcEntry → List ℕ
unfolding resolve_exits
resolve_exc_ret places exc_off fin_off code [] = code
resolve_exc_ret places exc_off fin_off code (e ∷ es) =
    resolve_exc_ret places exc_off fin_off (resolve_exits places exc_off fin_off code e) es

module _ (pre post : List ℕ) (target : ℕ) where
  -- For a `jmp`, this is what resolveJumpInstructions does.
  resolve_exit-jmp :
      (a b c d : ℕ)
      → resolve_exit (pre ++ (0xe9 ∷ a ∷ b ∷ c ∷ d ∷ post)) target (length pre + 1)
        ≡ pre ++ (jmp_bytes (length pre) target ++ post)
  unfolding resolve_exit resolve_jump
  resolve_exit-jmp a b c d =
      let arg = displacement target (length pre + 1) in
      let code = pre ++ (0xe9 ∷ a ∷ b ∷ c ∷ d ∷ post) in
      let back : length pre + 1 - 1 ≡ length pre + 0 = omega arith in
      let patched : write_at (length pre + 1) (le_bytes arg) code
          ≡ pre ++ (0xe9 ∷ (le_bytes arg ++ post)) =
        write_at-append pre (0xe9 ∷ a ∷ b ∷ c ∷ d ∷ post) (le_bytes arg) 1
        ∙ unfold write_at in refl in
      let read : get_or (write_at (length pre + 1) (le_bytes arg) code) (length pre + 1 - 1) 0
          ≡ 0xe9 =
        rw (patched, back) (get_or-append pre (0xe9 ∷ (le_bytes arg ++ post)) 0 0) in
      let same : resolve_exit code target (length pre + 1)
          ≡ resolve_jump code target (length pre + 1) =
        rw read refl in
      same ∙ resolve_jump-jmp pre post target a b c d

length-jmp_bytes : (pc target : ℕ) → length (jmp_bytes pc target) ≡ 5
length-jmp_bytes pc target =
    either_branch (λ (bs : List ℕ). length bs ≡ 5)
      (fits_char ((displacement target (pc + 1) + 3) % 2 ^ 32)) refl refl

-- A `jmp` to the exception handler or to the end of the method, at any place of the code and to a target below 2 ^ 32, is rewritten in place, so that the
-- processor goes from it to the target, in the near form and in the short one, and the code keeps its length.
pub resolve_exit_lands :
    (pre post : List ℕ) (target a b c d : ℕ) (holds : ℕ → Bool)
    → target < 2 ^ 32
    → let code = resolve_exit (pre ++ (0xe9 ∷ a ∷ b ∷ c ∷ d ∷ post)) target (length pre + 1) in
      (next holds code (length pre) ≡ some target) × (length code ≡ length pre + (5 + length post))
resolve_exit_lands pre post target a b c d holds small =
    let e = resolve_exit-jmp pre post target a b c d in
    (
      rw e (next-jmp pre post target holds small),
      ap length e
          ∙ omega (
            arith,
            length-append pre (jmp_bytes (length pre) target ++ post),
            length-append (jmp_bytes (length pre) target) post,
            length-jmp_bytes (length pre) target,
          ),
    )
