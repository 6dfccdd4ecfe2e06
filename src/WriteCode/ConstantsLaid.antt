-- ===== src/WriteCode/ConstantsLaid.antt =====
-- The constants of an instruction are as many words as its places take, and they go into its piece.
use shujit.Base.{
  ℕ, suc, ◌+◌, ◌*◌, ◌≤◌, ◌≡◌, refl, List, [], ◌∷◌, Option, none, some, ◌>>=◌, either_branch, true,
  false, not, ◌||◌, ◌==◌, length, arith, pos_part,
}
use shujit.PcEntry.{PcEntry, state}
use shujit.Opcode.{opc_ldc, opc_ldc_w, opc_ldc_quick, opc_ldc_w_quick, opc_ldc2_w}
use shujit.Translate.Bytes.{byte_at, get_int32, aligned}
use shujit.Jump.{le_bytes}
use shujit.WriteCode.Machine.{Templates, Pools, Memory, Writing, ResolvedEntries, poke_word}
use shujit.WriteCode.Kinds.{
  Kind, push_word, push_two_words, variable, long_variable, double_variable, increment_variable,
  return_offset, switch_bounds, switch_pairs, member_slot, callee_args, callee_slot, callee_space,
  recursive_call, recursive_jump, enter_inlined, exit_inlined, operand_itself, dimensions,
  ignored_args, ignored_static, no_constant, words_at_place,
}
use shujit.WriteCode.Constants.{
  Resolution, words, leave, one, with_constant, pool_word_or_later, pool_two_words, resolve_push,
  resolve_push_two, resolve_member, is_quick_member, increment_of, to_start, enter_method,
  exit_method, constants, copy_words, copy_constants, word_constants, two_word_constants,
  field_constants, method_constants,
}
use shujit.WriteCode.Keeps.{IsOpen, Open, poke-OpenTo}
use shujit.WriteCode.PieceLaid.{PlacesFit}

-- For each place so many words as it takes, or no word for this place and those behind it.
abbrev pub Shaped : List (List ℕ) → List ℕ → Type 0
Shaped [] ns = Unit {0}
Shaped (ws ∷ wss) [] = suc (length ws) ≤ 0
Shaped (ws ∷ wss) (n ∷ ns) = (length ws ≡ n) × Shaped wss ns

-- What the resolution of constants leaves alone.
pub record Kept (s s' : Writing) : Type 0 where
  pub same_buffer : s.buffer ≡ s'.buffer
  pub same_pctable : s.pctable ≡ s'.pctable
  pub same_jptable : s.jptable ≡ s'.jptable
  pub same_nativeoff : s.nativeoff ≡ s'.nativeoff
  pub same_nextoff : s.nextoff ≡ s'.nextoff
  pub same_head : s.insn_head_off ≡ s'.insn_head_off

abbrev pub keeps_refl : (s : Writing) → Kept s s
keeps_refl s = record {
  same_buffer = refl;
  same_pctable = refl;
  same_jptable = refl;
  same_nativeoff = refl;
  same_nextoff = refl;
  same_head = refl;
}

module _ (ns : List ℕ) (s : Writing) where
  abbrev pub Fills : Resolution → Type 0
  Fills (words wss s') = Shaped wss ns × Kept s s'
  Fills (leave ret s') = Kept s s'

  abbrev pub FillsIf : Option Resolution → Type 0
  FillsIf none = Unit {0}
  FillsIf (some r) = Fills r

  FillsIf-bind :
      {A : Type 0} (o : Option A) (f : A → Option Resolution)
      → ((a : A) → FillsIf (f a))
      → FillsIf (o >>= f)
  FillsIf-bind none f h = tt
  FillsIf-bind (some a) f h = h a

  FillsIf-resolve :
      (o : Option ResolvedEntries) (f : ResolvedEntries → Option Resolution)
      → ((a : ResolvedEntries) → FillsIf (f a))
      → FillsIf (elim o as (λ r. Option Resolution) [
        | none ↦ some (leave true s)
        | some resolved ↦ f resolved
      ])
  FillsIf-resolve none f h = keeps_refl s
  FillsIf-resolve (some a) f h = h a

abbrev kept_but_resolved :
    (s : Writing) (resolved : ResolvedEntries) → Kept s (record s { resolved = resolved })
kept_but_resolved s resolved = record {
  same_buffer = refl;
  same_pctable = refl;
  same_jptable = refl;
  same_nativeoff = refl;
  same_nextoff = refl;
  same_head = refl;
}

module _ (mem : Memory) (t : Templates) (p : Pools) (e : PcEntry) where
  -- A continuation that fills the places from any state that is kept.
  with_constant-Fills :
      (ns : List ℕ) (mask : ℕ) (s : Writing) (cont : Writing → Option Resolution)
      → ((s' : Writing) → Kept s s' → FillsIf ns s (cont s'))
      → FillsIf ns s (with_constant mem t p e mask s cont)
  unfolding with_constant
  with_constant-Fills ns mask s cont h =
      either_branch (FillsIf ns s) (s.resolved s.mb e.operand) (h s (keeps_refl s)) (
        FillsIf-resolve ns s (p.resolve s.mb e.operand mask s.resolved)
          (λ resolved. cont (record s { resolved = resolved }))
          (λ resolved. h (record s { resolved = resolved }) (kept_but_resolved s resolved)))

  pool_word_or_later-Fills :
      (s s' : Writing) → Kept s s' → FillsIf (1 ∷ []) s (pool_word_or_later mem t p e s')
  unfolding pool_word_or_later
  pool_word_or_later-Fills s s' q =
      either_branch (FillsIf (1 ∷ []) s) (p.pool_string s'.mb e.operand) (tt, q) ((refl, tt), q)

  resolve_push-Fills : (s : Writing) → FillsIf (1 ∷ []) s (resolve_push mem t p e s)
  unfolding resolve_push
  resolve_push-Fills s = FillsIf-bind (1 ∷ []) s (byte_at (p.code s.mb) e.byteoff 0) _ (λ original.
      either_branch (FillsIf (1 ∷ []) s) (original == opc_ldc || original == opc_ldc_w)
        (with_constant-Fills (1 ∷ []) word_constants s (pool_word_or_later mem t p e)
          (pool_word_or_later-Fills s))
        (either_branch (FillsIf (1 ∷ []) s)
          (original == opc_ldc_quick || original == opc_ldc_w_quick)
          (pool_word_or_later-Fills s s (keeps_refl s)) ((refl, tt), keeps_refl s)))

  resolve_push_two-Fills : (s : Writing) → FillsIf (1 ∷ 1 ∷ []) s (resolve_push_two mem t p e s)
  unfolding resolve_push_two pool_two_words
  resolve_push_two-Fills s =
      FillsIf-bind (1 ∷ 1 ∷ []) s (byte_at (p.code s.mb) e.byteoff 0) _ (λ original.
        either_branch (FillsIf (1 ∷ 1 ∷ []) s) (original == opc_ldc2_w)
          (with_constant-Fills (1 ∷ 1 ∷ []) two_word_constants s (pool_two_words mem t p e)
            (λ s' q. ((refl, (refl, tt)), q)))
          ((refl, (refl, tt)), keeps_refl s))

  resolve_member-Fills : (s : Writing) → FillsIf (1 ∷ []) s (resolve_member mem t p e s)
  unfolding resolve_member
  resolve_member-Fills s =
      FillsIf-bind (1 ∷ []) s (byte_at (p.code s.mb) e.byteoff 0) _ (λ original.
        either_branch (FillsIf (1 ∷ []) s) (is_quick_member e.opcode original)
          ((refl, tt), keeps_refl s)
          (either_branch (FillsIf (1 ∷ []) s) (not (s.resolved s.mb e.operand))
            (FillsIf-resolve (1 ∷ []) s (p.resolve s.mb e.operand field_constants s.resolved)
              (λ resolved. some (leave false (record s { resolved = resolved })))
              (kept_but_resolved s))
            ((refl, tt), keeps_refl s)))

  -- Every case of the switch.
  pub constants-Fills :
      (k : Kind) (s : Writing) → FillsIf (words_at_place k) s (constants mem t p e k s)
  unfolding constants enter_method exit_method
  constants-Fills push_word s = resolve_push-Fills s
  constants-Fills push_two_words s = resolve_push_two-Fills s
  constants-Fills variable s = ((refl, tt), keeps_refl s)
  constants-Fills long_variable s = ((refl, (refl, tt)), keeps_refl s)
  constants-Fills double_variable s = ((refl, tt), keeps_refl s)
  constants-Fills increment_variable s =
      FillsIf-bind (2 ∷ []) s (increment_of (p.code s.mb) e.byteoff) _
        (λ by. ((refl, tt), keeps_refl s))
  constants-Fills return_offset s = ((refl, tt), keeps_refl s)
  constants-Fills switch_bounds s =
      FillsIf-bind (1 ∷ 1 ∷ []) s
        (get_int32 (p.code s.mb) e.byteoff (aligned (pos_part e.byteoff) + 4)) _
        (λ l.
          FillsIf-bind (1 ∷ 1 ∷ []) s
            (get_int32 (p.code s.mb) e.byteoff (aligned (pos_part e.byteoff) + 8)) _
            (λ h. ((refl, (refl, tt)), keeps_refl s)))
  constants-Fills switch_pairs s =
      FillsIf-bind (1 ∷ []) s (get_int32 (p.code s.mb) e.byteoff (aligned (pos_part e.byteoff) + 4))
        _ (λ n. ((refl, tt), keeps_refl s))
  constants-Fills member_slot s = resolve_member-Fills s
  constants-Fills callee_args s = ((refl, tt), keeps_refl s)
  constants-Fills callee_slot s = ((refl, tt), keeps_refl s)
  constants-Fills callee_space s = ((refl, tt), keeps_refl s)
  constants-Fills recursive_call s =
      FillsIf-bind (1 ∷ 1 ∷ []) s (to_start mem t p e 1 s) _
        (λ offset. ((refl, (refl, tt)), keeps_refl s))
  constants-Fills recursive_jump s =
      FillsIf-bind (1 ∷ []) s (to_start mem t p e 0 s) _ (λ offset. ((refl, tt), keeps_refl s))
  constants-Fills enter_inlined s = (
    (refl, (refl, tt)),
    record {
      same_buffer = refl;
      same_pctable = refl;
      same_jptable = refl;
      same_nativeoff = refl;
      same_nextoff = refl;
      same_head = refl;
    },
  )
  constants-Fills exit_inlined s = (
    (refl, tt),
    record {
      same_buffer = refl;
      same_pctable = refl;
      same_jptable = refl;
      same_nativeoff = refl;
      same_nextoff = refl;
      same_head = refl;
    },
  )
  constants-Fills operand_itself s = ((refl, tt), keeps_refl s)
  constants-Fills dimensions s =
      FillsIf-bind (1 ∷ []) s (byte_at (p.code s.mb) e.byteoff 3) _
        (λ n. ((refl, tt), keeps_refl s))
  constants-Fills ignored_args s =
      FillsIf-bind (1 ∷ []) s (byte_at (p.code s.mb) e.byteoff 1) _
        (λ n. ((refl, tt), keeps_refl s))
  constants-Fills ignored_static s =
      with_constant-Fills (1 ∷ []) method_constants s
        (λ s'. one (p.args_size (p.pool_method s'.mb e.operand)) s') (λ s' q. ((refl, tt), q))
  constants-Fills no_constant s = (tt, keeps_refl s)

  pub copy_words-Open :
      (len k at : ℕ) (ws : List ℕ) (s : Writing)
      → at ≡ s.insn_head_off + k
      → k + 4 * length ws ≤ len
      → Open len s
      → Open len (copy_words mem t p e at ws s)
  unfolding copy_words
  copy_words-Open len k at [] s place h o = o
  copy_words-Open len k at (w ∷ ws) s place h o =
      copy_words-Open len (k + 4) (at + 4) ws (poke_word at w s) (omega (arith, place))
        (omega arith) (poke-OpenTo s.nextoff len k at (le_bytes w) s place (omega arith) o)

  pub copy_constants-Open :
      (len k : ℕ) (wss : List (List ℕ)) (ns : List ℕ) (s : Writing)
      → Shaped wss ns
      → PlacesFit (t.constant_at e.opcode (state e)) len k ns
      → Open len s
      → Open len (copy_constants mem t p e k wss s)
  unfolding copy_constants
  copy_constants-Open len k [] ns s h fit o = o
  copy_constants-Open len k (ws ∷ wss) [] s h fit o = absurd (omega (arith, h))
  copy_constants-Open len k (ws ∷ wss) (n ∷ ns) s h fit o =
      let place = t.constant_at e.opcode (state e) k in
      let at = s.insn_head_off + place in
      copy_constants-Open len (suc k) wss ns (copy_words mem t p e at ws s) h.1 fit.1
        (copy_words-Open len place at ws s refl (omega (arith, fit.0, h.0)) o)

-- The resolution of constants keeps what is open.
pub Kept-Open : (len : ℕ) (s s' : Writing) → Kept s s' → Open len s → Open len s'
Kept-Open len s s' q o =
    coe 0 1
      (i.
        IsOpen (q.same_buffer i) (q.same_jptable i) (q.same_pctable i) (q.same_nativeoff i)
          (q.same_head i) (q.same_nextoff i) len)
      o
