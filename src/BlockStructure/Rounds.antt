-- ===== src/BlockStructure/Rounds.antt =====
-- The rounds of makeBlockStructure, and the pass as a whole.
use shujit.Base.{
  ℕ, zero, suc, ◌+◌, ◌-◌, ◌^◌, ◌≤◌, ◌<◌, ◌≡◌, refl, sym, ap, ◌∙◌, subst, arith, List, [], Option,
  none, some, some-injective, bind-some, inl, inr, Bool-cases, ◌==◌, ◌||◌, ◌&&◌, leb, ltb, ltb→lt,
  ℤ, negsuc, ◌+ℤ◌, length, ==_iff, get_or, Realloc,
}
use shujit.Opcode.{opc_ifeq, opc_jsr, opc_exc_check, opc_tableswitch, opc_lookupswitch}
use shujit.PcEntry.{PcEntry, no_nativeoff}
use shujit.PcTable.{PcTable, no_entry, pctable_insert}
use shujit.PcTable.Inv.{IsValid, view}
use shujit.PcTable.Edit.{pctable_insert-total}
use shujit.BlockStructure.{
  is_backward, mark_target, mark_targets, jump_offset, has_check, switch_offsets, Outcome, done,
  bad_read, out_of_fuel, insert_check, structure_jump, structure_switch, structure_entry,
  structure_loop, make_block_structure,
}
use shujit.BlockStructure.Skeleton.{
  instruction, skeleton, Keeps, Keeps-refl, Keeps-trans, mark_target-Keeps, mark_targets-Keeps,
  skeleton-insert, length-insert, length-view,
}

-- A round: at most one entry more, and as many as the index has moved on.
record Round (t : PcTable) (i : ℕ) (r : PcTable × ℕ) : Type 0 where
  pub keeps : Keeps t 1 r.0
  pub ahead : i ≤ r.1
  pub in_step : r.0.len + i ≡ t.len + r.1

unmoved : (t : PcTable) (i : ℕ) → IsValid t → Round t i (t, i)
unmoved t i v = record { keeps = Keeps-refl t 1 v; ahead = omega arith; in_step = omega arith }

module _ (mem : Realloc PcEntry) (code : List ℕ) where
  inserted-Keeps :
      (t : PcTable) (i : ℕ) (byteoff : ℤ) (t' : PcTable)
      → IsValid t
      → i ≤ t.len
      → t.len < 2 ^ 31
      → pctable_insert mem t i opc_exc_check (negsuc 0) byteoff 0xffff no_nativeoff ≡ some t'
      → Keeps t 1 t' × (t'.len ≡ t.len + 1)
  inserted-Keeps t i byteoff t' v le small run =
      let (t1, e, e1, valid, is, fresh) =
        pctable_insert-total mem t v i opc_exc_check (negsuc 0) byteoff 0xffff no_nativeoff le small
          (omega arith) in
      let nothing : instruction e ≡ [] =
        rw ((==_iff e.opcode opc_exc_check).1 (fresh.opcode_is ∙ (omega arith))) refl in
      let same : skeleton (view t1) ≡ skeleton (view t) =
        ap skeleton is ∙ skeleton-insert i (view t) e nothing in
      let one : t1.len ≡ t.len + 1 = omega (
        arith,
        sym (length-view t1 valid) ∙ ap length is,
        length-insert i (view t) e (omega (arith, le, length-view t v)),
        length-view t v,
      ) in
      subst (λ x. Keeps t 1 x × (x.len ≡ t.len + 1)) (some-injective _ _ (sym e1 ∙ run))
        (
          record {
            valid = valid;
            same = same;
            longer = omega (arith, one);
            few = omega (arith, one);
          },
          one,
        )

  insert_check-Round :
      (t : PcTable) (i : ℕ) (byteoff off : ℤ) (r : PcTable × ℕ)
      → IsValid t
      → i ≤ t.len
      → t.len < 2 ^ 31
      → insert_check mem code t i byteoff off ≡ some r
      → Round t i r
  unfolding insert_check
  insert_check-Round t i byteoff off r v le small run = elim (Bool-cases (is_backward off)) [
    | inr forward ↦ subst (Round t i) (some-injective _ _ (rw forward at run)) (unmoved t i v)
    | inl backward ↦
        let (checked, _, e) = bind-some (has_check t (byteoff +ℤ off) i) _ r (rw backward at run) in
        elim (Bool-cases checked) [
          | inl yes' ↦ subst (Round t i) (some-injective _ _ (rw yes' at e)) (unmoved t i v)
          | inr no' ↦
              let (t1, e1, e2) =
                bind-some
                  (pctable_insert mem t i opc_exc_check (negsuc 0) byteoff 0xffff no_nativeoff) _ r
                  (rw no' at e) in
              let (keeps, one) = inserted-Keeps t i byteoff t1 v le small e1 in
              subst (Round t i) (some-injective _ _ e2)
                (record { keeps = keeps; ahead = omega arith; in_step = omega (arith, one) })
        ]
  ]

  behind_marks :
      (t t1 : PcTable) (i : ℕ) (r : PcTable × ℕ) → Keeps t 0 t1 → Round t1 i r → Round t i r
  behind_marks t t1 i r k round =
      let all = Keeps-trans 0 1 k round.keeps in
      record {
        keeps = record {
          valid = all.valid;
          same = all.same;
          longer = all.longer;
          few = omega (arith, all.few);
        };
        ahead = round.ahead;
        in_step = omega (arith, round.in_step, k.longer, k.few);
      }

  structure_jump-Round :
      (t : PcTable) (i : ℕ) (byteoff : ℤ) (r : PcTable × ℕ)
      → IsValid t
      → i ≤ t.len
      → t.len < 2 ^ 31
      → structure_jump mem code t i byteoff ≡ some r
      → Round t i r
  unfolding structure_jump
  structure_jump-Round t i byteoff r v le small run =
      let (off, _, e) = bind-some (jump_offset code byteoff) _ r run in
      let (t1, e1, e2) = bind-some (mark_target t i byteoff off) _ r e in
      let k = mark_target-Keeps t i byteoff off t1 v e1 in
      behind_marks t t1 i r k (
        insert_check-Round t1 i byteoff off r k.valid (omega (arith, le, k.longer))
          (omega (arith, small, k.few)) e2)

  structure_switch-Round :
      (t : PcTable) (i opcode : ℕ) (byteoff : ℤ) (r : PcTable × ℕ)
      → IsValid t
      → structure_switch mem code t i opcode byteoff ≡ some r
      → Round t i r
  unfolding structure_switch
  structure_switch-Round t i opcode byteoff r v run =
      let (offs, _, e) = bind-some (switch_offsets code opcode byteoff) _ r run in
      let (t1, e1, e2) = bind-some (mark_targets t i byteoff offs) _ r e in
      let k = mark_targets-Keeps t i byteoff offs t1 v e1 in
      behind_marks t t1 i r k (subst (Round t1 i) (some-injective _ _ e2) (unmoved t1 i k.valid))

  structure_entry-Round :
      (t : PcTable) (i : ℕ) (r : PcTable × ℕ)
      → IsValid t
      → i ≤ t.len
      → t.len < 2 ^ 31
      → structure_entry mem code t i ≡ some r
      → Round t i r
  unfolding structure_entry
  structure_entry-Round t i r v le small run =
      let e = get_or t.entries i no_entry in
      elim (Bool-cases (leb opc_ifeq e.opcode && leb e.opcode opc_jsr)) [
        | inl jump ↦ structure_jump-Round t i e.byteoff r v le small (rw jump at run)
        | inr other ↦
            elim (Bool-cases (e.opcode == opc_tableswitch || e.opcode == opc_lookupswitch)) [
              | inl switch ↦
                  structure_switch-Round t i e.opcode e.byteoff r v (rw switch at (rw other at run))
              | inr plain ↦
                  subst (Round t i) (some-injective _ _ (rw plain at (rw other at run)))
                    (unmoved t i v)
            ]
      ]

-- The end of the pass: it does not run for ever, and a table that it leaves has the instructions of `t` and at most
-- `more` entries more.
abbrev pub Structured : PcTable → ℕ → Outcome → Type 0
Structured t more (done t') = Keeps t more t'
Structured t more bad_read = Unit {0}
Structured t more out_of_fuel = ⊥

-- What holds after a round holds before it.
later :
    (t : PcTable) (i : ℕ) (t1 : PcTable) (j : ℕ)
    → i < t.len
    → Round t i (t1, j)
    → (o : Outcome) → Structured t1 (t1.len - suc j) o
    → Structured t (t.len - i) o
later t i t1 j lt round (done t') k =
    let all = Keeps-trans 1 (t1.len - suc j) round.keeps k in
    record {
      valid = all.valid;
      same = all.same;
      longer = all.longer;
      few = omega (arith, all.few, round.in_step, round.ahead, lt);
    }
later t i t1 j lt round bad_read k = tt
later t i t1 j lt round out_of_fuel k = k

module _ (mem : Realloc PcEntry) (code : List ℕ) where
  structure_loop-Structured :
      (fuel : ℕ) (t : PcTable) (i : ℕ)
      → IsValid t
      → i ≤ t.len
      → t.len - i < fuel
      → t.len + (t.len - i) < 2 ^ 31
      → Structured t (t.len - i) (structure_loop mem code fuel t i)
  unfolding structure_loop
  structure_loop-Structured zero t i v le enough small = absurd (omega arith)
  structure_loop-Structured (suc fuel) t i v le enough small = elim (Bool-cases (ltb i t.len)) [
    | inr end ↦ rw end (Keeps-refl t (t.len - i) v)
    | inl more ↦ rw more (
        after_round (structure_entry mem code t i)
          (λ r e. structure_entry-Round mem code t i r v le (omega arith) e)
          (λ r round. later t i r.0 r.1 (ltb→lt i t.len more) round _ (
            structure_loop-Structured fuel r.0 (suc r.1) round.keeps.valid
              (omega (arith, round.in_step, ltb→lt i t.len more))
              (omega (arith, round.in_step, round.ahead, ltb→lt i t.len more))
              (omega (arith, round.in_step, round.keeps.few, ltb→lt i t.len more)))))
  ]
    where
      after_round :
          (o : Option (PcTable × ℕ))
          → ((r : PcTable × ℕ) → o ≡ some r → Round t i r)
          → ((r : PcTable × ℕ)
              → Round t i r
              → Structured t (t.len - i) (structure_loop mem code fuel r.0 (suc r.1)))
          → Structured t (t.len - i) (elim o as (λ r. Outcome) [
            | none ↦ bad_read
            | some (t1, j) ↦ structure_loop mem code fuel t1 (suc j)
          ])
      after_round none h k = tt
      after_round (some (t1, j)) h k = k (t1, j) (h (t1, j) refl)

  -- For a valid table of fewer than 2 ^ 30 entries makeBlockStructure ends; a table that it leaves is valid, has the same
  -- instructions in the same order when checks for exceptions are left out, and at most twice as many entries.
  pub make_block_structure-Structured :
      (t : PcTable)
      → IsValid t
      → t.len < 2 ^ 30
      → Structured t t.len (make_block_structure mem code t)
  unfolding make_block_structure
  make_block_structure-Structured t v small =
      let e : t.len - 0 ≡ t.len = omega arith in
      subst (λ n. Structured t n (structure_loop mem code (suc t.len) t 0)) e
        (structure_loop-Structured (suc t.len) t 0 v (omega arith) (omega arith) (omega arith))
