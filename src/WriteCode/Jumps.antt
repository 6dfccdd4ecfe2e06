-- ===== src/WriteCode/Jumps.antt =====
-- The jumps of writeCode against the byte code: what is written, what is registered, and when the processor jumps.
use shujit.Base.{
  ℕ, suc, ◌+◌, ◌%◌, ◌<◌, ◌≤◌, ◌≡◌, ◌≢◌, sym, ◌∙◌, List, [], ◌∷◌, ◌++◌, append_assoc, true, false,
  some, some-injective, bind-some, Bool-cases, subst, inl, inr, leb, ◌==◌, ==_iff, if◌then◌else◌,
  ◌&&◌, length, length-append, get_elem?, ℤ, negsuc, ◌+ℤ◌, bits32, arith,
}
use mathlib.Core.Bool.{true≢false}
use shujit.PcEntry.{PcEntry, state}
use shujit.PcTable.{pctable_get_by_pc, pctable_insert}
use shujit.JpTable.{JpEntry}
use shujit.BlockStructure.{target_of}
use shujit.Opcode.{opc_ifeq, opc_if_acmpne, opc_ret, opc_stateto0}
use shujit.WriteCode.Machine.{Templates, Pools, Memory, Writing, state_behind}
use shujit.WriteCode.Branch.{
  Target, jumpoff_at, jump_target, append, append_jump, change_state, conditional_jump, plain_jump,
  branch,
}
use shujit.WriteCode.Grown.{pctable_insert-some}
use shujit.WriteCode.Appends.{
  IsReady, Appends, Appends-bytes, append-Appends, append_jump-Appends, Tests, conditions-Tests,
}
use shujit.WriteCode.Keeps.{IsCased}
use shujit.WriteCode.BranchLaid.{conditions-IsCased}

module _ (mem : Memory) where
  module _ (t : Templates) (e : PcEntry) where
    -- The code that brings the cache to the state of the target.
    abbrev pub state_code : ℕ → List ℕ
    state_code tgtstate = t.piece (opc_stateto0 + tgtstate) (state_behind t e)

    change_state-Appends :
        (i tgtstate : ℕ) (s s' : Writing)
        → i < s.pctable.len
        → IsReady s
        → change_state mem t i e tgtstate s ≡ some s'
        → Appends s (state_code tgtstate) [] s'
    unfolding change_state
    change_state-Appends i tgtstate s s' h r k =
        let opcode = opc_stateto0 + tgtstate in
        let st = state_behind t e in
        let (table, e1, k1) =
          bind-some
            (pctable_insert mem.pcentries s.pctable (suc i) opcode (negsuc 0) e.byteoff st
              s.nextoff)
            _ s' k in
        let (old, v, view_is, n) =
          pctable_insert-some mem.pcentries s.pctable (suc i) opcode (negsuc 0) e.byteoff st
            s.nextoff table r.pctable (omega arith) e1 in
        let s1 : Writing = record s { pctable = table } in
        let a =
          append-Appends mem (t.piece opcode st) s1 s'
            (record { buffer = r.buffer; jptable = r.jptable; pctable = v; at_end = r.at_end })
            k1 in
        record {
          ready = a.ready;
          code = a.code;
          jumps = a.jumps;
          end_is = a.end_is;
          len_is = omega (arith, n, a.len_is);
        }

    -- The bytes up to the operand: a jump on the condition, where the state is the target's already; else a jump on the
    -- opposite condition over the change of state and the jump, which are as long as its operand says; for `goto` and `jsr`
    -- the change of state and the jump.
    pub data Encodes (tgtstate : ℕ) : List ℕ → Type 0 where
      near :
          (c r : ℕ)
          → leb e.opcode opc_if_acmpne ≡ true
          → state_behind t e ≡ tgtstate
          → Tests e.opcode c r
          → Encodes tgtstate (0x0f ∷ (0x80 + c) ∷ [])
      over :
          (c r : ℕ)
          → leb e.opcode opc_if_acmpne ≡ true
          → state_behind t e ≢ tgtstate
          → Tests e.opcode c r
          → Encodes tgtstate (
              (0x70 + r)
              ∷ (length (state_code tgtstate) + 5) % 256
              ∷ (state_code tgtstate ++ 0xe9 ∷ []))
      always :
          leb e.opcode opc_if_acmpne ≡ false → Encodes tgtstate (state_code tgtstate ++ 0xe9 ∷ [])

    -- What a jump leaves, with the bytes up to its operand.
    pub record Registered (tgtstate : ℕ) (tgtoff : ℤ) (s s' : Writing) : Type 0 where
      pub bytes : List ℕ
      pub encodes : Encodes tgtstate bytes
      pub appends :
          Appends s
            (bytes ++ 0 ∷ 0 ∷ 0 ∷ 0 ∷ [])
            (record { tgtoff = bits32 tgtoff; argoff = s.buffer.offset + length bytes } ∷ [])
            s'

    -- The jump behind bytes that have been written.
    behind :
        (bytes : List ℕ) (st : ℕ) (tgtoff : ℤ) (s s1 s2 : Writing)
        → Appends s bytes [] s1
        → Encodes st (bytes ++ 0xe9 ∷ [])
        → append_jump mem (0xe9 ∷ []) tgtoff s1 ≡ some s2
        → Registered st tgtoff s s2
    behind bytes st tgtoff s s1 s2 a encodes k =
        let js : ℕ → List JpEntry = λ n. record { tgtoff = bits32 tgtoff; argoff = n } ∷ [] in
        let place : s1.buffer.offset + 1 ≡ s.buffer.offset + length (bytes ++ 0xe9 ∷ []) =
          omega (arith, a.end_is, length-append bytes (0xe9 ∷ [])) in
        let whole =
          Appends-bytes s s1 s2 bytes (0xe9 ∷ 0 ∷ 0 ∷ 0 ∷ 0 ∷ []) (js (s1.buffer.offset + 1)) a
            (append_jump-Appends mem (0xe9 ∷ []) tgtoff s1 s2 a.ready k) in
        record {
          bytes = bytes ++ 0xe9 ∷ [];
          encodes = encodes;
          appends =
              subst
                (λ (b : List ℕ).
                  Appends s b (js (s.buffer.offset + length (bytes ++ 0xe9 ∷ []))) s2)
                (sym (append_assoc bytes (0xe9 ∷ []) (0 ∷ 0 ∷ 0 ∷ 0 ∷ [])))
                (subst (λ n. Appends s (bytes ++ 0xe9 ∷ 0 ∷ 0 ∷ 0 ∷ 0 ∷ []) (js n) s2) place whole);
        }

    conditional_jump-Registered :
        (i : ℕ) (target : Target) (s : Writing) (r : ℕ × Writing)
        → i < s.pctable.len
        → IsCased e
        → leb opc_ifeq e.opcode ≡ true
        → leb e.opcode opc_if_acmpne ≡ true
        → IsReady s
        → conditional_jump mem t i e target s ≡ some r
        → Registered target.tgtstate target.tgtoff s r.1
    unfolding conditional_jump
    conditional_jump-Registered i target s r h c low high ready k =
        let (cond, rev, is, lt) = conditions-IsCased e c low high in
        let tests = conditions-Tests e.opcode cond rev is in
        let st = target.tgtstate in
        elim (Bool-cases (state_behind t e == st)) [
          | inl same ↦
              let bytes = 0x0f ∷ (0x80 + cond) ∷ [] in
              let (s1, e1, k1) =
                bind-some (append_jump mem bytes target.tgtoff s) _ r (rw (same, is) at k) in
              subst (λ (x : ℕ × Writing). Registered st target.tgtoff s x.1) (some-injective _ _ k1)
                (record {
                  bytes = bytes;
                  encodes = near cond rev high ((==_iff (state_behind t e) st).0 same) tests;
                  appends = append_jump-Appends mem bytes target.tgtoff s s1 ready e1;
                })
          | inr other ↦
              let skip = (0x70 + rev) ∷ (length (state_code st) + 5) % 256 ∷ [] in
              let (s1, e1, k1) = bind-some (append mem skip s) _ r (rw (other, is) at k) in
              let (s2, e2, k2) = bind-some (change_state mem t i e st s1) _ r k1 in
              let (s3, e3, k3) = bind-some (append_jump mem (0xe9 ∷ []) target.tgtoff s2) _ r k2 in
              let a1 = append-Appends mem skip s s1 ready e1 in
              let a2 = change_state-Appends i st s1 s2 (omega (arith, a1.len_is, h)) a1.ready e2 in
              let a12 = Appends-bytes s s1 s2 skip (state_code st) [] a1 a2 in
              subst (λ (x : ℕ × Writing). Registered st target.tgtoff s x.1) (some-injective _ _ k3)
                (behind (skip ++ state_code st) st target.tgtoff s s2 s3 a12
                  (over cond rev high
                    (λ q. true≢false (sym ((==_iff (state_behind t e) st).1 q) ∙ other)) tests)
                  e3)
        ]

    plain_jump-Registered :
        (i : ℕ) (target : Target) (s : Writing) (r : ℕ × Writing)
        → i < s.pctable.len
        → (e.opcode == opc_ret) ≡ false
        → leb e.opcode opc_if_acmpne ≡ false
        → IsReady s
        → plain_jump mem t i e target s ≡ some r
        → Registered target.tgtstate target.tgtoff s r.1
    unfolding plain_jump
    plain_jump-Registered i target s r h no_ret high ready k =
        let st = target.tgtstate in
        let (s1, e1, k1) = bind-some (change_state mem t i e st s) _ r (rw no_ret at k) in
        let (s2, e2, k2) = bind-some (append_jump mem (0xe9 ∷ []) target.tgtoff s1) _ r k1 in
        subst (λ (x : ℕ × Writing). Registered st target.tgtoff s x.1) (some-injective _ _ k2)
          (behind (state_code st) st target.tgtoff s s1 s2
            (change_state-Appends i st s s1 h ready e1) (always high) e2)

    either_jump-Registered :
        (i : ℕ) (target : Target) (s : Writing) (r : ℕ × Writing)
        → i < s.pctable.len
        → IsCased e
        → leb opc_ifeq e.opcode ≡ true
        → (e.opcode == opc_ret) ≡ false
        → IsReady s
        → (if leb e.opcode opc_if_acmpne
            then conditional_jump mem t i e target s
            else plain_jump mem t i e target s)
          ≡ some r
        → Registered target.tgtstate target.tgtoff s r.1
    either_jump-Registered i target s r h c low no_ret ready k =
        elim (Bool-cases (leb e.opcode opc_if_acmpne)) [
          | inl high ↦ conditional_jump-Registered i target s r h c low high ready (rw high at k)
          | inr high ↦ plain_jump-Registered i target s r h no_ret high ready (rw high at k)
        ]

    -- Where a jump goes: `off` stands behind the opcode in the byte code, and the state is that of the first entry that
    -- the search finds for the target.
    pub record GoesBy (p : Pools) (s : Writing) (off : ℤ) (entry : PcEntry) : Type 0 where
      pub index : ℕ
      pub reads : jumpoff_at (p.code s.mb) e.byteoff ≡ some off
      pub finds : target_of (pctable_get_by_pc s.pctable (e.byteoff +ℤ off)) ≡ some index
      pub is_entry : get_elem? s.pctable.entries index ≡ some entry

    jump_target-GoesBy :
        (p : Pools) (s : Writing) (target : Target)
        → (e.opcode == opc_ret) ≡ false
        → jump_target p e s ≡ some target
        → (off : ℤ) × (entry : PcEntry) × GoesBy p s off entry
          × (record { tgtoff = e.byteoff +ℤ off; tgtstate = state entry } ≡ target)
    unfolding jump_target
    jump_target-GoesBy p s target no_ret k =
        let (off, e1, k1) =
          bind-some (jumpoff_at (p.code s.mb) e.byteoff) _ target (rw no_ret at k) in
        let (index, e2, k2) =
          bind-some (target_of (pctable_get_by_pc s.pctable (e.byteoff +ℤ off))) _ target k1 in
        let (entry, e3, k3) = bind-some (get_elem? s.pctable.entries index) _ target k2 in
        (
          off,
          entry,
          record { index = index; reads = e1; finds = e2; is_entry = e3 },
          some-injective _ _ k3,
        )

    -- What a jump leaves, by the byte code.
    pub record JumpsByCode (p : Pools) (s s' : Writing) : Type 0 where
      pub off : ℤ
      pub entry : PcEntry
      pub goes : GoesBy p s off entry
      pub registered : Registered (state entry) (e.byteoff +ℤ off) s s'

    branch_inside :
        (p : Pools) (i : ℕ) (s : Writing) (r : ℕ × Writing)
        → i < s.pctable.len
        → IsCased e
        → leb opc_ifeq e.opcode ≡ true
        → (e.opcode == opc_ret) ≡ false
        → (leb opc_ifeq e.opcode && leb e.opcode opc_ret) ≡ true
        → IsReady s
        → branch mem t p i e s ≡ some r
        → JumpsByCode p s r.1
    unfolding branch
    branch_inside p i s r h c low no_ret inside ready k =
        let (target, e1, k1) = bind-some (jump_target p e s) _ r (rw inside at k) in
        let (off, entry, goes, same) = jump_target-GoesBy p s target no_ret e1 in
        record {
          off = off;
          entry = entry;
          goes = goes;
          registered =
              subst (λ (x : Target). Registered x.tgtstate x.tgtoff s r.1) (sym same)
                (either_jump-Registered i target s r h c low no_ret ready k1);
        }

    -- Behind an entry that is a jump, other than the return from a subroutine, writeCode writes the jump and registers it:
    -- with the target that the byte code has, the sum of the offset of the entry and the one behind the opcode, and with
    -- the place of the operand, which is left empty. The jump is on the condition on which the byte code jumps, where the
    -- cache is in the state of the target already; else on the opposite condition over a change of state and a jump;
    -- `goto` and `jsr` are the change of state and a jump. Nothing else is written or registered. Conditions: the entry is
    -- in the table and no comparison of references, the tables are valid, the code ends where the next piece begins, and
    -- the target is found.
    pub branch-JumpsByCode :
        (p : Pools) (i : ℕ) (s : Writing) (r : ℕ × Writing)
        → i < s.pctable.len
        → IsCased e
        → opc_ifeq ≤ e.opcode
        → e.opcode < opc_ret
        → IsReady s
        → branch mem t p i e s ≡ some r
        → JumpsByCode p s r.1
    branch-JumpsByCode p i s r h c low below ready k =
        branch_inside p i s r h c (ground arith) (ground arith) (ground arith) ready k
