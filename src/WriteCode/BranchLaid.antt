-- ===== src/WriteCode/BranchLaid.antt =====
-- The jumps behind the piece of an entry: what is appended is laid, and the pc table stays as it should.
use shujit.Base.{
  ℕ, ◌+◌, ◌%◌, ◌<◌, ◌≡◌, refl, ap, [], ◌∷◌, Option, some, some-injective, bind-some, Option-cases,
  either_branch, subst, true, Bool-cases, inl, inr, leb, ◌==◌, ◌&&◌, if◌then◌else◌, length,
  get_elem?, ◌+ℤ◌, bits32, arith,
}
use shujit.PcEntry.{PcEntry}
use shujit.PcTable.{pctable_get_by_pc}
use shujit.PcEntry.Bits.{state-le}
use shujit.BlockStructure.{target_of}
use shujit.Jump.Sites.{jmp, jcc}
use shujit.Opcode.{opc_ifeq, opc_if_acmpne, opc_ret, opc_stateto0}
use shujit.WriteCode.Machine.{Templates, Pools, Memory, Writing, state_behind}
use shujit.WriteCode.Branch.{
  Target, jump_target, conditions, append, append_jump, change_state, conditional_jump, plain_jump,
  branch, jumpoff_at,
}
use shujit.WriteCode.Keeps.{IsCased, Open}
use shujit.WriteCode.AppendLaid.{append-Open, append_jump-Open, change_state-Open}

-- A jump on a condition has a case, unless it is a comparison of references.
pub conditions-IsCased :
    (e : PcEntry)
    → IsCased e
    → leb opc_ifeq e.opcode ≡ true
    → leb e.opcode opc_if_acmpne ≡ true
    → (c r : ℕ) × (conditions e.opcode ≡ some (c, r)) × (c < 16)
unfolding conditions
conditions-IsCased e d low high = elim (Option-cases (conditions e.opcode)) [
  | inr (cond, k) ↦ (cond.0, cond.1, k, ground arith)
  | inl k ↦ absurd (ground arith)
]

module _ (mem : Memory) where
  module _ (t : Templates) (e : PcEntry) (len : ℕ) where
    -- What a jump leaves: the piece is open, the table has as many entries to come, and they are behind the index.
    pub record Left (i : ℕ) (s : Writing) (i' : ℕ) (s' : Writing) : Type 0 where
      pub laid : Open len s'
      pub to_come : s'.pctable.len + i ≡ s.pctable.len + i'

    abbrev pub LeftBy : ℕ → Writing → ℕ × Writing → Type 0
    LeftBy i s r = Left i s r.0 r.1

    conditional_jump-Left :
        (i : ℕ) (target : Target) (s : Writing) (r : ℕ × Writing)
        → i < s.pctable.len
        → target.tgtstate < 16
        → IsCased e
        → leb opc_ifeq e.opcode ≡ true
        → leb e.opcode opc_if_acmpne ≡ true
        → Open len s
        → conditional_jump mem t i e target s ≡ some r
        → LeftBy i s r
    unfolding conditional_jump
    conditional_jump-Left i target s r h small c low high o k =
        let (cond, rev, is, lt) = conditions-IsCased e c low high in
        elim (Bool-cases (state_behind t e == target.tgtstate)) [
          | inl same ↦
              let near = 0x0f ∷ (0x80 + cond) ∷ [] in
              let (s1, e1, k1) =
                bind-some (append_jump mem near target.tgtoff s) _ r (rw (same, is) at k) in
              let (o1, n1) =
                append_jump-Open mem len near target.tgtoff s s1 (jcc cond (bits32 target.tgtoff))
                  refl (λ pc. refl) lt o e1 in
              subst (LeftBy i s) (some-injective _ _ k1)
                (record { laid = o1; to_come = ap (λ (n : ℕ). n + i) n1 })
          | inr other ↦
              let piece = t.piece (opc_stateto0 + target.tgtstate) (state_behind t e) in
              let over = (0x70 + rev) ∷ (length piece + 5) % 256 ∷ [] in
              let (s1, e1, k1) = bind-some (append mem over s) _ r (rw (other, is) at k) in
              let (s2, e2, k2) = bind-some (change_state mem t i e target.tgtstate s1) _ r k1 in
              let (s3, e3, k3) = bind-some (append_jump mem (0xe9 ∷ []) target.tgtoff s2) _ r k2 in
              let (o1, _, n1) = append-Open mem len over s s1 o e1 in
              let (o2, n2) =
                change_state-Open mem t e len i target.tgtstate s1 s2 (omega (arith, n1, h)) small
                  o1 e2 in
              let (o3, n3) =
                append_jump-Open mem len (0xe9 ∷ []) target.tgtoff s2 s3
                  (jmp (bits32 target.tgtoff)) refl (λ pc. refl) tt o2 e3 in
              subst (LeftBy i s) (some-injective _ _ k3)
                (record { laid = o3; to_come = omega (arith, n1, n2, n3) })
        ]

    plain_jump-Left :
        (i : ℕ) (target : Target) (s : Writing) (r : ℕ × Writing)
        → i < s.pctable.len
        → target.tgtstate < 16
        → Open len s
        → plain_jump mem t i e target s ≡ some r
        → LeftBy i s r
    unfolding plain_jump
    plain_jump-Left i target s r h small o k =
        let (s1, e1, k1) = bind-some (change_state mem t i e target.tgtstate s) _ r k in
        let (o1, n1) = change_state-Open mem t e len i target.tgtstate s s1 h small o e1 in
        let last =
          if e.opcode == opc_ret
          then append mem (0xff ∷ 0xe0 ∷ []) s1
          else append_jump mem (0xe9 ∷ []) target.tgtoff s1 in
        let (s2, e2, k2) = bind-some last _ r k1 in
        let (o2, n2) =
          either_branch
            (λ (x : Option Writing). x ≡ some s2 → Open len s2 × (s2.pctable.len ≡ s1.pctable.len))
            (e.opcode == opc_ret)
            (λ q. let (o', _, n') = append-Open mem len (0xff ∷ 0xe0 ∷ []) s1 s2 o1 q in (o', n'))
            (append_jump-Open mem len (0xe9 ∷ []) target.tgtoff s1 s2 (jmp (bits32 target.tgtoff))
              refl (λ pc. refl) tt o1)
            e2 in
        subst (LeftBy i s) (some-injective _ _ k2)
          (record { laid = o2; to_come = omega (arith, n1, n2) })

    jump_target-small :
        (p : Pools) (s : Writing) (target : Target)
        → jump_target p e s ≡ some target
        → target.tgtstate < 16
    unfolding jump_target
    jump_target-small p s target k = elim (Bool-cases (e.opcode == opc_ret)) [
      | inl h ↦
          subst (λ (x : Target). x.tgtstate < 16) (some-injective _ _ (rw h at k)) (omega arith)
      | inr h ↦
          let (off, e1, k1) = bind-some (jumpoff_at (p.code s.mb) e.byteoff) _ target (rw h at k) in
          let (j, e2, k2) =
            bind-some (target_of (pctable_get_by_pc s.pctable (e.byteoff +ℤ off))) _ target k1 in
          let (entry, e3, k3) = bind-some (get_elem? s.pctable.entries j) _ target k2 in
          subst (λ (x : Target). x.tgtstate < 16) (some-injective _ _ k3)
            (omega (arith, state-le entry))
    ]

    either_jump-Left :
        (i : ℕ) (target : Target) (s : Writing) (r : ℕ × Writing)
        → i < s.pctable.len
        → target.tgtstate < 16
        → IsCased e
        → leb opc_ifeq e.opcode ≡ true
        → Open len s
        → (if leb e.opcode opc_if_acmpne
            then conditional_jump mem t i e target s
            else plain_jump mem t i e target s)
          ≡ some r
        → LeftBy i s r
    either_jump-Left i target s r h small c low o k =
        elim (Bool-cases (leb e.opcode opc_if_acmpne)) [
          | inl high ↦ conditional_jump-Left i target s r h small c low high o (rw high at k)
          | inr high ↦ plain_jump-Left i target s r h small o (rw high at k)
        ]

    -- The whole half.
    pub branch-Left :
        (p : Pools) (i : ℕ) (s : Writing) (r : ℕ × Writing)
        → i < s.pctable.len
        → IsCased e
        → Open len s
        → branch mem t p i e s ≡ some r
        → LeftBy i s r
    unfolding branch
    branch-Left p i s r h c o k =
        elim (Bool-cases (leb opc_ifeq e.opcode && leb e.opcode opc_ret)) [
          | inr q ↦
              subst (LeftBy i s) (some-injective _ _ (rw q at k))
                (record { laid = o; to_come = refl })
          | inl q ↦
              let (target, e1, k1) = bind-some (jump_target p e s) _ r (rw q at k) in
              either_jump-Left i target s r h (jump_target-small p s target e1) c (ground arith) o
                k1
        ]
