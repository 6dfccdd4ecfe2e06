-- ===== src/WriteCode/AppendLaid.antt =====
-- What the code behind a piece appends: bytes, a jump, the entry for a change of state.
use shujit.Base.{
  ℕ, suc, ◌+◌, ◌-◌, ◌<◌, ◌≡◌, refl, ap, sym, ◌∙◌, List, [], ◌∷◌, ◌++◌, append_assoc, some,
  some-injective, bind-some, subst, length, length-append, take, drop, ℤ, negsuc, bits32, arith,
}
use shujit.PcEntry.{PcEntry}
use shujit.PcTable.{filled, pctable_insert}
use shujit.PcTable.Inv as Pc
use shujit.PcTable.Edit.{opcode-filled}
use shujit.JpTable.{jptable_add}
use shujit.JpTable.Laws as Jp
use shujit.Jump.Sites.{Site, plain, site_bytes, site_jumps, emit}
use shujit.Opcode.{opc_stateto0}
use shujit.WriteCode.Machine.{Templates, Memory, Writing, write_bytes, register_jump, state_behind}
use shujit.WriteCode.Branch.{append, append_jump, change_state}
use shujit.WriteCode.Grown.{jptable_add-some, pctable_insert-some}
use shujit.WriteCode.Layout.{IsLaid, IsSmall, register-IsLaid, offset-emit}
use shujit.WriteCode.Keeps.{
  IsCased, AllCased, AllCased-take, AllCased-drop, AllCased-append, Open, write_bytes-some,
}

module _ (mem : Memory) where
  -- A site that is no jump.
  pub append-Open :
      (len : ℕ) (bytes : List ℕ) (s s' : Writing)
      → Open len s
      → append mem bytes s ≡ some s'
      → Open len s' × (s'.nextoff ≡ s.nextoff + length bytes) × (s'.pctable.len ≡ s.pctable.len)
  unfolding append
  append-Open len bytes s s' o k =
      let (s1, e1, k1) = bind-some (write_bytes mem s bytes) _ s' k in
      let sites = o.before ++ plain o.bytes ∷ o.behind in
      let (b, same, l, at) = write_bytes-some mem s bytes s1 sites o.laid e1 in
      let e2 : record s { buffer = b; nextoff = s.nextoff + length bytes } ≡ s' =
        ap (λ (x : Writing). record x { nextoff = x.nextoff + length bytes }) same
        ∙ some-injective _ _ k1 in
      subst
        (λ (x : Writing).
          Open len x × (x.nextoff ≡ s.nextoff + length bytes) × (x.pctable.len ≡ s.pctable.len))
        e2
        (
          record {
            before = o.before;
            bytes = o.bytes;
            behind = o.behind ++ plain bytes ∷ [];
            laid =
                subst (IsLaid b s.jptable)
                  (append_assoc o.before (plain o.bytes ∷ o.behind) (plain bytes ∷ [])) l;
            is_here = o.is_here;
            is_head = o.is_head;
            at_end = omega (arith, at, o.at_end);
            size = o.size;
            table = o.table;
            cased = o.cased;
          },
          refl,
          refl,
        )

  -- A jump whose operand the jump table knows.
  pub append_jump-Open :
      (len : ℕ) (opcode : List ℕ) (tgtoff : ℤ) (s s' : Writing) (st : Site)
      → site_bytes st ≡ opcode ++ 0 ∷ 0 ∷ 0 ∷ 0 ∷ []
      → ((pc : ℕ)
          → site_jumps pc st []
            ≡ record { tgtoff = bits32 tgtoff; argoff = pc + length opcode } ∷ [])
      → IsSmall st
      → Open len s
      → append_jump mem opcode tgtoff s ≡ some s'
      → Open len s' × (s'.pctable.len ≡ s.pctable.len)
  unfolding append_jump append register_jump
  append_jump-Open len opcode tgtoff s s' st bytes_are jumps_are q o k =
      let new = opcode ++ 0 ∷ 0 ∷ 0 ∷ 0 ∷ [] in
      let (s1, e1, k1) = bind-some (append mem new s) _ s' k in
      let (s2, e2, k2) = bind-some (write_bytes mem s new) _ s1 e1 in
      let sites = o.before ++ plain o.bytes ∷ o.behind in
      let (b, same, l, at) = write_bytes-some mem s new s2 sites o.laid e2 in
      let same1 : record s { buffer = b; nextoff = s.nextoff + length new } ≡ s1 =
        ap (λ (x : Writing). record x { nextoff = x.nextoff + length new }) same
        ∙ some-injective _ _ k2 in
      let k3 =
        subst (λ (x : Writing). register_jump mem x (bits32 tgtoff) (x.nextoff - 4) ≡ some s')
          (sym same1) k1 in
      let argoff = s.nextoff + length new - 4 in
      let (j, e3, k4) =
        bind-some (jptable_add mem.jpentries s.jptable (bits32 tgtoff) argoff) _ s' k3 in
      let (w, known) =
        jptable_add-some mem.jpentries s.jptable (bits32 tgtoff) argoff j o.laid.table e3 in
      let start : length (emit sites) + length opcode ≡ argoff = omega (
        arith,
        offset-emit s.buffer s.jptable sites o.laid,
        o.at_end,
        length-append opcode (0 ∷ 0 ∷ 0 ∷ 0 ∷ []),
      ) in
      let laid =
        register-IsLaid b s.jptable sites st j
          (subst (λ c. IsLaid b s.jptable (sites ++ plain c ∷ [])) (sym bytes_are) l) q w
          (known
            ∙ ap (λ t. Jp.view s.jptable ++ t)
                (ap (λ (n : ℕ). record { tgtoff = bits32 tgtoff; argoff = n } ∷ []) (sym start)
                  ∙ sym (jumps_are (length (emit sites))))) in
      subst (λ (x : Writing). Open len x × (x.pctable.len ≡ s.pctable.len)) (some-injective _ _ k4)
        (
          record {
            before = o.before;
            bytes = o.bytes;
            behind = o.behind ++ st ∷ [];
            laid =
                subst (IsLaid b j) (append_assoc o.before (plain o.bytes ∷ o.behind) (st ∷ []))
                  laid;
            is_here = o.is_here;
            is_head = o.is_head;
            at_end = omega (arith, at, o.at_end);
            size = o.size;
            table = o.table;
            cased = o.cased;
          },
          refl,
        )

  module _ (t : Templates) (e : PcEntry) (len : ℕ) where
    -- The entry for the change of state is no comparison.
    pub change_state-Open :
        (i tgtstate : ℕ) (s s' : Writing)
        → i < s.pctable.len
        → tgtstate < 16
        → Open len s
        → change_state mem t i e tgtstate s ≡ some s'
        → Open len s' × (s'.pctable.len ≡ s.pctable.len + 1)
    unfolding change_state
    change_state-Open i tgtstate s s' h small o k =
        let opcode = opc_stateto0 + tgtstate in
        let st = state_behind t e in
        let (table, e1, k1) =
          bind-some
            (pctable_insert mem.pcentries s.pctable (suc i) opcode (negsuc 0) e.byteoff st
              s.nextoff)
            _ s' k in
        let (old, v, view_is, n) =
          pctable_insert-some mem.pcentries s.pctable (suc i) opcode (negsuc 0) e.byteoff st
            s.nextoff table o.table (omega arith) e1 in
        let new_cased : IsCased (filled old opcode (negsuc 0) e.byteoff st s.nextoff) =
          let n = opcode-filled old opcode (negsuc 0) e.byteoff st s.nextoff in
          ((λ q. omega (arith, n, q, small)), λ q. omega (arith, n, q, small)) in
        let before = take (suc i) (Pc.view s.pctable) in
        let after = drop (suc i) (Pc.view s.pctable) in
        let cased : AllCased (Pc.view table) = subst AllCased (sym view_is) (
          AllCased-append before _ (AllCased-take (suc i) (Pc.view s.pctable) o.cased)
            (new_cased, AllCased-drop (suc i) (Pc.view s.pctable) o.cased)) in
        let o1 : Open len (record s { pctable = table }) = record {
          before = o.before;
          bytes = o.bytes;
          behind = o.behind;
          laid = o.laid;
          is_here = o.is_here;
          is_head = o.is_head;
          at_end = o.at_end;
          size = o.size;
          table = v;
          cased = cased;
        } in
        let (o2, _, same) =
          append-Open len (t.piece opcode st) (record s { pctable = table }) s' o1 k1 in
        (o2, same ∙ n)
