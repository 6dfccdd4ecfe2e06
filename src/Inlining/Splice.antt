-- ===== src/Inlining/Splice.antt =====
-- The invocation that is replaced by the code of its callee.
use shujit.Base.{
  Bool, true, false, ℕ, ◌+◌, ◌-◌, ◌^◌, ◌<◌, ◌≡◌, refl, ap, ◌∙◌, List, [], ◌∷◌, ◌++◌, some, ℤ,
  negsuc, if◌then◌else◌, length, length-append, length-take, take-append_eq, drop-append_eq,
  drop-append_add, ◌≤◌, Realloc, arith,
}
use shujit.PcEntry.{PcEntry, no_nativeoff}
use shujit.PcTable.{PcTable, pctable_ninsert, pctable_ndelete}
use shujit.PcTable.Inv.{IsValid, view}
use shujit.PcTable.Edit.{
  Fresh, pctable_ninsert-total, pctable_insert-total, pctable_ndelete_lem, size-pctable_insert,
}
use shujit.Inlining.{
  Callee, Program, locks, sync_exit, sync_enter, insert_at, insert_if, splice_at, splice,
}
use shujit.Opcode.{opc_stateto0, opc_inlined_enter, opc_inlined_exit}

-- A table in use with these entries.
pub record Holds (t : PcTable) (es : List PcEntry) : Type 0 where
  pub valid : IsValid t
  pub same : view t ≡ es
  pub fits : t.size < 2 ^ 31

Holds-len : (t : PcTable) (es : List PcEntry) → Holds t es → t.len ≡ length es
Holds-len t es h =
    omega (arith, length-take t.len t.entries, h.valid.block, h.valid.inside, ap length h.same)

-- A new entry of state 0 with no native code.
abbrev pub IsNew : PcEntry → ℕ → ℤ → ℤ → Type 0
IsNew e opcode operand byteoff = Fresh e opcode operand byteoff 0 no_nativeoff

-- The lock instruction of a synchronized callee, and nothing for others.
abbrev pub Locks : Bool → ℕ → ℤ → List PcEntry → Type 0
Locks true opcode byteoff es = (e : PcEntry) × (es ≡ e ∷ []) × IsNew e opcode (negsuc 0) byteoff
Locks false opcode byteoff es = es ≡ []

length-Locks :
    (c : Bool) (opcode : ℕ) (byteoff : ℤ) (es : List PcEntry)
    → Locks c opcode byteoff es
    → length es ≡ (if c then 1 else 0)
length-Locks true opcode byteoff es (e, same, new) = ap length same
length-Locks false opcode byteoff es same = ap length same

-- The six steps, when each one ends.
splice-run :
    (mem : Realloc PcEntry) (p : Program) (t t1 t2 t3 t4 t5 t6 : PcTable) (point : ℕ)
    → (operand byteoff : ℤ) (method : Callee) (code : List PcEntry)
    → insert_at mem (pctable_ndelete t point 6) point opc_inlined_exit operand byteoff ≡ some t1
    → insert_if mem (locks p method) t1 point (sync_exit method) byteoff ≡ some t2
    → pctable_ninsert mem t2 point code ≡ some t3
    → insert_if mem (locks p method) t3 point (sync_enter method) byteoff ≡ some t4
    → insert_at mem t4 point opc_inlined_enter operand byteoff ≡ some t5
    → insert_at mem t5 point opc_stateto0 (negsuc 0) byteoff ≡ some t6
    → splice mem p t (point + 3) operand byteoff method code
      ≡ some (t6, point + 3 + length code + (if locks p method then 2 else 0))
unfolding splice splice_at
splice-run mem p t t1 t2 t3 t4 t5 t6 point operand byteoff method code r1 r2 r3 r4 r5 r6 =
    let at : point + 3 - 3 ≡ point = omega arith in rw (at, r1, r2, r3, r4, r5, r6)

module _ (mem : Realloc PcEntry) (pre : List PcEntry) where
  deleted :
      (t : PcTable) (six post : List PcEntry)
      → Holds t (pre ++ (six ++ post))
      → length six ≡ 6
      → Holds (pctable_ndelete t (length pre) 6) (pre ++ post)
  unfolding pctable_ndelete
  deleted t six post h n =
      let k = Holds-len t (pre ++ (six ++ post)) h in
      let (valid, same) =
        pctable_ndelete_lem t h.valid (length pre) 6
          (omega (arith, k, n, length-append pre (six ++ post), length-append six post)) in
      record {
        valid = valid;
        same =
            same
            ∙ rw (
              h.same,
              take-append_eq (length pre) pre (six ++ post) refl,
              drop-append_add pre (six ++ post) 6,
              drop-append_eq 6 six post n,
            );
        fits = h.fits;
      }

  inserted_one :
      (t : PcTable) (post : List PcEntry) (opcode : ℕ) (operand byteoff : ℤ)
      → Holds t (pre ++ post)
      → length pre + length post < 2 ^ 26
      → (t' : PcTable) × (e : PcEntry) × (insert_at mem t (length pre) opcode operand byteoff
          ≡ some t')
        × Holds t' (pre ++ (e ∷ post))
        × IsNew e opcode operand byteoff
  inserted_one t post opcode operand byteoff h room =
      let n = Holds-len t (pre ++ post) h in
      let (t', e, run, valid, same, new) =
        pctable_insert-total mem t h.valid (length pre) opcode operand byteoff 0 no_nativeoff
          (omega (arith, n, length-append pre post)) (omega (arith, n, length-append pre post))
          (omega arith) in
      (
        t',
        e,
        run,
        record {
          valid = valid;
          same =
              same
              ∙ rw (
                h.same,
                take-append_eq (length pre) pre post refl,
                drop-append_eq (length pre) pre post refl,
              );
          fits =
              size-pctable_insert mem t (length pre) opcode operand byteoff 0 no_nativeoff t'
                h.valid (omega (arith, n, length-append pre post)) h.fits run;
        },
        new,
      )

  inserted_lock :
      (c : Bool) (t : PcTable) (post : List PcEntry) (opcode : ℕ) (byteoff : ℤ)
      → Holds t (pre ++ post)
      → length pre + length post < 2 ^ 26
      → (t' : PcTable) × (es : List PcEntry) × (insert_if mem c t (length pre) opcode byteoff
          ≡ some t')
        × Holds t' (pre ++ (es ++ post))
        × Locks c opcode byteoff es
  inserted_lock true t post opcode byteoff h room =
      let (t', e, run, holds, new) = inserted_one t post opcode (negsuc 0) byteoff h room in
      (t', e ∷ [], run, holds, (e, refl, new))
  inserted_lock false t post opcode byteoff h room = (t, [], refl, h, refl)

  inserted_code :
      (t : PcTable) (code post : List PcEntry)
      → Holds t (pre ++ post)
      → length pre + length code + length post < 2 ^ 26
      → (t' : PcTable) × (pctable_ninsert mem t (length pre) code ≡ some t')
        × Holds t' (pre ++ (code ++ post))
  inserted_code t code post h room =
      let n = Holds-len t (pre ++ post) h in
      let (t', run, valid, same, fits) =
        pctable_ninsert-total mem t h.valid (length pre) code
          (omega (arith, n, length-append pre post)) (omega (arith, n, length-append pre post))
          h.fits in
      (
        t',
        run,
        record {
          valid = valid;
          same =
              same
              ∙ rw (
                h.same,
                take-append_eq (length pre) pre post refl,
                drop-append_eq (length pre) pre post refl,
              );
          fits = fits;
        },
      )

  -- What the replacing leaves, and where the pass goes on.
  pub record Spliced (p : Program) (method : Callee) (operand byteoff : ℤ)
      (code post : List PcEntry) (t : PcTable) (next : ℕ) : Type 0 where
    pub to_state0 : PcEntry
    pub enter : PcEntry
    pub exit : PcEntry
    pub locking : List PcEntry
    pub unlocking : List PcEntry
    pub holds :
        Holds t (pre ++ (to_state0 ∷ (enter ∷ (locking ++ (code ++ (unlocking ++ (exit ∷ post)))))))
    pub to_state0_new : IsNew to_state0 opc_stateto0 (negsuc 0) byteoff
    pub enter_new : IsNew enter opc_inlined_enter operand byteoff
    pub exit_new : IsNew exit opc_inlined_exit operand byteoff
    pub locking_new : Locks (locks p method) (sync_enter method) byteoff locking
    pub unlocking_new : Locks (locks p method) (sync_exit method) byteoff unlocking
    pub next_is : next + length post ≡ t.len

  -- Replacing the six entries of an invocation, the first of which stands behind `pre`, in a valid
  -- table whose size is no negative `int` and whose result has fewer than 2 ^ 26 entries, ends. The table stays valid, and in place of
  -- the six entries stand: the change to state 0, the enter mark, the lock instruction if the callee
  -- is synchronized and locks are not ignored, the code, the unlock instruction under the same
  -- condition, and the exit mark. What stands before and behind is unchanged, the new entries carry
  -- the offset of the invocation and the marks its operand, and the pass goes on right behind the exit
  -- mark.
  pub splice-total :
      (p : Program) (t : PcTable) (six post code : List PcEntry) (operand byteoff : ℤ)
      (method : Callee)
      → Holds t (pre ++ (six ++ post))
      → length six ≡ 6
      → length pre + length code + length post + 5 < 2 ^ 26
      → (t' : PcTable) × (next : ℕ) × (splice mem p t (length pre + 3) operand byteoff method code
          ≡ some (t', next))
        × Spliced p method operand byteoff code post t' next
  splice-total p t six post code operand byteoff method h n room =
      let c = locks p method in
      let h0 = deleted t six post h n in
      let (t1, exit, r1, h1, n1) =
        inserted_one (pctable_ndelete t (length pre) 6) post opc_inlined_exit operand byteoff h0
          (omega arith) in
      let (t2, unlocking, r2, h2, n2) =
        inserted_lock c t1 (exit ∷ post) (sync_exit method) byteoff h1 (omega arith) in
      let k2 = length-Locks c (sync_exit method) byteoff unlocking n2 in
      let e2 = length-append unlocking (exit ∷ post) in
      let b2 : (if c then 1 else 0) ≤ 1 = ground arith in
      let (t3, r3, h3) =
        inserted_code t2 code (unlocking ++ (exit ∷ post)) h2 (omega (arith, k2, e2, b2)) in
      let e3 = length-append code (unlocking ++ (exit ∷ post)) in
      let (t4, locking, r4, h4, n4) =
        inserted_lock c t3 (code ++ (unlocking ++ (exit ∷ post))) (sync_enter method) byteoff h3
          (omega (arith, k2, e2, e3, b2)) in
      let k4 = length-Locks c (sync_enter method) byteoff locking n4 in
      let e4 = length-append locking (code ++ (unlocking ++ (exit ∷ post))) in
      let (t5, enter, r5, h5, n5) =
        inserted_one t4 (locking ++ (code ++ (unlocking ++ (exit ∷ post)))) opc_inlined_enter
          operand byteoff h4 (omega (arith, k2, e2, e3, k4, e4, b2)) in
      let (t6, to_state0, r6, h6, n6) =
        inserted_one t5 (enter ∷ (locking ++ (code ++ (unlocking ++ (exit ∷ post))))) opc_stateto0
          (negsuc 0) byteoff h5 (omega (arith, k2, e2, e3, k4, e4, b2)) in
      let all = to_state0 ∷ (enter ∷ (locking ++ (code ++ (unlocking ++ (exit ∷ post))))) in
      let two : (if c then 2 else 0) ≡ (if c then 1 else 0) + (if c then 1 else 0) = ground arith in
      (
        t6,
        length pre + 3 + length code + (if c then 2 else 0),
        splice-run mem p t t1 t2 t3 t4 t5 t6 (length pre) operand byteoff method code r1 r2 r3 r4 r5
            r6,
        record {
          to_state0 = to_state0;
          enter = enter;
          exit = exit;
          locking = locking;
          unlocking = unlocking;
          holds = h6;
          to_state0_new = n6;
          enter_new = n5;
          exit_new = n1;
          locking_new = n4;
          unlocking_new = n2;
          next_is =
              omega (
                arith,
                Holds-len t6 (pre ++ all) h6,
                length-append pre all,
                k2,
                e2,
                e3,
                k4,
                e4,
                two,
              );
        },
      )
