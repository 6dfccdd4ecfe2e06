-- ===== src/Peephole/Targets.antt =====
-- The pass keeps the block heads, so every jump target is still in the table.
use shujit.Base.{
  ℕ, zero, suc, ◌≤◌, ◌≡◌, refl, ap, ◌∙◌, Bool, true, false, List, [], ◌∷◌, ℤ, ◌==◌, if◌then◌else◌,
  length, ==_iff, arith,
}
use shujit.PcEntry.{PcEntry, block_head}
use shujit.Opcode.{
  opc_dst, opc_dld, opc_lstore, opc_fst, opc_istore, opc_iload, opc_fld, opc_fload_fld, opc_lload,
  opc_dload_dld, opc_istld, opc_lstld, opc_iaload, opc_faload_fld, opc_laload, opc_daload_dld,
}
use shujit.Peephole.{
  Rewritten, get_entry, dst_case, fst_fastore_case, fst_case, load_case, store_case,
  array_load_case, rewritten, peephole_loop, peephole_optimization,
}

-- The byte code offsets of the entries that head a block, in order.
abbrev pub heads : List PcEntry → List ℤ
heads [] = []
heads (e ∷ es) = if block_head e == 1 then e.byteoff ∷ heads es else heads es

-- No `dst` heads a block: it stands behind the arithmetic instruction whose result it stores.
abbrev pub NoDstHead : List PcEntry → Type 0
NoDstHead [] = Unit {0}
NoDstHead (e ∷ es) = (e.opcode ≡ opc_dst → (block_head e == 1) ≡ false) × NoDstHead es

-- What a case may do: it keeps the block heads, loses no more entries than it has, and leaves
-- behind the entry at hand no `dst` that heads a block.
pub record Keeps (entry : PcEntry) (rest : List PcEntry) (r : Rewritten) : Type 0 where
  pub same_heads : heads (r.0 ∷ r.1) ≡ heads (entry ∷ rest)
  pub shorter : length r.1 ≤ length rest
  pub no_head : NoDstHead rest → NoDstHead r.1

same-Keeps : (entry : PcEntry) (rest : List PcEntry) → Keeps entry rest (entry, rest)
same-Keeps entry rest = record { same_heads = refl; shorter = omega arith; no_head = λ h. h }

dst_case-Keeps :
    (entry : PcEntry) (rest : List PcEntry)
    → (block_head entry == 1) ≡ false
    → Keeps entry rest (dst_case entry rest)
unfolding dst_case get_entry block_head
dst_case-Keeps entry [] h = same-Keeps entry []
dst_case-Keeps entry (e1 ∷ []) h = ground arith
dst_case-Keeps entry (e1 ∷ e2 ∷ es) h = ground arith

fst_fastore_case-Keeps :
    (entry : PcEntry) (rest : List PcEntry) → Keeps entry rest (fst_fastore_case entry rest)
unfolding fst_fastore_case get_entry block_head
fst_fastore_case-Keeps entry [] = same-Keeps entry []
fst_fastore_case-Keeps entry (e1 ∷ []) = ground arith
fst_fastore_case-Keeps entry (e1 ∷ e2 ∷ []) = ground arith
fst_fastore_case-Keeps entry (e1 ∷ e2 ∷ e3 ∷ []) = ground arith
fst_fastore_case-Keeps entry (e1 ∷ e2 ∷ e3 ∷ e4 ∷ es) = ground arith

fst_case-Keeps : (entry : PcEntry) (rest : List PcEntry) → Keeps entry rest (fst_case entry rest)
unfolding fst_case get_entry block_head
fst_case-Keeps entry [] = same-Keeps entry []
fst_case-Keeps entry (e1 ∷ es) = ground (arith, fst_fastore_case-Keeps entry (e1 ∷ es))

load_case-Keeps :
    (load fused : ℕ) (entry : PcEntry) (rest : List PcEntry)
    → (fused == opc_dst) ≡ false
    → Keeps entry rest (load_case load fused entry rest)
unfolding load_case get_entry block_head
load_case-Keeps load fused entry [] h = same-Keeps entry []
load_case-Keeps load fused entry (e1 ∷ []) h = ground arith
load_case-Keeps load fused entry (e1 ∷ e2 ∷ es) h = ground arith

store_case-Keeps :
    (load fused : ℕ) (entry : PcEntry) (rest : List PcEntry)
    → Keeps entry rest (store_case load fused entry rest)
unfolding store_case get_entry block_head
store_case-Keeps load fused entry [] = same-Keeps entry []
store_case-Keeps load fused entry (e1 ∷ es) = ground arith

array_load_case-Keeps :
    (load fused : ℕ) (entry : PcEntry) (rest : List PcEntry)
    → Keeps entry rest (array_load_case load fused entry rest)
unfolding array_load_case get_entry block_head
array_load_case-Keeps load fused entry [] = same-Keeps entry []
array_load_case-Keeps load fused entry (e1 ∷ []) = ground arith
array_load_case-Keeps load fused entry (e1 ∷ e2 ∷ es) = ground arith

if-Keeps :
    (b : Bool) {entry : PcEntry} {rest : List PcEntry} {x y : Rewritten}
    → (b ≡ true → Keeps entry rest x)
    → Keeps entry rest y
    → Keeps entry rest (if b then x else y)
if-Keeps true h k = h refl
if-Keeps false h k = k

rewritten-Keeps :
    (entry : PcEntry) (rest : List PcEntry)
    → NoDstHead (entry ∷ rest)
    → Keeps entry rest (rewritten entry rest)
unfolding rewritten
rewritten-Keeps entry rest h =
    if-Keeps (entry.opcode == opc_dst)
      (λ e. dst_case-Keeps entry rest (h.0 ((==_iff entry.opcode opc_dst).0 e)))
      (if-Keeps (entry.opcode == opc_fst) (λ _. fst_case-Keeps entry rest)
        (if-Keeps (entry.opcode == opc_iload)
          (λ _. load_case-Keeps opc_fld opc_fload_fld entry rest refl)
          (if-Keeps (entry.opcode == opc_lload)
            (λ _. load_case-Keeps opc_dld opc_dload_dld entry rest refl)
            (if-Keeps (entry.opcode == opc_istore)
              (λ _. store_case-Keeps opc_iload opc_istld entry rest)
              (if-Keeps (entry.opcode == opc_lstore)
                (λ _. store_case-Keeps opc_lload opc_lstld entry rest)
                (if-Keeps (entry.opcode == opc_iaload)
                  (λ _. array_load_case-Keeps opc_fld opc_faload_fld entry rest)
                  (if-Keeps (entry.opcode == opc_laload)
                    (λ _. array_load_case-Keeps opc_dld opc_daload_dld entry rest)
                    (same-Keeps entry rest))))))))

heads-cons :
    (e : PcEntry) (xs ys : List PcEntry) → heads xs ≡ heads ys → heads (e ∷ xs) ≡ heads (e ∷ ys)
heads-cons e xs ys p = ap (λ l. if block_head e == 1 then e.byteoff ∷ l else l) p

heads-peephole_loop :
    (fuel : ℕ) (entries : List PcEntry)
    → NoDstHead entries
    → heads (peephole_loop fuel entries) ≡ heads entries
unfolding peephole_loop
heads-peephole_loop zero entries h = refl
heads-peephole_loop (suc fuel) [] h = refl
heads-peephole_loop (suc fuel) (entry ∷ rest) h =
    let k = rewritten-Keeps entry rest h in
    heads-cons (rewritten entry rest).0 _ _
      (heads-peephole_loop fuel (rewritten entry rest).1 (k.no_head h.1))
    ∙ k.same_heads

-- The pass keeps the byte code offsets of all block heads, in order, in every table where no `dst`
-- heads a block.
pub heads-peephole_optimization :
    (entries : List PcEntry)
    → NoDstHead entries
    → heads (peephole_optimization entries) ≡ heads entries
unfolding peephole_optimization
heads-peephole_optimization entries h = heads-peephole_loop (length entries) entries h

-- With as much fuel as entries the loop has passed over all of them: more fuel changes nothing.
pub peephole_loop_enough :
    (fuel : ℕ) (entries : List PcEntry)
    → NoDstHead entries
    → length entries ≤ fuel
    → peephole_loop fuel entries ≡ peephole_loop (suc fuel) entries
unfolding peephole_loop
peephole_loop_enough zero [] h k = refl
peephole_loop_enough zero (entry ∷ rest) h k = absurd (omega arith)
peephole_loop_enough (suc fuel) [] h k = refl
peephole_loop_enough (suc fuel) (entry ∷ rest) h k =
    let keeps = rewritten-Keeps entry rest h in
    ap (◌∷◌ (rewritten entry rest).0) (
      peephole_loop_enough fuel (rewritten entry rest).1 (keeps.no_head h.1)
        (omega (arith, keeps.shorter)))
