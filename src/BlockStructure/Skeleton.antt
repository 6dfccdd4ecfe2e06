-- ===== src/BlockStructure/Skeleton.antt =====
-- The pass keeps the instructions: it only marks them, and inserts checks for exceptions.
use shujit.Base.{
  ℕ, zero, suc, ◌+◌, ◌≤◌, ◌≡◌, refl, sym, ap, ◌∙◌, subst, arith, List, [], ◌∷◌, ◌++◌, append_assoc,
  some, some-injective, bind-some, either_branch, ◌==◌, if◌then◌else◌, ℤ, ◌+ℤ◌, set, length,
  length-set, length-append, length-take, length-drop, take, drop, get_or, take-append-drop,
}
use shujit.Opcode.{opc_exc_check}
use shujit.PcEntry.{PcEntry, set_block_head, set_loop_head, set_loop_tail}
use shujit.PcTable.{PcTable, no_entry, pctable_get_by_pc}
use shujit.PcTable.Inv.{IsValid, view}
use shujit.BlockStructure.{update_at, target_of, is_backward, mark_target, mark_targets}

-- What an entry stands for: its opcode, operand and byte code offset. A check for exceptions stands for nothing.
abbrev pub instruction : PcEntry → List (ℕ × ℤ × ℤ)
instruction e = if e.opcode == opc_exc_check then [] else (e.opcode, e.operand, e.byteoff) ∷ []

abbrev pub skeleton : List PcEntry → List (ℕ × ℤ × ℤ)
skeleton [] = []
skeleton (e ∷ es) = instruction e ++ skeleton es

skeleton-append : (xs ys : List PcEntry) → skeleton (xs ++ ys) ≡ skeleton xs ++ skeleton ys
skeleton-append [] ys = refl
skeleton-append (x ∷ xs) ys =
    ap (λ t. instruction x ++ t) (skeleton-append xs ys)
    ∙ sym (append_assoc (instruction x) (skeleton xs) (skeleton ys))

skeleton-take-set :
    (n j : ℕ) (xs : List PcEntry) (v : PcEntry)
    → instruction v ≡ instruction (get_or xs j no_entry)
    → skeleton (take n (set xs j v)) ≡ skeleton (take n xs)
skeleton-take-set zero j xs v e = refl
skeleton-take-set (suc n) j [] v e = refl
skeleton-take-set (suc n) zero (x ∷ xs) v e = ap (λ t. t ++ skeleton (take n xs)) e
skeleton-take-set (suc n) (suc j) (x ∷ xs) v e =
    ap (λ t. instruction x ++ t) (skeleton-take-set n j xs v e)

-- A table with the same instructions, and no more than `more` entries more.
pub record Keeps (t : PcTable) (more : ℕ) (t' : PcTable) : Type 0 where
  pub valid : IsValid t'
  pub same : skeleton (view t') ≡ skeleton (view t)
  pub longer : t.len ≤ t'.len
  pub few : t'.len ≤ t.len + more

pub Keeps-refl : (t : PcTable) (more : ℕ) → IsValid t → Keeps t more t
Keeps-refl t more v = record { valid = v; same = refl; longer = omega arith; few = omega arith }

pub Keeps-trans :
    {t t' t'' : PcTable} (n m : ℕ) → Keeps t n t' → Keeps t' m t'' → Keeps t (n + m) t''
Keeps-trans n m a b = record {
  valid = b.valid;
  same = b.same ∙ a.same;
  longer = omega (arith, a.longer, b.longer);
  few = omega (arith, a.few, b.few);
}

update_at-Keeps :
    (t : PcTable) (j : ℕ) (f : PcEntry → PcEntry)
    → IsValid t
    → ((e : PcEntry) → instruction (f e) ≡ instruction e)
    → Keeps t 0 (update_at t j f)
unfolding update_at
update_at-Keeps t j f v h = record {
  valid = record {
    block = length-set t.entries j (f (get_or t.entries j no_entry)) ∙ v.block;
    inside = v.inside;
    some_room = v.some_room;
  };
  same =
      skeleton-take-set t.len j t.entries (f (get_or t.entries j no_entry))
        (h (get_or t.entries j no_entry));
  longer = omega arith;
  few = omega arith;
}

block_head_kept : (e : PcEntry) → instruction (set_block_head e) ≡ instruction e
unfolding set_block_head
block_head_kept e = refl

loop_head_kept : (e : PcEntry) → instruction (set_loop_head e) ≡ instruction e
unfolding set_loop_head
loop_head_kept e = refl

loop_tail_kept : (e : PcEntry) → instruction (set_loop_tail e) ≡ instruction e
unfolding set_loop_tail
loop_tail_kept e = refl

pub mark_target-Keeps :
    (t : PcTable) (i : ℕ) (byteoff off : ℤ) (t' : PcTable)
    → IsValid t
    → mark_target t i byteoff off ≡ some t'
    → Keeps t 0 t'
unfolding mark_target
mark_target-Keeps t i byteoff off t' v run =
    let (j, _, e) = bind-some (target_of (pctable_get_by_pc t (byteoff +ℤ off))) _ t' run in
    let k1 = update_at-Keeps t j set_block_head v block_head_kept in
    let t1 = update_at t j set_block_head in
    let k2 = update_at-Keeps t1 j set_loop_head k1.valid loop_head_kept in
    let k3 =
      update_at-Keeps (update_at t1 j set_loop_head) i set_loop_tail k2.valid loop_tail_kept in
    subst (Keeps t 0) (some-injective _ _ e)
      (either_branch (Keeps t 0) (is_backward off) (Keeps-trans 0 0 k1 (Keeps-trans 0 0 k2 k3)) k1)

pub mark_targets-Keeps :
    (t : PcTable) (i : ℕ) (byteoff : ℤ) (offs : List ℤ) (t' : PcTable)
    → IsValid t
    → mark_targets t i byteoff offs ≡ some t'
    → Keeps t 0 t'
unfolding mark_targets
mark_targets-Keeps t i byteoff [] t' v run =
    subst (Keeps t 0) (some-injective _ _ run) (Keeps-refl t 0 v)
mark_targets-Keeps t i byteoff (off ∷ offs) t' v run =
    let (t1, e1, e2) = bind-some (mark_target t i byteoff off) _ t' run in
    let k1 = mark_target-Keeps t i byteoff off t1 v e1 in
    Keeps-trans 0 0 k1 (mark_targets-Keeps t1 i byteoff offs t' k1.valid e2)

pub skeleton-insert :
    (i : ℕ) (xs : List PcEntry) (e : PcEntry)
    → instruction e ≡ []
    → skeleton (take i xs ++ e ∷ drop i xs) ≡ skeleton xs
skeleton-insert i xs e nothing =
    skeleton-append (take i xs) (e ∷ drop i xs)
    ∙ ap (λ t. skeleton (take i xs) ++ (t ++ skeleton (drop i xs))) nothing
    ∙ sym (skeleton-append (take i xs) (drop i xs))
    ∙ ap skeleton (take-append-drop i xs)

pub length-insert :
    (i : ℕ) (xs : List PcEntry) (e : PcEntry)
    → i ≤ length xs
    → length (take i xs ++ e ∷ drop i xs) ≡ length xs + 1
length-insert i xs e le =
    omega (arith, length-append (take i xs) (e ∷ drop i xs), length-take i xs, length-drop i xs)

pub length-view : (t : PcTable) → IsValid t → length (view t) ≡ t.len
length-view t v = omega (arith, length-take t.len t.entries, v.inside, v.block)
