-- ===== src/PcTable/Edit.antt =====
-- Adding, inserting and deleting entries, against the list of the entries in use.
use shujit.Base.{
  ℕ, ◌+◌, ◌%◌, ◌^◌, ◌≤◌, ◌<◌, ◌≡◌, refl, ap, ◌∙◌, List, [], ◌∷◌, ◌++◌, some, some-injective, subst,
  ℤ, length, take, drop, write_at, length-write_at, take-write_at, take-insert_block, insert_block,
  length-insert_block, take-delete_block, length-delete_block, Realloc, arith,
}
use shujit.PcEntry.{
  PcEntry, no_nativeoff, set_state, clear_block_head, clear_loop_head, clear_loop_tail,
}
use shujit.PcEntry.Laws.{flags, set_flags, clear_flags, IsWord}
use shujit.PcTable.{
  PcTable, slot, filled, pctable_add, pctable_insert, pctable_ninsert, pctable_ndelete,
}
use shujit.PcTable.Inv.{IsValid, view, Reserved, reserve-total, reserve_int-reserve}

-- An entry that `pctableAdd` or `pctableInsert` has written: a plain entry with its state, which is
-- no block head and no head or tail of a loop.
pub record Fresh (e : PcEntry) (opcode : ℕ) (operand byteoff : ℤ) (st nativeoff : ℕ) : Type 0 where
  pub opcode_is : e.opcode ≡ opcode % 2 ^ 16
  pub operand_is : e.operand ≡ operand
  pub byteoff_is : e.byteoff ≡ byteoff
  pub increasing_byteoff_is : e.increasing_byteoff ≡ byteoff
  pub nativeoff_is : e.nativeoff ≡ nativeoff
  pub flags_are : flags e ≡ record { state_bits = st % 16; block = 0; head = 0; tail = 0 }

IsWord-slot : (xs : List PcEntry) (i : ℕ) → IsWord (slot xs i)
unfolding slot
IsWord-slot xs i = omega arith

flags-filled :
    (old : PcEntry) (opcode : ℕ) (operand byteoff : ℤ) (st nativeoff : ℕ)
    → IsWord old
    → st < 2 ^ 16
    → flags (filled old opcode operand byteoff st nativeoff)
      ≡ record { state_bits = st % 16; block = 0; head = 0; tail = 0 }
unfolding filled
flags-filled old opcode operand byteoff st nativeoff w h =
    let e₀ : PcEntry = record {
      opcode = opcode % 2 ^ 16;
      flag = old.flag;
      operand = operand;
      byteoff = byteoff;
      increasing_byteoff = byteoff;
      nativeoff = nativeoff;
    } in
    let (w₁, f₁) = (set_flags e₀ w st h).0 in
    let (w₂, f₂) = (clear_flags (set_state e₀ st) w₁).0 in
    let (w₃, f₃) = (clear_flags (clear_block_head (set_state e₀ st)) w₂).1 in
    let (w₄, f₄) = (clear_flags (clear_loop_head (clear_block_head (set_state e₀ st))) w₃).2 in
    ground (arith, f₁, f₂, f₃, f₄)

pub opcode-filled :
    (old : PcEntry) (opcode : ℕ) (operand byteoff : ℤ) (st nativeoff : ℕ)
    → (filled old opcode operand byteoff st nativeoff).opcode ≡ opcode % 2 ^ 16
unfolding filled set_state clear_block_head clear_loop_head clear_loop_tail
opcode-filled old opcode operand byteoff st nativeoff = refl

pub filled-Fresh :
    (old : PcEntry) (opcode : ℕ) (operand byteoff : ℤ) (st nativeoff : ℕ)
    → IsWord old
    → st < 2 ^ 16
    → Fresh (filled old opcode operand byteoff st nativeoff) opcode operand byteoff st nativeoff
unfolding filled set_state clear_block_head clear_loop_head clear_loop_tail
filled-Fresh old opcode operand byteoff st nativeoff w h = record {
  opcode_is = refl;
  operand_is = refl;
  byteoff_is = refl;
  increasing_byteoff_is = refl;
  nativeoff_is = refl;
  flags_are = flags-filled old opcode operand byteoff st nativeoff w h;
}

module _ (mem : Realloc PcEntry) (t : PcTable) (v : IsValid t) where
  -- Adding an entry to a valid table of fewer than 2 ^ 31 entries ends, appends one entry with the
  -- given opcode, operand and offset, of state 0 and with no head or tail bit, keeps the others, and
  -- leaves a valid table.
  pctable_add-total :
      (opcode : ℕ) (operand byteoff : ℤ)
      → t.len < 2 ^ 31
      → (t' : PcTable) × (e : PcEntry) × (pctable_add mem t opcode operand byteoff ≡ some t')
        × IsValid t'
        × (view t' ≡ view t ++ e ∷ [])
        × Fresh e opcode operand byteoff 0 no_nativeoff
  unfolding pctable_add
  pctable_add-total opcode operand byteoff h =
      let (r, e, d) = reserve-total mem t (t.len + 1) v (omega arith) in
      let new = filled (slot r.entries r.len) opcode operand byteoff 0 no_nativeoff in
      let room : r.len + 1 ≤ length r.entries =
        omega (arith, d.enough, d.same_len, d.valid.block) in
      (
        record r { entries = write_at r.len (new ∷ []) r.entries; len = r.len + 1 },
        new,
        rw e,
        record {
          block = length-write_at r.len (new ∷ []) r.entries room ∙ d.valid.block;
          inside = omega (arith, room, d.valid.block);
          some_room = d.valid.some_room;
        },
        take-write_at r.len (new ∷ []) r.entries room ∙ ap (λ l. l ++ new ∷ []) d.same,
        filled-Fresh _ opcode operand byteoff 0 no_nativeoff (IsWord-slot r.entries r.len)
            (omega arith),
      )

  -- The blocks moved and copied in a table that has the room.
  pub inserted :
      (index : ℕ) (src : List PcEntry) (r : PcTable)
      → Reserved mem t (t.len + length src) r
      → index ≤ t.len
      → IsValid
          (record r { entries = insert_block r.len index src r.entries; len = r.len + length src })
        × (take (r.len + length src) (insert_block r.len index src r.entries)
            ≡ take index (view t) ++ (src ++ drop index (view t)))
  inserted index src r d h =
      let room : r.len + length src ≤ length r.entries =
        omega (arith, d.enough, d.same_len, d.valid.block) in
      let low : index ≤ r.len = omega (arith, d.same_len) in
      (
        record {
          block = length-insert_block r.len index src r.entries low room ∙ d.valid.block;
          inside = omega (arith, room, d.valid.block);
          some_room = d.valid.some_room;
        },
        take-insert_block r.len index src r.entries low room
            ∙ ap (λ l. take index l ++ (src ++ drop index l)) d.same,
      )

  -- Inserting the entries `src` at an index up to the length ends, puts them there in order, keeps all
  -- others, and leaves a valid table, if at most 2 ^ 26 entries result (their bytes are below 2 ^ 31)
  -- and the size of the table is no negative `int`, which it then is not afterwards.
  pub pctable_ninsert-total :
      (index : ℕ) (src : List PcEntry)
      → index ≤ t.len
      → t.len + length src ≤ 2 ^ 26
      → t.size < 2 ^ 31
      → (t' : PcTable) × (pctable_ninsert mem t index src ≡ some t')
        × IsValid t'
        × (view t' ≡ take index (view t) ++ (src ++ drop index (view t)))
        × (t'.size < 2 ^ 31)
  unfolding pctable_ninsert
  pctable_ninsert-total index src h k fits =
      let (r, e, d) = reserve-total mem t (t.len + length src) v (omega arith) in
      let same_run = reserve_int-reserve mem t (t.len + length src) fits (omega arith) in
      let (valid, same) = inserted index src r d h in
      (
        record r { entries = insert_block r.len index src r.entries; len = r.len + length src },
        rw (same_run, e),
        valid,
        same,
        d.small fits (omega arith),
      )

  -- Inserting one entry does the same with an entry that has the given fields, the low four bits of
  -- the given state, and no head or tail bit.
  pub pctable_insert-total :
      (index opcode : ℕ) (operand byteoff : ℤ) (st nativeoff : ℕ)
      → index ≤ t.len
      → t.len < 2 ^ 31
      → st < 2 ^ 16
      → (t' : PcTable) × (e : PcEntry) × (pctable_insert mem t index opcode operand byteoff st
            nativeoff
          ≡ some t')
        × IsValid t'
        × (view t' ≡ take index (view t) ++ (e ∷ drop index (view t)))
        × Fresh e opcode operand byteoff st nativeoff
  unfolding pctable_insert
  pctable_insert-total index opcode operand byteoff st nativeoff h k small =
      let (r, e, d) = reserve-total mem t (t.len + 1) v (omega arith) in
      let new = filled (slot r.entries index) opcode operand byteoff st nativeoff in
      let (valid, same) = inserted index (new ∷ []) r d h in
      (
        record r { entries = insert_block r.len index (new ∷ []) r.entries; len = r.len + 1 },
        new,
        rw e,
        valid,
        same,
        filled-Fresh _ opcode operand byteoff st nativeoff (IsWord-slot r.entries index) small,
      )

-- The size of a table that one entry has been inserted in.
pub size-pctable_insert :
    (mem : Realloc PcEntry) (t : PcTable) (index opcode : ℕ) (operand byteoff : ℤ)
    → (st nativeoff : ℕ) (t' : PcTable) → IsValid t
    → t.len < 2 ^ 30
    → t.size < 2 ^ 31
    → pctable_insert mem t index opcode operand byteoff st nativeoff ≡ some t'
    → t'.size < 2 ^ 31
unfolding pctable_insert
size-pctable_insert mem t index opcode operand byteoff st nativeoff t' v h fits run =
    let (r, e, d) = reserve-total mem t (t.len + 1) v (omega arith) in
    subst (λ (x : PcTable). x.size < 2 ^ 31) (some-injective _ _ (rw e at run))
      (d.small fits (omega arith))

module _ (t : PcTable) (v : IsValid t) where
  -- Deleting `n` entries that lie inside the table removes exactly those, and leaves a valid table.
  pub pctable_ndelete_lem :
      (index n : ℕ)
      → index + n ≤ t.len
      → IsValid (pctable_ndelete t index n)
        × (view (pctable_ndelete t index n) ≡ take index (view t) ++ drop (index + n) (view t))
  unfolding pctable_ndelete
  pctable_ndelete_lem index n h =
      let room : t.len ≤ length t.entries = omega (arith, v.block) in
      (
        record {
          block = length-delete_block t.len index n t.entries h room ∙ v.block;
          inside = omega (arith, v.inside);
          some_room = v.some_room;
        },
        take-delete_block t.len index n t.entries h room,
      )
