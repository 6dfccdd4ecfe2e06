-- ===== src/JpTable/Laws.antt =====
-- The jump table against the list of its entries.
use shujit.Base.{
  ℕ, suc, ◌+◌, ◌^◌, ◌≤◌, ◌<◌, ◌≡◌, refl, ap, ◌∙◌, List, [], ◌∷◌, ◌++◌, some, Bool-cases, inl, inr,
  leb, leb→le, length, take, write_at, length-write_at, take-write_at, Realloc, double_until-total,
  double_int-double_until, ltb_ℤ, int32, pos, ◌+ℤ◌, ◌%◌, take-grow_le, arith,
}
use shujit.JpTable.{JpEntry, JpTable, extended, jptable_add}

pub record IsValid (t : JpTable) : Type 0 where
  pub block : length t.entries ≡ t.size
  pub inside : t.len ≤ t.size
  pub some_room : 0 < t.size
  pub fits : t.size < 2 ^ 31

abbrev pub view : JpTable → List JpEntry
view t = take t.len t.entries

-- In a valid table the sizes are no negative `int`s, and the comparison is that of numbers.
pub test-need : (t : JpTable) → IsValid t → int32 t.len +ℤ pos 1 ≡ pos (t.len + 1)
unfolding ◌+ℤ◌
test-need t v = ground (arith, v.inside, v.fits)

pub full-test :
    (t : JpTable) → IsValid t → ltb_ℤ (int32 t.size) (int32 t.len +ℤ pos 1) ≡ leb t.size t.len
full-test t v = rw (test-need t v) (ground (arith, v.fits))

module _ (mem : Realloc JpEntry) where
  extended-total :
      (t : JpTable)
      → IsValid t
      → t.len < 2 ^ 28
      → (r : JpTable) × (extended mem t ≡ some r)
        × IsValid r
        × (t.len < r.size)
        × (r.len ≡ t.len)
        × (view r ≡ view t)
  unfolding extended
  extended-total t v h = rw (full-test t v) (elim (Bool-cases (leb t.size t.len)) [
    | inr room ↦ (t, rw room, v, ground arith, refl, refl)
    | inl full ↦
        let k : t.size ≤ t.len = leb→le t.size t.len full in
        let (size, e, d) =
          double_until-total (suc t.len) t.size (t.len + 1) v.some_room (omega (arith, v.inside))
            (omega arith) (omega arith) in
        (
          record t { entries = mem.grow t.entries size; size = size },
          rw (
            full,
            test-need t v,
            double_int-double_until (suc (suc t.len)) t.size (t.len + 1) (omega arith)
                (omega arith),
            e,
          ),
          record {
            block = mem.length-grow t.entries size;
            inside = omega (arith, d.enough);
            some_room = omega (arith, d.enough);
            fits = omega (arith, d.tight (omega arith));
          },
          omega (arith, d.enough),
          refl,
          take-grow_le mem t.entries t.len size (omega (arith, v.block, v.inside))
              (omega (arith, d.larger, v.block)),
        )
  ])

  -- Registering a jump in a valid table of fewer than 2 ^ 28 entries ends, appends the pair of offsets,
  -- keeps the entries from before, and leaves a valid table, whose size is no negative `int`.
  pub jptable_add-total :
      (t : JpTable) (tgtoff argoff : ℕ)
      → IsValid t
      → t.len < 2 ^ 28
      → (t' : JpTable) × (jptable_add mem t tgtoff argoff ≡ some t')
        × IsValid t'
        × (view t' ≡ view t ++ record { tgtoff = tgtoff; argoff = argoff } ∷ [])
  unfolding jptable_add
  jptable_add-total t tgtoff argoff v h =
      let (r, e, w, more, same_len, same) = extended-total t v (omega arith) in
      let new : JpEntry = record { tgtoff = tgtoff; argoff = argoff } in
      let plain : (r.len + 1) % 2 ^ 32 ≡ r.len + 1 =
        omega (arith, more, same_len, w.inside, w.fits) in
      let room : r.len + 1 ≤ length r.entries = omega (arith, more, same_len, w.block) in
      (
        record r { entries = write_at r.len (new ∷ []) r.entries; len = r.len + 1 },
        rw (e, plain),
        record {
          block = length-write_at r.len (new ∷ []) r.entries room ∙ w.block;
          inside = omega (arith, room, w.block);
          some_room = w.some_room;
          fits = w.fits;
        },
        take-write_at r.len (new ∷ []) r.entries room ∙ ap (λ l. l ++ new ∷ []) same,
      )
