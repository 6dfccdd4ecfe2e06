-- ===== src/ThrowTable/Laws.antt =====
-- Adding entries to the throw table, against the list of its entries.
use shujit.Base.{
  ℕ, suc, ◌+◌, ◌%◌, ◌^◌, ◌≤◌, ◌<◌, ◌≡◌, refl, ap, ◌∙◌, List, [], ◌∷◌, ◌++◌, some, ◌==◌, Bool-cases,
  inl, inr, leb, ltb, leb→le, length, take, write_at, length-write_at, take-write_at, Realloc,
  double_until-total, take-grow_le, arith,
}
use shujit.ThrowTable.{
  ThrowEntry, ThrowTable, throwtable_extend, larger_size, make_room, throwtable_add,
}

-- The table may be empty with no block at all.
pub record IsValid (t : ThrowTable) : Type 0 where
  pub block : length t.entries ≡ t.size
  pub inside : t.len ≤ t.size

abbrev pub view : ThrowTable → List ThrowEntry
view t = take t.len t.entries

module _ (mem : Realloc ThrowEntry) where
  -- Extending a table keeps its entries and never shrinks it.
  pub throwtable_extend-IsValid :
      (t : ThrowTable) (size : ℕ)
      → IsValid t
      → IsValid (throwtable_extend mem t size)
        × (view (throwtable_extend mem t size) ≡ view t)
        × (size ≤ (throwtable_extend mem t size).size)
        × (t.size ≤ (throwtable_extend mem t size).size)
        × ((throwtable_extend mem t size).len ≡ t.len)
  unfolding throwtable_extend
  throwtable_extend-IsValid t size v =
      ground (arith, mem.length-grow t.entries size, take-grow_le mem t.entries t.len size)

  -- The table that compiled code is read into.
  pub throwtable_extend-len :
      (t : ThrowTable) (len : ℕ)
      → IsValid t
      → let r = throwtable_extend mem (record t { len = len }) len in IsValid r × (r.len ≡ len)
  unfolding throwtable_extend
  throwtable_extend-len t len v = elim (Bool-cases (leb len t.size)) [
    | inl room ↦ rw room (record { block = v.block; inside = ground arith }, refl)
    | inr full ↦
        rw full (record { block = mem.length-grow t.entries len; inside = omega arith }, refl)
  ]

  larger_size-total :
      (t : ThrowTable)
      → IsValid t
      → t.size ≤ t.len
      → t.len < 2 ^ 31
      → (size : ℕ) × (larger_size mem t ≡ some size) × (t.len < size)
  unfolding larger_size
  larger_size-total t v full h = elim (Bool-cases (t.size == 0)) [
    | inl empty ↦ rw empty (elim (Bool-cases (ltb t.len 8)) [
      | inl fits ↦ rw fits (8, refl, ground arith)
      | inr more ↦ absurd (ground arith)
    ])
    | inr block ↦ rw block (elim (Bool-cases (ltb t.len t.size)) [
      | inl fits ↦ absurd (ground arith)
      | inr more ↦
          let (size, e, d) =
            double_until-total (suc t.len) t.size (t.len + 1) (ground arith) (omega arith)
              (omega arith) (omega arith) in
          rw more (size, e, omega (arith, d.enough))
    ])
  ]

  make_room-total :
      (t : ThrowTable)
      → IsValid t
      → t.len < 2 ^ 31
      → (r : ThrowTable) × (make_room mem t ≡ some r)
        × IsValid r
        × (t.len < r.size)
        × (r.len ≡ t.len)
        × (view r ≡ view t)
  unfolding make_room
  make_room-total t v h = elim (Bool-cases (leb t.size t.len)) [
    | inr room ↦ (t, rw room, v, ground arith, refl, refl)
    | inl full ↦
        let (size, e, more) = larger_size-total t v (leb→le t.size t.len full) h in
        let (w, same, enough, kept, same_len) = throwtable_extend-IsValid t size v in
        (throwtable_extend mem t size, rw (full, e), w, omega (arith, enough, more), same_len, same)
  ]

  -- Adding an entry to a valid table of fewer than 2 ^ 31 - 1 entries ends, appends one entry with
  -- the given start, length and byte code offset, cut to 32, 8 and 16 bits, keeps the others, and
  -- leaves a valid table, a table with no block included.
  pub throwtable_add-total :
      (t : ThrowTable) (start len byteoff : ℕ)
      → IsValid t
      → t.len + 1 < 2 ^ 31
      → (t' : ThrowTable) × (e : ThrowEntry) × (throwtable_add mem t start len byteoff ≡ some t')
        × IsValid t'
        × (view t' ≡ view t ++ e ∷ [])
        × (e.start ≡ start % 2 ^ 32)
        × (e.len ≡ len % 2 ^ 8)
        × (e.byteoff ≡ byteoff % 2 ^ 16)
  unfolding throwtable_add
  throwtable_add-total t start len byteoff v h =
      let (r, e, w, more, same_len, same) = make_room-total t v (omega arith) in
      let new : ThrowEntry = record {
        start = start % 2 ^ 32;
        byteoff = byteoff % 2 ^ 16;
        len = len % 2 ^ 8;
        patched_code = 0x90;
        cb = 0;
        opcode = 0;
      } in
      let room : r.len + 1 ≤ length r.entries = omega (arith, more, same_len, w.block) in
      (
        record r { entries = write_at r.len (new ∷ []) r.entries; len = r.len + 1 },
        new,
        rw e,
        record {
          block = length-write_at r.len (new ∷ []) r.entries room ∙ w.block;
          inside = omega (arith, room, w.block);
        },
        take-write_at r.len (new ∷ []) r.entries room ∙ ap (λ l. l ++ new ∷ []) same,
        refl,
        refl,
        refl,
      )
