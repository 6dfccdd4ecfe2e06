-- ===== src/PcTable/Inv.antt =====
-- The invariant of the pc table, and growing it.
use shujit.Base.{
  ℕ, ◌^◌, ◌≤◌, ◌<◌, ◌≡◌, refl, List, some, Bool-cases, inl, inr, ltb, ltb→lt, length, take, Realloc,
  double_until-total, double_int-double_until, ◌%◌, take-grow_le, suc, arith,
}
use shujit.PcEntry.{PcEntry}
use shujit.PcTable.{PcTable, pctable_set_len, pctable_extend, reserve, reserve_int}

-- The block is allocated in full, and the entries in use lie inside it.
pub record IsValid (t : PcTable) : Type 0 where
  pub block : length t.entries ≡ t.size
  pub inside : t.len ≤ t.size
  pub some_room : 0 < t.size

-- The entries in use.
abbrev pub view : PcTable → List PcEntry
view t = take t.len t.entries

module _ (mem : Realloc PcEntry) where
  -- What `reserve` promises.
  pub record Reserved (t : PcTable) (need : ℕ) (r : PcTable) : Type 0 where
    pub valid : IsValid r
    pub enough : need ≤ r.size
    pub same_len : r.len ≡ t.len
    pub same : view r ≡ view t
    pub small : t.size < 2 ^ 31 → need ≤ 2 ^ 30 → r.size < 2 ^ 31

  pub reserve-total :
      (t : PcTable) (need : ℕ)
      → IsValid t
      → need ≤ 2 ^ 31
      → (r : PcTable) × (reserve mem t need ≡ some r) × Reserved t need r
  unfolding reserve
  reserve-total t need v h = elim (Bool-cases (ltb t.size need)) [
    | inr room ↦ (
      t,
      rw room,
      record { valid = v; enough = ground arith; same_len = refl; same = refl; small = λ p q. p },
    )
    | inl full ↦
        let k : t.size < need = ltb→lt t.size need full in
        let (size, e, d) =
          double_until-total need t.size need v.some_room (omega arith) h (omega arith) in
        (
          record t { entries = mem.grow t.entries size; size = size },
          rw (full, e),
          record {
            valid = record {
              block = mem.length-grow t.entries size;
              inside = omega (arith, d.larger);
              some_room = omega (arith, d.larger);
            };
            enough = d.enough;
            same_len = refl;
            same = take-grow_le mem t.entries t.len size (omega arith) (omega (arith, d.larger));
            small = λ p q. omega (arith, d.tight k);
          },
        )
  ]

  -- In a table whose size is no negative `int`, the sign of the comparisons makes no difference.
  pub reserve_int-reserve :
      (t : PcTable) (need : ℕ)
      → t.size < 2 ^ 31
      → need ≤ 2 ^ 30
      → reserve_int mem t need ≡ reserve mem t need
  unfolding reserve reserve_int
  reserve_int-reserve t need h k =
      let plain : need % 2 ^ 32 ≡ need = omega arith in
      rw plain (elim (Bool-cases (ltb t.size need)) [
        | inr room ↦ ground arith
        | inl full ↦
            let e = double_int-double_until (suc need) t.size need (ltb→lt t.size need full) k in
            ground (arith, e)
      ])

  -- The table that compiled code is read into: `len` slots of an allocated block are in use.
  pub pctable_extend-pctable_set_len :
      (t : PcTable) (len : ℕ)
      → IsValid t
      → let r = pctable_extend mem (pctable_set_len t len) len in IsValid r × (r.len ≡ len)
  unfolding pctable_extend pctable_set_len
  pctable_extend-pctable_set_len t len v = elim (Bool-cases (ltb len t.size)) [
    | inl room ↦
        rw room (record { block = v.block; inside = ground arith; some_room = v.some_room }, refl)
    | inr full ↦ rw full (
      record {
        block = mem.length-grow t.entries len;
        inside = omega arith;
        some_room = ground (arith, v.some_room);
      },
      refl,
    )
  ]
