-- ===== src/WriteCode/Grown.antt =====
-- The tables and the buffer after an operation on them that ended.
use shujit.Base.{
  ℕ, zero, suc, ◌+◌, ◌-◌, ◌*◌, ◌%◌, ◌^◌, ◌≤◌, ◌<◌, ◌≡◌, refl, ap, ◌∙◌, List, [], ◌∷◌, ◌++◌, some,
  none-ne-some, some-injective, sym, bind-some, ltb, leb, ltb→lt, leb→le, Bool-cases, inl, inr,
  length, take, drop, length-write_at, take-write_at, take-grow_le, Realloc, double_until,
  double_int-some, subst, ℤ, arith,
}
use shujit.PcEntry.{PcEntry}
use shujit.PcTable.{PcTable, filled, slot, reserve, pctable_insert}
use shujit.PcTable.Inv as Pc
use shujit.PcTable.Edit.{inserted}
use shujit.JpTable.{JpEntry, JpTable, extended, jptable_add}
use shujit.JpTable.Laws as Jp
use shujit.Contexts.Output.{Buffer, IsValid, written, ensure_buffer_size, write_to_buffer}

double_until-enough : (fuel size need r : ℕ) → double_until fuel size need ≡ some r → need ≤ r
unfolding double_until
double_until-enough zero size need r e = absurd (none-ne-some r e)
double_until-enough (suc fuel) size need r e = elim (Bool-cases (ltb (size * 2 % 2 ^ 32) need)) [
  | inl more ↦ double_until-enough fuel (size * 2 % 2 ^ 32) need r (rw more at e)
  | inr done ↦
      let k : size * 2 % 2 ^ 32 ≡ r = some-injective _ _ (rw done at e) in
      subst (λ (n : ℕ). need ≤ n) k (ground arith)
]

module _ (mem : Realloc ℕ) where
  pub record Ensured (b : Buffer) (req : ℕ) (r : Buffer) : Type 0 where
    pub valid : IsValid r
    pub enough : b.offset + req ≤ r.size
    pub same_offset : r.offset ≡ b.offset
    pub same : written r ≡ written b

  pub ensure_buffer_size-some :
      (b : Buffer) (req : ℕ) (r : Buffer)
      → IsValid b
      → ensure_buffer_size mem b req ≡ some r
      → Ensured b req r
  unfolding ensure_buffer_size
  ensure_buffer_size-some b req r v e = elim (Bool-cases (ltb (b.size - b.offset) req)) [
    | inr room ↦
        let k : b ≡ r = some-injective _ _ (rw room at e) in
        subst (λ r. Ensured b req r) k
          (record { valid = v; enough = ground arith; same_offset = refl; same = refl })
    | inl full ↦
        let (size, d, k) = bind-some _ _ r (rw full at e) in
        let enough = double_until-enough _ _ _ size d in
        let more : b.size < b.offset + req =
          omega (arith, ltb→lt (b.size - b.offset) req full, v.inside) in
        subst (λ r. Ensured b req r) (some-injective _ _ k)
          (record {
            valid = record {
              block = mem.length-grow b.block size;
              inside = omega (arith, enough);
              some_room = omega (arith, enough);
            };
            enough = enough;
            same_offset = refl;
            same =
                take-grow_le mem b.block b.offset size (omega (arith, v.inside, v.block))
                  (omega (arith, enough, v.block));
          })
  ]

  -- Bytes that have been written stand behind those from before.
  pub write_to_buffer-some :
      (b : Buffer) (bytes : List ℕ) (b' : Buffer)
      → IsValid b
      → write_to_buffer mem b bytes ≡ some b'
      → IsValid b' × (written b' ≡ written b ++ bytes) × (b'.offset ≡ b.offset + length bytes)
  unfolding write_to_buffer
  write_to_buffer-some b bytes b' v e =
      let (r, e1, k) = bind-some (ensure_buffer_size mem b (length bytes)) _ b' e in
      let d = ensure_buffer_size-some b (length bytes) r v e1 in
      let room : r.offset + length bytes ≤ length r.block =
        omega (arith, d.enough, d.same_offset, d.valid.block) in
      subst
        (λ (x : Buffer).
          IsValid x × (written x ≡ written b ++ bytes) × (x.offset ≡ b.offset + length bytes))
        (some-injective _ _ k)
        (
          record {
            block = length-write_at r.offset bytes r.block room ∙ d.valid.block;
            inside = omega (arith, room, d.valid.block);
            some_room = d.valid.some_room;
          },
          take-write_at r.offset bytes r.block room ∙ ap (λ t. t ++ bytes) d.same,
          ap (λ (n : ℕ). n + length bytes) d.same_offset,
        )

module _ (mem : Realloc JpEntry) where
  record Extended (t r : JpTable) : Type 0 where
    pub valid : Jp.IsValid r
    pub enough : t.len < r.size
    pub same_len : r.len ≡ t.len
    pub same : Jp.view r ≡ Jp.view t

  extended-some : (t r : JpTable) → Jp.IsValid t → extended mem t ≡ some r → Extended t r
  unfolding extended
  extended-some t r v e = elim (Bool-cases (leb t.size t.len)) [
    | inr room ↦
        subst (λ r. Extended t r) (some-injective _ _ (rw (Jp.full-test t v, room) at e))
          (record { valid = v; enough = ground arith; same_len = refl; same = refl })
    | inl full ↦
        let (size, d, k) = bind-some _ _ r (rw (Jp.full-test t v, full, Jp.test-need t v) at e) in
        let (enough, fits) = double_int-some _ _ _ size d in
        subst (λ r. Extended t r) (some-injective _ _ k)
          (record {
            valid = record {
              block = mem.length-grow t.entries size;
              inside = omega (arith, enough);
              some_room = omega (arith, enough);
              fits = fits;
            };
            enough = omega (arith, enough);
            same_len = refl;
            same =
                take-grow_le mem t.entries t.len size (omega (arith, v.block, v.inside))
                  (omega (arith, enough, v.block, leb→le t.size t.len full));
          })
  ]

  -- A jump that has been registered stands behind those from before.
  pub jptable_add-some :
      (t : JpTable) (tgtoff argoff : ℕ) (t' : JpTable)
      → Jp.IsValid t
      → jptable_add mem t tgtoff argoff ≡ some t'
      → Jp.IsValid t' × (Jp.view t' ≡ Jp.view t ++ record { tgtoff = tgtoff; argoff = argoff } ∷ [])
  unfolding jptable_add
  jptable_add-some t tgtoff argoff t' v e =
      let (r, e1, k) = bind-some (extended mem t) _ t' e in
      let d = extended-some t r v e1 in
      let new : JpEntry = record { tgtoff = tgtoff; argoff = argoff } in
      let room : r.len + 1 ≤ length r.entries =
        omega (arith, d.enough, d.same_len, d.valid.block) in
      let plain : (r.len + 1) % 2 ^ 32 ≡ r.len + 1 =
        omega (arith, d.enough, d.same_len, d.valid.inside, d.valid.fits) in
      subst (λ (x : JpTable). Jp.IsValid x × (Jp.view x ≡ Jp.view t ++ new ∷ []))
        (some-injective _ _ (rw plain at k))
        (
          record {
            block = length-write_at r.len (new ∷ []) r.entries room ∙ d.valid.block;
            inside = omega (arith, room, d.valid.block);
            some_room = d.valid.some_room;
            fits = d.valid.fits;
          },
          take-write_at r.len (new ∷ []) r.entries room ∙ ap (λ l. l ++ new ∷ []) d.same,
        )

module _ (mem : Realloc PcEntry) where
  reserve-small :
      (t : PcTable) (need : ℕ) (r : PcTable)
      → Pc.IsValid t
      → reserve mem t need ≡ some r
      → t.size < 2 ^ 31
      → need ≤ 2 ^ 30
      → r.size < 2 ^ 31
  reserve-small t need r v e p q =
      let (r', e', d) = Pc.reserve-total mem t need v (omega arith) in
      subst (λ (x : PcTable). x.size < 2 ^ 31) (some-injective _ _ (sym e' ∙ e)) (d.small p q)

  reserve-some :
      (t : PcTable) (need : ℕ) (r : PcTable)
      → Pc.IsValid t
      → reserve mem t need ≡ some r
      → Pc.Reserved mem t need r
  unfolding reserve
  reserve-some t need r v e = elim (Bool-cases (ltb t.size need)) [
    | inr room ↦
        subst (λ r. Pc.Reserved mem t need r) (some-injective _ _ (rw room at e))
          (record {
            valid = v;
            enough = ground arith;
            same_len = refl;
            same = refl;
            small = λ p q. p;
          })
    | inl full ↦
        let (size, d, k) = bind-some _ _ r (rw full at e) in
        let enough = double_until-enough _ _ _ size d in
        let more = ltb→lt t.size need full in
        subst (λ r. Pc.Reserved mem t need r) (some-injective _ _ k)
          (record {
            valid = record {
              block = mem.length-grow t.entries size;
              inside = omega (arith, enough, more, v.inside);
              some_room = omega (arith, enough, more);
            };
            enough = enough;
            same_len = refl;
            same =
                take-grow_le mem t.entries t.len size (omega (arith, v.block, v.inside))
                  (omega (arith, enough, more, v.block));
            small = λ p q.
                subst (λ (x : PcTable). x.size < 2 ^ 31) (sym (some-injective _ _ k))
                  (reserve-small t need r v e p q);
          })
  ]

  -- An entry that has been inserted stands between those from before.
  pub pctable_insert-some :
      (t : PcTable) (index opcode : ℕ) (operand byteoff : ℤ) (st nativeoff : ℕ) (t' : PcTable)
      → Pc.IsValid t
      → index ≤ t.len
      → pctable_insert mem t index opcode operand byteoff st nativeoff ≡ some t'
      → (old : PcEntry) × Pc.IsValid t'
        × (Pc.view t'
            ≡ take index (Pc.view t)
              ++ (filled old opcode operand byteoff st nativeoff ∷ drop index (Pc.view t)))
        × (t'.len ≡ t.len + 1)
  unfolding pctable_insert
  pctable_insert-some t index opcode operand byteoff st nativeoff t' v h e =
      let (r, e1, k) = bind-some (reserve mem t (t.len + 1)) _ t' e in
      let d = reserve-some t (t.len + 1) r v e1 in
      let old = slot r.entries index in
      let src = filled old opcode operand byteoff st nativeoff ∷ [] in
      let (w, same) = inserted mem t v index src r d h in
      subst
        (λ (x : PcTable).
          (old : PcEntry) × Pc.IsValid x
          × (Pc.view x
              ≡ take index (Pc.view t)
                ++ (filled old opcode operand byteoff st nativeoff ∷ drop index (Pc.view t)))
          × (x.len ≡ t.len + 1))
        (some-injective _ _ k) (old, w, same, ap (λ (n : ℕ). n + 1) d.same_len)
