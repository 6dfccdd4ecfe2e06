-- ===== src/Contexts/Output.antt =====
-- ensureBufferSize and writeToBuffer: the buffer for compiled code grows, and what is written follows what is there.
-- `offset` is `bufp - buffer`.
use shujit.Base.{
  ℕ, suc, ◌+◌, ◌-◌, ◌^◌, ◌≤◌, ◌<◌, ◌≡◌, refl, ap, ◌∙◌, List, ◌++◌, Option, some, ◌>>=◌, ltb, ltb→lt,
  if◌then◌else◌, Bool-cases, inl, inr, length, take, write_at, length-write_at, take-write_at,
  Realloc, double_until, double_until-total, take-grow_le, arith,
}

pub record Buffer : Type 0 where
  pub block : List ℕ
  pub size : ℕ
  pub offset : ℕ

module _ (mem : Realloc ℕ) where
  unfoldable pub ensure_buffer_size : Buffer → ℕ → Option Buffer
  ensure_buffer_size b req =
      if ltb (b.size - b.offset) req
      then (do
        size ← double_until (suc (b.offset + req)) b.size (b.offset + req)
        some (record b { block = mem.grow b.block size; size = size }))
      else some b

  unfoldable pub write_to_buffer : Buffer → List ℕ → Option Buffer
  unfolding ensure_buffer_size
  write_to_buffer b bytes = do
    r ← ensure_buffer_size b (length bytes)
    some (record r { block = write_at r.offset bytes r.block; offset = r.offset + length bytes })

-- The block is allocated in full, and the part in use lies inside it.
pub record IsValid (b : Buffer) : Type 0 where
  pub block : length b.block ≡ b.size
  pub inside : b.offset ≤ b.size
  pub some_room : 0 < b.size

-- The code that has been written.
abbrev pub written : Buffer → List ℕ
written b = take b.offset b.block

module _ (mem : Realloc ℕ) where
  pub record Ensured (b : Buffer) (req : ℕ) (r : Buffer) : Type 0 where
    pub valid : IsValid r
    pub enough : b.offset + req ≤ r.size
    pub same_offset : r.offset ≡ b.offset
    pub same : written r ≡ written b

  pub ensure_buffer_size-total :
      (b : Buffer) (req : ℕ)
      → IsValid b
      → b.offset + req ≤ 2 ^ 31
      → (r : Buffer) × (ensure_buffer_size mem b req ≡ some r) × Ensured b req r
  unfolding ensure_buffer_size
  ensure_buffer_size-total b req v h = elim (Bool-cases (ltb (b.size - b.offset) req)) [
    | inr room ↦
        (b, rw room, record { valid = v; enough = ground arith; same_offset = refl; same = refl })
    | inl full ↦
        let k : b.size < b.offset + req =
          omega (arith, ltb→lt (b.size - b.offset) req full, v.inside) in
        let (size, e, d) =
          double_until-total (b.offset + req) b.size (b.offset + req) v.some_room (omega arith) h
            (omega arith) in
        (
          record b { block = mem.grow b.block size; size = size },
          rw (full, e),
          record {
            valid = record {
              block = mem.length-grow b.block size;
              inside = omega (arith, d.larger, v.inside);
              some_room = omega (arith, d.larger);
            };
            enough = d.enough;
            same_offset = refl;
            same =
                take-grow_le mem b.block b.offset size (omega (arith, v.inside, v.block))
                  (omega (arith, d.larger, v.block));
          },
        )
  ]

  -- Writing to a valid buffer that stays within 2 ^ 31 bytes ends, puts the bytes behind those that were written
  -- before, which are kept, and leaves a valid buffer.
  pub write_to_buffer-total :
      (b : Buffer) (bytes : List ℕ)
      → IsValid b
      → b.offset + length bytes ≤ 2 ^ 31
      → (b' : Buffer) × (write_to_buffer mem b bytes ≡ some b')
        × IsValid b'
        × (written b' ≡ written b ++ bytes)
  unfolding write_to_buffer
  write_to_buffer-total b bytes v h =
      let (r, e, d) = ensure_buffer_size-total b (length bytes) v h in
      let room : r.offset + length bytes ≤ length r.block =
        omega (arith, d.enough, d.same_offset, d.valid.block) in
      (
        record r { block = write_at r.offset bytes r.block; offset = r.offset + length bytes },
        rw e,
        record {
          block = length-write_at r.offset bytes r.block room ∙ d.valid.block;
          inside = omega (arith, room, d.valid.block);
          some_room = d.valid.some_room;
        },
        take-write_at r.offset bytes r.block room ∙ ap (λ t. t ++ bytes) d.same,
      )
