-- ===== src/WriteCode/Align.antt =====
-- The padding before the head of a loop.
use shujit.Base.{
  ℕ, ◌+◌, ◌-◌, ◌%◌, ◌^◌, ◌≤◌, ◌<◌, ◌≡◌, refl, ap, sym, ◌∙◌, ◌⊎◌, inl, inr, List, [], ◌∷◌, ◌++◌,
  append_assoc, some, Bool, Bool-cases, leb, length, length-append, length-take, length-replicate,
  replicate, drop-append_eq, arith,
}
use shujit.Contexts.Output.{Buffer, IsValid, written, write_to_buffer-total}
use shujit.Jump.Machine.{next}
use shujit.WriteCode.Machine.{Memory, Writing, write_bytes}
use shujit.WriteCode.Piece.{padding, jump_threshold, align}

padding-IsMultiple : (n : ℕ) → ((n + padding n) % 16 ≡ 0) × (padding n < 16)
unfolding padding
padding-IsMultiple n = omega arith

-- The bytes between two offsets are skipped: they are few, and do nothing, or the processor jumps over them.
abbrev pub Skips : List ℕ → List ℕ → ℕ → ℕ → Type 0
Skips code pad start end =
    ((pad ≡ replicate (end - start) 0x90) × (end < start + 4))
    ⊎ ((holds : ℕ → Bool) → next holds code start ≡ some end)

next-padding :
    (holds : ℕ → Bool) (pre rest : List ℕ) (pad start : ℕ)
    → length pre ≡ start
    → pad < 16
    → start + 16 ≤ 2 ^ 31
    → next holds (pre ++ (0xeb ∷ pad ∷ rest)) start ≡ some (start + 2 + pad)
unfolding next
next-padding holds pre rest pad start e h k =
    rw (drop-append_eq start pre (0xeb ∷ pad ∷ rest) e) (ap some (ground arith))

module _ (mem : Memory) where
  length-written : (b : Buffer) → IsValid b → length (written b) ≡ b.offset
  length-written b v = omega (arith, length-take b.offset b.block, v.block, v.inside)

  -- Writing of bytes ends in a buffer with room.
  write_bytes-total :
      (s : Writing) (bytes : List ℕ)
      → IsValid s.buffer
      → s.buffer.offset + length bytes ≤ 2 ^ 31
      → (b : Buffer) × (write_bytes mem s bytes ≡ some (record s { buffer = b }))
        × IsValid b
        × (written b ≡ written s.buffer ++ bytes)
        × (b.offset ≡ s.buffer.offset + length bytes)
  unfolding write_bytes
  write_bytes-total s bytes v h =
      let (b, e, w, same) = write_to_buffer-total mem.bytes s.buffer bytes v h in
      let size : b.offset ≡ s.buffer.offset + length bytes = omega (
        arith,
        length-written b w,
        length-written s.buffer v,
        ap length same,
        length-append (written s.buffer) bytes,
      ) in
      (b, rw e, w, same, size)

  module _ (s : Writing) (v : IsValid s.buffer) (here : s.nativeoff ≡ s.buffer.offset) where
    -- The padding ends at the next multiple of 16, less than 16 bytes on. It stands behind what is written, and up to
    -- three bytes of it do nothing, while longer padding begins with a jump to its end. Conditions: the buffer is
    -- valid and ends at the native offset, which is at most 2 ^ 31 - 16.
    pub align-Skips :
        s.nativeoff + 16 ≤ 2 ^ 31
        → (s' : Writing) × (pad : List ℕ) × (align mem s ≡ some s')
          × (s'.nativeoff % 16 ≡ 0)
          × (s.nativeoff ≤ s'.nativeoff)
          × (s'.nativeoff < s.nativeoff + 16)
          × (written s'.buffer ≡ written s.buffer ++ pad)
          × (length pad ≡ s'.nativeoff - s.nativeoff)
          × Skips (written s'.buffer) pad s.nativeoff s'.nativeoff
    unfolding align next
    align-Skips h =
        let pad = padding s.nativeoff in
        let nop : ℕ = 0x90 in
        let (multiple, few) = padding-IsMultiple s.nativeoff in
        elim (Bool-cases (leb jump_threshold pad)) [
          | inl long ↦
              let jump : List ℕ = 0xeb ∷ (pad - 2) ∷ [] in
              let nops : List ℕ = replicate (pad - 2) 0x90 in
              let count : length nops ≡ pad - 2 = length-replicate (pad - 2) 0x90 in
              let (b1, e1, v1, w1, n1) = write_bytes-total s jump v (omega (arith, here)) in
              let four : 4 ≤ pad = ground arith in
              let end : s.nativeoff + 2 + (pad - 2) ≡ s.nativeoff + pad = omega (arith, four) in
              let s1 = record s { buffer = b1; nativeoff = s.nativeoff + 2 } in
              let room : b1.offset + length nops ≤ 2 ^ 31 = omega (arith, n1, here, few, count) in
              let (b2, e2, v2, w2, n2) = write_bytes-total s1 nops v1 room in
              let bytes : written b2 ≡ written s.buffer ++ (jump ++ nops) =
                w2 ∙ ap (λ c. c ++ nops) w1 ∙ append_assoc (written s.buffer) jump nops in
              (
                record s { buffer = b2; nativeoff = s.nativeoff + 2 + (pad - 2) },
                jump ++ nops,
                rw (long, e1, e2) refl,
                rw end multiple,
                omega arith,
                omega (arith, end, few),
                bytes,
                omega (arith, count, end),
                inr (λ holds. rw bytes (
                    next-padding holds (written s.buffer) nops (pad - 2) s.nativeoff
                      (length-written s.buffer v ∙ sym here) (omega (arith, few)) h)),
              )
          | inr short ↦
              let (b1, e1, v1, w1, n1) =
                write_bytes-total s (replicate pad 0x90) v
                  (omega (arith, here, few, length-replicate pad nop)) in
              (
                record s { buffer = b1; nativeoff = s.nativeoff + pad },
                replicate pad 0x90,
                rw (short, e1) refl,
                multiple,
                omega arith,
                omega (arith, few),
                w1,
                omega (arith, length-replicate pad nop),
                inl (ap (λ n. replicate n nop) (omega arith), ground arith),
              )
        ]
