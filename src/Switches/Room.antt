-- ===== src/Switches/Room.antt =====
-- A table has the size that room is made for.
use shujit.Base.{
  ◌%◌, refl, ◌-◌, ◌<◌, ◌^◌, ◌≤ℤ◌, pos_part, neg_part, bits32, ℕ, zero, suc, ◌+◌, ◌*◌, ◌≡◌, sym, ap,
  ◌∙◌, arith, List, [], ◌∷◌, some, none-ne-some, some-injective, bind-some, length, length-append,
  ℤ, pos, negsuc, ◌+ℤ◌, get_elem?,
}
use shujit.Opcode.{opc_tableswitch}
use shujit.PcTable.{PcTable, pctable_get_by_pc}
use shujit.Translate.Bytes.{get_int32, aligned, table_size}
use shujit.BlockStructure.{target_of, switch_offsets, words_at, count_or_zero}
use shujit.Jump.{le_bytes}
use shujit.Switches.{
  SwitchCode, target_words, table_words, pairs_at, pair_words, words_bytes, table_room,
}

length-target_words :
    (g : SwitchCode) (t : PcTable) (last : ℕ) (pc : ℤ) (ws : List ℕ)
    → target_words g t last pc ≡ some ws
    → length ws ≡ 2
unfolding target_words
length-target_words g t last pc ws run =
    let (j, _, e1) = bind-some (target_of (pctable_get_by_pc t pc)) _ ws run in
    let (e, _, e2) = bind-some (get_elem? t.entries j) _ ws e1 in
    ap length (sym (some-injective _ _ e2))

pub length-table_words :
    (g : SwitchCode) (t : PcTable) (last : ℕ) (byteoff : ℤ) (offs : List ℤ) (ws : List ℕ)
    → table_words g t last byteoff offs ≡ some ws
    → length ws ≡ 2 * length offs
unfolding table_words
length-table_words g t last byteoff [] ws run =
    ap length (sym (some-injective _ _ run)) ∙ omega arith
length-table_words g t last byteoff (off ∷ offs) ws run =
    let (vs, e1, e2) = bind-some (target_words g t last (byteoff +ℤ off)) _ ws run in
    let (rest, e3, e4) = bind-some (table_words g t last byteoff offs) _ ws e2 in
    omega (
      arith,
      ap length (some-injective _ _ e4),
      length-append vs rest,
      length-target_words g t last (byteoff +ℤ off) vs e1,
      length-table_words g t last byteoff offs rest e3,
    )

pub length-pair_words :
    (g : SwitchCode) (t : PcTable) (last : ℕ) (byteoff : ℤ) (pairs : List (ℤ × ℤ)) (defoff : ℤ)
    (ws : List ℕ)
    → pair_words g t last byteoff pairs defoff ≡ some ws
    → length ws ≡ 3 * (length pairs + 1)
unfolding pair_words
length-pair_words g t last byteoff [] defoff ws run =
    let (vs, e1, e2) = bind-some (target_words g t last (byteoff +ℤ defoff)) _ ws run in
    omega (
      arith,
      ap length (some-injective _ _ e2),
      length-target_words g t last (byteoff +ℤ defoff) vs e1,
    )
length-pair_words g t last byteoff ((match, off) ∷ pairs) defoff ws run =
    let (vs, e1, e2) = bind-some (target_words g t last (byteoff +ℤ off)) _ ws run in
    let (rest, e3, e4) = bind-some (pair_words g t last byteoff pairs defoff) _ ws e2 in
    omega (
      arith,
      ap length (some-injective _ _ e4),
      length-append vs rest,
      length-target_words g t last (byteoff +ℤ off) vs e1,
      length-pair_words g t last byteoff pairs defoff rest e3,
    )

pub length-pairs_at :
    (code : List ℕ) (byteoff : ℤ) (k n : ℕ) (pairs : List (ℤ × ℤ))
    → pairs_at code byteoff k n ≡ some pairs
    → length pairs ≡ n
unfolding pairs_at
length-pairs_at code (negsuc p) k n pairs run = absurd (none-ne-some _ run)
length-pairs_at code (pos pc) k zero pairs run = ap length (sym (some-injective _ _ run))
length-pairs_at code (pos pc) k (suc n) pairs run =
    let (m, _, e1) = bind-some (get_int32 code (pos pc) (aligned pc + 4 * k)) _ pairs run in
    let (off, _, e2) = bind-some (get_int32 code (pos pc) (aligned pc + 4 * (k + 1))) _ pairs e1 in
    let (rest, e3, e4) = bind-some (pairs_at code (pos pc) (k + 2) n) _ pairs e2 in
    omega
      (arith, ap length (some-injective _ _ e4), length-pairs_at code (pos pc) (k + 2) n rest e3)

pub length-words_bytes : (ws : List ℕ) → length (words_bytes ws) ≡ 4 * length ws
length-words_bytes [] = refl
length-words_bytes (w ∷ ws) =
    omega (arith, length-append (le_bytes w) (words_bytes ws), length-words_bytes ws)

room_count :
    (l h : ℤ)
    → l ≤ℤ h
    → pos_part h + neg_part l < pos_part l + neg_part h + 2 ^ 28
    → (bits32 h + (2 ^ 32 - bits32 l) + 2) * 8 % 2 ^ 32 ≡ (count_or_zero (table_size l h) + 1) * 8
room_count (pos l) (pos h) order near = ground arith
room_count (pos l) (negsuc h) order near = ground arith
room_count (negsuc l) (pos h) order near = ground arith
room_count (negsuc l) (negsuc h) order near = ground arith

length-words_at :
    (code : List ℕ) (pc k step n : ℕ) (ws : List ℤ)
    → words_at code pc k step n ≡ some ws
    → length ws ≡ n
unfolding words_at
length-words_at code pc k step zero ws run = ap length (sym (some-injective _ _ run))
length-words_at code pc k step (suc n) ws run =
    let (w, _, e1) = bind-some (get_int32 code (pos pc) (aligned pc + 4 * k)) _ ws run in
    let (rest, e2, e3) = bind-some (words_at code pc (k + step) step n) _ ws e1 in
    omega
      (arith, ap length (some-injective _ _ e3), length-words_at code pc (k + step) step n rest e2)

-- The offsets of a tableswitch: the default, and one for each number from `l` to `h`.
pub length-switch_offsets :
    (code : List ℕ) (pc : ℕ) (l h : ℤ) (offs : List ℤ)
    → get_int32 code (pos pc) (aligned pc + 4) ≡ some l
    → get_int32 code (pos pc) (aligned pc + 8) ≡ some h
    → switch_offsets code opc_tableswitch (pos pc) ≡ some offs
    → length offs ≡ count_or_zero (table_size l h) + 1
unfolding switch_offsets
length-switch_offsets code pc l h offs low high run =
    let (off, _, k1) = bind-some (get_int32 code (pos pc) (aligned pc)) _ offs run in
    let (ws, e1, k2) =
      bind-some (words_at code pc 3 1 (count_or_zero (table_size l h))) _ offs
        (rw (low, high) at k1) in
    omega (
      arith,
      ap length (some-injective _ _ k2),
      length-words_at code pc 3 1 (count_or_zero (table_size l h)) ws e1,
    )

-- Between bounds in order there is room for each offset and the default.
pub table_room-is :
    (code : List ℕ) (pc : ℕ) (l h : ℤ) (room : ℕ)
    → get_int32 code (pos pc) (aligned pc + 4) ≡ some l
    → get_int32 code (pos pc) (aligned pc + 8) ≡ some h
    → l ≤ℤ h
    → pos_part h + neg_part l < pos_part l + neg_part h + 2 ^ 28
    → table_room code (pos pc) ≡ some room
    → room ≡ (count_or_zero (table_size l h) + 1) * 8
unfolding table_room
table_room-is code pc l h room low high order near run =
    let e = some-injective _ _ (rw (low, high) at run) in sym e ∙ room_count l h order near
