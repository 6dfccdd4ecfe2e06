-- ===== src/PcEntry/Laws.antt =====
-- The flag word holds four independent fields: each macro changes the one that it names.
use shujit.Base.{ℕ, ◌+◌, ◌-◌, ◌*◌, ◌/◌, ◌%◌, ◌^◌, ◌<◌, ◌≡◌, refl, ap, arith, ◌∙◌}
use shujit.PcEntry.{
  PcEntry, state, block_head, loop_head, loop_tail, set_state, set_block_head, clear_block_head,
  set_loop_head, clear_loop_head, set_loop_tail, clear_loop_tail,
}
use shujit.PcEntry.Bits.{
  bit_and_low, bit_and_one, bit_and_rest, bit_or_parts, bit_or_block, bit_and_block,
  bit_or_loop_head, bit_and_loop_head, bit_or_loop_tail, bit_and_loop_tail,
}

-- The flag word is a `uint16_t`.
abbrev pub IsWord : PcEntry → Type 0
IsWord e = e.flag < 2 ^ 16

-- What the flag word says, as numbers.
pub record Flags : Type 0 where
  pub state_bits : ℕ
  pub block : ℕ
  pub head : ℕ
  pub tail : ℕ

abbrev pub flags : PcEntry → Flags
flags e = record {
  state_bits = state e;
  block = block_head e;
  head = loop_head e;
  tail = loop_tail e;
}

-- The same, by arithmetic on the word.
abbrev pub fields : ℕ → Flags
fields w = record { state_bits = w % 16; block = w / 16 % 2; head = w / 32 % 2; tail = w / 64 % 2 }

pub flags-fields : (e : PcEntry) → IsWord e → flags e ≡ fields e.flag
unfolding state block_head loop_head loop_tail
flags-fields e h =
    rw
      (
        bit_and_low e.flag h,
        bit_and_one (e.flag / 16) (omega arith),
        bit_and_one (e.flag / 32) (omega arith),
        bit_and_one (e.flag / 64) (omega arith),
      )
      refl

-- The word after each macro, by arithmetic.
module _ (e : PcEntry) (h : IsWord e) where
  pub flag-set_state : (st : ℕ) → st < 2 ^ 16 → (set_state e st).flag ≡ e.flag / 16 * 16 + st % 16
  unfolding set_state
  flag-set_state st k =
      let low : st % 16 < 16 = omega arith in
      let quot : (e.flag / 16 * 16 + st % 16) / 16 * 16 ≡ e.flag / 16 * 16 = omega arith in
      let rem : (e.flag / 16 * 16 + st % 16) % 16 ≡ st % 16 = omega arith in
      rw (bit_and_rest e.flag h, bit_and_low st k)
        (rw (quot, rem) at (bit_or_parts (e.flag / 16 * 16 + st % 16) (omega arith)))

  pub flag-set_block_head : (set_block_head e).flag ≡ e.flag + 16 * (1 - e.flag / 16 % 2)
  unfolding set_block_head
  flag-set_block_head = bit_or_block e.flag h

  pub flag-clear_block_head : (clear_block_head e).flag ≡ e.flag - 16 * (e.flag / 16 % 2)
  unfolding clear_block_head
  flag-clear_block_head = bit_and_block e.flag h

  pub flag-set_loop_head : (set_loop_head e).flag ≡ e.flag + 32 * (1 - e.flag / 32 % 2)
  unfolding set_loop_head
  flag-set_loop_head = bit_or_loop_head e.flag h

  pub flag-clear_loop_head : (clear_loop_head e).flag ≡ e.flag - 32 * (e.flag / 32 % 2)
  unfolding clear_loop_head
  flag-clear_loop_head = bit_and_loop_head e.flag h

  pub flag-set_loop_tail : (set_loop_tail e).flag ≡ e.flag + 64 * (1 - e.flag / 64 % 2)
  unfolding set_loop_tail
  flag-set_loop_tail = bit_or_loop_tail e.flag h

  pub flag-clear_loop_tail : (clear_loop_tail e).flag ≡ e.flag - 64 * (e.flag / 64 % 2)
  unfolding clear_loop_tail
  flag-clear_loop_tail = bit_and_loop_tail e.flag h

-- A word whose fields are known, and that is in range.
abbrev pub Reads : PcEntry → Flags → Type 0
Reads e f = IsWord e × (flags e ≡ f)

reads : (e : PcEntry) (w : ℕ) (f : Flags) → e.flag ≡ w → w < 2 ^ 16 → fields w ≡ f → Reads e f
reads e w f p h q = let k : IsWord e = omega arith in (k, flags-fields e k ∙ ap fields p ∙ q)

module _ (e : PcEntry) (h : IsWord e) where
  -- On a 16-bit word, `pcentrySetState` changes only the state, to the low four bits of its
  -- argument, `pcentrySetBlockHead` only the block head bit, and `pcentrySetLoopHead` and
  -- `pcentrySetLoopTail` only theirs; the result is a 16-bit word again.
  pub set_flags :
      (st : ℕ)
      → st < 2 ^ 16
      → Reads (set_state e st) (record (flags e) { state_bits = st % 16 })
        × Reads (set_block_head e) (record (flags e) { block = 1 })
        × Reads (set_loop_head e) (record (flags e) { head = 1 })
        × Reads (set_loop_tail e) (record (flags e) { tail = 1 })
  set_flags st k = (
    reads _ _ _ (flag-set_state e h st k) (omega arith) (ground (arith, flags-fields e h)),
    reads _ _ _ (flag-set_block_head e h) (omega arith) (ground (arith, flags-fields e h)),
    reads _ _ _ (flag-set_loop_head e h) (omega arith) (ground (arith, flags-fields e h)),
    reads _ _ _ (flag-set_loop_tail e h) (omega arith) (ground (arith, flags-fields e h)),
  )

  -- The three clearing macros put their own bit to 0 and leave the other fields of a 16-bit word
  -- alone.
  pub clear_flags :
      Reads (clear_block_head e) (record (flags e) { block = 0 })
      × Reads (clear_loop_head e) (record (flags e) { head = 0 })
      × Reads (clear_loop_tail e) (record (flags e) { tail = 0 })
  clear_flags = (
    reads _ _ _ (flag-clear_block_head e h) (omega arith) (ground (arith, flags-fields e h)),
    reads _ _ _ (flag-clear_loop_head e h) (omega arith) (ground (arith, flags-fields e h)),
    reads _ _ _ (flag-clear_loop_tail e h) (omega arith) (ground (arith, flags-fields e h)),
  )
