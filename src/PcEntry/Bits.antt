-- ===== src/PcEntry/Bits.antt =====
-- The masks of the flag word as arithmetic, from the 65536 values of a `uint16_t`.
use Prim.Native.Nat.{digits, min, bit_and-bitwise}
use shujit.PcEntry.{PcEntry, state}
use shujit.Base.{
  ℕ, zero, suc, ◌+◌, ◌-◌, ◌*◌, ◌/◌, ◌%◌, ◌^◌, ◌<◌, ◌≡◌, refl, Bool, true, false, if◌then◌else◌,
  ◌==◌, ==_iff, Bool-cases, inl, inr, bit_and, bit_or, arith, ◌≤◌, subst, sym,
}

-- The table of two functions on the words below a bound: do they agree?
module _ (f g : ℕ → ℕ) where
  same_table : ℕ → Bool
  same_table zero = true
  same_table (suc w) = let rest = same_table w in if f w == g w then rest else false

  read_table : (bound : ℕ) → same_table bound ≡ true → (w : ℕ) → w < bound → f w ≡ g w
  unfolding same_table
  read_table zero table w lt = absurd (omega arith)
  read_table (suc bound) table w lt = elim (Bool-cases (f bound == g bound)) [
    | inr differ ↦ (let wrong : false ≡ true = (rw differ at table) in cc)
    | inl same ↦ elim (Bool-cases (w == bound)) [
      | inl here ↦
          let last : w ≡ bound = (==_iff w bound).0 here in
          rw last ((==_iff (f bound) (g bound)).0 same)
      | inr before ↦ read_table bound (rw same at table) w (ground arith)
    ]
  ]

  agree : same_table (2 ^ 16) ≡ true → (w : ℕ) → w < 2 ^ 16 → f w ≡ g w
  agree = read_table (2 ^ 16)

-- Reading the state, and one bit.
pub bit_and_low : (x : ℕ) → x < 2 ^ 16 → bit_and x 0xf ≡ x % 16
unfolding same_table
bit_and_low = agree (λ x. bit_and x 0xf) (λ x. x % 16) refl

pub bit_and_one : (x : ℕ) → x < 2 ^ 16 → bit_and x 0x1 ≡ x % 2
unfolding same_table
bit_and_one = agree (λ x. bit_and x 0x1) (λ x. x % 2) refl

-- Clearing the state, and joining a state to the other bits.
pub bit_and_rest : (x : ℕ) → x < 2 ^ 16 → bit_and x 0xfff0 ≡ x / 16 * 16
unfolding same_table
bit_and_rest = agree (λ x. bit_and x 0xfff0) (λ x. x / 16 * 16) refl

pub bit_or_parts : (x : ℕ) → x < 2 ^ 16 → bit_or (x / 16 * 16) (x % 16) ≡ x
unfolding same_table
bit_or_parts = agree (λ x. bit_or (x / 16 * 16) (x % 16)) (λ x. x) refl

-- Setting and clearing the bit of weight 16.
pub bit_or_block : (x : ℕ) → x < 2 ^ 16 → bit_or x 0x10 ≡ x + 16 * (1 - x / 16 % 2)
unfolding same_table
bit_or_block = agree (λ x. bit_or x 0x10) (λ x. x + 16 * (1 - x / 16 % 2)) refl

pub bit_and_block : (x : ℕ) → x < 2 ^ 16 → bit_and x 0xffef ≡ x - 16 * (x / 16 % 2)
unfolding same_table
bit_and_block = agree (λ x. bit_and x 0xffef) (λ x. x - 16 * (x / 16 % 2)) refl

-- Setting and clearing the bit of weight 32.
pub bit_or_loop_head : (x : ℕ) → x < 2 ^ 16 → bit_or x 0x20 ≡ x + 32 * (1 - x / 32 % 2)
unfolding same_table
bit_or_loop_head = agree (λ x. bit_or x 0x20) (λ x. x + 32 * (1 - x / 32 % 2)) refl

pub bit_and_loop_head : (x : ℕ) → x < 2 ^ 16 → bit_and x 0xffdf ≡ x - 32 * (x / 32 % 2)
unfolding same_table
bit_and_loop_head = agree (λ x. bit_and x 0xffdf) (λ x. x - 32 * (x / 32 % 2)) refl

-- Setting and clearing the bit of weight 64.
pub bit_or_loop_tail : (x : ℕ) → x < 2 ^ 16 → bit_or x 0x40 ≡ x + 64 * (1 - x / 64 % 2)
unfolding same_table
bit_or_loop_tail = agree (λ x. bit_or x 0x40) (λ x. x + 64 * (1 - x / 64 % 2)) refl

pub bit_and_loop_tail : (x : ℕ) → x < 2 ^ 16 → bit_and x 0xffbf ≡ x - 64 * (x / 64 % 2)
unfolding same_table
bit_and_loop_tail = agree (λ x. bit_and x 0xffbf) (λ x. x - 64 * (x / 64 % 2)) refl

-- The digits that two numbers share are digits of the second one.
digits-le : (n a b : ℕ) → digits (λ _. zero) min n a b ≤ b
digits-le zero a b = omega arith
digits-le (suc n) zero b = omega arith
digits-le (suc n) (suc a) b = omega (arith, digits-le n (suc a / 2) (b / 2))

pub bit_and-le : (a b : ℕ) → bit_and a b ≤ b
bit_and-le a b = subst (λ (n : ℕ). n ≤ b) (sym (λ i. bit_and-bitwise a b i)) (digits-le a a b)

pub state-le : (e : PcEntry) → state e ≤ 15
unfolding state
state-le e = bit_and-le e.flag 0xf
