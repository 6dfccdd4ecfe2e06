-- ===== src/Base/Memory.antt =====
-- Growing arrays: `sysRealloc`, and the loop that doubles a capacity.
use Prim.Native.Nat.{ℕ, zero, suc, ◌+◌, ◌*◌, ◌%◌, ◌^◌, ◌≤◌, ◌<◌}
use mathlib.Core.Path.{◌≡◌, refl, sym, ap, ◌∙◌}
use mathlib.Core.Option.{Option, none, some, none-ne-some, some-injective}
use mathlib.Core.List.{List, [], ◌∷◌}
use native.Mathlib.Omega.{arith}
use shujit.Base.Tests.{ltb, if◌then◌else◌, Bool-cases}
use shujit.Base.Int.{ℤ, pos, int32, ltb_ℤ}
use mathlib.Core.Logic.{inl, inr}
use shujit.Base.Lists.{length, take, take-take}

-- `sysRealloc` (of the Java VM) on an array of `A`: the new block has the length asked for and
-- keeps the old elements. What stands behind them is not known.
pub record Realloc (A : Type 0) : Type 0 where
  pub grow : List A → ℕ → List A
  pub length-grow : (xs : List A) (n : ℕ) → length (grow xs n) ≡ n
  pub take-grow : (xs : List A) (n : ℕ) → length xs ≤ n → take (length xs) (grow xs n) ≡ xs

-- `do size <<= 1; while (need > size);` on a 32-bit size. `none`: the fuel ran out.
unfoldable pub double_until : ℕ → ℕ → ℕ → Option ℕ
double_until zero size need = none
double_until (suc fuel) size need =
    let rest = double_until fuel (size * 2 % 2 ^ 32) need in
    if ltb (size * 2 % 2 ^ 32) need then rest else some (size * 2 % 2 ^ 32)

-- The size that the loop ends with.
pub record Doubled (size need : ℕ) (r : ℕ) : Type 0 where
  pub enough : need ≤ r
  pub larger : size < r
  pub fits : r < 2 ^ 32
  pub tight : size < need → r < need * 2

-- The loop ends, `suc need` rounds are enough, and the size does not wrap.
pub double_until-total :
    (fuel size need : ℕ)
    → 0 < size
    → size < 2 ^ 31
    → need ≤ 2 ^ 31
    → need ≤ fuel + size * 2
    → (r : ℕ) × (double_until (suc fuel) size need ≡ some r) × Doubled size need r
unfolding double_until
double_until-total zero size need p q n f = (
  size * 2 % 2 ^ 32,
  ground arith,
  record {
    enough = omega arith;
    larger = omega arith;
    fits = omega arith;
    tight = λ h. omega arith;
  },
)
double_until-total (suc fuel) size need p q n f = elim (Bool-cases (ltb (size * 2 % 2 ^ 32) need)) [
  | inr done ↦ (
    size * 2 % 2 ^ 32,
    rw done,
    record {
      enough = ground arith;
      larger = omega arith;
      fits = omega arith;
      tight = λ h. omega arith;
    },
  )
  | inl more ↦
      let small : size * 2 < 2 ^ 31 = ground arith in
      let (r, e, d) =
        double_until-total fuel (size * 2 % 2 ^ 32) need (omega arith) (omega arith) n
          (omega arith) in
      (
        r,
        rw more e,
        record {
          enough = d.enough;
          larger = ground arith;
          fits = d.fits;
          tight = λ h. d.tight (ground arith);
        },
      )
]

-- The same loop on an `int`, given by its 32 bits, with the sign that the comparison sees.
unfoldable pub double_int : ℕ → ℕ → ℤ → Option ℕ
double_int zero size need = none
double_int (suc fuel) size need =
    let rest = double_int fuel (size * 2 % 2 ^ 32) need in
    if ltb_ℤ (int32 (size * 2 % 2 ^ 32)) need then rest else some (size * 2 % 2 ^ 32)

-- Up to 2 ^ 30 the sign makes no difference.
pub double_int-double_until :
    (fuel size need : ℕ)
    → size < need
    → need ≤ 2 ^ 30
    → double_int fuel size (pos need) ≡ double_until fuel size need
unfolding double_int double_until
double_int-double_until zero size need p q = refl
double_int-double_until (suc fuel) size need p q =
    let wide : size * 2 % 2 ^ 32 < 2 ^ 31 = omega arith in
    elim (Bool-cases (ltb (size * 2 % 2 ^ 32) need)) [
      | inr done ↦ ground arith
      | inl more ↦
          let ih = double_int-double_until fuel (size * 2 % 2 ^ 32) need (ground arith) q in
          ground (arith, ih)
    ]

-- A size that the loop ends with is enough, and no negative `int`.
pub double_int-some :
    (fuel size need r : ℕ) → double_int fuel size (pos need) ≡ some r → (need ≤ r) × (r < 2 ^ 31)
unfolding double_int
double_int-some zero size need r e = absurd (none-ne-some r e)
double_int-some (suc fuel) size need r e =
    elim (Bool-cases (ltb_ℤ (int32 (size * 2 % 2 ^ 32)) (pos need))) [
      | inl more ↦ double_int-some fuel (size * 2 % 2 ^ 32) need r (rw more at e)
      | inr done ↦
          let k : size * 2 % 2 ^ 32 ≡ r = some-injective _ _ (rw done at e) in ground (arith, k)
    ]

-- A block that has grown begins with the old elements.
module _ {A : Type 0} (mem : Realloc A) where
  pub take-grow_le :
      (xs : List A) (n m : ℕ) → n ≤ length xs → length xs ≤ m → take n (mem.grow xs m) ≡ take n xs
  take-grow_le xs n m h k =
      sym (take-take n (length xs) (mem.grow xs m) h) ∙ ap (take n) (mem.take-grow xs m k)

-- Concrete memory for runs: what stands behind the old elements is a given value.
pad : {A : Type 0} → A → List A → ℕ → List A
pad d xs zero = []
pad d [] (suc n) = d ∷ pad d [] n
pad d (x ∷ xs) (suc n) = x ∷ pad d xs n

length-pad : {A : Type 0} (d : A) (xs : List A) (n : ℕ) → length (pad d xs n) ≡ n
unfolding pad
length-pad d xs zero = refl
length-pad d [] (suc n) = ap suc (length-pad d [] n)
length-pad d (x ∷ xs) (suc n) = ap suc (length-pad d xs n)

take-pad :
    {A : Type 0} (d : A) (xs : List A) (n : ℕ) → length xs ≤ n → take (length xs) (pad d xs n) ≡ xs
unfolding pad
take-pad d [] n h = refl
take-pad d (x ∷ xs) zero h = absurd (omega arith)
take-pad d (x ∷ xs) (suc n) h = ap (◌∷◌ x) (take-pad d xs n (omega arith))

unfoldable pub padded : {A : Type 0} → A → Realloc A
unfolding pad length-pad take-pad
padded d = record { grow = pad d; length-grow = length-pad d; take-grow = take-pad d }
