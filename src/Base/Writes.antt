-- ===== src/Base/Writes.antt =====
-- What a write into a block leaves as it was.
use Prim.Native.Nat.{ℕ, zero, suc, ◌+◌, ◌-◌, ◌≤◌, ◌<◌}
use mathlib.Core.Path.{◌≡◌, refl, sym, ap, ◌∙◌}
use mathlib.Core.Logic.{◌⊎◌, inl, inr}
use mathlib.Core.List.{List, [], ◌∷◌, ◌++◌}
use native.Mathlib.Omega.{arith}
use shujit.Base.Lists.{length, take, drop, length-append, length-take, length-drop, get_elem?}
use shujit.Base.Blocks.{write_at}

module _ {ℓ} {A : Type ℓ} where
  get_elem?-append_ge :
      (ys zs : List A) (k : ℕ)
      → length ys ≤ k
      → get_elem? (ys ++ zs) k ≡ get_elem? zs (k - length ys)
  get_elem?-append_ge [] zs k h = ap (get_elem? zs) (omega arith)
  get_elem?-append_ge (y ∷ ys) zs zero h = absurd (omega arith)
  get_elem?-append_ge (y ∷ ys) zs (suc k) h =
      get_elem?-append_ge ys zs k (omega arith) ∙ ap (get_elem? zs) (omega arith)

  get_elem?-drop : (n k : ℕ) (xs : List A) → get_elem? (drop n xs) k ≡ get_elem? xs (n + k)
  get_elem?-drop zero k xs = ap (get_elem? xs) (omega arith)
  get_elem?-drop (suc n) k [] = refl
  get_elem?-drop (suc n) k (x ∷ xs) =
      let e : suc n + k ≡ suc (n + k) = omega arith in
      get_elem?-drop n k xs ∙ ap (get_elem? (x ∷ xs)) (sym e)

  pub get_elem?-write_at :
      (i : ℕ) (ys xs : List A) (k : ℕ)
      → k < length xs
      → (k < i) ⊎ (i + length ys ≤ k)
      → get_elem? (write_at i ys xs) k ≡ get_elem? xs k
  unfolding write_at
  get_elem?-write_at zero ys xs k h (inl low) = absurd (omega arith)
  get_elem?-write_at zero ys xs k h (inr high) =
      get_elem?-append_ge ys (drop (0 + length ys) xs) k (omega arith)
      ∙ get_elem?-drop (0 + length ys) (k - length ys) xs
      ∙ ap (get_elem? xs) (omega arith)
  get_elem?-write_at (suc i) ys [] k h d = absurd (omega arith)
  get_elem?-write_at (suc i) ys (x ∷ xs) zero h d = refl
  get_elem?-write_at (suc i) ys (x ∷ xs) (suc k) h d =
      let e : suc i + length ys ≡ suc (i + length ys) = omega arith in
      rw e (
        get_elem?-write_at i ys xs k (omega arith) (elim d as (λ d. (k < i) ⊎ (i + length ys ≤ k)) [
          | inl low ↦ inl (omega arith)
          | inr high ↦ inr (omega arith)
        ]))

  pub length-write_at_le : (i : ℕ) (ys xs : List A) → length xs ≤ length (write_at i ys xs)
  unfolding write_at
  length-write_at_le i ys xs = omega (
    arith,
    length-append (take i xs) (ys ++ drop (i + length ys) xs),
    length-append ys (drop (i + length ys) xs),
    length-take i xs,
    length-drop (i + length ys) xs,
  )
