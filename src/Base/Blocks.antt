-- ===== src/Base/Blocks.antt =====
-- `memcpy` and `memmove` on a block of memory, given as the list of its elements.
use Prim.Native.Nat.{ℕ, zero, suc, ◌+◌, ◌-◌, ◌≤◌}
use Prim.Native.Nat.add
use native.Mathlib.Nat.{add_assoc}
use mathlib.Core.Path.{◌≡◌, refl, ap, sym, ◌∙◌}
use mathlib.Core.List.{List, [], ◌∷◌, ◌++◌, append_assoc}
use native.Mathlib.Omega.{arith}
use shujit.Base.Lists.{
  length, take, drop, length-append, length-take, length-drop, take-append_le, take-take,
  take-append-drop, take-append_eq, drop-append_eq, drop-take, get_elem?, get_or,
}

-- `memcpy` and `memmove` of the block `ys` to index `i` of the block `xs`.
unfoldable pub write_at {ℓ} : {A : Type ℓ} → ℕ → List A → List A → List A
write_at i ys xs = take i xs ++ (ys ++ drop (i + length ys) xs)

module _ {ℓ} {A : Type ℓ} where
  pub length-write_at :
      (i : ℕ) (ys xs : List A) → i + length ys ≤ length xs → length (write_at i ys xs) ≡ length xs
  unfolding write_at
  length-write_at i ys xs h = omega (
    arith,
    length-append (take i xs) (ys ++ drop (i + length ys) xs),
    length-append ys (drop (i + length ys) xs),
    length-take i xs,
    length-drop (i + length ys) xs,
  )

  -- The elements behind index `i` of the first `len`, as a block of their own.
  length-tail :
      (len i : ℕ) (xs : List A) → len ≤ length xs → length (take (len - i) (drop i xs)) ≡ len - i
  length-tail len i xs h = omega (arith, length-take (len - i) (drop i xs), length-drop i xs)

  -- Room for `src` at `i` in the first `len` elements: the elements behind `i` move up, then `src`
  -- is copied in.
  unfoldable pub insert_block : ℕ → ℕ → List A → List A → List A
  insert_block len i src xs =
      write_at i src (write_at (i + length src) (take (len - i) (drop i xs)) xs)

  -- The elements behind the `n` ones at `i` move down.
  unfoldable pub delete_block : ℕ → ℕ → ℕ → List A → List A
  delete_block len i n xs = write_at i (take (len - i - n) (drop (i + n) xs)) xs

  pub take-insert_block :
      (len i : ℕ) (src xs : List A)
      → i ≤ len
      → len + length src ≤ length xs
      → take (len + length src) (insert_block len i src xs)
        ≡ take i (take len xs) ++ (src ++ drop i (take len xs))
  unfolding insert_block write_at
  take-insert_block len i src xs h k =
      let n = i + length src in
      let moved = take (len - i) (drop i xs) in
      let rest = drop (n + length moved) xs in
      let size : length (take n xs) ≡ n = omega (arith, length-take n xs) in
      let size' : length (take i xs ++ (src ++ moved)) ≡ len + length src = omega (
        arith,
        length-append (take i xs) (src ++ moved),
        length-append src moved,
        length-take i xs,
        length-tail len i xs (omega arith),
      ) in
      let front : take i (take n xs ++ (moved ++ rest)) ≡ take i xs =
        take-append_le i (take n xs) (moved ++ rest) (omega (arith, size))
        ∙ take-take i n xs (omega arith) in
      rw
        (
          front,
          drop-append_eq n (take n xs) (moved ++ rest) size,
          take-take i len xs h,
          drop-take i len xs,
        )
        (ap (take (len + length src)) (
            ap (◌++◌ (take i xs)) (sym (append_assoc src moved rest))
            ∙ sym (append_assoc (take i xs) (src ++ moved) rest))
          ∙ take-append_eq (len + length src) (take i xs ++ (src ++ moved)) rest size')

  pub length-insert_block :
      (len i : ℕ) (src xs : List A)
      → i ≤ len
      → len + length src ≤ length xs
      → length (insert_block len i src xs) ≡ length xs
  unfolding insert_block
  length-insert_block len i src xs h k =
      let moved = take (len - i) (drop i xs) in
      let inner =
        length-write_at (i + length src) moved xs
          (omega (arith, length-tail len i xs (omega arith))) in
      length-write_at i src (write_at (i + length src) moved xs) (omega (arith, inner)) ∙ inner

  pub take-delete_block :
      (len i n : ℕ) (xs : List A)
      → i + n ≤ len
      → len ≤ length xs
      → take (len - n) (delete_block len i n xs)
        ≡ take i (take len xs) ++ drop (i + n) (take len xs)
  unfolding delete_block write_at
  take-delete_block len i n xs h k =
      let moved = take (len - i - n) (drop (i + n) xs) in
      let same : len - (i + n) ≡ len - i - n = omega arith in
      let size : length (take i xs ++ moved) ≡ len - n = omega (
        arith,
        length-append (take i xs) moved,
        length-take i xs,
        length-take (len - i - n) (drop (i + n) xs),
        length-drop (i + n) xs,
      ) in
      rw (take-take i len xs (omega arith), drop-take (i + n) len xs, same)
        (ap (take (len - n)) (sym (append_assoc (take i xs) moved (drop (i + length moved) xs)))
          ∙ take-append_eq (len - n) (take i xs ++ moved) (drop (i + length moved) xs) size)

  pub length-delete_block :
      (len i n : ℕ) (xs : List A)
      → i + n ≤ len
      → len ≤ length xs
      → length (delete_block len i n xs) ≡ length xs
  unfolding delete_block
  length-delete_block len i n xs h k =
      length-write_at i (take (len - i - n) (drop (i + n) xs)) xs
        (omega (arith, length-take (len - i - n) (drop (i + n) xs), length-drop (i + n) xs))

module _ {ℓ} {A : Type ℓ} where
  -- A block written at the end of a prefix extends it.
  pub take-write_at :
      (n : ℕ) (ys xs : List A)
      → n + length ys ≤ length xs
      → take (n + length ys) (write_at n ys xs) ≡ take n xs ++ ys
  unfolding write_at
  take-write_at n ys xs h =
      ap (take (n + length ys)) (sym (append_assoc (take n xs) ys (drop (n + length ys) xs)))
      ∙ take-append_eq (n + length ys) (take n xs ++ ys) (drop (n + length ys) xs)
          (omega (arith, length-append (take n xs) ys, length-take n xs))

module _ {ℓ} {A : Type ℓ} where
  pub take-write_at_front :
      (ys xs : List A) → length ys ≤ length xs → take (length ys) (write_at 0 ys xs) ≡ ys
  take-write_at_front ys xs h =
      let e : 0 + length ys ≡ length ys = omega arith in
      ap (λ n. take n (write_at 0 ys xs)) (sym e) ∙ take-write_at 0 ys xs (omega arith)

  -- Behind a prefix, memory is read and written as if the prefix were not there.
  pub take-append_add :
      (pre xs : List A) (k : ℕ) → take (length pre + k) (pre ++ xs) ≡ pre ++ take k xs
  take-append_add [] xs k = rw add.zero
  take-append_add (x ∷ pre) xs k = rw add.suc (ap (◌∷◌ x) (take-append_add pre xs k))

  pub drop-append_add : (pre xs : List A) (k : ℕ) → drop (length pre + k) (pre ++ xs) ≡ drop k xs
  drop-append_add [] xs k = rw add.zero
  drop-append_add (x ∷ pre) xs k = rw add.suc (drop-append_add pre xs k)

  pub write_at-append :
      (pre xs ys : List A) (k : ℕ)
      → write_at (length pre + k) ys (pre ++ xs) ≡ pre ++ write_at k ys xs
  unfolding write_at
  write_at-append pre xs ys k =
      rw (take-append_add pre xs k, add_assoc, drop-append_add pre xs (k + length ys))
        (append_assoc pre (take k xs) (ys ++ drop (k + length ys) xs))

  pub get_elem?-append :
      (pre xs : List A) (k : ℕ) → get_elem? (pre ++ xs) (length pre + k) ≡ get_elem? xs k
  get_elem?-append [] xs k = rw add.zero
  get_elem?-append (x ∷ pre) xs k = rw add.suc (get_elem?-append pre xs k)

  pub get_or-append :
      (pre xs : List A) (k : ℕ) (d : A) → get_or (pre ++ xs) (length pre + k) d ≡ get_or xs k d
  get_or-append [] xs k d = rw add.zero
  get_or-append (x ∷ pre) xs k d = rw add.suc (get_or-append pre xs k d)

module _ {ℓ} {A : Type ℓ} where
  pub drop-append_le :
      (n : ℕ) (xs ys : List A) → n ≤ length xs → drop n (xs ++ ys) ≡ drop n xs ++ ys
  drop-append_le zero xs ys h = refl
  drop-append_le (suc n) [] ys h = absurd (omega arith)
  drop-append_le (suc n) (x ∷ xs) ys h = drop-append_le n xs ys (omega arith)

  -- A write inside a prefix leaves what is behind it alone.
  pub write_at-append_le :
      (i : ℕ) (ys xs zs : List A)
      → i + length ys ≤ length xs
      → write_at i ys (xs ++ zs) ≡ write_at i ys xs ++ zs
  unfolding write_at
  write_at-append_le i ys xs zs h = rw (
    take-append_le i xs zs (omega arith),
    drop-append_le (i + length ys) xs zs h,
    append_assoc (take i xs) (ys ++ drop (i + length ys) xs) zs,
    append_assoc ys (drop (i + length ys) xs) zs,
  )

  pub take-write_at_inside :
      (n i : ℕ) (ys xs : List A)
      → i + length ys ≤ n
      → n ≤ length xs
      → take n (write_at i ys xs) ≡ write_at i ys (take n xs)
  take-write_at_inside n i ys xs h k =
      let size : length (take n xs) ≡ n = omega (arith, length-take n xs) in
      let e = write_at-append_le i ys (take n xs) (drop n xs) (omega (arith, size)) in
      rw (take-append-drop n xs) at (ap (take n) e)
      ∙ take-append_eq n (write_at i ys (take n xs)) (drop n xs)
          (length-write_at i ys (take n xs) (omega (arith, size)) ∙ size)
