-- ===== src/Stack/Laws.antt =====
-- The stack of stack.c is a last-in-first-out list: its invariant, and each operation against a
-- list with the last pushed element at the end.
use shujit.Base.{
  ℕ, ◌+◌, ◌-◌, pos, negsuc, false, get_or, get_or-take, get_or-set_self, take-set_le, ◌*◌, ◌%◌, ◌^◌,
  ◌≤◌, ◌<◌, ◌≡◌, refl, ap, ◌∙◌, List, [], ◌∷◌, ◌++◌, ℤ, Bool-cases, inl, inr, leb, ltb_ℤ, int32,
  not, length, length-set, take, take-set, take-pred, take-grow_le, Realloc, arith,
}
use shujit.Stack.{
  Stack, invalid_elem, new_stack, make_room, push_to_stack, pop_from_stack, stack_depth, stack_elem,
}

-- The block is allocated in full and the elements lie inside it.
pub record IsValid (s : Stack) : Type 0 where
  pub block : length s.contents ≡ s.capacity
  pub inside : s.depth ≤ s.capacity
  pub some_room : 0 < s.capacity
  pub fits : s.capacity < 2 ^ 31

-- The elements, the last pushed one at the end.
abbrev pub elems : Stack → List ℤ
elems s = take s.depth s.contents

module _ (mem : Realloc ℤ) where
  pub new_stack-IsValid : IsValid (new_stack mem)
  unfolding new_stack
  new_stack-IsValid = record {
    block = mem.length-grow [] 2;
    inside = omega arith;
    some_room = omega arith;
    fits = omega arith;
  }

  -- What `make_room` gives: a free slot, and the same elements.
  pub make_room_lem :
      (s : Stack)
      → IsValid s
      → s.capacity < 2 ^ 29
      → IsValid (make_room mem s)
        × ((make_room mem s).depth ≡ s.depth)
        × (s.depth < (make_room mem s).capacity)
        × (elems (make_room mem s) ≡ elems s)
  unfolding make_room
  make_room_lem s v h = elim (Bool-cases (leb s.capacity s.depth)) [
    | inl full ↦ ground (
      arith,
      mem.length-grow s.contents (s.capacity * 2 % 2 ^ 30),
      take-grow_le mem s.contents s.depth (s.capacity * 2 % 2 ^ 30),
    )
    | inr free ↦ ground arith
  ]

  -- A push keeps the invariant and appends the element, as long as the capacity is below 2 ^ 29.
  elems-push_to_stack :
      (s : Stack) (e : ℤ)
      → IsValid s
      → s.capacity < 2 ^ 29
      → IsValid (push_to_stack mem s e) × (elems (push_to_stack mem s e) ≡ elems s ++ e ∷ [])
  unfolding push_to_stack
  elems-push_to_stack s e v h =
      let t = make_room mem s in
      let (w, same_depth, free, same) = make_room_lem s v h in
      let plain : (t.depth + 1) % 2 ^ 32 ≡ t.depth + 1 = omega (arith, w.fits, w.inside) in
      rw plain (
        record {
          block = length-set t.contents t.depth e ∙ w.block;
          inside = omega arith;
          some_room = w.some_room;
          fits = w.fits;
        },
        take-set t.depth t.contents e (omega (arith, w.block)) ∙ ap (λ l. l ++ e ∷ []) same,
      )

-- A pop of a stack with elements takes the last one off; it keeps the invariant. A pop of an empty
-- stack returns -1 and leaves it alone.
pub pop_from_stack_lem :
    (s : Stack)
    → IsValid s
    → IsValid (pop_from_stack s).1
      × (0 < s.depth → elems s ≡ elems (pop_from_stack s).1 ++ (pop_from_stack s).0 ∷ [])
      × (s.depth ≡ 0 → pop_from_stack s ≡ (invalid_elem, s))
unfolding pop_from_stack
pop_from_stack_lem s v = elim (Bool-cases (not (ltb_ℤ (pos 0) (int32 s.depth)))) [
  | inl empty ↦ rw empty (v, (λ p. absurd (ground (arith, v.fits, v.inside))), λ _. refl)
  | inr more ↦ rw more (
    ground arith,
    (λ p. take-pred s.depth s.contents invalid_elem p (omega (arith, v.block))),
    λ e. absurd (ground arith),
  )
]

-- Popping what was just pushed returns it, and leaves a valid stack with the elements from before
-- the push, as long as the capacity is below 2 ^ 29, where neither the capacity nor the size of the
-- block in bytes leaves its type.
pub pop_from_stack-push_to_stack :
    (mem : Realloc ℤ) (s : Stack) (e : ℤ)
    → IsValid s
    → s.capacity < 2 ^ 29
    → let (r, s') = pop_from_stack (push_to_stack mem s e) in
      (r ≡ e) × (elems s' ≡ elems s) × IsValid s'
unfolding pop_from_stack push_to_stack
pop_from_stack-push_to_stack mem s e v h =
    let t = make_room mem s in
    let (w, same_depth, free, same) = make_room_lem mem s v h in
    let back : t.depth + 1 - 1 ≡ t.depth = omega arith in
    let plain : (t.depth + 1) % 2 ^ 32 ≡ t.depth + 1 = omega (arith, w.fits, w.inside) in
    let more : not (ltb_ℤ (pos 0) (int32 (t.depth + 1))) ≡ false = ground (arith, free, w.fits) in
    rw (plain, more, back)
      (
        get_or-set_self t.contents t.depth e invalid_elem (omega (arith, w.block)),
        take-set_le t.depth t.depth t.contents e (omega arith) ∙ same,
        record {
          block = length-set t.contents t.depth e ∙ w.block;
          inside = w.inside;
          some_room = w.some_room;
          fits = w.fits;
        },
      )

-- An index within the depth reads that element of the stack; any other index, negative ones
-- included, reads -1.
pub stack_elem_lem :
    (s : Stack) (i : ℕ)
    → (i < stack_depth s → stack_elem s (pos i) ≡ get_or (elems s) i invalid_elem)
      × (stack_depth s ≤ i → stack_elem s (pos i) ≡ invalid_elem)
      × (stack_elem s (negsuc i) ≡ invalid_elem)
unfolding stack_depth stack_elem
stack_elem_lem s i = (
  (λ h. rw (get_or-take i s.depth s.contents invalid_elem h) (ground arith)),
  (λ h. ground arith),
  ground arith,
)
