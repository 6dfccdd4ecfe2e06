-- ===== src/Stack/Examples.antt =====
-- Runs of the stack, over memory whose fresh slots hold 99.
use shujit.Base.{◌≡◌, refl, pos, padded, arith, [], ◌∷◌}
use shujit.Stack.{Stack, make_room, push_to_stack, pop_from_stack}
use shujit.Stack.Laws.{IsValid, elems, pop_from_stack-push_to_stack}

-- Two elements in a block of two: the next push doubles it.
abbrev full : Stack
full = record { contents = pos 5 ∷ pos 6 ∷ []; depth = 2; capacity = 2 }

full-IsValid : IsValid full
full-IsValid = record {
  block = refl;
  inside = omega arith;
  some_room = omega arith;
  fits = omega arith;
}

third : elems (push_to_stack (padded (pos 99)) full (pos 7)) ≡ pos 5 ∷ pos 6 ∷ pos 7 ∷ []
unfolding push_to_stack make_room padded
third = refl

pop_from_stack-push_to_stack_example :
    let (r, s') = pop_from_stack (push_to_stack (padded (pos 99)) full (pos 7)) in
    (r ≡ pos 7) × (elems s' ≡ elems full) × IsValid s'
pop_from_stack-push_to_stack_example =
    pop_from_stack-push_to_stack (padded (pos 99)) full (pos 7) full-IsValid (omega arith)
