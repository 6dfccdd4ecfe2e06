-- ===== src/Stack.antt =====
-- stack.c, stack.h: the stack of `long` values that the optimizer and `updateStates` keep the
-- callers of inlined methods on.
-- `contents` is the allocated block, so its length is what may be read and written.
pub mod Laws
mod Examples
use shujit.Base.{
  ℕ, ◌+◌, ◌-◌, ◌*◌, ◌%◌, ◌^◌, List, [], ℤ, pos, negsuc, pos_part, ltb, leb, ltb_ℤ, int32, not, ◌||◌,
  ◌==◌, if◌then◌else◌, set, get_or, Realloc,
}

pub record Stack : Type 0 where
  pub contents : List ℤ
  pub depth : ℕ
  pub capacity : ℕ

-- `INVALID_ELEM`
abbrev pub invalid_elem : ℤ
invalid_elem = negsuc 0

abbrev pub initial_stack_size : ℕ
initial_stack_size = 2

module _ (mem : Realloc ℤ) where
  unfoldable pub new_stack : Stack
  new_stack = record {
    contents = mem.grow [] initial_stack_size;
    depth = 0;
    capacity = initial_stack_size;
  }

  -- `if (s->depth >= s->capacity)`: the block doubles. The depth and the capacity are `int`s, given by
  -- their 32 bits; the size in bytes is a 32-bit number, which has room for that many of the 4-byte
  -- elements.
  pub make_room : Stack → Stack
  make_room s =
      if not (ltb_ℤ (int32 s.depth) (int32 s.capacity))
      then record s {
        contents = mem.grow s.contents (s.capacity * 2 % 2 ^ 30);
        capacity = s.capacity * 2 % 2 ^ 32;
      }
      else s

  pub push_to_stack : Stack → ℤ → Stack
  push_to_stack s elem =
      let t = make_room s in
      record t { contents = set t.contents t.depth elem; depth = (t.depth + 1) % 2 ^ 32 }

pub clear_stack : Stack → Stack
clear_stack s = record s { depth = 0 }

pub pop_from_stack : Stack → ℤ × Stack
pop_from_stack s =
    if not (ltb_ℤ (pos 0) (int32 s.depth))
    then (invalid_elem, s)
    else (get_or s.contents (s.depth - 1) invalid_elem, record s { depth = s.depth - 1 })

pub stack_depth : Stack → ℕ
stack_depth s = s.depth

pub stack_elem : Stack → ℤ → ℤ
stack_elem s i =
    if ltb_ℤ i (pos 0) || leb s.depth (pos_part i)
    then invalid_elem
    else get_or s.contents (pos_part i) invalid_elem
