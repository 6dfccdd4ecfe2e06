-- ===== src/Inlining/Increasing.antt =====
-- Where inlined code nests well, the offsets that the pass sets ascend: the search by program
-- counter works on the table.
use shujit.Base.{
  ℕ, suc, ltb_ℤ, false, append_assoc, map-append, ◌≡◌, ◌≢◌, refl, ap, ◌∙◌, sym, List, [], ◌∷◌, ◌++◌,
  ℤ, pos, negsuc, ◌+ℤ◌, ◌≤ℤ◌, length, map, arith,
}
use shujit.PcEntry.{PcEntry}
use shujit.PcTable.Search.{IsSorted}
use shujit.PcTable.Ascends.{AllAbove, Ascends, AllAbove-le, Ascends-IsSorted}
use shujit.Inlining.{with_increasing, next_locked, next_count, increasing_loop, set_increasing}
use shujit.Opcode.{opc_inlined_enter, opc_inlined_exit}

-- `inlined_enter` and `inlined_exit` stand like brackets.
pub data Nested : List PcEntry → Type 0 where
  done : Nested []
  plain :
      (e : PcEntry) {es : List PcEntry}
      → e.opcode ≢ opc_inlined_enter
      → e.opcode ≢ opc_inlined_exit
      → Nested es
      → Nested (e ∷ es)
  group :
      (enter exit : PcEntry) {body es : List PcEntry}
      → enter.opcode ≡ opc_inlined_enter
      → exit.opcode ≡ opc_inlined_exit
      → Nested body
      → Nested es
      → Nested (enter ∷ (body ++ (exit ∷ es)))

-- The byte code offsets of the method itself ascend from `lo` on; those of inlined code are free.
abbrev pub OuterAscends : {es : List PcEntry} → Nested es → ℤ → Type 0
OuterAscends done lo = Unit {0}
OuterAscends (plain e ne ne' rest) lo = (lo ≤ℤ e.byteoff) × OuterAscends rest e.byteoff
OuterAscends (group enter exit e e' body rest) lo =
    (lo ≤ℤ enter.byteoff) × OuterAscends rest enter.byteoff

abbrev lock : ℤ → PcEntry → PcEntry
lock locked e = record e { increasing_byteoff = locked }

with_increasing-locked : (e : PcEntry) (a : ℤ) → pos 0 ≤ℤ a → with_increasing e a ≡ lock a e
with_increasing-locked e a h = let same : ltb_ℤ a (pos 0) ≡ false = ground arith in rw same

-- One round, by the kind of the instruction.
round_plain :
    (e : PcEntry) (es : List PcEntry) (locked count : ℤ)
    → e.opcode ≢ opc_inlined_enter
    → e.opcode ≢ opc_inlined_exit
    → increasing_loop (e ∷ es) locked count
      ≡ with_increasing e locked ∷ increasing_loop es locked count
unfolding increasing_loop
round_plain e es locked count ne ne' =
    let same : next_locked e locked count ≡ locked = ground arith in
    let same' : next_count e count ≡ count = ground arith in rw (same, same')

round_enter :
    (e : PcEntry) (es : List PcEntry) (a : ℤ) (depth : ℕ)
    → pos 0 ≤ℤ a
    → e.opcode ≡ opc_inlined_enter
    → increasing_loop (e ∷ es) a (pos (suc depth))
      ≡ lock a e ∷ increasing_loop es a (pos (suc (suc depth)))
unfolding increasing_loop ◌+ℤ◌
round_enter e es a depth h0 h =
    let same : next_locked e a (pos (suc depth)) ≡ a = ground arith in
    let more : next_count e (pos (suc depth)) ≡ pos (suc (suc depth)) = ground arith in
    rw (same, more, with_increasing-locked e a h0)

round_exit :
    (e : PcEntry) (es : List PcEntry) (a : ℤ) (depth : ℕ)
    → pos 0 ≤ℤ a
    → e.opcode ≡ opc_inlined_exit
    → increasing_loop (e ∷ es) a (pos (suc (suc depth)))
      ≡ lock a e ∷ increasing_loop es a (pos (suc depth))
unfolding increasing_loop ◌+ℤ◌
round_exit e es a depth h0 h =
    let same : next_locked e a (pos (suc (suc depth))) ≡ a = ground arith in
    let less : next_count e (pos (suc (suc depth))) ≡ pos (suc depth) = ground arith in
    rw (same, less, with_increasing-locked e a h0)

round_enter_outer :
    (e : PcEntry) (es : List PcEntry)
    → e.opcode ≡ opc_inlined_enter
    → increasing_loop (e ∷ es) (negsuc 0) (pos 0)
      ≡ lock e.byteoff e ∷ increasing_loop es e.byteoff (pos 1)
unfolding increasing_loop ◌+ℤ◌
round_enter_outer e es h =
    let same : next_locked e (negsuc 0) (pos 0) ≡ e.byteoff = ground arith in
    let more : next_count e (pos 0) ≡ pos 1 = ground arith in rw (same, more)

round_exit_outer :
    (e : PcEntry) (es : List PcEntry) (a : ℤ)
    → pos 0 ≤ℤ a
    → e.opcode ≡ opc_inlined_exit
    → increasing_loop (e ∷ es) a (pos 1) ≡ lock a e ∷ set_increasing es
unfolding increasing_loop set_increasing ◌+ℤ◌
round_exit_outer e es a h0 h =
    let same : next_locked e a (pos 1) ≡ negsuc 0 = ground arith in
    let less : next_count e (pos 1) ≡ pos 0 = ground arith in
    rw (same, less, with_increasing-locked e a h0)

-- Inside inlined code the offset stays that of the invocation.
increasing_loop_locked :
    {es : List PcEntry} (n : Nested es) (rest : List PcEntry) (a : ℤ) (depth : ℕ)
    → pos 0 ≤ℤ a
    → increasing_loop (es ++ rest) a (pos (suc depth))
      ≡ map (lock a) es ++ increasing_loop rest a (pos (suc depth))
increasing_loop_locked done rest a depth h0 = refl
increasing_loop_locked (plain e {es = es} ne ne' n) rest a depth h0 =
    round_plain e (es ++ rest) a (pos (suc depth)) ne ne'
    ∙ ap (λ e'. e' ∷ increasing_loop (es ++ rest) a (pos (suc depth)))
        (with_increasing-locked e a h0)
    ∙ ap (◌∷◌ (lock a e)) (increasing_loop_locked n rest a depth h0)
increasing_loop_locked (group enter exit {body = body} {es = es} h h' n n') rest a depth h0 =
    rw (append_assoc body (exit ∷ es) rest, map-append (lock a) body (exit ∷ es))
      (round_enter enter (body ++ (exit ∷ (es ++ rest))) a depth h0 h
        ∙ ap (◌∷◌ (lock a enter)) (
            increasing_loop_locked n (exit ∷ (es ++ rest)) a (suc depth) h0
            ∙ ap (◌++◌ (map (lock a) body)) (
                round_exit exit (es ++ rest) a depth h0 h'
                ∙ ap (◌∷◌ (lock a exit)) (increasing_loop_locked n' rest a depth h0))
            ∙ sym (
                append_assoc (map (lock a) body) (lock a exit ∷ map (lock a) es)
                  (increasing_loop rest a (pos (suc depth))))))

-- Entries locked to one offset, before entries from that offset on.
locked-Ascends :
    (a : ℤ) (es rest : List PcEntry)
    → AllAbove a rest
    → Ascends rest
    → AllAbove a (map (lock a) es ++ rest) × Ascends (map (lock a) es ++ rest)
locked-Ascends a [] rest all up = (all, up)
locked-Ascends a (e ∷ es) rest all up =
    let (all', up') = locked-Ascends a es rest all up in ((omega arith, all'), (all', up'))

set_increasing-group :
    (enter exit : PcEntry) {body : List PcEntry} (es : List PcEntry) (n : Nested body)
    → enter.opcode ≡ opc_inlined_enter
    → exit.opcode ≡ opc_inlined_exit
    → pos 0 ≤ℤ enter.byteoff
    → set_increasing (enter ∷ (body ++ (exit ∷ es)))
      ≡ map (lock enter.byteoff) (enter ∷ (body ++ exit ∷ [])) ++ set_increasing es
unfolding set_increasing
set_increasing-group enter exit {body = body} es n h h' h0 =
    let a = enter.byteoff in
    rw
      (
        map-append (lock a) body (exit ∷ []),
        append_assoc (map (lock a) body) (lock a exit ∷ []) (set_increasing es),
      )
      (round_enter_outer enter (body ++ (exit ∷ es)) h
        ∙ ap (◌∷◌ (lock a enter)) (
            increasing_loop_locked n (exit ∷ es) a 0 h0
            ∙ ap (◌++◌ (map (lock a) body)) (round_exit_outer exit es a h0 h')))

set_increasing-nil : set_increasing [] ≡ []
unfolding set_increasing increasing_loop
set_increasing-nil = refl

set_increasing-plain :
    (e : PcEntry) (es : List PcEntry)
    → e.opcode ≢ opc_inlined_enter
    → e.opcode ≢ opc_inlined_exit
    → set_increasing (e ∷ es) ≡ lock e.byteoff e ∷ set_increasing es
unfolding set_increasing
set_increasing-plain e es ne ne' = round_plain e es (negsuc 0) (pos 0) ne ne'

set_increasing-Ascends :
    {es : List PcEntry} (n : Nested es) (lo : ℤ)
    → pos 0 ≤ℤ lo
    → OuterAscends n lo
    → AllAbove lo (set_increasing es) × Ascends (set_increasing es)
set_increasing-Ascends done lo h up = rw set_increasing-nil (tt, tt)
set_increasing-Ascends (plain e {es = es} ne ne' n) lo h up =
    let (all, up') = set_increasing-Ascends n e.byteoff (omega (arith, up.0)) up.1 in
    rw (set_increasing-plain e es ne ne')
      ((up.0, AllAbove-le lo e.byteoff (set_increasing es) up.0 all), (all, up'))
set_increasing-Ascends (group enter exit {body = body} {es = es} h h' n n') lo h0 up =
    let (all, up') = set_increasing-Ascends n' enter.byteoff (omega (arith, up.0)) up.1 in
    let (all', up'') =
      locked-Ascends enter.byteoff (enter ∷ (body ++ exit ∷ [])) (set_increasing es) all up' in
    rw (set_increasing-group enter exit es n h h' (omega (arith, up.0))) (
      AllAbove-le lo enter.byteoff
          (map (lock enter.byteoff) (enter ∷ (body ++ exit ∷ [])) ++ set_increasing es) up.0 all',
      up'',
    )

-- In a table whose inlined code nests well, and in which the byte code offsets outside inlined code
-- ascend from 0 on, the pass leaves offsets in ascending order over the whole table, which is what
-- the search by program counter needs. The byte code offsets inside inlined code are free: they belong
-- to other methods.
pub set_increasing-IsSorted :
    {es : List PcEntry} (n : Nested es)
    → OuterAscends n (pos 0)
    → IsSorted (set_increasing es) (length (set_increasing es))
set_increasing-IsSorted {es = es} n up =
    Ascends-IsSorted (set_increasing es) (length (set_increasing es))
      (set_increasing-Ascends n (pos 0) (omega arith) up).1 (omega arith)
