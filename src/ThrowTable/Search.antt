-- ===== src/ThrowTable/Search.antt =====
-- throwtableGet: what the search finds in a table whose ranges ascend and do not overlap.
use shujit.Base.{
  ℕ, zero, suc, ◌+◌, ◌-◌, ◌/◌, ◌^◌, ◌≤◌, ◌<◌, ◌≡◌, ap, ◌∙◌, false, Bool-cases, inl, inr, List, none,
  ltb, ◌==◌, if◌then◌else◌, length, get_or, get_elem?, get_elem?-eq-get_or, get_elem?-none, arith,
}
use shujit.ThrowTable.{
  ThrowEntry, ThrowTable, found, null, fault, covers, search_throw, throwtable_get,
}
use shujit.ThrowTable.Laws.{IsValid}

abbrev pub no_throw : ThrowEntry
no_throw = record { start = 0; byteoff = 0; len = 0; patched_code = 0; cb = 0; opcode = 0 }

abbrev pub entry : List ThrowEntry → ℕ → ThrowEntry
entry xs i = get_or xs i no_throw

-- Each range ends before the next begins, and no end wraps.
pub record IsSorted (xs : List ThrowEntry) (n : ℕ) : Type 0 where
  pub apart : (i j : ℕ) → i < j → j < n → (entry xs i).start + (entry xs i).len ≤ (entry xs j).start
  pub no_wrap : (i : ℕ) → i < n → (entry xs i).start + (entry xs i).len < 2 ^ 32

-- The offset lies in the range of the entry.
abbrev pub Covers : ThrowEntry → ℕ → Type 0
Covers e nativeoff = (e.start ≤ nativeoff) × (nativeoff < e.start + e.len)

module _ (xs : List ThrowEntry) (nativeoff n : ℕ) (sorted : IsSorted xs n) where
  search_round :
      (fuel l h : ℕ)
      → l + (h - l) / 2 < length xs
      → let index = l + (h - l) / 2 in
        search_throw xs nativeoff (suc fuel) l h ≡ (
          if covers (entry xs index) nativeoff
          then found index
          else if l == h
          then null
          else if ltb nativeoff (entry xs index).start
          then search_throw xs nativeoff fuel l index
          else search_throw xs nativeoff fuel (index + 1) h)
  unfolding search_throw
  search_round fuel l h fits =
      rw (search_throw, get_elem?-eq-get_or xs (l + (h - l) / 2) no_throw fits)

  search_throw_finds :
      (fuel l h t : ℕ)
      → n ≤ length xs
      → h ≤ n
      → l ≤ t
      → t < h
      → Covers (entry xs t) nativeoff
      → h - l < fuel
      → search_throw xs nativeoff fuel l h ≡ found t
  search_throw_finds zero l h t fits hn lt th c f = absurd (omega arith)
  search_throw_finds (suc fuel) l h t fits hn lt th c f =
      let index = l + (h - l) / 2 in
      let low : index < h = omega arith in
      let differ : (l == h) ≡ false = ground arith in
      search_round fuel l h (omega arith) ∙ elim (Bool-cases (covers (entry xs index) nativeoff)) [
        | inl hit ↦ rw hit (
            ap found
              (ground (arith, sorted.apart index t, sorted.apart t index, sorted.no_wrap index)))
        | inr miss ↦ elim (Bool-cases (ltb nativeoff (entry xs index).start)) [
          | inl less ↦
              rw (miss, differ, less)
                (search_throw_finds fuel l index t fits (omega arith) lt
                  (ground (arith, sorted.apart index t)) c (omega arith))
          | inr more ↦
              rw (miss, differ, more)
                (search_throw_finds fuel (index + 1) h t fits hn
                  (ground (arith, sorted.apart t index, sorted.no_wrap index, sorted.no_wrap t)) th
                  c (omega arith))
        ]
      ]

-- In a valid table whose ranges ascend and do not overlap, the search for an address in the range of
-- an entry ends and returns that entry.
pub throwtable_get_finds :
    (t : ThrowTable) (nativeoff i : ℕ)
    → IsValid t
    → IsSorted t.entries t.len
    → i < t.len
    → Covers (entry t.entries i) nativeoff
    → throwtable_get t nativeoff ≡ found i
unfolding throwtable_get
throwtable_get_finds t nativeoff i v sorted h c =
    search_throw_finds t.entries nativeoff t.len sorted (suc t.len) 0 t.len i
      (omega (arith, v.block, v.inside)) (omega arith) (omega arith) h c (omega arith)

-- In the table of a method that has no entry and no block, the search reads through the null pointer,
-- whatever the address.
pub throwtable_get_empty :
    (t : ThrowTable) (nativeoff : ℕ) → IsValid t → t.size ≡ 0 → throwtable_get t nativeoff ≡ fault
unfolding throwtable_get search_throw
throwtable_get_empty t nativeoff v e =
    let none_in : t.len ≡ 0 = omega (arith, v.inside) in
    let empty : get_elem? t.entries 0 ≡ none =
      get_elem?-none t.entries 0 (omega (arith, v.block)) in
    let here : 0 + (0 - 0) / 2 ≡ 0 = omega arith in rw (none_in, search_throw, empty)
