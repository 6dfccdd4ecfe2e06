-- ===== src/PcTable/Search.antt =====
-- pctableGetByPC: what the binary search finds in a table that is sorted by increasing_byteoff, and
-- what it does when the offset is not there.
use shujit.Base.{
  ℕ, zero, suc, ◌+◌, ◌-◌, ◌/◌, ◌≤◌, ◌<◌, ◌≡◌, refl, ◌≢◌, Bool-cases, inl, inr, List, ℤ, ◌≤ℤ◌, ◌<ℤ◌,
  ltb_ℤ, eqb_ℤ, eqb_ℤ_iff, ◌==◌, length, get_or, get_elem?-eq-get_or, get_elem?-none, ap, ◌∙◌,
  arith, true, false, if◌then◌else◌,
}
use shujit.PcEntry.{PcEntry}
use shujit.PcTable.{
  PcTable, no_entry, found, null, fault, first_of_run, search_pc, pctable_get_by_pc,
}
use shujit.PcTable.Inv.{IsValid}

-- The offset that the search compares at an index.
abbrev pub key : List PcEntry → ℕ → ℤ
key xs i = (get_or xs i no_entry).increasing_byteoff

abbrev pub IsSorted : List PcEntry → ℕ → Type 0
IsSorted xs n = (i j : ℕ) → i ≤ j → j < n → key xs i ≤ℤ key xs j

-- `k` is the first of the `n` entries with this offset.
pub record IsFirst (xs : List PcEntry) (byteoff : ℤ) (n k : ℕ) : Type 0 where
  pub inside : k < n
  pub holds : key xs k ≡ byteoff
  pub least : (j : ℕ) → j < k → key xs j ≢ byteoff

module _ (xs : List PcEntry) (byteoff : ℤ) (n : ℕ) where
  first_of_run-IsFirst :
      (index : ℕ)
      → IsSorted xs n
      → index < n
      → key xs index ≡ byteoff
      → IsFirst xs byteoff n (first_of_run xs byteoff index)
  unfolding first_of_run
  first_of_run-IsFirst zero sorted h e = record {
    inside = h;
    holds = e;
    least = λ j p. absurd (omega arith);
  }
  first_of_run-IsFirst (suc index) sorted h e = elim (Bool-cases (eqb_ℤ (key xs index) byteoff)) [
    | inl more ↦ rw more (
        first_of_run-IsFirst index sorted (omega arith) ((eqb_ℤ_iff (key xs index) byteoff).0 more))
    | inr stop ↦ rw stop (record {
      inside = h;
      holds = e;
      least = λ j p q. absurd (
          ground (
            arith,
            sorted j index (omega arith) (omega arith),
            sorted index (suc index) (omega arith) h,
          ));
    })
  ]

  -- A round of the search whose slot is allocated.
  search_pc_round :
      (fuel l h : ℕ)
      → l + (h - l) / 2 < length xs
      → let index = l + (h - l) / 2 in
        search_pc xs byteoff (suc fuel) l h ≡ (
          if eqb_ℤ (key xs index) byteoff
          then found (first_of_run xs byteoff index)
          else if l == h
          then null
          else if ltb_ℤ (key xs index) byteoff
          then search_pc xs byteoff fuel (index + 1) h
          else search_pc xs byteoff fuel l index)
  unfolding search_pc
  search_pc_round fuel l h fits =
      rw (search_pc, get_elem?-eq-get_or xs (l + (h - l) / 2) no_entry fits)

  -- The search finds an offset that is between `l` and `h`.
  search_pc-IsFirst :
      (fuel l h t : ℕ)
      → IsSorted xs n
      → n ≤ length xs
      → h ≤ n
      → l ≤ t
      → t < h
      → key xs t ≡ byteoff
      → h - l < fuel
      → (k : ℕ) × (search_pc xs byteoff fuel l h ≡ found k) × IsFirst xs byteoff n k
  search_pc-IsFirst zero l h t sorted fits hn lt th e f = absurd (omega arith)
  search_pc-IsFirst (suc fuel) l h t sorted fits hn lt th e f =
      let index = l + (h - l) / 2 in
      let low : index < h = omega arith in
      let differ : (l == h) ≡ false = ground arith in
      rw (search_pc_round fuel l h (omega arith))
        (elim (Bool-cases (eqb_ℤ (key xs index) byteoff)) [
          | inl hit ↦ rw hit (
            first_of_run xs byteoff index,
            refl,
            first_of_run-IsFirst index sorted (omega arith)
                ((eqb_ℤ_iff (key xs index) byteoff).0 hit),
          )
          | inr miss ↦ elim (Bool-cases (ltb_ℤ (key xs index) byteoff)) [
            | inl less ↦
                rw (miss, differ, less)
                  (search_pc-IsFirst fuel (index + 1) h t sorted fits hn
                    (ground (arith, sorted t index)) th e (omega arith))
            | inr more ↦
                rw (miss, differ, more)
                  (search_pc-IsFirst fuel l index t sorted fits (omega arith) lt
                    (ground (arith, sorted index t)) e (omega arith))
          ]
        ])

  -- The search for an offset that no slot up to `n` has ends, with no entry.
  search_pc-null :
      (fuel l h : ℕ)
      → n < length xs
      → ((i : ℕ) → i ≤ n → key xs i ≢ byteoff)
      → l ≤ h
      → h ≤ n
      → h - l < fuel
      → search_pc xs byteoff fuel l h ≡ null
  search_pc-null zero l h fits absent lh hn f = absurd (omega arith)
  search_pc-null (suc fuel) l h fits absent lh hn f =
      let index = l + (h - l) / 2 in
      let miss : eqb_ℤ (key xs index) byteoff ≡ false =
        ground (arith, absent index (omega arith), eqb_ℤ_iff (key xs index) byteoff) in
      rw (search_pc_round fuel l h (omega arith), miss)
        (elim (Bool-cases (l == h)) [
          | inl same ↦ rw same
          | inr differ ↦
              let small : index < h = ground arith in
              elim (Bool-cases (ltb_ℤ (key xs index) byteoff)) [
                | inl less ↦
                    rw (differ, less)
                      (search_pc-null fuel (index + 1) h fits absent (omega arith) hn (omega arith))
                | inr more ↦
                    rw (differ, more)
                      (search_pc-null fuel l index fits absent (omega arith) (omega arith)
                        (omega arith))
              ]
        ])

  -- A search that has come to the slot behind the entries.
  search_pc-fault : (fuel : ℕ) → n ≡ length xs → search_pc xs byteoff (suc fuel) n n ≡ fault
  unfolding search_pc
  search_pc-fault fuel e =
      let here : n + (n - n) / 2 ≡ n = omega arith in
      rw (search_pc, here, get_elem?-none xs n (omega arith))

  first_of_run_above :
      (m : ℕ) → ((i : ℕ) → i < m → key xs i <ℤ byteoff) → first_of_run xs byteoff m ≡ m
  unfolding first_of_run
  first_of_run_above zero above = refl
  first_of_run_above (suc m) above =
      let miss : eqb_ℤ (key xs m) byteoff ≡ false = ground (arith, above m (omega arith)) in rw miss

  search_pc-stale :
      (fuel : ℕ)
      → n < length xs
      → ((i : ℕ) → i < n → key xs i <ℤ byteoff)
      → key xs n ≡ byteoff
      → search_pc xs byteoff (suc fuel) n n ≡ found n
  search_pc-stale fuel h above e =
      let here : n + (n - n) / 2 ≡ n = omega arith in
      let hit : eqb_ℤ (key xs n) byteoff ≡ true = (eqb_ℤ_iff (key xs n) byteoff).1 e in
      search_pc_round fuel n n (omega arith)
      ∙ rw (here, hit) (ap found (first_of_run_above n above))

  -- The search for an offset above those of all entries comes to the slot behind them.
  search_pc-above :
      (fuel l : ℕ)
      → n ≤ length xs
      → ((i : ℕ) → i < n → key xs i <ℤ byteoff)
      → l ≤ n
      → n - l < fuel
      → (f : ℕ) × (search_pc xs byteoff fuel l n ≡ search_pc xs byteoff (suc f) n n)
  search_pc-above zero l fits above ln f = absurd (omega arith)
  search_pc-above (suc fuel) l fits above ln f = elim (Bool-cases (l == n)) [
    | inl same ↦ let e : l ≡ n = ground arith in (fuel, rw e refl)
    | inr differ ↦
        let index = l + (n - l) / 2 in
        let small : index < n = ground arith in
        let miss : eqb_ℤ (key xs index) byteoff ≡ false = ground (arith, above index small) in
        let less : ltb_ℤ (key xs index) byteoff ≡ true = ground (arith, above index small) in
        rw (search_pc_round fuel l n (omega arith), miss, differ, less)
          (search_pc-above fuel (index + 1) fits above (omega arith) (omega arith))
  ]

module _ (t : PcTable) (v : IsValid t) (byteoff : ℤ) where
  -- In a valid table sorted by increasing_byteoff, the search for an offset that some entry has ends
  -- and returns the index of the first entry with that offset.
  pub pctable_get_by_pc-IsFirst :
      (i : ℕ)
      → IsSorted t.entries t.len
      → i < t.len
      → key t.entries i ≡ byteoff
      → (k : ℕ) × (pctable_get_by_pc t byteoff ≡ found k) × IsFirst t.entries byteoff t.len k
  unfolding pctable_get_by_pc
  pctable_get_by_pc-IsFirst i sorted h e =
      search_pc-IsFirst t.entries byteoff t.len (suc t.len) 0 t.len i sorted
        (omega (arith, v.block)) (omega arith) (omega arith) h e (omega arith)

  -- The search for an offset that neither an entry nor the first unused slot has ends with no
  -- entry, sorted table or not, if the table has an unused slot.
  pctable_get_by_pc-null :
      t.len < t.size
      → ((i : ℕ) → i ≤ t.len → key t.entries i ≢ byteoff)
      → pctable_get_by_pc t byteoff ≡ null
  unfolding pctable_get_by_pc
  pctable_get_by_pc-null room absent =
      search_pc-null t.entries byteoff t.len (suc t.len) 0 t.len (omega (arith, v.block)) absent
        (omega arith) (omega arith) (omega arith)

  -- In a full table, the search for an offset above those of all entries reads the slot behind the
  -- last entry, which is outside the block.
  pub pctable_get_by_pc_above :
      ((i : ℕ) → i < t.len → key t.entries i <ℤ byteoff)
      → t.len ≡ t.size
      → pctable_get_by_pc t byteoff ≡ fault
  unfolding pctable_get_by_pc
  pctable_get_by_pc_above above full =
      let (fuel, e) =
        search_pc-above t.entries byteoff t.len (suc t.len) 0 (omega (arith, v.block)) above
          (omega arith) (omega arith) in
      e ∙ search_pc-fault t.entries byteoff t.len fuel (omega (arith, v.block))

  -- In a table with free slots, the search for an offset above those of all entries reads the first
  -- free slot, and if that still holds the offset, returns its index as the place of an entry.
  pctable_get_by_pc_stale :
      ((i : ℕ) → i < t.len → key t.entries i <ℤ byteoff)
      → t.len < t.size
      → key t.entries t.len ≡ byteoff
      → pctable_get_by_pc t byteoff ≡ found t.len
  unfolding pctable_get_by_pc
  pctable_get_by_pc_stale above room stale =
      let (fuel, e) =
        search_pc-above t.entries byteoff t.len (suc t.len) 0 (omega (arith, v.block)) above
          (omega arith) (omega arith) in
      e ∙ search_pc-stale t.entries byteoff t.len fuel (omega (arith, v.block)) above stale
