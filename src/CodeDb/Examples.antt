-- ===== src/CodeDb/Examples.antt =====
-- Runs of the code data base, over an association list of keys and positions.
use shujit.Base.{
  ℕ, ◌≡◌, ◌≢◌, refl, ap, Bool, true, false, Bool-cases, inl, inr, ◌==◌, ◌&&◌, if◌then◌else◌, List,
  [], ◌∷◌, Option, none, some, negsuc, padded, get_or, arith,
}
use shujit.PcTable.{PcTable, no_entry}
use shujit.ThrowTable.{ThrowEntry, ThrowTable}
use shujit.CodeDb.{Dbm, Method, sig, CodeInfo, write_compiled_code, read_compiled_code}
use shujit.CodeDb.RoundTrip.{Writable, Saved, write_many, read_compiled_code-write_compiled_code}

abbrev same : List ℕ → List ℕ → Bool
same [] [] = true
same [] (b ∷ bs) = false
same (a ∷ xs) [] = false
same (a ∷ xs) (b ∷ bs) = (a == b) && same xs bs

same_refl : (xs : List ℕ) → same xs xs ≡ true
same_refl [] = refl
same_refl (a ∷ xs) = ground (arith, same_refl xs)

same_sound : (xs bs : List ℕ) → same xs bs ≡ true → xs ≡ bs
same_sound [] [] e = refl
same_sound [] (b ∷ bs) e = cc
same_sound (a ∷ xs) [] e = cc
same_sound (a ∷ xs) (b ∷ bs) e = ground (arith, same_sound xs bs)

abbrev lookup : List (List ℕ × ℕ) → List ℕ → Option ℕ
lookup [] key = none
lookup ((k, v) ∷ db) key = if same k key then some v else lookup db key

different : (key key' : List ℕ) → key ≢ key' → same key key' ≡ false
different key key' ne = elim (Bool-cases (same key key')) [
  | inl e ↦ absurd (ne (same_sound key key' e))
  | inr e ↦ e
]

abbrev assoc_list : Dbm
assoc_list = record {
  Db = List (List ℕ × ℕ);
  store = λ db key v. (key, v) ∷ db;
  fetch = lookup;
  fetch-store = λ db key v. rw (same_refl key);
  fetch-store_ne = λ db key key' v ne. rw (different key key' ne);
}

-- `A#f()V` and `A#g()V`
abbrev method : ℕ → Method
method name = record {
  class_name = b'A' ∷ [];
  name = name ∷ [];
  signature = b'(' ∷ b')' ∷ b'V' ∷ [];
}

abbrev table : PcTable
table = record {
  entries =
      record no_entry { opcode = 177; flag = 3; operand = negsuc 0; nativeoff = 300 }
      ∷ no_entry
      ∷ [];
  len = 1;
  size = 2;
  ninsn = 1;
}

abbrev throws : ThrowTable
throws = record {
  entries =
      record { start = 5; byteoff = 1; len = 2; patched_code = 0x90; cb = 0; opcode = 0 } ∷ [];
  len = 1;
  size = 1;
}

abbrev compiled : CodeInfo
compiled = record {
  code_size = 3;
  exc_handler_nativeoff = 2;
  finish_return_nativeoff = 1;
  throwtable = throws;
  compiled_code = 0x55 ∷ 0xc9 ∷ 0xc3 ∷ [];
}

abbrev no_code : CodeInfo
no_code = record {
  code_size = 0;
  exc_handler_nativeoff = 0;
  finish_return_nativeoff = 0;
  throwtable = record { entries = []; len = 0; size = 0 };
  compiled_code = [];
}

abbrev empty_table : PcTable
empty_table = record { entries = no_entry ∷ []; len = 0; size = 1; ninsn = 0 }

abbrev no_throw : ThrowEntry
no_throw = record { start = 0; byteoff = 0; len = 0; patched_code = 0; cb = 0; opcode = 0 }

compiled-Writable : Writable table compiled
compiled-Writable = record {
  valid = record { block = refl; inside = omega arith; some_room = omega arith };
  throws_valid = record { block = refl; inside = omega arith };
  entries_fit = (
    record {
      opcode_fits = omega arith;
      flag_fits = omega arith;
      operand_fits = omega arith;
      byteoff_fits = omega arith;
      increasing_byteoff_fits = omega arith;
      nativeoff_fits = omega arith;
    },
    tt,
  );
  throws_fit = (
    record {
      start_fits = omega arith;
      byteoff_fits = omega arith;
      len_fits = omega arith;
      patched_code_fits = omega arith;
      cb_fits = omega arith;
      opcode_fits = omega arith;
    },
    tt,
  );
  code_there = omega arith;
  code_size_fits = omega arith;
  len_fits = omega arith;
  throws_len_fits = omega arith;
  exc_handler_fits = omega arith;
  finish_return_fits = omega arith;
}

names_differ : sig (method b'g') ≢ sig (method b'f')
unfolding sig
names_differ = λ e. let h : b'g' ≡ b'f' = ap (λ l. get_or l 2 0) e in omega (arith, h)

read_compiled_code-write_compiled_code_example :
    let (db1, page1) = write_compiled_code assoc_list [] (7 ∷ []) (method b'f') table compiled in
    let (db2, page2) = write_many assoc_list db1 page1 ((method b'g', (table, no_code)) ∷ []) in
    (t2 : PcTable) × (info2 : CodeInfo) × (read_compiled_code assoc_list
        (padded no_entry)
        (padded no_throw)
        db2
        page2
        (method b'f')
        empty_table
        no_code
      ≡ some (some (t2, info2)))
    × Saved table compiled t2 info2
read_compiled_code-write_compiled_code_example =
    read_compiled_code-write_compiled_code (padded no_entry) (padded no_throw) assoc_list []
      (7 ∷ []) (method b'f') (method b'f') table empty_table compiled no_code
      ((method b'g', (table, no_code)) ∷ []) compiled-Writable
      (record { block = refl; inside = omega arith; some_room = omega arith })
      (record { block = refl; inside = omega arith }) (names_differ, tt) refl
