-- ===== src/DynamicConstants/Stays.antt =====
-- What resolveDynamicConstants leaves alone.
use shujit.Base.{
  ℕ, zero, suc, ◌+◌, ◌%◌, ◌^◌, ◌≤◌, ◌<◌, ◌≡◌, refl, ◌∙◌, ◌⊎◌, inl, List, [], ◌∷◌, Option, none,
  some, ◌>>=◌, either_branch, ◌||◌, ◌==◌, ℤ, pos_part, bits32, length, get_elem?,
  get_elem?-write_at, length-write_at_le, write_at, arith,
}
use shujit.Stack.{push_to_stack}
use shujit.PcEntry.{PcEntry, state}
use shujit.Jump.{le_bytes}
use shujit.Opcode.{opc_ldc, opc_ldc_w, opc_ldc_quick, opc_ldc_w_quick, opc_multianewarray}
use shujit.Translate.Bytes.{byte_at, get_int32, aligned}
use shujit.WriteCode.Machine.{Templates, Pools, Memory, ResolvedEntries}
use shujit.WriteCode.Constants.{word_constants, field_constants, method_constants}
use shujit.DynamicConstants.Kinds.{
  Link, own_class, string_constant, table_switch, lookup_switch, static_field, static_quick,
  dispatched, direct_method, interface_method, class_operand, array_class, enter, exit, nothing,
  link_of,
}
use shujit.DynamicConstants.Steps.{
  Addresses, Linking, Linked, linked, failed, LinkEnd, all_linked, link_failed, link_fault,
  class_constants, word_at, relocate, rows_of_table, put_word, resolve_first, link_string,
  link_table, link_lookup, link_class, set_interface, leave_inlined, link, link_entries,
  resolve_dynamic_constants,
}

-- The table of a switch is behind the byte at `k`.
abbrev pub IsBeforeTable : Link → PcEntry → ℕ → Type 0
IsBeforeTable table_switch e k = k < bits32 e.operand
IsBeforeTable lookup_switch e k = k < bits32 e.operand
IsBeforeTable own_class e k = Unit {0}
IsBeforeTable string_constant e k = Unit {0}
IsBeforeTable static_field e k = Unit {0}
IsBeforeTable static_quick e k = Unit {0}
IsBeforeTable dispatched e k = Unit {0}
IsBeforeTable direct_method e k = Unit {0}
IsBeforeTable interface_method e k = Unit {0}
IsBeforeTable (class_operand opcode) e k = Unit {0}
IsBeforeTable array_class e k = Unit {0}
IsBeforeTable enter e k = Unit {0}
IsBeforeTable exit e k = Unit {0}
IsBeforeTable nothing e k = Unit {0}

-- The byte at `k` is in none of the two places for constants of the entry, and not in a table of it.
abbrev pub IsOutside : ℕ → ℕ → Type 0
IsOutside place k = (k < place) ⊎ (place + 4 ≤ k)

pub record IsAway (t : Templates) (k : ℕ) (e : PcEntry) : Type 0 where
  pub first : IsOutside (e.nativeoff + t.constant_at e.opcode (state e) 0) k
  pub second : IsOutside (e.nativeoff + t.constant_at e.opcode (state e) 1) k
  pub table : IsBeforeTable (link_of e.opcode) e k

abbrev pub AllAway : Templates → ℕ → List PcEntry → Type 0
AllAway t k [] = Unit {0}
AllAway t k (e ∷ entries) = IsAway t k e × AllAway t k entries

module _ (k : ℕ) (was : Option ℕ) where
  -- The byte at `k` is in the code, and is what it was.
  abbrev pub StaysIn : List ℕ → Type 0
  StaysIn code = (k < length code) × (get_elem? code k ≡ was)

  abbrev StaysBy : Linked → Type 0
  StaysBy (linked s) = StaysIn s.code
  StaysBy (failed s) = StaysIn s.code

  abbrev StaysIf : Option Linked → Type 0
  StaysIf none = Unit {0}
  StaysIf (some r) = StaysBy r

  abbrev pub StaysAt : LinkEnd → Type 0
  StaysAt (all_linked s) = StaysIn s.code
  StaysAt (link_failed s) = StaysIn s.code
  StaysAt link_fault = Unit {0}

  StaysIf-bind :
      {A : Type 0} (o : Option A) (f : A → Option Linked)
      → ((x : A) → StaysIf (f x))
      → StaysIf (o >>= f)
  StaysIf-bind none f h = tt
  StaysIf-bind (some x) f h = h x

  StaysBy-resolve :
      (s : Linking) (o : Option ResolvedEntries) (f : ResolvedEntries → Linked)
      → StaysIn s.code
      → ((x : ResolvedEntries) → StaysBy (f x))
      → StaysBy (elim o as (λ r. Linked) [ none ↦ failed s | some x ↦ f x ])
  StaysBy-resolve s none f q h = q
  StaysBy-resolve s (some x) f q h = h x

  write_at-StaysIn :
      (at : ℕ) (bytes code : List ℕ)
      → (k < at) ⊎ (at + length bytes ≤ k)
      → StaysIn code
      → StaysIn (write_at at bytes code)
  write_at-StaysIn at bytes code away q = (
    omega (arith, q.0, length-write_at_le at bytes code),
    get_elem?-write_at at bytes code k q.0 away ∙ q.1,
  )

  relocate-StaysIn :
      (assembled stride rows at : ℕ) (code : List ℕ)
      → k < at
      → StaysIn code
      → StaysIn (relocate assembled stride rows at code)
  unfolding relocate
  relocate-StaysIn assembled stride zero at code h q = q
  relocate-StaysIn assembled stride (suc rows) at code h q =
      relocate-StaysIn assembled stride rows (at + stride) _ (omega arith)
        (write_at-StaysIn at (le_bytes ((word_at code at + assembled) % 2 ^ 32)) code (inl h) q)

  module _ (mem : Memory) (t : Templates) (p : Pools) (a : Addresses) where
    module _ (e : PcEntry) where
      resolve_first-Stays :
          (mask : ℕ) (s : Linking) (cont : Linking → Linked)
          → StaysIn s.code
          → ((s' : Linking) → StaysIn s'.code → StaysBy (cont s'))
          → StaysBy (resolve_first mem t p a e mask s cont)
      unfolding resolve_first
      resolve_first-Stays mask s cont q h =
          either_branch StaysBy (s.resolved s.mb e.operand) (h s q) (
            StaysBy-resolve s (p.resolve s.mb e.operand mask s.resolved)
              (λ r. cont (record s { resolved = r })) q (λ r. h (record s { resolved = r }) q))

      module _ (away : IsAway t k e) where
        put_first :
            (w : ℕ) (s : Linking) → StaysIn s.code → StaysIn (put_word mem t p a e 0 w s).code
        unfolding put_word
        put_first w s q =
            write_at-StaysIn (e.nativeoff + t.constant_at e.opcode (state e) 0) (le_bytes w) s.code
              away.first q

        put_second :
            (w : ℕ) (s : Linking) → StaysIn s.code → StaysIn (put_word mem t p a e 1 w s).code
        unfolding put_word
        put_second w s q =
            write_at-StaysIn (e.nativeoff + t.constant_at e.opcode (state e) 1) (le_bytes w) s.code
              away.second q

        set_interface-Stays : (s : Linking) → StaysIn s.code → StaysBy (set_interface mem t p a e s)
        unfolding set_interface
        set_interface-Stays s q =
            put_second (bits32 (p.pool_method s.mb e.operand))
              (put_word mem t p a e 0 (address s) s) (put_first (address s) s q)
          where
            address : Linking → ℕ
            address s = (a.code_at s.mb + bits32 e.byteoff + 4) % 2 ^ 32

        link_string-Stays : (s : Linking) → StaysIn s.code → StaysBy (link_string mem t p a e s)
        unfolding link_string
        link_string-Stays s q =
            either_branch StaysBy (p.pool_string s.mb e.operand)
              (put_first (p.pool_word s.mb e.operand) s q) q

        link_class-Stays :
            (original place : ℕ) (s : Linking)
            → ((w : ℕ) (s' : Linking)
                → StaysIn s'.code
                → StaysIn (put_word mem t p a e place w s').code)
            → StaysIn s.code
            → StaysIf (link_class mem t p a e original place s)
        unfolding link_class
        link_class-Stays resolved_for place s put q =
            StaysIf-bind (byte_at (p.code s.mb) e.byteoff 0) _ (λ original.
              either_branch StaysBy (original == resolved_for)
                (resolve_first-Stays class_constants s
                  (λ s'. linked (put_word mem t p a e place (p.pool_class s'.mb e.operand) s')) q
                  (λ s' q'. put (p.pool_class s'.mb e.operand) s' q'))
                (put (p.pool_class s.mb e.operand) s q))

        -- Every case of the switch.
        link-Stays :
            (kind : Link) (s : Linking)
            → IsBeforeTable kind e k
            → StaysIn s.code
            → StaysIf (link mem t p a e kind s)
        unfolding link link_table link_lookup leave_inlined
        link-Stays own_class s h q = put_first (p.class_of s.mb) s q
        link-Stays string_constant s h q =
            StaysIf-bind (byte_at (p.code s.mb) e.byteoff 0) _ (λ original.
              either_branch StaysBy
                (original == opc_ldc
                  || (original == opc_ldc_w
                      || (original == opc_ldc_quick || original == opc_ldc_w_quick)))
                (resolve_first-Stays word_constants s (link_string mem t p a e) q link_string-Stays)
                q)
        link-Stays table_switch s h q =
            StaysIf-bind (get_int32 (p.code s.mb) e.byteoff (aligned (pos_part e.byteoff) + 4)) _
              (λ l.
                StaysIf-bind (get_int32 (p.code s.mb) e.byteoff (aligned (pos_part e.byteoff) + 8))
                  _
                  (λ n.
                    relocate-StaysIn a.assembled 8 (rows_of_table l n) (bits32 e.operand + 4) s.code
                      (omega arith) q))
        link-Stays lookup_switch s h q =
            StaysIf-bind (get_int32 (p.code s.mb) e.byteoff (aligned (pos_part e.byteoff) + 4)) _
              (λ n.
                relocate-StaysIn a.assembled 12 (suc (pos_part n)) (bits32 e.operand + 8) s.code
                  (omega arith) q)
        link-Stays static_field s h q =
            resolve_first-Stays field_constants s
              (λ s'. linked (put_word mem t p a e 0 (a.static_address s'.mb e.operand) s')) q
              (λ s' q'. put_first (a.static_address s'.mb e.operand) s' q')
        link-Stays static_quick s h q = put_first (a.static_address s.mb e.operand) s q
        link-Stays dispatched s h q = resolve_first-Stays method_constants s linked q (λ s' q'. q')
        link-Stays direct_method s h q =
            resolve_first-Stays method_constants s
              (λ s'. linked (put_word mem t p a e 0 (bits32 (p.pool_method s'.mb e.operand)) s')) q
              (λ s' q'. put_first (bits32 (p.pool_method s'.mb e.operand)) s' q')
        link-Stays interface_method s h q =
            resolve_first-Stays method_constants s (set_interface mem t p a e) q set_interface-Stays
        link-Stays (class_operand original) s h q = link_class-Stays original 0 s put_first q
        link-Stays array_class s h q = link_class-Stays opc_multianewarray 1 s put_second q
        link-Stays enter s h q =
            resolve_first-Stays method_constants
              (record s { stack = push_to_stack mem.elems s.stack s.mb })
              (λ s'. linked (record s' { mb = p.pool_method s'.mb e.operand })) q (λ s' q'. q')
        link-Stays exit s h q = q
        link-Stays nothing s h q = q

    after_link-StaysAt :
        (r : Option Linked) (f : Linking → LinkEnd)
        → StaysIf r
        → ((s : Linking) → StaysIn s.code → StaysAt (f s))
        → StaysAt (elim r as (λ r. LinkEnd) [
          | none ↦ link_fault
          | some (failed s') ↦ link_failed s'
          | some (linked s') ↦ f s'
        ])
    after_link-StaysAt none f q h = tt
    after_link-StaysAt (some (failed s)) f q h = q
    after_link-StaysAt (some (linked s)) f q h = h s q

    link_entries-StaysAt :
        (entries : List PcEntry) (s : Linking)
        → AllAway t k entries
        → StaysIn s.code
        → StaysAt (link_entries mem t p a entries s)
    unfolding link_entries
    link_entries-StaysAt [] s away q = q
    link_entries-StaysAt (e ∷ entries) s away q =
        after_link-StaysAt (link mem t p a e (link_of e.opcode) s) (link_entries mem t p a entries)
          (link-Stays e away.0 (link_of e.opcode) s away.0.table q)
          (λ s' q'. link_entries-StaysAt entries s' away.1 q')

module _ (mem : Memory) (t : Templates) (p : Pools) (a : Addresses) where
  -- A byte of the code that lies in no place for constants of an entry, and before the tables of all switches, is still
  -- in the code and is what it was when resolveDynamicConstants has come to its end, whether all constants were resolved
  -- or the resolution of one has failed. It may also end at a read outside the byte code.
  pub resolve_dynamic_constants-StaysAt :
      (k : ℕ) (mb : ℤ) (resolved : ResolvedEntries) (entries : List PcEntry) (code : List ℕ)
      → k < length code
      → AllAway t k entries
      → StaysAt k (get_elem? code k) (resolve_dynamic_constants mem t p a mb resolved entries code)
  unfolding resolve_dynamic_constants
  resolve_dynamic_constants-StaysAt k mb resolved entries code h away =
      link_entries-StaysAt k (get_elem? code k) mem t p a entries _ away (h, refl)
