-- ===== src/WriteCode/Appends.antt =====
-- What the steps of the second half of a round append, and on which conditions the processor and the byte code jump.
use shujit.Base.{
  ℕ, ◌+◌, ◌-◌, ◌≤◌, ◌≡◌, ap, sym, ◌∙◌, List, [], ◌∷◌, ◌++◌, append_assoc, append-nil, Bool, false,
  not, some, some-injective, bind-some, subst, ◌==◌, if◌then◌else◌, length, length-append, ℤ,
  bits32, eqb_ℤ, ltb_ℤ, arith,
}
use shujit.PcTable.Inv as Pc
use shujit.JpTable.{JpEntry, jptable_add}
use shujit.JpTable.Laws as Jp
use shujit.Contexts.Output.{IsValid, written, write_to_buffer}
use shujit.Opcode.{
  opc_ifeq, opc_if_icmpeq, opc_ifne, opc_if_icmpne, opc_iflt, opc_if_icmplt, opc_ifge,
  opc_if_icmpge, opc_ifgt, opc_if_icmpgt, opc_ifle, opc_if_icmple,
}
use shujit.Translate.Bytes.{among}
use shujit.WriteCode.Machine.{Memory, Writing, write_bytes, register_jump}
use shujit.WriteCode.Branch.{conditions, append, append_jump}
use shujit.WriteCode.Grown.{write_to_buffer-some, jptable_add-some}

-- The processor's conditions behind a comparison of `a` with `b`, by their number: equal (4), less (12), less or equal
-- (14), and their opposites.
unfoldable pub processor_jumps : ℕ → ℤ → ℤ → Bool
processor_jumps c a b =
    if c == 4
    then eqb_ℤ a b
    else if c == 5
    then not (eqb_ℤ a b)
    else if c == 12
    then ltb_ℤ a b
    else if c == 13
    then not (ltb_ℤ a b)
    else if c == 14
    then not (ltb_ℤ b a)
    else if c == 15
    then ltb_ℤ b a
    else false

-- When the byte code jumps: `b` is 0 for the comparisons with 0.
unfoldable pub byte_code_jumps : ℕ → ℤ → ℤ → Bool
byte_code_jumps opcode a b =
    if among opcode (opc_ifeq ∷ opc_if_icmpeq ∷ [])
    then eqb_ℤ a b
    else if among opcode (opc_ifne ∷ opc_if_icmpne ∷ [])
    then not (eqb_ℤ a b)
    else if among opcode (opc_iflt ∷ opc_if_icmplt ∷ [])
    then ltb_ℤ a b
    else if among opcode (opc_ifge ∷ opc_if_icmpge ∷ [])
    then not (ltb_ℤ a b)
    else if among opcode (opc_ifgt ∷ opc_if_icmpgt ∷ [])
    then ltb_ℤ b a
    else if among opcode (opc_ifle ∷ opc_if_icmple ∷ [])
    then not (ltb_ℤ b a)
    else false

-- The number jumps when the byte code does, and the other one when it does not.
pub record Tests (opcode c r : ℕ) : Type 0 where
  pub taken : (a b : ℤ) → processor_jumps c a b ≡ byte_code_jumps opcode a b
  pub passed_over : (a b : ℤ) → processor_jumps r a b ≡ not (byte_code_jumps opcode a b)

pub conditions-Tests : (opcode c r : ℕ) → conditions opcode ≡ some (c, r) → Tests opcode c r
unfolding conditions processor_jumps byte_code_jumps
conditions-Tests opcode c r h = record {
  taken = λ a b. ground arith;
  passed_over = λ a b. ground arith;
}

-- A state at the end of the code that has been written, with valid tables.
pub record IsReady (s : Writing) : Type 0 where
  pub buffer : IsValid s.buffer
  pub jptable : Jp.IsValid s.jptable
  pub pctable : Pc.IsValid s.pctable
  pub at_end : s.nextoff ≡ s.buffer.offset

-- Bytes have been written behind those of before, and jumps have been registered behind those of before.
pub record Appends (s : Writing) (bytes : List ℕ) (js : List JpEntry) (s' : Writing) : Type 0 where
  pub ready : IsReady s'
  pub code : written s'.buffer ≡ written s.buffer ++ bytes
  pub jumps : Jp.view s'.jptable ≡ Jp.view s.jptable ++ js
  pub end_is : s'.buffer.offset ≡ s.buffer.offset + length bytes
  pub len_is : s.pctable.len ≤ s'.pctable.len

pub Appends-bytes :
    (s s1 s2 : Writing) (a b : List ℕ) (js : List JpEntry)
    → Appends s a [] s1
    → Appends s1 b js s2
    → Appends s (a ++ b) js s2
Appends-bytes s s1 s2 a b js p q = record {
  ready = q.ready;
  code = q.code ∙ ap (λ c. c ++ b) p.code ∙ append_assoc (written s.buffer) a b;
  jumps = q.jumps ∙ ap (λ t. t ++ js) (p.jumps ∙ append-nil (Jp.view s.jptable));
  end_is = omega (arith, q.end_is, p.end_is, length-append a b);
  len_is = omega (arith, p.len_is, q.len_is);
}

module _ (mem : Memory) where
  pub append-Appends :
      (bytes : List ℕ) (s s' : Writing)
      → IsReady s
      → append mem bytes s ≡ some s'
      → Appends s bytes [] s'
  unfolding append write_bytes
  append-Appends bytes s s' r k =
      let (s1, e1, k1) = bind-some (write_bytes mem s bytes) _ s' k in
      let (b, e2, k2) = bind-some (write_to_buffer mem.bytes s.buffer bytes) _ s1 e1 in
      let (v, w, n) = write_to_buffer-some mem.bytes s.buffer bytes b r.buffer e2 in
      let same : record s { buffer = b; nextoff = s.nextoff + length bytes } ≡ s' =
        ap (λ (x : Writing). record x { nextoff = x.nextoff + length bytes })
          (some-injective _ _ k2)
        ∙ some-injective _ _ k1 in
      subst (Appends s bytes []) same (record {
        ready = record {
          buffer = v;
          jptable = r.jptable;
          pctable = r.pctable;
          at_end = omega (arith, n, r.at_end);
        };
        code = w;
        jumps = sym (append-nil (Jp.view s.jptable));
        end_is = n;
        len_is = omega arith;
      })

  -- A jump with an empty operand, and its entry with the place of the operand.
  pub append_jump-Appends :
      (opcode : List ℕ) (tgtoff : ℤ) (s s' : Writing)
      → IsReady s
      → append_jump mem opcode tgtoff s ≡ some s'
      → Appends s
          (opcode ++ 0 ∷ 0 ∷ 0 ∷ 0 ∷ [])
          (record { tgtoff = bits32 tgtoff; argoff = s.buffer.offset + length opcode } ∷ [])
          s'
  unfolding append_jump register_jump
  append_jump-Appends opcode tgtoff s s' r k =
      let new = opcode ++ 0 ∷ 0 ∷ 0 ∷ 0 ∷ [] in
      let (s1, e1, k1) = bind-some (append mem new s) _ s' k in
      let a = append-Appends new s s1 r e1 in
      let (j, e2, k2) =
        bind-some (jptable_add mem.jpentries s1.jptable (bits32 tgtoff) (s1.nextoff - 4)) _ s' k1 in
      let (w, known) =
        jptable_add-some mem.jpentries s1.jptable (bits32 tgtoff) (s1.nextoff - 4) j a.ready.jptable
          e2 in
      let place : s1.nextoff - 4 ≡ s.buffer.offset + length opcode =
        omega (arith, a.ready.at_end, a.end_is, length-append opcode (0 ∷ 0 ∷ 0 ∷ 0 ∷ [])) in
      let js = λ (n : ℕ). record { tgtoff = bits32 tgtoff; argoff = n } ∷ [] in
      subst (Appends s new (js (s.buffer.offset + length opcode))) (some-injective _ _ k2) (record {
        ready = record {
          buffer = a.ready.buffer;
          jptable = w;
          pctable = a.ready.pctable;
          at_end = a.ready.at_end;
        };
        code = a.code;
        jumps =
            known
            ∙ ap (λ t. t ++ js (s1.nextoff - 4)) (a.jumps ∙ append-nil (Jp.view s.jptable))
            ∙ ap (λ n. Jp.view s.jptable ++ js n) place;
        end_is = a.end_is;
        len_is = a.len_is;
      })
