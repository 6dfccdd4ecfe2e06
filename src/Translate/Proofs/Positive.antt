-- ===== src/Translate/Proofs/Positive.antt =====
-- Which lengths of instructions lead forward.
use shujit.Base.{
  ℕ, zero, suc, ◌+◌, ◌<◌, ◌^◌, leb, false, ◌≢◌, arith, ltb, ◌==◌, ==_iff, ◌∙◌, ◌||◌, ◌&&◌,
  if◌then◌else◌, Bool, true, Bool-cases, ◌≡◌, refl, sym, List, [], ◌∷◌, Option, none, some,
  none-ne-some, ◌>>=◌, Option-cases, inl, inr, pos, get_elem?, either_branch,
}
use mathlib.Core.Bool.{true≢false}
use shujit.Opcode.{
  opc_xxxunusedxxx, opc_wide, opc_tableswitch, opc_lookupswitch, opc_iinc, opc_invokevirtual,
  opc_invokevirtual_quick_w, opc_invokespecial, opc_invokenonvirtual_quick, opc_invokesuper_quick,
  opc_invokestatic, opc_invokestatic_quick,
}
use shujit.Translate.Bytes.{among, byte_at, opcode_length, instruction_length}
use shujit.Translate.Invoke.{normalized}

-- Each length is positive, but for `xxxunusedxxx` and `wide`.
lengths_positive : ℕ → List ℕ → Bool
lengths_positive i [] = true
lengths_positive i (n ∷ ns) =
    ((ltb 0 n && ltb n (2 ^ 31)) || (i == opc_xxxunusedxxx || i == opc_wide))
    && lengths_positive (suc i) ns

length_positive :
    (ns : List ℕ) (i k n : ℕ)
    → lengths_positive i ns ≡ true
    → get_elem? ns k ≡ some n
    → i + k ≢ opc_xxxunusedxxx
    → i + k ≢ opc_wide
    → (0 < n) × (n < 2 ^ 31)
unfolding lengths_positive
length_positive [] i k n all e un wi = absurd (none-ne-some n e)
length_positive (m ∷ ns) i zero n all e un wi = ground arith
length_positive (m ∷ ns) i (suc k) n all e un wi =
    length_positive ns (suc i) k n (ground arith) e (λ h. un (omega (arith, h)))
      (λ h. wi (omega (arith, h)))

-- Where there is a number, it is a positive `int`.
unfoldable pub Positive : Option ℕ → Type 0
Positive none = Unit {0}
Positive (some n) = (0 < n) × (n < 2 ^ 31)

Positive-bind :
    {A : Type 0} (o : Option A) (f : A → Option ℕ) → ((a : A) → Positive (f a)) → Positive (o >>= f)
unfolding Positive
Positive-bind none f h = tt
Positive-bind (some a) f h = h a

listed_Positive :
    (opcode : ℕ)
    → opcode ≢ opc_xxxunusedxxx
    → opcode ≢ opc_wide
    → Positive (get_elem? opcode_length opcode)
unfolding lengths_positive Positive
listed_Positive opcode un wi = elim (Option-cases (get_elem? opcode_length opcode)) [
  | inl e ↦ rw e tt
  | inr (n, e) ↦ rw e (
      length_positive opcode_length 0 opcode n refl e (λ h. un (omega (arith, h)))
        (λ h. wi (omega (arith, h))))
]

wide_length-Positive :
    (code : List ℕ) (pc : ℕ)
    → Positive (do widened ← byte_at code (pos pc) 1; some (if widened == opc_iinc then 6 else 4))
unfolding Positive
wide_length-Positive code pc = Positive-bind (byte_at code (pos pc) 1) _ (λ widened.
    either_branch (λ (n : ℕ). (0 < n) × (n < 2 ^ 31)) (widened == opc_iinc) (omega arith)
      (omega arith))

other_length-Positive :
    (code : List ℕ) (opcode pc : ℕ)
    → opcode ≢ opc_xxxunusedxxx
    → (opcode == opc_tableswitch) ≡ false
    → (opcode == opc_lookupswitch) ≡ false
    → Positive (instruction_length code opcode pc)
unfolding instruction_length
other_length-Positive code opcode pc un table lookup =
    rw (table, lookup)
      (elim (Bool-cases (opcode == opc_wide)) [
        | inl e ↦ rw e (wide_length-Positive code pc)
        | inr e ↦
            rw e
              (listed_Positive opcode un (λ h. true≢false (sym ((==_iff opcode opc_wide).1 h) ∙ e)))
      ])

abbrev pub switches : List ℕ
switches = opc_tableswitch ∷ opc_lookupswitch ∷ []

-- A length that does not lead forward: 0, or negative as an `int`.
abbrev pub not_forward : Option ℕ → Bool
not_forward none = false
not_forward (some n) = n == 0 || leb (2 ^ 31) n

forward-Positive : (o : Option ℕ) → not_forward o ≡ false → Positive o
unfolding Positive
forward-Positive none h = tt
forward-Positive (some n) h = ground arith

-- An instruction leads forward, but for the unused one, and for a switch whose bounds in the byte code give it a
-- length that does not: the lengths of the switches and of `wide` are computed, the others are in a table.
pub instruction_length-Positive :
    (code : List ℕ) (opcode pc : ℕ)
    → opcode ≢ opc_xxxunusedxxx
    → (among opcode switches && not_forward (instruction_length code opcode pc)) ≡ false
    → Positive (instruction_length code opcode pc)
instruction_length-Positive code opcode pc un h = elim (Bool-cases (among opcode switches)) [
  | inl switch ↦ forward-Positive (instruction_length code opcode pc) (rw switch at h)
  | inr other ↦ other_length-Positive code opcode pc un (ground arith) (ground arith)
]

-- An invocation is longer than nothing.
pub normalized-Positive : (opcode : ℕ) → Positive (get_elem? opcode_length (normalized opcode))
unfolding normalized Positive
normalized-Positive opcode =
    let at = λ (o : ℕ). Positive (get_elem? opcode_length o) in
    either_branch at (among opcode (opc_invokevirtual ∷ opc_invokevirtual_quick_w ∷ []))
      (omega arith)
      (either_branch at
        (among opcode (opc_invokespecial ∷ opc_invokenonvirtual_quick ∷ opc_invokesuper_quick ∷ []))
        (omega arith)
        (either_branch at (among opcode (opc_invokestatic ∷ opc_invokestatic_quick ∷ []))
          (omega arith) (omega arith)))
