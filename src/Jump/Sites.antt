-- ===== src/Jump/Sites.antt =====
-- The whole loop of resolveJumpInstructions, over code that is laid out as `writeCode` lays it out:
-- jumps with empty operands among other bytes, and one table entry for each jump.
use shujit.Base.{
  ℕ, ◌+◌, ◌%◌, ◌^◌, ◌<◌, ◌≡◌, refl, ap, sym, ◌∙◌, Bool, Bool-cases, inl, inr, List, [], ◌∷◌, ◌++◌,
  append_assoc, some, length, length-append, take, drop, drop-append_eq, take-append_eq, true,
  false, ◌⊎◌, arith,
}
use shujit.PcTable.{PcTable}
use shujit.JpTable.{JpEntry}
use shujit.Jump.{fits_char, displacement, native_target, resolve_jump_instructions}
use shujit.Jump.Machine.{next}
use shujit.Jump.Lands.{
  jmp_bytes, jcc_bytes, resolve_jump-jmp, resolve_jump-jcc, next-jmp, next-jcc,
  next-jcc_falls_through,
}

-- A piece of the code: other bytes, a `jmp`, or a jump on a condition, each with the byte code
-- offset of its target.
pub data Site : Type 0 where
  plain : List ℕ → Site
  jmp : ℕ → Site
  jcc : ℕ → ℕ → Site

abbrev pub site_bytes : Site → List ℕ
site_bytes (plain bytes) = bytes
site_bytes (jmp tgtoff) = 0xe9 ∷ 0 ∷ 0 ∷ 0 ∷ 0 ∷ []
site_bytes (jcc c tgtoff) = 0x0f ∷ (0x80 + c) ∷ 0 ∷ 0 ∷ 0 ∷ 0 ∷ []

abbrev pub emit : List Site → List ℕ
emit [] = []
emit (s ∷ sites) = site_bytes s ++ emit sites

-- The table entry for a site at native offset `pc`: the offset of the last four of its bytes.
abbrev pub site_jumps : ℕ → Site → List JpEntry → List JpEntry
site_jumps pc (plain bytes) rest = rest
site_jumps pc (jmp tgtoff) rest = record { tgtoff = tgtoff; argoff = pc + 1 } ∷ rest
site_jumps pc (jcc c tgtoff) rest = record { tgtoff = tgtoff; argoff = pc + 2 } ∷ rest

abbrev pub jumps : ℕ → List Site → List JpEntry
jumps pc [] = []
jumps pc (s ∷ sites) = site_jumps pc s (jumps (pc + length (site_bytes s)) sites)

module _ (native : ℕ → ℕ) where
  abbrev pub final_bytes : ℕ → Site → List ℕ
  final_bytes pc (plain bytes) = bytes
  final_bytes pc (jmp tgtoff) = jmp_bytes pc (native tgtoff)
  final_bytes pc (jcc c tgtoff) = jcc_bytes c pc (native tgtoff)

  abbrev pub final : ℕ → List Site → List ℕ
  final pc [] = []
  final pc (s ∷ sites) = final_bytes pc s ++ final (pc + length (site_bytes s)) sites

  -- A site whose target is in the pc table, at its native offset, and whose condition is one.
  abbrev pub IsTargeted : PcTable → Site → Type 0
  IsTargeted t (plain bytes) = Unit {0}
  IsTargeted t (jmp tgtoff) =
      (native_target t tgtoff ≡ some (native tgtoff)) × (native tgtoff < 2 ^ 32)
  IsTargeted t (jcc c tgtoff) =
      (c < 16) × (native_target t tgtoff ≡ some (native tgtoff)) × (native tgtoff < 2 ^ 32)

  abbrev pub AllTargeted : PcTable → List Site → Type 0
  AllTargeted t [] = Unit {0}
  AllTargeted t (s ∷ sites) = IsTargeted t s × AllTargeted t sites

  length-final_bytes : (pc : ℕ) (s : Site) → length (final_bytes pc s) ≡ length (site_bytes s)
  length-final_bytes pc (plain bytes) = refl
  length-final_bytes pc (jmp tgtoff) =
      elim (Bool-cases (fits_char ((displacement (native tgtoff) (pc + 1) + 3) % 2 ^ 32))) [
        | inl short ↦ rw short
        | inr near ↦ rw near
      ]
  length-final_bytes pc (jcc c tgtoff) =
      elim (Bool-cases (fits_char ((displacement (native tgtoff) (pc + 2) + 4) % 2 ^ 32))) [
        | inl short ↦ rw short
        | inr near ↦ rw near
      ]

  -- One round of the loop, or none for other bytes.
  resolve_site :
      (t : PcTable) (pre post : List ℕ) (s : Site) (rest : List JpEntry)
      → IsTargeted t s
      → resolve_jump_instructions t (site_jumps (length pre) s rest) (pre ++ (site_bytes s ++ post))
        ≡ resolve_jump_instructions t rest (pre ++ (final_bytes (length pre) s ++ post))
  unfolding resolve_jump_instructions
  resolve_site t pre post (plain bytes) rest ok = refl
  resolve_site t pre post (jmp tgtoff) rest ok =
      rw (ok.0, resolve_jump-jmp pre post (native tgtoff) 0 0 0 0)
  resolve_site t pre post (jcc c tgtoff) rest ok =
      rw (ok.1, resolve_jump-jcc pre post (native tgtoff) c 0 0 0 0 ok.0)

  resolve_sites :
      (t : PcTable) (pre : List ℕ) (sites : List Site)
      → AllTargeted t sites
      → resolve_jump_instructions t (jumps (length pre) sites) (pre ++ emit sites)
        ≡ some (pre ++ final (length pre) sites)
  unfolding resolve_jump_instructions
  resolve_sites t pre [] ok = refl
  resolve_sites t pre (s ∷ sites) ok =
      let n : length (pre ++ final_bytes (length pre) s) ≡ length pre + length (site_bytes s) =
        length-append pre (final_bytes (length pre) s)
        ∙ ap (λ (k : ℕ). length pre + k) (length-final_bytes (length pre) s) in
      resolve_site t pre (emit sites) s (jumps (length pre + length (site_bytes s)) sites) ok.0
      ∙ rw (← n, ← append_assoc pre (final_bytes (length pre) s) (emit sites))
          (resolve_sites t (pre ++ final_bytes (length pre) s) sites ok.1
            ∙ ap some (
                append_assoc pre (final_bytes (length pre) s)
                  (final (length (pre ++ final_bytes (length pre) s)) sites)))

  length-final : (pc : ℕ) (sites : List Site) → length (final pc sites) ≡ length (emit sites)
  length-final pc [] = refl
  length-final pc (s ∷ sites) =
      let pc' = pc + length (site_bytes s) in
      omega (
        arith,
        length-append (final_bytes pc s) (final pc' sites),
        length-append (site_bytes s) (emit sites),
        length-final_bytes pc s,
        length-final pc' sites,
      )

  final-append :
      (pc : ℕ) (xs ys : List Site)
      → final pc (xs ++ ys) ≡ final pc xs ++ final (pc + length (emit xs)) ys
  final-append pc [] ys = let e : pc + 0 ≡ pc = omega arith in rw e
  final-append pc (s ∷ xs) ys =
      let pc' = pc + length (site_bytes s) in
      let e : pc + length (site_bytes s ++ emit xs) ≡ pc' + length (emit xs) =
        omega (arith, length-append (site_bytes s) (emit xs)) in
      rw e (
        ap (◌++◌ (final_bytes pc s)) (final-append pc' xs ys)
        ∙ sym (append_assoc (final_bytes pc s) (final pc' xs) (final (pc' + length (emit xs)) ys)))

  split-IsTargeted :
      (t : PcTable) (xs : List Site) (s : Site) (ys : List Site)
      → AllTargeted t (xs ++ s ∷ ys)
      → IsTargeted t s
  split-IsTargeted t [] s ys ok = ok.0
  split-IsTargeted t (x ∷ xs) s ys ok = split-IsTargeted t xs s ys ok.1

  -- What the code does at `pc`, where a site is: other bytes are unchanged, a `jmp` and a jump whose
  -- condition holds go to the native offset of the target, and one whose condition does not hold
  -- comes to the offset behind the site.
  abbrev pub Does : List ℕ → ℕ → Site → Type 0
  Does code pc (plain bytes) = take (length bytes) (drop pc code) ≡ bytes
  Does code pc (jmp tgtoff) = (holds : ℕ → Bool) → next holds code pc ≡ some (native tgtoff)
  Does code pc (jcc c tgtoff) =
      (holds : ℕ → Bool)
      → (holds c ≡ true → next holds code pc ≡ some (native tgtoff))
        × (holds c ≡ false
            → (next holds code pc ≡ some (pc + 6))
              ⊎ ((next holds code pc ≡ some (pc + 2)) × (next holds code (pc + 2) ≡ some (pc + 6))))

  final-Does :
      (t : PcTable) (pre post : List ℕ) (s : Site)
      → IsTargeted t s
      → length pre + 6 < 2 ^ 32
      → Does (pre ++ (final_bytes (length pre) s ++ post)) (length pre) s
  final-Does t pre post (plain bytes) ok small =
      rw (drop-append_eq (length pre) pre (bytes ++ post) refl)
        (take-append_eq (length bytes) bytes post refl)
  final-Does t pre post (jmp tgtoff) ok small =
      λ holds. next-jmp pre post (native tgtoff) holds ok.1
  final-Does t pre post (jcc c tgtoff) ok small = λ holds. (
    (λ e. next-jcc pre post (native tgtoff) holds c ok.0 e ok.2),
    λ e. next-jcc_falls_through pre post (native tgtoff) holds c ok.0 e small,
  )

  -- In code laid out as jumps among other bytes, with every target in the pc table, the loop ends,
  -- keeps the length, and leaves every site doing what it should: bytes that are no jump are
  -- unchanged, each jump that is taken goes to the native offset of its target, and a conditional
  -- jump that is not taken comes to the code behind it. The offsets are below 2 ^ 32 - 6.
  pub resolve_jump_instructions-Does :
      (t : PcTable) (xs : List Site) (s : Site) (ys : List Site)
      → AllTargeted t (xs ++ s ∷ ys)
      → length (emit xs) + 6 < 2 ^ 32
      → (code : List ℕ) × (resolve_jump_instructions t
            (jumps 0 (xs ++ s ∷ ys))
            (emit (xs ++ s ∷ ys))
          ≡ some code)
        × (length code ≡ length (emit (xs ++ s ∷ ys)))
        × Does code (length (emit xs)) s
  resolve_jump_instructions-Does t xs s ys ok small =
      let n : length (final 0 xs) ≡ length (emit xs) = length-final 0 xs in
      let pc = length (final 0 xs) in
      let zero_add : 0 + length (emit xs) ≡ length (final 0 xs) = omega (arith, n) in
      (
        final 0 (xs ++ s ∷ ys),
        resolve_sites t [] (xs ++ s ∷ ys) ok,
        length-final 0 (xs ++ s ∷ ys),
        rw (final-append 0 xs (s ∷ ys), zero_add, ← n)
            (final-Does t (final 0 xs) (final (pc + length (site_bytes s)) ys) s
              (split-IsTargeted t xs s ys ok) (omega (arith, n))),
      )
