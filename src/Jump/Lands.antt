-- ===== src/Jump/Lands.antt =====
-- A resolved jump goes to its target, in its near and in its short form.
use shujit.Base.{
  ℕ, ◌+◌, ◌-◌, ◌*◌, ◌%◌, ◌^◌, ◌<◌, ◌≡◌, refl, ◌∙◌, ap, Bool, true, false, Bool-cases, inl, inr,
  List, [], ◌∷◌, ◌++◌, some, ◌==◌, if◌then◌else◌, length, drop-append_eq, drop-append_add, ◌⊎◌, ltb,
  leb, get_or-append, write_at, write_at-append, arith,
}
use shujit.Jump.{le_bytes, fits_char, displacement, shorten_jmp, shorten_jcc, resolve_jump}
use shujit.Jump.Machine.{next, decoded}

-- The bytes of a resolved `jmp` at native offset `pc`.
abbrev pub jmp_bytes : ℕ → ℕ → List ℕ
jmp_bytes pc target =
    let arg = displacement target (pc + 1) in
    let short = (arg + 3) % 2 ^ 32 in
    if fits_char short then 0xeb ∷ short % 256 ∷ 0x90 ∷ 0x90 ∷ 0x90 ∷ [] else 0xe9 ∷ le_bytes arg

-- The bytes of a resolved jump on condition `c` at native offset `pc`.
abbrev pub jcc_bytes : ℕ → ℕ → ℕ → List ℕ
jcc_bytes c pc target =
    let arg = displacement target (pc + 2) in
    let short = (arg + 4) % 2 ^ 32 in
    if fits_char short
    then (0x70 + c) ∷ short % 256 ∷ 0xeb ∷ 0x02 ∷ 0x90 ∷ 0x90 ∷ []
    else 0x0f ∷ (0x80 + c) ∷ le_bytes arg

module _ (pre post : List ℕ) (target : ℕ) where
  -- The loop body rewrites a `jmp` in place.
  pub resolve_jump-jmp :
      (a b c d : ℕ)
      → resolve_jump (pre ++ (0xe9 ∷ a ∷ b ∷ c ∷ d ∷ post)) target (length pre + 1)
        ≡ pre ++ (jmp_bytes (length pre) target ++ post)
  unfolding resolve_jump shorten_jmp
  resolve_jump-jmp a b c d =
      let arg = displacement target (length pre + 1) in
      let back : length pre + 1 - 1 ≡ length pre + 0 = omega arith in
      let patched : write_at (length pre + 1) (le_bytes arg) (pre ++ (0xe9 ∷ a ∷ b ∷ c ∷ d ∷ post))
          ≡ pre ++ (0xe9 ∷ (le_bytes arg ++ post)) =
        write_at-append pre (0xe9 ∷ a ∷ b ∷ c ∷ d ∷ post) (le_bytes arg) 1
        ∙ unfold write_at in refl in
      rw (patched, back, get_or-append pre (0xe9 ∷ (le_bytes arg ++ post)) 0 0)
        (elim (Bool-cases (fits_char ((arg + 3) % 2 ^ 32))) [
          | inl short ↦ rw short (
              write_at-append pre (0xe9 ∷ (le_bytes arg ++ post))
                (0xeb ∷ (arg + 3) % 2 ^ 32 % 256 ∷ 0x90 ∷ 0x90 ∷ 0x90 ∷ []) 0
              ∙ unfold write_at in refl)
          | inr near ↦ rw near
        ])

  -- The loop body rewrites a conditional jump in place, and keeps its condition.
  pub resolve_jump-jcc :
      (k a b c d : ℕ)
      → k < 16
      → resolve_jump (pre ++ (0x0f ∷ (0x80 + k) ∷ a ∷ b ∷ c ∷ d ∷ post)) target (length pre + 2)
        ≡ pre ++ (jcc_bytes k (length pre) target ++ post)
  unfolding resolve_jump shorten_jcc
  resolve_jump-jcc k a b c d h =
      let arg = displacement target (length pre + 2) in
      let back : length pre + 2 - 1 ≡ length pre + 1 = omega arith in
      let start : length pre + 2 - 2 ≡ length pre + 0 = omega arith in
      let cond : (0x80 + k == 0xe9) ≡ false = ground arith in
      let first : (0x80 + k + 256 - 0x10) % 256 ≡ 0x70 + k = omega arith in
      let patched : write_at (length pre + 2) (le_bytes arg)
            (pre ++ (0x0f ∷ (0x80 + k) ∷ a ∷ b ∷ c ∷ d ∷ post))
          ≡ pre ++ (0x0f ∷ (0x80 + k) ∷ (le_bytes arg ++ post)) =
        write_at-append pre (0x0f ∷ (0x80 + k) ∷ a ∷ b ∷ c ∷ d ∷ post) (le_bytes arg) 2
        ∙ unfold write_at in refl in
      rw
        (
          patched,
          back,
          get_or-append pre (0x0f ∷ (0x80 + k) ∷ (le_bytes arg ++ post)) 1 0,
          cond,
          start,
          first,
        )
        (elim (Bool-cases (fits_char ((arg + 4) % 2 ^ 32))) [
          | inl short ↦ rw short (
              write_at-append pre (0x0f ∷ (0x80 + k) ∷ (le_bytes arg ++ post))
                ((0x70 + k) ∷ (arg + 4) % 2 ^ 32 % 256 ∷ 0xeb ∷ 0x02 ∷ 0x90 ∷ 0x90 ∷ []) 0
              ∙ unfold write_at in refl)
          | inr near ↦ rw near
        ])

  next-append :
      (holds : ℕ → Bool) (bytes : List ℕ)
      → next holds (pre ++ (bytes ++ post)) (length pre)
        ≡ decoded holds (bytes ++ post) (length pre)
  unfolding next
  next-append holds bytes = rw (drop-append_eq (length pre) pre (bytes ++ post) refl)

  -- After resolution of a `jmp` in the code, in the near or the short form, the processor goes from
  -- it to the native offset of the target.
  pub next-jmp :
      (holds : ℕ → Bool)
      → target < 2 ^ 32
      → next holds (pre ++ (jmp_bytes (length pre) target ++ post)) (length pre) ≡ some target
  next-jmp holds small =
      next-append holds (jmp_bytes (length pre) target)
      ∙ elim (Bool-cases (fits_char ((displacement target (length pre + 1) + 3) % 2 ^ 32))) [
        | inl short ↦ rw short (ground arith)
        | inr near ↦ rw near (ap some (omega arith))
      ]

  module _ (holds : ℕ → Bool) (k : ℕ) (h : k < 16) where
    -- A short conditional jump, and a near one.
    decoded-short :
        (b : ℕ) (bytes : List ℕ) (pc : ℕ)
        → decoded holds ((0x70 + k) ∷ b ∷ bytes) pc
          ≡ some (
              if holds k
              then (pc + 2 + (if ltb b 128 then b else b + (2 ^ 32 - 256))) % 2 ^ 32
              else pc + 2)
    decoded-short b bytes pc =
        let n₁ : (0x70 + k == 0xe9) ≡ false = ground arith in
        let n₂ : (0x70 + k == 0xeb) ≡ false = ground arith in
        let n₃ : (0x70 + k == 0x0f) ≡ false = ground arith in
        let low : leb 0x70 (0x70 + k) ≡ true = ground arith in
        let high : ltb (0x70 + k) 0x80 ≡ true = ground arith in
        let cond : 0x70 + k - 0x70 ≡ k = omega arith in rw (n₁, n₂, n₃, low, high, cond)

    decoded-near :
        (a b c d : ℕ) (bytes : List ℕ) (pc : ℕ)
        → decoded holds (0x0f ∷ (0x80 + k) ∷ a ∷ b ∷ c ∷ d ∷ bytes) pc
          ≡ some (
              if holds k
              then (pc + 6 + (a + 256 * b + 65536 * c + 16777216 * d)) % 2 ^ 32
              else pc + 6)
    decoded-near a b c d bytes pc =
        let low : leb 0x80 (0x80 + k) ≡ true = ground arith in
        let high : ltb (0x80 + k) 0x90 ≡ true = ground arith in
        let cond : 0x80 + k - 0x80 ≡ k = omega arith in rw (low, high, cond)

    -- After resolution of a conditional jump whose condition holds, in either form, the processor
    -- goes from it to the native offset of the target.
    pub next-jcc :
        holds k ≡ true
        → target < 2 ^ 32
        → next holds (pre ++ (jcc_bytes k (length pre) target ++ post)) (length pre) ≡ some target
    next-jcc taken small =
        next-append holds (jcc_bytes k (length pre) target)
        ∙ elim (Bool-cases (fits_char ((displacement target (length pre + 2) + 4) % 2 ^ 32))) [
          | inl short ↦ rw (short, decoded-short, taken) (ap some (ground arith))
          | inr near ↦ rw (near, decoded-near, taken) (ap some (omega arith))
        ]

    -- After resolution of a conditional jump whose condition does not hold, the processor comes to
    -- the instruction behind its six bytes, at once from the near form and by way of the short jump
    -- that the short form is padded with, as long as these offsets are below 2 ^ 32.
    pub next-jcc_falls_through :
        holds k ≡ false
        → length pre + 6 < 2 ^ 32
        → let code = pre ++ (jcc_bytes k (length pre) target ++ post) in
          (next holds code (length pre) ≡ some (length pre + 6))
          ⊎ ((next holds code (length pre) ≡ some (length pre + 2))
              × (next holds code (length pre + 2) ≡ some (length pre + 6)))
    unfolding next
    next-jcc_falls_through skipped small =
        elim (Bool-cases (fits_char ((displacement target (length pre + 2) + 4) % 2 ^ 32))) [
          | inr near ↦ inl (
              next-append holds (jcc_bytes k (length pre) target)
              ∙ rw (near, decoded-near, skipped))
          | inl short ↦ inr (
            next-append holds (jcc_bytes k (length pre) target)
                ∙ rw (short, decoded-short, skipped),
            rw (drop-append_add pre (jcc_bytes k (length pre) target ++ post) 2, short)
                (ap some (omega arith)),
          )
        ]
