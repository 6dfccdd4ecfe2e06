-- ===== src/WriteCode/Layout.antt =====
-- What has been written, as pieces of code: other bytes, and jumps with empty operands that the jump table knows.
use shujit.Base.{
  ℕ, ◌+◌, ◌≤◌, ◌<◌, ◌≡◌, refl, ap, sym, ◌∙◌, List, [], ◌∷◌, ◌++◌, append_assoc, append-nil, length,
  length-append, length-take, write_at, length-write_at, take-write_at_inside, write_at-append,
  write_at-append_le, arith,
}
use shujit.JpTable.{JpEntry, JpTable}
use shujit.JpTable.Laws as Jp
use shujit.Contexts.Output.{Buffer, IsValid, written}
use shujit.Jump.Sites.{Site, plain, jmp, jcc, site_bytes, emit, site_jumps, jumps}

-- The processor has sixteen conditions.
abbrev pub IsSmall : Site → Type 0
IsSmall (plain bytes) = Unit {0}
IsSmall (jmp tgtoff) = Unit {0}
IsSmall (jcc c tgtoff) = c < 16

abbrev pub AllSmall : List Site → Type 0
AllSmall [] = Unit {0}
AllSmall (s ∷ sites) = IsSmall s × AllSmall sites

AllSmall-append : (xs : List Site) (s : Site) → AllSmall xs → IsSmall s → AllSmall (xs ++ s ∷ [])
AllSmall-append [] s p q = (q, tt)
AllSmall-append (x ∷ xs) s p q = (p.0, AllSmall-append xs s p.1 q)

AllSmall-but : (xs ys : List Site) → AllSmall (xs ++ ys) → AllSmall xs
AllSmall-but [] ys p = tt
AllSmall-but (x ∷ xs) ys p = (p.0, AllSmall-but xs ys p.1)

AllSmall-plain :
    (xs : List Site) (a b : List ℕ) (ys : List Site)
    → AllSmall (xs ++ plain a ∷ ys)
    → AllSmall (xs ++ plain b ∷ ys)
AllSmall-plain [] a b ys p = p
AllSmall-plain (x ∷ xs) a b ys p = (p.0, AllSmall-plain xs a b ys p.1)

-- The buffer holds the pieces one behind the other, and the jump table has an entry for each jump among them.
pub record IsLaid (b : Buffer) (j : JpTable) (sites : List Site) : Type 0 where
  pub buffer : IsValid b
  pub code : written b ≡ emit sites
  pub table : Jp.IsValid j
  pub known : Jp.view j ≡ jumps 0 sites
  pub small : AllSmall sites

pub emit-append : (xs ys : List Site) → emit (xs ++ ys) ≡ emit xs ++ emit ys
emit-append [] ys = refl
emit-append (x ∷ xs) ys =
    ap (◌++◌ (site_bytes x)) (emit-append xs ys)
    ∙ sym (append_assoc (site_bytes x) (emit xs) (emit ys))

site_jumps-append :
    (pc : ℕ) (s : Site) (a b : List JpEntry) → site_jumps pc s (a ++ b) ≡ site_jumps pc s a ++ b
site_jumps-append pc (plain bytes) a b = refl
site_jumps-append pc (jmp tgtoff) a b = refl
site_jumps-append pc (jcc c tgtoff) a b = refl

pub jumps-append :
    (pc : ℕ) (xs ys : List Site)
    → jumps pc (xs ++ ys) ≡ jumps pc xs ++ jumps (pc + length (emit xs)) ys
jumps-append pc [] ys = let e : pc + 0 ≡ pc = omega arith in rw e
jumps-append pc (x ∷ xs) ys =
    let pc' = pc + length (site_bytes x) in
    let e : pc + length (site_bytes x ++ emit xs) ≡ pc' + length (emit xs) =
      omega (arith, length-append (site_bytes x) (emit xs)) in
    rw e (
      ap (site_jumps pc x) (jumps-append pc' xs ys)
      ∙ site_jumps-append pc x (jumps pc' xs) (jumps (pc' + length (emit xs)) ys))

-- The bytes of a piece may change; its length may not.
pub jumps-plain :
    (pc : ℕ) (xs : List Site) (a b : List ℕ) (ys : List Site)
    → length a ≡ length b
    → jumps pc (xs ++ plain a ∷ ys) ≡ jumps pc (xs ++ plain b ∷ ys)
jumps-plain pc xs a b ys e =
    jumps-append pc xs (plain a ∷ ys)
    ∙ ap (λ (n : ℕ). jumps pc xs ++ jumps (pc + length (emit xs) + n) ys) e
    ∙ sym (jumps-append pc xs (plain b ∷ ys))

-- A write of bytes into the buffer.
abbrev pub overwrite : ℕ → List ℕ → Buffer → Buffer
overwrite at bytes b = record b { block = write_at at bytes b.block }

module _ (b : Buffer) (j : JpTable) where
  pub offset-emit : (sites : List Site) → IsLaid b j sites → b.offset ≡ length (emit sites)
  offset-emit sites l =
      omega (arith, length-take b.offset b.block, l.buffer.inside, l.buffer.block, ap length l.code)

  module _ (xs : List Site) (bytes : List ℕ) (ys : List Site) where
    -- A write into a piece that is no jump changes this piece only.
    pub overwrite-IsLaid :
        (k : ℕ) (new : List ℕ)
        → IsLaid b j (xs ++ plain bytes ∷ ys)
        → k + length new ≤ length bytes
        → IsLaid
            (overwrite (length (emit xs) + k) new b)
            j
            (xs ++ plain (write_at k new bytes) ∷ ys)
    overwrite-IsLaid k new l h =
        let at = length (emit xs) + k in
        let whole = emit-append xs (plain bytes ∷ ys) in
        let size : length (emit (xs ++ plain bytes ∷ ys))
            ≡ length (emit xs) + (length bytes + length (emit ys)) =
          omega (
            arith,
            ap length whole,
            length-append (emit xs) (bytes ++ emit ys),
            length-append bytes (emit ys),
          ) in
        let room : at + length new ≤ b.offset =
          omega (arith, h, size, offset-emit (xs ++ plain bytes ∷ ys) l) in
        let inside : b.offset ≤ length b.block = omega (arith, l.buffer.inside, l.buffer.block) in
        record {
          buffer = record {
            block = length-write_at at new b.block (omega (arith, room, inside)) ∙ l.buffer.block;
            inside = l.buffer.inside;
            some_room = l.buffer.some_room;
          };
          code =
              take-write_at_inside b.offset at new b.block room inside
              ∙ ap (write_at at new) (l.code ∙ whole)
              ∙ write_at-append (emit xs) (bytes ++ emit ys) new k
              ∙ ap (◌++◌ (emit xs)) (write_at-append_le k new bytes (emit ys) h)
              ∙ sym (emit-append xs (plain (write_at k new bytes) ∷ ys));
          table = l.table;
          known =
              l.known
              ∙ jumps-plain 0 xs bytes (write_at k new bytes) ys
                  (sym (length-write_at k new bytes h));
          small = AllSmall-plain xs bytes (write_at k new bytes) ys l.small;
        }

-- Behind pieces that are laid, a piece that has been written and registered is laid as well.
pub append-IsLaid :
    (b : Buffer) (j : JpTable) (sites : List Site) (st : Site) (b' : Buffer) (j' : JpTable)
    → IsLaid b j sites
    → IsSmall st
    → IsValid b'
    → written b' ≡ written b ++ site_bytes st
    → Jp.IsValid j'
    → Jp.view j' ≡ Jp.view j ++ site_jumps b.offset st []
    → IsLaid b' j' (sites ++ st ∷ [])
append-IsLaid b j sites st b' j' l q v e w e' = record {
  buffer = v;
  code =
      e
      ∙ ap (λ c. c ++ site_bytes st) l.code
      ∙ ap (◌++◌ (emit sites)) (sym (append-nil (site_bytes st)))
      ∙ sym (emit-append sites (st ∷ []));
  table = w;
  known =
      e'
      ∙ ap (λ t. t ++ site_jumps b.offset st []) l.known
      ∙ ap (λ (n : ℕ). jumps 0 sites ++ site_jumps n st []) (offset-emit b j sites l ∙ omega arith)
      ∙ sym (jumps-append 0 sites (st ∷ []));
  small = AllSmall-append sites st l.small q;
}

-- Bytes of a jump that have been written, once the jump is registered.
pub register-IsLaid :
    (b : Buffer) (j : JpTable) (sites : List Site) (st : Site) (j' : JpTable)
    → IsLaid b j (sites ++ plain (site_bytes st) ∷ [])
    → IsSmall st
    → Jp.IsValid j'
    → Jp.view j' ≡ Jp.view j ++ site_jumps (length (emit sites)) st []
    → IsLaid b j' (sites ++ st ∷ [])
register-IsLaid b j sites st j' l q w e = record {
  buffer = l.buffer;
  code =
      l.code ∙ emit-append sites (plain (site_bytes st) ∷ []) ∙ sym (emit-append sites (st ∷ []));
  table = w;
  known =
      e
      ∙ ap (λ t. t ++ site_jumps (length (emit sites)) st [])
          (l.known ∙ jumps-append 0 sites (plain (site_bytes st) ∷ []) ∙ append-nil (jumps 0 sites))
      ∙ ap (λ (n : ℕ). jumps 0 sites ++ site_jumps n st []) (omega arith)
      ∙ sym (jumps-append 0 sites (st ∷ []));
  small = AllSmall-append sites st (AllSmall-but sites (plain (site_bytes st) ∷ []) l.small) q;
}
