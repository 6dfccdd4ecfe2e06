-- ===== src/Contexts/Pool.antt =====
-- getCompilerContext and releaseCompilerContext keep contexts apart.
use shujit.Base.{
  ℕ, suc, ◌-◌, ◌<◌, ◌≡◌, ◌≢◌, refl, sym, ap, ◌∙◌, subst, arith, List, [], ◌∷◌, Option, none, some,
  none-ne-some, some-injective, ◌>>=◌, bind-some, inl, inr, true, false, Bool-cases, ◌==◌, ==_iff,
  leb,
}
use shujit.Contexts.{
  start, Work, Context, Info, World, Malloc, put, set_cc, cleared, reset_compiler_context, new_work,
  new_compiler_context, prepare_info, prepared, take_context, context_for, retain,
  get_compiler_context, release_compiler_context,
}
use shujit.PcTable.{pctable_clear}
use shujit.Contexts.Output.{written}
use shujit.Contexts.Laws.{
  cc_of, IsSound, prepare_info-IsSound, has_info, retain-IsSound, pooled-IsSound, fresh-IsSound,
  cc_of-set_cc_other, cc_of-set_cc_same, same_or_not, not_equal,
}

room_or_not :
    (mem : Malloc) (mb c : ℕ) (w w' : World)
    → new_compiler_context mem mb w ≡ some (c, w')
    → ◌≡◌ {A = ℕ × World}
        (
          w.fresh,
          reset_compiler_context w.fresh (new_work mem) mb (record w { fresh = suc w.fresh }),
        )
        (c, w')
unfolding new_compiler_context
room_or_not mem mb c w w' run = elim (Bool-cases (mem.has_room w)) [
  | inl room ↦ some-injective _ _ (rw room at run)
  | inr full ↦ absurd (none-ne-some _ (rw full at run))
]

take_context-IsSound :
    (mem : Malloc) (mb : ℕ) (pool : List ℕ) (w : World) (info : Info) (c : ℕ) (w' : World)
    → w.infos mb ≡ some info
    → IsSound w
    → w.pool ≡ pool
    → take_context mem mb pool w ≡ some (c, w')
    → IsSound (retain c w')
unfolding take_context
take_context-IsSound mem mb [] w info c w' has s e run =
    subst (λ x. IsSound (retain x.0 x.1)) (room_or_not mem mb c w w' run)
      (fresh-IsSound mb (new_work mem) w info has s)
take_context-IsSound mem mb (d ∷ rest) w info c w' has s e run =
    subst (λ x. IsSound (retain x.0 x.1)) (some-injective _ _ run)
      (pooled-IsSound d mb rest (w.contexts d).work w info has s e)

context_for-IsSound :
    (mem : Malloc) (mb : ℕ) (known : Option ℕ) (w : World) (info : Info) (c : ℕ) (w' : World)
    → w.infos mb ≡ some info
    → IsSound w
    → context_for mem mb known w ≡ some (c, w')
    → IsSound (retain c w')
unfolding context_for
context_for-IsSound mem mb none w info c w' has s run =
    take_context-IsSound mem mb w.pool w info c w' has s refl run
context_for-IsSound mem mb (some d) w info c w' has s run =
    subst (λ x. IsSound (retain x.0 x.1)) (some-injective _ _ run) (retain-IsSound d w s)

-- When contexts are held apart, each by one method or once by the pool, getCompilerContext leaves them so.
pub get_compiler_context-IsSound :
    (mem : Malloc) (mb : ℕ) (w : World) (c : ℕ) (w' : World)
    → IsSound w
    → get_compiler_context mem mb w ≡ some (c, w')
    → IsSound w'
unfolding get_compiler_context
get_compiler_context-IsSound mem mb w c w' s run =
    let ((d, w2), e1, e2) =
      bind-some (context_for mem mb (prepared (w.infos mb)).cc (prepare_info mb w)) _ (c, w') run in
    subst (λ x. IsSound x.1) (some-injective _ _ e2)
      (context_for-IsSound mem mb _ (prepare_info mb w) (prepared (w.infos mb)) d w2 (has_info mb w)
        (prepare_info-IsSound mb w s) e1)

-- One reference less, where others are left.
dropped-IsSound :
    (c : ℕ) (w : World) (n : ℕ)
    → IsSound w
    → (w.contexts c).ref_count ≡ n
    → 1 < n
    → IsSound (record w {
      contexts =
          put c (record (w.contexts c) { ref_count = (w.contexts c).ref_count - 1 }) w.contexts;
    })
dropped-IsSound c w n s is more = record {
  owned = λ m d e.
      let o = s.owned m d e in
      elim (same_or_not d c) [
        | inr (ne, f) ↦ record {
          is_own = rw f o.is_own;
          counted = rw f o.counted;
          known = o.known;
          not_pooled = o.not_pooled;
        }
        | inl (same, f) ↦ record {
          is_own = rw f (subst (λ x. (w.contexts x).mb ≡ m) same o.is_own);
          counted = rw f (omega (arith, is));
          known = o.known;
          not_pooled = o.not_pooled;
        }
      ];
  distinct = s.distinct;
  under = s.under;
}

-- The context goes to the pool, and its method has none.
released-IsSound :
    (mb c : ℕ) (w : World)
    → IsSound w
    → cc_of w mb ≡ some c
    → let w1 = record w {
      contexts =
          put c (record (w.contexts c) { ref_count = (w.contexts c).ref_count - 1 }) w.contexts;
    } in
      IsSound (record (set_cc (w.contexts c).mb none w1) { pool = c ∷ w.pool })
unfolding set_cc
released-IsSound mb c w s has =
    let mine = s.owned mb c has in
    let owner = (w.contexts c).mb in
    let (info, e1, e2) = bind-some (w.infos mb) (λ (i : Info). i.cc) c has in
    let info_of : w.infos owner ≡ some info = ap w.infos mine.is_own ∙ e1 in
    record {
      owned = λ m d e. elim (same_or_not m owner) [
        | inl (same, f) ↦ absurd (
            none-ne-some d (
              sym (cc_of-set_cc_same owner none w info info_of)
              ∙ subst (λ x. cc_of (set_cc owner none w) x ≡ some d) same e))
        | inr (ne, f) ↦
            let e' = sym (cc_of-set_cc_other owner none w m f) ∙ e in
            let o = s.owned m d e' in
            let apart : d ≢ c = λ same. ne (sym o.is_own ∙ ap (λ x. (w.contexts x).mb) same) in
            let (apart', f') = not_equal d c apart in
            record {
              is_own = rw f' o.is_own;
              counted = rw f' o.counted;
              known = o.known;
              not_pooled = (apart, o.not_pooled);
            }
      ];
      distinct = (mine.not_pooled, s.distinct);
      under = (mine.known, s.under);
    }

-- When contexts are held apart, releaseCompilerContext of the context of a method leaves them so.
pub release_compiler_context-IsSound :
    (mb c : ℕ) (w : World)
    → IsSound w
    → cc_of w mb ≡ some c
    → IsSound (release_compiler_context c w)
unfolding release_compiler_context
release_compiler_context-IsSound mb c w s e = elim (Bool-cases (leb (w.contexts c).ref_count 1)) [
  | inl last ↦ rw last (released-IsSound mb c w s e)
  | inr more ↦ rw more (dropped-IsSound c w (w.contexts c).ref_count s refl (ground arith))
]

-- A context as a compilation begins with it.
pub record Clean (mb : ℕ) (c : Context) : Type 0 where
  pub is_own : c.mb ≡ mb
  pub counted : c.ref_count ≡ 1
  pub begins : c.stage ≡ start
  pub nothing_written : written c.work.buffer ≡ []
  pub no_entries : c.work.pctable.len ≡ 0
  pub no_jumps : c.work.jptable.len ≡ 0
  pub no_throw : c.work.may_throw ≡ false

reset-Clean :
    (c mb : ℕ) (k : Work) (w : World)
    → Clean mb ((retain c (reset_compiler_context c k mb w)).contexts c)
unfolding retain reset_compiler_context cleared pctable_clear
reset-Clean c mb k w =
    let self : (c == c) ≡ true = (==_iff c c).1 refl in
    rw self (record {
      is_own = refl;
      counted = omega arith;
      begins = refl;
      nothing_written = refl;
      no_entries = refl;
      no_jumps = refl;
      no_throw = refl;
    })

take_context-Clean :
    (mem : Malloc) (mb : ℕ) (pool : List ℕ) (w : World) (c : ℕ) (w' : World)
    → take_context mem mb pool w ≡ some (c, w')
    → Clean mb ((retain c w').contexts c)
unfolding take_context
take_context-Clean mem mb [] w c w' run =
    subst (λ x. Clean mb ((retain x.0 x.1).contexts x.0)) (room_or_not mem mb c w w' run)
      (reset-Clean w.fresh mb (new_work mem) (record w { fresh = suc w.fresh }))
take_context-Clean mem mb (d ∷ rest) w c w' run =
    subst (λ x. Clean mb ((retain x.0 x.1).contexts x.0)) (some-injective _ _ run)
      (reset-Clean d mb (w.contexts d).work (record w { pool = rest }))

no_context : (o : Option Info) → (o >>= (λ (i : Info). i.cc)) ≡ none → (prepared o).cc ≡ none
unfolding prepared
no_context none e = refl
no_context (some i) e = e

-- A method that has no context is given one that belongs to it, is counted once, and has an empty buffer and empty
-- tables, whether it comes from the pool or is allocated.
pub get_compiler_context-Clean :
    (mem : Malloc) (mb : ℕ) (w : World) (c : ℕ) (w' : World)
    → cc_of w mb ≡ none
    → get_compiler_context mem mb w ≡ some (c, w')
    → Clean mb (w'.contexts c)
unfolding get_compiler_context context_for
get_compiler_context-Clean mem mb w c w' no_cc run =
    let run' =
      subst (λ o. (context_for mem mb o (prepare_info mb w) >>= counted_once) ≡ some (c, w'))
        (no_context (w.infos mb) no_cc) run in
    let ((d, w2), e1, e2) =
      bind-some (take_context mem mb w.pool (prepare_info mb w)) _ (c, w') run' in
    subst (λ x. Clean mb (x.1.contexts x.0)) (some-injective _ _ e2)
      (take_context-Clean mem mb w.pool (prepare_info mb w) d w2 e1)
  where
    counted_once : ℕ × World → Option (ℕ × World)
    counted_once (x, v) = some (x, retain x v)
