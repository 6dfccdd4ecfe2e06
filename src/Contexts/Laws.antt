-- ===== src/Contexts/Laws.antt =====
-- Who holds a context: a method, or the pool.
use shujit.Base.{
  ℕ, suc, ◌<◌, ◌≡◌, ◌≢◌, refl, sym, ap, ◌∙◌, ◌⊎◌, subst, arith, List, [], ◌∷◌, Option, none, some,
  some-injective, ◌>>=◌, inl, inr, true, false, ◌==◌, ==_iff,
}
use shujit.Contexts.{
  Work, Info, World, put, set_cc, reset_compiler_context, prepare_info, with_cc, prepared, retain,
}

-- The context of a method.
abbrev pub cc_of : World → ℕ → Option ℕ
cc_of w mb = w.infos mb >>= (λ info. info.cc)

abbrev pub Lacks : ℕ → List ℕ → Type 0
Lacks c [] = Unit {0}
Lacks c (x ∷ xs) = (c ≢ x) × Lacks c xs

abbrev pub Distinct : List ℕ → Type 0
Distinct [] = Unit {0}
Distinct (x ∷ xs) = Lacks x xs × Distinct xs

abbrev pub AllUnder : ℕ → List ℕ → Type 0
AllUnder n [] = Unit {0}
AllUnder n (x ∷ xs) = (x < n) × AllUnder n xs

-- What a method has is its own, is counted, and is not in the pool.
pub record Owned (w : World) (mb c : ℕ) : Type 0 where
  pub is_own : (w.contexts c).mb ≡ mb
  pub counted : 0 < (w.contexts c).ref_count
  pub known : c < w.fresh
  pub not_pooled : Lacks c w.pool

-- Each context is held by one method or once by the pool.
pub record IsSound (w : World) : Type 0 where
  pub owned : (mb c : ℕ) → cc_of w mb ≡ some c → Owned w mb c
  pub distinct : Distinct w.pool
  pub under : AllUnder w.fresh w.pool

pub same_or_not : (a b : ℕ) → ((a ≡ b) × ((a == b) ≡ true)) ⊎ ((a ≢ b) × ((a == b) ≡ false))
same_or_not a b = ground arith

pub not_equal : (a b : ℕ) → a ≢ b → (a ≢ b) × ((a == b) ≡ false)
not_equal a b ne = elim (same_or_not a b) [ inl (e, f) ↦ absurd (ne e) | inr r ↦ r ]

put_same {ℓ} : {A : Type ℓ} (k : ℕ) (a : A) (f : ℕ → A) → put k a f k ≡ a
put_same k a f = let e : (k == k) ≡ true = (==_iff k k).1 refl in rw e

put_other {ℓ} : {A : Type ℓ} (k i : ℕ) (a : A) (f : ℕ → A) → (i == k) ≡ false → put k a f i ≡ f i
put_other k i a f e = rw e

AllUnder-suc : (n : ℕ) (xs : List ℕ) → AllUnder n xs → AllUnder (suc n) xs
AllUnder-suc n [] h = tt
AllUnder-suc n (x ∷ xs) h = (omega (arith, h.0), AllUnder-suc n xs h.1)

AllUnder-Lacks : (n : ℕ) (xs : List ℕ) → AllUnder n xs → Lacks n xs
AllUnder-Lacks n [] h = tt
AllUnder-Lacks n (x ∷ xs) h = ((λ e. absurd (omega (arith, e, h.0))), AllUnder-Lacks n xs h.1)

-- A method that has an info gets the context, and the others keep theirs.
pub cc_of-set_cc_same :
    (mb : ℕ) (v : Option ℕ) (w : World) (info : Info)
    → w.infos mb ≡ some info
    → cc_of (set_cc mb v w) mb ≡ v
unfolding set_cc with_cc
cc_of-set_cc_same mb v w info e = rw (put_same mb (with_cc v (w.infos mb)) w.infos) (rw e refl)

pub cc_of-set_cc_other :
    (mb : ℕ) (v : Option ℕ) (w : World) (m : ℕ)
    → (m == mb) ≡ false
    → cc_of (set_cc mb v w) m ≡ cc_of w m
unfolding set_cc
cc_of-set_cc_other mb v w m e = rw e refl

prepare_info-cc_of : (mb : ℕ) (w : World) (m : ℕ) → cc_of (prepare_info mb w) m ≡ cc_of w m
unfolding prepare_info
prepare_info-cc_of mb w m = elim (same_or_not m mb) [
  | inr (ne, e) ↦ rw e refl
  | inl (same, e) ↦ rw (e, same) (same_cc (w.infos mb))
]
  where
    same_cc : (o : Option Info) → (prepared o).cc ≡ (o >>= (λ (info : Info). info.cc))
    same_cc none = refl
    same_cc (some i) = refl

pub has_info : (mb : ℕ) (w : World) → (prepare_info mb w).infos mb ≡ some (prepared (w.infos mb))
unfolding prepare_info
has_info mb w = put_same mb (some (prepared (w.infos mb))) w.infos

-- With the info made, nothing else has changed.
pub prepare_info-IsSound : (mb : ℕ) (w : World) → IsSound w → IsSound (prepare_info mb w)
unfolding prepare_info
prepare_info-IsSound mb w s = record {
  owned = λ m c e.
      let o = s.owned m c (sym (prepare_info-cc_of mb w m) ∙ e) in
      record { is_own = o.is_own; counted = o.counted; known = o.known; not_pooled = o.not_pooled };
  distinct = s.distinct;
  under = s.under;
}

-- One more reference.
pub retain-IsSound : (c : ℕ) (w : World) → IsSound w → IsSound (retain c w)
unfolding retain
retain-IsSound c w s = record {
  owned = λ m d e.
      let o = s.owned m d e in
      elim (same_or_not d c) [
        | inr (ne, f) ↦ record {
          is_own = ap (λ x. x.mb) (put_other c d _ w.contexts f) ∙ o.is_own;
          counted = rw f o.counted;
          known = o.known;
          not_pooled = o.not_pooled;
        }
        | inl (same, f) ↦ record {
          is_own = rw f (subst (λ x. (w.contexts x).mb ≡ m) same o.is_own);
          counted = rw f (omega arith);
          known = o.known;
          not_pooled = o.not_pooled;
        }
      ];
  distinct = s.distinct;
  under = s.under;
}

-- A context that is held by none is given to a method that has none.
given-IsSound :
    (c mb : ℕ) (k : Work) (w : World) (info : Info)
    → w.infos mb ≡ some info
    → IsSound w
    → c < w.fresh
    → Lacks c w.pool
    → ((m d : ℕ) → cc_of w m ≡ some d → d ≢ c)
    → IsSound (retain c (reset_compiler_context c k mb w))
unfolding retain reset_compiler_context
given-IsSound c mb k w info has s known lacks free = record {
  owned = λ m d e. elim (same_or_not m mb) [
    | inr (ne, f) ↦
        let e' = sym (cc_of-set_cc_other mb (some c) w m f) ∙ e in
        let o = s.owned m d e' in
        let (ne', f') = not_equal d c (free m d e') in
        record {
          is_own = rw f' o.is_own;
          counted = rw f' o.counted;
          known = o.known;
          not_pooled = o.not_pooled;
        }
    | inl (same, f) ↦
        let own : c ≡ d = some-injective c d (
          sym (cc_of-set_cc_same mb (some c) w info has)
          ∙ subst (λ x. cc_of (set_cc mb (some c) w) x ≡ some d) same e) in
        let self : (c == c) ≡ true = (==_iff c c).1 refl in
        subst (Owned (retain c (reset_compiler_context c k mb w)) m) own (record {
          is_own = rw self (sym same);
          counted = rw self (omega arith);
          known = known;
          not_pooled = lacks;
        })
  ];
  distinct = s.distinct;
  under = s.under;
}

-- What a chain of pool contexts says of its head.
in_use_not_pooled :
    (w : World) (c : ℕ) (rest : List ℕ)
    → IsSound w
    → w.pool ≡ c ∷ rest
    → (m d : ℕ) → cc_of w m ≡ some d
    → d ≢ c
in_use_not_pooled w c rest s e m d h = (subst (Lacks d) e (s.owned m d h).not_pooled).0

-- The first context of the pool.
pub pooled-IsSound :
    (c mb : ℕ) (rest : List ℕ) (k : Work) (w : World) (info : Info)
    → w.infos mb ≡ some info
    → IsSound w
    → w.pool ≡ c ∷ rest
    → IsSound (retain c (reset_compiler_context c k mb (record w { pool = rest })))
pooled-IsSound c mb rest k w info has s e =
    let distinct' = subst Distinct e s.distinct in
    let under' = subst (AllUnder w.fresh) e s.under in
    given-IsSound c mb k (record w { pool = rest }) info has
      (record {
        owned = λ m d h.
            let o = s.owned m d h in
            record {
              is_own = o.is_own;
              counted = o.counted;
              known = o.known;
              not_pooled = (subst (Lacks d) e o.not_pooled).1;
            };
        distinct = distinct'.1;
        under = under'.1;
      })
      under'.0 distinct'.0 (in_use_not_pooled w c rest s e)

-- A context that is allocated.
pub fresh-IsSound :
    (mb : ℕ) (k : Work) (w : World) (info : Info)
    → w.infos mb ≡ some info
    → IsSound w
    → IsSound
        (retain w.fresh (reset_compiler_context w.fresh k mb (record w { fresh = suc w.fresh })))
fresh-IsSound mb k w info has s =
    given-IsSound w.fresh mb k (record w { fresh = suc w.fresh }) info has
      (record {
        owned = λ m d h.
            let o = s.owned m d h in
            record {
              is_own = o.is_own;
              counted = o.counted;
              known = omega (arith, o.known);
              not_pooled = o.not_pooled;
            };
        distinct = s.distinct;
        under = AllUnder-suc w.fresh w.pool s.under;
      })
      (omega arith) (AllUnder-Lacks w.fresh w.pool s.under)
      (λ m d h e. absurd (omega (arith, e, (s.owned m d h).known)))
