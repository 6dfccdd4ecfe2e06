-- ===== src/WriteCode/Sound.antt =====
-- What writeCode leaves when it has ended: code laid out as jumps among other bytes, with one entry for each jump.
use shujit.Base.{
  ℕ, zero, suc, ◌+◌, ◌≤◌, ◌<◌, ◌≡◌, refl, ap, sym, ◌∙◌, List, [], ◌∷◌, ◌++◌, Option, none, some,
  some-injective, bind-some, subst, Bool-cases, inl, inr, ltb, ltb→lt, length, get_elem?, take,
  arith,
}
use shujit.PcEntry.{PcEntry, state}
use shujit.PcTable.Inv as Pc
use shujit.JpTable.Laws as Jp
use shujit.Contexts.Output.{IsValid}
use shujit.Jump.Sites.{Site, plain}
use shujit.PcTable.{PcTable}
use shujit.WriteCode.Machine.{Templates, Pools, Memory, Writing, poke_word}
use shujit.WriteCode.Piece.{put_piece}
use shujit.WriteCode.Branch.{branch}
use shujit.WriteCode.Kinds.{kind_of, words_at_place}
use shujit.WriteCode.Constants.{
  Resolution, words, leave, constants, resolve_constants, copy_constants, copy_words,
}
use shujit.WriteCode.Rounds.{
  Round, next_entry, leave_loop, Ended, ended, fault, running, close_round, write_entry, write_loop,
  finish_tables, write_code,
}
use shujit.WriteCode.Layout.{IsLaid}
use shujit.WriteCode.Keeps.{AllCased, AllCased-get, IsGood, Open}
use shujit.WriteCode.PieceLaid.{HasRoom, put_piece-Open}
use shujit.WriteCode.BranchLaid.{branch-Left}
use shujit.WriteCode.ConstantsLaid.{Fills, FillsIf, constants-Fills, copy_constants-Open, Kept-Open}

-- Pieces that are open are good, once the round is closed.
Open-Good : (len : ℕ) (s : Writing) → Open len s → IsGood s.buffer s.jptable s.pctable s.nextoff
Open-Good len s o = record {
  sites = o.before ++ plain o.bytes ∷ o.behind;
  laid = o.laid;
  at_end = o.at_end;
  table = o.table;
  cased = o.cased;
}

-- The pieces of a state.
abbrev pub Laid : Writing → Type 0
Laid s = (sites : List Site) × IsLaid s.buffer s.jptable sites

-- The end of a run: with pieces laid out, or at a read outside the tables.
abbrev pub LaidOut : Ended → Type 0
LaidOut (ended ret s) = Laid s
LaidOut fault = Unit {0}
LaidOut running = (n : ℕ) × (n < n)

module _ (mem : Memory) (t : Templates) (p : Pools) where
  module _ (e : PcEntry) where
    -- The words that are copied leave the rest as it is.
    copy_words-pctable :
        (at : ℕ) (ws : List ℕ) (s : Writing) → (copy_words mem t p e at ws s).pctable ≡ s.pctable
    unfolding copy_words
    copy_words-pctable at [] s = refl
    copy_words-pctable at (w ∷ ws) s = copy_words-pctable (at + 4) ws (poke_word at w s)

    copy_constants-pctable :
        (k : ℕ) (wss : List (List ℕ)) (s : Writing)
        → (copy_constants mem t p e k wss s).pctable ≡ s.pctable
    unfolding copy_constants
    copy_constants-pctable k [] s = refl
    copy_constants-pctable k (ws ∷ wss) s =
        let at = s.insn_head_off + t.constant_at e.opcode (state e) k in
        copy_constants-pctable (suc k) wss (copy_words mem t p e at ws s)
        ∙ copy_words-pctable at ws s

  -- After a round: the pieces, and as many entries to come as there were behind the one taken.
  abbrev pub Closed : ℕ → ℕ → Round → Type 0
  Closed count i (next_entry i' s) =
      IsGood s.buffer s.jptable s.pctable s.nativeoff × (s.pctable.len + suc i ≡ count + i')
  Closed count i (leave_loop ret s) = Laid s

  module _ (room : HasRoom t) where
    close_round-Closed :
        (count i i' : ℕ) (e : PcEntry) (s : Writing) (r : Resolution)
        → Open (length (t.piece e.opcode (state e))) s
        → s.pctable.len + i ≡ count + i'
        → Fills (words_at_place (kind_of e.opcode)) s r
        → Closed count i (close_round mem t p i' e r)
    unfolding close_round
    close_round-Closed count i i' e s (words wss s') o n f =
        let len = length (t.piece e.opcode (state e)) in
        let o1 =
          copy_constants-Open mem t p e len 0 wss (words_at_place (kind_of e.opcode)) s' f.0
            (room.for_constants e.opcode (state e)) (Kept-Open len s s' f.1 o) in
        let same =
          ap (λ (x : PcTable). x.len) (copy_constants-pctable e 0 wss s' ∙ sym f.1.same_pctable) in
        (Open-Good len (copy_constants mem t p e 0 wss s') o1, omega (arith, same, n))
    close_round-Closed count i i' e s (leave ret s') o n f =
        let len = length (t.piece e.opcode (state e)) in
        let g = Open-Good len s' (Kept-Open len s s' f o) in (g.sites, g.laid)

    pub write_entry-Closed :
        (i : ℕ) (s : Writing) (r : Round)
        → IsGood s.buffer s.jptable s.pctable s.nativeoff
        → i < s.pctable.len
        → write_entry mem t p i s ≡ some r
        → Closed s.pctable.len i r
    unfolding write_entry resolve_constants
    write_entry-Closed i s r g h k =
        let (e, e1, k1) = bind-some (get_elem? s.pctable.entries i) _ r k in
        let len = length (t.piece e.opcode (state e)) in
        let c = AllCased-get s.pctable.len i s.pctable.entries e g.cased h e1 in
        let (s1, e2, k2) = bind-some (put_piece mem p t i e s) _ r k1 in
        let (o1, n1) = put_piece-Open mem p t room s.pctable.len i e s s1 c (g, refl) e2 in
        let ((i', s2), e3, k3) = bind-some (branch mem t p i e s1) _ r k2 in
        let left = branch-Left mem t e len p i s1 (i', s2) (omega (arith, n1, h)) c o1 e3 in
        let (q, e4, k4) = bind-some (constants mem t p e (kind_of e.opcode) s2) _ r k3 in
        let f =
          subst (FillsIf (words_at_place (kind_of e.opcode)) s2) e4
            (constants-Fills mem t p e (kind_of e.opcode) s2) in
        subst (Closed s.pctable.len i) (some-injective _ _ k4) (
          close_round-Closed s.pctable.len i i' e s2 q left.laid (omega (arith, left.to_come, n1))
            f)

    after_entry-LaidOut :
        (fuel count i : ℕ) (o : Option Round)
        → ((r : Round) → o ≡ some r → Closed count i r)
        → ((i' : ℕ) (s' : Writing)
            → IsGood s'.buffer s'.jptable s'.pctable s'.nativeoff
            → s'.pctable.len + suc i ≡ count + i'
            → LaidOut (write_loop mem t p fuel i' s'))
        → LaidOut (elim o as (λ r. Ended) [
          | none ↦ fault
          | some (next_entry i' s') ↦ write_loop mem t p fuel i' s'
          | some (leave_loop ret s') ↦ ended ret s'
        ])
    after_entry-LaidOut fuel count i none h rest = tt
    after_entry-LaidOut fuel count i (some (next_entry i' s')) h rest =
        let (g, n) = h (next_entry i' s') refl in rest i' s' g n
    after_entry-LaidOut fuel count i (some (leave_loop ret s')) h rest = h (leave_loop ret s') refl

    -- One unit of fuel for each entry to come, and one more, is enough.
    write_loop-LaidOut :
        (fuel i : ℕ) (s : Writing)
        → IsGood s.buffer s.jptable s.pctable s.nativeoff
        → i ≤ s.pctable.len
        → s.pctable.len < fuel + i
        → LaidOut (write_loop mem t p fuel i s)
    unfolding write_loop
    write_loop-LaidOut zero i s g low h = absurd (omega arith)
    write_loop-LaidOut (suc fuel) i s g low h = elim (Bool-cases (ltb i s.pctable.len)) [
      | inr last ↦ rw last (g.sites, g.laid)
      | inl more ↦
          let inside : i < s.pctable.len = ltb→lt i s.pctable.len more in
          rw more (
            after_entry-LaidOut fuel s.pctable.len i (write_entry mem t p i s)
              (λ r q. write_entry-Closed i s r g inside q)
              (λ i' s' g' n.
                write_loop-LaidOut fuel i' s' g' (omega (arith, n, inside)) (omega (arith, n, h))))
    ]

-- What writeCode finds: an empty buffer and no jumps, in tables that are valid, and entries with a case each.
pub record IsFresh (s : Writing) : Type 0 where
  pub buffer : IsValid s.buffer
  pub empty : s.buffer.offset ≡ 0
  pub start : s.nativeoff ≡ 0
  pub jptable : Jp.IsValid s.jptable
  pub no_jumps : s.jptable.len ≡ 0
  pub pctable : Pc.IsValid s.pctable
  pub cased : AllCased (Pc.view s.pctable)

pub fresh-IsGood : (s : Writing) → IsFresh s → IsGood s.buffer s.jptable s.pctable s.nativeoff
fresh-IsGood s f = record {
  sites = [];
  laid = record {
    buffer = f.buffer;
    code = ap (λ (n : ℕ). take n s.buffer.block) f.empty;
    table = f.jptable;
    known = ap (λ (n : ℕ). take n s.jptable.entries) f.no_jumps;
    small = tt;
  };
  at_end = f.start ∙ sym f.empty;
  table = f.pctable;
  cased = f.cased;
}

module _ (mem : Memory) (t : Templates) (p : Pools) where
  finish_tables-LaidOut : (r : Ended) → LaidOut r → LaidOut (finish_tables mem t p r)
  unfolding finish_tables
  finish_tables-LaidOut (ended ret s) l = l
  finish_tables-LaidOut fault l = l
  finish_tables-LaidOut running l = l

  -- writeCode does not run on without end. When it comes to its end, without a read outside the tables and the byte
  -- code, the buffer holds jumps with empty operands among other bytes, and the jump table has exactly the entries for
  -- these jumps, in order, each with the place of the operand. Conditions: the buffer and the jump table are empty at
  -- the start, the tables are valid, no entry is a comparison of references, and the pieces of code have room for their
  -- constants and break points.
  pub write_code-LaidOut : (s : Writing) → HasRoom t → IsFresh s → LaidOut (write_code mem t p s)
  unfolding write_code
  write_code-LaidOut s room f = finish_tables-LaidOut (write_loop mem t p (suc s.pctable.len) 0 s) (
      write_loop-LaidOut mem t p room (suc s.pctable.len) 0 s (fresh-IsGood s f) (omega arith)
        (omega arith))
