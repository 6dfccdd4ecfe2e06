-- ===== src/WriteCode/Every.antt =====
-- Every jump of a run of writeCode.
use shujit.Base.{ℕ, ◌≤◌, ◌<◌, ◌≡◌, refl, sym, some, subst, get_elem?, arith}
use shujit.PcEntry.{PcEntry}
use shujit.Opcode.{opc_ifeq, opc_ret}
use shujit.WriteCode.Machine.{Templates, Pools, Memory, Writing}
use shujit.WriteCode.Piece.{put_piece}
use shujit.WriteCode.Branch.{branch}
use shujit.WriteCode.Rounds.{next_entry, write_entry}
use shujit.WriteCode.Keeps.{AllCased-get, IsGood}
use shujit.WriteCode.PieceLaid.{HasRoom, put_piece-Open}
use shujit.WriteCode.Sound.{IsFresh, fresh-IsGood, write_entry-Closed}
use shujit.WriteCode.Jumps.{JumpsByCode, branch-JumpsByCode}

module _ (mem : Memory) (t : Templates) (p : Pools) where
  -- The loop comes to the entry at `i` in the state `s`.
  pub data Reached (start : Writing) : ℕ → Writing → Type 0 where
    begins : (i : ℕ) (s : Writing) → i ≡ 0 → s ≡ start → Reached start i s
    goes_on :
        (k i : ℕ) (u s : Writing)
        → Reached start k u
        → k < u.pctable.len
        → write_entry mem t p k u ≡ some (next_entry i s)
        → Reached start i s

  Reached-IsGood :
      (start : Writing) (i : ℕ) (s : Writing)
      → HasRoom t
      → IsFresh start
      → Reached start i s
      → IsGood s.buffer s.jptable s.pctable s.nativeoff
  Reached-IsGood start i s room f (begins _ _ at same) =
      subst (λ (x : Writing). IsGood x.buffer x.jptable x.pctable x.nativeoff) (sym same)
        (fresh-IsGood start f)
  Reached-IsGood start i s room f (goes_on k _ u _ before inside run) =
      (write_entry-Closed mem t p room k u (next_entry i s) (Reached-IsGood start k u room f before)
        inside run).0

  -- In every round of writeCode whose entry is a jump, other than the return from a subroutine, the jump is written and
  -- registered behind the piece of the entry, and nothing else is: with the target that the byte code has, the sum of the
  -- offset of the entry and the one behind the opcode, and with the place of the operand, which is left empty. The jump is
  -- on the condition on which the byte code jumps, where the cache is in the state of the target already; else on the
  -- opposite condition over a change of state and a jump; `goto` and `jsr` are the change of state and a jump. Conditions:
  -- the buffer and the jump table are empty at the start, the tables are valid, no entry is a comparison of references, the
  -- pieces of code have room for their constants and break points, and the round writes its piece and the jump, whose
  -- target is in the table.
  pub write_code-JumpsByCode :
      (start : Writing) (i : ℕ) (s s1 : Writing) (e : PcEntry) (r : ℕ × Writing)
      → HasRoom t
      → IsFresh start
      → Reached start i s
      → i < s.pctable.len
      → get_elem? s.pctable.entries i ≡ some e
      → opc_ifeq ≤ e.opcode
      → e.opcode < opc_ret
      → put_piece mem p t i e s ≡ some s1
      → branch mem t p i e s1 ≡ some r
      → JumpsByCode mem t e p s1 r.1
  write_code-JumpsByCode start i s s1 e r room f reached h at low high piece run =
      let g = Reached-IsGood start i s room f reached in
      let c = AllCased-get s.pctable.len i s.pctable.entries e g.cased h at in
      let (o, n) = put_piece-Open mem p t room s.pctable.len i e s s1 c (g, refl) piece in
      branch-JumpsByCode mem t e p i s1 r (omega (arith, n, h)) c low high
        (record {
          buffer = o.laid.buffer;
          jptable = o.laid.table;
          pctable = o.table;
          at_end = o.at_end;
        })
        run
