-- ===== src/WriteCode/Rounds.antt =====
-- The loop over the pc table, and what stands before and behind it.
use shujit.Base.{
  ℕ, zero, suc, [], Option, none, some, ◌>>=◌, Bool, false, ltb, ◌==◌, if◌then◌else◌, get_elem?, ℤ,
}
use shujit.Stack.{new_stack}
use shujit.PcEntry.{PcEntry}
use shujit.PcTable.{PcTable}
use shujit.ThrowTable.{ThrowTable}
use shujit.JpTable.{JpTable}
use shujit.Contexts.Output.{Buffer}
use shujit.WriteCode.Machine.{Templates, Pools, Memory, Writing, ResolvedEntries}
use shujit.WriteCode.Piece.{put_piece}
use shujit.WriteCode.Branch.{branch}
use shujit.WriteCode.Constants.{Resolution, words, leave, resolve_constants, copy_constants}

-- The end of a round: the next index, or `goto writecode_done`.
pub data Round : Type 0 where
  next_entry : ℕ → Writing → Round
  leave_loop : Bool → Writing → Round

-- The end of the loop with `ret`. `fault`: memory outside the tables or the byte code is read. `running`: the fuel ran
-- out.
pub data Ended : Type 0 where
  ended : Bool → Writing → Ended
  fault running : Ended

module _ (mem : Memory) (t : Templates) (p : Pools) where
  -- `nativeoff = nextoff`, and `i++`.
  unfoldable pub close_round : ℕ → PcEntry → Resolution → Round
  close_round i e (words wss s) =
      let s' = copy_constants mem t p e 0 wss s in
      next_entry (suc i) (record s' { nativeoff = s'.nextoff })
  close_round i e (leave ret s) = leave_loop ret s

  unfoldable pub write_entry : ℕ → Writing → Option Round
  unfolding put_piece branch resolve_constants close_round
  write_entry i s = do
    e ← get_elem? s.pctable.entries i
    s1 ← put_piece mem p t i e s
    (i', s2) ← branch mem t p i e s1
    r ← resolve_constants mem t p e s2
    some (close_round i' e r)

  unfoldable pub write_loop : ℕ → ℕ → Writing → Ended
  write_loop zero i s = running
  write_loop (suc fuel) i s =
      if ltb i s.pctable.len
      then elim (write_entry i s) as (λ r. Ended) [
        | none ↦ fault
        | some (next_entry i' s') ↦ write_loop fuel i' s'
        | some (leave_loop ret s') ↦ ended ret s'
      ]
      else ended false s

  -- The label `writecode_done`: the throw table shrinks to what is in use.
  unfoldable pub shrink : ThrowTable → ThrowTable
  shrink table =
      if table.len == 0
      then record table { entries = []; size = 0 }
      else if ltb table.len table.size
      then record table {
        entries = mem.throwentries.grow table.entries table.len;
        size = table.len;
      }
      else table

  unfoldable pub finish_tables : Ended → Ended
  unfolding shrink
  finish_tables (ended ret s) = ended ret (record s { throwtable = shrink s.throwtable })
  finish_tables fault = fault
  finish_tables running = running

  -- What the function finds in the context and in the code info of the method.
  unfoldable pub started :
      ℤ → ResolvedEntries → Buffer → PcTable → JpTable → ThrowTable → ℕ → ℕ → Writing
  started mb resolved buffer pctable jptable throwtable handler finish = record {
    buffer = buffer;
    pctable = pctable;
    jptable = jptable;
    throwtable = throwtable;
    exc_handler_nativeoff = handler;
    finish_return_nativeoff = finish;
    nativeoff = 0;
    nextoff = 0;
    insn_head_off = 0;
    mb = mb;
    stack = new_stack mem.elems;
    resolved = resolved;
  }

  -- Each round but the last takes one entry, and leaves as many to come.
  unfoldable pub write_code : Writing → Ended
  unfolding write_loop finish_tables
  write_code s = finish_tables (write_loop (suc s.pctable.len) 0 s)
