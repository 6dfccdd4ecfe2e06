-- ===== src/Peephole/Examples.antt =====
-- Runs of the peephole pass.
use shujit.Base.{ℕ, ◌≡◌, refl, ℤ, pos, negsuc, List, [], ◌∷◌, arith}
use shujit.PcEntry.{PcEntry, state, block_head}
use shujit.Opcode.{opc_dst, opc_flush_cache, opc_dld, opc_istore, opc_iload, opc_istld}
use shujit.Peephole.{
  rewritten, dst_case, fst_case, fst_fastore_case, load_case, store_case, array_load_case,
  get_entry, peephole_loop, peephole_optimization,
}
use shujit.Peephole.Targets.{heads, heads-peephole_optimization}

abbrev insn : ℕ → ℤ → ℕ → ℕ → PcEntry
insn opcode operand offset flag = record {
  opcode = opcode;
  flag = flag;
  operand = operand;
  byteoff = pos offset;
  increasing_byteoff = pos offset;
  nativeoff = 0;
}

-- A block head, then a store and a load of variable 4, and a double that is stored and loaded.
abbrev body : List PcEntry
body =
    insn opc_istore (pos 4) 0 0x10
    ∷ insn opc_iload (pos 4) 2 0
    ∷ insn opc_dst (negsuc 0) 4 0
    ∷ insn opc_flush_cache (negsuc 0) 5 0
    ∷ insn opc_dld (negsuc 0) 5 0
    ∷ []

shrunk :
    peephole_optimization body
    ≡ insn opc_istld (pos 4) 0 0x10 ∷ insn opc_flush_cache (negsuc 0) 5 0 ∷ []
unfolding peephole_optimization peephole_loop rewritten dst_case fst_case fst_fastore_case load_case
    store_case array_load_case get_entry state block_head
shrunk = refl

heads-peephole_optimization_example : heads (peephole_optimization body) ≡ heads body
unfolding block_head
heads-peephole_optimization_example = heads-peephole_optimization body (
  (λ e. absurd (omega (arith, e))),
  ((λ e. refl), ((λ e. refl), ((λ e. refl), ((λ e. refl), tt)))),
)
