-- ===== src/WriteCode/Keeps.antt =====
-- The states between the steps of a round: what is laid, the entries of the table, and where the piece of the entry stands.
use shujit.Base.{
  ℕ, zero, suc, ◌+◌, ◌≤◌, ◌<◌, ◌≡◌, ◌≢◌, refl, sym, ◌∙◌, List, [], ◌∷◌, ◌++◌, some, none-ne-some,
  some-injective, bind-some, subst, append-nil, length, length-write_at, take, drop, set, get_elem?,
  write_at, arith,
}
use shujit.PcEntry.{PcEntry}
use shujit.PcTable.{PcTable}
use shujit.PcTable.Inv as Pc
use shujit.JpTable.{JpTable}
use shujit.Contexts.Output.{Buffer, write_to_buffer}
use shujit.Jump.Sites.{Site, plain, emit}
use shujit.Opcode.{opc_if_acmpeq, opc_if_acmpne}
use shujit.WriteCode.Machine.{Memory, Writing, poke, write_bytes}
use shujit.WriteCode.Grown.{write_to_buffer-some}
use shujit.WriteCode.Layout.{IsLaid, offset-emit, overwrite-IsLaid, append-IsLaid}

-- The switch over conditions has no case for these opcodes; the translation does not add them.
abbrev pub IsCased : PcEntry → Type 0
IsCased e = (e.opcode ≢ opc_if_acmpeq) × (e.opcode ≢ opc_if_acmpne)

abbrev pub AllCased : List PcEntry → Type 0
AllCased [] = Unit {0}
AllCased (e ∷ entries) = IsCased e × AllCased entries

pub AllCased-append : (xs ys : List PcEntry) → AllCased xs → AllCased ys → AllCased (xs ++ ys)
AllCased-append [] ys p q = q
AllCased-append (x ∷ xs) ys p q = (p.0, AllCased-append xs ys p.1 q)

pub AllCased-take : (n : ℕ) (xs : List PcEntry) → AllCased xs → AllCased (take n xs)
AllCased-take zero xs p = tt
AllCased-take (suc n) [] p = tt
AllCased-take (suc n) (x ∷ xs) p = (p.0, AllCased-take n xs p.1)

pub AllCased-drop : (n : ℕ) (xs : List PcEntry) → AllCased xs → AllCased (drop n xs)
AllCased-drop zero xs p = p
AllCased-drop (suc n) [] p = tt
AllCased-drop (suc n) (x ∷ xs) p = AllCased-drop n xs p.1

pub AllCased-get :
    (n i : ℕ) (xs : List PcEntry) (e : PcEntry)
    → AllCased (take n xs)
    → i < n
    → get_elem? xs i ≡ some e
    → IsCased e
AllCased-get zero i xs e p h q = absurd (omega arith)
AllCased-get (suc n) i [] e p h q = absurd (none-ne-some e q)
AllCased-get (suc n) zero (x ∷ xs) e p h q = subst IsCased (some-injective _ _ q) p.0
AllCased-get (suc n) (suc i) (x ∷ xs) e p h q = AllCased-get n i xs e p.1 (omega arith) q

pub AllCased-set :
    (n i : ℕ) (xs : List PcEntry) (e : PcEntry)
    → AllCased (take n xs)
    → IsCased e
    → AllCased (take n (set xs i e))
AllCased-set zero i xs e p q = tt
AllCased-set (suc n) i [] e p q = tt
AllCased-set (suc n) zero (x ∷ xs) e p q = (q, p.1)
AllCased-set (suc n) (suc i) (x ∷ xs) e p q = (p.0, AllCased-set n i xs e p.1 q)

-- Between two rounds.
pub record IsGood (b : Buffer) (j : JpTable) (t : PcTable) (here : ℕ) : Type 0 where
  pub sites : List Site
  pub laid : IsLaid b j sites
  pub at_end : here ≡ b.offset
  pub table : Pc.IsValid t
  pub cased : AllCased (Pc.view t)

abbrev pub Good : ℕ → Writing → Type 0
Good count s = IsGood s.buffer s.jptable s.pctable s.nativeoff × (s.pctable.len ≡ count)

-- In a round, with the piece of `len` bytes among the others at `here`, and the end of all at `next`.
pub record IsOpen (b : Buffer) (j : JpTable) (t : PcTable) (here head next len : ℕ) : Type 0 where
  pub before : List Site
  pub bytes : List ℕ
  pub behind : List Site
  pub laid : IsLaid b j (before ++ plain bytes ∷ behind)
  pub is_here : here ≡ length (emit before)
  pub is_head : head ≡ length (emit before)
  pub at_end : next ≡ b.offset
  pub size : length bytes ≡ len
  pub table : Pc.IsValid t
  pub cased : AllCased (Pc.view t)

abbrev pub OpenTo : ℕ → ℕ → Writing → Type 0
OpenTo next len s = IsOpen s.buffer s.jptable s.pctable s.nativeoff s.insn_head_off next len

abbrev pub Open : ℕ → Writing → Type 0
Open len s = OpenTo s.nextoff len s

-- While the piece is the last one.
abbrev pub Piece : ℕ → ℕ → Writing → Type 0
Piece count len s = OpenTo (s.nativeoff + len) len s × (s.pctable.len ≡ count)

-- A write into the piece.
pub poke-OpenTo :
    (next len k at : ℕ) (new : List ℕ) (s : Writing)
    → at ≡ s.insn_head_off + k
    → k + length new ≤ len
    → OpenTo next len s
    → OpenTo next len (poke at new s)
poke-OpenTo next len k at new s e h o =
    let room : k + length new ≤ length o.bytes = omega (arith, o.size) in
    let place : length (emit o.before) + k ≡ at = omega (arith, o.is_head, e) in
    record {
      before = o.before;
      bytes = write_at k new o.bytes;
      behind = o.behind;
      laid =
          subst
            (λ (n : ℕ).
              IsLaid (record s.buffer { block = write_at n new s.buffer.block }) s.jptable
                (o.before ++ plain (write_at k new o.bytes) ∷ o.behind))
            place (overwrite-IsLaid s.buffer s.jptable o.before o.bytes o.behind k new o.laid room);
      is_here = o.is_here;
      is_head = o.is_head;
      at_end = o.at_end;
      size = length-write_at k new o.bytes room ∙ o.size;
      table = o.table;
      cased = o.cased;
    }

module _ (mem : Memory) where
  -- Bytes that have been written, for a state whose buffer is laid.
  pub write_bytes-some :
      (s : Writing) (bytes : List ℕ) (s' : Writing) (sites : List Site)
      → IsLaid s.buffer s.jptable sites
      → write_bytes mem s bytes ≡ some s'
      → (b : Buffer) × (record s { buffer = b } ≡ s')
        × IsLaid b s.jptable (sites ++ plain bytes ∷ [])
        × (b.offset ≡ s.buffer.offset + length bytes)
  unfolding write_bytes
  write_bytes-some s bytes s' sites l e =
      let (b, e1, k) = bind-some (write_to_buffer mem.bytes s.buffer bytes) _ s' e in
      let (v, w, n) = write_to_buffer-some mem.bytes s.buffer bytes b l.buffer e1 in
      (
        b,
        some-injective _ _ k,
        append-IsLaid s.buffer s.jptable sites (plain bytes) b s.jptable l tt v w l.table
            (sym (append-nil _)),
        n,
      )

  -- Bytes between two rounds.
  pub write_bytes-Good :
      (count : ℕ) (s : Writing) (bytes : List ℕ) (n : ℕ) (s' : Writing)
      → Good count s
      → length bytes ≡ n
      → write_bytes mem s bytes ≡ some s'
      → Good count (record s' { nativeoff = s'.nativeoff + n })
  write_bytes-Good count s bytes n s' g size e =
      let (b, same, l, at) = write_bytes-some s bytes s' g.0.sites g.0.laid e in
      subst (λ (x : Writing). Good count (record x { nativeoff = x.nativeoff + n })) same
        (
          record {
            sites = g.0.sites ++ plain bytes ∷ [];
            laid = l;
            at_end = omega (arith, at, g.0.at_end, size);
            table = g.0.table;
            cased = g.0.cased;
          },
          g.1,
        )

  -- The piece of an entry.
  pub write_bytes-Piece :
      (count : ℕ) (s : Writing) (code : List ℕ) (s' : Writing)
      → Good count s
      → s.insn_head_off ≡ s.buffer.offset
      → write_bytes mem s code ≡ some s'
      → Piece count (length code) s'
  write_bytes-Piece count s code s' g head e =
      let (b, same, l, at) = write_bytes-some s code s' g.0.sites g.0.laid e in
      let start = offset-emit s.buffer s.jptable g.0.sites g.0.laid in
      subst (Piece count (length code)) same (
        record {
          before = g.0.sites;
          bytes = code;
          behind = [];
          laid = l;
          is_here = g.0.at_end ∙ start;
          is_head = head ∙ start;
          at_end = omega (arith, at, g.0.at_end);
          size = refl;
          table = g.0.table;
          cased = g.0.cased;
        },
        g.1,
      )
