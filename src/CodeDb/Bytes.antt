-- ===== src/CodeDb/Bytes.antt =====
-- Numbers, entries and tables written to the page file and read back, with anything behind them.
use native.Mathlib.Nat.{pow-suc}
use shujit.Base.{
  ℕ, zero, suc, ◌+◌, ◌*◌, ◌/◌, ◌%◌, ◌^◌, ◌<◌, ◌≡◌, refl, List, [], ◌∷◌, ◌++◌, append_assoc, Option,
  some, ℤ, pos, negsuc, bits32, IsInt32, int32-bits32, length, arith,
}
use shujit.PcEntry.{PcEntry}
use shujit.ThrowTable.{ThrowEntry}
use shujit.CodeDb.{
  le, get_le, write_entry, read_entry, write_throw, read_throw, write_all, read_all, get_bytes,
}

pub get_le-le : (n w : ℕ) (rest : List ℕ) → w < 256 ^ n → get_le n (le n w ++ rest) ≡ some (w, rest)
unfolding le get_le
get_le-le zero w rest h = let e : w ≡ 0 = omega arith in rw e
get_le-le (suc n) w rest h =
    let small : w / 256 < 256 ^ n = omega (arith, pow-suc 256 n) in
    let same : w % 256 + 256 * (w / 256) ≡ w = omega arith in
    rw (get_le-le n (w / 256) rest small, same)

-- The fields of an entry lie in their C types.
pub record Fits (e : PcEntry) : Type 0 where
  pub opcode_fits : e.opcode < 2 ^ 16
  pub flag_fits : e.flag < 2 ^ 16
  pub operand_fits : IsInt32 e.operand
  pub byteoff_fits : IsInt32 e.byteoff
  pub increasing_byteoff_fits : IsInt32 e.increasing_byteoff
  pub nativeoff_fits : e.nativeoff < 2 ^ 32

pub record ThrowFits (e : ThrowEntry) : Type 0 where
  pub start_fits : e.start < 2 ^ 32
  pub byteoff_fits : e.byteoff < 2 ^ 16
  pub len_fits : e.len < 2 ^ 8
  pub patched_code_fits : e.patched_code < 2 ^ 8
  pub cb_fits : e.cb < 2 ^ 32
  pub opcode_fits : e.opcode < 2 ^ 16

bits32-lt : (a : ℤ) → bits32 a < 2 ^ 32
bits32-lt (pos n) = ground arith
bits32-lt (negsuc n) = ground arith

pub read_entry-write_entry :
    (e : PcEntry) (rest : List ℕ) → Fits e → read_entry (write_entry e ++ rest) ≡ some (e, rest)
unfolding read_entry write_entry
read_entry-write_entry e rest f = rw (
  append_assoc,
  append_assoc,
  append_assoc,
  append_assoc,
  append_assoc,
  get_le-le 2 e.opcode _ f.opcode_fits,
  get_le-le 2 e.flag _ f.flag_fits,
  get_le-le 4 (bits32 e.operand) _ (bits32-lt e.operand),
  get_le-le 4 (bits32 e.byteoff) _ (bits32-lt e.byteoff),
  get_le-le 4 (bits32 e.increasing_byteoff) _ (bits32-lt e.increasing_byteoff),
  get_le-le 4 e.nativeoff rest f.nativeoff_fits,
  int32-bits32 e.operand f.operand_fits,
  int32-bits32 e.byteoff f.byteoff_fits,
  int32-bits32 e.increasing_byteoff f.increasing_byteoff_fits,
)

pub read_throw-write_throw :
    (e : ThrowEntry) (rest : List ℕ)
    → ThrowFits e
    → read_throw (write_throw e ++ rest) ≡ some (e, rest)
unfolding read_throw write_throw
read_throw-write_throw e rest f = rw (
  append_assoc,
  append_assoc,
  append_assoc,
  append_assoc,
  append_assoc,
  get_le-le 4 e.start _ f.start_fits,
  get_le-le 2 e.byteoff _ f.byteoff_fits,
  get_le-le 1 e.len _ f.len_fits,
  get_le-le 1 e.patched_code _ f.patched_code_fits,
  get_le-le 4 e.cb _ f.cb_fits,
  get_le-le 2 e.opcode rest f.opcode_fits,
)

abbrev pub All : {A : Type 0} → (A → Type 0) → List A → Type 0
All P [] = Unit {0}
All P (x ∷ xs) = P x × All P xs

pub read_all-write_all :
    {A : Type 0} (read : List ℕ → Option (A × List ℕ)) (write : A → List ℕ) (P : A → Type 0)
    → ((e : A) (rest : List ℕ) → P e → read (write e ++ rest) ≡ some (e, rest))
    → (es : List A) (rest : List ℕ) → All P es
    → read_all read (length es) (write_all write es ++ rest) ≡ some (es, rest)
unfolding read_all write_all
read_all-write_all read write P back [] rest all = refl
read_all-write_all read write P back (e ∷ es) rest all = rw (
  append_assoc (write e) (write_all write es) rest,
  back e (write_all write es ++ rest) all.0,
  read_all-write_all read write P back es rest all.1,
)

pub get_bytes-append : (bs rest : List ℕ) → get_bytes (length bs) (bs ++ rest) ≡ some (bs, rest)
unfolding get_bytes
get_bytes-append [] rest = refl
get_bytes-append (b ∷ bs) rest = rw (get_bytes-append bs rest)
