-- ===== src/CodeDb.antt =====
-- codedb.c: saving compiled code to a page file and a dbm data base, and reading it back.
-- The page file is the list of its bytes. The dbm library is a parameter. `none`: a read meets the
-- end of the file (the code does not look at what `read` returns).
-- EXC_BY_SIGNAL and PATCH_WITH_SIGTRAP are set, as in compiler.h.
pub mod Bytes
pub mod RoundTrip
mod Examples
use shujit.Base.{
  ℕ, zero, suc, ◌+◌, ◌*◌, ◌/◌, ◌%◌, List, [], ◌∷◌, ◌++◌, Option, none, some, ◌>>=◌, int32, bits32,
  length, take, drop, write_at, Realloc, ◌≡◌, ◌≢◌,
}
use shujit.PcEntry.{PcEntry}
use shujit.PcTable.{PcTable, pctable_set_len, pctable_extend}
use shujit.ThrowTable.{ThrowEntry, ThrowTable, throwtable_extend}

-- `sym_dbm_store` with DBM_REPLACE and `sym_dbm_fetch`, for a key and an offset in the page file.
pub record Dbm : Type 1 where
  pub Db : Type 0
  pub store : Db → List ℕ → ℕ → Db
  pub fetch : Db → List ℕ → Option ℕ
  pub fetch-store : (db : Db) (key : List ℕ) (v : ℕ) → fetch (store db key v) key ≡ some v
  pub fetch-store_ne :
      (db : Db) (key key' : List ℕ) (v : ℕ)
      → key ≢ key'
      → fetch (store db key v) key' ≡ fetch db key'

-- The names of a method, as bytes.
pub record Method : Type 0 where
  pub class_name : List ℕ
  pub name : List ℕ
  pub signature : List ℕ

-- `snprintf(sig, MAX_SIG_LEN, "%s#%s%s", ...)`: at most 255 characters.
pub sig : Method → List ℕ
sig m = take 255 (m.class_name ++ (b'#' ∷ (m.name ++ m.signature)))

-- The parts of a `CodeInfo` and a method block that are saved.
pub record CodeInfo : Type 0 where
  pub code_size : ℕ
  pub exc_handler_nativeoff : ℕ
  pub finish_return_nativeoff : ℕ
  pub throwtable : ThrowTable
  pub compiled_code : List ℕ

-- `write(fd, &x, n)` of a number in memory, and `read(fd, &x, n)`.
pub le : ℕ → ℕ → List ℕ
le zero w = []
le (suc n) w = w % 256 ∷ le n (w / 256)

pub get_le : ℕ → List ℕ → Option (ℕ × List ℕ)
get_le zero bytes = some (0, bytes)
get_le (suc n) [] = none
get_le (suc n) (b ∷ bytes) = do (v, rest) ← get_le n bytes; some (b + 256 * v, rest)

pub write_entry : PcEntry → List ℕ
write_entry e =
    le 2 e.opcode
    ++ (le 2 e.flag
        ++ (le 4 (bits32 e.operand)
            ++ (le 4 (bits32 e.byteoff)
                ++ (le 4 (bits32 e.increasing_byteoff) ++ le 4 e.nativeoff))))

pub read_entry : List ℕ → Option (PcEntry × List ℕ)
read_entry bytes = do
  (opcode, bytes) ← get_le 2 bytes
  (flag, bytes) ← get_le 2 bytes
  (operand, bytes) ← get_le 4 bytes
  (byteoff, bytes) ← get_le 4 bytes
  (increasing_byteoff, bytes) ← get_le 4 bytes
  (nativeoff, bytes) ← get_le 4 bytes
  some (
    record {
      opcode = opcode;
      flag = flag;
      operand = int32 operand;
      byteoff = int32 byteoff;
      increasing_byteoff = int32 increasing_byteoff;
      nativeoff = nativeoff;
    },
    bytes,
  )

pub write_throw : ThrowEntry → List ℕ
write_throw e =
    le 4 e.start
    ++ (le 2 e.byteoff ++ (le 1 e.len ++ (le 1 e.patched_code ++ (le 4 e.cb ++ le 2 e.opcode))))

pub read_throw : List ℕ → Option (ThrowEntry × List ℕ)
read_throw bytes = do
  (start, bytes) ← get_le 4 bytes
  (byteoff, bytes) ← get_le 2 bytes
  (len, bytes) ← get_le 1 bytes
  (patched_code, bytes) ← get_le 1 bytes
  (cb, bytes) ← get_le 4 bytes
  (opcode, bytes) ← get_le 2 bytes
  some (
    record {
      start = start;
      byteoff = byteoff;
      len = len;
      patched_code = patched_code;
      cb = cb;
      opcode = opcode;
    },
    bytes,
  )

-- `for (i = 0; i < len; i++)` over the entries of a table.
pub write_all : {A : Type 0} → (A → List ℕ) → List A → List ℕ
write_all write [] = []
write_all write (e ∷ es) = write e ++ write_all write es

pub read_all : {A : Type 0} → (List ℕ → Option (A × List ℕ)) → ℕ → List ℕ → Option (List A × List ℕ)
read_all read zero bytes = some ([], bytes)
read_all read (suc n) bytes = do
  (e, bytes) ← read bytes
  (es, bytes) ← read_all read n bytes
  some (e ∷ es, bytes)

-- `read(fd, mb->CompiledCode, n)`
pub get_bytes : ℕ → List ℕ → Option (List ℕ × List ℕ)
get_bytes zero bytes = some ([], bytes)
get_bytes (suc n) [] = none
get_bytes (suc n) (b ∷ bytes) = do (bs, rest) ← get_bytes n bytes; some (b ∷ bs, rest)

-- What one call of writeCompiledCode writes.
pub image : PcTable → CodeInfo → List ℕ
image t info =
    le 4 info.code_size
    ++ (le 4 t.len
        ++ (le 4 info.throwtable.len
            ++ (le 4 info.exc_handler_nativeoff
                ++ (le 4 info.finish_return_nativeoff
                    ++ (write_all write_entry (take t.len t.entries)
                        ++ (write_all write_throw (take info.throwtable.len info.throwtable.entries)
                            ++ take info.code_size info.compiled_code))))))

module _ (pcs : Realloc PcEntry) (throws : Realloc ThrowEntry) where
  -- Reading at the position found, into the tables of the compiler context and the code info.
  pub read_image : List ℕ → PcTable → CodeInfo → Option (PcTable × CodeInfo)
  read_image bytes t info = do
    (code_size, bytes) ← get_le 4 bytes
    (len, bytes) ← get_le 4 bytes
    (throwtablelen, bytes) ← get_le 4 bytes
    (exc_handler_nativeoff, bytes) ← get_le 4 bytes
    (finish_return_nativeoff, bytes) ← get_le 4 bytes
    (entries, bytes) ← read_all read_entry len bytes
    let t' = pctable_extend pcs (pctable_set_len t len) len
    (tentries, bytes) ← read_all read_throw throwtablelen bytes
    let tt' =
        throwtable_extend throws (record info.throwtable { len = throwtablelen }) throwtablelen
    (code, bytes) ← get_bytes code_size bytes
    some (
      record t' { entries = write_at 0 entries t'.entries },
      record {
        code_size = code_size;
        exc_handler_nativeoff = exc_handler_nativeoff;
        finish_return_nativeoff = finish_return_nativeoff;
        throwtable = record tt' { entries = write_at 0 tentries tt'.entries };
        compiled_code = code;
      },
    )

-- What was fetched decides. `some none`: the code is not in the data base, and the function
-- returns 0.
pub read_fetched :
    Realloc PcEntry
    → Realloc ThrowEntry
    → List ℕ
    → PcTable
    → CodeInfo
    → Option ℕ
    → Option (Option (PcTable × CodeInfo))
read_fetched pcs throws page t info none = some none
read_fetched pcs throws page t info (some offset) = do
  r ← read_image pcs throws (drop offset page) t info
  some (some r)

module _ (dbm : Dbm) where
  open dbm use {Db, store, fetch}

  -- It appends to the page file, and stores the position under the method's key.
  pub write_compiled_code : Db → List ℕ → Method → PcTable → CodeInfo → Db × List ℕ
  write_compiled_code db page m t info = (store db (sig m) (length page), page ++ image t info)

  pub read_compiled_code :
      Realloc PcEntry
      → Realloc ThrowEntry
      → Db
      → List ℕ
      → Method
      → PcTable
      → CodeInfo
      → Option (Option (PcTable × CodeInfo))
  read_compiled_code pcs throws db page m t info =
      read_fetched pcs throws page t info (fetch db (sig m))
