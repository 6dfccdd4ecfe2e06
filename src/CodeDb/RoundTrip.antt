-- ===== src/CodeDb/RoundTrip.antt =====
-- Compiled code that was written is read back, whatever is written behind it.
use shujit.Base.{
  ℕ, ◌^◌, ◌≤◌, ◌<◌, ◌≡◌, ◌≢◌, refl, sym, ap, ◌∙◌, List, [], ◌∷◌, ◌++◌, append_assoc, append-nil,
  Option, some, length, length-take, take, drop, drop-append_eq, write_at, take-write_at_front,
  length-write_at, Realloc, arith,
}
use shujit.PcEntry.{PcEntry}
use shujit.PcTable.{PcTable, pctable_set_len, pctable_extend}
use shujit.PcTable.Inv as PcInv
use shujit.ThrowTable.{ThrowEntry, ThrowTable, throwtable_extend}
use shujit.ThrowTable.Laws as ThrowLaws
use shujit.CodeDb.{
  Dbm, Method, sig, CodeInfo, write_entry, read_entry, write_throw, read_throw, write_all, read_all,
  get_bytes, image, write_compiled_code, read_image, read_fetched, read_compiled_code,
}
use shujit.CodeDb.Bytes.{
  get_le-le, Fits, ThrowFits, All, read_entry-write_entry, read_throw-write_throw,
  read_all-write_all, get_bytes-append,
}

-- What is written: tables in use whose entries lie in their C types, and code of the size given.
pub record Writable (t : PcTable) (info : CodeInfo) : Type 0 where
  pub valid : PcInv.IsValid t
  pub throws_valid : ThrowLaws.IsValid info.throwtable
  pub entries_fit : All Fits (PcInv.view t)
  pub throws_fit : All ThrowFits (ThrowLaws.view info.throwtable)
  pub code_there : info.code_size ≤ length info.compiled_code
  pub code_size_fits : info.code_size < 2 ^ 32
  pub len_fits : t.len < 2 ^ 32
  pub throws_len_fits : info.throwtable.len < 2 ^ 32
  pub exc_handler_fits : info.exc_handler_nativeoff < 2 ^ 32
  pub finish_return_fits : info.finish_return_nativeoff < 2 ^ 32

-- What a reading brings back.
pub record Saved (t : PcTable) (info : CodeInfo) (t' : PcTable) (info' : CodeInfo) : Type 0 where
  pub valid : PcInv.IsValid t'
  pub throws_valid : ThrowLaws.IsValid info'.throwtable
  pub same_entries : PcInv.view t' ≡ PcInv.view t
  pub same_throws : ThrowLaws.view info'.throwtable ≡ ThrowLaws.view info.throwtable
  pub same_size : info'.code_size ≡ info.code_size
  pub same_code : info'.compiled_code ≡ take info.code_size info.compiled_code
  pub same_exc_handler : info'.exc_handler_nativeoff ≡ info.exc_handler_nativeoff
  pub same_finish_return : info'.finish_return_nativeoff ≡ info.finish_return_nativeoff

read_counted :
    {A : Type 0} (read : List ℕ → Option (A × List ℕ)) (write : A → List ℕ) (P : A → Type 0)
    → ((e : A) (rest : List ℕ) → P e → read (write e ++ rest) ≡ some (e, rest))
    → (n : ℕ) (es : List A) → n ≡ length es
    → All P es
    → (rest : List ℕ) → read_all read n (write_all write es ++ rest) ≡ some (es, rest)
read_counted read write P back n es e all rest =
    rw e (read_all-write_all read write P back es rest all)

read_back_code :
    (n : ℕ) (bs rest : List ℕ) → n ≡ length bs → get_bytes n (bs ++ rest) ≡ some (bs, rest)
read_back_code n bs rest e = rw e (get_bytes-append bs rest)

-- What was written to a data base, in order.
abbrev pub Written : Type 0
Written = Method × (PcTable × CodeInfo)

abbrev pub NoneHas : List ℕ → List Written → Type 0
NoneHas key [] = Unit {0}
NoneHas key ((m, r) ∷ ws) = (sig m ≢ key) × NoneHas key ws

module _ (dbm : Dbm) where
  pub write_many : dbm.Db → List ℕ → List Written → dbm.Db × List ℕ
  write_many db page [] = (db, page)
  write_many db page ((m, (t, info)) ∷ ws) =
      let (db', page') = write_compiled_code dbm db page m t info in write_many db' page' ws

  -- Later writings under other keys leave the key's position, and only append to the page file.
  write_many-other :
      (db : dbm.Db) (page key : List ℕ) (ws : List Written)
      → NoneHas key ws
      → let (db', page') = write_many db page ws in
        (dbm.fetch db' key ≡ dbm.fetch db key) × ((more : List ℕ) × (page' ≡ page ++ more))
  unfolding write_many write_compiled_code
  write_many-other db page key [] other = (refl, ([], sym (append-nil page)))
  write_many-other db page key ((m, (t, info)) ∷ ws) other =
      let (same, (more, e)) =
        write_many-other (dbm.store db (sig m) (length page)) (page ++ image t info) key ws
          other.1 in
      (
        same ∙ dbm.fetch-store_ne db (sig m) key (length page) other.0,
        (image t info ++ more, e ∙ append_assoc page (image t info) more),
      )

module _ (pcs : Realloc PcEntry) (throws : Realloc ThrowEntry) where
  -- The tables with the entries read in the room made for them.
  abbrev with_entries : PcTable → ℕ → List PcEntry → PcTable
  with_entries t len es =
      let t' = pctable_extend pcs (pctable_set_len t len) len in
      record t' { entries = write_at 0 es t'.entries }

  abbrev with_throws : ThrowTable → ℕ → List ThrowEntry → ThrowTable
  with_throws t len es =
      let t' = throwtable_extend throws (record t { len = len }) len in
      record t' { entries = write_at 0 es t'.entries }

  loaded :
      (t : PcTable) (len : ℕ) (es : List PcEntry)
      → PcInv.IsValid t
      → len ≡ length es
      → PcInv.IsValid (with_entries t len es) × (PcInv.view (with_entries t len es) ≡ es)
  loaded t len es v n =
      let t' = pctable_extend pcs (pctable_set_len t len) len in
      let (w, same) = PcInv.pctable_extend-pctable_set_len pcs t len v in
      let room : length es ≤ length t'.entries = omega (arith, same, w.block, w.inside) in
      (
        record {
          block = length-write_at 0 es t'.entries (omega arith) ∙ w.block;
          inside = w.inside;
          some_room = w.some_room;
        },
        ap (λ k. take k (write_at 0 es t'.entries)) (same ∙ n)
            ∙ take-write_at_front es t'.entries room,
      )

  throws_loaded :
      (t : ThrowTable) (len : ℕ) (es : List ThrowEntry)
      → ThrowLaws.IsValid t
      → len ≡ length es
      → ThrowLaws.IsValid (with_throws t len es) × (ThrowLaws.view (with_throws t len es) ≡ es)
  throws_loaded t len es v n =
      let t' = throwtable_extend throws (record t { len = len }) len in
      let (w, same) = ThrowLaws.throwtable_extend-len throws t len v in
      let room : length es ≤ length t'.entries = omega (arith, same, w.block, w.inside) in
      (
        record {
          block = length-write_at 0 es t'.entries (omega arith) ∙ w.block;
          inside = w.inside;
        },
        ap (λ k. take k (write_at 0 es t'.entries)) (same ∙ n)
            ∙ take-write_at_front es t'.entries room,
      )

  abbrev read_back : CodeInfo → CodeInfo → CodeInfo
  read_back info info' = record {
    code_size = info.code_size;
    exc_handler_nativeoff = info.exc_handler_nativeoff;
    finish_return_nativeoff = info.finish_return_nativeoff;
    throwtable = with_throws info'.throwtable info.throwtable.len (ThrowLaws.view info.throwtable);
    compiled_code = take info.code_size info.compiled_code;
  }

  pub read_image-image :
      (t t' : PcTable) (info info' : CodeInfo) (rest : List ℕ)
      → Writable t info
      → PcInv.IsValid t'
      → ThrowLaws.IsValid info'.throwtable
      → (t2 : PcTable) × (info2 : CodeInfo) × (read_image pcs throws (image t info ++ rest) t' info'
          ≡ some (t2, info2))
        × Saved t info t2 info2
  unfolding read_image image
  read_image-image t t' info info' rest w v u =
      let es = PcInv.view t in
      let ts = ThrowLaws.view info.throwtable in
      let code = take info.code_size info.compiled_code in
      let n : t.len ≡ length es =
        omega (arith, length-take t.len t.entries, w.valid.inside, w.valid.block) in
      let k : info.throwtable.len ≡ length ts = omega (
        arith,
        length-take info.throwtable.len info.throwtable.entries,
        w.throws_valid.inside,
        w.throws_valid.block,
      ) in
      let c : info.code_size ≡ length code =
        omega (arith, length-take info.code_size info.compiled_code, w.code_there) in
      let (good, same) = loaded t' t.len es v n in
      let (good', same') = throws_loaded info'.throwtable info.throwtable.len ts u k in
      (
        with_entries t' t.len es,
        read_back info info',
        rw (
          append_assoc,
          append_assoc,
          append_assoc,
          append_assoc,
          append_assoc,
          append_assoc,
          append_assoc,
          get_le-le 4 info.code_size _ w.code_size_fits,
          get_le-le 4 t.len _ w.len_fits,
          get_le-le 4 info.throwtable.len _ w.throws_len_fits,
          get_le-le 4 info.exc_handler_nativeoff _ w.exc_handler_fits,
          get_le-le 4 info.finish_return_nativeoff _ w.finish_return_fits,
          read_counted read_entry write_entry Fits read_entry-write_entry t.len es n w.entries_fit
              _,
          read_counted read_throw write_throw ThrowFits read_throw-write_throw info.throwtable.len
              ts k w.throws_fit _,
          read_back_code info.code_size code rest c,
        ),
        record {
          valid = good;
          throws_valid = good';
          same_entries = same;
          same_throws = same';
          same_size = refl;
          same_code = refl;
          same_exc_handler = refl;
          same_finish_return = refl;
        },
      )

  module _ (dbm : Dbm) where
    read_at :
        (db : dbm.Db) (page : List ℕ) (m : Method) (t : PcTable) (info : CodeInfo) (offset : ℕ)
        → (r : PcTable × CodeInfo) → dbm.fetch db (sig m) ≡ some offset
        → read_image pcs throws (drop offset page) t info ≡ some r
        → read_compiled_code dbm pcs throws db page m t info ≡ some (some r)
    unfolding read_compiled_code read_fetched
    read_at db page m t info offset r e k = rw (e, k)

    -- Code that was saved for a method is read back, also after code of other methods was saved
    -- behind it under other keys: the entries of both tables, the code and its size, and the two
    -- offsets are the ones written, and both tables are valid. It is read back for every method
    -- with the same key, whatever the tables held before. Conditions: the tables written and the
    -- tables read into are valid, and every field written lies in its C type.
    pub read_compiled_code-write_compiled_code :
        (db : dbm.Db) (page : List ℕ) (m m' : Method) (t t' : PcTable) (info info' : CodeInfo)
        → (ws : List Written) → Writable t info
        → PcInv.IsValid t'
        → ThrowLaws.IsValid info'.throwtable
        → NoneHas (sig m) ws
        → sig m' ≡ sig m
        → let (db1, page1) = write_compiled_code dbm db page m t info in
          let (db2, page2) = write_many dbm db1 page1 ws in
          (t2 : PcTable) × (info2 : CodeInfo) × (read_compiled_code dbm pcs throws db2 page2 m' t'
              info'
            ≡ some (some (t2, info2)))
          × Saved t info t2 info2
    unfolding write_compiled_code
    read_compiled_code-write_compiled_code db page m m' t t' info info' ws w v u other key =
        let (same, (more, e)) =
          write_many-other dbm (dbm.store db (sig m) (length page)) (page ++ image t info) (sig m)
            ws other in
        let (db1, page1) = write_compiled_code dbm db page m t info in
        let (db2, page2) = write_many dbm db1 page1 ws in
        let (t2, info2, read, saved) = read_image-image t t' info info' more w v u in
        (
          t2,
          info2,
          read_at db2 page2 m' t' info' (length page) (t2, info2)
              (rw key (same ∙ dbm.fetch-store db (sig m) (length page)))
              (rw
                (
                  e,
                  append_assoc page (image t info) more,
                  drop-append_eq (length page) page (image t info ++ more) refl,
                )
                read),
          saved,
        )
