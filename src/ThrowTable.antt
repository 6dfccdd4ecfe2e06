-- ===== src/ThrowTable.antt =====
-- computil.c: the table that leads from an address in native code to the byte code that may throw
-- there. `entries` is the allocated block (empty while the pointer is null).
pub mod Laws
pub mod Search
mod Examples
use shujit.Base.{
  Bool, ℕ, zero, suc, ◌+◌, ◌-◌, ◌/◌, ◌%◌, ◌^◌, List, [], ◌∷◌, Option, none, some, ◌>>=◌, ◌&&◌, ltb,
  leb, ◌==◌, if◌then◌else◌, get_elem?, write_at, Realloc, double_until,
}

-- `PATCH_WITH_SIGTRAP` is set; `cb` is a pointer.
pub record ThrowEntry : Type 0 where
  pub start : ℕ
  pub byteoff : ℕ
  pub len : ℕ
  pub patched_code : ℕ
  pub cb : ℕ
  pub opcode : ℕ

pub record ThrowTable : Type 0 where
  pub entries : List ThrowEntry
  pub len : ℕ
  pub size : ℕ

abbrev pub initial_throwtable_size : ℕ
initial_throwtable_size = 8

module _ (mem : Realloc ThrowEntry) where
  unfoldable pub throwtable_extend : ThrowTable → ℕ → ThrowTable
  throwtable_extend t size =
      if leb size t.size then t else record t { entries = mem.grow t.entries size; size = size }

  -- The size that a full table grows to: `while (size <= throwtablelen) size <<= 1;`
  unfoldable pub larger_size : ThrowTable → Option ℕ
  larger_size t =
      let size = if t.size == 0 then initial_throwtable_size else t.size in
      if ltb t.len size then some size else double_until (suc (suc t.len)) size (t.len + 1)

  unfoldable pub make_room : ThrowTable → Option ThrowTable
  make_room t =
      if leb t.size t.len
      then (do size ← larger_size t; some (throwtable_extend t size))
      else some t

  -- The entry is `nop` as patched code, with no opcode and no class, cut to the fields' widths.
  unfoldable pub throwtable_add : ThrowTable → ℕ → ℕ → ℕ → Option ThrowTable
  throwtable_add t start len byteoff = do
    r ← make_room t
    let new : ThrowEntry = record {
      start = start % 2 ^ 32;
      byteoff = byteoff % 2 ^ 16;
      len = len % 2 ^ 8;
      patched_code = 0x90;
      cb = 0;
      opcode = 0;
    }
    some (record r { entries = write_at r.len (new ∷ []) r.entries; len = r.len + 1 })

-- The end of a search. `fault`: it read a slot that is not allocated. `running`: the fuel ran out.
pub data Lookup : Type 0 where
  found : ℕ → Lookup
  null fault running : Lookup

-- `(start <= nativeoff) && (nativeoff < start + len)`
abbrev pub covers : ThrowEntry → ℕ → Bool
covers e nativeoff = leb e.start nativeoff && ltb nativeoff ((e.start + e.len) % 2 ^ 32)

pub search_throw : List ThrowEntry → ℕ → ℕ → ℕ → ℕ → Lookup
search_throw entries nativeoff zero l h = running
search_throw entries nativeoff (suc fuel) l h =
    let index = l + (h - l) / 2 in
    let below = search_throw entries nativeoff fuel l index in
    let above = search_throw entries nativeoff fuel (index + 1) h in
    elim (get_elem? entries index) [
      | none ↦ fault
      | some e ↦
          if covers e nativeoff
          then found index
          else if l == h
          then null
          else if ltb nativeoff e.start
          then below
          else above
    ]

pub throwtable_get : ThrowTable → ℕ → Lookup
throwtable_get t nativeoff = search_throw t.entries nativeoff (suc t.len) 0 t.len
