-- ===== src/Storage/Symbols.antt =====
-- The symbol tables that `Add` of src/memhookcore/basic_mapped_storage.h fills: a view can print a
-- name for every address of a recorded call stack.
use mathlib.Core.List.{foldl}
use memhook.Prelude.{
  ℕ, ℤ, ◌≡◌, refl, ◌==◌, true, some, List, [], ◌∷◌, is_some, if◌then◌else◌, find_key, arith, All,
  Option-cases, inl, inr,
}
use memhook.TraceInfo.{CallStackInfo, CallStackInfoItem, TraceInfo}
use memhook.Index.{TimeIndex}
use memhook.Storage.Mapped.{
  trace_address, trace_timestamp, SymbolTable, Symbols, symbol, add_symbol, update_symbols,
  Container, add,
}

symbol-add_symbol :
    (a b : ℕ) (name : List ℕ) (tab : SymbolTable)
    → symbol a (add_symbol b name tab) ≡ (if b == a then some name else symbol a tab)
unfolding find_key
symbol-add_symbol a b name tab = ground arith

-- A name that is recorded stays.
symbol-update_symbols :
    (a : ℕ) (name : List ℕ) (t : Symbols) (item : CallStackInfoItem)
    → symbol a t.symtab ≡ some name
    → symbol a (update_symbols t item).symtab ≡ some name
unfolding update_symbols
symbol-update_symbols a name t item h =
    ground (arith, symbol-add_symbol a item.ip item.procname t.symtab)

update_symbols_ip :
    (t : Symbols) (item : CallStackInfoItem)
    → is_some (symbol item.ip (update_symbols t item).symtab) ≡ true
unfolding update_symbols
update_symbols_ip t item = ground (arith, symbol-add_symbol item.ip item.ip item.procname t.symtab)

symbol-foldl :
    (a : ℕ) (name : List ℕ) (items : CallStackInfo) (t : Symbols)
    → symbol a t.symtab ≡ some name
    → symbol a (foldl update_symbols t items).symtab ≡ some name
symbol-foldl a name [] t h = h
symbol-foldl a name (item ∷ items) t h =
    symbol-foldl a name items (update_symbols t item) (symbol-update_symbols a name t item h)

abbrev Named : Symbols → CallStackInfoItem → Type 0
Named t item = is_some (symbol item.ip t.symtab) ≡ true

foldl-Named :
    (items : CallStackInfo) (t : Symbols) → All (Named (foldl update_symbols t items)) items
foldl-Named [] t = tt
foldl-Named (item ∷ items) t = (first, foldl-Named items (update_symbols t item))
  where
    first : is_some (symbol item.ip (foldl update_symbols t (item ∷ items)).symtab) ≡ true
    first = elim (Option-cases (symbol item.ip (update_symbols t item).symtab)) [
      | inl absent ↦ absurd (ground (arith, update_symbols_ip t item))
      | inr (name, found) ↦ rw (symbol-foldl item.ip name items (update_symbols t item) found) refl
    ]

module _ (ix : TimeIndex TraceInfo trace_address trace_timestamp) where
  -- After an allocation is recorded each address of its call stack has a name in the symbol table,
  -- and each name that was there before is unchanged.
  pub add-Named :
      (address memsize : ℕ) (callstack : CallStackInfo) (timestamp : ℤ) (c : Container ix)
      → All
          (λ item.
            is_some (symbol item.ip (add ix address memsize callstack timestamp c).symbols.symtab)
            ≡ true)
          callstack
        × ((a : ℕ) (name : List ℕ)
            → symbol a c.symbols.symtab ≡ some name
            → symbol a (add ix address memsize callstack timestamp c).symbols.symtab ≡ some name)
  unfolding add
  add-Named address memsize callstack timestamp c =
      (foldl-Named callstack c.symbols, λ a name. symbol-foldl a name callstack c.symbols)
