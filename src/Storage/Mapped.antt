-- ===== src/Storage/Mapped.antt =====
-- `BasicMappedStorage` of src/memhookcore/basic_mapped_storage.h, over `MappedContainer` of
-- include/memhook/mapping_traits.h. The lock and the signal mask that each method takes make it one
-- atomic step. The segment allocator is taken to have room.
pub mod Laws
use mathlib.Core.List.{foldl}
use mathlib.Core.Option
use memhook.Prelude.{
  ℕ, ℤ, ◌≡◌, refl, ◌==◌, Bool, true, false, Option, none, some, List, [], ◌∷◌, is_some,
  if◌then◌else◌, find_key, remove_key, Distinct, find_key-remove_key, Distinct-remove_key,
  key-find_key, arith, Option-cases, inl, inr,
}
use memhook.TraceInfo.{CallStackInfo, CallStackInfoItem, TraceInfo, trace_info}
use memhook.Index.{TimeIndex}
use memhook.Storage.{MappedStorage}

abbrev pub trace_address : TraceInfo → ℕ
trace_address v = v.base.address

abbrev pub trace_timestamp : TraceInfo → ℤ
trace_timestamp v = v.base.timestamp

-- The functor that `UpdateSize` hands to `modify`.
abbrev pub set_memsize : ℕ → TraceInfo → TraceInfo
set_memsize memsize v = record v {
  base = record { address = v.base.address; memsize = memsize; timestamp = v.base.timestamp };
}

-- `SymbolTable`: names by address.
abbrev pub SymbolTable : Type 0
SymbolTable = List (ℕ × List ℕ)

abbrev pub symbol : ℕ → SymbolTable → Option (List ℕ)
symbol a tab = Option.map (λ e. e.1) (find_key (λ e. e.0) a tab)

-- `emplace` of an absent key.
abbrev pub add_symbol : ℕ → List ℕ → SymbolTable → SymbolTable
add_symbol a name tab = (a, name) ∷ tab

pub record Symbols : Type 0 where
  pub symtab : SymbolTable
  pub shltab : SymbolTable

-- `SymbolTableUpdater::operator()`
unfoldable pub update_symbols : Symbols → CallStackInfoItem → Symbols
update_symbols t item = if is_some (symbol item.ip t.symtab) then t else record {
  symtab = add_symbol item.ip item.procname t.symtab;
  shltab =
      if is_some (symbol item.shl_addr t.shltab)
      then t.shltab
      else add_symbol item.shl_addr item.shl_path t.shltab;
}

module _ (ix : TimeIndex TraceInfo trace_address trace_timestamp) where
  -- `MappedContainer`
  pub record Container : Type 0 where
    pub symbols : Symbols
    pub indexed_container : ix.Rep

  unfoldable pub new_container : Container
  new_container = record {
    symbols = record { symtab = []; shltab = [] };
    indexed_container = ix.empty;
  }

  unfoldable pub add : ℕ → ℕ → CallStackInfo → ℤ → Container → Container
  add address memsize callstack timestamp c = record {
    symbols = foldl update_symbols c.symbols callstack;
    indexed_container =
        ix.emplace (trace_info address memsize timestamp callstack) c.indexed_container;
  }

  unfoldable pub remove : ℕ → Container → Container × Bool
  remove address c =
      if is_some (ix.find address c.indexed_container)
      then (record c { indexed_container = ix.erase address c.indexed_container }, true)
      else (c, false)

  unfoldable pub update_size : ℕ → ℕ → Container → Container × Bool
  update_size address memsize c =
      if is_some (ix.find address c.indexed_container)
      then (
        record c {
          indexed_container = ix.modify address (set_memsize memsize) c.indexed_container;
        },
        true,
      )
      else (c, false)

  -- The symbol tables stay.
  unfoldable pub clear : Container → Container
  clear c = record c { indexed_container = ix.empty }

  abbrev pub mapped_storage : MappedStorage
  mapped_storage = record {
    Store = Container;
    add = add;
    remove = remove;
    update_size = update_size;
    clear = clear;
    flush = λ c. c;
  }
