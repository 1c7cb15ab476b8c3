-- ===== src/Unwinding.antt =====
-- `CallStackUnwinder` of src/memhook/callstack_unwinder.cpp: walking the stack, and the cache of
-- what is known of an instruction's function and library. libunwind and the dynamic linker are the
-- parameter `Native`; the cache is a boost::multi_index_container, the parameter `SequencedIndex`.
-- The methods are modelled as one thread runs them.
pub mod Plain
pub mod Cache
pub mod Moves
pub mod Sequence
pub mod Transparency
pub mod Started
use memhook.Prelude.{
  ℕ, ◌≡◌, ◌+◌, ◌-◌, ◌%◌, ◌^◌, ◌==◌, Bool, Option, none, some, List, [], ◌∷◌, ◌++◌, length, leb,
  is_some, if◌then◌else◌, find_key, remove_key,
}
use memhook.TraceInfo.{CallStackInfo, CallStackInfoItem}

-- `UnwProcNameInfo`
pub record ProcNameInfo : Type 0 where
  pub procname : List ℕ
  pub ip : ℕ
  pub offp : ℕ
  pub shl_addr : ℕ

-- A container with a unique index by `ip` and a sequence, and what Boost's documentation says of it
-- in terms of the sequence. `erase_front` is `erase(begin())`, which needs an element.
pub record SequencedIndex : Type 1 where
  pub Rep : Type 0
  pub items : Rep → List ProcNameInfo
  pub empty : Rep
  pub clear : Rep → Rep
  pub find : ℕ → Rep → Option ProcNameInfo
  pub size : Rep → ℕ
  -- `relocate(iter, end())` for the element of a key.
  pub relocate_last : ℕ → Rep → Rep
  pub erase_front : Rep → Rep
  pub insert : ProcNameInfo → Rep → Rep
  pub items-empty : items empty ≡ []
  pub items-clear : (r : Rep) → items (clear r) ≡ []
  pub find-items : (k : ℕ) (r : Rep) → find k r ≡ find_key (λ v. v.ip) k (items r)
  pub size-items : (r : Rep) → size r ≡ length (items r)
  pub items-relocate_last :
      (k : ℕ) (r : Rep) (v : ProcNameInfo)
      → find_key (λ v. v.ip) k (items r) ≡ some v
      → items (relocate_last k r) ≡ remove_key (λ v. v.ip) k (items r) ++ v ∷ []
  pub items-erase_front :
      (r : Rep) (v : ProcNameInfo) (vs : List ProcNameInfo)
      → items r ≡ v ∷ vs
      → items (erase_front r) ≡ vs
  -- An element whose key is taken is not inserted.
  pub items-insert :
      (v : ProcNameInfo) (r : Rep)
      → items (insert v r)
        ≡ (if is_some (find_key (λ v. v.ip) v.ip (items r)) then items r else items r ++ v ∷ [])

-- libunwind and the dynamic linker: the name and the offset for the frame of an instruction, by a
-- cursor and by address, and the base and the name of its library.
pub record Native : Type 0 where
  pub unw_get_proc_name : ℕ → Option (List ℕ × ℕ)
  pub get_proc_name : ℕ → Option (List ℕ × ℕ)
  pub dladdr : ℕ → Option (ℕ × Option (List ℕ))

-- `unw_caching_policy_t`
pub data CachingPolicy : Type 0 where
  cache_none : CachingPolicy
  cache_global : CachingPolicy
  cache_per_thread : CachingPolicy

-- What `Initialize` hands to `unw_set_caching_policy`, from `MEMHOOK_LIBUNWIND_CACHING_POLICY`: the
-- first letter is tested for 't' and 'g'.
unfoldable pub caching_policy : Option (List ℕ) → CachingPolicy
caching_policy none = cache_none
caching_policy (some []) = cache_none
caching_policy (some (c ∷ option)) =
    if c == 116 then cache_per_thread else (if c == 103 then cache_global else cache_none)

-- "<unknown>"
abbrev pub unknown_tag : List ℕ
unknown_tag = 60 ∷ 117 ∷ 110 ∷ 107 ∷ 110 ∷ 111 ∷ 119 ∷ 110 ∷ 62 ∷ []

-- What the methods return through their last four arguments.
pub record ProcInfo : Type 0 where
  pub shl_path : List ℕ
  pub shl_addr : ℕ
  pub procname : List ℕ
  pub offp : ℕ

abbrev pub path_of : ℕ → List (ℕ × List ℕ) → Option (ℕ × List ℕ)
path_of base paths = find_key (λ e. e.0) base paths

-- `dli_fname`, or the tag.
abbrev pub or_unknown : Option (List ℕ) → List ℕ
or_unknown (some name) = name
or_unknown none = unknown_tag

-- `pni`, from what `unw_get_proc_name` and `dladdr` answer.
unfoldable pub proc_name_info :
    ℕ → Option (List ℕ × ℕ) → Option (ℕ × Option (List ℕ)) → ProcNameInfo
proc_name_info ip name dl_info = record {
  procname = elim name [ some (procname, offp) ↦ procname | none ↦ unknown_tag ];
  ip = ip;
  offp = elim name [ some (procname, offp) ↦ offp | none ↦ 0 ];
  shl_addr = elim dl_info [ some (fbase, fname) ↦ fbase | none ↦ 0 ];
}

unfoldable pub shl_path_of : Option (ℕ × Option (List ℕ)) → List ℕ
shl_path_of (some (fbase, fname)) = or_unknown fname
shl_path_of none = unknown_tag

-- `m_shl_path_map.emplace`, which leaves a key that is there alone.
unfoldable pub emplace_path : Option (ℕ × Option (List ℕ)) → List (ℕ × List ℕ) → List (ℕ × List ℕ)
emplace_path (some (fbase, fname)) paths =
    if is_some (path_of fbase paths) then paths else (fbase, or_unknown fname) ∷ paths
emplace_path none paths = paths

module _ (ix : SequencedIndex) where
  pub record Impl : Type 0 where
    pub cache_max_size : ℕ
    pub procname_info_map : ix.Rep
    pub shl_path_map : List (ℕ × List ℕ)

  -- The constructor, from `MEMHOOK_CALLSTACK_UNWINDER_CACHE_SIZE` as `strtoul` reads it.
  unfoldable pub new_impl : Option ℕ → Impl
  new_impl cache_max_size = record {
    cache_max_size = elim cache_max_size [ some size ↦ size | none ↦ 32768 ];
    procname_info_map = ix.empty;
    shl_path_map = [];
  }

  -- The answer from an element of the cache.
  unfoldable pub cached_info : Impl → ProcNameInfo → ProcInfo
  cached_info s info = record {
    shl_path = elim (path_of info.shl_addr s.shl_path_map) [
      | some (base, path) ↦ path
      | none ↦ unknown_tag
    ];
    shl_addr = info.shl_addr;
    procname = info.procname;
    offp = info.offp;
  }

  -- The cache after the element goes in, the oldest one leaving when it is full.
  unfoldable pub insert_info : ℕ → ProcNameInfo → ix.Rep → ix.Rep
  insert_info cache_max_size pni map =
      ix.insert pni (if leb cache_max_size (ix.size map) then ix.erase_front map else map)

  -- The two branches that `GetUnwProcInfo` and `GetUnwProcInfoByIP` share, with the answer of
  -- libunwind.
  unfoldable pub proc_info :
      Option (List ℕ × ℕ) → Option (ℕ × Option (List ℕ)) → ℕ → Impl → ProcInfo × Impl
  proc_info name dl_info ip s = elim (ix.find ip s.procname_info_map) [
    | some info ↦ (
      cached_info s info,
      record s { procname_info_map = ix.relocate_last ip s.procname_info_map },
    )
    | none ↦
        let pni = proc_name_info ip name dl_info in
        (
          record {
            shl_path = shl_path_of dl_info;
            shl_addr = pni.shl_addr;
            procname = pni.procname;
            offp = pni.offp;
          },
          record s {
            procname_info_map = insert_info s.cache_max_size pni s.procname_info_map;
            shl_path_map = emplace_path dl_info s.shl_path_map;
          },
        )
  ]

  module _ (n : Native) where
    -- `GetUnwProcInfo`, whose cursor stands at `ip`.
    unfoldable pub get_unw_proc_info : ℕ → Impl → ProcInfo × Impl
    get_unw_proc_info ip s = proc_info (n.unw_get_proc_name ip) (n.dladdr ip) ip s

    unfoldable pub get_unw_proc_info_by_ip : ℕ → Impl → ProcInfo × Impl
    get_unw_proc_info_by_ip ip s = proc_info (n.get_proc_name ip) (n.dladdr ip) ip s

    -- `FlushUnwCache`
    unfoldable pub flush_unw_cache : Impl → Impl
    flush_unw_cache s = record s {
      procname_info_map = ix.clear s.procname_info_map;
      shl_path_map = [];
    }

    -- The first loop of `GetCallStackInfo`, over the `ip` and `sp` of the frames that `unw_step`
    -- reaches; `--skip_frames` wraps around at 0.
    unfoldable pub skip_loop : ℕ → List (ℕ × ℕ) → List (ℕ × ℕ)
    skip_loop skip_frames [] = []
    skip_loop skip_frames (frame ∷ frames) =
        let left = (skip_frames + (2 ^ 64 - 1)) % 2 ^ 64 in
        let rest = skip_loop left frames in if left == 0 then frames else rest

    -- The fields of an item that are set from what is known of its instruction.
    abbrev pub with_proc_info : ProcInfo → CallStackInfoItem → CallStackInfoItem
    with_proc_info p item = record {
      shl_path = p.shl_path;
      procname = p.procname;
      shl_addr = p.shl_addr;
      ip = item.ip;
      sp = item.sp;
      offp = p.offp;
    }

    abbrev pub new_item : ℕ → ℕ → CallStackInfoItem
    new_item ip sp = record {
      shl_path = [];
      procname = [];
      shl_addr = 0;
      ip = ip;
      sp = sp;
      offp = 0;
    }

    -- One item of `GetCallStackInfo`.
    unfoldable pub push_item : Bool → ℕ → ℕ → Impl → CallStackInfoItem × Impl
    push_item need_unwind_proc_info ip sp s =
        let (p, s') = get_unw_proc_info ip s in
        if need_unwind_proc_info
        then (with_proc_info p (new_item ip sp), s')
        else (new_item ip sp, s)

    -- The second loop of `GetCallStackInfo`.
    unfoldable pub frames_loop : Bool → List (ℕ × ℕ) → Impl → CallStackInfo × Impl
    frames_loop need_unwind_proc_info [] s = ([], s)
    frames_loop need_unwind_proc_info ((ip, sp) ∷ frames) s =
        let (item, s') = push_item need_unwind_proc_info ip sp s in
        let (items, s'') = frames_loop need_unwind_proc_info frames s' in
        if ip == 0 then ([], s) else (item ∷ items, s'')

    -- `GetCallStackInfo`, on the frames of the caller's stack.
    unfoldable pub get_call_stack_info : List (ℕ × ℕ) → ℕ → Bool → Impl → CallStackInfo × Impl
    get_call_stack_info frames skip_frames need_unwind_proc_info s =
        frames_loop need_unwind_proc_info (skip_loop skip_frames frames) s

    -- `GetCallStackUnwindProcInfo`
    unfoldable pub get_call_stack_unwind_proc_info : CallStackInfo → Impl → CallStackInfo × Impl
    get_call_stack_unwind_proc_info [] s = ([], s)
    get_call_stack_unwind_proc_info (item ∷ items) s =
        let (p, s') = get_unw_proc_info_by_ip item.ip s in
        let (items', s'') = get_call_stack_unwind_proc_info items s' in
        (with_proc_info p item ∷ items', s'')
