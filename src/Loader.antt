-- ===== src/Loader.antt =====
-- `DLFunctions` of src/memhook/dl_functions.h and dl_functions.cpp, with `GetDLFunctions`,
-- `do_malloc`, `do_calloc`, `do_free`, `memhook_dlsym` and `memhook_dlvsym` of
-- src/memhook/memhook.cpp: how the library finds the functions that it hooks. While the dynamic
-- linker answers it may itself allocate, by the hooked functions. Glibc models what
-- `GLIBC_find_dl_symbol` finds.
pub mod Dlsym
pub mod Start
pub mod Served
pub mod Resolved
pub mod Filling
pub mod Found
pub mod Exports
pub mod Covered
use Prim.Native.Char.{code}
use Prim.Native.String.{String}
use text.Mathlib.Text.{◌==◌ as ◌=s=◌}
use memhook.Prelude.{
  ℕ, zero, suc, ◌+◌, ◌-◌, ◌^◌, ◌==◌, Bool, true, false, ◌&&◌, Option, none, some, List, [], ◌∷◌,
  ◌++◌, if◌then◌else◌,
}
use memhook.Glibc.{Image}
use memhook.Glibc.Lookup.{do_sym}
use memhook.StaticBuf
use memhook.StaticBuf.{StaticBuf}

-- A function pointer of `DLFunctions`: NULL, the function of `StaticBufAlloc`, or one at an
-- address.
pub data FnPtr : Type 0 where
  null : FnPtr
  static_buf : FnPtr
  at : ℕ → FnPtr

abbrev pub is_null : FnPtr → Bool
is_null null = true
is_null _ = false

-- A call that the dynamic linker makes while it answers.
pub data Alloc : Type 0 where
  malloc : ℕ → Alloc
  calloc : ℕ → ℕ → Alloc
  free : ℕ → Alloc

-- A call of the dynamic linker: `dlsym` and `dlvsym` by the address of the function; `_dl_sym` and
-- `_dl_vsym`; `dlerror`, whose answer is 0 when there is no error.
pub data LinkerCall : Type 0 where
  dlsym_at : ℕ → ℕ → String → LinkerCall
  dlvsym_at : ℕ → ℕ → String → String → LinkerCall
  dl_sym : ℕ → String → LinkerCall
  dl_vsym : ℕ → String → String → LinkerCall
  dlerror : LinkerCall

pub record Linker : Type 1 where
  pub State : Type 0
  -- What a call allocates and frees before it returns, in order.
  pub allocs : LinkerCall → State → List Alloc
  -- From the answers of these to the answer of the call.
  pub finish : LinkerCall → List ℕ → State → ℕ × State
  -- The C library's function at an address.
  pub call_at : ℕ → Alloc → State → ℕ × State
  -- The addresses of `tmpbuf_`, `memhook_dlsym` and `memhook_dlvsym`.
  pub tmpbuf : ℕ
  pub memhook_dlsym_at : ℕ
  pub memhook_dlvsym_at : ℕ
  -- The library in which `GLIBC_find_dl_symbol` was called, and fuel for its searches.
  pub caller : Option ℕ
  pub search_fuel : ℕ

-- What comes of a computation; `aborts` is also a call of NULL, and `no_fuel` is the end of the
-- fuel.
pub data Outcome (A : Type 0) : Type 0 where
  done : A → Outcome A
  aborts : Outcome A
  no_fuel : Outcome A

infixl 5 ◌>>=◌
abbrev pub ◌>>=◌ : {A B : Type 0} → Outcome A → (A → Outcome B) → Outcome B
done a >>= f = f a
aborts >>= f = aborts
no_fuel >>= f = no_fuel

abbrev pub rtld_next : ℕ
rtld_next = 2 ^ 64 - 1

abbrev pub codes : String → List ℕ
codes String.[] = []
codes (String.◌∷◌ c s) = code c ∷ codes s

-- The functions that a build has besides the others.
pub record Build : Type 0 where
  pub have_cfree : Bool
  pub have_aligned_alloc : Bool
  pub have_valloc : Bool
  pub have_pvalloc : Bool

abbrev pub optional : Bool → String → List String → List String
optional true name names = name ∷ names
optional false name names = names

-- The functions that `DoInitialize` looks up behind the first three.
abbrev pub later_names : Build → List String
later_names b =
    "realloc"
    ∷ "memalign"
    ∷ "posix_memalign"
    ∷ optional b.have_cfree "cfree" (
        optional b.have_aligned_alloc "aligned_alloc" (
          optional b.have_valloc "valloc" (
            optional b.have_pvalloc "pvalloc" (
              "mmap" ∷ "mmap64" ∷ "mremap" ∷ "munmap" ∷ "dlopen" ∷ "dlmopen" ∷ "dlclose"
              ∷ "dl_iterate_phdr" ∷ "getaddrinfo" ∷ "getnameinfo" ∷ "gethostbyname"
              ∷ "gethostbyaddr" ∷ "gethostbyname2" ∷ "gethostent_r" ∷ "gethostbyaddr_r"
              ∷ "gethostbyname_r" ∷ "gethostbyname2_r" ∷ "getpwent_r" ∷ "getpwuid_r" ∷ "getpwnam_r"
              ∷ []))))

-- `DLFunctions`: its pointers by their names.
abbrev pub Table : Type 0
Table = String → FnPtr

unfoldable pub set_fn : String → FnPtr → Table → Table
set_fn name f t n = if name =s= n then f else t n

module _ (l : Linker) where
  pub record World : Type 0 where
    -- `g_dl_functions`
    pub table : Table
    pub buf : StaticBuf
    pub image : Image
    pub linker : l.State
    pub hook_depth : ℕ

  abbrev pub put : String → FnPtr → World → World
  put name f w = record w { table = set_fn name f w.table }

  abbrev pub pointer : Option ℕ × StaticBuf → World → ℕ × World
  pointer (none, b) w = (0, record w { buf = b })
  pointer (some offset, b) w = (l.tmpbuf + offset, record w { buf = b })

  -- The functions of `StaticBufAlloc`; `free` answers nothing.
  unfoldable pub static_alloc : Alloc → World → ℕ × World
  static_alloc (malloc size) w = pointer (StaticBuf.malloc size w.buf) w
  static_alloc (calloc nmemb size) w = pointer (StaticBuf.calloc nmemb size w.buf) w
  static_alloc (free ptr) w = (0, record w { buf = StaticBuf.free ptr w.buf })

  abbrev pub fn_name : Alloc → String
  fn_name (malloc size) = "malloc"
  fn_name (calloc nmemb size) = "calloc"
  fn_name (free ptr) = "free"

  unfoldable pub call_fn : FnPtr → Alloc → World → Outcome (ℕ × World)
  call_fn null a w = aborts
  call_fn static_buf a w = done (static_alloc a w)
  call_fn (at f) a w = let (r, s) = l.call_at f a w.linker in done (r, record w { linker = s })

  -- What the functions below call is `GetDLFunctions().Initialize()`, passed to them.
  module _ (init : World → Outcome World) where
    -- `do_malloc`, `do_calloc`, `do_free`
    unfoldable pub do_alloc : Alloc → World → Outcome (ℕ × World)
    do_alloc a w = init w >>= λ w'. call_fn (w'.table (fn_name a)) a w'

    unfoldable pub do_allocs : List Alloc → World → Outcome (List ℕ × World)
    do_allocs [] w = done ([], w)
    do_allocs (a ∷ rest) w =
        do_alloc a w >>= λ (r, w'). do_allocs rest w' >>= λ (rs, last). done (r ∷ rs, last)

    -- A call of the dynamic linker, with what it allocates.
    unfoldable pub call_linker : LinkerCall → World → Outcome (ℕ × World)
    call_linker c w = do_allocs (l.allocs c w.linker) w >>= λ (rs, w').
        let (r, s) = l.finish c rs w'.linker in done (r, record w' { linker = s })
