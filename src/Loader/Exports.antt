-- ===== src/Loader/Exports.antt =====
-- The names under which src/memhook/memhook.cpp exports its functions, and the pointers of
-- `DLFunctions` through which these call. Mangled names are written as in the source.
use Prim.Native.String.{String}
use memhook.Prelude.{Bool, true, false, Option, none, some, List, [], ◌∷◌, ◌++◌}
use memhook.Loader.{Build}

-- The hooked functions, less the prefix `memhook_`.
pub data Hook : Type 0 where
  malloc : Hook
  free : Hook
  realloc : Hook
  calloc : Hook
  cfree : Hook
  memalign : Hook
  posix_memalign : Hook
  aligned_alloc : Hook
  valloc : Hook
  pvalloc : Hook
  mmap : Hook
  mmap64 : Hook
  munmap : Hook
  mremap : Hook
  dlopen : Hook
  dlmopen : Hook
  dlclose : Hook
  dl_iterate_phdr : Hook
  dlsym : Hook
  dlvsym : Hook
  getaddrinfo : Hook
  getnameinfo : Hook
  gethostbyaddr : Hook
  gethostbyname : Hook
  gethostbyname2 : Hook
  gethostent_r : Hook
  gethostbyaddr_r : Hook
  gethostbyname_r : Hook
  gethostbyname2_r : Hook
  getpwent_r : Hook
  getpwuid_r : Hook
  getpwnam_r : Hook
  new : Hook
  newarray : Hook
  new_nothrow : Hook
  newarray_nothrow : Hook
  delete : Hook
  deletearray : Hook
  delete_nothrow : Hook
  deletearray_nothrow : Hook

-- The pointer that the function calls through `do_malloc` and so on; `memhook_dlsym` and
-- `memhook_dlvsym` test theirs themselves.
unfoldable pub hook_field : Hook → Option String
hook_field malloc = some "malloc"
hook_field free = some "free"
hook_field realloc = some "realloc"
hook_field calloc = some "calloc"
hook_field cfree = some "cfree"
hook_field memalign = some "memalign"
hook_field posix_memalign = some "posix_memalign"
hook_field aligned_alloc = some "aligned_alloc"
hook_field valloc = some "valloc"
hook_field pvalloc = some "pvalloc"
hook_field mmap = some "mmap"
hook_field mmap64 = some "mmap64"
hook_field munmap = some "munmap"
hook_field mremap = some "mremap"
hook_field dlopen = some "dlopen"
hook_field dlmopen = some "dlmopen"
hook_field dlclose = some "dlclose"
hook_field dl_iterate_phdr = some "dl_iterate_phdr"
hook_field dlsym = none
hook_field dlvsym = none
hook_field getaddrinfo = some "getaddrinfo"
hook_field getnameinfo = some "getnameinfo"
hook_field gethostbyaddr = some "gethostbyaddr"
hook_field gethostbyname = some "gethostbyname"
hook_field gethostbyname2 = some "gethostbyname2"
hook_field gethostent_r = some "gethostent_r"
hook_field gethostbyaddr_r = some "gethostbyaddr_r"
hook_field gethostbyname_r = some "gethostbyname_r"
hook_field gethostbyname2_r = some "gethostbyname2_r"
hook_field getpwent_r = some "getpwent_r"
hook_field getpwuid_r = some "getpwuid_r"
hook_field getpwnam_r = some "getpwnam_r"
hook_field new = some "malloc"
hook_field newarray = some "malloc"
hook_field new_nothrow = some "malloc"
hook_field newarray_nothrow = some "malloc"
hook_field delete = some "free"
hook_field deletearray = some "free"
hook_field delete_nothrow = some "free"
hook_field deletearray_nothrow = some "free"

abbrev pub when_built : Bool → List (String × Hook) → List (String × Hook) → List (String × Hook)
when_built true es rest = es ++ rest
when_built false es rest = rest

-- The functions that the operators of C++ are exported as.
abbrev pub cpp_exports : List (String × Hook)
cpp_exports =
    ("operator new", new)
    ∷ ("operator delete", delete)
    ∷ ("operator new[]", newarray)
    ∷ ("operator delete[]", deletearray)
    ∷ ("operator new(nothrow)", new_nothrow)
    ∷ ("operator new[](nothrow)", newarray_nothrow)
    ∷ ("operator delete(nothrow)", delete_nothrow)
    ∷ ("operator delete[](nothrow)", deletearray_nothrow)
    ∷ []

-- Those on mappings, libraries, hosts and users.
abbrev pub system_exports : Bool → List (String × Hook)
system_exports have_dlvsym =
    ("mmap", mmap)
    ∷ ("mmap64", mmap64)
    ∷ ("munmap", munmap)
    ∷ ("mremap", mremap)
    ∷ ("dlopen", dlopen)
    ∷ ("dlmopen", dlmopen)
    ∷ ("dlclose", dlclose)
    ∷ ("dl_iterate_phdr", dl_iterate_phdr)
    ∷ ("dlsym", dlsym)
    ∷ when_built have_dlvsym (("dlvsym", dlvsym) ∷ []) (
        ("getaddrinfo", getaddrinfo)
        ∷ ("getnameinfo", getnameinfo)
        ∷ ("gethostbyaddr", gethostbyaddr)
        ∷ ("gethostbyname", gethostbyname)
        ∷ ("gethostbyname2", gethostbyname2)
        ∷ ("gethostent_r", gethostent_r)
        ∷ ("gethostbyaddr_r", gethostbyaddr_r)
        ∷ ("gethostbyname_r", gethostbyname_r)
        ∷ ("gethostbyname2_r", gethostbyname2_r)
        ∷ ("getpwent_r", getpwent_r)
        ∷ ("getpwuid_r", getpwuid_r)
        ∷ ("getpwnam_r", getpwnam_r)
        ∷ [])

-- Those on memory.
abbrev pub memory_exports : Build → List (String × Hook)
memory_exports b =
    ("malloc", malloc)
    ∷ ("free", free)
    ∷ ("realloc", realloc)
    ∷ ("calloc", calloc)
    ∷ when_built b.have_cfree (("cfree", cfree) ∷ []) (
        ("memalign", memalign)
        ∷ ("posix_memalign", posix_memalign)
        ∷ when_built b.have_aligned_alloc (("aligned_alloc", aligned_alloc) ∷ []) (
            when_built b.have_valloc (("valloc", valloc) ∷ []) (
              when_built b.have_pvalloc (("pvalloc", pvalloc) ∷ []) (
                ("__libc_malloc", malloc)
                ∷ ("__libc_free", free)
                ∷ ("__libc_realloc", realloc)
                ∷ ("__libc_calloc", calloc)
                ∷ when_built b.have_cfree (("__libc_cfree", cfree) ∷ []) (
                    ("__libc_memalign", memalign)
                    ∷ ("__posix_memalign", posix_memalign)
                    ∷ when_built b.have_valloc (("__libc_valloc", valloc) ∷ [])
                        (when_built b.have_pvalloc (("__libc_pvalloc", pvalloc) ∷ []) []))))))

-- Everything that is exported, in the order of the source.
unfoldable pub exports : Build → Bool → List (String × Hook)
exports b have_dlvsym = memory_exports b ++ (system_exports have_dlvsym ++ cpp_exports)
