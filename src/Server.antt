-- ===== src/Server.antt =====
-- `main` of src/memdb/memdb.cpp and `MemDBServer` of src/memdb/memdb_server.cpp: which storage is
-- served, and the sessions that are accepted. Parsing is Boost's: the options are given with their
-- values, defaults included.
pub mod Accepted
use memhook.Prelude.{
  ℕ, suc, ◌+◌, Bool, true, false, ◌&&◌, ◌||◌, not, Option, none, some, List, [], ◌∷◌, is_some,
  if◌then◌else◌,
}
use memhook.Engine.Start.{shared_memory}

-- `map`: a value of `help` is whether it was given.
pub record ServerOptions : Type 0 where
  pub help : Bool
  pub shared_memory_name : Option (List ℕ)
  pub mapped_file : Option (List ℕ)
  pub size : ℕ
  pub host : Option (List ℕ)
  pub port : Option ℕ

-- `parse_command_line_arguments` behind the parsing: whether it succeeds.
unfoldable pub accepts_options : ServerOptions → Bool
accepts_options o =
    if is_some o.shared_memory_name && is_some o.mapped_file
    then false
    else not (o.help || not (is_some o.host) || not (is_some o.port))

-- `NewMMFMappedStorageCreator` and `NewSHMMappedStorageCreator`, with their arguments.
pub data Creator : Type 0 where
  mmf_creator : List ℕ → ℕ → Creator
  shm_creator : List ℕ → ℕ → Creator

abbrev pub shm_name : Option (List ℕ) → List ℕ
shm_name none = shared_memory
shm_name (some name) = name

unfoldable pub new_creator : Option (List ℕ) → ServerOptions → Creator
new_creator (some path) o = mmf_creator path o.size
new_creator none o = shm_creator (shm_name o.shared_memory_name) o.size

-- What `main` goes on to do: it fails, or serves a storage at a host and a port.
pub data Run : Type 0 where
  fails : Run
  serves : Creator → List ℕ → ℕ → Run

abbrev pub serve_at : Creator → Option (List ℕ) → Option ℕ → Run
serve_at c (some host) (some port) = serves c host port
serve_at c _ _ = fails

unfoldable pub main_of : ServerOptions → Run
main_of o =
    if accepts_options o then serve_at (new_creator o.mapped_file o) o.host o.port else fails

-- `MemDBServer`: the session that waits for a connection, those that were started, the latest
-- first, and the number of the next one.
pub record Server : Type 0 where
  pub waiting : ℕ
  pub started : List ℕ
  pub fresh : ℕ

-- `StartAccept`
unfoldable pub start_accept : Server → Server
start_accept s = record s { waiting = s.fresh; fresh = suc s.fresh }

-- `HandleAccept`, with whether there was an error.
unfoldable pub handle_accept : Bool → Server → Server
handle_accept error s =
    start_accept (if error then s else record s { started = s.waiting ∷ s.started })

-- The server after its construction, and after a sequence of accepts.
unfoldable pub accepted : List Bool → Server → Server
accepted [] s = s
accepted (error ∷ errors) s = accepted errors (handle_accept error s)

abbrev pub new_server : Server
new_server = record { waiting = 0; started = []; fresh = 1 }
