-- ===== src/Lib.antt =====
-- Gitus, a code forge for Git repositories: its access decisions, and the code that they rest on.
--
-- The program is a web server (routes, templates), a handler that sshd runs for each login
-- (cmd/gitus/ssh.go), and packages below both (pkg). A request over the web passes the checks of
-- routes/middleware.go before its handler runs; a clone over HTTP is one of four routes of its own; a
-- login over SSH parses the client's command, looks up the repository, and runs git. All of them read
-- the configuration, the access control lists, and the answers of a database and a session store.
--
--   Prelude       names, tests, lists, Go strings as lists of bytes, maps, and the outcome of code
--                 that can panic
--   FilePaths     Go's path.Clean, path.Join and filepath.Rel on Unix, as the code uses them
--   Config        pkg/gitus/config.go: operation modes, and the visibility of the site at a time
--   Model         pkg/gitus/model: access control lists, repositories, namespaces; the two predicates
--                 on privileges of routes/controller; Model/Names: the validity of names
--   ShellParse    pkg/shellparse/main.go: ParseShellCommand and Quote
--   Ssh           cmd/gitus/ssh.go: HandleSSHLogin and handleSSHHostMode
--   CloneLimiter  routes/clone_limiter.go
--   AuthorizedKeys  pkg/gitus/ssh/main.go: the keys in authorized_keys
--   Git           pkg/gitlib/merge.go: running git, with the log of its commands
--   Merge         pkg/gitlib/merge.go: Merge and the three methods; Merge/Conflicts: the check ahead of it
--   PktLine       pkg/gitlib/transfer.go: the lines of git's protocol
--   PackedRefs    pkg/gitlib/packed-ref.go and isValidHash of predicates.go
--   Hooks         pkg/gitlib/hooks.go: the hooks that are installed; Hooks/Templates: their texts
--   Csv           pkg/auxfuncs/main.go: fields with commas
--   Ipc           cmd/gitus/ipc-server.go: the commands of the local socket
--   Diff          pkg/gitlib/diff.go and linereader.go: the reader of diffs; Diff/Patterns: its patterns
--   Authors       pkg/gitlib/author-time.go: authors, times and the offsets of zones
--   Commits       pkg/gitlib/commit.go
--   Tags          pkg/gitlib/tag.go
--   Submodules    pkg/gitlib/submodule.go: the URLs of submodules
--   Refs          pkg/gitlib/refs.go: branches and tags
--   Packed        pkg/gitlib/delta.go, ofs-delta.go, ref-delta.go, pack-index.go: deltas and numbers
--   Readers       pkg/gitlib/aux-funcs.go: hexadecimal texts and reading up to a delimiter
--   Tree          pkg/gitlib/tree.go
--   Storage       cmd/gitus/storage-check.go and pkg/gitlib/size.go: the storage limit of a push
--   RateLimiter   routes/ratelimiter.go
--   Provision     pkg/gitus/newuser/provision.go, on the namespaces of pkg/gitus/db/sqlite/query.go
--   HttpClone     routes/controller/http-clone.go: the four routes
--   Middleware    routes/middleware.go, and the login info of routes/aux.go
--   Otp           pkg/gitus/otp: one-time passwords and recovery codes
--   Login         routes/controller/login.go: the form for the password, and the form for the factors
--   Tcache        pkg/tcache/main.go: the cache whose entries expire, and its sweeper
--   Sessions      pkg/gitus/session/in_memory/main.go: the session store on that cache
--
-- Functions keep their names in snake case; a struct is a record, an error or a refusal is a value. A
-- handler is a function of what it reads, collected in a record `Env` with one field for each call of
-- the database, of the session store, of git and of the file system, so the theorems hold for any
-- answers of these. `Ssh` and `HttpClone` chain their checks in a small monad that stops at the first
-- refusal; a nil dereference is a value of its own, `crash`. The limiter of clones is state that a
-- handler takes and gives back. Go's int is a natural number where the caller has read it, with
-- negative ones handed over as 0; uint32 and uint64 keep their wrap-around, but the counter of
-- versions of the cache does not. Each operation of the cache, and each round of its sweeper, runs
-- under its lock, and is a step at one time; a session store's operation reads the clock once. JSON
-- is a parameter of the session store with the law that what was encoded decodes to itself.
--
-- Git itself is a parameter: what it answers to a command is a function of the commands before it, so
-- any repository is an instance, and a script of gitlib is a function from the log to a result and a
-- longer log. Three regular expressions are parameters too: the one that finds a key in a line of
-- authorized_keys, and those of an author and a co-author; the others are functions by clauses. The
-- hooks of a repository are a map, with an error for each call on a file as a parameter. The
-- namespaces of a database are a table with one row for a name. What the storage check reads of files
-- is a parameter as well, and an int64 there is held as its 64 bits.
--
-- ParseShellCommand runs its loop on fuel, the length of the line: each round reads a byte at least, and
-- ShellParse/Totality shows that it never runs out; so do the loops over the commands of a
-- delta (Packed/Total), the items of a tree (Tree/RoundTrip), the chunks of a reader
-- (Readers/Until), the output of merge-tree (Merge/Conflicts/Output), and the files and patches of a
-- diff (Diff/Total). All other loops are structural.
--
-- Not modelled: SQL, templates, headers and the text of pages, mail and logs, which are calls of other
-- programs or printing; the installer, which is prompts and files; the session stores that are clients
-- of a service; zlib and the parser of ini files; randomness, which is a field of `Env` where a handler
-- asks for it. Strings are ASCII.
pub mod AuthorizedKeys
pub mod Authors
pub mod CloneLimiter
pub mod Commits
pub mod Config
pub mod Csv
pub mod Diff
pub mod FilePaths
pub mod Git
pub mod Hooks
pub mod HttpClone
pub mod Ipc
pub mod Login
pub mod Merge
pub mod Middleware
pub mod Model
pub mod Otp
pub mod Packed
pub mod PackedRefs
pub mod PktLine
pub mod Prelude
pub mod Provision
pub mod RateLimiter
pub mod Readers
pub mod Refs
pub mod Sessions
pub mod ShellParse
pub mod Ssh
pub mod Storage
pub mod Submodules
pub mod Tags
pub mod Tcache
pub mod Tree
