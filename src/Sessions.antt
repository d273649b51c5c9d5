-- ===== src/Sessions.antt =====
-- pkg/gitus/session/in_memory/main.go: the session store on a timed cache. Times are seconds; an
-- operation runs at one time `now`, and gives the store back.
pub mod Keys
pub mod Live
pub mod Revoked
pub mod Listing
pub mod Samples
mod Tests
use gitus.Prelude.{
  ℕ, Bytes, Bool, List, Option, Run, contains, has_prefix, if◌then◌else◌, ◌++◌, ◌+◌, ◌∷◌, [], beq,
  codes, false, is_empty, none, panics, some, true, ◌==◌, done, drop, leb, ltb, not, ◌&&◌, length,
}
use gitus.Tcache.{TCache, delete, get, register}

-- session.GitusSession
pub record Session : Type 0 where
  pub username : Bytes
  pub id : Bytes
  pub timestamp : ℕ
  pub expire_timestamp : ℕ
  pub csrf_token : Bytes
  pub ip : Bytes
  pub user_agent : Bytes

pub record Metadata : Type 0 where
  pub ip : Bytes
  pub user_agent : Bytes

-- json.Marshal, which cannot fail on a struct of strings and integers, and json.Unmarshal.
pub record Codec : Type 0 where
  pub encode : Session → Bytes
  pub decode : Bytes → Option Session

-- The configuration that the store reads, and the cache.
pub record Store : Type 0 where
  pub table_prefix : Bytes
  pub max_session_lifetime : ℕ
  pub cache : TCache

abbrev pub day : ℕ
day = 86400

abbrev pub braced : Bytes → Bytes
braced s = b'{' ∷ (s ++ (b'}' ∷ []))

unfoldable pub in_set : Bytes → Bytes → Bool
unfolding contains
in_set set s = contains set (braced s)

unfoldable pub insert_set : Bytes → Bytes → Bytes
unfolding in_set
insert_set set s = if in_set set s then set else set ++ braced s

abbrev with_head : ℕ → Option (Bytes × Bytes) → Option (Bytes × Bytes)
with_head c none = none
with_head c (some (a, b)) = some (c ∷ a, b)

-- The part before the first occurrence of `p` and the part behind it, `strings.Index`.
unfoldable pub find : Bytes → Bytes → Option (Bytes × Bytes)
unfolding has_prefix
find p [] = none
find p (c ∷ s) =
    let rest = find p s in
    if has_prefix (c ∷ s) p then some ([], drop (length p) (c ∷ s)) else with_head c rest

unfoldable pub remove_from_set : Bytes → Bytes → Bytes
unfolding find
remove_from_set set s = elim (find (braced s) set) [ none ↦ set | some p ↦ p.0 ++ p.1 ]

unfoldable pub list_key : Store → Bytes → Bytes
list_key st name = st.table_prefix ++ (codes ":session_list:" ++ name)

unfoldable pub session_key : Store → Bytes → Bytes → Bytes
session_key st name id = st.table_prefix ++ (codes ":session:" ++ (name ++ (b':' ∷ id)))

-- `i, _ := cache.Get(key)`
abbrev pub text_of : Option Bytes → Bytes
text_of none = []
text_of (some s) = s

abbrev pub with_cache : Store → TCache → Store
with_cache st c = record st { cache = c }

abbrev pub session_at : Store → Bytes → Bytes → Metadata → Bytes → ℕ → Session
session_at st name id md csrf now = record {
  username = name;
  id = id;
  timestamp = now;
  expire_timestamp = now + st.max_session_lifetime;
  csrf_token = csrf;
  ip = md.ip;
  user_agent = md.user_agent;
}

abbrev pub listed : Bytes → Bytes → ℕ → Store → TCache
listed name id now st =
    register (list_key st name) (insert_set (text_of (get (list_key st name) now st.cache)) id)
      (some day) now st.cache

abbrev pub stored :
    Codec → Store → TCache → Bytes → Bytes → Metadata → ℕ → Option Bytes → Option Session × Store
stored k st c name id md now none = (none, with_cache st c)
stored k st c name id md now (some csrf) =
    let s = session_at st name id md csrf now in
    (some s, with_cache st (register (session_key st name id) (k.encode s) (some day) now c))

-- `csrf` is what auxfuncs.CryptoGenSym gives, `none` for an error, after which the list keeps the
-- session.
unfoldable pub register_session :
    Codec → Bytes → Bytes → Metadata → Option Bytes → ℕ → Store → Option Session × Store
unfolding list_key session_key insert_set get register
register_session k name id md csrf now st = stored k st (listed name id now st) name id md now csrf

-- An error, no session, or a session, with the store.
pub data Answer {ℓ} (A : Type ℓ) : Type ℓ where
  error : Answer A
  answer : A → Answer A

abbrev pub unexpired : Option Session → Bytes → ℕ → Store → Answer (Option Session) × Store
unexpired none key now st = (error, st)
unexpired (some r) key now st =
    if leb r.expire_timestamp now
    then (answer none, with_cache st (delete key st.cache))
    else (answer (some r), st)

unfoldable pub retrieve_session_by_key :
    Codec → Bytes → Bytes → ℕ → Store → Answer (Option Session) × Store
unfolding session_key get delete
retrieve_session_by_key k name id now st =
    let i = text_of (get (session_key st name id) now st.cache) in
    if is_empty i then (answer none, st) else unexpired (k.decode i) (session_key st name id) now st

abbrev pub relisted : Option Bytes → Bytes → Bytes → ℕ → Store → Store
relisted none key target now st = st
relisted (some i) key target now st =
    with_cache st (register key (remove_from_set i target) (some day) now st.cache)

unfoldable pub revoke_session : Bytes → Bytes → ℕ → Store → Store
unfolding list_key session_key remove_from_set get delete register
revoke_session name target now st =
    let st2 = with_cache st (delete (session_key st name target) st.cache) in
    relisted (get (list_key st name) now st2.cache) (list_key st name) target now st2

-- strings.SplitSeq(s, "}{"), as the first piece and the others.
unfoldable pub split_set : Bytes → Bytes × List Bytes
split_set [] = ([], [])
split_set (c ∷ []) = (c ∷ [], [])
split_set (c ∷ d ∷ s) = elim (c == b'}' && d == b'{') [
  | true ↦ ([], (split_set s).0 ∷ (split_set s).1)
  | false ↦ (c ∷ (split_set (d ∷ s)).0, (split_set (d ∷ s)).1)
]

-- The loop of RetrieveSession, with the sessions and the list that it has collected.
unfoldable pub retrieve_loop :
    Codec
    → Bytes
    → ℕ
    → List Bytes
    → List Session
    → Bytes
    → Store
    → Answer (List Session × Bytes) × Store
unfolding session_key get delete
retrieve_loop k name now [] acc newset st = (answer (acc, newset), st)
retrieve_loop k name now (x ∷ xs) acc newset st =
    let v = text_of (get (session_key st name x) now st.cache) in
    elim (k.decode v) [
      | none ↦ (error, st)
      | some r ↦ elim (is_empty v) [
        | true ↦ retrieve_loop k name now xs acc newset st
        | false ↦ elim (leb r.expire_timestamp now) [
          | true ↦
              retrieve_loop k name now xs acc newset
                (with_cache st (delete (session_key st name x) st.cache))
          | false ↦ retrieve_loop k name now xs (acc ++ (r ∷ [])) (newset ++ braced x) st
        ]
      ]
    ]

abbrev relist : Bytes → ℕ → Answer (List Session × Bytes) × Store → Answer (List Session) × Store
relist name now (error, st) = (error, st)
relist name now (answer (rs, newset), st) = (
  answer rs,
  with_cache st (
      if is_empty newset
      then delete (list_key st name) st.cache
      else register (list_key st name) newset (some day) now st.cache),
)

-- `i[1:]` panics on the empty string, which Get gives for a user without a list.
abbrev retrieved : Codec → Bytes → ℕ → Bytes → Store → Run (Answer (List Session) × Store)
retrieved k name now [] st = panics
retrieved k name now (c ∷ s) st =
    done (relist name now (retrieve_loop k name now ((split_set s).0 ∷ (split_set s).1) [] [] st))

unfoldable pub retrieve_session : Codec → Bytes → ℕ → Store → Run (Answer (List Session) × Store)
unfolding list_key get split_set retrieve_loop delete register
retrieve_session k name now st =
    retrieved k name now (text_of (get (list_key st name) now st.cache)) st

unfoldable pub delete_all : Bytes → List Bytes → Store → Store
unfolding session_key delete
delete_all name [] st = st
delete_all name (k ∷ ks) st =
    delete_all name ks (with_cache st (delete (session_key st name k) st.cache))

abbrev pub revoked_all : Bytes → Bytes → Store → Run Store
revoked_all name [] st = panics
revoked_all name (c ∷ s) st =
    let st2 = delete_all name ((split_set s).0 ∷ (split_set s).1) st in
    done (with_cache st2 (delete (list_key st2 name) st2.cache))

unfoldable pub revoke_all_session : Bytes → ℕ → Store → Run Store
unfolding list_key get split_set delete_all delete
revoke_all_session name now st = revoked_all name (text_of (get (list_key st name) now st.cache)) st

-- The session behind a key, if the list has it and it has not expired.
abbrev pub checked : (Session → Bool) → Option Session → Bytes → ℕ → Store → Answer Bool × Store
checked p none key now st = (error, st)
checked p (some r) key now st =
    if ltb r.expire_timestamp now
    then (answer false, with_cache st (delete key st.cache))
    else (answer (p r), st)

abbrev pub verify_in :
    Codec → (Session → Bool) → Option Bytes → Bytes → Bytes → ℕ → Store → Answer Bool × Store
verify_in k p none name target now st = (answer false, st)
verify_in k p (some set) name target now st =
    if not (in_set set target)
    then (answer false, st)
    else (let i = text_of (get (session_key st name target) now st.cache) in
        if is_empty i
        then (answer false, st)
        else checked p (k.decode i) (session_key st name target) now st)

unfoldable pub verify_session_exist : Codec → Bytes → Bytes → ℕ → Store → Answer Bool × Store
unfolding list_key session_key in_set get delete
verify_session_exist k name target now st =
    verify_in k (λ r. true) (get (list_key st name) now st.cache) name target now st

unfoldable pub verify_session_full : Codec → Bytes → Bytes → Bytes → ℕ → Store → Answer Bool × Store
unfolding list_key session_key in_set get delete beq
verify_session_full k name target csrf now st =
    verify_in k (λ r. beq r.csrf_token csrf) (get (list_key st name) now st.cache) name target now
      st
