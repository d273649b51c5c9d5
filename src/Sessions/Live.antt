-- ===== src/Sessions/Live.antt =====
-- A session that was registered, until it expires.
use gitus.Prelude.{
  ℕ, some, Bytes, ◌≡◌, is_empty, ◌<◌, false, ◌+◌, ◌≤◌, beq, arith, beq_refl, beq_sym, Bool, Option,
  refl, true,
}
use gitus.Sessions.{
  Store, Codec, verify_session_full, Session, Metadata, register_session, day, get, answer,
  list_key, session_key, insert_set, session_at, text_of, register, retrieve_session_by_key,
  unexpired, checked, in_set, verify_in,
}
use gitus.Tcache.{get, register}
use gitus.Tcache.Reads.{get-register}
use gitus.Sessions.Keys.{list_key-session_key, in_set-insert_set}

-- What the code relies on of encoding/json: what was encoded decodes to itself, and is not empty.
pub record IsLawful (k : Codec) : Type 0 where
  pub decodes : (s : Session) → k.decode (k.encode s) ≡ some s
  pub nonempty : (s : Session) → is_empty (k.encode s) ≡ false

-- The store after a registration that has a token, and times at which the cache has it still.
module _ (k : Codec) (name id : Bytes) (md : Metadata) (csrf : Bytes) (now later : ℕ)
    (st : Store) where
  abbrev pub registered : Store
  registered = (register_session k name id md (some csrf) now st).1

  pub read_list :
      0 < now
      → later < now + day
      → get (list_key st name) later registered.cache
        ≡ some (insert_set (text_of (get (list_key st name) now st.cache)) id)
  unfolding register_session
  read_list p q = ground (
    arith,
    get-register (session_key st name id) (list_key st name)
        (k.encode (session_at st name id md csrf now)) (some day) now later
        (register (list_key st name) (insert_set (text_of (get (list_key st name) now st.cache)) id)
          (some day) now st.cache),
    get-register (list_key st name) (list_key st name)
        (insert_set (text_of (get (list_key st name) now st.cache)) id) (some day) now later
        st.cache,
    beq_sym (session_key st name id) (list_key st name),
    list_key-session_key st name name id,
    beq_refl (list_key st name),
  )

  pub read_session :
      0 < now
      → later < now + day
      → get (session_key st name id) later registered.cache
        ≡ some (k.encode (session_at st name id md csrf now))
  unfolding register_session
  read_session p q = ground (
    arith,
    get-register (session_key st name id) (session_key st name id)
        (k.encode (session_at st name id md csrf now)) (some day) now later
        (register (list_key st name) (insert_set (text_of (get (list_key st name) now st.cache)) id)
          (some day) now st.cache),
    beq_refl (session_key st name id),
  )

unexpired_answer :
    (p : Session → Bool) (x : Session) (key : Bytes) (later : ℕ) (s : Store)
    → later ≤ x.expire_timestamp
    → (checked p (some x) key later s).0 ≡ answer (p x)
unexpired_answer p x key later s le = ground arith

verify_in-listed :
    (k : Codec) (p : Session → Bool) (o : Option Bytes) (set name id : Bytes) (later : ℕ)
    (s : Store) (x : Session)
    → IsLawful k
    → o ≡ some set
    → in_set set id ≡ true
    → get (session_key s name id) later s.cache ≡ some (k.encode x)
    → later ≤ x.expire_timestamp
    → (verify_in k p o name id later s).0 ≡ answer (p x)
verify_in-listed k p o set name id later s x law q i g le =
    rw (q, i, g, law.nonempty x, law.decodes x)
      (unexpired_answer p x (session_key s name id) later s le)

unexpired_read :
    (x : Session) (key : Bytes) (later : ℕ) (s : Store)
    → later < x.expire_timestamp
    → unexpired (some x) key later s ≡ (answer (some x), s)
unexpired_read x key later s lt = ground arith

pub found_by_key :
    (k : Codec) (name id : Bytes) (later : ℕ) (s : Store) (x : Session)
    → IsLawful k
    → get (session_key s name id) later s.cache ≡ some (k.encode x)
    → later < x.expire_timestamp
    → (retrieve_session_by_key k name id later s).0 ≡ answer (some x)
unfolding retrieve_session_by_key
found_by_key k name id later s x law g lt =
    rw (g, law.nonempty x, law.decodes x, unexpired_read x (session_key s name id) later s lt) refl

-- With a codec that reads back what it wrote, for a day and until it expires, a session that was
-- registered is verified with its token, and refused with any other.
pub verify_session_full-register :
    (k : Codec) (name id : Bytes) (md : Metadata) (csrf typed : Bytes) (now later : ℕ) (st : Store)
    → IsLawful k
    → 0 < now
    → later < now + day
    → later ≤ now + st.max_session_lifetime
    → (verify_session_full k name id typed later
        (register_session k name id md (some csrf) now st).1).0
      ≡ answer (beq csrf typed)
unfolding verify_session_full register_session
verify_session_full-register k name id md csrf typed now later st law p q x =
    verify_in-listed k (λ r. beq r.csrf_token typed) _
      (insert_set (text_of (get (list_key st name) now st.cache)) id) name id later
      (registered k name id md csrf now later st) (session_at st name id md csrf now) law
      (read_list k name id md csrf now later st p q)
      (in_set-insert_set (text_of (get (list_key st name) now st.cache)) id)
      (read_session k name id md csrf now later st p q) x

-- With a codec that reads back what it wrote, for a day and before it expires, a session that was
-- registered is found by its key.
pub retrieve_session_by_key-register :
    (k : Codec) (name id : Bytes) (md : Metadata) (csrf : Bytes) (now later : ℕ) (st : Store)
    → IsLawful k
    → 0 < now
    → later < now + day
    → later < now + st.max_session_lifetime
    → (retrieve_session_by_key k name id later
        (register_session k name id md (some csrf) now st).1).0
      ≡ answer (some (session_at st name id md csrf now))
unfolding retrieve_session_by_key register_session
retrieve_session_by_key-register k name id md csrf now later st law p q x =
    found_by_key k name id later (registered k name id md csrf now later st)
      (session_at st name id md csrf now) law (read_session k name id md csrf now later st p q) x
