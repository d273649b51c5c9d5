-- ===== src/Sessions/Revoked.antt =====
-- A session after it was revoked.
use gitus.Prelude.{
  ℕ, [], none, some, Option, Bytes, Free, ◌==◌, ◌≡◌, ◌++◌, ◌∷◌, arith, refl, beq, ◌∙◌, Bool, false,
  beq_refl, Bool-cases, codes, ◌<◌, done, inl, inr,
}
use gitus.Sessions.{
  Store, retrieve_session_by_key, split_set, revoke_session, Codec, get, session_key, answer,
  relisted, list_key, remove_from_set, day, Session, delete, revoke_all_session,
  verify_session_full, delete_all, verify_in, with_cache, braced, in_set, TCache,
}
use gitus.Tcache.{get, delete, TCache}
use gitus.Tcache.Reads.{get-register, get-delete}
use gitus.Sessions.Keys.{list_key-session_key, beq-append}
use gitus.Sessions.Live.{IsLawful, found_by_key}

read_relisted :
    (st : Store) (o : Option Bytes) (name target id : Bytes) (now later : ℕ)
    → get (session_key st name id) later (relisted o (list_key st name) target now st).cache
      ≡ get (session_key st name id) later st.cache
read_relisted st none name target id now later = refl
read_relisted st (some i) name target id now later = ground (
  arith,
  get-register (list_key st name) (session_key st name id) (remove_from_set i target) (some day) now
      later st.cache,
  list_key-session_key st name name id,
)

missing_by_key :
    (k : Codec) (name id : Bytes) (later : ℕ) (s : Store)
    → get (session_key s name id) later s.cache ≡ none
    → (retrieve_session_by_key k name id later s).0 ≡ answer none
unfolding retrieve_session_by_key
missing_by_key k name id later s g = rw g refl

missing_relisted :
    (k : Codec) (o : Option Bytes) (name id : Bytes) (now later : ℕ) (st : Store)
    → get (session_key st name id) later st.cache ≡ none
    → (retrieve_session_by_key k name id later (relisted o (list_key st name) id now st)).0
      ≡ answer none
unfolding session_key
missing_relisted k none name id now later st g = missing_by_key k name id later st g
missing_relisted k (some i) name id now later st g =
    missing_by_key k name id later (relisted (some i) (list_key st name) id now st)
      (read_relisted st (some i) name id id now later ∙ g)

missing_verified :
    (k : Codec) (p : Session → Bool) (o : Option Bytes) (name id : Bytes) (later : ℕ) (s : Store)
    → get (session_key s name id) later s.cache ≡ none
    → (verify_in k p o name id later s).0 ≡ answer false
missing_verified k p none name id later s g = refl
missing_verified k p (some set) name id later s g = elim (Bool-cases (in_set set id)) [
  | inl h ↦ rw (h, g) refl
  | inr h ↦ rw h refl
]

verified_relisted :
    (k : Codec) (p : Session → Bool) (o q : Option Bytes) (name id : Bytes) (now later : ℕ)
    (st : Store)
    → get (session_key st name id) later st.cache ≡ none
    → (verify_in k p q name id later (relisted o (list_key st name) id now st)).0 ≡ answer false
unfolding session_key
verified_relisted k p none q name id now later st g = missing_verified k p q name id later st g
verified_relisted k p (some i) q name id now later st g =
    missing_verified k p q name id later (relisted (some i) (list_key st name) id now st)
      (read_relisted st (some i) name id id now later ∙ g)

deleted_session :
    (st : Store) (name id : Bytes) (later : ℕ)
    → get (session_key st name id) later (delete (session_key st name id) st.cache) ≡ none
deleted_session st name id later = ground (
  arith,
  get-delete (session_key st name id) (session_key st name id) later st.cache,
  beq_refl (session_key st name id),
)

-- After RevokeSession the session is neither found by its key nor verified, at any time and with
-- any token, whatever the store was before.
pub revoke_session-gone :
    (k : Codec) (name id csrf : Bytes) (now later : ℕ) (st : Store)
    → ((retrieve_session_by_key k name id later (revoke_session name id now st)).0 ≡ answer none)
      × ((verify_session_full k name id csrf later (revoke_session name id now st)).0
          ≡ answer false)
unfolding revoke_session verify_session_full
revoke_session-gone k name id csrf now later st =
    let st2 : Store = with_cache st (delete (session_key st name id) st.cache) in
    (
      missing_relisted k (get (list_key st name) now st2.cache) name id now later st2
          (deleted_session st name id later),
      verified_relisted k (λ r. beq r.csrf_token csrf) (get (list_key st name) now st2.cache)
          (get (list_key (revoke_session name id now st) name) later
            (revoke_session name id now st).cache)
          name id now later st2 (deleted_session st name id later),
    )

-- The last name of a list keeps its closing brace.
pub split_set-last :
    (id : Bytes)
    → Free (λ c. c == b'}') id
    → split_set (id ++ (b'}' ∷ [])) ≡ (id ++ (b'}' ∷ []), [])
unfolding split_set
split_set-last [] f = refl
split_set-last (c ∷ []) f = ground (arith, f.0)
split_set-last (c ∷ d ∷ s) f = ground (arith, f.0, split_set-last (d ∷ s) f.1)

longer : (c : ℕ) (s : Bytes) → beq (s ++ (c ∷ [])) s ≡ false
unfolding beq
longer c [] = refl
longer c (d ∷ s) = ground (arith, longer c s)

other_key :
    (st : Store) (name id : Bytes)
    → beq (session_key st name (id ++ (b'}' ∷ []))) (session_key st name id) ≡ false
unfolding session_key
other_key st name id =
    beq-append st.table_prefix (codes ":session:" ++ (name ++ (b':' ∷ (id ++ (b'}' ∷ [])))))
      (codes ":session:" ++ (name ++ (b':' ∷ id)))
    ∙ (beq-append (codes ":session:") (name ++ (b':' ∷ (id ++ (b'}' ∷ [])))) (name ++ (b':' ∷ id))
        ∙ (beq-append name (b':' ∷ (id ++ (b'}' ∷ []))) (b':' ∷ id)
            ∙ (beq-append (b':' ∷ []) (id ++ (b'}' ∷ [])) id ∙ longer b'}' id)))

kept :
    (st : Store) (name id : Bytes) (later : ℕ)
    → get
        (session_key st name id)
        later
        (delete (list_key st name) (delete (session_key st name (id ++ (b'}' ∷ []))) st.cache))
      ≡ get (session_key st name id) later st.cache
kept st name id later = ground (
  arith,
  get-delete (list_key st name) (session_key st name id) later
      (delete (session_key st name (id ++ (b'}' ∷ []))) st.cache),
  get-delete (session_key st name (id ++ (b'}' ∷ []))) (session_key st name id) later st.cache,
  list_key-session_key st name name id,
  other_key st name id,
)

-- A user's only session, with no closing brace in its name, outlives RevokeAllSession: the call
-- ends without a panic, and until it expires the session is found by its key as before.
pub revoke_all_session_keeps :
    (k : Codec) (name id : Bytes) (now later : ℕ) (st : Store) (x : Session)
    → IsLawful k
    → Free (λ c. c == b'}') id
    → get (list_key st name) now st.cache ≡ some (braced id)
    → get (session_key st name id) later st.cache ≡ some (k.encode x)
    → later < x.expire_timestamp
    → (t : Store) × ((revoke_all_session name now st ≡ done t)
        × ((retrieve_session_by_key k name id later t).0 ≡ answer (some x)))
unfolding revoke_all_session delete_all
revoke_all_session_keeps k name id now later st x law f l g lt =
    let c : TCache =
      delete (list_key st name) (delete (session_key st name (id ++ (b'}' ∷ []))) st.cache) in
    (
      with_cache st c,
      (
        rw (l, split_set-last id f) refl,
        found_by_key k name id later (with_cache st c) x law (kept st name id later ∙ g) lt,
      ),
    )
