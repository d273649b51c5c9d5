-- ===== src/Sessions/Listing.antt =====
-- Listing the sessions of a user.
use gitus.Prelude.{ℕ, [], none, some, Bytes, List, ◌≡◌, Free, ◌==◌, ◌∷◌, ◌++◌, done, refl, arith}
use gitus.Sessions.{
  Store, retrieve_loop, retrieve_session, Codec, get, session_key, list_key, braced, error,
}
use gitus.Sessions.Revoked.{split_set-last}
use gitus.Tcache.{get}

loop_fails :
    (k : Codec) (name : Bytes) (now : ℕ) (x : Bytes) (xs : List Bytes) (st : Store)
    → k.decode [] ≡ none
    → get (session_key st name x) now st.cache ≡ none
    → retrieve_loop k name now (x ∷ xs) [] [] st ≡ (error, st)
unfolding retrieve_loop
loop_fails k name now x xs st d g = ground arith

-- With a codec that reads nothing from the empty text: RetrieveSession fails for a user with one
-- session, live or not, whose name has no closing brace, as it looks for a session whose name ends
-- in one.
pub retrieve_session_fails :
    (k : Codec) (name id : Bytes) (now : ℕ) (st : Store)
    → k.decode [] ≡ none
    → Free (λ c. c == b'}') id
    → get (list_key st name) now st.cache ≡ some (braced id)
    → get (session_key st name (id ++ (b'}' ∷ []))) now st.cache ≡ none
    → retrieve_session k name now st ≡ done (error, st)
unfolding retrieve_session
retrieve_session_fails k name id now st d f l g =
    rw (l, split_set-last id f, loop_fails k name now (id ++ (b'}' ∷ [])) [] st d g) refl
