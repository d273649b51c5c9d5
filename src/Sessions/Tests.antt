-- ===== src/Sessions/Tests.antt =====
-- One session, s1 of ann, which expires at time 65.
use gitus.Prelude.{
  Bytes, Free, codes, [], ◌<◌, ◌==◌, ◌≡◌, arith, lookup, some, ◌+◌, panics, beq, none, refl,
  contains, false, has_prefix, insert, ◌++◌, ◌∷◌,
}
use gitus.Sessions.{
  Store, Metadata, list_key, register_session, retrieve_session_by_key, revoke_all_session,
  verify_session_full, get, session_key, register, revoke_session, answer, insert_set, in_set,
  session_at, braced,
}
use gitus.Tcache.{get, new_tcache, register, push}
use gitus.Sessions.Samples.{plain, plain-IsLawful, plain_encode}
use gitus.Sessions.Live.{verify_session_full-register}
use gitus.Sessions.Revoked.{revoke_session-gone}

abbrev md : Metadata
md = record { ip = codes "::1"; user_agent = [] }

empty_store : Store
empty_store = record { table_prefix = codes "g"; max_session_lifetime = 60; cache = new_tcache }

abbrev ann : Bytes
ann = codes "ann"

abbrev s1 : Bytes
s1 = codes "s1"

one_session : Store
one_session = (register_session plain ann s1 md (some (codes "tok")) 5 empty_store).1

verify_session_full-register_example :
    (verify_session_full plain ann s1
      (codes "tok")
      20
      (register_session plain ann s1 md (some (codes "tok")) 5 empty_store).1).0
    ≡ answer (beq (codes "tok") (codes "tok"))
unfolding empty_store
verify_session_full-register_example =
    verify_session_full-register plain ann s1 md (codes "tok") (codes "tok") 5 20 empty_store
      plain-IsLawful (omega arith) (omega arith) (omega arith)

revoke_session-gone_example :
    ((retrieve_session_by_key plain ann s1 20 (revoke_session ann s1 9 one_session)).0
      ≡ answer none)
    × ((verify_session_full plain ann s1 (codes "tok") 20 (revoke_session ann s1 9 one_session)).0
        ≡ answer false)
revoke_session-gone_example = revoke_session-gone plain ann s1 (codes "tok") 9 20 one_session

s1_unbraced : Free (λ c. c == b'}') s1
s1_unbraced = ground arith

ann_listed : get (list_key one_session ann) 9 one_session.cache ≡ some (braced s1)
unfolding one_session empty_store list_key session_key get register_session register insert_set
    in_set contains has_prefix new_tcache lookup insert push beq
ann_listed = refl

s1_stored :
    get (session_key one_session ann s1) 20 one_session.cache
    ≡ some (plain_encode (session_at one_session ann s1 md (codes "tok") 5))
unfolding one_session empty_store list_key session_key get register_session register insert_set
    in_set contains has_prefix new_tcache lookup insert push beq
s1_stored = refl

before_expiry : 20 < 5 + one_session.max_session_lifetime
unfolding one_session empty_store register_session
before_expiry = omega arith

-- A user who has never logged in.
revoke_all_panics : revoke_all_session ann 9 empty_store ≡ panics
unfolding revoke_all_session empty_store get list_key new_tcache lookup
revoke_all_panics = refl

no_braced_name : get (session_key one_session ann (s1 ++ (b'}' ∷ []))) 9 one_session.cache ≡ none
unfolding one_session empty_store list_key session_key get register_session register insert_set
    in_set contains has_prefix new_tcache lookup insert push beq
no_braced_name = refl
