-- ===== src/Sessions/Keys.antt =====
-- Keys and sets of the store.
use gitus.Prelude.{
  [], beq, contains, has_prefix, Bytes, codes, ◌++◌, ◌≡◌, false, true, ◌∷◌, Bool-cases, arith, refl,
  ◌∙◌, inl, inr,
}
use gitus.Sessions.{Store, in_set, list_key, insert_set, session_key, braced}

pub beq-append : (p s t : Bytes) → beq (p ++ s) (p ++ t) ≡ beq s t
unfolding beq
beq-append [] s t = refl
beq-append (c ∷ p) s t = ground (arith, beq-append p s t)

tails : (a b : Bytes) → beq (codes ":session_list:" ++ a) (codes ":session:" ++ b) ≡ false
unfolding beq
tails a b = refl

-- A list and a session never share a key.
pub list_key-session_key :
    (st : Store) (a b id : Bytes) → beq (list_key st a) (session_key st b id) ≡ false
unfolding list_key session_key
list_key-session_key st a b id =
    beq-append st.table_prefix (codes ":session_list:" ++ a)
      (codes ":session:" ++ (b ++ (b':' ∷ id)))
    ∙ tails a (b ++ (b':' ∷ id))

has_prefix_refl : (p : Bytes) → has_prefix p p ≡ true
unfolding has_prefix
has_prefix_refl [] = refl
has_prefix_refl (c ∷ p) = ground (arith, has_prefix_refl p)

contains-append : (s p : Bytes) → contains (s ++ p) p ≡ true
unfolding contains has_prefix
contains-append [] [] = refl
contains-append [] (c ∷ p) = ground (arith, has_prefix_refl p)
contains-append (c ∷ s) p = ground (arith, contains-append s p)

-- What was put into a set is in it.
pub in_set-insert_set : (set s : Bytes) → in_set (insert_set set s) s ≡ true
unfolding in_set insert_set
in_set-insert_set set s = elim (Bool-cases (contains set (braced s))) [
  | inl h ↦ rw h h
  | inr h ↦ rw h (contains-append set (braced s))
]
