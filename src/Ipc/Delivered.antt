-- ===== src/Ipc/Delivered.antt =====
-- A command that is sent is received.
use gitus.Prelude.{
  ℕ, Bytes, List, [], ◌∷◌, ◌++◌, ◌≡◌, refl, done, panics, codes, Free, map, join, All, ap, ◌==◌,
  Bool-cases, Free-append, ◌>>=◌, ◌||◌, false, inl, inr, append_assoc, cut-piece, ◌∙◌,
}
use gitus.Csv.{parse_csv}
use gitus.Csv.Fields.{
  escaped, BeginsWell, EndsWell, EndsInBackslash, parse_csv-joined, parse_csv-panics,
  replace_all-twice,
}
use gitus.Ipc.{
  escape_ipc_argument, ipc_message, handle_ipc_server_connection, warm_last_commit_cache, dispatch,
}

joined-escaped : (args : List Bytes) → map escape_ipc_argument args ≡ map escaped args
unfolding escape_ipc_argument
joined-escaped [] = refl
joined-escaped (a ∷ args) = rw (replace_all-twice a) (ap (◌∷◌ (escaped a)) (joined-escaped args))

escaped-Free : (s : Bytes) → Free (λ c. c == 0) s → Free (λ c. c == 0) (escaped s)
escaped-Free [] f = tt
escaped-Free (c ∷ s) f = elim (Bool-cases (c == b'\\' || c == b',')) [
  | inl h ↦ rw h (refl, (f.0, escaped-Free s f.1))
  | inr h ↦ rw h (f.0, escaped-Free s f.1)
]

joined-Free :
    (args : List Bytes)
    → All (Free (λ c. c == 0)) args
    → Free (λ c. c == 0) (join (codes ",") (map escaped args))
unfolding join
joined-Free [] a = tt
joined-Free (s ∷ []) a = escaped-Free s a.0
joined-Free (s ∷ t ∷ args) a =
    Free-append (λ c. c == 0) (escaped s) (b',' ∷ join (codes ",") (map escaped (t ∷ args)))
      (escaped-Free s a.0) (refl, joined-Free (t ∷ args) a.1)

-- What arrives up to the zero byte, behind the command for a warm-up.
warm_read :
    (s rest : Bytes)
    → Free (λ c. c == 0) s
    → handle_ipc_server_connection (codes "2:" ++ (s ++ (0 ∷ rest)))
      ≡ (parse_csv s >>= (λ args. done (dispatch (false, 2) args)))
unfolding handle_ipc_server_connection
warm_read s rest f = rw (cut-piece 0 (codes "2:" ++ s) rest (refl, (refl, f))) refl

message-escaped :
    (n : Bytes) (args : List Bytes) (rest : Bytes)
    → ipc_message n args ++ rest ≡ n ++ (b':' ∷ (join (codes ",") (map escaped args) ++ (0 ∷ rest)))
unfolding ipc_message
message-escaped n args rest =
    let sent = λ (l : List Bytes). n ++ (b':' ∷ (join (codes ",") l ++ (0 ∷ []))) in
    let line = join (codes ",") (map escaped args) in
    ap (λ l. sent l ++ rest) (joined-escaped args)
    ∙ (append_assoc n (b':' ∷ (line ++ (0 ∷ []))) rest
        ∙ ap (λ r. n ++ (b':' ∷ r)) (append_assoc line (0 ∷ []) rest))

-- A warm-up that is sent for a repository and a commit is received with the same two, where
-- neither holds a zero byte, and the joined arguments begin with no white space and end with
-- neither white space nor a backslash.
pub handle_ipc_server_connection-sent :
    (repo commit rest : Bytes)
    → Free (λ c. c == 0) repo
    → Free (λ c. c == 0) commit
    → BeginsWell (join (codes ",") (map escaped (repo ∷ commit ∷ [])))
    → EndsWell (join (codes ",") (map escaped (repo ∷ commit ∷ [])))
    → handle_ipc_server_connection (ipc_message (codes "2") (repo ∷ commit ∷ []) ++ rest)
      ≡ done (warm_last_commit_cache repo commit)
unfolding ipc_message
handle_ipc_server_connection-sent repo commit rest f g b e =
    let args = repo ∷ commit ∷ [] in
    let line = join (codes ",") (map escaped args) in
    ap handle_ipc_server_connection (message-escaped (codes "2") args rest)
    ∙ (warm_read line rest (joined-Free args (f, (g, tt)))
        ∙ ap (λ r. r >>= (λ a. done (dispatch (false, 2) a)))
            (parse_csv-joined repo (commit ∷ []) b e))

-- A warm-up whose arguments hold no zero byte and end in a backslash, be it escaped or not, makes
-- the server panic.
pub handle_ipc_server_connection-panics :
    (c : ℕ) (s rest : Bytes)
    → Free (λ k. k == 0) (c ∷ s)
    → EndsInBackslash (c ∷ s)
    → handle_ipc_server_connection (codes "2:" ++ ((c ∷ s) ++ (0 ∷ rest))) ≡ panics
handle_ipc_server_connection-panics c s rest f h =
    warm_read (c ∷ s) rest f
    ∙ ap (λ r. r >>= (λ a. done (dispatch (false, 2) a))) (parse_csv-panics c s (inl h))
