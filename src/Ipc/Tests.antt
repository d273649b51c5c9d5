-- ===== src/Ipc/Tests.antt =====
-- Tests of the local socket.
use gitus.Prelude.{codes, Bytes, join, ◌++◌, ◌∷◌, ◌≡◌, [], done, panics, refl, arith, map}
use gitus.Ipc.{
  handle_ipc_server_connection, ipc_message, warm_last_commit_cache, hung_up, unknown_command,
  invalid_command,
}
use gitus.Csv.Fields.{escaped, BeginsWell, EndsWell}
use gitus.Csv.{is_space_byte}
use gitus.Ipc.Delivered.{handle_ipc_server_connection-sent, handle_ipc_server_connection-panics}

abbrev repo : Bytes
repo = codes "a,b:c"

abbrev commit : Bytes
commit = codes "0f"

no_zero : handle_ipc_server_connection (codes "2:a,b") ≡ done hung_up
unfolding handle_ipc_server_connection
no_zero = refl

one_argument : handle_ipc_server_connection (codes "2:a" ++ (0 ∷ [])) ≡ done invalid_command
unfolding handle_ipc_server_connection
one_argument = refl

other_number : handle_ipc_server_connection (codes " -7 :a" ++ (0 ∷ [])) ≡ done unknown_command
unfolding handle_ipc_server_connection
other_number = refl

begins : BeginsWell (join (codes ",") (map escaped (repo ∷ commit ∷ [])))
unfolding join is_space_byte
begins = refl

ends : EndsWell (join (codes ",") (map escaped (repo ∷ commit ∷ [])))
unfolding join is_space_byte
ends = (refl, refl)

handle_ipc_server_connection-sent_example :
    handle_ipc_server_connection (ipc_message (codes "2") (repo ∷ commit ∷ []) ++ codes "x")
    ≡ done (warm_last_commit_cache repo commit)
handle_ipc_server_connection-sent_example =
    handle_ipc_server_connection-sent repo commit (codes "x") (ground arith) (ground arith) begins
      ends

handle_ipc_server_connection-panics_example :
    handle_ipc_server_connection (codes "2:" ++ (codes "a,b\\" ++ (0 ∷ []))) ≡ panics
handle_ipc_server_connection-panics_example =
    handle_ipc_server_connection-panics b'a' (codes ",b\\") [] (ground arith) refl
