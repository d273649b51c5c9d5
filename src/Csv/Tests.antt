-- ===== src/Csv/Tests.antt =====
-- Tests of ParseCSV and EncodeCSV.
use gitus.Csv.{parse_csv, encode_csv}
use gitus.Prelude.{[], codes, ◌∷◌, ◌≡◌, done, panics, refl}

two_fields : parse_csv (codes " a\\,b , c\\\\d ") ≡ done (codes "a,b " ∷ codes " c\\d" ∷ [])
unfolding parse_csv
two_fields = refl

kept_last_space : parse_csv (codes "a\\  ") ≡ done (codes "a " ∷ [])
unfolding parse_csv
kept_last_space = refl

encoded : encode_csv (codes " a" ∷ codes "b,c " ∷ []) ≡ done (codes "\\ a,b\\,c\\ ")
unfolding encode_csv
encoded = refl

nothing_panics : encode_csv [] ≡ panics
unfolding encode_csv
nothing_panics = refl
