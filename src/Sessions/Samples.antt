-- ===== src/Sessions/Samples.antt =====
-- A codec that is lawful, in place of JSON: the lengths of the texts, and then the texts.
use gitus.Prelude.{
  Bytes, ◌≡◌, Option, some, ◌∷◌, length, refl, take, take-append, drop, ◌++◌, drop-append, none,
}
use gitus.Sessions.{Session, Codec}
use gitus.Sessions.Live.{IsLawful}

abbrev pub plain_encode : Session → Bytes
plain_encode s =
    s.timestamp
    ∷ s.expire_timestamp
    ∷ length s.username
    ∷ length s.id
    ∷ length s.csrf_token
    ∷ length s.ip
    ∷ (s.username ++ (s.id ++ (s.csrf_token ++ (s.ip ++ s.user_agent))))

abbrev pub plain_decode : Bytes → Option Session
plain_decode (t ∷ e ∷ a ∷ b ∷ c ∷ d ∷ r) = some (record {
  username = take a r;
  id = take b (drop a r);
  timestamp = t;
  expire_timestamp = e;
  csrf_token = take c (drop b (drop a r));
  ip = take d (drop c (drop b (drop a r)));
  user_agent = drop d (drop c (drop b (drop a r)));
})
plain_decode s = none

abbrev pub plain : Codec
plain = record { encode = plain_encode; decode = plain_decode }

plain_decodes : (s : Session) → plain_decode (plain_encode s) ≡ some s
plain_decodes s =
    rw
      (
        take-append s.username (s.id ++ (s.csrf_token ++ (s.ip ++ s.user_agent))),
        drop-append s.username (s.id ++ (s.csrf_token ++ (s.ip ++ s.user_agent))),
        take-append s.id (s.csrf_token ++ (s.ip ++ s.user_agent)),
        drop-append s.id (s.csrf_token ++ (s.ip ++ s.user_agent)),
        take-append s.csrf_token (s.ip ++ s.user_agent),
        drop-append s.csrf_token (s.ip ++ s.user_agent),
        take-append s.ip s.user_agent,
        drop-append s.ip s.user_agent,
      )
      refl

pub plain-IsLawful : IsLawful plain
plain-IsLawful = record { decodes = plain_decodes; nonempty = λ s. refl }
