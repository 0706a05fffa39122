-- ===== src/Access/Examples.antt =====
-- A login and its session, and attempts at a login.
use termroom.Prelude.{ℕ, ◌+◌, ◌<◌, true, some, List, [], ◌∷◌, Text, codes, ◌≡◌, refl, arith}
use termroom.Prelude.Split.{has}
use termroom.Prelude.Integers.{pos}
use termroom.Access.Session.{Signer, session_of, decode_session, token_of, login}
use termroom.Access.RateLimit.{drop_old, allow, nth}
use termroom.Access.Session.Guesses.{Try, from, guesses, guesses-spaced}
use termroom.Access.Session.Signed.{decode-token, IsSigned, decode_session-IsSigned}

-- every time is written as one letter, and every signature is one letter
abbrev signer : Signer
signer = record {
  parse_int = λ t. some (pos 97);
  show_int = λ t. codes "a";
  sign = λ t. codes "s";
  session_id = λ nonce. nonce;
}

abbrev nonce : Text
nonce = codes "n"

abbrev token : Text
token = token_of signer 97 nonce

decode-token_example :
    decode_session signer 100 (token_of signer 97 nonce)
    ≡ some (session_of signer 100 (pos 97) nonce)
unfolding has
decode-token_example =
    decode-token signer 97 100 nonce refl refl refl refl refl refl refl (omega arith) (omega arith)

token_accepted : decode_session signer 100 token ≡ some (session_of signer 100 (pos 97) nonce)
unfolding decode_session
token_accepted = refl

decode_session-IsSigned_example : IsSigned signer 100 token (session_of signer 100 (pos 97) nonce)
decode_session-IsSigned_example =
    decode_session-IsSigned signer 100 token (session_of signer 100 (pos 97) nonce) token_accepted

abbrev try_at : Text → ℕ → Try
try_at supplied ticks = record {
  supplied = supplied;
  remote_key = codes "10.0.0.7";
  ticks = ticks;
  issued_at = 97;
  nonce = nonce;
}

abbrev wrong : ℕ → Try
wrong = try_at (codes "guess")

-- a right password after a wrong one, then twelve wrong ones
abbrev tries : List Try
tries =
    wrong 1
    ∷ try_at (codes "secret") 2
    ∷ wrong 3
    ∷ wrong 4
    ∷ wrong 5
    ∷ wrong 6
    ∷ wrong 7
    ∷ wrong 8
    ∷ wrong 9
    ∷ wrong 10
    ∷ wrong 11
    ∷ wrong 12
    ∷ wrong 13
    ∷ wrong 70
    ∷ []

abbrev compared : List ℕ
compared = guesses signer 60 (codes "secret") (codes "10.0.0.7") tries (λ k. []) []

-- the eleventh is refused, the twelfth is compared
eleven_compared : compared ≡ 3 ∷ 4 ∷ 5 ∷ 6 ∷ 7 ∷ 8 ∷ 9 ∷ 10 ∷ 11 ∷ 12 ∷ 70 ∷ []
unfolding guesses login allow drop_old
eleven_compared = refl

tries_in_order : from 0 tries ≡ true
unfolding from
tries_in_order = refl

first_compared : nth compared 0 ≡ some 3
unfolding nth
first_compared = rw eleven_compared refl

last_compared : nth compared (0 + 10) ≡ some 70
unfolding nth
last_compared = rw eleven_compared refl

guesses-spaced_example : 3 + 60 < 70
guesses-spaced_example =
    guesses-spaced signer 60 (codes "secret") (codes "10.0.0.7") 0 tries 0 3 70 tries_in_order
      first_compared last_compared
