-- ===== src/Access/Session/Guesses.antt =====
-- Wrong passwords under one key: any calls of `login` (termroom/auth.py), one after the other.
use termroom.Prelude.{
  ℕ, ◌+◌, ◌≤◌, ◌<◌, Bool, true, false, ◌&&◌, some, List, [], ◌∷◌, ◌++◌, Text, text_eq, text_eq_refl,
  eq_of_text_eq, leb, ◌≡◌, inl, inr, sym, subst, arith, Bool-cases,
}
use termroom.Access.RateLimit.{allow, nth, IsSpaced, Kept, empty-Kept, later-Kept, allow-Kept}
use termroom.Access.Session.{
  Signer, Login, rate_limited, wrong_password, session_token, key_of, with_attempts, token_of,
  login,
}

-- a call of `login`, at the ticks of the monotonic clock; `remote_key` names who tries
pub record Try : Type 0 where
  pub supplied : Text
  pub remote_key : Text
  pub ticks : ℕ
  pub issued_at : ℕ
  pub nonce : Text

-- the clock does not go back
unfoldable pub from : ℕ → List Try → Bool
from start [] = true
from start (c ∷ cs) = leb start c.ticks && from c.ticks cs

-- the ticks of the wrong passwords under a key, since the last right one under it
abbrev pub noted : (mine : Bool) → (ticks : ℕ) → Login → List ℕ → List ℕ
noted false ticks answer log = log
noted true ticks rate_limited log = log
noted true ticks wrong_password log = log ++ ticks ∷ []
noted true ticks (session_token token) log = []

module _ (signer : Signer) (window : ℕ) (password : Text) where
  abbrev pub called : Try → (Text → List ℕ) → (Text → List ℕ) × Login
  called c attempts =
      login signer window password c.supplied c.remote_key c.ticks c.issued_at c.nonce attempts

  -- the wrong passwords that were compared, after the calls
  unfoldable pub guesses : Text → List Try → (Text → List ℕ) → List ℕ → List ℕ
  unfolding login
  guesses key [] attempts log = log
  guesses key (c ∷ cs) attempts log =
      let next = called c attempts in
      guesses key cs next.0 (noted (text_eq (key_of signer c.remote_key) key) c.ticks next.1 log)

  module _ (key : Text) (before : ℕ) (c : Try) (attempts : Text → List ℕ) (log : List ℕ)
      (l : before ≤ c.ticks) (k : Kept window 10 before (attempts key) log) where
    other_key :
        text_eq (key_of signer c.remote_key) key ≡ false → (called c attempts).0 key ≡ attempts key
    unfolding login
    other_key n = ground (arith, n)

    abbrev allowed : List ℕ × Bool
    allowed = allow window 10 c.ticks (attempts key)

    refused :
        key_of signer c.remote_key ≡ key
        → allowed.1 ≡ false
        → called c attempts ≡ (with_attempts signer attempts key allowed.0, rate_limited)
    unfolding login
    refused e n = rw e (ground (arith, n))

    compared :
        key_of signer c.remote_key ≡ key
        → allowed.1 ≡ true
        → text_eq c.supplied password ≡ false
        → called c attempts ≡ (with_attempts signer attempts key allowed.0, wrong_password)
    unfolding login
    compared e y n = rw e (ground (arith, y, n))

    let_in :
        key_of signer c.remote_key ≡ key
        → allowed.1 ≡ true
        → text_eq c.supplied password ≡ true
        → called c attempts ≡ (
          with_attempts signer attempts key [],
          session_token (token_of signer c.issued_at c.nonce),
        )
    unfolding login
    let_in e y p = rw e (ground (arith, y, p))

    abbrev Stays : (Text → List ℕ) × Login → Type 0
    Stays z = Kept window 10 c.ticks (z.0 key) (noted true c.ticks z.1 log)

    own_key : key_of signer c.remote_key ≡ key → Stays (called c attempts)
    own_key e =
        let after = allow-Kept window 10 before c.ticks (attempts key) log l k in
        elim (Bool-cases allowed.1) [
          | inr n ↦ subst Stays (sym (refused e n)) (rw (text_eq_refl key) (rw n at after))
          | inl y ↦ elim (Bool-cases (text_eq c.supplied password)) [
            | inr n ↦ subst Stays (sym (compared e y n)) (rw (text_eq_refl key) (rw y at after))
            | inl p ↦
                subst Stays (sym (let_in e y p))
                  (rw (text_eq_refl key) (empty-Kept window 10 c.ticks))
          ]
        ]

    called-Kept :
        Kept window 10 c.ticks
          ((called c attempts).0 key)
          (noted (text_eq (key_of signer c.remote_key) key) c.ticks (called c attempts).1 log)
    called-Kept = elim (Bool-cases (text_eq (key_of signer c.remote_key) key)) [
      | inl y ↦ rw y (own_key (eq_of_text_eq (key_of signer c.remote_key) key y))
      | inr n ↦ rw (n, other_key n) (later-Kept window 10 before c.ticks (attempts key) log l k)
    ]

  guesses-Kept :
      (key : Text) (start : ℕ) (cs : List Try) (attempts : Text → List ℕ) (log : List ℕ)
      → from start cs ≡ true
      → Kept window 10 start (attempts key) log
      → IsSpaced window 10 (guesses key cs attempts log)
  unfolding guesses from
  guesses-Kept key start [] attempts log f k = k.spaced
  guesses-Kept key start (c ∷ cs) attempts log f k =
      guesses-Kept key c.ticks cs (called c attempts).0 _ (ground (arith, f))
        (called-Kept key start c attempts log (ground (arith, f)) k)

-- In any calls of `login`, by a clock that does not go back, take the wrong passwords under one key that
-- were compared with the password and not refused by the limit, since the last right one under that key,
-- which clears the attempts. No more than 10 of them fall within a window: each is more than `window`
-- later than the one that is 10 places before it.
pub guesses-spaced :
    (signer : Signer) (window : ℕ) (password key : Text) (start : ℕ) (cs : List Try) (i t u : ℕ)
    → from start cs ≡ true
    → nth (guesses signer window password key cs (λ k. []) []) i ≡ some t
    → nth (guesses signer window password key cs (λ k. []) []) (i + 10) ≡ some u
    → t + window < u
guesses-spaced signer window password key start cs i t u f =
    guesses-Kept signer window password key start cs (λ k. []) [] f (empty-Kept window 10 start) i t
      u
