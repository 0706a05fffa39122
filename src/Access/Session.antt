-- ===== src/Access/Session.antt =====
-- Signed sessions and the login: `AuthManager` of termroom/auth.py.
pub mod Signed
pub mod Guesses
use termroom.Prelude.{
  ℕ, suc, ◌+◌, ◌-◌, ◌*◌, Bool, false, ◌||◌, not, Option, none, some, List, [], ◌∷◌, ◌++◌, Text,
  codes, text_eq, is_empty, ltb, if◌then◌else◌,
}
use termroom.Prelude.Result.{◌>>=◌, ◌>>◌}
use termroom.Prelude.Split.{split}
use termroom.Prelude.Integers.{ℤ, pos, negsuc, ◌+ℤ◌}
use termroom.Access.RateLimit.{allow}

-- the code that is not the program's: `int` of a text, with nothing where it raises, `str` of an integer,
-- the HMAC of a text under the session key and the identifier of a nonce, in hexadecimal digits
pub record Signer : Type 0 where
  pub parse_int : Text → Option ℤ
  pub show_int : ℤ → Text
  pub sign : Text → Text
  pub session_id : Text → Text

-- `SESSION_MAX_AGE_SECONDS` and `SESSION_CLOCK_SKEW_SECONDS`
abbrev pub session_max_age_seconds : ℕ
session_max_age_seconds = 60 * 60 * 24 * 30

abbrev pub session_clock_skew_seconds : ℕ
session_clock_skew_seconds = 5 * 60

pub record Session : Type 0 where
  pub id : Text
  pub issued_at : ℤ
  pub expires_at : ℤ
  pub expires_in : ℕ

-- `issued_at > now + SESSION_CLOCK_SKEW_SECONDS`
abbrev pub is_early : ℕ → ℤ → Bool
is_early now (pos t) = ltb (now + session_clock_skew_seconds) t
is_early now (negsuc t) = false

-- `now - issued_at > SESSION_MAX_AGE_SECONDS`
abbrev pub is_expired : ℕ → ℤ → Bool
is_expired now (pos t) = ltb (t + session_max_age_seconds) now
is_expired now (negsuc t) = ltb session_max_age_seconds (now + suc t)

-- `max(0, issued_at + SESSION_MAX_AGE_SECONDS - now)`
abbrev pub seconds_left : ℕ → ℤ → ℕ
seconds_left now (pos t) = t + session_max_age_seconds - now
seconds_left now (negsuc t) = session_max_age_seconds - (now + suc t)

pub data Login : Type 0 where
  rate_limited wrong_password : Login
  session_token : Text → Login

module _ (signer : Signer) where
  -- `f"{issued_at}.{nonce}"`
  abbrev pub payload : ℤ → Text → Text
  payload issued_at nonce = signer.show_int issued_at ++ b'.' ∷ nonce

  abbrev pub session_of : ℕ → ℤ → Text → Session
  session_of now issued_at nonce = record {
    id = signer.session_id nonce;
    issued_at = issued_at;
    expires_at = issued_at +ℤ pos session_max_age_seconds;
    expires_in = seconds_left now issued_at;
  }

  abbrev pub checked : ℕ → Option ℤ → (nonce signature : Text) → Option Session
  checked now none nonce signature = none
  checked now (some issued_at) nonce signature =
      if is_early now issued_at
      then none
      else if is_expired now issued_at
      then none
      else if not (text_eq signature (signer.sign (payload issued_at nonce)))
      then none
      else some (session_of now issued_at nonce)

  abbrev pub decode_parts : ℕ → List Text → Option Session
  decode_parts now (issued_raw ∷ nonce ∷ signature ∷ []) =
      if is_empty issued_raw || is_empty nonce || is_empty signature
      then none
      else checked now (signer.parse_int issued_raw) nonce signature
  decode_parts now _ = none

  -- `_decode_session`
  unfoldable pub decode_session : (now : ℕ) → (token : Text) → Option Session
  unfolding split text_eq ◌+ℤ◌
  decode_session now token = decode_parts now (split b'.' token)

  -- the token of a login
  abbrev pub token_of : ℕ → Text → Text
  token_of issued_at nonce =
      payload (pos issued_at) nonce ++ b'.' ∷ signer.sign (payload (pos issued_at) nonce)

  -- the attempts of each key
  abbrev pub with_attempts : (Text → List ℕ) → Text → List ℕ → Text → List ℕ
  with_attempts attempts key times other = if text_eq key other then times else attempts other

  -- `remote_key or "unknown"`
  abbrev pub key_of : Text → Text
  key_of remote_key = if is_empty remote_key then codes "unknown" else remote_key

  -- `login`; `ticks` is the monotonic clock and `issued_at` the time of day
  unfoldable pub login :
      (window : ℕ) (password supplied remote_key : Text) (ticks issued_at : ℕ) (nonce : Text)
      → (Text → List ℕ)
      → (Text → List ℕ) × Login
  unfolding allow text_eq
  login window password supplied remote_key ticks issued_at nonce attempts =
      let key = key_of remote_key in
      let next = allow window 10 ticks (attempts key) in
      if not next.1
      then (with_attempts attempts key next.0, rate_limited)
      else if not (text_eq supplied password)
      then (with_attempts attempts key next.0, wrong_password)
      else (with_attempts attempts key [], session_token (token_of issued_at nonce))
