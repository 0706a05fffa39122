-- ===== src/Access/Session/Signed.antt =====
-- The sessions that are accepted (termroom/auth.py).
use termroom.Prelude.{
  ℕ, suc, ◌+◌, ◌-◌, ◌≤◌, false, ◌||◌, Option, none, some, List, [], ◌∷◌, Text, text_eq,
  text_eq_refl, eq_of_text_eq, is_empty, ◌≡◌, inl, inr, refl, sym, ap, subst, arith, Bool-cases,
  ◌∙◌,
}
use termroom.Prelude.Split.{has, all_parts, split, join, split-join}
use termroom.Prelude.Integers.{ℤ, pos, negsuc, difference-pos, ◌+ℤ◌, ◌≤ℤ◌}
use termroom.Access.Session.{
  Signer, session_max_age_seconds, session_clock_skew_seconds, Session, is_early, is_expired,
  seconds_left, payload, session_of, checked, decode_parts, decode_session, token_of,
}
use termroom.Prelude.{append_assoc}

abbrev pub separator : ℕ
separator = b'.'

not_early : (now : ℕ) (t : ℤ) → is_early now t ≡ false → t ≤ℤ pos (now + 300)
not_early now (pos t) h = ground (arith, h)
not_early now (negsuc t) h = tt

not_expired : (now : ℕ) (t : ℤ) → is_expired now t ≡ false → pos now ≤ℤ t +ℤ pos 2592000
unfolding ◌+ℤ◌
not_expired now (pos t) h = ground (arith, h)
not_expired now (negsuc t) h =
    let l : now + suc t ≤ 2592000 = ground (arith, h) in
    subst (λ z. pos now ≤ℤ z) (sym (difference-pos 2592000 (suc t) (omega (arith, l))))
      (omega (arith, l))

left-reaches :
    (now : ℕ) (t : ℤ)
    → is_expired now t ≡ false
    → pos now +ℤ pos (seconds_left now t) ≡ t +ℤ pos 2592000
unfolding ◌+ℤ◌
left-reaches now (pos t) h =
    let l : now ≤ t + 2592000 = ground (arith, h) in ap pos (omega (arith, l))
left-reaches now (negsuc t) h =
    let l : now + suc t ≤ 2592000 = ground (arith, h) in
    let e : now + (2592000 - (now + suc t)) ≡ 2592000 - suc t = omega (arith, l) in
    ap pos e ∙ sym (difference-pos 2592000 (suc t) (omega (arith, l)))

module _ (signer : Signer) where
  split-token :
      (t : ℕ) (nonce : Text)
      → has separator (signer.show_int (pos t)) ≡ false
      → has separator nonce ≡ false
      → has separator (signer.sign (payload signer (pos t) nonce)) ≡ false
      → split separator (token_of signer t nonce)
        ≡ signer.show_int (pos t) ∷ nonce ∷ signer.sign (payload signer (pos t) nonce) ∷ []
  unfolding join all_parts
  split-token t nonce a b c =
      let signature = signer.sign (payload signer (pos t) nonce) in
      ap (split separator)
        (append_assoc (signer.show_int (pos t)) (separator ∷ nonce) (separator ∷ signature))
      ∙ split-join separator (signer.show_int (pos t) ∷ nonce ∷ signature ∷ []) (λ e. cc)
          (ground (arith, a, b, c))

  -- The token of a login is accepted, with the time of the login, until the session has reached its
  -- greatest age, also by a clock that is behind by at most the skew: where integers are read back as they
  -- are written, and neither these texts, nor the nonce, nor a signature is empty or has a dot.
  pub decode-token :
      (issued now : ℕ) (nonce : Text)
      → signer.parse_int (signer.show_int (pos issued)) ≡ some (pos issued)
      → is_empty (signer.show_int (pos issued)) ≡ false
      → has separator (signer.show_int (pos issued)) ≡ false
      → is_empty nonce ≡ false
      → has separator nonce ≡ false
      → is_empty (signer.sign (payload signer (pos issued) nonce)) ≡ false
      → has separator (signer.sign (payload signer (pos issued) nonce)) ≡ false
      → issued ≤ now + session_clock_skew_seconds
      → now ≤ issued + session_max_age_seconds
      → decode_session signer now (token_of signer issued nonce)
        ≡ some (session_of signer now (pos issued) nonce)
  unfolding decode_session
  decode-token issued now nonce p e a n b s c early late =
      let signature = signer.sign (payload signer (pos issued) nonce) in
      ap (decode_parts signer now) (split-token issued nonce a b c)
      ∙ ground (arith, p, e, n, s, early, late, text_eq_refl signature)

  -- the signature of the Core, and a time within the limits
  pub record IsSigned (now : ℕ) (token : Text) (session : Session) : Type 0 where
    pub written_time : Text
    pub nonce : Text
    pub parts :
        split separator token
        ≡ written_time ∷ nonce ∷ signer.sign (payload signer session.issued_at nonce) ∷ []
    pub read_back : signer.parse_int written_time ≡ some session.issued_at
    pub in_time : pos now ≤ℤ session.issued_at +ℤ pos 2592000
    pub of_past : session.issued_at ≤ℤ pos (now + 300)
    pub is_of_nonce : session.id ≡ signer.session_id nonce
    pub ends : session.expires_at ≡ session.issued_at +ℤ pos 2592000
    pub left : pos now +ℤ pos session.expires_in ≡ session.issued_at +ℤ pos 2592000

  checked-IsSigned :
      (now : ℕ) (token raw nonce signature : Text) (x : Option ℤ) (session : Session)
      → split separator token ≡ raw ∷ nonce ∷ signature ∷ []
      → signer.parse_int raw ≡ x
      → checked signer now x nonce signature ≡ some session
      → IsSigned now token session
  checked-IsSigned now token raw nonce signature none session e p h = cc
  checked-IsSigned now token raw nonce signature (some t) session e p h =
      let expected = signer.sign (payload signer t nonce) in
      elim (Bool-cases (is_early now t)) [
        | inl y ↦ ground (arith, h, y)
        | inr a ↦ elim (Bool-cases (is_expired now t)) [
          | inl y ↦ ground (arith, h, a, y)
          | inr b ↦ elim (Bool-cases (text_eq signature expected)) [
            | inr n ↦ ground (arith, h, a, b, n)
            | inl y ↦
                let q : session_of signer now t nonce ≡ session = ground (arith, h, a, b, y) in
                subst (IsSigned now token) q (record {
                  written_time = raw;
                  nonce = nonce;
                  parts = e ∙ ap (λ z. raw ∷ nonce ∷ z ∷ []) (eq_of_text_eq signature expected y);
                  read_back = p;
                  in_time = not_expired now t b;
                  of_past = not_early now t a;
                  is_of_nonce = refl;
                  ends = refl;
                  left = left-reaches now t b;
                })
          ]
        ]
      ]

  decode_parts-IsSigned :
      (now : ℕ) (token : Text) (ps : List Text) (session : Session)
      → split separator token ≡ ps
      → decode_parts signer now ps ≡ some session
      → IsSigned now token session
  decode_parts-IsSigned now token [] session e h = cc
  decode_parts-IsSigned now token (a ∷ []) session e h = cc
  decode_parts-IsSigned now token (a ∷ b ∷ []) session e h = cc
  decode_parts-IsSigned now token (a ∷ b ∷ c ∷ d ∷ ps) session e h = cc
  decode_parts-IsSigned now token (raw ∷ nonce ∷ signature ∷ []) session e h =
      elim (Bool-cases (is_empty raw || is_empty nonce || is_empty signature)) [
        | inl y ↦ ground (arith, h, y)
        | inr n ↦
            checked-IsSigned now token raw nonce signature (signer.parse_int raw) session e refl
              (ground (arith, h, n))
      ]

  -- A session is accepted only of a token of three parts, whose third is the signature of the Core of the
  -- time and the nonce in it, and only if now is at most 2,592,000 seconds after that time and that time
  -- at most 300 seconds after now, as integers. The session has the identifier of the nonce, it expires
  -- 2,592,000 seconds after that time, and the seconds it has left are those from now until then.
  pub decode_session-IsSigned :
      (now : ℕ) (token : Text) (session : Session)
      → decode_session signer now token ≡ some session
      → IsSigned now token session
  unfolding decode_session
  decode_session-IsSigned now token session h =
      decode_parts-IsSigned now token (split separator token) session refl h
