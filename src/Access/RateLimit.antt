-- ===== src/Access/RateLimit.antt =====
-- Limits on attempts: `_allow_attempt` of termroom/auth.py, `NodePairingRateLimiter` of
-- termroom/node_core.py. A time is a number of ticks of a clock that does not go back.
use termroom.Prelude.{
  some-inj, ℕ, zero, suc, ◌+◌, ◌-◌, ◌≤◌, ◌<◌, Bool, true, false, Option, none, some, List, [], ◌∷◌,
  ◌++◌, Text, codes, text_eq, length, ltb, leb, if◌then◌else◌, ◌≡◌, ◌≢◌, inl, inr, refl, sym, ap,
  subst, arith, Bool-cases, ◌∙◌,
}
use termroom.Prelude.Lists.{length-append}
use termroom.Prelude.Lists.{length-append}
use termroom.Prelude.{append_assoc}

module _ (window limit : ℕ) where
  -- `while attempts and now - attempts[0] > 60: attempts.popleft()`
  unfoldable pub drop_old : (now : ℕ) → List ℕ → List ℕ
  drop_old now [] = []
  drop_old now (t ∷ ts) =
      let later = drop_old now ts in if ltb (t + window) now then later else t ∷ ts

  -- the deque of a key after an attempt, and whether the attempt is allowed
  unfoldable pub allow : (now : ℕ) → List ℕ → List ℕ × Bool
  unfolding drop_old
  allow now attempts =
      let kept = drop_old now attempts in
      if leb limit (length kept) then (kept, false) else (kept ++ now ∷ [], true)

-- the limit of an action of `NodePairingRateLimiter`
unfoldable pub pairing_limit : Text → ℕ
pairing_limit action =
    if text_eq action (codes "enroll")
    then 10
    else if text_eq action (codes "status")
    then 120
    else 10

-- `xs[i]`
unfoldable pub nth : List ℕ → ℕ → Option ℕ
nth [] i = none
nth (x ∷ xs) zero = some x
nth (x ∷ xs) (suc i) = nth xs i

nth-append :
    (xs ys : List ℕ) (i : ℕ)
    → nth (xs ++ ys) i ≡ (if ltb i (length xs) then nth xs i else nth ys (i - length xs))
unfolding nth
nth-append [] ys i = ground arith
nth-append (x ∷ xs) ys zero = ground arith
nth-append (x ∷ xs) ys (suc i) = ground (arith, nth-append xs ys i)

nth-some : (xs : List ℕ) (i t : ℕ) → nth xs i ≡ some t → i < length xs
unfolding nth
nth-some [] i t h = cc
nth-some (x ∷ xs) zero t h = omega arith
nth-some (x ∷ xs) (suc i) t h = omega (arith, nth-some xs i t h)

pub nth-nil : (i t : ℕ) → nth [] i ≢ some t
unfolding nth
nth-nil i t h = cc

nth-cons :
    (x : ℕ) (xs : List ℕ) (P : ℕ → Type 0)
    → P x
    → ((i t : ℕ) → nth xs i ≡ some t → P t)
    → (i t : ℕ) → nth (x ∷ xs) i ≡ some t
    → P t
unfolding nth
nth-cons x xs P p f zero t h = subst P (some-inj h) p
nth-cons x xs P p f (suc i) t h = f i t h

module _ (window limit : ℕ) where
  -- `now` or any time after it is beyond the window of the time
  abbrev IsOld : ℕ → ℕ → Type 0
  IsOld now t = t + window < now

  -- the deque holds the last of the times that count, and those before them are old
  pub record Kept (now : ℕ) (attempts allowed : List ℕ) : Type 0 where
    pub gone : List ℕ
    pub split_at : allowed ≡ gone ++ attempts
    pub old : (i t : ℕ) → nth gone i ≡ some t → IsOld now t
    pub spaced :
        (i t u : ℕ) → nth allowed i ≡ some t → nth allowed (i + limit) ≡ some u → t + window < u

  drop_old-split :
      (now : ℕ) (attempts : List ℕ)
      → (dropped : List ℕ) × (attempts ≡ dropped ++ drop_old window limit now attempts)
        × ((i t : ℕ) → nth dropped i ≡ some t → IsOld now t)
  unfolding drop_old
  drop_old-split now [] = ([], refl, (λ i t h. absurd (nth-nil i t h)))
  drop_old-split now (t ∷ ts) = elim (Bool-cases (ltb (t + window) now)) [
    | inl y ↦
        let r = drop_old-split now ts in
        (t ∷ r.0, ground (arith, y, r.1), nth-cons t r.0 (IsOld now) (ground (arith, y)) r.2)
    | inr n ↦ ([], ground (arith, n), (λ i u h. absurd (nth-nil i u h)))
  ]

  -- the times that are gone and those that are dropped now
  old-append :
      (now : ℕ) (gone dropped : List ℕ)
      → ((i t : ℕ) → nth gone i ≡ some t → IsOld now t)
      → ((i t : ℕ) → nth dropped i ≡ some t → IsOld now t)
      → (i t : ℕ) → nth (gone ++ dropped) i ≡ some t
      → IsOld now t
  old-append now gone dropped f g i t h = elim (Bool-cases (ltb i (length gone))) [
    | inl y ↦ f i t (ground (arith, nth-append gone dropped i, y, h))
    | inr n ↦ g (i - length gone) t (ground (arith, nth-append gone dropped i, n, h))
  ]

  abbrev pub IsSpaced : List ℕ → Type 0
  IsSpaced allowed =
      (i t u : ℕ) → nth allowed i ≡ some t → nth allowed (i + limit) ≡ some u → t + window < u

  append-IsSpaced :
      (now : ℕ) (allowed gone kept : List ℕ)
      → IsSpaced allowed
      → allowed ≡ gone ++ kept
      → ((i t : ℕ) → nth gone i ≡ some t → IsOld now t)
      → length kept < limit
      → IsSpaced (allowed ++ now ∷ [])
  unfolding nth
  append-IsSpaced now allowed gone kept f e g l i t u h k =
      let a = nth-append allowed (now ∷ []) i in
      let b = nth-append allowed (now ∷ []) (i + limit) in
      elim (Bool-cases (ltb (i + limit) (length allowed))) [
        | inl y ↦ f i t u (ground (arith, a, h, y)) (ground (arith, b, k, y))
        | inr n ↦
            let s = nth-some (allowed ++ now ∷ []) (i + limit) u k in
            let q = length-append allowed (now ∷ []) in
            let z : i + limit ≡ length allowed = ground (arith, s, q, n) in
            let w : u ≡ now = ground (arith, b, k, n, z) in
            let p : length allowed ≡ length gone + length kept =
              ap length e ∙ length-append gone kept in
            let m : i < length gone = omega (arith, z, p, l) in
            let c = nth-append gone kept i in
            let v : nth allowed i ≡ some t = ground (arith, a, h, m, p) in
            let o = g i t (ground (arith, ap (λ x. nth x i) e, v, c, m)) in omega (arith, o, w)
      ]

  pub empty-Kept : (now : ℕ) → Kept now [] []
  empty-Kept now = record {
    gone = [];
    split_at = refl;
    old = (λ j x h. absurd (nth-nil j x h));
    spaced = (λ j x y h g. absurd (nth-nil j x h));
  }

  pub later-Kept :
      (before now : ℕ) (attempts allowed : List ℕ)
      → before ≤ now
      → Kept before attempts allowed
      → Kept now attempts allowed
  later-Kept before now attempts allowed l k = record {
    gone = k.gone;
    split_at = k.split_at;
    old = (λ i t h. omega (arith, k.old i t h, l));
    spaced = k.spaced;
  }

  pub allow-Kept :
      (before now : ℕ) (attempts allowed : List ℕ)
      → before ≤ now
      → Kept before attempts allowed
      → Kept now
          (allow window limit now attempts).0
          (if (allow window limit now attempts).1 then allowed ++ now ∷ [] else allowed)
  unfolding allow
  allow-Kept before now attempts allowed l k =
      let r = drop_old-split now attempts in
      let kept = drop_old window limit now attempts in
      let gone = k.gone ++ r.0 in
      let e : allowed ≡ gone ++ kept =
        k.split_at ∙ ap (λ z. k.gone ++ z) r.1 ∙ sym (append_assoc k.gone r.0 kept) in
      let o = old-append now k.gone r.0 (λ i t h. omega (arith, k.old i t h, l)) r.2 in
      elim (Bool-cases (leb limit (length kept))) [
        | inl y ↦
            let q : allow window limit now attempts ≡ (kept, false) = ground (arith, y) in
            subst (λ z. Kept now z.0 (if z.1 then allowed ++ now ∷ [] else allowed)) (sym q)
              (record { gone = gone; split_at = e; old = o; spaced = k.spaced })
        | inr n ↦
            let q : allow window limit now attempts ≡ (kept ++ now ∷ [], true) =
              ground (arith, n) in
            subst (λ z. Kept now z.0 (if z.1 then allowed ++ now ∷ [] else allowed)) (sym q)
              (record {
                gone = gone;
                split_at = ap (λ z. z ++ now ∷ []) e ∙ append_assoc gone kept (now ∷ []);
                old = o;
                spaced = append-IsSpaced now allowed gone kept k.spaced e o (ground (arith, n));
              })
      ]
