-- ===== src/FileRuns/Returns.antt =====
-- What a call returns or raises, composed along the calls that it makes (termroom/file_runs.py).
pub mod Reconcile
pub mod Kill
pub mod Recover
pub mod Launch
use termroom.Prelude.{◌-◌, Bool, true, false, if◌then◌else◌, ◌≡◌, refl, ap, ◌∙◌}
use termroom.Prelude.Result.{ok, err}
use termroom.FileRuns.Table.{Store}
use termroom.FileRuns.Act.{
  ◌>>=◌, Fault, Raised, faults, Act, pure, throw, outside, catch, handled, next_act,
}

-- called in the store `s`, `m` returns `a` and leaves the store `t`
pub record Gives {A : Type 0} (m : Act A) (s t : Store) (a : A) : Type 0 where
  pub returns : m s ≡ (t, ok a)

pub pure-Gives : {A : Type 0} {s : Store} {a : A} → Gives (pure a) s s a
pure-Gives = record { returns = refl }

pub outside-Gives : {A : Type 0} {s : Store} {a : A} → Gives (outside (ok a)) s s a
outside-Gives = record { returns = refl }

pub then-Gives :
    {A B : Type 0} {m : Act A} (f : A → Act B) {s t v : Store} {a : A} {b : B}
    → Gives m s t a
    → Gives (f a) t v b
    → Gives (m >>= f) s v b
then-Gives f g h = record { returns = ap (next_act f) g.returns ∙ h.returns }

pub true-Gives :
    {A : Type 0} {b : Bool} (m k : Act A) {s t : Store} {a : A}
    → b ≡ true
    → Gives m s t a
    → Gives (if b then m else k) s t a
true-Gives m k {s = s} e g = record { returns = ap (λ c. (if c then m else k) s) e ∙ g.returns }

pub false-Gives :
    {A : Type 0} {b : Bool} (m k : Act A) {s t : Store} {a : A}
    → b ≡ false
    → Gives k s t a
    → Gives (if b then m else k) s t a
false-Gives m k {s = s} e g = record { returns = ap (λ c. (if c then m else k) s) e ∙ g.returns }

-- called in the store `s`, `m` raises `e` and leaves the store `t`
pub record Throws {A : Type 0} (m : Act A) (s t : Store) (e : Raised) : Type 0 where
  pub raises : m s ≡ (t, err e)

pub throw-Throws : {A : Type 0} {s : Store} {e : Raised} → Throws (throw {A = A} e) s s e
throw-Throws = record { raises = refl }

pub outside-Throws :
    {A : Type 0} {s : Store} {fault : Fault}
    → Throws (outside {A = A} (err fault)) s s (faults fault)
outside-Throws = record { raises = refl }

pub then-Throws :
    {A B : Type 0} {m : Act A} (f : A → Act B) {s t v : Store} {a : A} {e : Raised}
    → Gives m s t a
    → Throws (f a) t v e
    → Throws (m >>= f) s v e
then-Throws f g h = record { raises = ap (next_act f) g.returns ∙ h.raises }

pub first-Throws :
    {A B : Type 0} {m : Act A} (f : A → Act B) {s t : Store} {e : Raised}
    → Throws m s t e
    → Throws (m >>= f) s t e
first-Throws f g = record { raises = ap (next_act f) g.raises }

pub false-Throws :
    {A : Type 0} {b : Bool} (m k : Act A) {s t : Store} {e : Raised}
    → b ≡ false
    → Throws k s t e
    → Throws (if b then m else k) s t e
false-Throws m k {s = s} e g = record { raises = ap (λ c. (if c then m else k) s) e ∙ g.raises }

pub catch-Gives :
    {A : Type 0} {m : Act A} (handler : Raised → Act A) {s t : Store} {a : A}
    → Gives m s t a
    → Gives (catch m handler) s t a
catch-Gives handler g = record { returns = ap (handled handler) g.returns }

pub handled-Gives :
    {A : Type 0} {m : Act A} (handler : Raised → Act A) {s t v : Store} {e : Raised} {a : A}
    → Throws m s t e
    → Gives (handler e) t v a
    → Gives (catch m handler) s v a
handled-Gives handler g h = record { returns = ap (handled handler) g.raises ∙ h.returns }
