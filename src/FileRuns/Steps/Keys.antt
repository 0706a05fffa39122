-- ===== src/FileRuns/Steps/Keys.antt =====
-- An idempotency key stands for one run (termroom/db.py).
use termroom.Prelude.{
  Bool, true, false, ◌&&◌, Option, none, some, List, [], ◌∷◌, Text, text_eq, text_eq_refl,
  text_eq_iff, eq_of_text_eq, is_some, ==_iff, if◌then◌else◌, ◌≡◌, ◌⊎◌, inl, inr, refl, sym, ap,
  subst, arith, Bool-cases, Option-cases, ◌∙◌,
}
use termroom.Prelude.Result.{ok}
use termroom.FileRuns.Table.{
  FileRun, Event, Store, find, active_in, keyed, amend, without_terminal, forget_terminals,
}
use termroom.FileRuns.Steps.Forgotten.{forgotten, keyed-forgotten}
use termroom.FileRuns.Store.{
  Clock, ClaimPayload, Claim, idempotent, occupied, Claimed, same_texts, same_payload, new_run,
  claim_file_run,
}
use termroom.FileRuns.Steps.{
  Step, claims, ties, changes, forgets, Reaches, here, next, ties-case, changes-case, find-id,
}
use termroom.FileRuns.Steps.Active.{empty_store}
use termroom.FileRuns.Steps.Distinct.{distinct, reaches-distinct, empty-distinct}

-- the store is kept, or the key was free
claim-fresh :
    (now : Text) (p : ClaimPayload) (s : Store) (c : Claimed)
    → claim_file_run now p s ≡ ok c
    → (c.store ≡ s)
      ⊎ ((keyed s.runs p.workspace_id p.idempotency_key ≡ none)
          × (c.store ≡ record s { runs = new_run p now ∷ s.runs }))
unfolding claim_file_run
claim-fresh now p s c h = elim (Option-cases (keyed s.runs p.workspace_id p.idempotency_key)) [
  | inr k ↦ inl (ground (arith, k.1, h))
  | inl n ↦ elim (Option-cases (active_in s.runs p.workspace_id)) [
    | inr a ↦ inl (ground (arith, n, a.1, h))
    | inl m ↦ inr (n, ground (arith, n, m, h))
  ]
]

keyed-found :
    (rs : List FileRun) (w key : Text) (r : FileRun)
    → keyed rs w key ≡ some r
    → is_some (find rs r.id) ≡ true
unfolding keyed find
keyed-found [] w key r h = cc
keyed-found (q ∷ rs) w key r h = ground (arith, keyed-found rs w key r, text_eq_refl q.id, h)

amend-absent : (rs : List FileRun) (row : FileRun) → find rs row.id ≡ none → amend rs row ≡ rs
unfolding find amend
amend-absent [] row n = refl
amend-absent (r ∷ rs) row n = ground (arith, amend-absent rs row, n)

-- the row that a write puts in the place of a run
abbrev replaced : FileRun → Option FileRun → Option FileRun
replaced row none = none
replaced row (some r) = if text_eq r.id row.id then some row else some r

kept :
    (rs : List FileRun) (row : FileRun) (w key : Text)
    → find rs row.id ≡ none
    → replaced row (keyed rs w key) ≡ keyed rs w key
kept rs row w key n = elim (Option-cases (keyed rs w key)) [
  | inl e ↦ ground (arith, e)
  | inr r ↦
      let f = keyed-found rs w key r.0 r.1 in ground (arith, r.1, f, text_eq_iff r.0.id row.id, n)
]

keyed-amend :
    (rs : List FileRun) (q row : FileRun) (w key : Text)
    → distinct rs ≡ true
    → find rs row.id ≡ some q
    → row.workspace_id ≡ q.workspace_id
    → row.idempotency_key ≡ q.idempotency_key
    → keyed (amend rs row) w key ≡ replaced row (keyed rs w key)
unfolding distinct find amend keyed
keyed-amend [] q row w key d f ew ek = refl
keyed-amend (r ∷ rs) q row w key d f ew ek = elim (Bool-cases (text_eq r.id row.id)) [
  | inl y ↦
      let e = eq_of_text_eq r.id row.id y in
      let n : find rs row.id ≡ none = ground (arith, d, e) in
      let a = amend-absent rs row n in
      let k = kept rs row w key n in ground (arith, y, a, k, f, ew, ek)
  | inr m ↦
      let i = keyed-amend rs q row w key (ground (arith, d)) (ground (arith, m, f)) ew ek in
      ground (arith, m, i)
]

keyed-find :
    (rs : List FileRun) (w key : Text) (r : FileRun)
    → distinct rs ≡ true
    → keyed rs w key ≡ some r
    → find rs r.id ≡ some r
unfolding distinct keyed find
keyed-find [] w key r d h = cc
keyed-find (q ∷ rs) w key r d h =
    elim (Bool-cases (text_eq q.workspace_id w && text_eq q.idempotency_key key)) [
      | inl y ↦ ground (arith, y, h, text_eq_refl q.id)
      | inr n ↦
          let f = keyed-find rs w key r (ground (arith, d)) (ground (arith, n, h)) in
          ground (arith, f, d, text_eq_iff q.id r.id)
    ]

-- the key of the payload stands for the run `id`, which was claimed with this payload
pub record KeyNames (p : ClaimPayload) (id : Text) (s : Store) : Type 0 where
  pub run : FileRun
  pub named : keyed s.runs p.workspace_id p.idempotency_key ≡ some run
  pub same : same_payload run p ≡ true
  pub same_id : run.id ≡ id

written-KeyNames :
    (p : ClaimPayload) (i : Text) (s : Store) (events : List Event) (q row : FileRun) (k : Text)
    → KeyNames p i s
    → distinct s.runs ≡ true
    → find s.runs k ≡ some q
    → row.id ≡ q.id
    → row.workspace_id ≡ q.workspace_id
    → row.idempotency_key ≡ q.idempotency_key
    → same_payload row p ≡ same_payload q p
    → KeyNames p i (record { runs = amend s.runs row; events = events })
written-KeyNames p i s events q row k v d f ei ew ek ep =
    let fq = ap (find s.runs) (ei ∙ find-id s.runs k q f) ∙ f in
    let a = keyed-amend s.runs q row p.workspace_id p.idempotency_key d fq ew ek in
    let b = a ∙ ap (replaced row) v.named in
    elim (Bool-cases (text_eq v.run.id row.id)) [
      | inr n ↦ record {
        run = v.run;
        named = ground (arith, b, n);
        same = v.same;
        same_id = v.same_id;
      }
      | inl y ↦
          let g = keyed-find s.runs p.workspace_id p.idempotency_key v.run d v.named in
          let e = eq_of_text_eq v.run.id row.id y in
          let o : v.run ≡ q = ground (arith, g, e, fq) in
          record {
            run = row;
            named = ground (arith, b, y);
            same = ep ∙ ap (λ x. same_payload x p) (sym o) ∙ v.same;
            same_id = sym e ∙ v.same_id;
          }
    ]

module _ (clock : Clock) (p : ClaimPayload) (i : Text) where
  forgotten-KeyNames :
      (gone : List Text) (s : Store) → KeyNames p i s → KeyNames p i (forget_terminals gone s)
  unfolding forget_terminals same_payload
  forgotten-KeyNames gone s v = record {
    run = without_terminal gone v.run;
    named =
        keyed-forgotten gone s.runs p.workspace_id p.idempotency_key ∙ ap (forgotten gone) v.named;
    same = v.same;
    same_id = v.same_id;
  }

  step-KeyNames :
      {s t : Store} → Step clock s t → distinct s.runs ≡ true → KeyNames p i s → KeyNames p i t
  unfolding keyed same_payload
  step-KeyNames (claims now p2 s c k) d v = elim (claim-fresh now p2 s c k) [
    | inl n ↦ subst (KeyNames p i) (sym n) v
    | inr w ↦ subst (KeyNames p i) (sym w.1) (record {
      run = v.run;
      named = ground (
        arith,
        v.named,
        w.0,
        text_eq_iff p2.workspace_id p.workspace_id,
        text_eq_iff p2.idempotency_key p.idempotency_key,
      );
      same = v.same;
      same_id = v.same_id;
    })
  ]
  step-KeyNames (ties k terminal_id s) d v = elim (ties-case k terminal_id s) [
    | inl n ↦ subst (KeyNames p i) (sym n) v
    | inr w ↦
        subst (KeyNames p i) (sym w.3)
          (written-KeyNames p i s _ w.0 _ k v d w.1 refl refl refl refl)
  ]
  step-KeyNames (changes now k expected c s t b a m) d v =
      elim (changes-case clock now k expected c s t b a m) [
        | inl n ↦ subst (KeyNames p i) (sym n) v
        | inr w ↦
            subst (KeyNames p i) (sym w.4)
              (written-KeyNames p i s _ w.0 _ k v d w.1 refl refl refl refl)
      ]
  step-KeyNames (forgets gone s) d v = forgotten-KeyNames gone s v

  reaches-KeyNames :
      {s t : Store} → Reaches clock s t → distinct s.runs ≡ true → KeyNames p i s → KeyNames p i t
  reaches-KeyNames here d v = v
  reaches-KeyNames (next q st) d v =
      step-KeyNames st (reaches-distinct clock q d) (reaches-KeyNames q d v)

same_texts_refl : (ts : List Text) → same_texts ts ts ≡ true
unfolding same_texts
same_texts_refl [] = refl
same_texts_refl (t ∷ ts) = ground (arith, text_eq_refl t, same_texts_refl ts)

same_payload-new_run : (p : ClaimPayload) (now : Text) → same_payload (new_run p now) p ≡ true
unfolding same_payload
same_payload-new_run p now = ground (
  arith,
  text_eq_refl p.relative_path,
  text_eq_refl p.source_digest,
  text_eq_refl p.runner_id,
  ==_iff p.runner_version p.runner_version,
  same_texts_refl p.argv,
)

abbrev pub is_occupied : Claim → Bool
is_occupied occupied = true
is_occupied _ = false

claim-KeyNames :
    (now : Text) (p : ClaimPayload) (s : Store) (c : Claimed)
    → claim_file_run now p s ≡ ok c
    → is_occupied c.claim ≡ false
    → KeyNames p c.run.id c.store
unfolding claim_file_run keyed
claim-KeyNames now p s c h o = elim (Option-cases (keyed s.runs p.workspace_id p.idempotency_key)) [
  | inr k ↦
      let g : c.store ≡ s = ground (arith, k.1, h) in
      let e : c.run ≡ k.0 = ground (arith, k.1, h) in
      record {
        run = k.0;
        named = ap (λ t. keyed t.runs p.workspace_id p.idempotency_key) g ∙ k.1;
        same = ground (arith, k.1, h);
        same_id = ap (λ r. r.id) (sym e);
      }
  | inl n ↦ elim (Option-cases (active_in s.runs p.workspace_id)) [
    | inr a ↦ ground (arith, n, a.1, h, o)
    | inl m ↦
        let g : c.store ≡ record s { runs = new_run p now ∷ s.runs } = ground (arith, n, m, h) in
        let e : c.run ≡ new_run p now = ground (arith, n, m, h) in
        record {
          run = new_run p now;
          named =
              ap (λ t. keyed t.runs p.workspace_id p.idempotency_key) g
              ∙ ground (arith, text_eq_refl p.workspace_id, text_eq_refl p.idempotency_key);
          same = same_payload-new_run p now;
          same_id = ap (λ r. r.id) (sym e);
        }
  ]
]

-- Once a claim gave a run for its idempotency key, then after any later claims, ties to terminals,
-- transitions out of active states and deletions of terminals, a claim with the same key and payload,
-- whatever new identifier it brings, is idempotent: it gives a run with the same identifier and leaves
-- the store as it is. The tables were empty at first; the clean-up of old history and the deletion of a
-- workspace, which delete rows of runs, are left out.
pub claim_again :
    (clock : Clock) (now later : Text) (p : ClaimPayload) (other : Text) (s t : Store) (c : Claimed)
    → Reaches clock empty_store s
    → claim_file_run now p s ≡ ok c
    → is_occupied c.claim ≡ false
    → Reaches clock c.store t
    → (r : FileRun) × (claim_file_run later (record p { id = other }) t
        ≡ ok (record { claim = idempotent; run = r; store = t }))
      × (r.id ≡ c.run.id)
unfolding claim_file_run same_payload
claim_again clock now later p other s t c h k o q =
    let d = reaches-distinct clock (next h (claims now p s c k)) empty-distinct in
    let v = reaches-KeyNames clock p c.run.id q d (claim-KeyNames now p s c k o) in
    (v.run, ground (arith, v.named, v.same), v.same_id)
