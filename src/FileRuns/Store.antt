-- ===== src/FileRuns/Store.antt =====
-- The operations on file runs of `StateStore` (termroom/db.py); each is one transaction.
use termroom.Prelude.{
  ℕ, Bool, true, false, ◌&&◌, Option, none, some, List, [], ◌∷◌, Text, text_eq, is_some, ◌==◌,
  if◌then◌else◌,
}
use termroom.Prelude.Result.{Result, ok, err}
use termroom.Prelude.Integers.{ℤ}
use termroom.FileRuns.Table.{preparing, FileRun, Store, find, active_in, keyed}

-- what the transactions raise: `ValueError` for a key that is reused or states that are not valid, and
-- `IntegrityError` for an identifier, or a second active run of one workspace
pub data StoreError : Type 0 where
  key_reused states_invalid integrity : StoreError

-- the code that is not the store's: seconds between two times, nothing where one of them is not a
-- time, and the display names of workspaces
pub record Clock : Type 0 where
  pub seconds_between : Text → Text → Option ℤ
  pub display_name : Text → Text

-- the payload of `claim_file_run`
pub record ClaimPayload : Type 0 where
  pub id : Text
  pub workspace_id : Text
  pub idempotency_key : Text
  pub relative_path : Text
  pub source_digest : Text
  pub runner_id : Text
  pub runner_version : ℕ
  pub argv : List Text

pub data Claim : Type 0 where
  idempotent occupied created : Claim

pub record Claimed : Type 0 where
  pub claim : Claim
  pub run : FileRun
  pub store : Store

unfoldable pub same_texts : List Text → List Text → Bool
same_texts [] [] = true
same_texts (a ∷ as') (b ∷ bs) = text_eq a b && same_texts as' bs
same_texts _ _ = false

-- `not any(row[key] != values[key] for key in compared)`
unfoldable pub same_payload : FileRun → ClaimPayload → Bool
unfolding same_texts
same_payload row p =
    text_eq row.relative_path p.relative_path
    && text_eq row.source_digest p.source_digest
    && text_eq row.runner_id p.runner_id
    && row.runner_version == p.runner_version
    && same_texts row.argv p.argv

abbrev pub new_run : ClaimPayload → Text → FileRun
new_run p now = record {
  id = p.id;
  workspace_id = p.workspace_id;
  idempotency_key = p.idempotency_key;
  relative_path = p.relative_path;
  source_digest = p.source_digest;
  runner_id = p.runner_id;
  runner_version = p.runner_version;
  argv = p.argv;
  terminal_id = none;
  state = preparing;
  lifecycle_revision = 0;
  created_at = now;
  started_at = none;
  stop_requested_at = none;
  ended_at = none;
  exit_code = none;
  error_code = none;
  error_detail = none;
}

unfoldable pub claim_file_run : Text → ClaimPayload → Store → Result StoreError Claimed
unfolding find active_in keyed same_payload
claim_file_run now p s = elim (keyed s.runs p.workspace_id p.idempotency_key) [
  | some row ↦
      if same_payload row p
      then ok (record { claim = idempotent; run = row; store = s })
      else err key_reused
  | none ↦ elim (active_in s.runs p.workspace_id) [
    | some row ↦ ok (record { claim = occupied; run = row; store = s })
    | none ↦
        if is_some (find s.runs p.id)
        then err integrity
        else ok (record {
          claim = created;
          run = new_run p now;
          store = record s { runs = new_run p now ∷ s.runs };
        })
  ]
]
