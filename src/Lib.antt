-- ===== src/Lib.antt =====
-- Termroom: a self-hosted Core that gives a browser terminals and files of its projects, here as a
-- model of its own logic with the theorems that make it correct. The program is Python (termroom/);
-- paths below are from the root of the repository.
--
-- Parts and files
--
-- Prelude has the shared names. Texts and Split model `str` as the list of its code points, with `strip`,
--   `split`, `join` and `startswith`; Dict models a `dict` or `set` that is never iterated over, as
--   what `get` returns; Result models a call that may raise, with the exception's code.
-- TerminalControl is termroom/terminal_control.py. `State.TerminalControl` is the object, one field for
--   each attribute; Input, Resize, Leave and Presence have its methods under their own names
--   (`_resize_owner` and `_plan_current` without the underscore). `unregister` is cut into `drop_client`,
--   `drop_terminal`, `drop_ownership` and `forget_grid` at its early returns. Each method runs under
--   `self._lock`, so a method is one step and `History.Call` lists the steps that change the state;
--   `History.run` is any interleaving of them. The identifiers drawn by `uuid.uuid4` and whether an
--   `asyncio.Lock` is held are arguments of the calls. `History.view` is the part of the state that
--   belongs to one terminal; Frame, Valid, Control, Plan, Bootstrap and Presence.Bounds prove.
-- ArchiveSafety is termroom/archive_safety.py. Path, Extra, Entry, Conflict and Structure check the
--   central directory of a ZIP, Inflate reads its data, Manifest lists the entries and checks the list
--   again, Materialize asks a sink to write it. The definitions have the names of the source, without a
--   leading underscore. Errors are values of `Path.ArchiveCode`, the `code` of `ArchiveSafetyError`, in
--   the order in which the source makes its tests; messages and member names are left out.
--
-- RunSources is termroom/run_sources.py: Path has the paths of a Source, Symlink the targets of symbolic
--   links (the loop is `walk`, one round of it `step`), GitUrl the URL contract, Remote the paths on the
--   target, Clone the command of an anonymous clone, Workspace the manifest of a Workspace (sizes and times
--   are integers of Prelude.Integers; `other` is a kind that the source refuses), Exclude
--   the default exclusions. Errors are values of `Path.SourceCode`, the `code` of
--   `SourceValidationError`. Prelude.Posix has what `PurePosixPath` does with a text.
--
-- NodeCore is termroom/node_core.py: Stream has `NodeStream` with its queue, Connection the state of
--   `NodeConnection` and the parts of its methods between two waits, Dispatch what an incoming message
--   does and `close`. Futures and streams are kept as objects apart from the keys of `_pending` and
--   `_streams`, since a request or a reader holds them when the connection has dropped them. A request is
--   `begin_request` and `end_request`, around its wait. `closed_here` is the flag that `close` and `abort` of a
--   stream set first; what they then send, and the drop of the stream after it, is not part of it.
--   Stream.Reader calls `receive_event` during a run, and on after the end. `Stream.run` and `Dispatch.history` are any
--   sequences of such steps. Json has the values that a message can hold.
--
-- FileRuns is termroom/file_runs.py with the operations on file runs of termroom/db.py. Table has the rows
--   of `file_runs` and of `events` (those of file runs), Store and Transition the transactions, Steps any
--   sequence of them, Runner `resolve_runner`, Manager `get`, `reconcile`, `stop` and `kill`, Start `start`;
--   Calls has any sequence of the manager's calls. `forget_terminals` is what the deletion of terminals
--   does to their runs, by `ON DELETE SET NULL`: it is a step of Steps, since the backends delete terminals
--   while a call runs, but no part of the calls of Manager and Start. Act is a state that stays when a call raises, since each
--   transaction commits. A call reads one time, given as an argument, and so is what the inspections, the
--   backends and their observations give; the identifier of a run that `uuid.uuid4` draws is `new_id`.
--
-- RunResults is termroom/run_results.py: Scan lists the tree of a result, Files reads the files of the
--   result and of the Source, Plan compares a path, Review goes over the paths, Build makes the plan, Apply
--   writes what is ready. A download is the list of its chunks with the exception that ends it, and a review
--   sees the files as `Plan.Views` says; the source's `continue` statements are the branches of
--   `review_entry`, `review_raw`, `review_text` and `decide`. `Apply.Outcome` has the writes in their order
--   and the reports. The outcome of a write is an argument, since other modules make the conditional writes;
--   the cancellation of a task, which no `except Exception` catches, is not among the outcomes.
--
-- Access is termroom/auth.py with the pairing limit of termroom/node_core.py: RateLimit has the deque of the
--   attempts of one key, Session the token of a login and its decoding, Guesses any calls of `login` with the attempts of all keys;
--   a right password clears the attempts of its key. `secure_compare` is the equality of
--   texts. Session.Signer has what `int`, `str`, HMAC and SHA-256 give. A monotonic time is a number of
--   ticks, of which `window` is 60 seconds.
--
-- Interfaces to code that is not the program's: an `Inflate.Archive` is what `zipfile` shows of a file
-- (its central directory, and for each record the chunks that reading it gives and the error after
-- them), `crc32` is `zlib.crc32`, `casefold` is `str.casefold`, `is_alpha`
-- is `str.isalpha` of one character, `lower` is `str.lower`, and `urlsplit` is the function of
-- `urllib.parse`, with nothing where it or the port raises `ValueError`; `show` is `str` of a value that
-- is not a text, and `decode` gives the bytes of valid Base64. `Plan.Codecs` has the
-- decoding of UTF-8 and SHA-256. Nothing is assumed of them but what a theorem names.
-- The sink of
-- `materialize_zip_archive` is assumed to take every chunk that it is offered.
--
-- Bounds and fuel: `Extra.check_fields` walks the extra bytes on fuel, the number of bytes, and takes at
-- least four of them in each round; Extra.Fields has the lemma that more fuel changes nothing.
-- `Scan.scan_pending` runs on fuel, two more than the number of entries that a result may have: each round
-- takes a directory from the list, and each directory on it is an entry or the root. All other loops are
-- recursions on a list.
--
-- Not modelled: error messages, opening and seeking files, the test that archive sizes are not negative
-- (`zipfile` reads unsigned numbers), the positivity of `ArchiveLimits`, and re-reading one member
-- (`iter_verified_zip_member_chunks`). Of run_sources.py, the transfer of a snapshot is not modelled, nor the
-- scan of the file system; of node_core.py, what is sent over the WebSocket, and `NodeCore`. Of auth.py, the
-- cookies and the derivation of the session key are not modelled; of file_runs.py, the clean-up of old
-- history, the background observer and the locks; of db.py, only the operations on file runs are modelled,
-- and of the references between tables only that of a run to its terminal; of run_results.py, the archive of a result and the texts that a plan and
-- a report show are not. Of the rest of the program (SSH and Node backends, tmux, the web application and
-- remote runs) nothing is modelled.
pub mod Prelude
pub mod FileRuns
pub mod TerminalControl
pub mod ArchiveSafety
pub mod RunSources
pub mod NodeCore
pub mod RunResults
pub mod Access
