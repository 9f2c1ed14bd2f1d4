-- ===== src/Worker/Reconciling.antt =====
-- internal/worker/worker.go, `reconcile`: one run of the synchronization of a thread. The answers of
-- Slack and HubSpot, the clock, and what other requests do to the store between two calls are
-- arguments, and so are `render.Eligible` and `render.Transcript`.
pub mod Kept
pub mod Notes
pub mod Messages
use slackbot_hubspot.Base.{
  ℕ, String, Bool, true, false, Option, none, some, List, [], ◌∷◌, ◌++◌, ◌==◌, is_set, nat_beq,
  if◌then◌else◌,
}
use slackbot_hubspot.Base.Bytes.{bytes, decimal}
use slackbot_hubspot.Base.Sorting.{sort, compact}
use slackbot_hubspot.Domain.{
  Time, zero_time, Bytes, Error, Result, ok, err, ThreadKey, Thread, Lease, Completion,
}
use slackbot_hubspot.Domain.Remote.{Message, Fault, stored, canceled, Answer, answered, failed}
use slackbot_hubspot.Store.Database.{Db}
use slackbot_hubspot.Store.Work.{validate_lease, save_note}
use slackbot_hubspot.Worker.Delivery.{fault_of}
use slackbot_hubspot.Worker.Copying.{
  Setup, Attempt, Attachment, Progress, no_progress, copy_files, file_ids_of,
}

-- The calls of HubSpot.
pub data NoteCall : Type 0 where
  searches : (ticket : String) (key : ThreadKey) → NoteCall
  creates : (ticket : String) (key : ThreadKey) (body : Bytes) (files : List String) → NoteCall
  updates : (note : String) (body : Bytes) (files : List String) → NoteCall

-- A call of the store: what others do before it, and its time.
pub record Moment : Type 0 where
  pub before : Db → Db
  pub now : Time

-- What one run meets: whether the context ends during the delay, the calls of the store, and the
-- answers of the clients.
pub record Visit : Type 0 where
  pub waited : Option Fault
  pub started : Moment
  pub thread : Answer (List Message)
  pub attempts : String → Attempt
  pub found : Answer String
  pub searched : Moment
  pub created : Answer String
  pub saved : Moment
  pub checked : Moment
  pub updated : Option Fault

-- What `internal/render` is asked for.
pub record Renders : Type 0 where
  pub is_eligible : Message → Bool
  pub transcript : ThreadKey → List Message → List (String × Attachment) → Bytes

-- What a run comes to, its calls in their order, and the store that it leaves.
pub record Run (A : Type 0) : Type 0 where
  pub result : Answer A
  pub calls : List NoteCall
  pub db : Db

abbrev pub ends : {A : Type 0} → Fault → List NoteCall → Db → Run A
ends e calls db = record { result = failed e; calls = calls; db = db }

abbrev pub goes_on : {A : Type 0} → A → List NoteCall → Db → Run A
goes_on a calls db = record { result = answered a; calls = calls; db = db }

-- The messages that are kept.
unfoldable pub kept : (Message → Bool) → List Message → List Message
kept is_eligible [] = []
kept is_eligible (m ∷ ms) =
    let rest = kept is_eligible ms in if is_eligible m then m ∷ rest else rest

abbrev pub newest : List Message → String
newest [] = ""
newest (m ∷ []) = m.timestamp
newest (m ∷ n ∷ ms) = newest (n ∷ ms)

unfoldable pub ordered : Renders → List Message → List Message
ordered r ms = sort (λ m. m.timestamp) (kept r.is_eligible ms)

unfoldable pub partial_text : ℕ → Bytes
partial_text n = if nat_beq n 0 then [] else decimal n ++ bytes " attachment(s) not synchronized"

unfoldable pub completion_of : List Message → Progress → Completion
completion_of ms p = record {
  last_message_ts = newest ms;
  partial_error = partial_text p.partial;
  retry_at = p.retry_at;
}

-- `slices.Sort` and `slices.Compact`
unfoldable pub note_files : Progress → List String
note_files p = compact (sort (λ id. id) p.file_ids)

-- Go on if a call of the store has no error.
abbrev pub if_valid : {A : Type 0} → Result (Unit {0}) → List NoteCall → (Db → Run A) → Db → Run A
if_valid (ok _) calls rest db = rest db
if_valid (err e) calls rest db = ends (stored e) calls db

module _ (lease : Lease) (v : Visit) where
  -- `Validate`, then the rest.
  abbrev pub validated : {A : Type 0} → Moment → List NoteCall → (Db → Run A) → Db → Run A
  validated at calls rest db =
      let met = at.before db in if_valid (validate_lease lease at.now met) calls rest met

  -- `SaveNote`, for the note that was found or created.
  abbrev pub save : String → List NoteCall → Db → Run String
  save note calls db =
      let done = save_note lease note v.saved.now (v.saved.before db) in
      if_valid done.0 calls (goes_on note calls) done.1

  abbrev pub create : Bytes → List String → List NoteCall → Db → Run String
  create body files calls db =
      let sent = calls ++ creates lease.thread.ticket_id lease.thread.key body files ∷ [] in
      elim v.created [ answered note ↦ save note sent db | failed e ↦ ends e sent db ]

  abbrev pub recover : Bytes → List String → List NoteCall → Answer String → Db → Run String
  recover body files calls (failed e) db = ends e calls db
  recover body files calls (answered note) db =
      validated v.searched calls
        (λ db. if is_set note then save note calls db else create body files calls db) db

  -- The note of the thread, which is searched for and created if none is known.
  unfoldable pub find_or_create : Bytes → List String → Db → Run String
  find_or_create body files db =
      if lease.thread.note_id == ""
      then recover body files (searches lease.thread.ticket_id lease.thread.key ∷ []) v.found db
      else goes_on lease.thread.note_id [] db

  abbrev pub update :
      Completion → Bytes → List String → String → List NoteCall → Db → Run Completion
  update completion body files note calls db =
      let sent = calls ++ updates note body files ∷ [] in
      elim v.updated [ none ↦ goes_on completion sent db | some e ↦ ends e sent db ]

  abbrev pub then_update :
      Completion → Bytes → List String → Answer String → List NoteCall → Db → Run Completion
  then_update completion body files (failed e) calls db = ends e calls db
  then_update completion body files (answered note) calls db =
      validated v.checked calls (update completion body files note calls) db

  -- The note is brought up to date with the transcript.
  unfoldable pub write_note : Completion → Bytes → List String → Db → Run Completion
  write_note completion body files db =
      let found = find_or_create body files db in
      then_update completion body files found.result found.calls found.db

  module _ (s : Setup) (r : Renders) where
    abbrev pub copied : List Message → Answer Progress × Db → Run Completion
    copied ms (failed e, db) = ends e [] db
    copied ms (answered p, db) =
        write_note (completion_of ms p) (r.transcript lease.thread.key ms p.attachments)
          (note_files p) db

    abbrev pub read_thread : Answer (List Message) → Db → Run Completion
    read_thread (failed e) db = ends e [] db
    read_thread (answered ms) db =
        copied (ordered r ms)
          (copy_files s lease v.attempts (file_ids_of (ordered r ms)) no_progress db)

    -- What comes after the delay that coalesces changes.
    abbrev pub wait : Option Fault → Db → Run Completion
    wait (some e) db = ends e [] db
    wait none db = validated v.started [] (read_thread v.thread) db

    -- `reconcile`
    unfoldable pub reconcile : Db → Run Completion
    reconcile db = wait v.waited db
