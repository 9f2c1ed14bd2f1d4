-- ===== src/Tests/Synchronizing.antt =====
-- A worker that copies the one file of a thread and brings its note up to date.
use mathlib.Core.Option.{some-injective}
use mathlib.Core.List.{Memᴰ}
use slackbot_hubspot.Base.{
  refl, sym, ap, ◌∙◌, ◌≡◌, ◌⊎◌, String, true, false, none, some, List, [], ◌∷◌, ◌++◌, arith, length,
  nat_beq, ltb, ◌==◌,
}
use slackbot_hubspot.Base.Bytes.{bytes, utf8, bytes_ltb}
use slackbot_hubspot.Base.Sorting.{is_before, insert, sort}
use slackbot_hubspot.Base.Sorting.Order.{IsSorted}
use slackbot_hubspot.Domain.{Completion, pos, ok, is_zero_time, key_beq, Thread, Upload, Bytes}
use slackbot_hubspot.Domain.Remote.{File, Message, answered}
use slackbot_hubspot.Backend.{get, put, commit}
use slackbot_hubspot.Store.Keys.{UploadKey, upload_keyed, thread_keyed}
use slackbot_hubspot.Store.Database.{
  Db, empty_db, find_thread, put_thread, holds, validate, read_leased, holds_upload,
}
use slackbot_hubspot.Store.Records.Decisions.{linked_thread}
use slackbot_hubspot.Store.Work.{claimed_thread, claimed_lease, validate_lease, save_note}
use slackbot_hubspot.Store.Uploads.{
  claim_upload, claim_shared, claimed_upload, upload_key, read_upload, validate_upload,
  completed_upload, complete_upload,
}
use slackbot_hubspot.Worker.Policy.{Options}
use slackbot_hubspot.Worker.Attachments.{
  Limits, Copying, copy_file, AttachmentDraws, finish_copy, attachment,
}
use slackbot_hubspot.Worker.Attachments.Copies.{attachment_recorded}
use slackbot_hubspot.Worker.Attachments.Gates.{sends, IsChecked, sent_file-IsChecked}
use slackbot_hubspot.Worker.Copying.{
  Setup, Attempt, Progress, no_progress, is_seen, synced, came_to, copy_one, copy_files,
}
use slackbot_hubspot.Worker.Copying.Outcomes.{failures, links, files_accounted}
use slackbot_hubspot.Worker.Reconciling.{
  NoteCall, updates, Moment, Visit, Renders, Run, kept, ordered, partial_text, completion_of,
  note_files, find_or_create, write_note, reconcile,
}
use slackbot_hubspot.Worker.Reconciling.Notes.{
  has_creates, IsRecorded, note_created_once, updated_note-IsRecorded,
}
use slackbot_hubspot.Worker.Reconciling.Kept.{IsSplit}
use slackbot_hubspot.Worker.Reconciling.Messages.{transcript_complete}
use slackbot_hubspot.Store.Timestamps.{newer}
use slackbot_hubspot.Tests.Samples.{key, running, lease, completion}

abbrev options : Options
options = record { backoff_base = 1000; backoff_max = 300000; max_attempts = 8 }

abbrev limits : Limits
limits = record { allowed_mime_types = "text/plain" ∷ []; max_attachment_bytes = 100 }

abbrev file : File
file = record { id = "F1"; mime = "text/plain"; name = "a.txt"; size = pos 3; url = "https://f" }

abbrev copying : Copying
copying = record {
  first = none;
  found = answered "";
  info = answered file;
  media_type = λ text. some text;
  second = none;
  opened = none;
  temp = none;
  copied = answered 3;
  rewound = none;
  third = none;
  uploaded = answered "h1";
}

abbrev draws : AttachmentDraws
draws = record {
  token = "u1";
  claimed_at = 210;
  looked_at = 211;
  ended = record { token = ""; jitter = 0; noted = 219; now = 220 };
  over = false;
}

abbrev undisturbed : Db → Db
undisturbed db = db

abbrev db : Db
db = put_thread empty_db key running

db-found : find_thread db lease.thread.key ≡ some running
unfolding put get claimed_lease claimed_thread linked_thread key_beq
db-found = refl

file-sent : sends (copy_file limits copying).0 ≡ true
unfolding copy_file
file-sent = refl

sent_file-IsChecked_example : IsChecked limits copying
sent_file-IsChecked_example = sent_file-IsChecked limits copying file-sent

none-keyed : (k : UploadKey) (u : Upload) → get db.uploads k ≡ some u → upload_key u ≡ k
unfolding get
none-keyed k u h = ground (arith, h)

db-keyed : (t : Thread) → find_thread db lease.thread.key ≡ some t → t.key ≡ lease.thread.key
unfolding claimed_lease claimed_thread linked_thread
db-keyed t h = ap (λ x. x.key) (some-injective t running (sym h ∙ db-found))

file-copied :
    (attachment options draws undisturbed (answered "h1") lease "F1" (pos 60) db).0 ≡ answered "h1"
unfolding attachment claim_upload read_leased validate holds claim_shared claimed_upload finish_copy
    newer complete_upload commit read_upload validate_upload holds_upload completed_upload put get
    key_beq claimed_lease claimed_thread linked_thread
file-copied = refl

attachment_recorded_example :
    (u : Upload) × (get
        (attachment options draws undisturbed (answered "h1") lease "F1" (pos 60) db).1.uploads
        (record { workspace = lease.thread.key.workspace_id; file = "F1" })
      ≡ some u)
    × (u.hubspot_id ≡ "h1")
attachment_recorded_example =
    attachment_recorded options draws undisturbed (answered "h1") lease "F1" (pos 60) db none-keyed
      db-keyed "h1" file-copied

abbrev setup : Setup
setup = record {
  account_id = "A1";
  attachments = true;
  lease_duration = pos 60;
  limits = limits;
  policy = options;
}

abbrev attempt : String → Attempt
attempt id = record {
  before = undisturbed;
  meanwhile = undisturbed;
  draws = draws;
  copying = copying;
  jitter = 0;
  failed_at = 0;
}

abbrev copied_db : Db
copied_db = (copy_files setup lease attempt ("F1" ∷ "F1" ∷ []) no_progress db).1

abbrev progress : Progress
progress = record {
  attachments = ("F1", synced "A1" "h1") ∷ [];
  file_ids = "h1" ∷ [];
  partial = 0;
  retry_at = 0;
}

files-copied :
    copy_files setup lease attempt ("F1" ∷ "F1" ∷ []) no_progress db
    ≡ (answered progress, copied_db)
unfolding copy_files copy_one came_to copy_file attachment claim_upload read_leased validate holds
    claim_shared claimed_upload finish_copy newer complete_upload commit read_upload validate_upload
    holds_upload completed_upload put get key_beq claimed_lease claimed_thread linked_thread
files-copied = refl

files_accounted_example :
    ((id : String) → Memᴰ id ("F1" ∷ "F1" ∷ []) → is_seen id progress.attachments ≡ true)
    × (progress.partial ≡ failures progress.attachments)
    × (length progress.file_ids ≡ links progress.attachments)
    × ((is_zero_time progress.retry_at ≡ true)
        ⊎ ((ltb lease.thread.attempts options.max_attempts ≡ true)
            × (nat_beq progress.partial 0 ≡ false)))
files_accounted_example =
    files_accounted setup lease attempt ("F1" ∷ "F1" ∷ []) db copied_db progress files-copied

abbrev moment : Moment
moment = record { before = undisturbed; now = 230 }

abbrev first_message : Message
first_message = record {
  bot_id = "";
  bot_reactions = [];
  files = file ∷ [];
  permalink = "";
  sender_name = "";
  subtype = "";
  text = "a";
  thread_ts = "";
  timestamp = "1.000001";
  user_id = "U1";
}

abbrev second_message : Message
second_message = record {
  bot_id = "";
  bot_reactions = [];
  files = [];
  permalink = "";
  sender_name = "";
  subtype = "";
  text = "b";
  thread_ts = "";
  timestamp = "2.000001";
  user_id = "U1";
}

abbrev thread : List Message
thread = second_message ∷ first_message ∷ []

abbrev visit : Visit
visit = record {
  waited = none;
  started = moment;
  thread = answered thread;
  attempts = attempt;
  found = answered "";
  searched = moment;
  created = answered "N1";
  saved = moment;
  checked = moment;
  updated = none;
}

abbrev renders : Renders
renders = record { is_eligible = λ m. true; transcript = λ k ms as'. b't' ∷ [] }

abbrev body : Bytes
body = b't' ∷ []

abbrev written : Run Completion
written = write_note lease visit completion body ("h1" ∷ []) db

note-created : has_creates lease visit written.calls ≡ true
unfolding write_note find_or_create validate_lease read_leased validate holds save_note commit put
    get key_beq claimed_lease claimed_thread linked_thread
note-created = refl

note_created_once_example :
    (lease.thread.note_id ≡ "")
    × (visit.found ≡ answered "")
    × (validate_lease lease 230 db ≡ ok tt)
note_created_once_example =
    note_created_once lease visit completion body ("h1" ∷ []) db note-created

note-written : written.result ≡ answered completion
unfolding write_note find_or_create validate_lease read_leased validate holds save_note commit put
    get key_beq claimed_lease claimed_thread linked_thread
note-written = refl

updated_note-IsRecorded_example :
    (note : String) × (completion ≡ completion)
    × (written.calls
        ≡ (find_or_create lease visit body ("h1" ∷ []) db).calls
          ++ updates note body ("h1" ∷ []) ∷ [])
    × (validate_lease lease 230 (find_or_create lease visit body ("h1" ∷ []) db).db ≡ ok tt)
    × (((lease.thread.note_id == "") ≡ false) × (note ≡ lease.thread.note_id)
        ⊎ ((lease.thread.note_id ≡ "")
            × IsRecorded lease visit note db (find_or_create lease visit body ("h1" ∷ []) db).db))
updated_note-IsRecorded_example =
    updated_note-IsRecorded lease visit completion completion body ("h1" ∷ []) db note-written

abbrev final : Completion
final = completion_of (ordered renders thread) progress

reconciled : (reconcile lease visit setup renders db).result ≡ answered final
unfolding reconcile ordered sort insert kept bytes utf8 bytes_ltb write_note find_or_create
    validate_lease save_note copy_files copy_one came_to copy_file attachment claim_upload
    read_leased validate holds claim_shared claimed_upload finish_copy newer complete_upload commit
    read_upload validate_upload holds_upload completed_upload put get key_beq claimed_lease
    claimed_thread linked_thread completion_of partial_text
reconciled = refl

transcript_complete_example :
    (messages : List Message) × (p : Progress) × (note : String) × (earlier : List NoteCall)
    × (visit.thread ≡ answered messages)
    × ((reconcile lease visit setup renders db).calls
        ≡ earlier
          ++ updates note
              (renders.transcript lease.thread.key (ordered renders messages) p.attachments)
              (note_files p)
            ∷ [])
    × IsSplit renders.is_eligible (ordered renders messages) messages
    × IsSorted (λ m. m.timestamp) (ordered renders messages)
    × ((m : Message)
        → Memᴰ m (ordered renders messages)
        → is_before final.last_message_ts m.timestamp ≡ false)
transcript_complete_example = transcript_complete lease visit setup renders final db reconciled
