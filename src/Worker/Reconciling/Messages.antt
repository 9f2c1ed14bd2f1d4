-- ===== src/Worker/Reconciling/Messages.antt =====
-- internal/worker/worker.go, `reconcile`: which messages the transcript is of.
use mathlib.Core.List.{Memᴰ}
use slackbot_hubspot.Base.{◌≡◌, refl, String, false, Option, none, some, List, [], ◌∷◌, ◌++◌, arith}
use slackbot_hubspot.Base.Bytes.{bytes}
use slackbot_hubspot.Base.Bytes.Order.{bytes_ltb_asymm}
use slackbot_hubspot.Base.Sorting.{is_before}
use slackbot_hubspot.Base.Sorting.Order.{IsSorted, sort-IsSorted, sort-Permᴰ}
use slackbot_hubspot.Domain.{Lease, Completion}
use slackbot_hubspot.Domain.Remote.{Message, Fault, Answer, answered, failed}
use slackbot_hubspot.Store.Database.{Db}
use slackbot_hubspot.Store.Work.{validate_lease}
use slackbot_hubspot.Worker.Copying.{Setup, Progress, no_progress, copy_files, file_ids_of}
use slackbot_hubspot.Worker.Reconciling.{
  NoteCall, updates, Visit, Run, Renders, kept, newest, ordered, completion_of, note_files,
  find_or_create, copied, read_thread, wait, reconcile,
}
use slackbot_hubspot.Worker.Reconciling.Kept.{IsSplit, kept-IsSplit, IsSplit-Permᴰ}
use slackbot_hubspot.Worker.Reconciling.Notes.{if_valid_rule, updated_note-IsRecorded}

abbrev timestamp : Message → String
timestamp m = m.timestamp

is_before_self : (s : String) → is_before s s ≡ false
is_before_self s = ground (arith, bytes_ltb_asymm (bytes s) (bytes s))

newest-Memᴰ :
    (m : Message) (ms : List Message)
    → (n : Message) × Memᴰ n (m ∷ ms) × (newest (m ∷ ms) ≡ n.timestamp)
newest-Memᴰ m [] = (m, Memᴰ.head refl, refl)
newest-Memᴰ m (n ∷ ms) = let rest = newest-Memᴰ n ms in (rest.0, Memᴰ.tail rest.1, rest.2)

-- No message of a sorted list is later than its last.
newest-IsSorted :
    (ms : List Message)
    → IsSorted timestamp ms
    → (m : Message) → Memᴰ m ms
    → is_before (newest ms) m.timestamp ≡ false
newest-IsSorted [] s m k = elim k [ ]
newest-IsSorted (a ∷ []) s m (Memᴰ.head e) = rw e (is_before_self a.timestamp)
newest-IsSorted (a ∷ []) s m (Memᴰ.tail k) = elim k [ ]
newest-IsSorted (a ∷ b ∷ ms) (IsSorted.cons first rest) m (Memᴰ.head e) =
    let last = newest-Memᴰ b ms in rw (e, last.2) (first last.0 last.1)
newest-IsSorted (a ∷ b ∷ ms) (IsSorted.cons first rest) m (Memᴰ.tail k) =
    newest-IsSorted (b ∷ ms) rest m k

module _ (lease : Lease) (v : Visit) (s : Setup) (r : Renders) (c : Completion) where
  -- What a run that ends well has done with the messages.
  record IsSynchronized (run : Run Completion) : Type 0 where
    pub thread : List Message
    pub progress : Progress
    pub note : String
    pub earlier : List NoteCall
    pub read : v.thread ≡ answered thread
    pub completed : c ≡ completion_of (ordered r thread) progress
    pub written :
        run.calls
        ≡ earlier
          ++ updates note
              (r.transcript lease.thread.key (ordered r thread) progress.attachments)
              (note_files progress)
            ∷ []

  copied-IsSynchronized :
      (thread : List Message) (a : Answer Progress × Db)
      → v.thread ≡ answered thread
      → (copied lease v s r (ordered r thread) a).result ≡ answered c
      → IsSynchronized (copied lease v s r (ordered r thread) a)
  copied-IsSynchronized thread (failed e, db) t h = ground (arith, h)
  copied-IsSynchronized thread (answered p, db) t h =
      let body = r.transcript lease.thread.key (ordered r thread) p.attachments in
      let ended =
        updated_note-IsRecorded lease v (completion_of (ordered r thread) p) c body (note_files p)
          db h in
      record {
        thread = thread;
        progress = p;
        note = ended.0;
        earlier = (find_or_create lease v body (note_files p) db).calls;
        read = t;
        completed = ended.1;
        written = ended.2;
      }

  read_thread-IsSynchronized :
      (a : Answer (List Message)) (db : Db)
      → v.thread ≡ a
      → (read_thread lease v s r a db).result ≡ answered c
      → IsSynchronized (read_thread lease v s r a db)
  read_thread-IsSynchronized (failed e) db t h = ground (arith, h)
  read_thread-IsSynchronized (answered thread) db t h =
      copied-IsSynchronized thread
        (copy_files s lease v.attempts (file_ids_of (ordered r thread)) no_progress db) t h

  wait-IsSynchronized :
      (o : Option Fault) (db : Db)
      → (wait lease v s r o db).result ≡ answered c
      → IsSynchronized (wait lease v s r o db)
  wait-IsSynchronized (some e) db = λ h. ground (arith, h)
  wait-IsSynchronized none db =
      if_valid_rule (λ (run : Run Completion). run.result ≡ answered c → IsSynchronized run)
        (validate_lease lease v.started.now (v.started.before db)) [] _ (v.started.before db)
        (λ valid h. read_thread-IsSynchronized v.thread (v.started.before db) refl h)
        (λ e h. ground (arith, h))

  -- A run that ends well has read the thread and ended by updating a note with the transcript of
  -- its eligible messages, in the order of their timestamps: the thread is made of these messages,
  -- of which every one is eligible, and of others, of which none is. No eligible message is later than
  -- the one that the completion names.
  pub transcript_complete :
      (db : Db)
      → (reconcile lease v s r db).result ≡ answered c
      → (thread : List Message) × (p : Progress) × (note : String) × (earlier : List NoteCall)
        × (v.thread ≡ answered thread)
        × ((reconcile lease v s r db).calls
            ≡ earlier
              ++ updates note
                  (r.transcript lease.thread.key (ordered r thread) p.attachments)
                  (note_files p)
                ∷ [])
        × IsSplit r.is_eligible (ordered r thread) thread
        × IsSorted (λ m. m.timestamp) (ordered r thread)
        × ((m : Message)
            → Memᴰ m (ordered r thread)
            → is_before c.last_message_ts m.timestamp ≡ false)
  unfolding reconcile ordered completion_of
  transcript_complete db h =
      let run = wait-IsSynchronized v.waited db h in
      let kept_messages = kept r.is_eligible run.thread in
      let in_order = sort-IsSorted timestamp kept_messages in
      (
        run.thread,
        run.progress,
        run.note,
        run.earlier,
        run.read,
        run.written,
        IsSplit-Permᴰ r.is_eligible (ordered r run.thread) kept_messages run.thread
            (sort-Permᴰ timestamp kept_messages) (kept-IsSplit r.is_eligible run.thread),
        in_order,
        (λ m k. rw run.completed (newest-IsSorted (ordered r run.thread) in_order m k)),
      )
