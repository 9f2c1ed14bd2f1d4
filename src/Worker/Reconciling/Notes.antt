-- ===== src/Worker/Reconciling/Notes.antt =====
-- internal/worker/worker.go, `reconcile`: when a note is created, and which one is updated.
use slackbot_hubspot.Base.{
  ◌≡◌, refl, sym, ap, subst, ◌∙◌, ◌⊎◌, inl, inr, String, Bool, true, false, List, [], ◌∷◌, ◌++◌,
  arith, is_set, ◌==◌, if_rule, Bool-cases, Option-cases, eq_iff,
}
use slackbot_hubspot.Domain.{
  Time, Bytes, Error, Result, Result-cases, ok, err, Thread, Lease, Completion,
}
use slackbot_hubspot.Domain.Remote.{stored, Answer, Answer-cases, answered, failed}
use slackbot_hubspot.Store.Database.{Db, put_thread, read_leased}
use slackbot_hubspot.Store.Work.{validate_lease, save_note}
use slackbot_hubspot.Worker.Reconciling.{
  NoteCall, searches, creates, updates, Visit, Run, ends, if_valid, save, create, recover,
  find_or_create, then_update, write_note,
}

-- To show `P` of what follows a call of the store, show it of the rest and of the end.
pub if_valid_rule :
    {A : Type 0} (P : Run A → Type 0) (r : Result (Unit {0})) (calls : List NoteCall)
    (rest : Db → Run A) (db : Db)
    → (r ≡ ok tt → P (rest db))
    → ((e : Error) → P (ends (stored e) calls db))
    → P (if_valid r calls rest db)
if_valid_rule P (ok tt) calls rest db h k = h refl
if_valid_rule P (err e) calls rest db h k = k e

-- A note that is saved is written into the thread that the lease is for.
save_note-put_thread :
    (l : Lease) (note : String) (now : Time) (db : Db)
    → (save_note l note now db).0 ≡ ok tt
    → (t : Thread) × (read_leased db l now ≡ ok t)
      × ((save_note l note now db).1 ≡ put_thread db t.key (record t { note_id = note }))
unfolding save_note
save_note-put_thread l note now db h = elim (Result-cases (read_leased db l now)) [
  | inl (t, q) ↦ (t, q, ground (arith, q, h))
  | inr (e, q) ↦ ground arith
]

module _ (lease : Lease) (v : Visit) where
  -- Whether a note was asked for.
  abbrev pub has_creates : List NoteCall → Bool
  has_creates [] = false
  has_creates (creates ticket key body files ∷ cs) = true
  has_creates (searches ticket key ∷ cs) = has_creates cs
  has_creates (updates note body files ∷ cs) = has_creates cs

  has_creates-snoc :
      (cs : List NoteCall) (note : String) (body : Bytes) (files : List String)
      → has_creates (cs ++ updates note body files ∷ []) ≡ has_creates cs
  has_creates-snoc [] note body files = refl
  has_creates-snoc (creates ticket key body' files' ∷ cs) note body files = refl
  has_creates-snoc (searches ticket key ∷ cs) note body files = has_creates-snoc cs note body files
  has_creates-snoc (updates note' body' files' ∷ cs) note body files =
      has_creates-snoc cs note body files

  then_update-calls :
      (completion : Completion) (body : Bytes) (files : List String) (a : Answer String)
      (cs : List NoteCall) (db : Db)
      → has_creates (then_update lease v completion body files a cs db).calls ≡ has_creates cs
  then_update-calls completion body files (failed e) cs db = refl
  then_update-calls completion body files (answered note) cs db =
      if_valid_rule (λ r. has_creates r.calls ≡ has_creates cs)
        (validate_lease lease v.checked.now (v.checked.before db)) cs _ (v.checked.before db)
        (λ valid. ground (arith, has_creates-snoc cs note body files)) (λ e. refl)

  recover-creates :
      (body : Bytes) (files : List String) (a : Answer String) (db : Db)
      → has_creates
          (recover lease v body files
            (searches lease.thread.ticket_id lease.thread.key ∷ [])
            a
            db).calls
        ≡ true
      → (a ≡ answered "") × (validate_lease lease v.searched.now (v.searched.before db) ≡ ok tt)
  recover-creates body files (failed e) db h = ground (arith, h)
  recover-creates body files (answered note) db h =
      elim (Result-cases (validate_lease lease v.searched.now (v.searched.before db))) [
        | inl (u, q) ↦ elim (Bool-cases (is_set note)) [
          | inl set ↦ ground (arith, h, q, set)
          | inr unset ↦ (ap answered (unset-empty unset), q)
        ]
        | inr (e, q) ↦ ground (arith, h, q)
      ]
    where
      unset-empty : is_set note ≡ false → note ≡ ""
      unset-empty q = ground (arith, eq_iff note "")

  -- A note is created only if the lease's thread has none, HubSpot has found none, and the lease was
  -- still valid after the search.
  pub note_created_once :
      (completion : Completion) (body : Bytes) (files : List String) (db : Db)
      → has_creates (write_note lease v completion body files db).calls ≡ true
      → (lease.thread.note_id ≡ "")
        × (v.found ≡ answered "")
        × (validate_lease lease v.searched.now (v.searched.before db) ≡ ok tt)
  unfolding write_note find_or_create
  note_created_once completion body files db h =
      let run = find_or_create lease v body files db in
      let created = sym (then_update-calls completion body files run.result run.calls run.db) ∙ h in
      elim (Bool-cases (lease.thread.note_id == "")) [
        | inl none_known ↦
            let fresh =
              recover-creates body files v.found db (ground (arith, created, none_known)) in
            ((eq_iff lease.thread.note_id "").0 none_known, fresh.0, fresh.1)
        | inr known ↦ ground (arith, created, known)
      ]

  -- The note that a run goes on with is the lease's, or it has been written into the thread that
  -- the lease is for.
  abbrev pub IsRecorded : String → Db → Db → Type 0
  IsRecorded note db db' =
      (t : Thread) × (read_leased (v.saved.before db) lease v.saved.now ≡ ok t)
      × (db' ≡ put_thread (v.saved.before db) t.key (record t { note_id = note }))

  save-IsRecorded :
      (note : String) (calls : List NoteCall) (db : Db) (n : String)
      → (save lease v note calls db).result ≡ answered n
      → (note ≡ n) × IsRecorded note db (save lease v note calls db).db
  save-IsRecorded note calls db n h =
      elim (Result-cases (save_note lease note v.saved.now (v.saved.before db)).0) [
        | inl (u, q) ↦
            let written = save_note-put_thread lease note v.saved.now (v.saved.before db) q in
            (ground (arith, h, q), (written.0, written.1, ground (arith, written.2, q)))
        | inr (e, q) ↦ ground (arith, h, q)
      ]

  create-IsRecorded :
      (body : Bytes) (files : List String) (calls : List NoteCall) (db : Db) (n : String)
      → (create lease v body files calls db).result ≡ answered n
      → IsRecorded n db (create lease v body files calls db).db
  create-IsRecorded body files calls db n h = elim (Answer-cases v.created) [
    | inl (note, q) ↦
        let sent = calls ++ creates lease.thread.ticket_id lease.thread.key body files ∷ [] in
        let saved = save-IsRecorded note sent db n (ground (arith, h, q)) in
        rw q (subst (λ m. IsRecorded m db (save lease v note sent db).db) saved.0 saved.1)
    | inr (e, q) ↦ ground (arith, h, q)
  ]

  recover-IsRecorded :
      (body : Bytes) (files : List String) (calls : List NoteCall) (a : Answer String) (db : Db)
      (n : String)
      → (recover lease v body files calls a db).result ≡ answered n
      → IsRecorded n (v.searched.before db) (recover lease v body files calls a db).db
  recover-IsRecorded body files calls (failed e) db n = λ h. ground (arith, h)
  recover-IsRecorded body files calls (answered note) db n =
      let met = v.searched.before db in
      let P = λ (r : Run String). r.result ≡ answered n → IsRecorded n met r.db in
      if_valid_rule P (validate_lease lease v.searched.now met) calls _ met
        (λ valid.
          if_rule P (is_set note) _ _
            (λ set h.
              let saved = save-IsRecorded note calls met n h in
              subst (λ m. IsRecorded m met (save lease v note calls met).db) saved.0 saved.1)
            (λ unset. create-IsRecorded body files calls met n))
        (λ e h. ground (arith, h))

  find_or_create-IsRecorded :
      (body : Bytes) (files : List String) (db : Db) (n : String)
      → (lease.thread.note_id == "") ≡ true
      → (find_or_create lease v body files db).result ≡ answered n
      → IsRecorded n (v.searched.before db) (find_or_create lease v body files db).db
  unfolding find_or_create
  find_or_create-IsRecorded body files db n none_known =
      if_rule (λ (r : Run String). r.result ≡ answered n → IsRecorded n (v.searched.before db) r.db)
        (lease.thread.note_id == "") _ _
        (λ _.
          recover-IsRecorded body files (searches lease.thread.ticket_id lease.thread.key ∷ [])
            v.found db n)
        (λ known h. ground (arith, none_known, known))

  then_update-answered :
      (completion c : Completion) (body : Bytes) (files : List String) (a : Answer String)
      (cs : List NoteCall) (db : Db)
      → (then_update lease v completion body files a cs db).result ≡ answered c
      → (note : String) × (a ≡ answered note)
        × (c ≡ completion)
        × ((then_update lease v completion body files a cs db).calls
            ≡ cs ++ updates note body files ∷ [])
        × (validate_lease lease v.checked.now (v.checked.before db) ≡ ok tt)
  then_update-answered completion c body files (failed e) cs db = λ h. ground (arith, h)
  then_update-answered completion c body files (answered note) cs db =
      let P = λ (r : Run Completion).
        r.result ≡ answered c
        → (n : String) × (Path (Answer String) (answered note) (answered n))
          × (c ≡ completion)
          × (r.calls ≡ cs ++ updates n body files ∷ [])
          × (validate_lease lease v.checked.now (v.checked.before db) ≡ ok tt) in
      if_valid_rule P (validate_lease lease v.checked.now (v.checked.before db)) cs _
        (v.checked.before db)
        (λ valid h. elim (Option-cases v.updated) [
          | inl none_there ↦
              (note, refl, ground (arith, h, none_there), ground (arith, none_there), valid)
          | inr (e, q) ↦ ground (arith, h, q)
        ])
        (λ e h. ground (arith, h))

  -- A run that ends well has updated one note, after all other calls, and found the lease
  -- valid just before. The note is the one of the lease's thread, or, where that has none, it had
  -- been written into the thread that the store held under the lease.
  pub updated_note-IsRecorded :
      (completion c : Completion) (body : Bytes) (files : List String) (db : Db)
      → (write_note lease v completion body files db).result ≡ answered c
      → (note : String) × (c ≡ completion)
        × ((write_note lease v completion body files db).calls
            ≡ (find_or_create lease v body files db).calls ++ updates note body files ∷ [])
        × (validate_lease lease v.checked.now
              (v.checked.before (find_or_create lease v body files db).db)
            ≡ ok tt)
        × (((lease.thread.note_id == "") ≡ false) × (note ≡ lease.thread.note_id)
            ⊎ ((lease.thread.note_id ≡ "")
                × IsRecorded note (v.searched.before db) (find_or_create lease v body files db).db))
  unfolding write_note find_or_create
  updated_note-IsRecorded completion c body files db h =
      let run = find_or_create lease v body files db in
      let ended = then_update-answered completion c body files run.result run.calls run.db h in
      (
        ended.0,
        ended.2,
        ended.3,
        ended.4,
        elim (Bool-cases (lease.thread.note_id == "")) [
          | inl none_known ↦ inr (
            (eq_iff lease.thread.note_id "").0 none_known,
            find_or_create-IsRecorded body files db ended.0 none_known ended.1,
          )
          | inr known ↦ inl (known, ground (arith, ended.1, known))
        ],
      )
