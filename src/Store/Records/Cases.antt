-- ===== src/Store/Records/Cases.antt =====
-- internal/store/records.go: `Record` by cases.
use slackbot_hubspot.Base.{◌≡◌, sym, ◌∙◌, ap, true, false, arith, Bool-cases, inl, inr}
use slackbot_hubspot.Domain.{
  invalid, ok, err, ok-injective, Result-cases, Error, Event, RecordResult,
}
use slackbot_hubspot.Store.Rendering.{Rendering}
use slackbot_hubspot.Store.Database.{Db, find_thread}
use slackbot_hubspot.Store.Records.Decisions.{Decision, decide}
use slackbot_hubspot.Store.Records.{
  is_complete, is_duplicate, write_thread, apply_decision, duplicate_result, decision_result,
  record_event,
}

module _ (r : Rendering) (e : Event) (db : Db) where
  -- An event that is new and has a decision is recorded with all that the decision writes.
  pub record_event-decided :
      (d : Decision)
      → is_complete e ≡ true
      → is_duplicate e db ≡ false
      → decide r e (find_thread db e.key) ≡ ok d
      → record_event r e db ≡ (ok (decision_result d), apply_decision e d db)
  unfolding record_event
  record_event-decided d c n h = ground arith

  pub record_event-duplicate :
      is_complete e ≡ true
      → is_duplicate e db ≡ true
      → record_event r e db ≡ (ok duplicate_result, db)
  unfolding record_event
  record_event-duplicate c n = ground arith

  pub record_event-refused :
      (x : Error)
      → is_complete e ≡ true
      → is_duplicate e db ≡ false
      → decide r e (find_thread db e.key) ≡ err x
      → record_event r e db ≡ (err x, db)
  unfolding record_event
  record_event-refused x c n h = ground arith

  pub record_event-incomplete :
      is_complete e ≡ false
      → record_event r e db ≡ (err (invalid "event ID and complete thread key are required"), db)
  unfolding record_event
  record_event-incomplete c = ground arith

  -- Either the store stays as it was, or all that a decision writes is written.
  pub record_event_cases :
      (P : Db → Type 0)
      → P db
      → ((d : Decision)
          → is_complete e ≡ true
          → is_duplicate e db ≡ false
          → decide r e (find_thread db e.key) ≡ ok d
          → P (apply_decision e d db))
      → P (record_event r e db).1
  record_event_cases P stays writes = elim (Bool-cases (is_complete e)) [
    | inr c ↦ rw (record_event-incomplete c) stays
    | inl c ↦ elim (Bool-cases (is_duplicate e db)) [
      | inl n ↦ rw (record_event-duplicate c n) stays
      | inr n ↦ elim (Result-cases (decide r e (find_thread db e.key))) [
        | inl (d, h) ↦ rw (record_event-decided d c n h) (writes d c n h)
        | inr (x, h) ↦ rw (record_event-refused x c n h) stays
      ]
    ]
  ]

-- A success is either a duplicate, which changes nothing, or a decision that is written.
pub data Recorded (r : Rendering) (e : Event) (db : Db) (res : RecordResult) : Type 0 where
  duplicate :
      is_complete e ≡ true
      → is_duplicate e db ≡ true
      → res ≡ duplicate_result
      → record_event r e db ≡ (ok duplicate_result, db)
      → Recorded r e db res
  decided :
      (d : Decision)
      → is_complete e ≡ true
      → is_duplicate e db ≡ false
      → decide r e (find_thread db e.key) ≡ ok d
      → res ≡ decision_result d
      → record_event r e db ≡ (ok (decision_result d), apply_decision e d db)
      → Recorded r e db res

pub record_event-Recorded :
    (r : Rendering) (e : Event) (db : Db) (res : RecordResult)
    → (record_event r e db).0 ≡ ok res
    → Recorded r e db res
record_event-Recorded r e db res h = elim (Bool-cases (is_complete e)) [
  | inr c ↦ cc (record_event-incomplete r e db c)
  | inl c ↦ elim (Bool-cases (is_duplicate e db)) [
    | inl n ↦
        let q = record_event-duplicate r e db c n in
        duplicate c n (ok-injective (sym h ∙ ap (λ x. x.0) q)) q
    | inr n ↦ elim (Result-cases (decide r e (find_thread db e.key))) [
      | inl (d, g) ↦
          let q = record_event-decided r e db d c n g in
          decided d c n g (ok-injective (sym h ∙ ap (λ x. x.0) q)) q
      | inr (x, g) ↦ cc (record_event-refused r e db x c n g)
    ]
  ]
]

pub threads-apply_decision :
    (e : Event) (d : Decision) (db : Db)
    → (apply_decision e d db).threads ≡ (write_thread e d db).threads
unfolding apply_decision
threads-apply_decision e d db = ground arith
