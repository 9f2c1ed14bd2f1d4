-- ===== src/Store/System/Invariant/Requests.antt =====
-- Every request changes the threads only as `Changes` says (internal/store/records.go and
-- work.go); the claim of a thread is in a module of its own.
use slackbot_hubspot.Base.{arith}
use slackbot_hubspot.Domain.{Event}
use slackbot_hubspot.Store.Rendering.{Rendering}
use slackbot_hubspot.Store.Database.{Db, find_thread, put_thread}
use slackbot_hubspot.Store.Records.Decisions.{Decision}
use slackbot_hubspot.Store.Records.Follows.{
  Follows, absent, created, kept, advanced, Consistent, decide-Follows,
}
use slackbot_hubspot.Store.Records.{write_thread, apply_decision, record_event}
use slackbot_hubspot.Store.Records.Cases.{threads-apply_decision, record_event_cases}
use slackbot_hubspot.Store.System.Changes.{
  Changes, Changes-refl, Changes-threads, Changes-put, Changes-create, Changes-then,
}

module _ (e : Event) (d : Decision) (db : Db) where
  write_thread-Changes : Follows e (find_thread db e.key) d → Changes db (write_thread e d db)
  write_thread-Changes (absent o p c) = Changes-threads db (write_thread e d db) (ground arith)
  write_thread-Changes (kept t o p c) = Changes-threads db (write_thread e d db) (ground arith)
  write_thread-Changes (created u o p c k l v) =
      Changes-then db (put_thread db e.key u) (write_thread e d db)
        (Changes-create db e.key u o k l v) (ground arith)
  write_thread-Changes (advanced t u o p c a) =
      Changes-then db (put_thread db e.key u) (write_thread e d db) (Changes-put db e.key t u o a)
        (ground arith)

module _ (r : Rendering) (e : Event) (db : Db) where
  pub record_event-Changes : Consistent (find_thread db e.key) → Changes db (record_event r e db).1
  record_event-Changes c = record_event_cases r e db (Changes db) (Changes-refl db) λ d _ _ h.
      Changes-then db (write_thread e d db) (apply_decision e d db)
        (write_thread-Changes e d db (decide-Follows r e (find_thread db e.key) d c h))
        (threads-apply_decision e d db)
