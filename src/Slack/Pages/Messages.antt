-- ===== src/Slack/Pages/Messages.antt =====
-- internal/slack/client.go, `Thread`: which messages the pages come to.
use slackbot_hubspot.Base.{
  ℕ, zero, suc, ◌≡◌, refl, subst, String, Bool, true, false, not, ◌&&◌, ◌||◌, List, [], ◌∷◌, ◌++◌,
  ◌==◌, is_set, arith, inl, inr, eq_iff, if_rule, Bool-cases,
}
use slackbot_hubspot.Base.Texts.{trim_space}
use slackbot_hubspot.Domain.{ThreadKey}
use slackbot_hubspot.Domain.Remote.{Message, Answer, answered, failed}
use slackbot_hubspot.Slack.Calls.{is_one_of}
use slackbot_hubspot.Slack.Pages.{
  ApiMessage, Page, Source, Identity, Pages, ended, used_up, message_of, has_timestamp,
  add_messages, fetch, take_page, pages, rooted, read_pages,
}

-- No two messages have the same timestamp.
unfoldable pub is_distinct : List Message → Bool
is_distinct [] = true
is_distinct (m ∷ ms) = not (has_timestamp m.timestamp ms) && is_distinct ms

has_timestamp-snoc :
    (ts : String) (ms : List Message) (m : Message)
    → has_timestamp ts (ms ++ m ∷ []) ≡ (has_timestamp ts ms || m.timestamp == ts)
unfolding has_timestamp
has_timestamp-snoc ts [] m = ground arith
has_timestamp-snoc ts (n ∷ ms) m = ground (arith, has_timestamp-snoc ts ms m)

is_distinct-snoc :
    (ms : List Message) (m : Message)
    → is_distinct ms ≡ true
    → has_timestamp m.timestamp ms ≡ false
    → is_distinct (ms ++ m ∷ []) ≡ true
unfolding is_distinct has_timestamp
is_distinct-snoc [] m h k = refl
is_distinct-snoc (n ∷ ms) m h k = ground (
  arith,
  is_distinct-snoc ms m (ground (arith, h)) (ground (arith, k)),
  has_timestamp-snoc n.timestamp ms m,
  eq_iff n.timestamp m.timestamp,
  eq_iff m.timestamp n.timestamp,
  h,
  k,
)

add_messages-is_distinct :
    (i : Identity) (new : List ApiMessage) (ms : List Message)
    → is_distinct ms ≡ true
    → is_distinct (add_messages i new ms) ≡ true
unfolding add_messages message_of
add_messages-is_distinct i [] ms h = h
add_messages-is_distinct i (m ∷ new) ms h = add_messages-is_distinct i new _ (
    if_rule (λ l. is_distinct l ≡ true) (not (is_set m.timestamp) || has_timestamp m.timestamp ms) _
      _ (λ old. h)
      (λ fresh. is_distinct-snoc ms (message_of i m) h (timestamp_kept (ground (arith, fresh)))))
  where
    timestamp_kept :
        has_timestamp m.timestamp ms ≡ false → has_timestamp (message_of i m).timestamp ms ≡ false
    timestamp_kept q = q

module _ (source : Source) (i : Identity) where
  abbrev OfMessages : (List Message → Type 0) → Pages → Type 0
  OfMessages P (ended (answered ms)) = P ms
  OfMessages P (ended (failed e)) = Unit {0}
  OfMessages P used_up = Unit {0}

  Distinct : List Message → Type 0
  Distinct ms = is_distinct ms ≡ true

  take_page-Distinct :
      (rest : String → List String → List Message → Pages)
      → ((c : String) (seen : List String) (ms : List Message)
          → Distinct ms
          → OfMessages Distinct (rest c seen ms))
      → (seen : List String) (ms : List Message) (a : Answer Page) → Distinct ms
      → OfMessages Distinct (take_page source i rest seen ms a)
  unfolding Distinct
  take_page-Distinct rest step seen ms (failed e) h = tt
  take_page-Distinct rest step seen ms (answered p) h =
      let c = trim_space p.cursor in
      let all = add_messages-is_distinct i p.messages ms h in
      if_rule (OfMessages Distinct) (not (is_set c)) _ _
        (λ last.
          if_rule (λ a. OfMessages Distinct (ended a)) p.has_more _ _ (λ more. tt) (λ whole. all))
        (λ further.
          if_rule (OfMessages Distinct) (is_one_of c seen) _ _ (λ again. tt)
            (λ new. step c (c ∷ seen) (add_messages i p.messages ms) all))

  pages-Distinct :
      (turns : ℕ) (c : String) (seen : List String) (ms : List Message)
      → Distinct ms
      → OfMessages Distinct (pages source i turns c seen ms)
  unfolding pages
  pages-Distinct zero c seen ms h = tt
  pages-Distinct (suc turns) c seen ms h =
      take_page-Distinct (pages source i turns) (pages-Distinct turns) seen ms (fetch source c 3) h

  rooted-Distinct :
      (key : ThreadKey) (r : Pages) (ms : List Message)
      → OfMessages Distinct r
      → rooted source i key r ≡ ended (answered ms)
      → Distinct ms × (has_timestamp key.thread_ts ms ≡ true)
  rooted-Distinct key used_up ms d h = ground (arith, h)
  rooted-Distinct key (ended (failed e)) ms d h = ground (arith, h)
  rooted-Distinct key (ended (answered all)) ms d h =
      elim (Bool-cases (has_timestamp key.thread_ts all)) [
        | inl here ↦
            let same : all ≡ ms = ground (arith, h, here) in
            (subst Distinct same d, subst (λ l. has_timestamp key.thread_ts l ≡ true) same here)
        | inr missing ↦ ground (arith, h, missing)
      ]

  -- The messages that come of the pages have distinct timestamps, however often Slack has sent
  -- them, and the message that the thread starts with is among them.
  pub thread_whole :
      (turns : ℕ) (key : ThreadKey) (ms : List Message)
      → read_pages source i turns key ≡ ended (answered ms)
      → (is_distinct ms ≡ true) × (has_timestamp key.thread_ts ms ≡ true)
  unfolding read_pages Distinct
  thread_whole turns key ms h =
      rooted-Distinct key (pages source i turns "" [] []) ms
        (pages-Distinct turns "" [] [] distinct_none) h
    where
      distinct_none : is_distinct [] ≡ true
      distinct_none = unfold is_distinct in refl
