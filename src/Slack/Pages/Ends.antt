-- ===== src/Slack/Pages/Ends.antt =====
-- internal/slack/client.go, `Thread`: the loop over the pages ends.
use slackbot_hubspot.Base.{
  ℕ, zero, suc, ◌+◌, ◌-◌, ◌≤◌, ◌<◌, ◌≡◌, inl, inr, refl, ap, subst, String, Bool, true, false, not,
  List, [], ◌∷◌, ◌==◌, is_set, length, arith, eq_iff, if_rule, Bool-cases, if◌then◌else◌,
}
use slackbot_hubspot.Base.Texts.{trim_space}
use slackbot_hubspot.Domain.{ThreadKey}
use slackbot_hubspot.Domain.Remote.{Message, Answer, answered, failed}
use slackbot_hubspot.Slack.Calls.{is_one_of}
use slackbot_hubspot.Slack.Pages.{
  Page, Source, Identity, Pages, ended, add_messages, attempted, fetch, next_page, take_page, pages,
  check_root, rooted, read_pages,
}

-- How many of some cursors were not seen.
abbrev fresh : List String → List String → ℕ
fresh [] seen = 0
fresh (u ∷ us) seen = let rest = fresh us seen in if is_one_of u seen then rest else rest + 1

fresh-length : (us seen : List String) → fresh us seen ≤ length us
fresh-length [] seen = omega arith
fresh-length (u ∷ us) seen = ground (arith, fresh-length us seen)

fresh_cons : (us seen : List String) (c : String) → fresh us (c ∷ seen) ≤ fresh us seen
fresh_cons [] seen c = omega arith
fresh_cons (u ∷ us) seen c = ground (arith, fresh_cons us seen c)

-- A cursor that is seen for the first time leaves fewer.
fresh_less :
    (us seen : List String) (c : String)
    → is_one_of c us ≡ true
    → is_one_of c seen ≡ false
    → fresh us (c ∷ seen) < fresh us seen
fresh_less [] seen c h k = ground (arith, h)
fresh_less (u ∷ us) seen c h k = elim (Bool-cases (c == u)) [
  | inl e ↦
      let same = (eq_iff c u).0 e in
      subst (λ x. fresh (x ∷ us) (c ∷ seen) < fresh (x ∷ us) seen) same
        (ground (arith, fresh_cons us seen c, k, (eq_iff c c).1 refl))
  | inr e ↦ ground (arith, fresh_less us seen c (ground (arith, h, e)) k, h, e)
]

module _ (source : Source) where
  -- The page that the attempts come to is the one of an attempt.
  fetch-page :
      (P : Page → Type 0) (cursor : String) (left : ℕ) (p : Page)
      → ((attempt : ℕ) (q : Page) → source.page cursor attempt ≡ answered q → P q)
      → fetch source cursor left ≡ answered p
      → P p
  unfolding fetch
  fetch-page P cursor zero p h e = h 3 p e
  fetch-page P cursor (suc left) p h e =
      attempt-page (source.stopped cursor (2 - left)) (fetch source cursor left)
        (source.page cursor (2 - left)) (h (2 - left)) (fetch-page P cursor left p h) e
    where
      attempt-page :
          (stopped : Bool) (later a : Answer Page)
          → ((q : Page) → a ≡ answered q → P q)
          → (later ≡ answered p → P p)
          → attempted stopped later a ≡ answered p
          → P p
      attempt-page stopped later (answered q) here there k = here p k
      attempt-page stopped later (failed f) here there k = there (ground (arith, k))

  module _ (i : Identity) (universe : List String)
      (known : (cursor : String) (attempt : ℕ) (p : Page)
        → source.page cursor attempt ≡ answered p
        → is_set (trim_space p.cursor) ≡ true
        → is_one_of (trim_space p.cursor) universe ≡ true) where
    Ends : Pages → Type 0
    Ends r = (a : Answer (List Message)) × (r ≡ ended a)

    next_page-Ends :
        (rest : String → List String → List Message → Pages) (seen : List String)
        (ms : List Message) (more : Bool) (cursor : String)
        → (is_set cursor ≡ true
            → is_one_of cursor seen ≡ false
            → Ends (rest cursor (cursor ∷ seen) ms))
        → Ends (next_page source i rest seen ms more cursor)
    unfolding Ends
    next_page-Ends rest seen ms more cursor h =
        if_rule Ends (not (is_set cursor)) _ _ (λ last. (_, refl))
          (λ further.
            if_rule Ends (is_one_of cursor seen) _ _ (λ again. (_, refl))
              (λ new. h (ground (arith, further)) new))

    take_page-Ends :
        (rest : String → List String → List Message → Pages) (seen : List String)
        (ms : List Message) (a : Answer Page)
        → ((p : Page)
            → a ≡ answered p
            → is_set (trim_space p.cursor) ≡ true
            → is_one_of (trim_space p.cursor) seen ≡ false
            → Ends (
                rest
                  (trim_space p.cursor)
                  (trim_space p.cursor ∷ seen)
                  (add_messages i p.messages ms)))
        → Ends (take_page source i rest seen ms a)
    unfolding Ends
    take_page-Ends rest seen ms (failed e) h = (_, refl)
    take_page-Ends rest seen ms (answered p) h =
        next_page-Ends rest seen (add_messages i p.messages ms) p.has_more (trim_space p.cursor)
          (h p refl)

    pages-Ends :
        (turns : ℕ) (cursor : String) (seen : List String) (ms : List Message)
        → fresh universe seen < turns
        → Ends (pages source i turns cursor seen ms)
    unfolding pages
    pages-Ends zero cursor seen ms h = ground (arith, h)
    pages-Ends (suc turns) cursor seen ms h =
        take_page-Ends (pages source i turns) seen ms (fetch source cursor 3) (λ p e set new.
          let c = trim_space p.cursor in
          let listed =
            fetch-page
              (λ q.
                is_set (trim_space q.cursor) ≡ true
                → is_one_of (trim_space q.cursor) universe ≡ true)
              cursor 3 p (known cursor) e set in
          let fewer = fresh_less universe seen c listed new in
          pages-Ends turns c (c ∷ seen) (add_messages i p.messages ms) (omega (arith, h, fewer)))

    -- If Slack answers with finitely many cursors, the loop over the pages comes to its end within one turn more than
    -- there are cursors, whatever the pages hold.
    pub thread_ends :
        (turns : ℕ) (key : ThreadKey)
        → length universe < turns
        → (a : Answer (List Message)) × (read_pages source i turns key ≡ ended a)
    unfolding read_pages Ends
    thread_ends turns key h =
        let most = fresh-length universe [] in
        let done = pages-Ends turns "" [] [] (omega (arith, h, most)) in
        (check_root source i key done.0, ap (rooted source i key) done.1)
