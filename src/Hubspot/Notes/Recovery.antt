-- ===== src/Hubspot/Notes/Recovery.antt =====
-- internal/hubspot/client.go: a note whose creation was not heard of is found again.
use slackbot_hubspot.Base.{
  ◌≡◌, refl, Bool, true, false, not, ◌&&◌, List, [], ◌∷◌, ◌++◌, is_set, arith,
}
use slackbot_hubspot.Base.Html.{has_infix}
use slackbot_hubspot.Domain.{Bytes}
use slackbot_hubspot.Domain.Remote.{Answer, answered, failed}
use slackbot_hubspot.Hubspot.Notes.{Note, search_notes}

-- Whether all notes can be fetched, and none is of the thread.
abbrev pub are_others : Bytes → List (Answer Note) → Bool
are_others line [] = true
are_others line (failed e ∷ ns) = false
are_others line (answered n ∷ ns) = is_set n.id && not (has_infix line n.body) && are_others line ns

pub search_notes-append :
    (line : Bytes) (before behind : List (Answer Note)) (n : Note)
    → are_others line before ≡ true
    → is_set n.id ≡ true
    → has_infix line n.body ≡ true
    → search_notes line (before ++ answered n ∷ behind) ≡ answered n.id
unfolding search_notes
search_notes-append line [] behind n h set here = rw (set, here) refl
search_notes-append line (failed e ∷ before) behind n h set here = ground (arith, h)
search_notes-append line (answered m ∷ before) behind n h set here =
    let rest = search_notes-append line before behind n (ground (arith, h)) set here in
    let named : is_set m.id ≡ true = ground (arith, h) in
    let other : has_infix line m.body ≡ false = ground (arith, h) in rw (named, other) rest
