-- ===== src/Render/Status/Replies.antt =====
-- internal/render: what the store asks of the replies, and what Slack asks of their blocks.
use slackbot_hubspot.Base.{
  ◌≤◌, ◌≡◌, refl, subst, String, Bool, true, false, Option, none, some, List, [], ◌∷◌, arith,
  if_rule,
}
use mathlib.Core.List.{Memᴰ}
use slackbot_hubspot.Base.Bytes.{bytes, utf8}
use slackbot_hubspot.Domain.{Time, is_empty, SlackText, SlackBlock, Thread}
use slackbot_hubspot.Store.Rendering.{Rendering}
use slackbot_hubspot.Render.Blocks.{
  rune_count, is_bad_text, has_long_field, has_bad_block, bounded_blocks, help_blocks, help,
}
use slackbot_hubspot.Render.Status.{status_text, status_blocks, status}

pub help-nonempty : (bot : String) (invalid : Bool) → is_empty (help bot invalid).0 ≡ false
unfolding help help_blocks bytes utf8
help-nonempty bot true = refl
help-nonempty bot false = refl

pub status-nonempty : (thread : Thread) (now : Time) → is_empty (status thread now).0 ≡ false
unfolding status status_text bytes utf8
status-nonempty thread now = refl

-- The replies as the store takes them.
abbrev pub rendering : Rendering
rendering = record {
  help = help;
  status = status;
  help_nonempty = help-nonempty;
  status_nonempty = status-nonempty;
}

-- A text that Slack takes in a section.
abbrev IsBounded : Option SlackText → Type 0
IsBounded none = Unit {0}
IsBounded (some t) = (is_empty t.text ≡ false) × (rune_count t.text ≤ 3000)

is_bad_text-IsBounded : (o : Option SlackText) → is_bad_text o ≡ false → IsBounded o
is_bad_text-IsBounded none h = tt
is_bad_text-IsBounded (some t) h = (ground (arith, h), ground (arith, h))

long_field-bound :
    (ts : List SlackText) (t : SlackText)
    → has_long_field ts ≡ false
    → Memᴰ t ts
    → rune_count t.text ≤ 2000
long_field-bound [] t h m = elim m [ ]
long_field-bound (u ∷ ts) t h (Memᴰ.head e) = rw e (ground (arith, h))
long_field-bound (u ∷ ts) t h (Memᴰ.tail m) = long_field-bound ts t (ground (arith, h)) m

has_bad_block-bound :
    (bs : List SlackBlock) (b : SlackBlock)
    → has_bad_block bs ≡ false
    → Memᴰ b bs
    → IsBounded b.text × ((t : SlackText) → Memᴰ t b.fields → rune_count t.text ≤ 2000)
has_bad_block-bound [] b h m = elim m [ ]
has_bad_block-bound (c ∷ bs) b h (Memᴰ.head e) = rw e (
  is_bad_text-IsBounded c.text (ground (arith, h)),
  (λ t m. long_field-bound c.fields t (ground (arith, h)) m),
)
has_bad_block-bound (c ∷ bs) b h (Memᴰ.tail m) = has_bad_block-bound bs b (ground (arith, h)) m

-- The reports on threads and the replies to help requests are never empty, so that the worker posts
-- them; and every block of a report is one that Slack takes: its text is not empty and has 3000
-- characters at most, and its fields have 2000 at most.
pub replies_accepted :
    (bot : String) (bad : Bool) (thread : Thread) (now : Time)
    → (is_empty (rendering.help bot bad).0 ≡ false)
      × (is_empty (rendering.status thread now).0 ≡ false)
      × ((b : SlackBlock)
          → Memᴰ b (rendering.status thread now).1
          → ((t : SlackText)
              → b.text ≡ some t
              → (is_empty t.text ≡ false) × (rune_count t.text ≤ 3000))
            × ((t : SlackText) → Memᴰ t b.fields → rune_count t.text ≤ 2000))
unfolding status bounded_blocks
replies_accepted bot bad thread now = (
  help-nonempty bot bad,
  status-nonempty thread now,
  if_rule (λ bs. (b : SlackBlock) → Memᴰ b bs → Accepted b) (has_bad_block blocks) _ _
      (λ bad_there b m. elim m [ ])
      (λ fine b m.
        let bound = has_bad_block-bound blocks b fine m in
        ((λ t e. subst IsBounded e bound.0), bound.1)),
)
  where
    blocks : List SlackBlock
    blocks = status_blocks thread now

    Accepted : SlackBlock → Type 0
    Accepted b =
        ((t : SlackText) → b.text ≡ some t → (is_empty t.text ≡ false) × (rune_count t.text ≤ 3000))
        × ((t : SlackText) → Memᴰ t b.fields → rune_count t.text ≤ 2000)
