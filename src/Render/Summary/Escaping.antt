-- ===== src/Render/Summary/Escaping.antt =====
-- internal/render: what a ticket's fields cannot bring into a summary.
use Prim.Native.Char.{Char, code}
use slackbot_hubspot.Base.{
  ◌≡◌, refl, String, Bool, true, not, ◌&&◌, ◌||◌, List, [], ◌∷◌, nat_beq, is_set, arith, if_rule,
}
use slackbot_hubspot.Base.Texts.{every, plus}
use slackbot_hubspot.Domain.Remote.{Ticket}
use slackbot_hubspot.Render.Summary.{
  SummaryPart, slack_escape, value_or_empty, field_value, render_summary,
}

-- A character that opens or closes no link, mention or command of Slack.
abbrev pub is_inert : Char → Bool
is_inert c = not (nat_beq (code c) b'<' || nat_beq (code c) b'>')

pub every-plus :
    (p : Char → Bool) (s t : String)
    → every p s ≡ true
    → every p t ≡ true
    → every p (plus s t) ≡ true
unfolding every plus
every-plus p String.[] t h k = k
every-plus p (String.◌∷◌ c s) t h k = ground (arith, h, every-plus p s t (ground (arith, h)) k)

-- An escaped text has no angle brackets.
pub slack_escape_inert : (s : String) → every is_inert (slack_escape s) ≡ true
unfolding every slack_escape plus
slack_escape_inert String.[] = refl
slack_escape_inert (String.◌∷◌ c s) = ground (arith, slack_escape_inert s)

-- The literal text of a template has no angle brackets.
abbrev pub is_inert_template : List SummaryPart → Bool
is_inert_template [] = true
is_inert_template (p ∷ ps) = (is_set p.field || every is_inert p.literal) && is_inert_template ps

-- No field of a ticket brings an angle bracket into a summary: where the template has none outside
-- its fields, the rendered text has none.
pub rendered_fields_inert :
    (t : Ticket) (ps : List SummaryPart)
    → is_inert_template ps ≡ true
    → every is_inert (render_summary t ps) ≡ true
unfolding every render_summary
rendered_fields_inert t [] h = refl
rendered_fields_inert t (p ∷ ps) h =
    every-plus is_inert _ (render_summary t ps)
      (if_rule (λ s. every is_inert s ≡ true) (is_set p.field) _ _
        (λ field. slack_escape_inert (value_or_empty (field_value t p.field)))
        (λ literal. ground (arith, h, literal)))
      (rendered_fields_inert t ps (ground (arith, h)))
