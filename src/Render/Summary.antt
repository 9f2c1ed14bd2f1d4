-- ===== src/Render/Summary.antt =====
-- internal/render/render.go, `CompileSummary`, `Summary.Fields` and `Summary.Render`, and
-- `slackEscape` of internal/render/blocks.go: the template of the summary of a ticket.
pub mod Templates
pub mod Printing
pub mod Escaping
use Prim.Native.Char.{Char, code}
use slackbot_hubspot.Base.{
  ℕ, zero, suc, String, Bool, true, false, not, ◌&&◌, ◌||◌, Option, none, some, List, [], ◌∷◌, ◌==◌,
  leb, nat_beq, is_set, if◌then◌else◌,
}
use slackbot_hubspot.Base.Sorting.{sort, compact}
use slackbot_hubspot.Base.Texts.{
  every, size, plus, trim_left, trim_right, trim_space, behind, cut, contains,
}
use slackbot_hubspot.Domain.{Error, invalid, Result, ok, err, ◌>>=◌}
use slackbot_hubspot.Domain.Remote.{Ticket}

-- A part with a field stands for the field, and one without for its literal text.
pub record SummaryPart : Type 0 where
  pub field : String
  pub literal : String

abbrev pub literal_part : String → SummaryPart
literal_part s = record { field = ""; literal = s }

abbrev pub field_part : String → SummaryPart
field_part name = record { field = name; literal = "" }

-- `\s` of a regular expression.
abbrev pub is_blank : Char → Bool
is_blank c =
    nat_beq (code c) 9
    || nat_beq (code c) 10
    || nat_beq (code c) 12
    || nat_beq (code c) 13
    || nat_beq (code c) 32

abbrev pub is_letter : Char → Bool
is_letter c = (leb b'A' (code c) && leb (code c) b'Z') || (leb b'a' (code c) && leb (code c) b'z')

abbrev pub name_of : Option String → Option String
name_of none = none
name_of (some s) = if is_set s && every is_letter s then some s else none

-- `templateVariable.FindStringSubmatch`
unfoldable pub variable : String → Option String
variable s = name_of (behind "." (trim_left is_blank (trim_right is_blank s)))

-- The value of a field of a ticket; there is none under another name.
unfoldable pub field_value : Ticket → String → Option String
field_value t name =
    if name == "Company"
    then some t.company
    else if name == "Contact"
    then some t.contact
    else if name == "CreatedAt"
    then some t.created_at
    else if name == "ID"
    then some t.id
    else if name == "Owner"
    then some t.owner
    else if name == "Pipeline"
    then some t.pipeline
    else if name == "Priority"
    then some t.priority
    else if name == "Status"
    then some t.status
    else if name == "Subject"
    then some t.subject
    else if name == "URL"
    then some t.url
    else if name == "UpdatedAt"
    then some t.updated_at
    else none

-- The names that `CompileSummary` accepts.
unfoldable pub is_field : String → Bool
is_field name =
    name == "Company"
    || name == "Contact"
    || name == "CreatedAt"
    || name == "ID"
    || name == "Owner"
    || name == "Pipeline"
    || name == "Priority"
    || name == "Status"
    || name == "Subject"
    || name == "URL"
    || name == "UpdatedAt"

abbrev pub unmatched : Error
unmatched = invalid "unmatched template delimiter"

abbrev pub onto_literal : String → List SummaryPart → List SummaryPart
onto_literal s ps = if is_set s then literal_part s ∷ ps else ps

abbrev pub onto_parts : String → String → Result (List SummaryPart) → Result (List SummaryPart)
onto_parts before name rest = do ps ← rest; ok (onto_literal before (field_part name ∷ ps))

-- The text between two delimiters, and what the rest of the template comes to.
abbrev pub compile_field :
    String → Option String → Result (List SummaryPart) → Result (List SummaryPart)
compile_field before none rest = err (invalid "summary supports only {{.Field}} substitutions")
compile_field before (some name) rest =
    if is_field name
    then onto_parts before name rest
    else err (invalid "unsupported ticket summary variable")

module _ (next : String → Result (List SummaryPart)) where
  abbrev pub compile_inside : String → Option (String × String) → Result (List SummaryPart)
  compile_inside before none = err unmatched
  compile_inside before (some (inside, rest)) = compile_field before (variable inside) (next rest)

  -- One turn of the loop, by what is before and behind the first "{{".
  abbrev pub compile_turn : String → Option (String × String) → Result (List SummaryPart)
  compile_turn source none =
      if contains "}}" source then err unmatched else ok (literal_part source ∷ [])
  compile_turn source (some (before, rest)) =
      if contains "}}" before then err unmatched else compile_inside before (cut "}}" rest)

-- The loop of `CompileSummary`, on a number of turns. Each takes two characters at least.
unfoldable pub compile_from : ℕ → String → Result (List SummaryPart)
compile_from zero source = ok []
compile_from (suc turns) source =
    if is_set source then compile_turn (compile_from turns) source (cut "{{" source) else ok []

-- `CompileSummary`
unfoldable pub compile_summary : String → Result (List SummaryPart)
compile_summary source =
    if is_set (trim_space source)
    then compile_from (size source) source
    else err (invalid "ticket summary template is empty")

abbrev pub fields_of : List SummaryPart → List String
fields_of [] = []
fields_of (p ∷ ps) = let rest = fields_of ps in if is_set p.field then p.field ∷ rest else rest

-- `Summary.Fields`: a map keeps each name once, and the names are sorted.
unfoldable pub summary_fields : List SummaryPart → List String
summary_fields ps = compact (sort (λ name. name) (fields_of ps))

abbrev pub escaped : Char → String → String
escaped c s =
    if nat_beq (code c) b'&'
    then plus "&amp;" s
    else if nat_beq (code c) b'<'
    then plus "&lt;" s
    else if nat_beq (code c) b'>'
    then plus "&gt;" s
    else String.◌∷◌ c s

-- `slackEscape`
unfoldable pub slack_escape : String → String
slack_escape String.[] = String.[]
slack_escape (String.◌∷◌ c s) = escaped c (slack_escape s)

abbrev pub value_or_empty : Option String → String
value_or_empty none = ""
value_or_empty (some s) = s

-- `Summary.Render`
unfoldable pub render_summary : Ticket → List SummaryPart → String
render_summary t [] = ""
render_summary t (p ∷ ps) =
    plus
      (if is_set p.field then slack_escape (value_or_empty (field_value t p.field)) else p.literal)
      (render_summary t ps)
