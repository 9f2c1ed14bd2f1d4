-- ===== src/Render/Summary/Printing.antt =====
-- internal/render/render.go, `CompileSummary`: it reads back what is written from parts.
use Prim.Native.Char.{Char, code}
use slackbot_hubspot.Base.{
  ℕ, zero, suc, ◌+◌, ◌≤◌, ◌≡◌, refl, sym, ap, subst, ◌∙◌, String, Bool, true, false, not, ◌||◌,
  ◌==◌, none, some, inl, inr, List, [], ◌∷◌, nat_beq, is_set, arith, eq_iff, Bool-cases,
  if◌then◌else◌,
}
use slackbot_hubspot.Base.Texts.{every, plus, size, behind, cut, trim_left, trim_right, trim_space}
use slackbot_hubspot.Base.Texts.Words.{is_set_cons}
use slackbot_hubspot.Domain.{ok}
use slackbot_hubspot.Render.Summary.{
  SummaryPart, literal_part, field_part, onto_literal, variable, is_field, compile_from,
  compile_summary,
}

abbrev pub is_text : Char → Bool
is_text c = not (nat_beq (code c) b'{' || nat_beq (code c) b'}')

-- The template that parts are written as.
unfoldable pub template_of : List SummaryPart → String
template_of [] = ""
template_of (p ∷ ps) =
    plus (if is_set p.field then plus "{{." (plus p.field "}}") else p.literal) (template_of ps)

-- Parts as a template has them: fields that are known, texts without braces, and no two texts in
-- a row.
pub data IsTemplate : List SummaryPart → Type 0 where
  ends : IsTemplate []
  text : (s : String) → is_set s ≡ true → every is_text s ≡ true → IsTemplate (literal_part s ∷ [])
  field :
      (before name : String) (ps : List SummaryPart)
      → every is_text before ≡ true
      → is_field name ≡ true
      → IsTemplate ps
      → IsTemplate (onto_literal before (field_part name ∷ ps))

cut-none : (s : String) → every is_text s ≡ true → (cut "{{" s ≡ none) × (cut "}}" s ≡ none)
unfolding cut every behind
cut-none String.[] h = (refl, refl)
cut-none (String.◌∷◌ c s) h =
    let rest = cut-none s (ground (arith, h)) in
    (ground (arith, h, rest.0), ground (arith, h, rest.1))

cut_open : (s t : String) → every is_text s ≡ true → cut "{{" (plus s (plus "{{" t)) ≡ some (s, t)
unfolding cut every behind plus
cut_open String.[] t h = refl
cut_open (String.◌∷◌ c s) t h =
    let rest = cut_open s t (ground (arith, h)) in ground (arith, h, rest)

cut_close : (s t : String) → every is_text s ≡ true → cut "}}" (plus s (plus "}}" t)) ≡ some (s, t)
unfolding cut every behind plus
cut_close String.[] t h = refl
cut_close (String.◌∷◌ c s) t h =
    let rest = cut_close s t (ground (arith, h)) in ground (arith, h, rest)

-- What holds of the name of a field.
record IsName (name : String) : Type 0 where
  pub set : is_set name ≡ true
  pub plain : every is_text name ≡ true
  pub read : variable (String.◌∷◌ "." name) ≡ some name

or_named :
    (name t : String) (rest : Bool)
    → IsName t
    → (rest ≡ true → IsName name)
    → (rest || name == t) ≡ true
    → IsName name
or_named name t rest this others h = elim (Bool-cases (name == t)) [
  | inl e ↦ subst IsName (sym ((eq_iff name t).0 e)) this
  | inr e ↦ others (ground (arith, h, e))
]

is_field-IsName : (name : String) → is_field name ≡ true → IsName name
unfolding is_field every variable trim_left trim_right behind
is_field-IsName name =
    or_named name "UpdatedAt" _ (record { set = refl; plain = refl; read = refl })
      (or_named name "URL" _ (record { set = refl; plain = refl; read = refl })
        (or_named name "Subject" _ (record { set = refl; plain = refl; read = refl })
          (or_named name "Status" _ (record { set = refl; plain = refl; read = refl })
            (or_named name "Priority" _ (record { set = refl; plain = refl; read = refl })
              (or_named name "Pipeline" _ (record { set = refl; plain = refl; read = refl })
                (or_named name "Owner" _ (record { set = refl; plain = refl; read = refl })
                  (or_named name "ID" _ (record { set = refl; plain = refl; read = refl })
                    (or_named name "CreatedAt" _ (record { set = refl; plain = refl; read = refl })
                      (or_named name "Contact" _ (record { set = refl; plain = refl; read = refl })
                        (λ h.
                          subst IsName (sym ((eq_iff name "Company").0 h))
                            (record { set = refl; plain = refl; read = refl })))))))))))

size-plus : (s t : String) → size (plus s t) ≡ size s + size t
unfolding plus
size-plus String.[] t = omega arith
size-plus (String.◌∷◌ c s) t = omega (arith, size-plus s t)

plus_assoc : (s t u : String) → plus (plus s t) u ≡ plus s (plus t u)
unfolding plus
plus_assoc String.[] t u = refl
plus_assoc (String.◌∷◌ c s) t u = ap (λ r. String.◌∷◌ c r) (plus_assoc s t u)

plus_empty : (s : String) → plus s "" ≡ s
unfolding plus
plus_empty String.[] = refl
plus_empty (String.◌∷◌ c s) = ap (λ r. String.◌∷◌ c r) (plus_empty s)

unset-empty : (s : String) → is_set s ≡ false → s ≡ ""
unset-empty s h = ground (arith, eq_iff s "", h)

-- A template that begins with a text and a field.
template_of-field :
    (before name : String) (ps : List SummaryPart)
    → is_set name ≡ true
    → template_of (onto_literal before (field_part name ∷ ps))
      ≡ plus before (plus "{{" (plus (String.◌∷◌ "." name) (plus "}}" (template_of ps))))
unfolding template_of plus
template_of-field before name ps set = elim (Bool-cases (is_set before)) [
  | inl has ↦
      rw (has, set)
        (ap (λ r. plus before (String.◌∷◌ "{" (String.◌∷◌ "{" (String.◌∷◌ "." r))))
          (plus_assoc name "}}" (template_of ps)))
  | inr none_there ↦
      let empty : before ≡ "" = unset-empty before none_there in
      rw (none_there, set, empty)
        (ap (λ r. String.◌∷◌ "{" (String.◌∷◌ "{" (String.◌∷◌ "." r)))
          (plus_assoc name "}}" (template_of ps)))
]

is_set-plus : (s t : String) → is_set t ≡ true → is_set (plus s t) ≡ true
unfolding plus
is_set-plus String.[] t h = h
is_set-plus (String.◌∷◌ c s) t h = is_set_cons c (plus s t)

is_set_braces : (s : String) → is_set (plus "{{" s) ≡ true
unfolding plus
is_set_braces s = is_set_cons "{" (String.◌∷◌ "{" s)

-- The turns for a template that begins with a text and a field.
compile_from-field :
    (before name rest : String) (ps : List SummaryPart) (m : ℕ)
    → every is_text before ≡ true
    → is_field name ≡ true
    → compile_from m rest ≡ ok ps
    → compile_from (suc m) (plus before (plus "{{" (plus (String.◌∷◌ "." name) (plus "}}" rest))))
      ≡ ok (onto_literal before (field_part name ∷ ps))
unfolding compile_from every
compile_from-field before name rest ps m plain known e =
    let n = is_field-IsName name known in
    let inside = String.◌∷◌ "." name in
    let source = plus "{{" (plus inside (plus "}}" rest)) in
    rw
      (
        is_set-plus before source (is_set_braces (plus inside (plus "}}" rest))),
        cut_open before (plus inside (plus "}}" rest)) plain,
        (cut-none before plain).1,
        cut_close inside rest n.plain,
        n.read,
        known,
        e,
      )
      refl

is_set-zero : (s : String) → is_set s ≡ true → size s ≤ 0 → true ≡ false
is_set-zero String.[] h k = sym h
is_set-zero (String.◌∷◌ c s) h k = ground (arith, k)

size_behind :
    (before inside rest : String)
    → size rest + 1 ≤ size (plus before (plus "{{" (plus inside (plus "}}" rest))))
size_behind before inside rest = omega (
  arith,
  size-plus before (plus "{{" (plus inside (plus "}}" rest))),
  size-plus "{{" (plus inside (plus "}}" rest)),
  size-plus inside (plus "}}" rest),
  size-plus "}}" rest,
)

compile_from-template_of :
    (ps : List SummaryPart)
    → IsTemplate ps
    → (n : ℕ) → size (template_of ps) ≤ n
    → compile_from n (template_of ps) ≡ ok ps
unfolding compile_from template_of
compile_from-template_of _ IsTemplate.ends zero h = refl
compile_from-template_of _ IsTemplate.ends (suc n) h = refl
compile_from-template_of _ (IsTemplate.text s set plain) zero h =
    ground (arith, is_set-zero s set (subst (λ t. size t ≤ 0) (plus_empty s) h))
compile_from-template_of _ (IsTemplate.text s set plain) (suc n) h =
    let none_there = cut-none s plain in rw (plus_empty s, set, none_there.0, none_there.1) refl
compile_from-template_of _ (IsTemplate.field before name ps plain known t) zero h =
    let shape = template_of-field before name ps (is_field-IsName name known).set in
    let longer = size_behind before (String.◌∷◌ "." name) (template_of ps) in
    let fits = subst (λ s. size s ≤ 0) shape h in ground (arith, longer, fits)
compile_from-template_of _ (IsTemplate.field before name ps plain known t) (suc n) h =
    let shape = template_of-field before name ps (is_field-IsName name known).set in
    let longer = size_behind before (String.◌∷◌ "." name) (template_of ps) in
    let fits = subst (λ s. size s ≤ suc n) shape h in
    ap (compile_from (suc n)) shape
    ∙ compile_from-field before name (template_of ps) ps n plain known
        (compile_from-template_of ps t n (omega (arith, longer, fits)))

-- A template that is written from parts, and that is not blank, is read back as these parts, if
-- every field is a known one, no text has a brace, and no two texts stand in a row.
pub compile_summary-template_of :
    (ps : List SummaryPart)
    → IsTemplate ps
    → is_set (trim_space (template_of ps)) ≡ true
    → compile_summary (template_of ps) ≡ ok ps
unfolding compile_summary
compile_summary-template_of ps t h =
    rw h (compile_from-template_of ps t (size (template_of ps)) (omega arith))
