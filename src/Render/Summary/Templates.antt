-- ===== src/Render/Summary/Templates.antt =====
-- internal/render/render.go, `CompileSummary`: its loop ends, and it reads back a template that is
-- written from parts.
use Prim.Native.Char.{Char}
use slackbot_hubspot.Base.{
  ℕ, zero, suc, ◌+◌, ◌≤◌, ◌<◌, ◌≡◌, refl, sym, ap, String, Option, none, some, List, [], is_set,
  arith, if◌then◌else◌,
}
use slackbot_hubspot.Base.Texts.{size, behind, cut, cut_at, onto_before, contains}
use slackbot_hubspot.Domain.{Result, ok, err}
use slackbot_hubspot.Render.Summary.{
  SummaryPart, variable, compile_field, compile_inside, compile_turn, unmatched, compile_from,
}

-- What is behind a prefix is shorter by the prefix.
behind-size : (p s t : String) → behind p s ≡ some t → size t + size p ≡ size s
unfolding behind
behind-size String.[] s t h = ground (arith, h)
behind-size (String.◌∷◌ c p) String.[] t h = ground (arith, h)
behind-size (String.◌∷◌ c p) (String.◌∷◌ d s) t h = ground (arith, h, behind-size p s t)

cut_at-size :
    (token : String) (n : ℕ) (c : Char) (found : Option String) (later : Option (String × String))
    (before rest : String)
    → ((t : String) → found ≡ some t → size t + size token ≤ n)
    → ((b t : String) → later ≡ some (b, t) → size t + size token ≤ n)
    → cut_at found (onto_before c later) ≡ some (before, rest)
    → size rest + size token ≤ n
cut_at-size token n c (some t) later before rest here there h =
    let same : t ≡ rest = ground (arith, h) in rw (sym same) (here t refl)
cut_at-size token n c none (some (b, t)) before rest here there h =
    let same : t ≡ rest = ground (arith, h) in rw (sym same) (there b t refl)
cut_at-size token n c none none before rest here there h = ground (arith, h)

-- What is behind a place is shorter.
cut-size :
    (token s before rest : String)
    → cut token s ≡ some (before, rest)
    → size rest + size token ≤ size s
unfolding cut
cut-size token String.[] before rest h = ground (arith, h)
cut-size token (String.◌∷◌ c s) before rest h =
    cut_at-size token (suc (size s)) c (behind token (String.◌∷◌ c s)) (cut token s) before rest
      (λ t e. omega (arith, behind-size token (String.◌∷◌ c s) t e))
      (λ b t e. omega (arith, cut-size token s b t e)) h

module _ (f g : String → Result (List SummaryPart)) (n : ℕ)
    (agree : (s : String) → size s < n → f s ≡ g s) where
  compile_inside_agrees :
      (before : String) (o : Option (String × String))
      → ((inside rest : String) → o ≡ some (inside, rest) → size rest < n)
      → compile_inside f before o ≡ compile_inside g before o
  compile_inside_agrees before none shorter = refl
  compile_inside_agrees before (some (inside, rest)) shorter =
      ap (compile_field before (variable inside)) (agree rest (shorter inside rest refl))

  compile_turn_agrees :
      (source : String) (o : Option (String × String))
      → ((before rest : String) → o ≡ some (before, rest) → size rest < n)
      → compile_turn f source o ≡ compile_turn g source o
  compile_turn_agrees source none shorter = refl
  compile_turn_agrees source (some (before, rest)) shorter =
      ap (λ r. if contains "}}" before then err unmatched else r)
        (compile_inside_agrees before (cut "}}" rest) (λ i r e.
          let less = shorter before rest refl in omega (arith, cut-size "}}" rest i r e, less)))

-- The loop needs no more turns than the template has characters: any number from there on gives
-- the same parts, or the same error.
pub compile_from_turns :
    (n m : ℕ) (s : String) → size s ≤ n → size s ≤ m → compile_from n s ≡ compile_from m s
unfolding compile_from
compile_from_turns zero zero s h k = refl
compile_from_turns zero (suc m) String.[] h k = refl
compile_from_turns zero (suc m) (String.◌∷◌ c s) h k = ground (arith, h)
compile_from_turns (suc n) zero String.[] h k = refl
compile_from_turns (suc n) zero (String.◌∷◌ c s) h k = ground (arith, k)
compile_from_turns (suc n) (suc m) s h k =
    ap (λ r. if is_set s then r else ok [])
      (compile_turn_agrees (compile_from n) (compile_from m) (size s)
        (λ t less. compile_from_turns n m t (omega (arith, h, less)) (omega (arith, k, less))) s
        (cut "{{" s) (λ before rest e. omega (arith, cut-size "{{" s before rest e)))
