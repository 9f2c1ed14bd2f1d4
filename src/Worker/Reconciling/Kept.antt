-- ===== src/Worker/Reconciling/Kept.antt =====
-- internal/worker/worker.go, `reconcile`: the messages that are eligible, and the others.
use mathlib.Core.List.Permᴰ
use mathlib.Core.List.{Memᴰ, Permᴰ}
use slackbot_hubspot.Base.{◌≡◌, refl, ◌∙◌, true, false, Bool, List, [], ◌∷◌, ◌++◌, if_rule}
use slackbot_hubspot.Domain.Remote.{Message}
use slackbot_hubspot.Worker.Reconciling.{kept}

abbrev All : (Message → Bool) → Bool → List Message → Type 0
All p b ms = (m : Message) → Memᴰ m ms → p m ≡ b

-- The list is made of the messages of which `p` holds, `chosen`, and of others.
pub record IsSplit (p : Message → Bool) (chosen ms : List Message) : Type 0 where
  pub others : List Message
  pub composed : Permᴰ (chosen ++ others) ms
  pub chosen_hold : (m : Message) → Memᴰ m chosen → p m ≡ true
  pub others_fail : (m : Message) → Memᴰ m others → p m ≡ false

All-cons :
    (p : Message → Bool) (b : Bool) (m : Message) (ms : List Message)
    → p m ≡ b
    → All p b ms
    → All p b (m ∷ ms)
All-cons p b m ms e h n (Memᴰ.head k) = rw k e
All-cons p b m ms e h n (Memᴰ.tail k) = h n k

pub kept-IsSplit : (p : Message → Bool) (ms : List Message) → IsSplit p (kept p ms) ms
unfolding kept
kept-IsSplit p [] = record {
  others = [];
  composed = Permᴰ.nil;
  chosen_hold = λ m k. elim k [ ];
  others_fail = λ m k. elim k [ ];
}
kept-IsSplit p (m ∷ ms) =
    let rest = kept-IsSplit p ms in
    if_rule (λ l. IsSplit p l (m ∷ ms)) (p m) (m ∷ kept p ms) (kept p ms)
      (λ yes_kept. record {
        others = rest.others;
        composed = Permᴰ.cons refl rest.composed;
        chosen_hold = All-cons p true m (kept p ms) yes_kept rest.chosen_hold;
        others_fail = rest.others_fail;
      })
      (λ not_kept. record {
        others = m ∷ rest.others;
        composed =
            Permᴰ.trans (Permᴰ.middle m (kept p ms) rest.others) (Permᴰ.cons refl rest.composed);
        chosen_hold = rest.chosen_hold;
        others_fail = All-cons p false m rest.others not_kept rest.others_fail;
      })

Permᴰ-Memᴰ : (a b : List Message) → Permᴰ a b → (m : Message) → Memᴰ m a → Memᴰ m b
Permᴰ-Memᴰ _ _ Permᴰ.nil m k = k
Permᴰ-Memᴰ _ _ (Permᴰ.cons e p) m (Memᴰ.head k) = Memᴰ.head (k ∙ e)
Permᴰ-Memᴰ _ _ (Permᴰ.cons e p) m (Memᴰ.tail k) = Memᴰ.tail (Permᴰ-Memᴰ _ _ p m k)
Permᴰ-Memᴰ _ _ (Permᴰ.swap e f) m (Memᴰ.head k) = Memᴰ.tail (Memᴰ.head (k ∙ e))
Permᴰ-Memᴰ _ _ (Permᴰ.swap e f) m (Memᴰ.tail (Memᴰ.head k)) = Memᴰ.head (k ∙ f)
Permᴰ-Memᴰ _ _ (Permᴰ.swap e f) m (Memᴰ.tail (Memᴰ.tail k)) = Memᴰ.tail (Memᴰ.tail k)
Permᴰ-Memᴰ _ _ (Permᴰ.trans p q) m k = Permᴰ-Memᴰ _ _ q m (Permᴰ-Memᴰ _ _ p m k)

-- In another order, too.
pub IsSplit-Permᴰ :
    (p : Message → Bool) (a b ms : List Message) → Permᴰ a b → IsSplit p b ms → IsSplit p a ms
IsSplit-Permᴰ p a b ms same s = record {
  others = s.others;
  composed = Permᴰ.trans (Permᴰ.append_right s.others same) s.composed;
  chosen_hold = λ m k. s.chosen_hold m (Permᴰ-Memᴰ a b same m k);
  others_fail = s.others_fail;
}
