-- ===== src/Worker/Reactions/Settling.antt =====
-- internal/worker/reactions.go: a round leaves exactly the desired markers.
use slackbot_hubspot.Base.{
  ◌≡◌, Bool, true, false, not, ◌&&◌, ◌||◌, List, [], ◌∷◌, ◌++◌, arith, if◌then◌else◌, sym, subst,
  refl, ◌∙◌, Bool-cases, inl, inr,
}
use slackbot_hubspot.Domain.{ThreadKey, Thread}
use slackbot_hubspot.Domain.Remote.{Message}
use slackbot_hubspot.Worker.Reactions.{
  ReactionTarget, target_beq, target_beq_iff, has_target, Markers, present, Call, removes, adds,
  removals, additions, success_target, tracking_target, failure_target, desired, calls,
}

-- Whether the bot's marker stands at `t` once Slack has served the calls, where it stood before or
-- not: the last call for `t` decides.
abbrev pub marked_after : List Call → ReactionTarget → Bool → Bool
marked_after [] t before = before
marked_after (removes u ∷ cs) t before =
    marked_after cs t (if target_beq u t then false else before)
marked_after (adds u ∷ cs) t before = marked_after cs t (if target_beq u t then true else before)

marked_after-append :
    (cs ds : List Call) (t : ReactionTarget) (b : Bool)
    → marked_after (cs ++ ds) t b ≡ marked_after ds t (marked_after cs t b)
marked_after-append [] ds t b = refl
marked_after-append (removes u ∷ cs) ds t b = marked_after-append cs ds t _
marked_after-append (adds u ∷ cs) ds t b = marked_after-append cs ds t _

module _ (d : ReactionTarget → Bool) (t : ReactionTarget) where
  -- The removals leave a desired marker, and clear an undesired one if it is in the list.
  marked_after-removals :
      (ps : List ReactionTarget) (b : Bool)
      → marked_after (removals d ps) t b ≡ (b && (d t || not (has_target t ps)))
  marked_after-removals [] b = ground arith
  marked_after-removals (p ∷ ps) b = elim (Bool-cases (d p)) [
    | inl keep ↦ rw keep (step_kept p ps b keep (marked_after-removals ps b))
    | inr drop ↦ rw drop (step_dropped p ps b drop (λ c. marked_after-removals ps c))
  ]
    where
      step_kept :
          (p : ReactionTarget) (ps : List ReactionTarget) (b : Bool)
          → d p ≡ true
          → marked_after (removals d ps) t b ≡ (b && (d t || not (has_target t ps)))
          → marked_after (removals d ps) t b
            ≡ (b && (d t || not (target_beq p t || has_target t ps)))
      step_kept p ps b keep rest = elim (Bool-cases (target_beq p t)) [
        | inl same ↦
            let at : d t ≡ true = subst (λ x. d x ≡ true) ((target_beq_iff p t).0 same) keep in
            ground arith
        | inr apart ↦ ground arith
      ]

      step_dropped :
          (p : ReactionTarget) (ps : List ReactionTarget) (b : Bool)
          → d p ≡ false
          → ((c : Bool) → marked_after (removals d ps) t c ≡ (c && (d t || not (has_target t ps))))
          → marked_after (removals d ps) t (if target_beq p t then false else b)
            ≡ (b && (d t || not (target_beq p t || has_target t ps)))
      step_dropped p ps b drop rest = elim (Bool-cases (target_beq p t)) [
        | inl same ↦
            let at : d t ≡ false = subst (λ x. d x ≡ false) ((target_beq_iff p t).0 same) drop in
            rw (same, rest false, at) (ground arith)
        | inr apart ↦ rw (apart, rest b) refl
      ]

  step_added :
      (u : ReactionTarget) (there us : List ReactionTarget) (b : Bool)
      → d u && not (has_target u there) ≡ true
      → ((c : Bool)
          → marked_after (additions d (u ∷ there) us) t c
            ≡ (c || (d t && has_target t us && not (target_beq u t || has_target t there))))
      → marked_after (additions d (u ∷ there) us) t (if target_beq u t then true else b)
        ≡ (b || (d t && (target_beq u t || has_target t us) && not (has_target t there)))
  step_added u there us b add rest = elim (Bool-cases (target_beq u t)) [
    | inl same ↦
        let at : d t && not (has_target t there) ≡ true =
          subst (λ x. d x && not (has_target x there) ≡ true) ((target_beq_iff u t).0 same) add in
        rw (same, rest true) (ground arith)
    | inr apart ↦ rw (apart, rest b, apart) refl
  ]

  step_skipped :
      (u : ReactionTarget) (there us : List ReactionTarget) (b : Bool)
      → d u && not (has_target u there) ≡ false
      → marked_after (additions d there us) t b
        ≡ (b || (d t && has_target t us && not (has_target t there)))
      → marked_after (additions d there us) t b
        ≡ (b || (d t && (target_beq u t || has_target t us) && not (has_target t there)))
  step_skipped u there us b skip rest = elim (Bool-cases (target_beq u t)) [
    | inl same ↦
        let at : d t && not (has_target t there) ≡ false =
          subst (λ x. d x && not (has_target x there) ≡ false) ((target_beq_iff u t).0 same) skip in
        ground arith
    | inr apart ↦ rw apart rest
  ]

  -- The additions mark what is desired, was not there, and stands in the list.
  marked_after-additions :
      (there ts : List ReactionTarget) (b : Bool)
      → marked_after (additions d there ts) t b
        ≡ (b || (d t && has_target t ts && not (has_target t there)))
  marked_after-additions there [] b = ground arith
  marked_after-additions there (u ∷ us) b = elim (Bool-cases (d u && not (has_target u there))) [
    | inl add ↦ rw add (step_added u there us b add (marked_after-additions (u ∷ there) us))
    | inr skip ↦ rw skip (step_skipped u there us b skip (marked_after-additions there us b))
  ]

target_beq_self : (t : ReactionTarget) → target_beq t t ≡ true
target_beq_self t = (target_beq_iff t t).1 refl

removals_none :
    (d : ReactionTarget → Bool) (ps : List ReactionTarget)
    → ((t : ReactionTarget) → has_target t ps ≡ true → d t ≡ true)
    → removals d ps ≡ []
removals_none d [] h = refl
removals_none d (p ∷ ps) h =
    rw (h p (rw (target_beq_self p) refl)) (removals_none d ps (λ t m. h t (ground arith)))

additions_none :
    (d : ReactionTarget → Bool) (there ts : List ReactionTarget)
    → ((t : ReactionTarget) → d t ≡ true → has_target t there ≡ true)
    → additions d there ts ≡ []
additions_none d there [] h = refl
additions_none d there (t ∷ ts) h = elim (Bool-cases (d t)) [
  | inl wanted ↦ rw (wanted, h t wanted) (additions_none d there ts h)
  | inr unwanted ↦ rw unwanted (additions_none d there ts h)
]

settled_bit :
    (there wanted listed : Bool)
    → (wanted ≡ true → listed ≡ true)
    → (there && (wanted || not there) || wanted && listed && not there) ≡ wanted
settled_bit true true listed h = refl
settled_bit true false listed h = refl
settled_bit false true listed h = rw (h refl) refl
settled_bit false false listed h = refl

module _ (eligible : Message → Bool) (o : Markers) (key : ThreadKey) (thread : Thread)
    (messages : List Message) where
  -- Only the three markers of the thread are ever desired.
  desired-markers :
      (t : ReactionTarget)
      → desired eligible o key thread messages t ≡ true
      → has_target t (
          success_target eligible o thread messages
          ∷ tracking_target eligible o key
          ∷ failure_target eligible o thread
          ∷ [])
        ≡ true
  unfolding desired
  desired-markers t h = ground arith

  -- However the bot's markers stood on the messages, after the calls of a round exactly the desired
  -- ones stand there.
  pub calls_settle :
      (t : ReactionTarget)
      → marked_after (calls eligible o key thread messages) t (has_target t (present messages))
        ≡ desired eligible o key thread messages t
  unfolding calls
  calls_settle t =
      let d = desired eligible o key thread messages in
      let ps = present messages in
      let ms =
        success_target eligible o thread messages
        ∷ tracking_target eligible o key
        ∷ failure_target eligible o thread
        ∷ [] in
      rw
        (
          marked_after-append (removals d ps) (additions d ps ms) t (has_target t ps),
          marked_after-additions d t ps ms (marked_after (removals d ps) t (has_target t ps)),
          marked_after-removals d t ps (has_target t ps),
        )
        (settled_bit (has_target t ps) (d t) (has_target t ms) (desired-markers t))

  -- A round that finds exactly the desired markers calls Slack no more.
  pub settled_quiet :
      ((t : ReactionTarget)
        → has_target t (present messages) ≡ desired eligible o key thread messages t)
      → calls eligible o key thread messages ≡ []
  unfolding calls
  settled_quiet h =
      rw
        (
          removals_none (desired eligible o key thread messages) (present messages)
              (λ t m. sym (h t) ∙ m),
          additions_none (desired eligible o key thread messages) (present messages)
              (success_target eligible o thread messages
                ∷ tracking_target eligible o key
                ∷ failure_target eligible o thread
                ∷ [])
              (λ t m. h t ∙ m),
        )
        refl
