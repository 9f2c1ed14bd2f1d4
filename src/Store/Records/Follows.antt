-- ===== src/Store/Records/Follows.antt =====
-- internal/store/records.go: how the thread that a decision writes follows from the one it read.
use slackbot_hubspot.Base.{
  ◌≡◌, refl, subst, Bool, true, false, not, Option, none, some, List, arith, if◌then◌else◌,
}
use slackbot_hubspot.Domain.{
  Bytes, is_empty, ok, ok-injective, Thread, SlackBlock, Command, Kind, Event,
}
use slackbot_hubspot.Store.Rendering.{Rendering}
use slackbot_hubspot.Store.Threads.{IsConsistent, Advances, Advances-trans}
use slackbot_hubspot.Store.Threads.Requests.{
  linked_thread-IsConsistent, messaged_thread-Advances, synced_request-Advances,
  untracked_thread-Advances, resumed_thread-Advances, commanded-Advances,
}
use slackbot_hubspot.Store.Timestamps.{newer}
use slackbot_hubspot.Store.Records.Decisions.{
  Decision, answered, linked_thread, decide_link, decide_message, tracking_command, decide_tracking,
  decide_command, decide_kind, decide,
}

-- Nothing is written and nothing is there; a thread is created; one is left as it was; one is
-- replaced by a successor.
pub data Follows (e : Event) (old : Option Thread) (d : Decision) : Type 0 where
  absent : old ≡ none → d.thread ≡ none → d.changed ≡ false → Follows e old d
  created :
      (u : Thread)
      → old ≡ none
      → d.thread ≡ some u
      → d.changed ≡ true
      → u.key ≡ e.key
      → u.lease_token ≡ ""
      → IsConsistent u
      → Follows e old d
  kept : (t : Thread) → old ≡ some t → d.thread ≡ some t → d.changed ≡ false → Follows e old d
  advanced :
      (t u : Thread)
      → old ≡ some t
      → d.thread ≡ some u
      → d.changed ≡ true
      → Advances t u
      → Follows e old d

abbrev pub Consistent : Option Thread → Type 0
Consistent none = Unit
Consistent (some t) = IsConsistent t

module _ (e : Event) where
  Follows-if :
      (old : Option Thread) (b : Bool) (d₁ d₂ : Decision)
      → (b ≡ true → Follows e old d₁)
      → (b ≡ false → Follows e old d₂)
      → Follows e old (if b then d₁ else d₂)
  Follows-if old true d₁ d₂ f g = f refl
  Follows-if old false d₁ d₂ f g = g refl

  decide_link-Follows :
      (old : Option Thread) (d : Decision) → decide_link e old ≡ ok d → Follows e old d
  unfolding decide_link
  decide_link-Follows none d h =
      created (linked_thread e) refl (ground arith) (ground arith) (unfold linked_thread in refl)
        (unfold linked_thread in refl) (linked_thread-IsConsistent e)
  decide_link-Follows (some t) d h = kept t refl (ground arith) (ground arith)

  decide_message-Follows :
      (old : Option Thread) → Consistent old → Follows e old (decide_message e old)
  unfolding decide_message
  decide_message-Follows none c = absent refl refl refl
  decide_message-Follows (some t) c =
      Follows-if (some t) t.active _ _
        (λ on. advanced t _ refl refl refl (messaged_thread-Advances e t c on))
        (λ off. kept t refl refl refl)

  -- `u` is `t` with the timestamp of the command.
  tracking_command-Follows :
      (command : Command) (t u : Thread)
      → Advances t u
      → Follows e (some t) (tracking_command e command u)
  unfolding tracking_command
  tracking_command-Follows Command.sync t u a =
      Follows-if (some t) u.active _ _
        (λ on.
          advanced t _ refl refl refl
            (Advances-trans a (synced_request-Advances e u a.consistent on)))
        (λ off. advanced t u refl refl refl a)
  tracking_command-Follows Command.untrack t u a =
      Follows-if (some t) u.active _ _
        (λ on.
          advanced t _ refl refl refl
            (Advances-trans a (untracked_thread-Advances e u a.consistent)))
        (λ off. advanced t u refl refl refl a)
  tracking_command-Follows Command.resume t u a =
      Follows-if (some t) u.active _ _ (λ on. advanced t u refl refl refl a)
        (λ off.
          advanced t _ refl refl refl (Advances-trans a (resumed_thread-Advances e u a.consistent)))
  tracking_command-Follows _ t u a = advanced t u refl refl refl a

  decide_tracking-Follows : (t : Thread) → IsConsistent t → Follows e (some t) (decide_tracking e t)
  unfolding decide_tracking
  decide_tracking-Follows t c =
      Follows-if (some t) (not (newer e.message_ts t.last_command_ts)) _ _
        (λ old. kept t refl refl refl)
        (λ new. tracking_command-Follows e.command t _ (commanded-Advances e t c e.message_ts))

module _ (r : Rendering) (e : Event) where
  answered-Follows :
      (old : Option Thread) (reply : Bytes) (blocks : List SlackBlock)
      → Follows e old (answered old reply blocks)
  answered-Follows none reply blocks = absent refl refl refl
  answered-Follows (some t) reply blocks = kept t refl refl refl

  decide_command-Follows :
      (command : Command) (old : Option Thread)
      → Consistent old
      → Follows e old (decide_command r e command old)
  unfolding decide_command
  decide_command-Follows (Command.other name) old c =
      Follows-if e old (is_empty e.reply) _ _ (λ _. answered-Follows old _ _)
        (λ _. answered-Follows old _ _)
  decide_command-Follows Command.sync none c = absent refl refl refl
  decide_command-Follows Command.untrack none c = absent refl refl refl
  decide_command-Follows Command.resume none c = absent refl refl refl
  decide_command-Follows Command.status none c = absent refl refl refl
  decide_command-Follows Command.status (some t) c = kept t refl refl refl
  decide_command-Follows Command.sync (some t) c = decide_tracking-Follows e t c
  decide_command-Follows Command.untrack (some t) c = decide_tracking-Follows e t c
  decide_command-Follows Command.resume (some t) c = decide_tracking-Follows e t c

  decide_kind-Follows :
      (kind : Kind) (old : Option Thread) (d : Decision)
      → Consistent old
      → decide_kind r e kind old ≡ ok d
      → Follows e old d
  decide_kind-Follows Kind.link old d c h = decide_link-Follows e old d h
  decide_kind-Follows Kind.message old d c h =
      subst (Follows e old) (ok-injective h) (decide_message-Follows e old c)
  decide_kind-Follows Kind.command old d c h =
      subst (Follows e old) (ok-injective h) (decide_command-Follows e.command old c)
  decide_kind-Follows Kind.reply old d c h =
      subst (Follows e old) (ok-injective h) (answered-Follows old e.reply e.reply_blocks)
  decide_kind-Follows (Kind.unsupported name) old d c h = cc

  -- Whatever the event, the thread that `Record` writes follows from the one that it read.
  pub decide-Follows :
      (old : Option Thread) (d : Decision)
      → Consistent old
      → decide r e old ≡ ok d
      → Follows e old d
  unfolding decide
  decide-Follows old d c h = decide_kind-Follows e.kind old d c h
