-- ===== src/Store/Keys/Names.antt =====
-- internal/store/records.go and notifications.go: the names of the records of each kind.
use slackbot_hubspot.Base.{
  ℕ, ◌+◌, ◌*◌, ◌/◌, ◌%◌, ◌≡◌, ◌≢◌, ap, sym, String, List, [], ◌∷◌, ◌++◌, arith,
}
use slackbot_hubspot.Base.Bytes.{bytes, utf8}
use slackbot_hubspot.Domain.{ThreadKey, NotificationId}
use slackbot_hubspot.Store.Keys.{
  base64, digit, component, slash, EventKey, ActionKey, UploadKey, thread_path, upload_path,
  event_path, action_path, notification_path,
}
use slackbot_hubspot.Store.Keys.Encoding.{
  AreBytes, then_byte, base64-injective, digit_first, after_head, middle, last_two,
}
use slackbot_hubspot.Store.Keys.Texts.{bytes-AreBytes, bytes-injective}

same_prefix : (p xs ys : List ℕ) → p ++ xs ≡ p ++ ys → xs ≡ ys
same_prefix [] xs ys h = h
same_prefix (a ∷ p) xs ys h = same_prefix p xs ys (after_head a a (p ++ xs) (p ++ ys) h).1

-- A component, and what stands behind the slash after it.
component-injective :
    (s t : String) (r q : List ℕ)
    → component s ++ slash ∷ r ≡ component t ++ slash ∷ q
    → (s ≡ t) × (r ≡ q)
unfolding component
component-injective s t r q h =
    let (same, rest) =
      base64-injective (bytes s) (bytes t) r q (bytes-AreBytes s) (bytes-AreBytes t) h in
    (bytes-injective s t same, rest)

last_component : (s t : String) → component s ≡ component t → s ≡ t
last_component s t h = (component-injective s t [] [] (ap (λ l. l ++ slash ∷ []) h)).0

two_components :
    (s t u v : String)
    → component s ++ slash ∷ component u ≡ component t ++ slash ∷ component v
    → (s ≡ t) × (u ≡ v)
two_components s t u v h =
    let (first, rest) = component-injective s t (component u) (component v) h in
    (first, last_component u v rest)

three_components :
    (s t u v w x : String)
    → component s ++ slash ∷ (component u ++ slash ∷ component w)
      ≡ component t ++ slash ∷ (component v ++ slash ∷ component x)
    → (s ≡ t) × (u ≡ v) × (w ≡ x)
three_components s t u v w x h =
    let (first, rest) =
      component-injective s t (component u ++ slash ∷ component w)
        (component v ++ slash ∷ component x) h in
    let (second, third) = two_components u v w x rest in (first, second, third)

pub thread_path-injective : (a b : ThreadKey) → thread_path a ≡ thread_path b → a ≡ b
unfolding thread_path
thread_path-injective a b h =
    let (w, c, t) =
      three_components a.workspace_id b.workspace_id a.channel_id b.channel_id a.thread_ts
        b.thread_ts (same_prefix (bytes "threads/") _ _ h) in
    cc (w, c, t)

pub upload_path-injective : (a b : UploadKey) → upload_path a ≡ upload_path b → a ≡ b
unfolding upload_path
upload_path-injective a b h =
    let (w, f) =
      two_components a.workspace b.workspace a.file b.file (same_prefix (bytes "uploads/") _ _ h) in
    cc (w, f)

pub event_path-injective : (a b : EventKey) → event_path a ≡ event_path b → a ≡ b
unfolding event_path
event_path-injective a b h =
    let (w, f) =
      two_components a.workspace b.workspace a.event b.event
        (same_prefix (bytes "events/") _ _ h) in
    cc (w, f)

pub action_path-injective : (a b : ActionKey) → action_path a ≡ action_path b → a ≡ b
unfolding action_path
action_path-injective a b h =
    let (w, c, t) =
      three_components a.workspace b.workspace a.channel b.channel a.message b.message
        (same_prefix (bytes "actions/") _ _ h) in
    cc (w, c, t)

-- Two bytes of which the second is a slash are no beginning of a component and its slash.
one_digit :
    (xs r t : List ℕ) (p : ℕ) → AreBytes xs → p ≢ slash → base64 xs ++ slash ∷ r ≢ p ∷ slash ∷ t
unfolding base64
one_digit [] r t p h n e = n (sym (after_head slash p r (slash ∷ t) e).0)
one_digit (a ∷ []) r t p h n e =
    digit_first (a % 4 * 16) _ t (last_two a) (after_head (digit (a / 4)) p _ _ e).1
one_digit (a ∷ b ∷ []) r t p (then_byte _ (then_byte k h)) n e =
    digit_first (a % 4 * 16 + b / 16) _ t (middle a b k) (after_head (digit (a / 4)) p _ _ e).1
one_digit (a ∷ b ∷ c ∷ xs) r t p (then_byte _ (then_byte k h)) n e =
    digit_first (a % 4 * 16 + b / 16) _ t (middle a b k) (after_head (digit (a / 4)) p _ _ e).1

-- Four bytes, none a slash, before a text that is no component and its slash.
four_digits :
    (p q u v : ℕ) (w r : List ℕ)
    → (p ≢ slash) × (q ≢ slash) × (u ≢ slash) × (v ≢ slash)
    → ((ys : List ℕ) → AreBytes ys → base64 ys ++ slash ∷ r ≢ w)
    → (xs : List ℕ) → AreBytes xs
    → base64 xs ++ slash ∷ r ≢ p ∷ q ∷ u ∷ v ∷ w
unfolding base64
four_digits p q u v w r (np, nq, nu, nv) f [] h e = np (sym (after_head slash p _ _ e).0)
four_digits p q u v w r (np, nq, nu, nv) f (a ∷ []) h e =
    let e1 = (after_head (digit (a / 4)) p _ _ e).1 in
    let e2 = (after_head (digit (a % 4 * 16)) q _ _ e1).1 in nu (sym (after_head slash u _ _ e2).0)
four_digits p q u v w r (np, nq, nu, nv) f (a ∷ b ∷ []) h e =
    let e1 = (after_head (digit (a / 4)) p _ _ e).1 in
    let e2 = (after_head (digit (a % 4 * 16 + b / 16)) q _ _ e1).1 in
    let e3 = (after_head (digit (b % 16 * 4)) u _ _ e2).1 in nv (sym (after_head slash v _ _ e3).0)
four_digits p q u v w r (np, nq, nu, nv) f (a ∷ b ∷ c ∷ xs)
      (then_byte _ (then_byte _ (then_byte _ h))) e =
    let e1 = (after_head (digit (a / 4)) p _ _ e).1 in
    let e2 = (after_head (digit (a % 4 * 16 + b / 16)) q _ _ e1).1 in
    let e3 = (after_head (digit (b % 16 * 4 + c / 64)) u _ _ e2).1 in
    f xs h (after_head (digit (c % 64)) v _ _ e3).1

-- No component is written "reactions".
not_reactions : (s : String) (r t : List ℕ) → component s ++ slash ∷ r ≢ bytes "reactions/" ++ t
unfolding component bytes utf8
not_reactions s r t =
    four_digits b'r' b'e' b'a' b'c' _ r (ground arith, ground arith, ground arith, ground arith)
      (four_digits b't' b'i' b'o' b'n' _ r (ground arith, ground arith, ground arith, ground arith)
        (λ ys h. one_digit ys r t b's' h (ground arith)))
      (bytes s) (bytes-AreBytes s)

pub notification_path-injective :
    (a b : NotificationId) → notification_path a ≡ notification_path b → a ≡ b
unfolding notification_path
notification_path-injective (NotificationId.confirmation w e) (NotificationId.confirmation v f) h =
    let (p, q) = two_components w v e f (same_prefix (bytes "notifications/") _ _ h) in cc (p, q)
notification_path-injective (NotificationId.confirmation w e) (NotificationId.reaction_job t) h =
    absurd (not_reactions w _ _ (same_prefix (bytes "notifications/") _ _ h))
notification_path-injective (NotificationId.reaction_job t) (NotificationId.confirmation w e) h =
    absurd (not_reactions w _ _ (sym (same_prefix (bytes "notifications/") _ _ h)))
notification_path-injective (NotificationId.reaction_job t) (NotificationId.reaction_job u) h =
    ap NotificationId.reaction_job (
      bytes-injective t u
        (same_prefix (bytes "reactions/") _ _ (same_prefix (bytes "notifications/") _ _ h)))
