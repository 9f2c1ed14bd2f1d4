-- ===== src/Worker/Attachments/Gates.antt =====
-- internal/worker/worker.go, `copyFile`: what has been checked of a file that is sent to HubSpot.
use mathlib.Core.List.{Memᴰ}
use slackbot_hubspot.Base.{
  ℕ, ◌⊎◌, sym, subst, ◌==◌, ◌≡◌, ◌≤◌, inl, inr, refl, String, Bool, true, false, Option, none, some,
  List, [], ◌∷◌, arith, Bool-cases, ap, eq_iff, is_set,
}
use slackbot_hubspot.Domain.{ℤ, pos, negsuc}
use slackbot_hubspot.Domain.Remote.{File, Fault, Answer, answered, failed}
use slackbot_hubspot.Worker.Attachments.{
  Limits, Copying, Transfer, searches, downloads, uploads, Step, unless, has_text, is_allowed,
  is_oversized, is_incomplete, send, check_bytes, download, check_file, check_found, copy_file,
}

-- Whether a file was sent.
abbrev pub sends : List Transfer → Bool
sends [] = false
sends (uploads ∷ _) = true
sends (_ ∷ ts) = sends ts

unless-sends :
    (o : Option Fault) (done : List Transfer) (next : Step)
    → sends done ≡ false
    → sends (unless o done next).0 ≡ true
    → (o ≡ none) × (sends next.0 ≡ true)
unless-sends none done next q h = (refl, h)
unless-sends (some e) done next q h = ground (arith, q, h)

module _ (l : Limits) (c : Copying) where
  send-sends : sends (send l c).0 ≡ true → c.third ≡ none
  send-sends h =
      let rest =
        unless-sends c.rewound (searches ∷ downloads ∷ [])
          (unless c.third (searches ∷ downloads ∷ [])
            (searches ∷ downloads ∷ uploads ∷ [], c.uploaded))
          refl h in
      (unless-sends c.third (searches ∷ downloads ∷ [])
        (searches ∷ downloads ∷ uploads ∷ [], c.uploaded) refl rest.1).0

  check_bytes-sends :
      (size : ℤ) (a : Answer ℕ)
      → sends (check_bytes l c size a).0 ≡ true
      → (n : ℕ) × (a ≡ answered n)
        × (n ≤ l.max_attachment_bytes)
        × (is_incomplete size n ≡ false)
        × (c.third ≡ none)
  check_bytes-sends size (failed e) h = ground (arith, h)
  check_bytes-sends size (answered n) h =
      (n, refl, ground (arith, h), ground (arith, h), send-sends (ground (arith, h)))

  download-sends :
      (size : ℤ)
      → sends (download l c size).0 ≡ true
      → (c.second ≡ none) × (sends (check_bytes l c size c.copied).0 ≡ true)
  download-sends size h =
      let done = searches ∷ downloads ∷ [] in
      let bytes = check_bytes l c size c.copied in
      let second =
        unless-sends c.second (searches ∷ []) (unless c.opened done (unless c.temp done bytes)) refl
          h in
      let opened = unless-sends c.opened done (unless c.temp done bytes) refl second.1 in
      (second.0, (unless-sends c.temp done bytes refl opened.1).1)

  check_file-sends :
      (a : Answer File)
      → sends (check_file l c a).0 ≡ true
      → (file : File) × (a ≡ answered file)
        × (is_oversized l file.size ≡ false)
        × (is_allowed l (c.media_type file.mime) ≡ true)
        × (sends (download l c file.size).0 ≡ true)
  check_file-sends (failed e) h = ground (arith, h)
  check_file-sends (answered file) h =
      (file, refl, ground (arith, h), ground (arith, h), ground (arith, h))

  check_found-sends :
      (a : Answer String)
      → sends (check_found l c a).0 ≡ true
      → (a ≡ answered "") × (sends (check_file l c c.info).0 ≡ true)
  check_found-sends (failed e) h = ground (arith, h)
  check_found-sends (answered id) h = elim (Bool-cases (is_set id)) [
    | inl set ↦ ground (arith, h)
    | inr unset ↦ (ap answered (set-false id unset), ground (arith, h))
  ]
    where
      set-false : (s : String) → is_set s ≡ false → s ≡ ""
      set-false s q = ground (arith, eq_iff s "")

-- What has been found of a file that is sent, one by one.
pub record IsChecked (l : Limits) (c : Copying) : Type 0 where
  pub file : File
  pub size : ℕ
  pub media : String
  pub received : ℕ
  pub unknown : c.found ≡ answered ""
  pub told : c.info ≡ answered file
  pub announced : file.size ≡ pos size
  pub within : size ≤ l.max_attachment_bytes
  pub typed : c.media_type file.mime ≡ some media
  pub listed : Memᴰ media l.allowed_mime_types
  pub came : c.copied ≡ answered received
  pub bounded : received ≤ l.max_attachment_bytes
  pub full : (size ≡ 0) ⊎ (received ≡ size)
  pub valid : (c.first ≡ none) × (c.second ≡ none) × (c.third ≡ none)

not-is_oversized :
    (l : Limits) (size : ℤ)
    → is_oversized l size ≡ false
    → (n : ℕ) × (size ≡ pos n) × (n ≤ l.max_attachment_bytes)
not-is_oversized l (pos n) h = (n, refl, ground (arith, h))
not-is_oversized l (negsuc n) h = ground (arith, h)

has_text-Memᴰ : (s : String) (ts : List String) → has_text s ts ≡ true → Memᴰ s ts
has_text-Memᴰ s [] h = ground (arith, h)
has_text-Memᴰ s (t ∷ ts) h = elim (Bool-cases (t == s)) [
  | inl same ↦ Memᴰ.head (sym ((eq_iff t s).0 same))
  | inr differ ↦ Memᴰ.tail (has_text-Memᴰ s ts (ground (arith, h, differ)))
]

is_allowed-listed :
    (l : Limits) (o : Option String)
    → is_allowed l o ≡ true
    → (media : String) × (o ≡ some media) × Memᴰ media l.allowed_mime_types
is_allowed-listed l none h = ground (arith, h)
is_allowed-listed l (some media) h = (media, refl, has_text-Memᴰ media l.allowed_mime_types h)

not-is_incomplete : (n bytes : ℕ) → is_incomplete (pos n) bytes ≡ false → (n ≡ 0) ⊎ (bytes ≡ n)
not-is_incomplete n bytes h = ground (arith, h)

-- A file is sent to HubSpot only after HubSpot has been asked for it and knew none, the size that
-- Slack announced was within the limit, the media type of what Slack calls its MIME type was one of
-- those allowed, the bytes that came were no more than the limit, and as many as announced if more
-- than 0 were, and the lease was found valid at each of the three checks.
pub sent_file-IsChecked :
    (l : Limits) (c : Copying) → sends (copy_file l c).0 ≡ true → IsChecked l c
unfolding copy_file
sent_file-IsChecked l c h =
    let first = unless-sends c.first [] (check_found l c c.found) refl h in
    let found = check_found-sends l c c.found first.1 in
    let info = check_file-sends l c c.info found.1 in
    let second = download-sends l c info.0.size info.4 in
    let bytes = check_bytes-sends l c info.0.size c.copied second.1 in
    let sized = not-is_oversized l info.0.size info.2 in
    let allowed = is_allowed-listed l (c.media_type info.0.mime) info.3 in
    record {
      file = info.0;
      size = sized.0;
      media = allowed.0;
      received = bytes.0;
      unknown = found.0;
      told = info.1;
      announced = sized.1;
      within = sized.2;
      typed = allowed.1;
      listed = allowed.2;
      came = bytes.1;
      bounded = bytes.2;
      full =
          not-is_incomplete sized.0 bytes.0
            (subst (λ z. is_incomplete z bytes.0 ≡ false) sized.1 bytes.3);
      valid = (first.0, second.0, bytes.4);
    }
