-- ===== src/Worker/Copying/Outcomes.antt =====
-- internal/worker/worker.go, `reconcile`: what the loop over the files tells the completion.
use mathlib.Core.List.{Memᴰ}
use slackbot_hubspot.Base.{
  ℕ, ◌+◌, ◌≡◌, ◌⊎◌, inl, inr, refl, String, true, false, not, ◌||◌, List, [], ◌∷◌, ◌++◌, ltb,
  nat_beq, if◌then◌else◌, arith, length, length-append, subst, if_rule, eq_iff,
}
use slackbot_hubspot.Base.Bytes.{utf8, bytes, starts_with}
use slackbot_hubspot.Domain.{Bytes, Lease, is_empty, is_zero_time}
use slackbot_hubspot.Domain.Remote.{Fault, Answer, answered, failed}
use slackbot_hubspot.Store.Database.{Db}
use slackbot_hubspot.Worker.Delivery.{is_lease_lost, is_canceled}
use slackbot_hubspot.Worker.Copying.{
  Setup, Attempt, Attachment, Progress, no_progress, is_seen, skipped, synced, unsynced, left_out,
  came_to, copy_one, then_copy, copy_files,
}

-- The number of entries whose status starts with a text.
unfoldable pub count : Bytes → List (String × Attachment) → ℕ
count text [] = 0
count text ((id, a) ∷ as') =
    let rest = count text as' in if starts_with text a.status then rest + 1 else rest

unfoldable pub failures : List (String × Attachment) → ℕ
failures as' = count (bytes "not synchronized: ") as'

-- The number of entries that have a link.
unfoldable pub links : List (String × Attachment) → ℕ
links [] = 0
links ((id, a) ∷ as') = let rest = links as' in if is_empty a.url then rest else rest + 1

module _ (s : Setup) (lease : Lease) where
  record IsTold (p : Progress) : Type 0 where
    pub failing : p.partial ≡ failures p.attachments
    pub linked : length p.file_ids ≡ links p.attachments
    pub retried :
        (is_zero_time p.retry_at ≡ true)
        ⊎ ((ltb lease.thread.attempts s.policy.max_attempts ≡ true) × (nat_beq p.partial 0 ≡ false))

  no_progress-IsTold : IsTold no_progress
  unfolding failures links count
  no_progress-IsTold = record { failing = refl; linked = refl; retried = inl refl }

  skipped-IsTold :
      (id : String) (p : Progress)
      → IsTold p
      → IsTold (record p { attachments = (id, skipped) ∷ p.attachments })
  unfolding failures links count bytes utf8
  skipped-IsTold id p h = record { failing = h.failing; linked = h.linked; retried = h.retried }

  synced-IsTold :
      (id hubspot_id : String) (p : Progress)
      → IsTold p
      → IsTold (record p {
        attachments = (id, synced s.account_id hubspot_id) ∷ p.attachments;
        file_ids = p.file_ids ++ hubspot_id ∷ [];
      })
  unfolding failures links count bytes utf8 synced
  synced-IsTold id hubspot_id p h = record {
    failing = h.failing;
    linked = omega (arith, length-append p.file_ids (hubspot_id ∷ []), h.linked);
    retried = h.retried;
  }

  left_out-IsTold :
      (id : String) (x : Attempt) (fault : Fault) (p : Progress)
      → IsTold p
      → IsTold (left_out s lease id x fault p)
  unfolding failures links count bytes utf8 left_out unsynced
  left_out-IsTold id x fault p h = record {
    failing = omega (arith, h.failing);
    linked = h.linked;
    retried = ground (arith, h.retried);
  }

  -- `P` of the progress that comes back, if one does.
  abbrev OfProgress : (Progress → Type 0) → Answer Progress × Db → Type 0
  OfProgress P (answered p, db) = P p
  OfProgress P (failed e, db) = Unit {0}

  came_to-IsTold :
      (id : String) (x : Attempt) (p : Progress) (r : Answer String × Db)
      → IsTold p
      → OfProgress IsTold (came_to s lease id x p r)
  unfolding came_to
  came_to-IsTold id x p (answered hubspot_id, db) h = synced-IsTold id hubspot_id p h
  came_to-IsTold id x p (failed fault, db) h =
      if_rule (OfProgress IsTold) (is_lease_lost fault || is_canceled fault) _ _ (λ _. tt)
        (λ _. left_out-IsTold id x fault p h)

  copy_one-IsTold :
      (attempts : String → Attempt) (id : String) (p : Progress) (db : Db)
      → IsTold p
      → OfProgress IsTold (copy_one s lease attempts id p db)
  unfolding copy_one
  copy_one-IsTold attempts id p db h =
      if_rule (OfProgress IsTold) (is_seen id p.attachments) _ _ (λ _. h)
        (λ _.
          if_rule (OfProgress IsTold) (not s.attachments) _ _ (λ _. skipped-IsTold id p h)
            (λ _. came_to-IsTold id (attempts id) p _ h))

  then_copy-keeps :
      (P Q : Progress → Type 0) (rest : Progress → Db → Answer Progress × Db)
      → ((p : Progress) (db : Db) → P p → OfProgress Q (rest p db))
      → (r : Answer Progress × Db) → OfProgress P r
      → OfProgress Q (then_copy s lease rest r)
  then_copy-keeps P Q rest step (answered p, db) h = step p db h
  then_copy-keeps P Q rest step (failed e, db) h = tt

  -- What each turn keeps, the loop keeps.
  copy_files-keeps :
      (P : Progress → Type 0) (attempts : String → Attempt)
      → ((id : String) (p : Progress) (db : Db)
          → P p
          → OfProgress P (copy_one s lease attempts id p db))
      → (ids : List String) (p : Progress) (db : Db) → P p
      → OfProgress P (copy_files s lease attempts ids p db)
  unfolding copy_files
  copy_files-keeps P attempts turn [] p db h = h
  copy_files-keeps P attempts turn (id ∷ ids) p db h =
      then_copy-keeps P P (copy_files s lease attempts ids) (copy_files-keeps P attempts turn ids)
        (copy_one s lease attempts id p db) (turn id p db h)

  came_to-is_seen :
      (seen id : String) (x : Attempt) (p : Progress) (r : Answer String × Db)
      → (is_seen seen p.attachments ≡ true) ⊎ (seen ≡ id)
      → OfProgress (λ q. is_seen seen q.attachments ≡ true) (came_to s lease id x p r)
  unfolding came_to left_out
  came_to-is_seen seen id x p (answered hubspot_id, db) h = ground (arith, h, eq_iff id seen)
  came_to-is_seen seen id x p (failed fault, db) h =
      if_rule (OfProgress (λ q. is_seen seen q.attachments ≡ true))
        (is_lease_lost fault || is_canceled fault) _ _ (λ _. tt)
        (λ _. ground (arith, h, eq_iff id seen))

  -- A turn leaves an entry for its file, and takes none away.
  copy_one-is_seen :
      (attempts : String → Attempt) (seen id : String) (p : Progress) (db : Db)
      → (is_seen seen p.attachments ≡ true) ⊎ (seen ≡ id)
      → OfProgress (λ q. is_seen seen q.attachments ≡ true) (copy_one s lease attempts id p db)
  unfolding copy_one
  copy_one-is_seen attempts seen id p db h =
      let P = λ (q : Progress). is_seen seen q.attachments ≡ true in
      if_rule (OfProgress P) (is_seen id p.attachments) _ _ (λ here. ground (arith, h, here))
        (λ _.
          if_rule (OfProgress P) (not s.attachments) _ _ (λ _. ground (arith, h, eq_iff id seen))
            (λ _. came_to-is_seen seen id (attempts id) p _ h))

  OfProgress-any : (r : Answer Progress × Db) → OfProgress (λ p. Unit {0}) r
  OfProgress-any (answered p, db) = tt
  OfProgress-any (failed e, db) = tt

  copy_files-is_seen :
      (attempts : String → Attempt) (seen : String) (ids : List String) (p : Progress) (db : Db)
      → Memᴰ seen ids
      → OfProgress (λ q. is_seen seen q.attachments ≡ true) (copy_files s lease attempts ids p db)
  unfolding copy_files
  copy_files-is_seen attempts seen [] p db m = elim m [ ]
  copy_files-is_seen attempts seen (id ∷ ids) p db (Memᴰ.head e) =
      let P = λ (q : Progress). is_seen seen q.attachments ≡ true in
      then_copy-keeps P P (copy_files s lease attempts ids)
        (copy_files-keeps P attempts (λ i q d h. copy_one-is_seen attempts seen i q d (inl h)) ids)
        (copy_one s lease attempts id p db) (copy_one-is_seen attempts seen id p db (inr e))
  copy_files-is_seen attempts seen (id ∷ ids) p db (Memᴰ.tail m) =
      let P = λ (q : Progress). is_seen seen q.attachments ≡ true in
      then_copy-keeps (λ q. Unit {0}) P (copy_files s lease attempts ids)
        (λ q d h. copy_files-is_seen attempts seen ids q d m) (copy_one s lease attempts id p db)
        (OfProgress-any (copy_one s lease attempts id p db))

  -- If the loop over the files comes to its end, every file has an entry, the files that are
  -- counted as partial are those whose entries say so, there are as many IDs of files for the note,
  -- repeated ones counted each time, as entries with a link, and a retry is asked for only if a file
  -- was left out and attempts are left.
  pub files_accounted :
      (attempts : String → Attempt) (ids : List String) (db end : Db) (p : Progress)
      → copy_files s lease attempts ids no_progress db ≡ (answered p, end)
      → ((id : String) → Memᴰ id ids → is_seen id p.attachments ≡ true)
        × (p.partial ≡ failures p.attachments)
        × (length p.file_ids ≡ links p.attachments)
        × ((is_zero_time p.retry_at ≡ true)
            ⊎ ((ltb lease.thread.attempts s.policy.max_attempts ≡ true)
                × (nat_beq p.partial 0 ≡ false)))
  files_accounted attempts ids db end p e =
      let told = subst (OfProgress IsTold) e (
        copy_files-keeps IsTold attempts (copy_one-IsTold attempts) ids no_progress db
          no_progress-IsTold) in
      (
        (λ id m.
            subst (OfProgress (λ q. is_seen id q.attachments ≡ true)) e
              (copy_files-is_seen attempts id ids no_progress db m)),
        told.failing,
        told.linked,
        told.retried,
      )
