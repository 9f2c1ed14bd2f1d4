-- ===== src/Config/Settings.antt =====
-- internal/config/config.go: what the other parts may rely on.
use slackbot_hubspot.Base.{
  ◌≡◌, refl, String, Bool, true, false, not, ◌||◌, Option, List, is_set, arith,
}
use slackbot_hubspot.Base.Texts.{trim_space}
use slackbot_hubspot.Domain.{
  ◌>>=◌, is_nonpositive, lease_lost, not_found, no_work, invalid, Result, ok, err,
}
use slackbot_hubspot.Render.Summary.{SummaryPart, compile_summary}
use slackbot_hubspot.Config.{
  Config, WorkerConfig, is_bad_worker, in_section, three_seconds, MediaType, less, refuse_if,
  check_server, check_identity, check_worker, check_sync, media_names, check_config,
}

-- What a chain of checks that succeeds has passed.
passed :
    {A B : Type 0} (r : Result A) (f : A → Result B) (b : B)
    → ◌>>=◌ r f ≡ ok b
    → (a : A) × (r ≡ ok a) × (f a ≡ ok b)
passed (ok a) f b h = (a, refl, h)
passed (err e) f b h = ground (arith, h)

compiled :
    {A : Type 0} (name : String) (r : Result A) (a : A)
    → in_section name r ≡ ok a
    → (b : A) × (r ≡ ok b)
compiled name (ok b) a h = (b, refl)
compiled name (err (invalid m)) a h = ground (arith, h)
compiled name (err lease_lost) a h = ground (arith, h)
compiled name (err not_found) a h = ground (arith, h)
compiled name (err no_work) a h = ground (arith, h)

unrefused :
    (bad : Bool) (message : String) (u : Unit {0}) → refuse_if bad message ≡ ok u → bad ≡ false
unrefused false message u h = refl
unrefused true message u h = ground (arith, h)

neither : (a b : Bool) → (a || b) ≡ false → (a ≡ false) × (b ≡ false)
neither false b h = (refl, h)
neither true b h = ground (arith, h)

-- Settings that pass have a positive backoff, a bound on it no smaller than it, and leases of at
-- least three seconds.
worker_passed :
    (driver : String) (w : WorkerConfig) (u : Unit {0})
    → check_worker driver w ≡ ok u
    → (is_nonpositive w.backoff_base ≡ false)
      × (less w.backoff_max w.backoff_base ≡ false)
      × (less w.lease_duration three_seconds ≡ false)
unfolding check_worker
worker_passed driver w u h =
    let (v, first, rest) = passed (refuse_if (is_bad_worker w) _) _ u h in
    let (r1, a) = neither _ _ (unrefused (is_bad_worker w) _ v first) in
    let (r2, b) = neither _ _ r1 in
    let (r3, c) = neither _ _ r2 in
    let (r4, leased) = neither _ _ r3 in
    let (r5, d) = neither _ _ r4 in
    let (r6, e) = neither _ _ r5 in
    let (r7, f) = neither _ _ r6 in
    let (based, bounded) = neither _ _ r7 in (based, bounded, leased)

-- A configuration that is accepted has such settings, and its template compiles.
check_config_lem :
    (media : String → Option MediaType) (is_uint : String → Bool) (c d : Config)
    → check_config media is_uint c ≡ ok d
    → ((is_nonpositive c.worker.backoff_base ≡ false)
        × (less c.worker.backoff_max c.worker.backoff_base ≡ false)
        × (less c.worker.lease_duration three_seconds ≡ false))
      × ((parts : List SummaryPart) × (compile_summary c.summary_template ≡ ok parts))
unfolding check_config
check_config_lem media is_uint c d h =
    let (u1, h1, r1) = passed (check_server c.server) _ d h in
    let (u2, h2, r2) = passed (check_identity is_uint c) _ d r1 in
    let (u3, h3, r3) = passed (check_worker c.driver c.worker) _ d r2 in
    let (u4, h4, r4) = passed (check_sync c.sync) _ d r3 in
    let (u5, h5, r5) = passed (media_names media is_uint c.sync.allowed_mime_types) _ d r4 in
    let (u6, h6, r6) = passed (refuse_if (not (is_set (trim_space c.summary_template))) _) _ d r5 in
    let (u7, h7, r7) =
      passed (in_section "summary_template: " (compile_summary c.summary_template)) _ d r6 in
    (
      worker_passed c.driver c.worker u3 h3,
      compiled "summary_template: " (compile_summary c.summary_template) u7 h7,
    )
