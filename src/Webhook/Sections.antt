-- ===== src/Webhook/Sections.antt =====
-- What the webhook reports of the replicas, the remote-write targets and the backup of a cluster.
use tsdb_operator.Base.{
  ℕ, zero, suc, ◌+◌, some, List, [], ◌∷◌, true, false, ◌==◌, eq_iff, ◌≡◌, ◌↔◌, refl, ap, ◌∙◌, arith,
  Bool-cases, Option-cases, inl, inr,
}
use tsdb_operator.Base.Int.{ℤ, pos, ltb_ℤ, ◌≤ℤ◌}
use tsdb_operator.Types.{S3BackupSpec, RemoteWriteSpec}
use tsdb_operator.Webhook.{
  Parsers, child, number, FieldError, invalid, when, url_error, replicas_errors,
  remote_write_errors, schedule_errors, backup_errors,
}
use tsdb_operator.Webhook.Faults.{
  nth, Contains, Contains-append, Contains-when, IsBackupFault, no_bucket, bad_schedule,
}

pub replicas-reported :
    (r : ℤ) (e : FieldError)
    → Contains e (replicas_errors r) ↔ (
        (¬ (pos 1 ≤ℤ r))
        × (invalid (child "spec" ∷ child "replicas" ∷ []) (number r) "must be >= 1" ≡ e))
unfolding replicas_errors
replicas-reported r e = (
  λ h. let (few, its) = (Contains-when e _ (ltb_ℤ r (pos 1))).0 h in (λ k. ground arith, its),
  λ (few, its). (Contains-when e _ (ltb_ℤ r (pos 1))).1 (ground arith, its),
)

-- An entry without a URL, counted from `i`.
abbrev pub NoUrl : ℕ → List RemoteWriteSpec → FieldError → Type 0
NoUrl i rws e =
    (k : ℕ) × (rw : RemoteWriteSpec) × (nth k rws ≡ some rw)
    × (rw.url ≡ "")
    × (url_error (i + k) ≡ e)

later_NoUrl :
    (i : ℕ) (x : RemoteWriteSpec) (rws : List RemoteWriteSpec) (e : FieldError)
    → NoUrl (i + 1) rws e
    → NoUrl i (x ∷ rws) e
later_NoUrl i x rws e (k, rw, there, blank, its) =
    let place : i + suc k ≡ i + 1 + k = omega arith in
    (suc k, rw, there, blank, ap url_error place ∙ its)

pub remote_write-NoUrl :
    (i : ℕ) (rws : List RemoteWriteSpec) (e : FieldError)
    → Contains e (remote_write_errors i rws)
    → NoUrl i rws e
unfolding remote_write_errors
remote_write-NoUrl i [] e h = absurd h
remote_write-NoUrl i (x ∷ rws) e h =
    elim ((Contains-append e (when (x.url == "") (url_error i ∷ []))
        (remote_write_errors (i + 1) rws)).0
      h) [
        | inl p ↦
            let (blank, its) = (Contains-when e (url_error i) (x.url == "")).0 p in
            let place : i + 0 ≡ i = omega arith in
            (0, x, refl, (eq_iff x.url "").0 blank, ap url_error place ∙ its)
        | inr q ↦ later_NoUrl i x rws e (remote_write-NoUrl (i + 1) rws e q)
      ]

pub NoUrl-reported :
    (rws : List RemoteWriteSpec) (i k : ℕ) (rw : RemoteWriteSpec) (e : FieldError)
    → nth k rws ≡ some rw
    → rw.url ≡ ""
    → url_error (i + k) ≡ e
    → Contains e (remote_write_errors i rws)
unfolding remote_write_errors
NoUrl-reported [] i k rw e there blank its = absurd cc
NoUrl-reported (x ∷ rws) i zero rw e there blank its =
    let place : i ≡ i + 0 = omega arith in
    let same : x ≡ rw = cc in
    (Contains-append e (when (x.url == "") (url_error i ∷ [])) (remote_write_errors (i + 1) rws)).1
      (inl (
        (Contains-when e (url_error i) (x.url == "")).1
          ((eq_iff x.url "").1 (ap (λ r. r.url) same ∙ blank), ap url_error place ∙ its)))
NoUrl-reported (x ∷ rws) i (suc k) rw e there blank its =
    let place : i + 1 + k ≡ i + suc k = omega arith in
    (Contains-append e (when (x.url == "") (url_error i ∷ [])) (remote_write_errors (i + 1) rws)).1
      (inr (NoUrl-reported rws (i + 1) k rw e there blank (ap url_error place ∙ its)))

module _ (parsers : Parsers) where
  schedule-reported :
      (b : S3BackupSpec) (e : FieldError)
      → Contains e (schedule_errors parsers b.schedule)
      → IsBackupFault parsers b e
  unfolding schedule_errors
  schedule-reported b e h = elim (Bool-cases (b.schedule == "")) [
    | inl blank ↦ absurd (rw blank at h)
    | inr given ↦ elim (Option-cases (parsers.cron_error b.schedule)) [
      | inl fine ↦ absurd (rw (given, fine) at h)
      | inr (why, bad) ↦ elim (rw (given, bad) at h) [
        | inl its ↦ bad_schedule why (ground (arith, eq_iff b.schedule "")) bad its
        | inr none_more ↦ absurd none_more
      ]
    ]
  ]

  pub backup-reported :
      (b : S3BackupSpec) (e : FieldError)
      → Contains e (backup_errors parsers b)
      → (b.enabled ≡ true) × IsBackupFault parsers b e
  unfolding backup_errors
  backup-reported b e h = elim (Bool-cases b.enabled) [
    | inr off ↦ absurd (rw off at h)
    | inl on ↦ (
      on,
      elim ((Contains-append e (when (b.bucket == "") _) (schedule_errors parsers b.schedule)).0
          (rw on at h)) [
            | inl p ↦
                let (blank, its) = (Contains-when e _ (b.bucket == "")).0 p in
                no_bucket ((eq_iff b.bucket "").0 blank) its
            | inr q ↦ schedule-reported b e q
          ],
    )
  ]

  pub backup_fault :
      (b : S3BackupSpec) (e : FieldError)
      → b.enabled ≡ true
      → IsBackupFault parsers b e
      → Contains e (backup_errors parsers b)
  unfolding backup_errors schedule_errors
  backup_fault b e on (no_bucket blank its) = rw on (
      (Contains-append e (when (b.bucket == "") _) (schedule_errors parsers b.schedule)).1
        (inl ((Contains-when e _ (b.bucket == "")).1 ((eq_iff b.bucket "").1 blank, its))))
  backup_fault b e on (bad_schedule why given bad its) =
      let is_given : (b.schedule == "") ≡ false = ground (arith, eq_iff b.schedule "") in
      rw on (
        (Contains-append e (when (b.bucket == "") _) (schedule_errors parsers b.schedule)).1
          (inr (rw (is_given, bad) (inl its))))
