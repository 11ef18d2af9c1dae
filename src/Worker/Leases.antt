-- ===== src/Worker/Leases.antt =====
-- A worker that reports within its lease keeps its job, whatever the other processes do.
use android_package_service.Base.{
  ℕ, ◌+◌, ◌≤◌, String, ◌≡◌, refl, ◌≢◌, inl, inr, false, some, List, [], ◌∷◌, arith, eq_refl, eq_iff,
  find, find-update, find_only, Bool-cases, count-pos, find-some, All, count,
}
use android_package_service.Jobs.{
  Row, running, DownloadJob, KeyFields, has_id, claimable, claimed, claim_next, owned_by, renewed,
  mark_succeeded, mark_failed,
}
use android_package_service.Jobs.Keys.{IsWellFormed, claim_next-IsWellFormed}
use android_package_service.Jobs.Claims.{claim_next_cases}
use android_package_service.Worker.{
  Outcome, produced, all_failed, crashed, Call, enqueues, claims, renews, finishes, finish_job,
  step, run, download_job_stale_result_ignored,
}
use android_package_service.Worker.Terminal.{
  find-enqueue, find-claim_next, find-finish_job, find-renew_lease, step-IsWellFormed,
}

-- The worker holds the job under a lease that lasts to `end` at least.
pub record Holds (lease end : ℕ) (i worker : String) (rows : List Row) : Type 0 where
  pub row : Row
  pub expires : ℕ
  pub found : find (has_id i) rows ≡ some row
  pub active : row.status ≡ running
  pub holder : row.worker ≡ some worker
  pub until : row.lease_expires ≡ some expires
  pub lasts : end ≤ expires
  pub alive : end ≤ row.updated_at + lease

not-claimable-held :
    (lease end now : ℕ) (i worker : String) (rows : List Row) (h : Holds lease end i worker rows)
    → now ≤ end
    → claimable lease now h.row ≡ false
unfolding claimable
not-claimable-held lease end now i worker rows h le = ground arith

-- A claim puts the job under a lease from its time on.
pub claim_next-Holds :
    (lease now : ℕ) (worker : String) (rows : List Row) (j : DownloadJob)
    → IsWellFormed rows
    → (claim_next lease now worker rows).1 ≡ some j
    → Holds lease (now + lease) j.id worker (claim_next lease now worker rows).0
claim_next-Holds lease now worker rows j v h = elim (claim_next_cases lease now worker rows v) [
  | inl (e, _) ↦ absurd (cc)
  | inr (row, n, e) ↦
      let same : row.id ≡ j.id = ground arith in
      rw (e, ← same)
        (record {
          row = claimed lease now worker row;
          expires = now + lease;
          found =
              rw
                (
                  find-update (has_id row.id) (has_id row.id) (claimed lease now worker) rows
                      (λ r. refl),
                  find_only (has_id row.id) rows row (v.ids row.id) n.present (eq_refl row.id),
                )
                (ground (arith, eq_refl row.id));
          active = refl;
          holder = refl;
          until = refl;
          lasts = omega arith;
          alive = omega arith;
        })
]

Holds-found :
    (lease end : ℕ) (i worker : String) (rows rows' : List Row) (h : Holds lease end i worker rows)
    → find (has_id i) rows' ≡ some h.row
    → Holds lease end i worker rows'
Holds-found lease end i worker rows rows' h e = record {
  row = h.row;
  expires = h.expires;
  found = e;
  active = h.active;
  holder = h.holder;
  until = h.until;
  lasts = h.lasts;
  alive = h.alive;
}

-- A call within the lease that is not the holder's own report.
pub record Within (lease end : ℕ) (i worker : String) (c : ℕ × Call) : Type 0 where
  pub started : end ≤ c.0 + lease
  pub early : c.0 ≤ end
  pub no_report : (o : Outcome) → c.1 ≢ finishes i worker o

-- A report that is not the holder's own does not concern the held row.
not-owned_by-other :
    (lease end : ℕ) (i worker : String) (now : ℕ) (j b : String) (o : Outcome) (rows : List Row)
    → Within lease end i worker (now, finishes j b o)
    → (h : Holds lease end i worker rows) → owned_by j b h.row ≡ false
not-owned_by-other lease end i worker now j b o rows w h = elim (Bool-cases (owned_by j b h.row)) [
  | inr other ↦ other
  | inl mine ↦
      let same_job : j ≡ i =
        ground
          (arith, find-some (has_id i) rows h.row h.found, eq_iff h.row.id i, eq_iff h.row.id j) in
      let same_worker : b ≡ worker = ground (arith, eq_iff worker b) in absurd (w.no_report o (cc))
]

owned_by-pos :
    (lease end : ℕ) (i worker : String) (rows : List Row)
    → Holds lease end i worker rows
    → 1 ≤ count (owned_by i worker) rows
owned_by-pos lease end i worker rows h =
    let found = find-some (has_id i) rows h.row h.found in
    count-pos (owned_by i worker) rows h.row found.0 (ground (arith, found, eq_refl worker))

module _ (dumps : KeyFields → String) (lease end : ℕ) (i worker : String) where
  step-Holds :
      (c : ℕ × Call) (rows : List Row)
      → IsWellFormed rows
      → Within lease end i worker c
      → Holds lease end i worker rows
      → Holds lease end i worker (step dumps lease c rows)
  unfolding step
  step-Holds (now, enqueues job_id q request_id) rows v w h =
      Holds-found lease end i worker rows _ h
        (find-enqueue dumps now job_id q request_id i rows h.row h.found)
  step-Holds (now, claims b) rows v w h = Holds-found lease end i worker rows _ h (
      find-claim_next lease now b i rows h.row v h.found
        (not-claimable-held lease end now i worker rows h w.early))
  step-Holds (now, renews j b) rows v w h = elim (Bool-cases (owned_by j b h.row)) [
    | inr other ↦
        Holds-found lease end i worker rows _ h
          (rw (find-renew_lease lease now j b i rows h.row h.found, other))
    | inl mine ↦ record {
      row = renewed lease now h.row;
      expires = now + lease;
      found = rw (find-renew_lease lease now j b i rows h.row h.found, mine);
      active = h.active;
      holder = h.holder;
      until = refl;
      lasts = w.started;
      alive = w.started;
    }
  ]
  step-Holds (now, finishes j b o) rows v w h = Holds-found lease end i worker rows _ h (
      find-finish_job now j b o i rows h.row h.found
        (not-owned_by-other lease end i worker now j b o rows w h))

  run-Holds :
      (cs : List (ℕ × Call)) (rows : List Row)
      → IsWellFormed rows
      → All (Within lease end i worker) cs
      → Holds lease end i worker rows
      → Holds lease end i worker (run dumps lease cs rows)
  unfolding run
  run-Holds [] rows v w h = h
  run-Holds (c ∷ cs) rows v w h =
      run-Holds cs (step dumps lease c rows) (step-IsWellFormed dumps lease c rows v) w.1
        (step-Holds c rows v w.0 h)

-- The worker that holds a job has its report accepted.
finish_job-accepted :
    (lease end now : ℕ) (i worker : String) (o : Outcome) (rows : List Row)
    → Holds lease end i worker rows
    → (finish_job now i worker o rows).1 ≢ download_job_stale_result_ignored
unfolding finish_job mark_succeeded mark_failed
finish_job-accepted lease end now i worker (produced a p) rows h =
    ground (arith, owned_by-pos lease end i worker rows h)
finish_job-accepted lease end now i worker (all_failed es) rows h =
    ground (arith, owned_by-pos lease end i worker rows h)
finish_job-accepted lease end now i worker (crashed m) rows h =
    ground (arith, owned_by-pos lease end i worker rows h)

-- A worker claims a job at `now` on a well-formed table. Whatever calls follow, if their clocks lie
-- between `now` and the end of that lease and none is the worker's own report on that job, the worker
-- still holds the job after them, and its report is accepted.
pub holder_reports :
    (dumps : KeyFields → String) (lease now later : ℕ) (worker : String) (rows : List Row)
    (j : DownloadJob) (cs : List (ℕ × Call)) (o : Outcome)
    → IsWellFormed rows
    → (claim_next lease now worker rows).1 ≡ some j
    → All (Within lease (now + lease) j.id worker) cs
    → let after = run dumps lease cs (claim_next lease now worker rows).0 in
      Holds lease (now + lease) j.id worker after
      × ((finish_job later j.id worker o after).1 ≢ download_job_stale_result_ignored)
holder_reports dumps lease now later worker rows j cs o v h w =
    let kept =
      run-Holds dumps lease (now + lease) j.id worker cs (claim_next lease now worker rows).0
        (claim_next-IsWellFormed lease now worker rows v) w
        (claim_next-Holds lease now worker rows j v h) in
    (kept, finish_job-accepted lease (now + lease) later j.id worker o _ kept)
