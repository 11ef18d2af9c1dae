-- ===== src/Api/Polling.antt =====
-- A client that asks for a download and polls its job.
use android_package_service.Base.{
  ℕ, String, ◌≡◌, refl, ◌∙◌, ap, sym, subst, ◌⊎◌, inl, inr, true, false, Option, none, some, List,
  ◌||◌, count, find_only, eq_refl, arith, is_some,
}
use android_package_service.Domain.{ProviderError, AndroidPackageRequest}
use android_package_service.Jobs.{
  Row, KeyFields, Status, DownloadJob, Enqueued, job, get, enqueue, queued, running, succeeded,
  failed, has_id, is_active, row_to_job, new_row, request_key,
}
use android_package_service.Jobs.Keys.{IsWellFormed}
use android_package_service.Jobs.Enqueue.{enqueue_cases, get-added}
use android_package_service.Orchestrator.{Downloaded}
use android_package_service.Api.{
  Settings, Delivery, Handled, job_reply, not_ready, is_succeeded, job_file, job_or_not_found,
  queued_reply, download_job_response, get_download_job, get_download_job_file, download_app,
}

-- The job that a request was put into is active and is found under its id.
abbrev pub IsPolled : List Row × Enqueued → Row → Type 0
IsPolled (rows, made) row =
    (made ≡ job (some (row_to_job row)))
    × (is_active row.status ≡ true)
    × (get row.id rows ≡ some (row_to_job row))

enqueue-IsPolled :
    (dumps : KeyFields → String) (now : ℕ) (job_id : String) (request_id : Option String)
    (q : AndroidPackageRequest) (rows : List Row)
    → count (has_id job_id) rows ≡ 0
    → IsWellFormed rows
    → (row : Row) × IsPolled (enqueue dumps now job_id q request_id rows) row
unfolding get
enqueue-IsPolled dumps now job_id request_id q rows fresh v =
    elim (enqueue_cases dumps now job_id q request_id rows fresh) [
      | inl (row, i, act, e) ↦
          let only = find_only (has_id row.id) rows row (v.ids row.id) i (eq_refl row.id) in
          (row, subst (λ t. IsPolled t row) (sym e) (refl, ground arith, rw (only, get) refl))
      | inr (idle, e) ↦
          let row = new_row job_id (request_key dumps q) q request_id now in
          (row, subst (λ t. IsPolled t row) (sym e) (refl, refl, get-added row rows fresh))
    ]

active_running : (s : Status) → is_active s ≡ true → is_succeeded s ≡ false
active_running queued h = refl
active_running running h = refl
active_running succeeded h = absurd (cc)
active_running failed h = absurd (cc)

module _ {S W : Type 0} (quote : String → String) (settings : Settings) (delivery : Delivery S)
    (storage : W → S) (download : AndroidPackageRequest → W → W × Downloaded)
    (existing : AndroidPackageRequest → W → ProviderError ⊎ Option String)
    (dumps : KeyFields → String) (base_url : String) where
  -- The reply is 202 with a job, which is then polled with the same answer and has no file yet.
  abbrev pub IsQueued : W → S → Handled W → Type 0
  IsQueued w s handled =
      (made : DownloadJob) × (handled.reply ≡ job_reply 202 (download_job_response base_url made))
      × (handled.world ≡ w)
      × (get_download_job base_url made.id handled.rows
          ≡ job_reply 200 (download_job_response base_url made))
      × (get_download_job_file quote settings delivery made.id handled.rows s ≡ not_ready)

  -- With asynchronous downloads on, a request that no artifact is found for is answered with 202 and
  -- a job, at once and without a download, if its fresh id is no row's and the table is well-formed;
  -- whoever polls this job next gets the same answer, and is told that the file is not ready.
  pub download_app_polled :
      (now : ℕ) (job_id : String) (request_id : Option String) (q : AndroidPackageRequest)
      (rows : List Row) (w : W) (s : S)
      → settings.download_async_enabled ≡ true
      → existing q w ≡ inr none
      → count (has_id job_id) rows ≡ 0
      → IsWellFormed rows
      → IsQueued w s (
          download_app quote settings delivery storage download existing dumps base_url now job_id
            request_id q rows w)
  unfolding download_app get_download_job get_download_job_file
  download_app_polled now job_id request_id q rows w s async missing fresh v =
      let (row, polled) = enqueue-IsPolled dumps now job_id request_id q rows fresh v in
      let (made, act, found) = polled in
      let added = enqueue dumps now job_id q request_id rows in
      let asks = is_some q.version_code || is_some q.version_name in
      let waiting = active_running row.status act in
      let handled : Handled W = record {
        rows = added.0;
        world = w;
        collects = asks;
        reply = queued_reply base_url added.1;
      } in
      let queues : download_app quote settings delivery storage download existing dumps base_url now
            job_id request_id q rows w
          ≡ handled =
        rw (async, missing, download_app) refl in
      subst (IsQueued w s) (sym queues) (
        row_to_job row,
        ap (queued_reply base_url) made,
        refl,
        ap (job_or_not_found base_url) found,
        ap (λ j. job_file quote settings delivery j s) found ∙ rw waiting refl,
      )
