-- ===== src/Api/Serving.antt =====
-- A job's file after the worker's report.
use android_package_service.Base.{
  ℕ, String, ◌≡◌, refl, ◌∙◌, ap, true, false, Option, some, List, find, find-update, ◌==◌,
}
use android_package_service.Jobs.{
  Row, get, mark_succeeded, has_id, owned_by, succeeded_row, row_to_job,
}
use android_package_service.Api.{
  Settings, Delivery, artifact_response, job_file, get_download_job_file,
}

get-mark_succeeded :
    (now : ℕ) (i worker key : String) (provider : Option String) (rows : List Row) (r : Row)
    → find (has_id i) rows ≡ some r
    → owned_by i worker r ≡ true
    → get i (mark_succeeded now i key provider (some worker) rows).0
      ≡ some (row_to_job (succeeded_row now key provider r))
unfolding get mark_succeeded
get-mark_succeeded now i worker key provider rows r e owned =
    rw
      (
        find-update (has_id i) (owned_by i worker) (succeeded_row now key provider) rows
            (λ x. refl),
        e,
        owned,
        get,
      )
      refl

module _ {S : Type 0} (quote : String → String) (settings : Settings) (delivery : Delivery S) where
  -- Once the worker that holds a job has reported an artifact, the file of the job is served from
  -- where the artifact is, as long as the storage has it.
  pub get_download_job_file-mark_succeeded :
      (now : ℕ) (i worker key : String) (provider : Option String) (rows : List Row) (r : Row)
      (s : S)
      → find (has_id i) rows ≡ some r
      → owned_by i worker r ≡ true
      → (key == "") ≡ false
      → delivery.exists key s ≡ true
      → get_download_job_file quote settings delivery i
          (mark_succeeded now i key provider (some worker) rows).0
          s
        ≡ artifact_response quote settings delivery key s
  unfolding get_download_job_file
  get_download_job_file-mark_succeeded now i worker key provider rows r s e owned full there =
      ap (λ j. job_file quote settings delivery j s)
        (get-mark_succeeded now i worker key provider rows r e owned)
      ∙ rw full (rw there refl)
