-- ===== src/Monitor/Flow.antt =====
-- `MonitorService._providers` of app/api/monitor.py: the successes and failures of each provider. `hit`
-- is `_hit_provider`.
use android_package_service.Base.{
  ℕ, ◌+◌, String, Option, none, some, List, [], ◌∷◌, ◌==◌, if◌then◌else◌,
}
use android_package_service.Domain.{
  ErrorCode, ProviderError, not_found, network_error, auth_error, bad_response, verify_failed,
  unsupported,
}
use android_package_service.Jobs.{Row}
use android_package_service.Filenames.{or_fallback}
use android_package_service.Api.{is_succeeded}
use android_package_service.Monitor.Jobs.{is_failed, sort_descending, sort_by}

pub record ProviderItem : Type 0 where
  pub provider : String
  pub successes : ℕ
  pub failures : ℕ
  pub errors : List (String × ℕ)

abbrev pub new_item : String → ProviderItem
new_item name = record { provider = name; successes = 0; failures = 0; errors = [] }

-- `ensure(name)` and a change of what it returns.
unfoldable pub change_item :
    String → (ProviderItem → ProviderItem) → List ProviderItem → List ProviderItem
change_item name f [] = f (new_item name) ∷ []
change_item name f (i ∷ is) = if i.provider == name then f i ∷ is else i ∷ change_item name f is

abbrev pub code_name : ErrorCode → String
code_name not_found = "NOT_FOUND"
code_name network_error = "NETWORK_ERROR"
code_name auth_error = "AUTH_ERROR"
code_name bad_response = "BAD_RESPONSE"
code_name verify_failed = "VERIFY_FAILED"
code_name unsupported = "UNSUPPORTED"

-- `counts[code] = counts.get(code, 0) + 1`
unfoldable pub count_name : String → List (String × ℕ) → List (String × ℕ)
count_name code [] = (code, 1) ∷ []
count_name code ((c, n) ∷ rest) =
    if c == code then (c, n + 1) ∷ rest else (c, n) ∷ count_name code rest

abbrev pub with_success : ProviderItem → ProviderItem
with_success i = record i { successes = i.successes + 1 }

abbrev pub with_failure : ErrorCode → ProviderItem → ProviderItem
with_failure code i = record i {
  failures = i.failures + 1;
  errors = count_name (code_name code) i.errors;
}

unfoldable pub add_errors : List ProviderError → List ProviderItem → List ProviderItem
add_errors [] items = items
add_errors (e ∷ es) items =
    add_errors es (change_item (or_fallback e.provider "unknown") (with_failure e.error) items)

abbrev pub add_success : Option String → List ProviderItem → List ProviderItem
add_success none items = items
add_success (some name) items = if name == "" then items else change_item name with_success items

abbrev pub errors_or_none : Option (List ProviderError) → List ProviderError
errors_or_none none = []
errors_or_none (some es) = es

abbrev pub attempts_of : ProviderItem → ℕ
attempts_of i = i.successes + i.failures

module _ (hit : Row → Option String) where
  abbrev pub add_row : Row → List ProviderItem → List ProviderItem
  add_row r items =
      if is_succeeded r.status
      then add_success (hit r) items
      else if is_failed r.status
      then add_errors (errors_or_none r.provider_errors) items
      else items

  unfoldable pub add_rows : List Row → List ProviderItem → List ProviderItem
  unfolding change_item add_errors
  add_rows [] items = items
  add_rows (r ∷ rs) items = add_rows rs (add_row r items)

  -- `_providers`; the rate of an item is the fraction of its successes.
  unfoldable pub providers : List Row → List ProviderItem
  unfolding add_rows sort_by
  providers rows = sort_descending attempts_of (add_rows rows [])
