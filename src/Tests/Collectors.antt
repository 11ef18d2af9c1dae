-- ===== src/Tests/Collectors.antt =====
-- Runs of app/catalog/collectors/aptoide.py and app/catalog/collectors/appmagic.py.
use android_package_service.Base.{
  ℕ, ◌-◌, String, ◌≡◌, refl, Option, none, some, [], ◌∷◌, map, if◌then◌else◌, leb, ◌&&◌,
}
use android_package_service.Json.{
  Json, text, list, object, nil, cons, Fields, end, field, lookup, dicts, get,
}
use android_package_service.Collectors.{
  text_le, match_here, search_date, least, greatest, merge_dates, add_release, releases_of,
  release_items, add_releases, range_records, appmagic_records,
}
use android_package_service.Collectors.Summary.{IsSummary, appmagic_records-IsSummary}

abbrev decimal : ℕ → Option ℕ
decimal c = if leb 48 c && leb c 57 then some (c - 48) else none

search_date_inside : search_date decimal "on 2024-05-06 at 7" ≡ some "2024-05-06"
unfolding search_date match_here
search_date_inside = refl

abbrev release : String → String → Json
release name date = object (field "version" (text name) (field "release_date" (text date) end))

abbrev releases : Fields
releases =
    field "releases"
      (list (
        cons (release "1.0" "2024-03-01") (
          cons (release "2.0" "2024-04-01")
            (cons (release "1.0" "2024-02-01") (cons (release "" "2024-01-01") nil)))))
      end

appmagic_records_twice :
    map {B = String × Option String × Option String}
      (λ r. (r.version_name, r.release_date, r.last_release_date))
      (appmagic_records releases)
    ≡ ("1.0", some "2024-02-01", some "2024-03-01")
      ∷ ("2.0", some "2024-04-01", some "2024-04-01")
      ∷ []
unfolding appmagic_records releases_of add_releases add_release merge_dates least greatest text_le
    range_records lookup dicts
appmagic_records_twice = refl

appmagic_records-IsSummary_example :
    IsSummary (releases_of (release_items (get "releases" releases))) (appmagic_records releases)
appmagic_records-IsSummary_example = appmagic_records-IsSummary releases
