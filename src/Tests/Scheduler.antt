-- ===== src/Tests/Scheduler.antt =====
-- Runs of app/catalog/scheduler.py.
use android_package_service.Base.{
  String, ◌≡◌, refl, Bool, not, true, false, none, some, List, [], ◌∷◌, arith, ◌==◌, eq_iff,
}
use android_package_service.Scheduler.{taken, acquire_leadership, refresh_all, run_once}
use android_package_service.Scheduler.Leader.{contend, leader_exclusive}

-- Collects into the list of names that were asked; the package "bad" raises.
abbrev noted : String → List String → List String × Bool
noted p db = (p ∷ db, not (p == "bad"))

abbrev three : List String → List String
three db = "a" ∷ "bad" ∷ "c" ∷ []

run_counts :
    let r = run_once noted 300 1000 "pod1" three none [] in
    (r.2.ok ≡ 2) × (r.2.failed ≡ 1) × (r.1 ≡ "c" ∷ "bad" ∷ "a" ∷ [])
unfolding run_once refresh_all acquire_leadership
run_counts = (refl, refl, refl)

leader_exclusive_example :
    let after = contend 300 ((1200, "pod2") ∷ []) (acquire_leadership 300 1000 "pod1" none).0 in
    (after ≡ some (taken 300 1000 "pod1"))
    × (acquire_leadership 300 1300 "pod3" after ≡ (after, false))
    × ((acquire_leadership 300 1301 "pod3" after).1 ≡ true)
leader_exclusive_example =
    leader_exclusive 300 1000 1300 1301 "pod1" "pod3" ((1200, "pod2") ∷ []) none
      (unfold acquire_leadership in refl) ((omega arith, ground (arith, eq_iff "pod1" "pod2")), tt)
      (ground (arith, eq_iff "pod1" "pod3")) (omega arith) (omega arith)
