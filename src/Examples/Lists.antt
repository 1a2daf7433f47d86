-- ===== src/Examples/Lists.antt =====
-- Lists of conditions and of names, and the conversions of hypervisors and components.
use oneinfra.Conditions.Setting.{find-set_condition_self, transition_time}
use oneinfra.Conditions.Laws.{find, DistinctTypes}
use oneinfra.Conditions.{set_condition, bare_condition, ConditionList}
use oneinfra.Base.{ℕ, ◌+◌, String, ◌≡◌, refl, ◌≢◌, some, [], ◌∷◌, arith, eq_iff}

abbrev clock : ℕ → ℕ
clock i = 100 + i

abbrev started : ConditionList
started = bare_condition "ReconcileStarted" "True" 7 9 ∷ bare_condition "Ready" "False" 3 3 ∷ []

started-DistinctTypes : DistinctTypes started
started-DistinctTypes = (refl, (refl, tt))

ready_is_not_started : ◌≢◌ {A = String} "Ready" "ReconcileStarted"
ready_is_not_started e = ground (arith, eq_iff "Ready" "ReconcileStarted")

find-set_condition_self_example :
    find "Ready" (set_condition clock started "Ready" "False")
    ≡ some (
        bare_condition "Ready" "False"
          (transition_time clock "Ready" "False" (find "Ready" started))
          (clock 0))
find-set_condition_self_example =
    find-set_condition_self clock "Ready" "False" started started-DistinctTypes
