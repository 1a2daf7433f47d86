-- ===== src/Components/Etcd/Membership.antt =====
-- setupEtcdLearner, promoteEtcdLearner and removeEtcdMember of
-- internal/pkg/component/components/etcd.go: loops that try again, for a number of rounds.
use oneinfra.Base.{ℕ, zero, suc, String, Option, none, some, List, [], ◌∷◌, ◌++◌, if◌then◌else◌}
use oneinfra.Base.Errors.{err, errorf, ok, Exec, Result}
use oneinfra.Base.Actions.{pure, ◌>>=◌, raise}
use oneinfra.Components.{Stage, Inquirer, beyond}
use oneinfra.Components.Etcd.{
  has_sole_url, etcd_client_endpoints, etcd_member_id, EtcdApi, Member, etcd_client, etcd_peer_url,
}

-- What promoteEtcdLearner finds in a list of the members: that its own has a vote by now, or the id
-- of the last one that is its own, and the endpoints of the others.
pub data Survey : Type 0 where
  has_vote : Survey
  surveyed : Option ℕ → List String → Survey

unfoldable pub survey_loop : String → Option ℕ → List String → List Member → Survey
survey_loop peer_url new_member_id endpoints [] = surveyed new_member_id endpoints
survey_loop peer_url new_member_id endpoints (member ∷ members) =
    if has_sole_url peer_url member.peer_urls
    then if member.is_learner
      then survey_loop peer_url (some member.id) endpoints members
      else has_vote
    else survey_loop peer_url new_member_id (endpoints ++ member.client_urls) members

module _ {W : Type 0} (etcd : EtcdApi W) (inquirer : Inquirer) where
  abbrev pub slept : Stage W → Stage W
  slept stage = record stage { world = etcd.sleep stage.world }

  abbrev pub after_add :
      Exec (Stage W) Unit → Result (Unit {0}) × Stage W → Result (Unit {0}) × Stage W
  after_add again (ok added, stage) = (ok tt, stage)
  after_add again (err e, stage) =
      if etcd.is_deadline_exceeded e
      then (err (errorf "failed to add etcd learner %q: %v" (inquirer.name ∷ [])), stage)
      else again (slept stage)

  abbrev pub add_own : Exec (Stage W) Unit → String → Exec (Stage W) Unit
  add_own again peer_url stage =
      after_add again (beyond (etcd.member_add_as_learner (peer_url ∷ [])) stage)

  unfoldable pub setup_loop : ℕ → Exec (Stage W) Unit
  unfolding etcd_peer_url
  setup_loop zero = raise (errorf "failed to add etcd learner %q" (inquirer.name ∷ []))
  setup_loop (suc rounds) = etcd_peer_url etcd inquirer >>= add_own (setup_loop rounds)

  unfoldable pub setup_etcd_learner : Exec (Stage W) Unit
  unfolding etcd_client setup_loop
  setup_etcd_learner = etcd_client etcd inquirer >>= λ client. setup_loop 60

  -- Another round, after a second, unless the call succeeded.
  abbrev pub or_again :
      Exec (Stage W) Unit → Result (Unit {0}) × Stage W → Result (Unit {0}) × Stage W
  or_again again (ok done, stage) = (ok tt, stage)
  or_again again (err e, stage) = again (slept stage)

  abbrev pub promote_surveyed : Exec (Stage W) Unit → Survey → Exec (Stage W) Unit
  promote_surveyed again has_vote = pure tt
  promote_surveyed again (surveyed none endpoints) = again
  promote_surveyed again (surveyed (some new_member_id) endpoints) =
      beyond (etcd.dial endpoints) >>= λ client stage.
      or_again again (beyond (etcd.member_promote new_member_id) stage)

  abbrev pub promote_listed :
      Exec (Stage W) Unit → Result (List Member) × Stage W → Result (Unit {0}) × Stage W
  promote_listed again (err e, stage) = again stage
  promote_listed again (ok members, stage) =
      (etcd_peer_url etcd inquirer >>= λ peer_url.
      promote_surveyed again (survey_loop peer_url none [] members))
        stage

  unfoldable pub promote_loop : ℕ → Exec (Stage W) Unit
  unfolding etcd_client etcd_peer_url survey_loop
  promote_loop zero = raise (errorf "failed to promote etcd learner member %q" (inquirer.name ∷ []))
  promote_loop (suc rounds) = etcd_client etcd inquirer >>= λ client stage.
      promote_listed (promote_loop rounds) (beyond etcd.member_list stage)

  unfoldable pub promote_etcd_learner : Exec (Stage W) Unit
  unfolding promote_loop
  promote_etcd_learner = promote_loop 300

  abbrev pub remove_with_client :
      Exec (Stage W) Unit → ℕ → Result (Unit {0}) × Stage W → Result (Unit {0}) × Stage W
  remove_with_client again member_id (err e, stage) = again (slept stage)
  remove_with_client again member_id (ok client, stage) =
      or_again again (beyond (etcd.member_remove member_id) stage)

  abbrev pub remove_known :
      Exec (Stage W) Unit → Result (Option ℕ) × Stage W → Result (Unit {0}) × Stage W
  remove_known again (err e, stage) = again (slept stage)
  remove_known again (ok none, stage) = (ok tt, stage)
  remove_known again (ok (some member_id), stage) =
      remove_with_client again member_id (etcd_client etcd inquirer stage)

  unfoldable pub remove_loop : ℕ → Exec (Stage W) Unit
  unfolding etcd_member_id etcd_client
  remove_loop zero stage = (
    err (errorf "failed to remove etcd member %s/%s" (inquirer.namespace ∷ inquirer.name ∷ [])),
    stage,
  )
  remove_loop (suc rounds) stage =
      remove_known (remove_loop rounds) (etcd_member_id etcd inquirer stage)

  abbrev pub remove_by : List String × Stage W → Result (Unit {0}) × Stage W
  remove_by ([], stage) = (ok tt, stage)
  remove_by (endpoint ∷ endpoints, stage) = remove_loop 60 stage

  unfoldable pub remove_etcd_member : Exec (Stage W) Unit
  unfolding remove_loop etcd_client_endpoints
  remove_etcd_member stage = remove_by (etcd_client_endpoints etcd inquirer stage)
