-- ===== src/Components/Etcd/Rounds.antt =====
-- How often the loops of internal/pkg/component/components/etcd.go call etcd.
use oneinfra.Components.World.{beyond-Keeps}
use oneinfra.Components.Etcd.Asking.{etcd_peer_url-Keeps, etcd_client-Keeps}
use oneinfra.Base.{
  ℕ, zero, suc, ◌+◌, ◌≤◌, String, inl, inr, none, some, List, [], ◌∷◌, arith, Bool-cases,
}
use oneinfra.Base.Errors.{err, ok, Exec, Result}
use oneinfra.Base.Actions.{Keeps, >>=-Leads}
use oneinfra.Components.{Stage, Inquirer, beyond}
use oneinfra.Components.Etcd.{Member, EtcdApi, etcd_client, etcd_peer_url}
use oneinfra.Components.Etcd.Membership
use oneinfra.Components.Etcd.Membership.{
  survey_loop, surveyed, promote_listed, promote_surveyed, promote_etcd_learner, or_again, Survey,
  promote_loop, add_own, after_add, setup_etcd_learner, slept, setup_loop,
}

-- A count of the calls that add or promote a member: these count once, and no other call does.
pub record CallCount {W : Type 0} (etcd : EtcdApi W) : Type 0 where
  pub count : W → ℕ
  pub add_counts :
      (urls : List String) (w : W) → count (etcd.member_add_as_learner urls w).1 ≤ count w + 1
  pub promote_counts : (id : ℕ) (w : W) → count (etcd.member_promote id w).1 ≤ count w + 1
  pub dial_keeps : (endpoints : List String) (w : W) → count (etcd.dial endpoints w).1 ≤ count w
  pub list_keeps : (w : W) → count (etcd.member_list w).1 ≤ count w
  pub sleep_keeps : (w : W) → count (etcd.sleep w) ≤ count w

module _ {W : Type 0} (etcd : EtcdApi W) (calls : CallCount etcd) (inquirer : Inquirer) where
  abbrev Within : ℕ → Stage W → Type 0
  Within n stage = calls.count stage.world ≤ n

  dial-Within :
      (n : ℕ) (endpoints : List String) → Keeps (λ w. calls.count w ≤ n) (etcd.dial endpoints)
  dial-Within n endpoints w p = omega (arith, p, calls.dial_keeps endpoints w)

  client-Within : (n : ℕ) → Keeps (Within n) (etcd_client etcd inquirer)
  client-Within n = etcd_client-Keeps etcd (λ w. calls.count w ≤ n) inquirer (dial-Within n)

  slept-Within : (n : ℕ) (stage : Stage W) → Within n stage → Within n (slept etcd inquirer stage)
  slept-Within n stage p = omega (arith, p, calls.sleep_keeps stage.world)

  -- A loop that makes at most so many calls more.
  abbrev Adds : ℕ → Exec (Stage W) Unit → Type 0
  Adds k again = (n : ℕ) (stage : Stage W) → Within n stage → Within (n + k) (again stage).1

  after_add-Within :
      (k n : ℕ) (again : Exec (Stage W) Unit)
      → Adds k again
      → (r : Result (Unit {0}) × Stage W) → Within n r.1
      → Within (n + k) (after_add etcd inquirer again r).1
  after_add-Within k n again adds (ok u, stage) p = omega (arith, p)
  after_add-Within k n again adds (err e, stage) p =
      elim (Bool-cases (etcd.is_deadline_exceeded e)) [
        | inl late ↦ rw late (omega (arith, p))
        | inr again_then ↦
            rw again_then (adds n (slept etcd inquirer stage) (slept-Within n stage p))
      ]

  one_more :
      (n : ℕ) (op : Exec W Unit)
      → ((w : W) → calls.count (op w).1 ≤ calls.count w + 1)
      → (stage : Stage W) → Within n stage
      → Within (n + 1) (beyond op stage).1
  one_more n op counts stage p =
      let after : calls.count (op stage.world).1 ≤ n + 1 = omega (arith, p, counts stage.world) in
      after

  setup_loop-Within : (rounds : ℕ) → Adds rounds (setup_loop etcd inquirer rounds)
  unfolding setup_loop
  setup_loop-Within zero n stage p = omega (arith, p)
  setup_loop-Within (suc rounds) n stage p =
      >>=-Leads (Within n) (Within (n + suc rounds)) (etcd_peer_url etcd inquirer)
        (add_own etcd inquirer (setup_loop etcd inquirer rounds)) stage
        (etcd_peer_url-Keeps etcd (λ w. calls.count w ≤ n) inquirer stage p)
        (λ s q. omega (arith, q))
        (λ url s q.
          let add = etcd.member_add_as_learner (url ∷ []) in
          let one = one_more n add (calls.add_counts (url ∷ [])) s q in
          let rest =
            after_add-Within rounds (n + 1) (setup_loop etcd inquirer rounds)
              (setup_loop-Within rounds) (beyond add s) one in
          omega (arith, rest))

  -- setupEtcdLearner asks etcd at most 60 times to add a member, whatever etcd answers.
  pub setup_etcd_learner_bounded :
      (stage : Stage W)
      → calls.count (setup_etcd_learner etcd inquirer stage).1.world ≤ calls.count stage.world + 60
  unfolding setup_etcd_learner
  setup_etcd_learner_bounded stage =
      let n = calls.count stage.world in
      >>=-Leads (Within n) (Within (n + 60)) (etcd_client etcd inquirer) _ stage
        (client-Within n stage (omega arith)) (λ s q. omega (arith, q))
        λ client s q. setup_loop-Within 60 n s q

  or_again-Within :
      (k n : ℕ) (again : Exec (Stage W) Unit)
      → Adds k again
      → (r : Result (Unit {0}) × Stage W) → Within n r.1
      → Within (n + k) (or_again etcd inquirer again r).1
  or_again-Within k n again adds (ok u, stage) p = omega (arith, p)
  or_again-Within k n again adds (err e, stage) p =
      adds n (slept etcd inquirer stage) (slept-Within n stage p)

  promote_surveyed-Within :
      (k : ℕ) (again : Exec (Stage W) Unit)
      → Adds k again
      → (survey : Survey) → Adds (suc k) (promote_surveyed etcd inquirer again survey)
  promote_surveyed-Within k again adds Membership.has_vote n stage p = omega (arith, p)
  promote_surveyed-Within k again adds (surveyed none endpoints) n stage p =
      let rest = adds n stage p in omega (arith, rest)
  promote_surveyed-Within k again adds (surveyed (some id) endpoints) n stage p =
      >>=-Leads (Within n) (Within (n + suc k)) (beyond (etcd.dial endpoints)) _ stage
        (beyond-Keeps (λ w. calls.count w ≤ n) (etcd.dial endpoints) (dial-Within n endpoints) stage
          p)
        (λ s q. omega (arith, q))
        λ client s q.
          let promote = etcd.member_promote id in
          let one = one_more n promote (calls.promote_counts id) s q in
          let rest = or_again-Within k (n + 1) again adds (beyond promote s) one in
          omega (arith, rest)

  promote_listed-Within :
      (k n : ℕ) (again : Exec (Stage W) Unit)
      → Adds k again
      → (r : Result (List Member) × Stage W) → Within n r.1
      → Within (n + suc k) (promote_listed etcd inquirer again r).1
  promote_listed-Within k n again adds (err e, stage) p =
      let rest = adds n stage p in omega (arith, rest)
  promote_listed-Within k n again adds (ok members, stage) p =
      >>=-Leads (Within n) (Within (n + suc k)) (etcd_peer_url etcd inquirer) _ stage
        (etcd_peer_url-Keeps etcd (λ w. calls.count w ≤ n) inquirer stage p)
        (λ s q. omega (arith, q))
        λ url s q. promote_surveyed-Within k again adds (survey_loop url none [] members) n s q

  promote_loop-Within : (rounds : ℕ) → Adds rounds (promote_loop etcd inquirer rounds)
  unfolding promote_loop
  promote_loop-Within zero n stage p = omega (arith, p)
  promote_loop-Within (suc rounds) n stage p =
      >>=-Leads (Within n) (Within (n + suc rounds)) (etcd_client etcd inquirer) _ stage
        (client-Within n stage p) (λ s q. omega (arith, q))
        λ client s q.
          promote_listed-Within rounds n (promote_loop etcd inquirer rounds)
            (promote_loop-Within rounds) (beyond etcd.member_list s)
            (beyond-Keeps (λ w. calls.count w ≤ n) etcd.member_list
              (λ w p. omega (arith, p, calls.list_keeps w)) s q)

  -- promoteEtcdLearner asks etcd at most 300 times to promote a member, whatever etcd answers.
  pub promote_etcd_learner_bounded :
      (stage : Stage W)
      → calls.count (promote_etcd_learner etcd inquirer stage).1.world
        ≤ calls.count stage.world + 300
  unfolding promote_etcd_learner
  promote_etcd_learner_bounded stage =
      promote_loop-Within 300 (calls.count stage.world) stage (omega arith)
