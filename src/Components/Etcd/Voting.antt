-- ===== src/Components/Etcd/Voting.antt =====
-- What a successful promoteEtcdLearner and removeEtcdMember of
-- internal/pkg/component/components/etcd.go leave behind.
use oneinfra.Components.Etcd.Asking.{etcd_peer_url-Keeps}
use oneinfra.Base.{
  ℕ, zero, suc, String, ◌≡◌, refl, sym, subst, inl, inr, true, false, Option, none, some, List, [],
  ◌∷◌, ◌++◌, Bool-cases, All,
}
use oneinfra.Base.Errors.{err, ok, Exec, Result}
use oneinfra.Base.Actions.{>>=-Ensures, Keeps, Ensures, err_ne_ok}
use oneinfra.Components.{Stage, Inquirer, beyond}
use oneinfra.Components.World.{beyond-Keeps, beyond-Ensures}
use oneinfra.Components.Etcd.{
  find_member, has_sole_url, EtcdApi, Member, etcd_client, etcd_peer_url,
}
use oneinfra.Components.Etcd.OwnUrl.{place_url, etcd_client-Pinned, etcd_peer_url-place_url}
use oneinfra.Components.Etcd.Pinned.{Pinned, Place}
use oneinfra.Components.Etcd.Membership
use oneinfra.Components.Etcd.Membership
use oneinfra.Components.Etcd.Membership.{
  slept, or_again, promote_listed, promote_surveyed, promote_etcd_learner, surveyed, Survey,
  survey_loop, promote_loop,
}

-- What the code relies on: a list of the members tells the truth on the ids and the votes of those
-- that have one URL alone, and on who is no member; a promotion that succeeds gives a vote, and a
-- removal that succeeds ends the membership; to dial changes no member.
pub record MemberLaws {W : Type 0} (etcd : EtcdApi W) : Type 1 where
  pub IsMember : String → ℕ → W → Type 0
  pub Votes : String → W → Type 0
  pub Absent : String → W → Type 0
  pub listed :
      Ensures
        (λ w. Unit)
        etcd.member_list
        (λ members w.
          All
            (λ (m : Member).
              (url : String)
              → has_sole_url url m.peer_urls ≡ true
              → IsMember url m.id w × (m.is_learner ≡ false → Votes url w))
            members)
  pub unlisted :
      (url : String)
      → Ensures
          (λ w. Unit)
          etcd.member_list
          (λ members w. find_member url members ≡ none → Absent url w)
  pub promoted :
      (url : String) (id : ℕ) → Ensures (IsMember url id) (etcd.member_promote id) (λ u. Votes url)
  pub removed :
      (url : String) (id : ℕ) → Ensures (IsMember url id) (etcd.member_remove id) (λ u. Absent url)
  pub dial_keeps :
      (url : String) (id : ℕ) (endpoints : List String)
      → Keeps (IsMember url id) (etcd.dial endpoints)

module _ {W : Type 0} (etcd : EtcdApi W) (laws : MemberLaws etcd) (inquirer : Inquirer)
    (place : Place) where
  abbrev pub Always : Stage W → Type 0
  Always = Pinned inquirer place

  -- The URL under which the component is known to its peers.
  abbrev pub OwnUrl : String → Type 0
  OwnUrl url = url ≡ place_url etcd inquirer place

  -- What a list of the members tells.
  abbrev pub Known : List Member → W → Type 0
  Known members w =
      All
        (λ (m : Member).
          (url : String)
          → has_sole_url url m.peer_urls ≡ true
          → laws.IsMember url m.id w × (m.is_learner ≡ false → laws.Votes url w))
        members

  abbrev pub ToldId : String → Option ℕ → W → Type 0
  ToldId url none w = Unit
  ToldId url (some id) w = laws.IsMember url id w

  -- What a survey tells of the URL.
  abbrev Told : String → Survey → W → Type 0
  Told url Membership.has_vote w = laws.Votes url w
  Told url (surveyed id endpoints) w = ToldId url id w

  survey_loop-Told :
      (url : String) (w : W) (id : Option ℕ) (endpoints : List String) (members : List Member)
      → ToldId url id w
      → Known members w
      → Told url (survey_loop url id endpoints members) w
  unfolding survey_loop
  survey_loop-Told url w id endpoints [] t k = t
  survey_loop-Told url w id endpoints (m ∷ members) t k =
      elim (Bool-cases (has_sole_url url m.peer_urls)) [
        | inl own ↦ elim (Bool-cases m.is_learner) [
          | inl learns ↦
              rw (own, learns)
                (survey_loop-Told url w (some m.id) endpoints members (k.0 url own).0 k.1)
          | inr votes ↦ rw (own, votes) ((k.0 url own).1 votes)
        ]
        | inr other ↦
            rw other (survey_loop-Told url w id (endpoints ++ m.client_urls) members t k.1)
      ]

  -- A loop that reaches a goal when it succeeds: the last round or one of those before.
  pub or_again-Ensures :
      (G : Stage W → Type 0) (again : Exec (Stage W) Unit)
      → Ensures Always again (λ u. G)
      → (r : Result (Unit {0}) × Stage W) → Always r.1
      → ((u : Unit {0}) → r.0 ≡ ok u → G r.1)
      → (u : Unit {0}) → (or_again etcd inquirer again r).0 ≡ ok u
      → G (or_again etcd inquirer again r).1
  or_again-Ensures G again reaches (ok done, stage) p g u e = g done refl
  or_again-Ensures G again reaches (err x, stage) p g u e =
      reaches (slept etcd inquirer stage) p u e

  abbrev HasVote : Stage W → Type 0
  HasVote stage = laws.Votes (place_url etcd inquirer place) stage.world

  promote_surveyed-HasVote :
      (again : Exec (Stage W) Unit)
      → Ensures Always again (λ u. HasVote)
      → (survey : Survey)
      → Ensures
          (λ stage. Always stage × Told (place_url etcd inquirer place) survey stage.world)
          (promote_surveyed etcd inquirer again survey)
          (λ u. HasVote)
  promote_surveyed-HasVote again reaches Membership.has_vote = λ stage p u e. p.1
  promote_surveyed-HasVote again reaches (surveyed none endpoints) = λ stage p. reaches stage p.0
  promote_surveyed-HasVote again reaches (surveyed (some id) endpoints) =
      let url = place_url etcd inquirer place in
      >>=-Ensures (λ stage. Always stage × laws.IsMember url id stage.world)
        (λ client stage. Always stage × laws.IsMember url id stage.world) (λ u. HasVote)
        (beyond (etcd.dial endpoints)) _
        (λ stage p u e. (
          p.0,
          beyond-Keeps (laws.IsMember url id) (etcd.dial endpoints)
              (laws.dial_keeps url id endpoints) stage p.1,
        ))
        λ client stage p.
          or_again-Ensures HasVote again reaches (beyond (etcd.member_promote id) stage) p.0 (
            beyond-Ensures (laws.IsMember url id) (λ u. laws.Votes url) (etcd.member_promote id)
              (laws.promoted url id) stage p.1)

  promote_listed-HasVote :
      (again : Exec (Stage W) Unit)
      → Ensures Always again (λ u. HasVote)
      → (r : Result (List Member) × Stage W) → Always r.1
      → ((members : List Member) → r.0 ≡ ok members → Known members r.1.world)
      → (u : Unit {0}) → (promote_listed etcd inquirer again r).0 ≡ ok u
      → HasVote (promote_listed etcd inquirer again r).1
  promote_listed-HasVote again reaches (err x, stage) p known = reaches stage p
  promote_listed-HasVote again reaches (ok members, stage) p known =
      >>=-Ensures (λ s. Always s × Known members s.world)
        (λ url s. Always s × OwnUrl url × Known members s.world) (λ u. HasVote)
        (etcd_peer_url etcd inquirer) _
        (λ s q url e.
          let (kept, own) = etcd_peer_url-place_url etcd inquirer place s q.0 url e in
          (kept, own, etcd_peer_url-Keeps etcd (Known members) inquirer s q.1))
        (λ url s q.
          subst
            (λ z.
              (u : Unit {0})
              → (promote_surveyed etcd inquirer again (survey_loop z none [] members) s).0 ≡ ok u
              → HasVote (promote_surveyed etcd inquirer again (survey_loop z none [] members) s).1)
            (sym q.1)
            (promote_surveyed-HasVote again reaches
              (survey_loop (place_url etcd inquirer place) none [] members) s
              (
                q.0,
                survey_loop-Told (place_url etcd inquirer place) s.world none [] members tt q.2,
              )))
        stage (p, known members refl)

  promote_loop-HasVote :
      (rounds : ℕ) → Ensures Always (promote_loop etcd inquirer rounds) (λ u. HasVote)
  unfolding promote_loop
  promote_loop-HasVote zero = λ stage p u e. absurd (err_ne_ok _ u e)
  promote_loop-HasVote (suc rounds) =
      >>=-Ensures Always (λ client. Always) (λ u. HasVote) (etcd_client etcd inquirer) _
        (λ stage p u e. etcd_client-Pinned etcd inquirer place stage p)
        λ client stage p.
          promote_listed-HasVote (promote_loop etcd inquirer rounds) (promote_loop-HasVote rounds)
            (beyond etcd.member_list stage) p
            (beyond-Ensures (λ w. Unit) Known etcd.member_list laws.listed stage tt)

  -- If promoteEtcdLearner succeeds, then the member with the peer URL of the component has a vote:
  -- where the component's place is known, that is, its hypervisor, the address of this hypervisor and
  -- the recorded host port of its peer URL, where the lists of members tell the truth, a promotion
  -- that succeeds gives a vote, and a client can be made without a change of the members.
  pub promote_etcd_learner-Votes :
      (stage : Stage W)
      → Pinned inquirer place stage
      → (promote_etcd_learner etcd inquirer stage).0 ≡ ok tt
      → laws.Votes
          (place_url etcd inquirer place)
          (promote_etcd_learner etcd inquirer stage).1.world
  unfolding promote_etcd_learner
  promote_etcd_learner-Votes stage p = promote_loop-HasVote 300 stage p tt
