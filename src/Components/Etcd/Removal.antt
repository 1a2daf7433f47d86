-- ===== src/Components/Etcd/Removal.antt =====
-- What a successful removeEtcdMember of internal/pkg/component/components/etcd.go leaves behind.
use oneinfra.Components.Etcd.Asking.{etcd_client-Keeps, etcd_peer_url-Keeps}
use oneinfra.Base.{
  ℕ, zero, suc, String, ◌≡◌, refl, subst, ◌⊎◌, inl, inr, Option, none, some, List, [], ◌∷◌,
  Bool-cases,
}
use oneinfra.Base.Errors.{ok_inj, err, ok, Exec, Result}
use oneinfra.Base.Actions.{Keeps, >>=-Keeps, >>=-Ensures, Ensures, err_ne_ok}
use mathlib.Core.Option
use oneinfra.Components.{Stage, Inquirer, beyond}
use oneinfra.Components.World.{beyond-Ensures}
use oneinfra.Components.Etcd.{
  etcd_client_endpoints, has_sole_url, find_member, etcd_member_id, etcd_members, EtcdApi, Member,
  etcd_client, etcd_peer_url,
}
use oneinfra.Components.Etcd.Membership.{
  slept, remove_known, remove_with_client, remove_etcd_member, remove_by, remove_loop,
}
use oneinfra.Components.Etcd.OwnUrl.{
  place_url, etcd_client_endpoints-Pinned, etcd_peer_url-Pinned, etcd_client-Pinned,
  etcd_peer_url-place_url,
}
use oneinfra.Components.Etcd.Pinned.{Pinned, Place}
use oneinfra.Components.Etcd.Voting.{or_again-Ensures, Known, OwnUrl, Always, MemberLaws}

module _ {W : Type 0} (etcd : EtcdApi W) (laws : MemberLaws etcd) (inquirer : Inquirer)
    (place : Place) where
  -- What the search for a member tells.
  abbrev Found : String → Option ℕ → W → Type 0
  Found url none w = laws.Absent url w
  Found url (some id) w = laws.IsMember url id w

  -- What a list of the members tells of every URL.
  abbrev Listing : List Member → W → Type 0
  Listing members w =
      (url : String) → Found url (Option.map (λ (m : Member). m.id) (find_member url members)) w

  find_member-Found :
      (url : String) (w : W) (members : List Member)
      → Known etcd laws inquirer place members w
      → (find_member url members ≡ none → laws.Absent url w)
      → Found url (Option.map (λ (m : Member). m.id) (find_member url members)) w
  find_member-Found url w [] k absent = absent refl
  find_member-Found url w (m ∷ members) k absent =
      elim (Bool-cases (has_sole_url url m.peer_urls)) [
        | inl own ↦ rw own (k.0 url own).0
        | inr other ↦ rw other (find_member-Found url w members k.1 (λ h. absent (rw other h)))
      ]

  member_list-Listing : Ensures (λ w. Unit) etcd.member_list Listing
  member_list-Listing w p members e = λ url.
      find_member-Found url (etcd.member_list w).1 members (laws.listed w p members e)
        (laws.unlisted url w p members e)

  etcd_members-Listing :
      Ensures
        (Always etcd laws inquirer place)
        (etcd_members etcd inquirer)
        (λ members stage. Always etcd laws inquirer place stage × Listing members stage.world)
  unfolding etcd_members
  etcd_members-Listing =
      >>=-Ensures (Always etcd laws inquirer place) (λ client. Always etcd laws inquirer place)
        (λ members stage. Always etcd laws inquirer place stage × Listing members stage.world)
        (etcd_client etcd inquirer) _
        (λ stage p u e. etcd_client-Pinned etcd inquirer place stage p)
        λ client stage p members e. (
          p,
          beyond-Ensures (λ w. Unit) Listing etcd.member_list member_list-Listing stage tt members
              e,
        )

  abbrev FoundOwn : Option ℕ → Stage W → Type 0
  FoundOwn id stage = Found (place_url etcd inquirer place) id stage.world

  etcd_member_id-FoundOwn :
      Ensures (Always etcd laws inquirer place) (etcd_member_id etcd inquirer) FoundOwn
  unfolding etcd_member_id
  etcd_member_id-FoundOwn =
      >>=-Ensures (Always etcd laws inquirer place)
        (λ members stage. Always etcd laws inquirer place stage × Listing members stage.world)
        FoundOwn (etcd_members etcd inquirer) _ etcd_members-Listing
        λ members.
          >>=-Ensures (λ stage. Always etcd laws inquirer place stage × Listing members stage.world)
            (λ url stage. OwnUrl etcd laws inquirer place url × Listing members stage.world)
            FoundOwn (etcd_peer_url etcd inquirer) _
            (λ s p url e. (
              (etcd_peer_url-place_url etcd inquirer place s p.0 url e).1,
              etcd_peer_url-Keeps etcd (Listing members) inquirer s p.1,
            ))
            λ url s p id e.
              subst (λ z. FoundOwn z s) (ok_inj e)
                (subst
                  (λ z.
                    Found z (Option.map (λ (m : Member). m.id) (find_member url members)) s.world)
                  p.0 (p.1 url))

  etcd_member_id-Always : Keeps (Always etcd laws inquirer place) (etcd_member_id etcd inquirer)
  unfolding etcd_member_id etcd_members
  etcd_member_id-Always =
      >>=-Keeps (Always etcd laws inquirer place) (etcd_members etcd inquirer) _
        (>>=-Keeps (Always etcd laws inquirer place) (etcd_client etcd inquirer) _
          (etcd_client-Pinned etcd inquirer place) λ client stage p. p)
        λ members.
          >>=-Keeps (Always etcd laws inquirer place) (etcd_peer_url etcd inquirer) _
            (etcd_peer_url-Pinned etcd inquirer place) λ url stage p. p

  abbrev IsOut : Stage W → Type 0
  IsOut stage = laws.Absent (place_url etcd inquirer place) stage.world

  remove_with_client-IsOut :
      (again : Exec (Stage W) Unit)
      → Ensures (Always etcd laws inquirer place) again (λ u. IsOut)
      → (id : ℕ) (r : Result (Unit {0}) × Stage W) → Always etcd laws inquirer place r.1
      → laws.IsMember (place_url etcd inquirer place) id r.1.world
      → (u : Unit {0}) → (remove_with_client etcd inquirer again id r).0 ≡ ok u
      → IsOut (remove_with_client etcd inquirer again id r).1
  remove_with_client-IsOut again reaches id (err x, stage) p m =
      reaches (slept etcd inquirer stage) p
  remove_with_client-IsOut again reaches id (ok client, stage) p m =
      let url = place_url etcd inquirer place in
      or_again-Ensures etcd laws inquirer place IsOut again reaches
        (beyond (etcd.member_remove id) stage) p
        (beyond-Ensures (laws.IsMember url id) (λ u. laws.Absent url) (etcd.member_remove id)
          (laws.removed url id) stage m)

  remove_known-IsOut :
      (again : Exec (Stage W) Unit)
      → Ensures (Always etcd laws inquirer place) again (λ u. IsOut)
      → (r : Result (Option ℕ) × Stage W) → Always etcd laws inquirer place r.1
      → ((id : Option ℕ) → r.0 ≡ ok id → FoundOwn id r.1)
      → (u : Unit {0}) → (remove_known etcd inquirer again r).0 ≡ ok u
      → IsOut (remove_known etcd inquirer again r).1
  remove_known-IsOut again reaches (err x, stage) p found = reaches (slept etcd inquirer stage) p
  remove_known-IsOut again reaches (ok none, stage) p found = λ u e. found none refl
  remove_known-IsOut again reaches (ok (some id), stage) p found =
      remove_with_client-IsOut again reaches id (etcd_client etcd inquirer stage)
        (etcd_client-Pinned etcd inquirer place stage p)
        (etcd_client-Keeps etcd (laws.IsMember (place_url etcd inquirer place) id) inquirer
          (laws.dial_keeps (place_url etcd inquirer place) id) stage (found (some id) refl))

  remove_loop-IsOut :
      (rounds : ℕ)
      → Ensures (Always etcd laws inquirer place) (remove_loop etcd inquirer rounds) (λ u. IsOut)
  unfolding remove_loop
  remove_loop-IsOut zero = λ stage p u e. absurd (err_ne_ok _ u e)
  remove_loop-IsOut (suc rounds) = λ stage p.
      remove_known-IsOut (remove_loop etcd inquirer rounds) (remove_loop-IsOut rounds)
        (etcd_member_id etcd inquirer stage) (etcd_member_id-Always stage p)
        (etcd_member_id-FoundOwn stage p)

  remove_by-IsOut :
      (r : List String × Stage W)
      → Always etcd laws inquirer place r.1
      → (remove_by etcd inquirer r).0 ≡ ok tt
      → (r.0 ≡ []) ⊎ IsOut (remove_by etcd inquirer r).1
  remove_by-IsOut ([], stage) p e = inl refl
  remove_by-IsOut (endpoint ∷ endpoints, stage) p e = inr (remove_loop-IsOut 60 stage p tt e)

  -- If removeEtcdMember succeeds, then either there was no endpoint of etcd to ask, or no member has
  -- the peer URL of the component any more: where the component's place is known, that is, its
  -- hypervisor, the address of this hypervisor and the recorded host port of its peer URL, where the
  -- lists of members tell the truth, a removal that succeeds ends the membership, and a client can be
  -- made without a change of the members.
  pub remove_etcd_member-Absent :
      (stage : Stage W)
      → Pinned inquirer place stage
      → (remove_etcd_member etcd inquirer stage).0 ≡ ok tt
      → ((etcd_client_endpoints etcd inquirer stage).0 ≡ [])
        ⊎ laws.Absent
            (place_url etcd inquirer place)
            (remove_etcd_member etcd inquirer stage).1.world
  unfolding remove_etcd_member
  remove_etcd_member-Absent stage p =
      remove_by-IsOut (etcd_client_endpoints etcd inquirer stage)
        (etcd_client_endpoints-Pinned etcd inquirer place stage p)
