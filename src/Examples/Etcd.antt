-- ===== src/Examples/Etcd.antt =====
-- An etcd of one member, which the components join, promote and leave.
use oneinfra.Components.Etcd.Removal.{remove_etcd_member-Absent}
use oneinfra.Components.Etcd.Membership.{
  setup_etcd_learner, remove_etcd_member, promote_etcd_learner,
}
use oneinfra.Base.{
  ℕ, ◌+◌, ◌≤◌, String, ◌≡◌, refl, sym, ap, ◌∙◌, subst, ◌⊎◌, Bool, true, false, none, List, [], ◌∷◌,
  arith, if◌then◌else◌, All, concat,
}
use oneinfra.Base.Errors.{ok_inj, ok}
use oneinfra.Examples.{host_a, component_a}
use oneinfra.Components.Etcd.OwnUrl.{place_url}
use oneinfra.Components.Etcd.Pinned.{Pinned, Place}
use oneinfra.Component.{Component}
use oneinfra.Component.Names.{etcd_peer_host_port_name}
use oneinfra.Base.Errors.{some_inj}
use oneinfra.Infra.Hypervisor.{Hypervisor}
use oneinfra.Components.{Stage, Inquirer}
use oneinfra.Components.Etcd.{etcd_client_endpoints, has_sole_url, find_member, EtcdApi, Member}
use oneinfra.Components.Etcd.Voting.{promote_etcd_learner-Votes, MemberLaws}
use oneinfra.Components.Etcd.Rounds.{
  setup_etcd_learner_bounded, promote_etcd_learner_bounded, CallCount,
}

-- Whether the member is there, whether it is a learner, and how often etcd was asked for a change.
pub record OneMember : Type 0 where
  pub joined : Bool
  pub learner : Bool
  pub asked : ℕ

abbrev members_of : OneMember → List Member
members_of w =
    if w.joined
    then record {
      id = 7;
      name = "member";
      peer_urls = "https://10.0.0.1" ∷ [];
      client_urls = [];
      is_learner = w.learner;
    }
      ∷ []
    else []

abbrev one_member : EtcdApi OneMember
one_member = record {
  dial = λ endpoints w. (ok tt, w);
  member_list = λ w. (ok (members_of w), w);
  member_add_as_learner =
      λ urls w. (ok tt, record { joined = true; learner = true; asked = w.asked + 1 });
  member_promote =
      λ id w. (ok tt, record { joined = w.joined; learner = false; asked = w.asked + 1 });
  member_remove = λ id w. (ok tt, record { joined = false; learner = w.learner; asked = w.asked });
  is_deadline_exceeded = λ e. false;
  sleep = λ w. w;
  join_host_port = λ ip port. ip;
  https_url = λ host. concat "https://" host;
}

abbrev Told : OneMember → Member → Type 0
Told w m =
    (url : String)
    → has_sole_url url m.peer_urls ≡ true
    → Unit {0} × (m.is_learner ≡ false → w.learner ≡ false)

told :
    (b l : Bool) (a : ℕ)
    → All
        (Told (record { joined = b; learner = l; asked = a }))
        (members_of (record { joined = b; learner = l; asked = a }))
told true l a = ((λ url h. (tt, (λ votes. votes))), tt)
told false l a = tt

abbrev one_member_laws : MemberLaws one_member
one_member_laws = record {
  IsMember = λ url id w. Unit;
  Votes = λ url w. w.learner ≡ false;
  Absent = λ url w. find_member url (members_of w) ≡ none;
  listed =
      λ w p members e. subst (λ z. All (Told w) z) (ok_inj e) (told w.joined w.learner w.asked);
  unlisted = λ url w p members e h. ap (find_member url) (ok_inj e) ∙ h;
  promoted = λ url id w p u e. refl;
  removed = λ url id w p u e. refl;
  dial_keeps = λ url id endpoints w p. p;
}

le_self : (n : ℕ) → n ≤ n
le_self n = omega arith

abbrev one_member_calls : CallCount one_member
one_member_calls = record {
  count = λ w. w.asked;
  add_counts = λ urls w. le_self (w.asked + 1);
  promote_counts = λ id w. le_self (w.asked + 1);
  dial_keeps = λ endpoints w. le_self w.asked;
  list_keeps = λ w. le_self w.asked;
  sleep_keeps = λ w. le_self w.asked;
}

abbrev in_cluster : Inquirer
in_cluster = record {
  namespace = "default";
  name = "cluster-control-plane-a";
  cluster_namespace = "default";
  cluster_name = "cluster";
}

-- The component, whose host port for the peers of etcd is recorded, and the place it is at.
abbrev own_component : Component
own_component = record component_a { allocated_host_ports = (etcd_peer_host_port_name, 30001) ∷ [] }

abbrev own_place : Place
own_place = record { hypervisor_name = "host-a"; ip_address = "10.0.0.1"; port = 30001 }

abbrev stage_with : OneMember → Stage OneMember
stage_with w = record {
  components = own_component ∷ [];
  hypervisors = ("host-a", host_a) ∷ [];
  world = w;
}

abbrev learning : Stage OneMember
learning = stage_with (record { joined = true; learner = true; asked = 0 })

stage_with-Pinned : (o : OneMember) → Pinned in_cluster own_place (stage_with o)
unfolding oneinfra.Dict.lookup
stage_with-Pinned o =
    (((λ key. (refl, refl)), tt), λ h e. ap (λ (z : Hypervisor). z.ip_address) (sym (some_inj e)))

promote_etcd_learner-Votes_example :
    one_member_laws.Votes
      (place_url one_member in_cluster own_place)
      (promote_etcd_learner one_member in_cluster learning).1.world
unfolding promote_etcd_learner oneinfra.Component.Listing.with_role
    oneinfra.Component.Listing.with_cluster oneinfra.Dict.lookup oneinfra.Component.request_port
    oneinfra.Infra.Ports.request_port oneinfra.Dict.insert oneinfra.Component.with_subcomponent_name
promote_etcd_learner-Votes_example =
    promote_etcd_learner-Votes one_member one_member_laws in_cluster own_place learning
      (stage_with-Pinned learning.world) refl

remove_etcd_member-Absent_example :
    ((etcd_client_endpoints one_member in_cluster learning).0 ≡ [])
    ⊎ one_member_laws.Absent
        (place_url one_member in_cluster own_place)
        (remove_etcd_member one_member in_cluster learning).1.world
unfolding remove_etcd_member oneinfra.Component.Listing.with_role
    oneinfra.Component.Listing.with_cluster oneinfra.Dict.lookup oneinfra.Component.request_port
    oneinfra.Infra.Ports.request_port oneinfra.Dict.insert oneinfra.Component.with_subcomponent_name
remove_etcd_member-Absent_example =
    remove_etcd_member-Absent one_member one_member_laws in_cluster own_place learning
      (stage_with-Pinned learning.world) refl

setup_etcd_learner_bounded_example :
    one_member_calls.count (setup_etcd_learner one_member in_cluster learning).1.world
    ≤ one_member_calls.count learning.world + 60
setup_etcd_learner_bounded_example =
    setup_etcd_learner_bounded one_member one_member_calls in_cluster learning

promote_etcd_learner_bounded_example :
    one_member_calls.count (promote_etcd_learner one_member in_cluster learning).1.world
    ≤ one_member_calls.count learning.world + 300
promote_etcd_learner_bounded_example =
    promote_etcd_learner_bounded one_member one_member_calls in_cluster learning
