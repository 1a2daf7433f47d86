-- ===== src/Infra/Listing.antt =====
-- Maps and lists of hypervisors: PublicList, PrivateList, List, IPAddresses and Sample of
-- internal/pkg/infra/hypervisor.go. `rand.Intn` is no code of the repository: it is a parameter.
use oneinfra.Base.{
  ℕ, zero, suc, ◌+◌, ◌<◌, String, ◌≡◌, refl, ap, subst, true, false, Option, none, some, List, [],
  ◌∷◌, arith, if◌then◌else◌, length, get_elem?, All, All-mono, All-if,
}
use mathlib.Core.List.{Mem, mem-cons_self, mem-cons_of_mem}
use oneinfra.Base.Errors.{ok_inj, Result, ok, err, errorf}
use oneinfra.Dict.{Dict}
use oneinfra.Infra.Hypervisor.{Hypervisor}

abbrev pub HypervisorMap : Type 0
HypervisorMap = Dict Hypervisor

abbrev pub HypervisorList : Type 0
HypervisorList = List Hypervisor

unfoldable pub list : HypervisorMap → HypervisorList
list [] = []
list ((_, hypervisor) ∷ hypervisors) = hypervisor ∷ list hypervisors

unfoldable pub public_list : HypervisorMap → HypervisorList
public_list [] = []
public_list ((_, hypervisor) ∷ hypervisors) =
    let rest = public_list hypervisors in if hypervisor.public then hypervisor ∷ rest else rest

unfoldable pub private_list : HypervisorMap → HypervisorList
private_list [] = []
private_list ((_, hypervisor) ∷ hypervisors) =
    let rest = private_list hypervisors in if hypervisor.public then rest else hypervisor ∷ rest

unfoldable pub ip_addresses : HypervisorList → List String
ip_addresses [] = []
ip_addresses (hypervisor ∷ hypervisors) = hypervisor.ip_address ∷ ip_addresses hypervisors

-- What an index out of range does: the program panics.
abbrev pub index_panic : {A : Type 0} → Option A → Result A
index_panic none = err (errorf "index out of range" [])
index_panic (some a) = ok a

-- list[rand.Intn(len(list))], for hypervisors and for components.
abbrev pub sample : {A : Type 0} → (ℕ → ℕ) → String → List A → Result A
sample rand_intn message [] = err (errorf message [])
sample rand_intn message (a ∷ list) =
    index_panic (get_elem? (a ∷ list) (rand_intn (length (a ∷ list))))

abbrev pub sample_hypervisor : (ℕ → ℕ) → HypervisorList → Result Hypervisor
sample_hypervisor rand_intn = sample rand_intn "no hypervisors available"

-- What Go documents of `rand.Intn`.
abbrev pub DrawsBelow : (ℕ → ℕ) → Type 0
DrawsBelow rand_intn = (n : ℕ) → 0 < n → rand_intn n < n

get_elem?-All :
    {A : Type 0} (P : A → Type 0) (l : List A) (i : ℕ)
    → i < length l
    → All P l
    → (a : A) × (get_elem? l i ≡ some a) × P a
get_elem?-All P [] i h all = absurd (omega arith)
get_elem?-All P (a ∷ l) zero h all = (a, refl, all.0)
get_elem?-All P (a ∷ l) (suc i) h all = get_elem?-All P l i (omega arith) all.1

-- A sample of a non-empty list exists, and has every property that all elements have.
pub sample-All :
    {A : Type 0} (P : A → Type 0) (rand_intn : ℕ → ℕ) (message : String) (l : List A)
    → DrawsBelow rand_intn
    → 0 < length l
    → All P l
    → (a : A) × (sample rand_intn message l ≡ ok a) × P a
sample-All P rand_intn message [] draws h all = absurd (omega arith)
sample-All P rand_intn message (a ∷ l) draws h all =
    let (b, e, p) = get_elem?-All P (a ∷ l) (rand_intn (length (a ∷ l))) (draws _ h) all in
    (b, ap index_panic e, p)

pub All-public_list : (m : HypervisorMap) → All (λ h. h.public ≡ true) (public_list m)
unfolding public_list
All-public_list [] = tt
All-public_list ((k, h) ∷ m) = ground (arith, All-public_list m)

pub All-private_list : (m : HypervisorMap) → All (λ h. h.public ≡ false) (private_list m)
unfolding private_list
All-private_list [] = tt
All-private_list ((k, h) ∷ m) = ground (arith, All-private_list m)

-- Each hypervisor of the map is in exactly one of the public and the private list.
pub length-public-private :
    (m : HypervisorMap) → length (public_list m) + length (private_list m) ≡ length (list m)
unfolding list public_list private_list
length-public-private [] = omega arith
length-public-private ((k, h) ∷ m) = ground (arith, length-public-private m)

get_elem?-All_some :
    {A : Type 0} (P : A → Type 0) (l : List A) (i : ℕ) (a : A)
    → All P l
    → index_panic (get_elem? l i) ≡ ok a
    → P a
get_elem?-All_some P [] i a all e = cc
get_elem?-All_some P (b ∷ l) zero a all e = subst P (ok_inj e) all.0
get_elem?-All_some P (b ∷ l) (suc i) a all e = get_elem?-All_some P l i a all.1 e

-- What a sample yields has every property that all elements have.
pub All-sample :
    {A : Type 0} (P : A → Type 0) (rand_intn : ℕ → ℕ) (message : String) (l : List A) (a : A)
    → All P l
    → sample rand_intn message l ≡ ok a
    → P a
All-sample P rand_intn message [] a all e = cc
All-sample P rand_intn message (b ∷ l) a all e =
    get_elem?-All_some P (b ∷ l) (rand_intn (length (b ∷ l))) a all e

pub Mem-private_list : (m : HypervisorMap) → All (λ h. Mem h (list m)) (private_list m)
unfolding list private_list
Mem-private_list [] = tt
Mem-private_list ((k, h) ∷ m) =
    let rest =
      All-mono (λ x. Mem x (list m)) (λ x. Mem x (h ∷ list m)) (private_list m)
        (λ x. mem-cons_of_mem h) (Mem-private_list m) in
    All-if _ h.public (private_list m) (h ∷ private_list m) rest (mem-cons_self, rest)

pub Mem-public_list : (m : HypervisorMap) → All (λ h. Mem h (list m)) (public_list m)
unfolding list public_list
Mem-public_list [] = tt
Mem-public_list ((k, h) ∷ m) =
    let rest =
      All-mono (λ x. Mem x (list m)) (λ x. Mem x (h ∷ list m)) (public_list m)
        (λ x. mem-cons_of_mem h) (Mem-public_list m) in
    All-if _ h.public (h ∷ public_list m) (public_list m) (mem-cons_self, rest) rest
