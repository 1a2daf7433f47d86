-- ===== src/Examples/Vpn.antt =====
-- A VPN in a network of four addresses, whose large numbers are written out.
use native.Mathlib.Nat.{pow-succ'}
use oneinfra.Base.{
  ℕ, zero, suc, ◌+◌, ◌*◌, ◌/◌, ◌%◌, ◌^◌, ◌≤◌, ◌<◌, String, ◌≡◌, refl, sym, ap, ◌∙◌, subst, ◌⊎◌, inr,
  Bool, true, false, ◌&&◌, List, [], ◌∷◌, arith, eq_iff, eqb, ltb, if◌then◌else◌, length,
}
use oneinfra.Base.Errors.{ok}
use oneinfra.Vpn.{generate_vpn_peer, Network, Cidr}
use oneinfra.Vpn.Slices.{AddressLaws, AreBytes}
use oneinfra.Vpn.Addresses.{peers_after-Apart, peers_after, Apart}

abbrev number_of : List ℕ → ℕ
number_of [] = 0
number_of (b ∷ l) = b * 256 ^ length l + number_of l

abbrev digits : ℕ → ℕ → List ℕ → List ℕ
digits zero n later = later
digits (suc fuel) zero later = later
digits (suc fuel) (suc n) later = digits fuel (suc n / 256) (suc n % 256 ∷ later)

join_digits : (q r p v : ℕ) → q * (256 * p) + (r * p + v) ≡ (q * 256 + r) * p + v
join_digits q r p v = omega arith

divided : (n : ℕ) → suc n / 256 * 256 + suc n % 256 ≡ suc n
divided n = omega arith

number_of-digits :
    (fuel n : ℕ) (later : List ℕ)
    → n ≤ fuel
    → number_of (digits fuel n later) ≡ n * 256 ^ length later + number_of later
number_of-digits zero zero later enough = omega arith
number_of-digits zero (suc n) later enough = absurd (omega (arith, enough))
number_of-digits (suc fuel) zero later enough = omega arith
number_of-digits (suc fuel) (suc n) later enough =
    number_of-digits fuel (suc n / 256) (suc n % 256 ∷ later) (omega (arith, enough))
    ∙ rw (pow-succ' 256 (length later)) (
        join_digits (suc n / 256) (suc n % 256) (256 ^ length later) (number_of later)
        ∙ ap (λ z. z * 256 ^ length later + number_of later) (divided n))

digits-AreBytes : (fuel n : ℕ) (later : List ℕ) → AreBytes later → AreBytes (digits fuel n later)
digits-AreBytes zero n later all = all
digits-AreBytes (suc fuel) zero later all = all
digits-AreBytes (suc fuel) (suc n) later all =
    digits-AreBytes fuel (suc n / 256) (suc n % 256 ∷ later) (omega arith, all)

abbrev Leads : List ℕ → Type 0
Leads [] = Unit
Leads (b ∷ l) = 0 < b

digits-Leads :
    (fuel n : ℕ) (later : List ℕ) → n ≤ fuel → (n ≡ 0 → Leads later) → Leads (digits fuel n later)
digits-Leads zero n later enough leads = leads (omega (arith, enough))
digits-Leads (suc fuel) zero later enough leads = leads refl
digits-Leads (suc fuel) (suc n) later enough leads =
    digits-Leads fuel (suc n / 256) (suc n % 256 ∷ later) (omega (arith, enough))
      λ e. omega (arith, e)

le_self : (n : ℕ) → n ≤ n
le_self n = omega arith

abbrev four_contains : List ℕ → Bool
four_contains (a ∷ b ∷ c ∷ d ∷ []) = eqb a 10 && eqb b 0 && eqb c 0 && ltb d 4
four_contains _ = false

abbrev four_text : ℕ → String
four_text d =
    if eqb d 0
    then "10.0.0.0"
    else if eqb d 1
    then "10.0.0.1"
    else if eqb d 2
    then "10.0.0.2"
    else "10.0.0.3"

abbrev four_texts : List ℕ → String
four_texts (a ∷ b ∷ c ∷ d ∷ []) = four_text d
four_texts _ = ""

abbrev four_addresses : Cidr
four_addresses = record {
  ip_to16 = 0 ∷ 0 ∷ 0 ∷ 0 ∷ 0 ∷ 0 ∷ 0 ∷ 0 ∷ 0 ∷ 0 ∷ 255 ∷ 255 ∷ 10 ∷ 0 ∷ 0 ∷ 0 ∷ [];
  contains = four_contains;
  text = "10.0.0.0/30";
  peer_address = λ ip. ip;
}

abbrev plain_network : Network ℕ
plain_network = record {
  set_bytes = number_of;
  bytes = λ n. digits n n [];
  ip_string = four_texts;
  generate_key = λ w. (ok ("private", "public"), w + 1);
}

-- The addresses that the network contains.
which_slice : (l : List ℕ) → four_contains l ≡ true → (d : ℕ) × (d < 4) × (l ≡ 10 ∷ 0 ∷ 0 ∷ d ∷ [])
which_slice [] e = cc
which_slice (a ∷ []) e = cc
which_slice (a ∷ b ∷ []) e = cc
which_slice (a ∷ b ∷ c ∷ []) e = cc
which_slice (a ∷ b ∷ c ∷ d ∷ []) e = (d, ground (arith, e), ground (arith, e))
which_slice (a ∷ b ∷ c ∷ d ∷ x ∷ l) e = cc

four_text-apart : (d f : ℕ) → d < 4 → f < 4 → four_text d ≡ four_text f → d ≡ f
four_text-apart d f hd hf e = ground (
  arith,
  eq_iff "10.0.0.0" "10.0.0.1",
  eq_iff "10.0.0.0" "10.0.0.2",
  eq_iff "10.0.0.0" "10.0.0.3",
  eq_iff "10.0.0.1" "10.0.0.2",
  eq_iff "10.0.0.1" "10.0.0.3",
  eq_iff "10.0.0.2" "10.0.0.3",
)

four_texts-apart :
    (s t : List ℕ)
    → four_contains s ≡ true
    → four_contains t ≡ true
    → four_texts s ≡ four_texts t
    → s ≡ t
four_texts-apart s t c d e =
    let (a, ha, p) = which_slice s c in
    let (b, hb, q) = which_slice t d in
    let same : four_text a ≡ four_text b = ap four_texts (sym p) ∙ (e ∙ ap four_texts q) in
    p ∙ (ap (λ z. 10 ∷ 0 ∷ 0 ∷ z ∷ []) (four_text-apart a b ha hb same) ∙ sym q)

small_bytes : AreBytes four_addresses.ip_to16
small_bytes = ground arith

four_length :
    (l : List ℕ)
    → four_contains l ≡ true
    → (length l ≡ 16)
      ⊎ ((length l ≡ 4)
          × (281470681743360 ≤ number_of four_addresses.ip_to16)
          × (number_of four_addresses.ip_to16 < 281474976710656))
four_length l c = let (d, below, e) = which_slice l c in inr (ap length e, omega arith, omega arith)

abbrev four_addresses_laws : AddressLaws plain_network four_addresses
four_addresses_laws = record {
  set_bytes_nil = refl;
  set_bytes_cons = λ b l. refl;
  set_bytes-bytes = λ n. number_of-digits n n [] (le_self n) ∙ omega arith;
  bytes-AreBytes = λ n. digits-AreBytes n n [] tt;
  bytes_leading = λ n b l e. subst Leads e (digits-Leads n n [] (le_self n) (λ z. tt));
  ip_length = refl;
  ip-AreBytes = small_bytes;
  contains_length = four_length;
  texts = λ s t c d n e. four_texts-apart s t c d e;
}

-- Three of the names get an address of their own.
peers_after-Apart_example :
    Apart plain_network four_addresses
      (peers_after plain_network four_addresses ("a" ∷ "b" ∷ "a" ∷ "c" ∷ []) [] 0)
unfolding generate_vpn_peer
peers_after-Apart_example =
    peers_after-Apart plain_network four_addresses four_addresses_laws ("a" ∷ "b" ∷ "a" ∷ "c" ∷ [])
      0 (omega arith)
