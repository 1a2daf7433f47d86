-- ===== src/Vpn/Slices.antt =====
-- The bytes of the addresses that internal/pkg/cluster/cluster.go assigns in a VPN.
use oneinfra.Base.{
  ℕ, suc, ◌+◌, ◌-◌, ◌*◌, ◌^◌, ◌≤◌, ◌<◌, String, ◌≡◌, refl, sym, ap, ◌∙◌, subst, ◌⊎◌, inl, inr, true,
  List, [], ◌∷◌, arith, eqb, if◌then◌else◌, Bool-cases, length, All,
}
use native.Mathlib.Nat.{pow-succ'}
use oneinfra.Base.Errors.{ok, err, ok_inj, Result}
use oneinfra.Base.Actions.{err_ne_ok}
use oneinfra.Vpn.{Network, Cidr, without_two, assigned_bytes, assigned_address}

-- The bytes of an address.
abbrev pub AreBytes : List ℕ → Type 0
AreBytes l = All (λ b. b < 256) l

-- What the code relies on. A large number is written with the fewest bytes, the highest first. The
-- network has an address of 16 bytes, and contains addresses of 16 bytes, or of 4 if its own address
-- is one of version 4 in the longer form; among those of one length it gives different texts to
-- different addresses.
pub record AddressLaws {W : Type 0} (network : Network W) (cidr : Cidr) : Type 0 where
  pub set_bytes_nil : network.set_bytes [] ≡ 0
  pub set_bytes_cons :
      (b : ℕ) (l : List ℕ) → network.set_bytes (b ∷ l) ≡ b * 256 ^ length l + network.set_bytes l
  pub set_bytes-bytes : (n : ℕ) → network.set_bytes (network.bytes n) ≡ n
  pub bytes-AreBytes : (n : ℕ) → AreBytes (network.bytes n)
  pub bytes_leading : (n b : ℕ) (l : List ℕ) → network.bytes n ≡ b ∷ l → 0 < b
  pub ip_length : length cidr.ip_to16 ≡ 16
  pub ip-AreBytes : AreBytes cidr.ip_to16
  pub contains_length :
      (l : List ℕ)
      → cidr.contains l ≡ true
      → (length l ≡ 16)
        ⊎ ((length l ≡ 4)
            × (281470681743360 ≤ network.set_bytes cidr.ip_to16)
            × (network.set_bytes cidr.ip_to16 < 281474976710656))
  pub texts :
      (s t : List ℕ)
      → cidr.contains s ≡ true
      → cidr.contains t ≡ true
      → length s ≡ length t
      → cidr.peer_address (network.ip_string s) ≡ cidr.peer_address (network.ip_string t)
      → s ≡ t

digit_below_by : (k b p s : ℕ) → s < p → b * p + s < (b + suc k) * p
digit_below_by k b p s hs = omega (arith, hs)

digit_below : (b p s : ℕ) → b < 256 → s < p → b * p + s < 256 * p
digit_below b p s hb hs =
    let split : b + suc (255 - b) ≡ 256 = omega (arith, hb) in
    subst (λ n. b * p + s < n * p) split (digit_below_by (255 - b) b p s hs)

digit_above : (b p : ℕ) → 0 < b → p ≤ b * p
digit_above b p hb =
    let split : suc (b - 1) ≡ b = omega (arith, hb) in subst (λ n. p ≤ n * p) split (leq (b - 1) p)
  where
    leq : (c p : ℕ) → p ≤ suc c * p
    leq c p = omega arith

module _ {W : Type 0} (network : Network W) (cidr : Cidr) (laws : AddressLaws network cidr) where
  set_bytes_below : (l : List ℕ) → AreBytes l → network.set_bytes l < 256 ^ length l
  set_bytes_below [] all = omega (arith, laws.set_bytes_nil)
  set_bytes_below (b ∷ l) all =
      rw (laws.set_bytes_cons b l, pow-succ' 256 (length l))
        (digit_below b (256 ^ length l) (network.set_bytes l) all.0 (set_bytes_below l all.1))

  abbrev base : ℕ
  base = network.set_bytes cidr.ip_to16

  base_below : base < 256 ^ 16
  base_below =
      subst (λ n. base < 256 ^ n) laws.ip_length (set_bytes_below cidr.ip_to16 laws.ip-AreBytes)

  -- Which number the bytes of the i-th address stand for.
  abbrev Located : ℕ → List ℕ → Type 0
  Located i slice =
      ((length slice ≡ 16) × (base + i ≡ network.set_bytes slice) × (256 ^ 15 ≤ base + i))
      ⊎ ((length slice ≡ 4)
          × (base + i ≡ 281470681743360 + network.set_bytes slice)
          × (base < 281474976710656))

  whole :
      (i a : ℕ) (rest : List ℕ)
      → network.bytes (base + i) ≡ a ∷ rest
      → length rest ≡ 15
      → Located i (a ∷ rest)
  whole i a rest e n =
      let value = ap network.set_bytes (sym e) ∙ laws.set_bytes-bytes (base + i) in
      let first = laws.bytes_leading (base + i) a rest e in
      let cons =
        subst (λ k. network.set_bytes (a ∷ rest) ≡ a * 256 ^ k + network.set_bytes rest) n
          (laws.set_bytes_cons a rest) in
      inl (omega (arith, n), sym value, omega (arith, value, cons, digit_above a (256 ^ 15) first))

  -- The bytes of a number without the first two of them.
  two_digits :
      (i a b : ℕ) (rest : List ℕ) (k : ℕ)
      → network.bytes (base + i) ≡ a ∷ b ∷ rest
      → length rest ≡ k
      → base + i ≡ a * 256 ^ suc k + (b * 256 ^ k + network.set_bytes rest)
  two_digits i a b rest k e n =
      let value = ap network.set_bytes (sym e) ∙ laws.set_bytes-bytes (base + i) in
      subst (λ z. base + i ≡ a * 256 ^ suc z + (b * 256 ^ z + network.set_bytes rest)) n
        (sym value
          ∙ (laws.set_bytes_cons a (b ∷ rest)
              ∙ ap (λ z. a * 256 ^ suc (length rest) + z) (laws.set_bytes_cons b rest)))

  stripped :
      (i a b : ℕ) (rest : List ℕ)
      → i < 18446744073709551616
      → network.bytes (base + i) ≡ a ∷ b ∷ rest
      → cidr.contains rest ≡ true
      → Located i rest
  stripped i a b rest small e c =
      let first = laws.bytes_leading (base + i) a (b ∷ rest) e in
      let digits = subst AreBytes e (laws.bytes-AreBytes (base + i)) in
      elim (laws.contains_length rest c) [
        | inl n ↦ absurd (
            omega (
              arith,
              two_digits i a b rest 16 e n,
              digit_above a (256 ^ 17) first,
              base_below,
              small,
            ))
        | inr (n, low, high) ↦ inr (
          n,
          omega (
            arith,
            two_digits i a b rest 4 e n,
            subst (λ k. network.set_bytes rest < 256 ^ k) n (set_bytes_below rest digits.1.1),
            digits.0,
            digits.1.0,
            low,
            high,
            small,
            first,
          ),
          high,
        )
      ]

  -- The slice that an address was made of.
  abbrev IsSliceOf : ℕ → String → Type 0
  IsSliceOf i s =
      (slice : List ℕ) × (cidr.contains slice ≡ true)
      × (network.ip_string slice ≡ s)
      × Located i slice

  of_slice :
      (i : ℕ) (s : String) (r : Result (List ℕ))
      → ((slice : List ℕ) → r ≡ ok slice → cidr.contains slice ≡ true → Located i slice)
      → assigned_address network cidr r ≡ ok s
      → IsSliceOf i s
  of_slice i s (err x) found e = absurd (err_ne_ok x s e)
  of_slice i s (ok slice) found e = elim (Bool-cases (cidr.contains slice)) [
    | inl c ↦ (slice, c, ok_inj (rw c at e), found slice refl c)
    | inr c ↦ absurd (err_ne_ok _ s (rw c at e))
  ]

  located :
      (i : ℕ) (l slice : List ℕ)
      → i < 18446744073709551616
      → network.bytes (base + i) ≡ l
      → (if eqb (length l) 16 then ok l else without_two l) ≡ ok slice
      → cidr.contains slice ≡ true
      → Located i slice
  located i [] slice small e f c = absurd (ground (arith, f))
  located i (a ∷ []) slice small e f c = absurd (ground (arith, f))
  located i (a ∷ b ∷ rest) slice small e f c = elim (Bool-cases (eqb (length (a ∷ b ∷ rest)) 16)) [
    | inl n ↦ subst (Located i) (ok_inj (rw n at f)) (whole i a (b ∷ rest) e (ground (arith, n)))
    | inr n ↦
        (let same : rest ≡ slice = ok_inj (rw n at f) in
          subst (Located i) same
            (stripped i a b rest small e (subst (λ z. cidr.contains z ≡ true) (sym same) c)))
  ]

  address-IsSliceOf :
      (i : ℕ) (s : String)
      → i < 18446744073709551616
      → assigned_address network cidr (assigned_bytes network cidr i) ≡ ok s
      → IsSliceOf i s
  unfolding assigned_bytes
  address-IsSliceOf i s small e =
      of_slice i s (assigned_bytes network cidr i)
        (λ slice f c. located i (network.bytes (base + i)) slice small refl f c) e

  same_slices :
      (i j : ℕ) (s t : List ℕ)
      → i < 18446744073709551616
      → j < 18446744073709551616
      → cidr.contains s ≡ true
      → cidr.contains t ≡ true
      → cidr.peer_address (network.ip_string s) ≡ cidr.peer_address (network.ip_string t)
      → Located i s
      → Located j t
      → i ≡ j
  same_slices i j s t small_i small_j c d same (inl (n, e, f)) (inl (m, g, h)) =
      omega (arith, e, g, ap network.set_bytes (laws.texts s t c d (n ∙ sym m) same))
  same_slices i j s t small_i small_j c d same (inl (n, e, f)) (inr (m, g, h)) =
      absurd (omega (arith, f, h, small_i))
  same_slices i j s t small_i small_j c d same (inr (n, e, f)) (inl (m, g, h)) =
      absurd (omega (arith, f, h, small_j))
  same_slices i j s t small_i small_j c d same (inr (n, e, f)) (inr (m, g, h)) =
      omega (arith, e, g, ap network.set_bytes (laws.texts s t c d (n ∙ sym m) same))

  -- Below the 2 ^ 64-th, no two addresses of the network have one text.
  pub assigned_address-apart :
      (i j : ℕ) (s t : String)
      → i < 18446744073709551616
      → j < 18446744073709551616
      → assigned_address network cidr (assigned_bytes network cidr i) ≡ ok s
      → assigned_address network cidr (assigned_bytes network cidr j) ≡ ok t
      → cidr.peer_address s ≡ cidr.peer_address t
      → i ≡ j
  assigned_address-apart i j s t small_i small_j e f same =
      let (slice, c, a, p) = address-IsSliceOf i s small_i e in
      let (other, d, b, q) = address-IsSliceOf j t small_j f in
      same_slices i j slice other small_i small_j c d
        (ap cidr.peer_address a ∙ (same ∙ sym (ap cidr.peer_address b))) p q
