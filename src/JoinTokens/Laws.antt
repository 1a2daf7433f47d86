-- ===== src/JoinTokens/Laws.antt =====
-- Which tokens are created and deleted, and what a success of ReconcileJoinTokens means.
use oneinfra.Utils.Laws.{contains-keep, contains}
use oneinfra.JoinTokens.{
  token_loop, deleted, created, token_data, delete_token, create_token, SecretData, TokenCluster,
  SecretsClient, excess_tokens, substract_tokens, new_tokens, TokenCodecs, TokenSet, substract_loop,
  token_set,
}
use oneinfra.Base.{
  String, ◌≡◌, refl, sym, ap, ◌∙◌, subst, ◌≢◌, ◌⊎◌, inl, inr, Bool, true, false, not, ◌&&◌, ◌||◌,
  Option, none, some, List, [], ◌∷◌, ◌++◌, append_assoc, append-nil, arith, ◌==◌, eq_iff, eq_refl,
  if◌then◌else◌, Bool-cases, eq-false_of_ne, keep, All,
}
use oneinfra.Base.Errors.{err, Result, ok, Error}
use oneinfra.Dict
use oneinfra.Dict.{has-insert}

has-token_set :
    (x : String) (s : TokenSet) (l : List String)
    → Dict.has x (token_set s l) ≡ (Dict.has x s || contains x l)
unfolding token_set
has-token_set x s [] = ground arith
has-token_set x s (y ∷ l) =
    ground
      (arith, has-token_set x (Dict.insert y tt s) l, has-insert y x tt s, eq_iff y x, eq_iff x y)

substract_loop_lem :
    (s : TokenSet) (res l : List String)
    → substract_loop s res l ≡ res ++ keep (λ y. not (Dict.has y s)) l
unfolding substract_loop
substract_loop_lem s res [] = sym (append-nil res)
substract_loop_lem s res (y ∷ l) = ground (
  arith,
  substract_loop_lem s res l,
  substract_loop_lem s (res ++ y ∷ []) l,
  append_assoc res (y ∷ []) (keep (λ z. not (Dict.has z s)) l),
)

-- A token is in the difference exactly if it is in the first list and not in the second.
pub contains-substract_tokens :
    (x : String) (l m : List String)
    → contains x (substract_tokens l m) ≡ (contains x l && not (contains x m))
unfolding substract_tokens Dict.has
contains-substract_tokens x l m = rw (
  substract_loop_lem (token_set [] m) [] l,
  contains-keep x (λ y. not (Dict.has y (token_set [] m))) l,
  has-token_set x [] m,
)

-- A token is desired exactly if it is current or new, and not in excess.
current-tokens_applied :
    (x : String) (cluster : TokenCluster)
    → ((contains x cluster.current_join_tokens || contains x (new_tokens cluster))
        && not (contains x (excess_tokens cluster)))
      ≡ contains x cluster.desired_join_tokens
unfolding new_tokens excess_tokens
current-tokens_applied x cluster = ground (
  arith,
  contains-substract_tokens x cluster.desired_join_tokens cluster.current_join_tokens,
  contains-substract_tokens x cluster.current_join_tokens cluster.desired_join_tokens,
)

module _ (codecs : TokenCodecs) {W : Type 0} (client : SecretsClient W)
    (stored : W → String → Bool) where
  -- What a creation and a deletion of a secret do, by the names of the secrets that are stored.
  pub record KeepsSecrets : Type 0 where
    pub creates :
        (n : String) (d : SecretData) (w : W)
        → (client.create_secret n d w).1 ≡ none
        → (m : String)
        → stored (client.create_secret n d w).0 m ≡ (if n == m then true else stored w m)
    pub already_there :
        (n : String) (d : SecretData) (w : W) (e : Error)
        → (client.create_secret n d w).1 ≡ some e
        → codecs.is_already_exists e ≡ true
        → (stored w n ≡ true)
          × ((m : String) → stored (client.create_secret n d w).0 m ≡ stored w m)
    pub deletes :
        (n : String) (w : W)
        → (client.delete_secret n w).1 ≡ none
        → (m : String)
        → stored (client.delete_secret n w).0 m ≡ (if n == m then false else stored w m)

  -- The name of the secret of a token.
  abbrev pub SecretOf : String → String → Type 0
  SecretOf t n =
      (p : String × String) × (codecs.parse_token t ≡ ok p)
      × (n ≡ codecs.bootstrap_token_secret_name p.0)

  pub world-created : (r : W × Option Error) → (created codecs client r).0 ≡ r.0
  world-created (w, none) = refl
  world-created (w, some e) = refl

  pub created_success :
      (r : W × Option Error)
      → (created codecs client r).1 ≡ true
      → (r.1 ≡ none) ⊎ ((e : Error) × (r.1 ≡ some e) × (codecs.is_already_exists e ≡ true))
  created_success (w, none) h = inl refl
  created_success (w, some e) h = inr (e, refl, h)

  pub world-deleted : (r : W × Option Error) → (deleted codecs client r).0 ≡ r.0
  world-deleted (w, none) = refl
  world-deleted (w, some e) = refl

  pub deleted_success : (r : W × Option Error) → (deleted codecs client r).1 ≡ true → r.1 ≡ none
  deleted_success (w, none) h = refl
  deleted_success (w, some e) h = cc

  -- A round that succeeds leaves a secret of its name, or none, and the other names as they were.
  abbrev pub Sets : Bool → (Result (String × String) → W → W × Bool) → Type 0
  Sets b round =
      (r : Result (String × String)) (w : W)
      → (round r w).1 ≡ true
      → (p : String × String) × (r ≡ ok p)
        × ((m : String)
            → stored (round r w).0 m
              ≡ (if codecs.bootstrap_token_secret_name p.0 == m then b else stored w m))

  known :
      (n m : String) (w : W)
      → stored w n ≡ true
      → stored w m ≡ (if n == m then true else stored w m)
  known n m w h = elim (Bool-cases (n == m)) [
    | inl q ↦ rw q (subst (λ z. stored w z ≡ true) ((eq_iff n m).0 q) h)
    | inr q ↦ rw q refl
  ]

  module _ (laws : KeepsSecrets) where
    pub create_token-Sets : Sets true (create_token codecs client)
    create_token-Sets (err e) w h = cc
    create_token-Sets (ok (i, s)) w h =
        let n = codecs.bootstrap_token_secret_name i in
        let d = token_data codecs i s in
        let r = client.create_secret n d w in
        (
          (i, s),
          refl,
          (λ m. ap (λ z. stored z m) (world-created r) ∙ elim (created_success r h) [
            | inl q ↦ laws.creates n d w q m
            | inr (e, q, a) ↦
                let (there, same) = laws.already_there n d w e q a in same m ∙ known n m w there
          ]),
        )

    pub delete_token-Sets : Sets false (delete_token codecs client)
    delete_token-Sets (err e) w h = cc
    delete_token-Sets (ok (i, s)) w h =
        let n = codecs.bootstrap_token_secret_name i in
        let r = client.delete_secret n w in
        (
          (i, s),
          refl,
          (λ m. ap (λ z. stored z m) (world-deleted r) ∙ laws.deletes n w (deleted_success r h) m),
        )

  module _ (b : Bool) (round : Result (String × String) → W → W × Bool) (sets : Sets b round) where
    abbrev loops : List String → Bool → W → W × Bool
    loops = token_loop codecs client round

    loop_flag : (tokens : List String) (a : Bool) (w : W) → (loops tokens a w).1 ≡ true → a ≡ true
    unfolding token_loop
    loop_flag [] a w h = h
    loop_flag (t ∷ tokens) a w h =
        ground (arith, loop_flag tokens _ (round (codecs.parse_token t) w).0 h)

    loop_succeeded :
        (t : String) (tokens : List String) (a : Bool) (w : W)
        → (loops (t ∷ tokens) a w).1 ≡ true
        → (round (codecs.parse_token t) w).1 ≡ true
    unfolding token_loop
    loop_succeeded t tokens a w h =
        ground (arith, loop_flag tokens _ (round (codecs.parse_token t) w).0 h)

    -- What the rounds have set stays set.
    loop_keeps :
        (tokens : List String) (a : Bool) (w : W) (m : String)
        → (loops tokens a w).1 ≡ true
        → stored w m ≡ b
        → stored (loops tokens a w).0 m ≡ b
    unfolding token_loop
    loop_keeps [] a w m h k = k
    loop_keeps (t ∷ tokens) a w m h k =
        let (p, e, q) = sets (codecs.parse_token t) w (loop_succeeded t tokens a w h) in
        loop_keeps tokens _ (round (codecs.parse_token t) w).0 m h (
          q m ∙ elim (Bool-cases (codecs.bootstrap_token_secret_name p.0 == m)) [
            | inl z ↦ rw z refl
            | inr z ↦ rw z k
          ])

    pub loop_sets :
        (tokens : List String) (a : Bool) (w : W)
        → (loops tokens a w).1 ≡ true
        → All (λ t. (n : String) × SecretOf t n × (stored (loops tokens a w).0 n ≡ b)) tokens
    unfolding token_loop
    loop_sets [] a w h = tt
    loop_sets (t ∷ tokens) a w h =
        let (p, e, q) = sets (codecs.parse_token t) w (loop_succeeded t tokens a w h) in
        let n = codecs.bootstrap_token_secret_name p.0 in
        let w' = (round (codecs.parse_token t) w).0 in
        (
          (n, (p, e, refl), loop_keeps tokens _ w' n h (q n ∙ rw (eq_refl n) refl)),
          loop_sets tokens _ w' h,
        )

    -- The secrets that no token of the loop names stay as they were.
    pub loop_leaves :
        (tokens : List String) (a : Bool) (w : W) (m : String)
        → (loops tokens a w).1 ≡ true
        → All (λ t. (n : String) → SecretOf t n → n ≢ m) tokens
        → stored (loops tokens a w).0 m ≡ stored w m
    unfolding token_loop
    loop_leaves [] a w m h others = refl
    loop_leaves (t ∷ tokens) a w m h others =
        let (p, e, q) = sets (codecs.parse_token t) w (loop_succeeded t tokens a w h) in
        let n = codecs.bootstrap_token_secret_name p.0 in
        loop_leaves tokens _ (round (codecs.parse_token t) w).0 m h others.1
        ∙ (q m ∙ rw (eq-false_of_ne n m (others.0 n (p, e, refl))) refl)
