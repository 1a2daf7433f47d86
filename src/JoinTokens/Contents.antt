-- ===== src/JoinTokens/Contents.antt =====
-- What the secrets hold that internal/pkg/cluster/join_tokens.go leaves in the cluster.
use oneinfra.JoinTokens.Laws.{
  KeepsSecrets, created_success, deleted_success, world-created, world-deleted,
}
use oneinfra.JoinTokens.Success.{created_all, removed_all}
use oneinfra.JoinTokens.{
  token_loop, token_data, SecretData, create_token, delete_token, new_tokens, excess_tokens,
  create_new_tokens, remove_excess_tokens, TokenCluster, SecretsClient, TokenCodecs,
}
use oneinfra.Base.{
  String, ◌≡◌, refl, sym, ap, ◌∙◌, subst, ◌⊎◌, inl, inr, Bool, true, false, Option, none, some,
  List, [], ◌∷◌, arith, ◌==◌, eq_iff, if◌then◌else◌, Bool-cases,
}
use oneinfra.Base.Errors.{ok, err, Error, Result}
use mathlib.Core.List.{Mem, mem-cons_self, mem-cons_of_mem}

abbrev pub is_some : {A : Type 0} → Option A → Bool
is_some none = false
is_some (some a) = true

pub some_of : {A : Type 0} (o : Option A) → is_some o ≡ true → (a : A) × (o ≡ some a)
some_of none h = cc
some_of (some a) h = (a, refl)

pub none_of : {A : Type 0} (o : Option A) → is_some o ≡ false → o ≡ none
none_of none h = refl
none_of (some a) h = cc

module _ (codecs : TokenCodecs) {W : Type 0} (client : SecretsClient W)
    (read : W → String → Option SecretData) where
  -- What a creation and a deletion of a secret do to the secrets that can be read by their names.
  pub record ReadsSecrets : Type 0 where
    pub creates :
        (n : String) (d : SecretData) (w : W)
        → (client.create_secret n d w).1 ≡ none
        → (m : String)
        → read (client.create_secret n d w).0 m ≡ (if n == m then some d else read w m)
    pub already_there :
        (n : String) (d : SecretData) (w : W) (e : Error)
        → (client.create_secret n d w).1 ≡ some e
        → codecs.is_already_exists e ≡ true
        → (is_some (read w n) ≡ true)
          × ((m : String) → read (client.create_secret n d w).0 m ≡ read w m)
    pub deletes :
        (n : String) (w : W)
        → (client.delete_secret n w).1 ≡ none
        → (m : String) → read (client.delete_secret n w).0 m ≡ (if n == m then none else read w m)

  -- Whether there is a secret of the name.
  abbrev pub stored : W → String → Bool
  stored w n = is_some (read w n)

  module _ (laws : ReadsSecrets) where
    pub stored-KeepsSecrets : KeepsSecrets codecs client stored
    stored-KeepsSecrets = record {
      creates = λ n d w h m. ap is_some (laws.creates n d w h m) ∙ ground arith;
      already_there = λ n d w e h a.
          let (there, same) = laws.already_there n d w e h a in (there, λ m. ap is_some (same m));
      deletes = λ n w h m. ap is_some (laws.deletes n w h m) ∙ ground arith;
    }

    -- A secret with the id and the secret of a token, for the authentication of nodes that join.
    abbrev pub IsTokenSecret : String × String → SecretData → Type 0
    IsTokenSecret (token_id, token_secret) d =
        Mem (codecs.id_key, token_id) d
        × Mem (codecs.secret_key, token_secret) d
        × Mem (codecs.usage_authentication_key, "true") d
        × Mem (codecs.extra_groups_key, "system:bootstrappers:oneinfra") d

    -- The secret was there before, or it is that of one of the tokens.
    abbrev pub Origin : W → List String → String → SecretData → Type 0
    Origin before tokens n d =
        (read before n ≡ some d)
        ⊎ ((t : String) × Mem t tokens
            × (p : String × String) × (codecs.parse_token t ≡ ok p)
            × (codecs.bootstrap_token_secret_name p.0 ≡ n)
            × IsTokenSecret p d)

    -- Where all secrets come from.
    abbrev pub Traced : W → List String → W → Type 0
    Traced before tokens w =
        (n : String) (d : SecretData) → read w n ≡ some d → Origin before tokens n d

    token_data-IsTokenSecret : (p : String × String) → IsTokenSecret p (token_data codecs p.0 p.1)
    token_data-IsTokenSecret p = (
      mem-cons_of_mem _ mem-cons_self,
      mem-cons_of_mem _ (mem-cons_of_mem _ mem-cons_self),
      mem-cons_of_mem _ (mem-cons_of_mem _ (mem-cons_of_mem _ mem-cons_self)),
      mem-cons_of_mem _ (mem-cons_of_mem _ (mem-cons_of_mem _ (mem-cons_of_mem _ mem-cons_self))),
    )

    created-Traced :
        (before : W) (tokens : List String) (t : String) (p : String × String)
        → Mem t tokens
        → codecs.parse_token t ≡ ok p
        → (w w' : W) → Traced before tokens w
        → ((m : String)
            → read w' m ≡ (
                if codecs.bootstrap_token_secret_name p.0 == m
                then some (token_data codecs p.0 p.1)
                else read w m))
        → Traced before tokens w'
    created-Traced before tokens t p t_in parsed w w' traced sets n d e =
        elim (Bool-cases (codecs.bootstrap_token_secret_name p.0 == n)) [
          | inl q ↦
              let same : token_data codecs p.0 p.1 ≡ d = ground (arith, sets n, q, e) in
              inr (
                t,
                t_in,
                p,
                parsed,
                (eq_iff (codecs.bootstrap_token_secret_name p.0) n).0 q,
                subst (IsTokenSecret p) same (token_data-IsTokenSecret p),
              )
          | inr q ↦ traced n d (ground (arith, sets n, q, e))
        ]

    create_token-Traced :
        (before : W) (tokens : List String) (t : String)
        → Mem t tokens
        → (r : Result (String × String)) → codecs.parse_token t ≡ r
        → (w : W) → (create_token codecs client r w).1 ≡ true
        → Traced before tokens w
        → Traced before tokens (create_token codecs client r w).0
    create_token-Traced before tokens t t_in (err x) parsed w h traced = traced
    create_token-Traced before tokens t t_in (ok (i, s)) parsed w h traced =
        let n = codecs.bootstrap_token_secret_name i in
        let r = client.create_secret n (token_data codecs i s) w in
        subst (Traced before tokens) (sym (world-created codecs client stored r))
          (elim (created_success codecs client stored r h) [
            | inl q ↦
                created-Traced before tokens t (i, s) t_in parsed w r.0 traced
                  (laws.creates n (token_data codecs i s) w q)
            | inr (e, q, a) ↦ λ m d there.
                traced m d
                  (sym ((laws.already_there n (token_data codecs i s) w e q a).1 m) ∙ there)
          ])

    delete_token-Traced :
        (before : W) (tokens : List String) (r : Result (String × String)) (w : W)
        → (delete_token codecs client r w).1 ≡ true
        → Traced before tokens w
        → Traced before tokens (delete_token codecs client r w).0
    delete_token-Traced before tokens (err x) w h traced = traced
    delete_token-Traced before tokens (ok (i, s)) w h traced =
        let n = codecs.bootstrap_token_secret_name i in
        let r = client.delete_secret n w in
        subst (Traced before tokens) (sym (world-deleted codecs client stored r)) λ m d there.
          traced m d
            (ground (arith, there, laws.deletes n w (deleted_success codecs client stored r h) m))

    module _ (round : Result (String × String) → W → W × Bool) where
      loop_flag :
          (tokens : List String) (a : Bool) (w : W)
          → (token_loop codecs client round tokens a w).1 ≡ true
          → a ≡ true
      unfolding token_loop
      loop_flag [] a w h = h
      loop_flag (t ∷ tokens) a w h =
          ground (arith, loop_flag tokens _ (round (codecs.parse_token t) w).0 h)

      -- What every round that succeeds keeps, a loop that succeeds keeps.
      loop_traced :
          (P : W → Type 0) (tokens : List String)
          → ((t : String)
              → Mem t tokens
              → (w : W) → (round (codecs.parse_token t) w).1 ≡ true
              → P w
              → P (round (codecs.parse_token t) w).0)
          → (a : Bool) (w : W) → (token_loop codecs client round tokens a w).1 ≡ true
          → P w
          → P (token_loop codecs client round tokens a w).0
      unfolding token_loop
      loop_traced P [] keeps a w h p = p
      loop_traced P (t ∷ tokens) keeps a w h p =
          loop_traced P tokens (λ u u_in. keeps u (mem-cons_of_mem t u_in)) _
            (round (codecs.parse_token t) w).0 h
            (keeps t mem-cons_self w
              (ground (arith, loop_flag tokens _ (round (codecs.parse_token t) w).0 h)) p)

    pub removed-Traced :
        (cluster : TokenCluster) (w : W)
        → (created_all codecs client stored stored-KeepsSecrets cluster w).1 ≡ true
        → (removed_all codecs client stored stored-KeepsSecrets cluster w).1 ≡ true
        → Traced w
            (new_tokens cluster)
            (removed_all codecs client stored stored-KeepsSecrets cluster w).0
    unfolding create_new_tokens remove_excess_tokens
    removed-Traced cluster w h g =
        let P = Traced w (new_tokens cluster) in
        loop_traced (delete_token codecs client) P (excess_tokens cluster)
          (λ t t_in. delete_token-Traced w (new_tokens cluster) (codecs.parse_token t)) true _ g
          (loop_traced (create_token codecs client) P (new_tokens cluster)
            (λ t t_in.
              create_token-Traced w (new_tokens cluster) t t_in (codecs.parse_token t) refl)
            true w h (λ n d e. inl e))
