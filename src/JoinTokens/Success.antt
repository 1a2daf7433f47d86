-- ===== src/JoinTokens/Success.antt =====
-- What a success of ReconcileJoinTokens means for the secrets in the cluster.
use oneinfra.JoinTokens.Laws.{
  create_token-Sets, delete_token-Sets, loop_leaves, loop_sets, SecretOf, KeepsSecrets,
}
use oneinfra.JoinTokens.{
  reconcile_listed, token_from_secret, SecretData, reconcile_join_tokens, create_token,
  delete_token, new_tokens, excess_tokens, create_new_tokens, tokens_reconciled,
  remove_excess_tokens, TokenCluster, SecretsClient, TokenCodecs,
}
use oneinfra.Base.{
  String, ◌≡◌, refl, sym, ◌∙◌, subst, ◌≢◌, Bool, true, false, none, List, map, All, All-mono,
  All-both,
}
use oneinfra.Base.Errors.{ok}

module _ (codecs : TokenCodecs) {W : Type 0} (client : SecretsClient W) (stored : W → String → Bool)
    (laws : KeepsSecrets codecs client stored) where
  -- The secret of the token is stored, or is not.
  abbrev pub HasSecret : Bool → W → String → Type 0
  HasSecret b w t = (n : String) × SecretOf codecs client stored t n × (stored w n ≡ b)

  -- No token of the list has a secret of the name.
  abbrev pub NoneNamed : List String → String → Type 0
  NoneNamed tokens n = All (λ u. (k : String) → SecretOf codecs client stored u k → k ≢ n) tokens

  -- The secret of the token is stored unless it has the name of the secret of one of the others.
  abbrev pub StoredUnless : List String → W → String → Type 0
  StoredUnless others w t =
      (n : String) × SecretOf codecs client stored t n × (NoneNamed others n → stored w n ≡ true)

  pub both_succeeded :
      (cluster : TokenCluster) (w : W) (a b : Bool)
      → (tokens_reconciled codecs client cluster (w, a, b)).1 ≡ none
      → (a ≡ true) × (b ≡ true)
  both_succeeded cluster w true true h = (refl, refl)
  both_succeeded cluster w true false h = cc
  both_succeeded cluster w false b h = cc

  module _ (cluster : TokenCluster) (w : W) where
    abbrev pub created_all : W × Bool
    created_all = create_new_tokens codecs client cluster w

    abbrev pub removed_all : W × Bool
    removed_all = remove_excess_tokens codecs client cluster created_all.0

    excess_removed :
        removed_all.1 ≡ true → All (HasSecret false removed_all.0) (excess_tokens cluster)
    unfolding remove_excess_tokens
    excess_removed h =
        loop_sets codecs client stored false (delete_token codecs client)
          (delete_token-Sets codecs client stored laws) (excess_tokens cluster) true created_all.0 h

    new_stored :
        created_all.1 ≡ true
        → removed_all.1 ≡ true
        → All (StoredUnless (excess_tokens cluster) removed_all.0) (new_tokens cluster)
    unfolding remove_excess_tokens create_new_tokens
    new_stored h g =
        All-mono (HasSecret true created_all.0) (StoredUnless (excess_tokens cluster) removed_all.0)
          (new_tokens cluster)
          (λ t (n, s, k). (
            n,
            s,
            (λ others.
                loop_leaves codecs client stored false (delete_token codecs client)
                  (delete_token-Sets codecs client stored laws) (excess_tokens cluster) true
                  created_all.0 n g others
                ∙ k),
          ))
          (loop_sets codecs client stored true (create_token codecs client)
            (create_token-Sets codecs client stored laws) (new_tokens cluster) true w h)

  pub tokens-tokens_reconciled :
      (cluster : TokenCluster) (w : W) (a b : Bool)
      → (tokens_reconciled codecs client cluster (w, a, b)).1 ≡ none
      → let r = tokens_reconciled codecs client cluster (w, a, b) in
        (r.0.0.current_join_tokens ≡ cluster.desired_join_tokens) × (r.0.1 ≡ w)
  tokens-tokens_reconciled cluster w true true h = (refl, refl)
  tokens-tokens_reconciled cluster w true false h = cc
  tokens-tokens_reconciled cluster w false b h = cc

  -- No missing token has a secret of the name of a secret of a token in excess.
  abbrev pub Apart : TokenCluster → Type 0
  Apart cluster =
      All
        (λ t.
          (n : String) → SecretOf codecs client stored t n → NoneNamed (excess_tokens cluster) n)
        (new_tokens cluster)

  stored-Apart :
      (cluster : TokenCluster) (w : W)
      → Apart cluster
      → All (StoredUnless (excess_tokens cluster) w) (new_tokens cluster)
      → All (HasSecret true w) (new_tokens cluster)
  stored-Apart cluster w apart stored_unless =
      All-mono
        (λ t.
          StoredUnless (excess_tokens cluster) w t
          × ((n : String)
              → SecretOf codecs client stored t n
              → NoneNamed (excess_tokens cluster) n))
        (HasSecret true w) (new_tokens cluster) (λ t ((n, s, f), others). (n, s, f (others n s)))
        (All-both _ _ (new_tokens cluster) stored_unless apart)

  -- The cluster with the tokens of the secrets that were listed as its current ones.
  abbrev pub listed : TokenCluster → List SecretData → TokenCluster
  listed cluster secrets = record cluster {
    current_join_tokens = map (token_from_secret codecs) secrets;
  }

  -- Where creating and deleting secrets do what their names say, and no missing token shares
  -- the name of its secret with a token in excess: if ReconcileJoinTokens can list the secrets
  -- and returns no error, the cluster reports its desired tokens as the current ones, no secret
  -- of the name of a token that was in excess is stored, and one of the name of each token that
  -- was missing is.
  pub reconcile_join_tokens-HasSecret :
      (cluster : TokenCluster) (w : W) (secrets : List SecretData)
      → client.list_secrets w ≡ ok secrets
      → Apart (listed cluster secrets)
      → (reconcile_join_tokens codecs client cluster w).1 ≡ none
      → let r = reconcile_join_tokens codecs client cluster w in
        (r.0.0.current_join_tokens ≡ cluster.desired_join_tokens)
        × All (HasSecret false r.0.1) (excess_tokens (listed cluster secrets))
        × All (HasSecret true r.0.1) (new_tokens (listed cluster secrets))
  unfolding reconcile_join_tokens
  reconcile_join_tokens-HasSecret cluster w secrets e apart h =
      let before = listed cluster secrets in
      let removed = removed_all before w in
      let g = subst (λ z. (reconcile_listed codecs client cluster z w).1 ≡ none) e h in
      let (a, b) = both_succeeded before removed.0 (created_all before w).1 removed.1 g in
      let (c, d) = tokens-tokens_reconciled before removed.0 (created_all before w).1 removed.1 g in
      subst
        (λ z.
          let r = reconcile_listed codecs client cluster z w in
          (r.0.0.current_join_tokens ≡ cluster.desired_join_tokens)
          × All (HasSecret false r.0.1) (excess_tokens before)
          × All (HasSecret true r.0.1) (new_tokens before))
        (sym e)
        (
          c,
          subst (λ z. All (HasSecret false z) (excess_tokens before)) (sym d)
              (excess_removed before w b),
          subst (λ z. All (HasSecret true z) (new_tokens before)) (sym d)
              (stored-Apart before removed.0 apart (new_stored before w a b)),
        )
