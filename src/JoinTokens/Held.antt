-- ===== src/JoinTokens/Held.antt =====
-- What a success of ReconcileJoinTokens of internal/pkg/cluster/join_tokens.go means for what the
-- secrets in the cluster hold.
use oneinfra.JoinTokens.Laws.{SecretOf}
use oneinfra.JoinTokens.Success.{
  reconcile_join_tokens-HasSecret, both_succeeded, created_all, removed_all,
  tokens-tokens_reconciled, listed, Apart,
}
use oneinfra.JoinTokens.{
  reconcile_listed, SecretData, reconcile_join_tokens, new_tokens, excess_tokens, TokenCluster,
  SecretsClient, TokenCodecs,
}
use oneinfra.Base.{String, ◌≡◌, sym, subst, Option, none, some, List, All, All-mono}
use oneinfra.Base.Errors.{ok}
use oneinfra.JoinTokens.Contents.{
  ReadsSecrets, stored, stored-KeepsSecrets, Origin, Traced, removed-Traced, some_of, none_of,
}

module _ (codecs : TokenCodecs) {W : Type 0} (client : SecretsClient W)
    (read : W → String → Option SecretData) (laws : ReadsSecrets codecs client read) where
  -- There is no secret of the name of the token.
  abbrev pub IsGone : W → String → Type 0
  IsGone w t =
      (n : String) × SecretOf codecs client (stored codecs client read) t n × (read w n ≡ none)

  -- There is a secret of the name of the token, and it is known where it comes from.
  abbrev pub IsHeld : W → List String → W → String → Type 0
  IsHeld before tokens w t =
      (n : String) × SecretOf codecs client (stored codecs client read) t n
      × (d : SecretData) × (read w n ≡ some d)
      × Origin codecs client read laws before tokens n d

  reconciled_listed :
      (cluster : TokenCluster) (w : W) (secrets : List SecretData)
      → client.list_secrets w ≡ ok secrets
      → (reconcile_join_tokens codecs client cluster w).1 ≡ none
      → let before =
          listed codecs client
            (stored codecs client read)
            (stored-KeepsSecrets codecs client read laws)
            cluster
            secrets in
        Traced codecs client read laws w
          (new_tokens before)
          (reconcile_join_tokens codecs client cluster w).0.1
  unfolding reconcile_join_tokens
  reconciled_listed cluster w secrets e h =
      let before =
        listed codecs client (stored codecs client read)
          (stored-KeepsSecrets codecs client read laws) cluster secrets in
      let created =
        created_all codecs client (stored codecs client read)
          (stored-KeepsSecrets codecs client read laws) before w in
      let removed =
        removed_all codecs client (stored codecs client read)
          (stored-KeepsSecrets codecs client read laws) before w in
      let g = subst (λ z. (reconcile_listed codecs client cluster z w).1 ≡ none) e h in
      let (a, b) =
        both_succeeded codecs client (stored codecs client read)
          (stored-KeepsSecrets codecs client read laws) before removed.0 created.1 removed.1 g in
      let (c, d) =
        tokens-tokens_reconciled codecs client (stored codecs client read)
          (stored-KeepsSecrets codecs client read laws) before removed.0 created.1 removed.1 g in
      subst
        (λ z.
          Traced codecs client read laws w (new_tokens before)
            (reconcile_listed codecs client cluster z w).0.1)
        (sym e)
        (subst (Traced codecs client read laws w (new_tokens before)) (sym d)
          (removed-Traced codecs client read laws before w a b))

  -- Where creating and deleting secrets do what their names say, and no missing token shares the
  -- name of its secret with a token in excess: if ReconcileJoinTokens can list the secrets and
  -- returns no error, then the cluster reports its desired tokens as the current ones, there is no
  -- secret any more of the name of a token that was in excess, and there is one of the name of
  -- each token that was missing. This one was there before, or it holds the identifier and the
  -- secret of a missing token with this name, for the authentication of nodes that join.
  pub reconcile_join_tokens-IsHeld :
      (cluster : TokenCluster) (w : W) (secrets : List SecretData)
      → client.list_secrets w ≡ ok secrets
      → Apart codecs client
          (stored codecs client read)
          (stored-KeepsSecrets codecs client read laws)
          (listed codecs client
            (stored codecs client read)
            (stored-KeepsSecrets codecs client read laws)
            cluster
            secrets)
      → (reconcile_join_tokens codecs client cluster w).1 ≡ none
      → let before =
          listed codecs client
            (stored codecs client read)
            (stored-KeepsSecrets codecs client read laws)
            cluster
            secrets in
        let r = reconcile_join_tokens codecs client cluster w in
        (r.0.0.current_join_tokens ≡ cluster.desired_join_tokens)
        × All (IsGone r.0.1) (excess_tokens before)
        × All (IsHeld w (new_tokens before) r.0.1) (new_tokens before)
  reconcile_join_tokens-IsHeld cluster w secrets e apart h =
      let before =
        listed codecs client (stored codecs client read)
          (stored-KeepsSecrets codecs client read laws) cluster secrets in
      let r = reconcile_join_tokens codecs client cluster w in
      let (tokens, gone, held) =
        reconcile_join_tokens-HasSecret codecs client (stored codecs client read)
          (stored-KeepsSecrets codecs client read laws) cluster w secrets e apart h in
      (
        tokens,
        All-mono _ (IsGone r.0.1) (excess_tokens before)
            (λ t (n, s, missing). (n, s, none_of (read r.0.1 n) missing)) gone,
        All-mono _ (IsHeld w (new_tokens before) r.0.1) (new_tokens before)
            (λ t (n, s, present).
              let (d, there) = some_of (read r.0.1 n) present in
              (n, s, d, there, reconciled_listed cluster w secrets e h n d there))
            held,
      )
