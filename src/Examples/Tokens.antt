-- ===== src/Examples/Tokens.antt =====
-- Join tokens of a cluster whose API server keeps its secrets by their names.
use oneinfra.Base.Errors.{ok}
use oneinfra.JoinTokens.Success.{Apart}
use oneinfra.JoinTokens.Contents.{ReadsSecrets, stored, stored-KeepsSecrets}
use oneinfra.JoinTokens.Held.{IsGone, IsHeld, reconcile_join_tokens-IsHeld}
use oneinfra.JoinTokens.Laws.{SecretOf, KeepsSecrets}
use oneinfra.JoinTokens.{
  excess_tokens, new_tokens, SecretData, TokenCluster, TokenCodecs, reconcile_join_tokens,
  SecretsClient,
}
use oneinfra.Base.Errors.{ok_inj}
use oneinfra.Base.{
  Option, concat, String, ◌≡◌, refl, sym, ap, ◌∙◌, ◌≢◌, Bool, false, none, [], ◌∷◌, map, arith,
  eq_iff, All,
}
use oneinfra.Dict
use oneinfra.Dict.{Dict}

abbrev Secrets : Type 0
Secrets = Dict SecretData

abbrev first_value : SecretData → String
first_value [] = ""
first_value ((key, text) ∷ rest) = text

abbrev token_codecs : TokenCodecs
token_codecs = record {
  parse_token = λ t. ok (t, concat "secret of " t);
  token_from_id_and_secret = λ i s. i;
  bootstrap_token_secret_name = λ i. i;
  is_already_exists = λ e. false;
  get_data = λ s k. first_value s;
  description_key = "description";
  id_key = "token-id";
  secret_key = "token-secret";
  usage_authentication_key = "usage-bootstrap-authentication";
  extra_groups_key = "auth-extra-groups";
}

abbrev data_of : String × SecretData → SecretData
data_of (name, d) = d

abbrev secrets_client : SecretsClient Secrets
secrets_client = record {
  list_secrets = λ w. ok (map data_of w);
  create_secret = λ n d w. ((n, d) ∷ w, none);
  delete_secret = λ n w. (Dict.delete n w, none);
}

abbrev read_secret : Secrets → String → Option SecretData
read_secret w n = Dict.lookup n w

secrets_read : ReadsSecrets token_codecs secrets_client read_secret
unfolding Dict.lookup
secrets_read = record {
  creates = λ n d w h m. refl;
  already_there = λ n d w e h a. absurd (ground arith);
  deletes = λ n w h m. Dict.lookup-delete n m w;
}

abbrev is_stored : Secrets → String → Bool
is_stored = stored token_codecs secrets_client read_secret

secrets_kept : KeepsSecrets token_codecs secrets_client is_stored
secrets_kept = stored-KeepsSecrets token_codecs secrets_client read_secret secrets_read

-- The secrets of the tokens "b" and "c".
abbrev two_secrets : Secrets
two_secrets = ("b", ("token-id", "b") ∷ []) ∷ ("c", ("token-id", "c") ∷ []) ∷ []

abbrev cluster_tokens : TokenCluster
cluster_tokens = record {
  desired_join_tokens = "a" ∷ "b" ∷ [];
  current_join_tokens = "b" ∷ "c" ∷ [];
}

reconciled : (reconcile_join_tokens token_codecs secrets_client cluster_tokens two_secrets).1 ≡ none
unfolding reconcile_join_tokens Dict.has Dict.insert
reconciled = refl

secret_name : (t n : String) → SecretOf token_codecs secrets_client is_stored t n → n ≡ t
secret_name t n (p, e, q) = q ∙ sym (ap (λ z. z.0) (ok_inj e))

a_is_not_c : ◌≢◌ {A = String} "c" "a"
a_is_not_c e = ground (arith, eq_iff "c" "a")

-- The missing token is "a", and the one in excess is "c".
tokens-Apart : Apart token_codecs secrets_client is_stored secrets_kept cluster_tokens
unfolding new_tokens excess_tokens Dict.has Dict.insert
tokens-Apart = (
  (λ n s. ((λ k u q. a_is_not_c (sym (secret_name "c" k u) ∙ (q ∙ secret_name "a" n s))), tt)),
  tt,
)

reconcile_join_tokens-IsHeld_example :
    let r = reconcile_join_tokens token_codecs secrets_client cluster_tokens two_secrets in
    (r.0.0.current_join_tokens ≡ cluster_tokens.desired_join_tokens)
    × All
        (IsGone token_codecs secrets_client read_secret secrets_read r.0.1)
        (excess_tokens cluster_tokens)
    × All
        (IsHeld token_codecs secrets_client read_secret secrets_read two_secrets
          (new_tokens cluster_tokens)
          r.0.1)
        (new_tokens cluster_tokens)
reconcile_join_tokens-IsHeld_example =
    reconcile_join_tokens-IsHeld token_codecs secrets_client read_secret secrets_read cluster_tokens
      two_secrets ((("token-id", "b") ∷ []) ∷ (("token-id", "c") ∷ []) ∷ []) refl tokens-Apart
      reconciled
