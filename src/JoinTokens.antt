-- ===== src/JoinTokens.antt =====
-- internal/pkg/cluster/join_tokens.go: the join tokens of a cluster are secrets in the cluster.
-- The secrets live behind the API server of the cluster, `W`, whose operations are parameters, like
-- the functions on tokens of Kubernetes.
pub mod Laws
pub mod Success
pub mod Contents
pub mod Held
use oneinfra.Base.{
  String, Bool, true, false, not, ◌&&◌, Option, none, some, List, [], ◌∷◌, ◌++◌, map, if◌then◌else◌,
}
use oneinfra.Base.Errors.{ok, err, errorf, Result, Error}
use oneinfra.Dict
use oneinfra.Dict.{Dict}

-- The fields of a cluster that concern its tokens.
pub record TokenCluster : Type 0 where
  pub desired_join_tokens : List String
  pub current_join_tokens : List String

-- The data of a secret, by key.
abbrev pub SecretData : Type 0
SecretData = Dict String

pub record TokenCodecs : Type 0 where
  pub parse_token : String → Result (String × String)
  pub token_from_id_and_secret : String → String → String
  pub bootstrap_token_secret_name : String → String
  pub is_already_exists : Error → Bool
  pub get_data : SecretData → String → String
  pub description_key : String
  pub id_key : String
  pub secret_key : String
  pub usage_authentication_key : String
  pub extra_groups_key : String

pub record SecretsClient (W : Type 0) : Type 0 where
  pub list_secrets : W → Result (List SecretData)
  pub create_secret : String → SecretData → W → W × Option Error
  pub delete_secret : String → W → W × Option Error

-- A map[string]struct{}, filled from a list.
abbrev pub TokenSet : Type 0
TokenSet = Dict Unit

unfoldable pub token_set : TokenSet → List String → TokenSet
token_set to_substract [] = to_substract
token_set to_substract (token ∷ list) = token_set (Dict.insert token tt to_substract) list

unfoldable pub substract_loop : TokenSet → List String → List String → List String
substract_loop to_substract res [] = res
substract_loop to_substract res (token ∷ list) =
    substract_loop to_substract (if Dict.has token to_substract then res else res ++ token ∷ [])
      list

unfoldable pub substract_tokens : List String → List String → List String
unfolding token_set substract_loop
substract_tokens list list_to_substract = substract_loop (token_set [] list_to_substract) [] list

unfoldable pub new_tokens : TokenCluster → List String
unfolding substract_tokens
new_tokens cluster = substract_tokens cluster.desired_join_tokens cluster.current_join_tokens

unfoldable pub excess_tokens : TokenCluster → List String
unfolding substract_tokens
excess_tokens cluster = substract_tokens cluster.current_join_tokens cluster.desired_join_tokens

module _ (codecs : TokenCodecs) where
  abbrev pub token_from_secret : SecretData → String
  token_from_secret secret =
      codecs.token_from_id_and_secret (codecs.get_data secret codecs.id_key)
        (codecs.get_data secret codecs.secret_key)

  -- The data of the secret of a new token.
  abbrev pub token_data : String → String → SecretData
  token_data token_id token_secret =
      (codecs.description_key, "oneinfra node join token")
      ∷ (codecs.id_key, token_id)
      ∷ (codecs.secret_key, token_secret)
      ∷ (codecs.usage_authentication_key, "true")
      ∷ (codecs.extra_groups_key, "system:bootstrappers:oneinfra")
      ∷ []

  module _ {W : Type 0} (client : SecretsClient W) where
    abbrev pub created : W × Option Error → W × Bool
    created (w, none) = (w, true)
    created (w, some e) = (w, codecs.is_already_exists e)

    -- One round of the loop of createNewTokens: what is left behind, and whether it succeeded.
    abbrev pub create_token : Result (String × String) → W → W × Bool
    create_token (err e) w = (w, false)
    create_token (ok (token_id, token_secret)) w = created (
        client.create_secret (codecs.bootstrap_token_secret_name token_id)
          (token_data token_id token_secret) w)

    abbrev pub deleted : W × Option Error → W × Bool
    deleted (w, none) = (w, true)
    deleted (w, some e) = (w, false)

    abbrev pub delete_token : Result (String × String) → W → W × Bool
    delete_token (err e) w = (w, false)
    delete_token (ok (token_id, token_secret)) w =
        deleted (client.delete_secret (codecs.bootstrap_token_secret_name token_id) w)

    -- Both loops go through all tokens, and report whether every round succeeded.
    unfoldable pub token_loop :
        (Result (String × String) → W → W × Bool) → List String → Bool → W → W × Bool
    token_loop round [] all_succeeded w = (w, all_succeeded)
    token_loop round (token ∷ tokens) all_succeeded w =
        let (w', succeeded) = round (codecs.parse_token token) w in
        token_loop round tokens (all_succeeded && succeeded) w'

    unfoldable pub create_new_tokens : TokenCluster → W → W × Bool
    unfolding token_loop new_tokens
    create_new_tokens cluster = token_loop create_token (new_tokens cluster) true

    unfoldable pub remove_excess_tokens : TokenCluster → W → W × Bool
    unfolding token_loop excess_tokens
    remove_excess_tokens cluster = token_loop delete_token (excess_tokens cluster) true

    abbrev pub tokens_reconciled :
        TokenCluster → W × Bool × Bool → (TokenCluster × W) × Option Error
    tokens_reconciled cluster (w, created_all, deleted_all) =
        if created_all && deleted_all
        then ((record cluster { current_join_tokens = cluster.desired_join_tokens }, w), none)
        else (
          (cluster, w),
          some (errorf "some join tokens could not be successfully reconciled" []),
        )

    abbrev pub reconcile_listed :
        TokenCluster → Result (List SecretData) → W → (TokenCluster × W) × Option Error
    reconcile_listed cluster (err e) w = ((record cluster { current_join_tokens = [] }, w), some e)
    reconcile_listed cluster (ok secrets) w =
        let cluster' : TokenCluster = record cluster {
          current_join_tokens = map token_from_secret secrets;
        } in
        let (w', created_all) = create_new_tokens cluster' w in
        let (w'', deleted_all) = remove_excess_tokens cluster' w' in
        tokens_reconciled cluster' (w'', created_all, deleted_all)

    -- ReconcileJoinTokens, once the client of the cluster is made.
    unfoldable pub reconcile_join_tokens : TokenCluster → W → (TokenCluster × W) × Option Error
    unfolding create_new_tokens remove_excess_tokens
    reconcile_join_tokens cluster w = reconcile_listed cluster (client.list_secrets w) w
