-- ===== src/Examples/Tools.antt =====
-- The theorems about the hash header, the JSON of permissions, the monitor and the command line tool,
-- applied.
use nats_operator_experiment.Common.{
  ℕ, Str, codes, newline, Bool, false, not, none, some, [], ◌∷◌, ◌++◌, ◌≡◌, ◌≢◌, ◌⊎◌, inl, inr,
  refl, All, Map, str_eq, if◌then◌else◌,
}
use nats_operator_experiment.Common.Int.{pos}
use nats_operator_experiment.Common.Exec.{plain, ok, pure, raise, Yields, wrapped, wrap_result}
use nats_operator_experiment.Api.Responses.{
  AllowResponsesSpec, AllowResponsesObject, JsonCodec, IsLawful, IsBoolOrObject, unmarshal_json,
  marshal_json, unmarshal-marshal, unmarshal-IsBoolOrObject,
}
use nats_operator_experiment.Controller.HashHeader.{format_hash_header, parse_hash_header}
use nats_operator_experiment.Controller.HashHeader.RoundTrip.{parse-format_hash_header}
use nats_operator_experiment.Controller.Rules.{evaluate}
use nats_operator_experiment.Cli.Loader.{
  split_lines, split_yaml_documents, add_byte, collect, flush,
}
use nats_operator_experiment.Cli.Files.{
  Files, user_object, load_from_paths, load_paths, load_path, load_file, load_documents,
  add_decoded, add_object,
}
use nats_operator_experiment.Cli.Commands.{run_validate}
use nats_operator_experiment.Cli.Commands.Reported.{Reports, run_validate-Reports}
use nats_operator_experiment.Cli.Validate.{validate}
use nats_operator_experiment.Cli.Loader.Documents.{IsSplit, split_yaml_documents-IsSplit}
use nats_operator_experiment.Cli.Validate.{
  match_offline, match_offline_pattern, offline_outcome, deny,
}
use nats_operator_experiment.Cli.Validate.Offline.{IsOffline, evaluate-offline_outcome}
use nats_operator_experiment.Monitor.{MonitorClient, query_all_servers, filter_by_nkey}
use nats_operator_experiment.Monitor.Filters.{Narrows, filter_by_nkey-Narrows}
use nats_operator_experiment.Controller.Users.{account_namespace_of, user_references_account}
use nats_operator_experiment.Cli.Build.{user_in_account}
use nats_operator_experiment.Cli.Build.Operator.{user_in_account-user_references_account}
use nats_operator_experiment.Cli.Loader.Lines.{MakeUp, IsLine, split_lines-MakeUp}
use nats_operator_experiment.Examples.Data.{account, user}
use nats_operator_experiment.Examples.Data.{
  narrow, literal, cluster_api, deny_rule, same_namespace_rule,
}

parse-format_hash_header_example :
    parse_hash_header (format_hash_header (codes "ab12") ++ codes "accounts {}") ≡ codes "ab12"
parse-format_hash_header_example =
    parse-format_hash_header (codes "ab12") (codes "accounts {}") (cc)
      (refl, (refl, (refl, (refl, tt))))

-- a codec whose JSON is the value itself
abbrev values : JsonCodec
values = record {
  Json = Bool ⊎ AllowResponsesObject;
  unmarshal_bool = λ j. elim j [ inl b ↦ some b | inr o ↦ none ];
  unmarshal_object = λ j. elim j [ inl b ↦ none | inr o ↦ some o ];
  marshal_bool = λ b. inl b;
  marshal_object = λ o. inr o;
}

values-IsLawful : IsLawful values
values-IsLawful = record {
  unmarshal-marshal_bool = λ b. refl;
  unmarshal_bool-object = λ o. refl;
  unmarshal-marshal_object = λ o. refl;
}

abbrev limited : AllowResponsesSpec
limited = record { bool_value = none; max_msgs = some (pos 3); ttl = some (codes "5m") }

unmarshal-marshal_example : unmarshal_json values (marshal_json values limited) ≡ some limited
unmarshal-marshal_example = unmarshal-marshal values values-IsLawful limited (inl refl)

read_limited :
    unmarshal_json values (inr (record { max_msgs = some (pos 3); ttl = some (codes "5m") }))
    ≡ some limited
unfolding unmarshal_json
read_limited = refl

unmarshal-IsBoolOrObject_example : IsBoolOrObject limited
unmarshal-IsBoolOrObject_example =
    unmarshal-IsBoolOrObject values
      (inr (record { max_msgs = some (pos 3); ttl = some (codes "5m") })) limited read_limited

split_yaml_documents-IsSplit_example :
    IsSplit
      (split_lines (codes "kind: A" ++ newline ∷ codes "---"))
      (split_yaml_documents (codes "kind: A" ++ newline ∷ codes "---"))
split_yaml_documents-IsSplit_example =
    split_yaml_documents-IsSplit (codes "kind: A" ++ newline ∷ codes "---")

IsOffline-rules :
    All
      (IsOffline narrow literal cluster_api.get_namespace (codes "apps") (codes "apps"))
      (deny_rule ∷ same_namespace_rule ∷ [])
unfolding match_offline match_offline_pattern
IsOffline-rules = (
  ((str_eq (codes "guests") (codes "apps"), refl), inr refl),
  (((str_eq (codes "apps") (codes "apps"), refl), inl refl), tt),
)

evaluate-offline_outcome_example :
    evaluate narrow literal cluster_api.get_namespace
      (deny_rule ∷ same_namespace_rule ∷ [])
      (codes "apps")
      (codes "apps")
      0
    ≡ (
      ok (
          not (
            str_eq
              (offline_outcome narrow literal
                (deny_rule ∷ same_namespace_rule ∷ [])
                (codes "apps")
                (codes "apps"))
              deny)),
      0,
    )
evaluate-offline_outcome_example =
    evaluate-offline_outcome narrow literal cluster_api.get_namespace (codes "apps") (codes "apps")
      (deny_rule ∷ same_namespace_rule ∷ []) 0 IsOffline-rules

-- one server answers, the other does not
abbrev servers : MonitorClient ℕ
servers = record {
  get_connz = λ url.
      if str_eq url (codes "a")
      then pure (record { server_id = codes "A"; num_connections = pos 0; connections = [] })
      else raise (plain (codes "no answer"));
  get_connz_closed = λ url limit. raise (plain (codes "no answer"));
}

abbrev urls : Map Str
urls = (codes "first", codes "a") ∷ (codes "second", codes "b") ∷ []

filter_by_nkey-Narrows_example :
    Yields
      (λ s. Narrows (λ c. str_eq c.nkey (codes "UALICE")) s (filter_by_nkey s (codes "UALICE")))
      (query_all_servers servers urls)
filter_by_nkey-Narrows_example = filter_by_nkey-Narrows servers urls (codes "UALICE")

own_namespace : account_namespace_of user ≢ []
unfolding account_namespace_of str_eq
own_namespace = cc

user_in_account-user_references_account_example :
    user_in_account account user ≡ user_references_account user account
user_in_account-user_references_account_example =
    user_in_account-user_references_account account user own_namespace (cc)

split_lines-MakeUp_example :
    MakeUp
      (split_lines (codes "kind: A" ++ newline ∷ codes "---"))
      (codes "kind: A" ++ newline ∷ codes "---")
    × All IsLine (split_lines (codes "kind: A" ++ newline ∷ codes "---"))
split_lines-MakeUp_example = split_lines-MakeUp (codes "kind: A" ++ newline ∷ codes "---")

-- one file, whose one document is a user of the account
abbrev files : Files ℕ
files = record {
  stat = λ p. pure false;
  join_path = λ a b. a ++ b;
  glob = λ p. pure [];
  read_file = λ p. pure (codes "kind: NatsUser");
  decode = λ doc. some (codes "NatsUser", user_object user);
}

run_validate-Reports_example :
    Reports
      (validate narrow literal (record { clusters = []; accounts = []; users = user ∷ [] }))
      (codes "log: ")
      0
      (run_validate narrow literal files
        (codes "user.yaml" ∷ [])
        (record { world = 0; out = []; err_out = codes "log: " }))
unfolding load_from_paths load_paths load_path load_file load_documents add_decoded add_object
    str_eq wrapped wrap_result split_yaml_documents split_lines add_byte collect flush
run_validate-Reports_example =
    run_validate-Reports narrow literal files (codes "user.yaml" ∷ [])
      (record { world = 0; out = []; err_out = codes "log: " })
      (record { clusters = []; accounts = []; users = user ∷ [] }) 0 refl
