-- ===== src/Gateway/Tests.antt =====
-- Examples for services/gateway.
use magpie.Prelude.{
  Bool-cases, inl, inr, sym, subst, strip_prefix, text_eq, text_eq_iff, Text, text_lt, is_empty,
  ◌≡◌, refl, ◌↔◌, none, some, [], ◌∷◌, codes, byte_len, is_ascii_lowercase, is_ascii_digit,
  is_ascii_alphanumeric,
}
use magpie.Prelude.Prog.{IfOk, ok, Holds}
use magpie.Gateway.Names.{IsDnsLabel, validate_k8s_name, validate_k8s_name_iff}
use magpie.Prelude.Dict.{Dict, get, insert, extend, contains_key, last_of}
use magpie.Gateway.Metadata.{
  nulls, collect_annotations, is_key_char, metadata_prefix, metadata_from_annotations,
  metadata_to_annotations, annotation_patch,
}
use magpie.Gateway.Replacing.{merged_value, merged_new, metadata_replaced}
use magpie.Gateway.Service.Handlers.{
  CreateServerRequest, UpdateServerRequest, start_server, update_server,
}
use magpie.Gateway.Service.Update.{OfUpdate, update_server-OfUpdate}
use magpie.Gateway.Service.Logs.{tail_of, get_server_logs}
use magpie.Gateway.Service.Newest.{IsRead, OfLogs, get_server_logs-OfLogs}
use magpie.Gateway.Service.Start.{OfStart, start_server-OfStart}

abbrev ops : CreateServerRequest
ops = record {
  name = codes "ops";
  port = 2302;
  mod_source_ids = codes "base" ∷ [];
  config_map = none;
  metrics_port = some 9100;
  metrics_path = none;
  metadata = (codes "owner", codes "ada") ∷ [];
}

validate_k8s_name_iff_example :
    (validate_k8s_name (codes "ops-1") ≡ ok tt) ↔ IsDnsLabel (codes "ops-1")
validate_k8s_name_iff_example = validate_k8s_name_iff (codes "ops-1")

-- that name is a label
ops_label : IsDnsLabel (codes "ops-1")
unfolding validate_k8s_name codes byte_len is_ascii_lowercase is_ascii_digit is_ascii_alphanumeric
ops_label = (validate_k8s_name_iff (codes "ops-1")).0 refl

start_server-OfStart_example :
    Holds (OfStart (codes "ops")) (λ h r. Unit {0}) [] (start_server (codes "ops"))
start_server-OfStart_example = start_server-OfStart (codes "ops")

tail_tests : (tail_of none ≡ 500) × (tail_of (some 0) ≡ 1) × (tail_of (some 100000) ≡ 5000)
unfolding tail_of
tail_tests = (refl, refl, refl)

-- A server with one key of metadata, which is replaced by another.
abbrev old_key : Text
old_key = codes "metadata.magpie.skua.io/old"

abbrev old : Dict Text
old = (old_key, codes "x") ∷ []

abbrev owned : Dict Text
owned = (codes "metadata.magpie.skua.io/owner", codes "ada") ∷ []

merges_old :
    (k : Text) → get k owned ≡ merged_value (get k old) (get k (annotation_patch old owned))
unfolding get codes text_eq text_lt annotation_patch nulls metadata_prefix strip_prefix contains_key
    extend insert
merges_old k = elim (Bool-cases (text_eq old_key k)) [
  | inl same ↦
      subst (λ j. get j owned ≡ merged_value (get j old) (get j (annotation_patch old owned)))
        ((text_eq_iff old_key k).0 same) refl
  | inr differs ↦ sym (merged_new old owned k (tt, tt) (rw differs refl))
]

metadata_replaced_example :
    ((k : Text)
      → get k (metadata_from_annotations owned) ≡ last_of k ((codes "owner", codes "ada") ∷ []))
    × ((k : Text) → strip_prefix metadata_prefix k ≡ none → get k owned ≡ get k old)
unfolding metadata_to_annotations collect_annotations is_key_char is_empty text_eq text_lt codes
    insert metadata_prefix is_ascii_alphanumeric is_ascii_lowercase is_ascii_digit
metadata_replaced_example =
    metadata_replaced (λ s. s) ((codes "owner", codes "ada") ∷ []) old owned owned refl (tt, tt)
      merges_old

get_server_logs-OfLogs_example :
    Holds
      (OfLogs (codes "ops"))
      (λ h r. IfOk (IsRead h) r)
      []
      (get_server_logs (codes "ops") (some 9000) none)
get_server_logs-OfLogs_example = get_server_logs-OfLogs (codes "ops") (some 9000) none

abbrev change : UpdateServerRequest
change = record {
  id = codes "ops";
  mod_sources = some (codes "base" ∷ codes "extra" ∷ []);
  metadata = some ((codes "owner", codes "ada") ∷ []);
}

update_server-OfUpdate_example :
    Holds (OfUpdate change) (λ h r. Unit {0}) [] (update_server (λ s. s) change)
update_server-OfUpdate_example = update_server-OfUpdate (λ s. s) change
