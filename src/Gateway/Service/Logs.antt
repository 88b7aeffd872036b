-- ===== src/Gateway/Service/Logs.antt =====
-- services/gateway/src/service.rs: the Pod of a server, its logs and its health.
use magpie.Prelude.{
  ℕ, Bool, true, false, Option, none, some, List, [], ◌∷◌, ◌++◌, Text, codes, text_eq, is_empty,
  split, strip_suffix, unwrap_or, ltb, ◌==◌, if◌then◌else◌,
}
use magpie.Prelude.Prog.{Result, ok, err, pure, fail, ◌>>=◌, request, attempt}
use magpie.Gateway.Metadata.{ConnectError, not_found}
use magpie.Gateway.Calls.{M, Pod, Condition, list_pods, pod_logs}
use magpie.Gateway.Service.{or_internal}

-- the order of `Option<Time>`, the absent time first
unfoldable pub is_newer : Option ℕ → Option ℕ → Bool
is_newer none _ = false
is_newer (some a) none = true
is_newer (some a) (some b) = ltb b a

-- The first of the stable sort, newest first: the first among those that none is newer than.
unfoldable pub newest : Pod → List Pod → Pod
unfolding is_newer
newest best [] = best
newest best (pod ∷ rest) = newest (if is_newer pod.created best.created then pod else best) rest

unfoldable pub first_pod : Text → List Pod → M Pod
unfolding newest
first_pod id [] = fail (not_found (codes "no running pod for server " ++ id))
first_pod id (pod ∷ rest) = pure (newest pod rest)

-- the label selector of a server's own Pods
unfoldable pub pod_selector : Text → Text
pod_selector id = codes "app=arma-server,armaserver=" ++ id

unfoldable pub server_pod : Text → M Pod
unfolding ◌>>=◌ first_pod or_internal
server_pod id = do
  reply ← request (list_pods (pod_selector id))
  pods ← or_internal (codes "failed to list pods for " ++ (id ++ codes ": ")) reply
  first_pod id pods

-- `str::lines`, of the text split at its line feeds
unfoldable pub finish_lines : List Text → List Text
finish_lines [] = []
finish_lines (w ∷ []) = if is_empty w then [] else w ∷ []
finish_lines (w ∷ v ∷ ws) = unwrap_or (strip_suffix (13 ∷ []) w) w ∷ finish_lines (v ∷ ws)

unfoldable pub lines : Text → List Text
unfolding finish_lines
lines s = finish_lines (split (λ c. c == 10) s)

abbrev pub max_log_lines : ℕ
max_log_lines = 5000

-- `unwrap_or(500).clamp(1, MAX_LOG_LINES)`
unfoldable pub tail_of : Option ℕ → ℕ
tail_of requested =
    let n = unwrap_or requested 500 in
    if ltb n 1 then 1 else if ltb max_log_lines n then max_log_lines else n

pub record Logs : Type 0 where
  pub log_lines : List Text
  pub pod_name : Text

unfoldable pub get_server_logs : Text → Option ℕ → Option Bool → M Logs
unfolding ◌>>=◌ server_pod or_internal tail_of
get_server_logs id tail_lines previous = do
  pod ← server_pod id
  reply ← request (pod_logs pod.name (tail_of tail_lines) (unwrap_or previous false))
  raw ← or_internal (codes "failed to read logs for " ++ (pod.name ++ codes ": ")) reply
  pure (record { log_lines = lines raw; pod_name = pod.name })

pub record Health : Type 0 where
  pub ready : Bool
  pub health_pod : Text
  pub pod_phase : Text
  pub restarts : ℕ
  pub health_message : Text

-- `find(|c| c.type_ == "Ready")`
unfoldable pub ready_condition : List Condition → Option Condition
ready_condition [] = none
ready_condition (c ∷ cs) =
    let rest = ready_condition cs in
    if text_eq c.condition_type (codes "Ready") then some c else rest

abbrev first_count : List ℕ → ℕ
first_count [] = 0
first_count (n ∷ ns) = n

-- `and_then(|c| c.message).or(status.reason)`
abbrev reason_of : Option Condition → Option Text → Option Text
reason_of none reason = reason
reason_of (some c) reason = elim c.message [ none ↦ reason | some text ↦ some text ]

abbrev is_ready : Option Condition → Bool
is_ready none = false
is_ready (some c) = text_eq c.status (codes "True")

unfoldable pub health_of : Result ConnectError Pod → Health
health_of (err e) = record {
  ready = false;
  health_pod = [];
  pod_phase = [];
  restarts = 0;
  health_message = codes "no pod is running for this server";
}
health_of (ok pod) =
    let condition = ready_condition pod.conditions in
    let ready = is_ready condition in
    record {
      ready = ready;
      health_pod = pod.name;
      pod_phase = unwrap_or pod.phase [];
      restarts = first_count pod.restart_counts;
      health_message =
          unwrap_or (reason_of condition pod.reason)
            (if ready then codes "answering Steam queries" else []);
    }

unfoldable pub get_server_health : Text → M Health
unfolding ◌>>=◌ server_pod
get_server_health id = do pod ← attempt (server_pod id); pure (health_of pod)
