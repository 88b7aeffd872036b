-- ===== src/Gateway/Service/Ports.antt =====
-- The ports of a server that is created: services/gateway/src/service.rs, `create_server`.
use mathlib.Core.List.{Memᴰ}
use magpie.Prelude.{
  ℕ, ◌≡◌, refl, ◌≢◌, inl, inr, ap, sym, arith, true, false, Bool-cases, Option, none, some, List,
  [], ◌∷◌, Text, text_eq_iff, All, ◌%◌, ◌^◌, ◌++◌, codes, strip_prefix,
}
use magpie.Prelude.Prog.{
  ◌>>=◌, IfOk, Result, ok, err, Event, Holds, at_ok, at_err, at_call, Holds-mono, Logged,
}
use magpie.Prelude.Dict.{Dict, get, last_of}
use magpie.Crd.{ArmaServer, ArmaServerMetrics, DesiredState, port_ranges_overlap}
use magpie.Gateway.Names.{IsDnsLabel}
use magpie.Gateway.Calls.{Call, Reply, list_servers}
use magpie.Gateway.Service.{
  is_skipped, check_each, check_port_conflict, or_internal, ServerInfo, to_info,
}
use magpie.Gateway.Service.Handlers.{CreateServerRequest}

-- The ports from `port` on are not those of a running server, other than the one excluded.
abbrev pub IsClear : ℕ → Option Text → ArmaServer → Type 0
IsClear port exclude other =
    exclude ≢ some other.name
    → other.spec.desired_state ≡ DesiredState.running
    → port_ranges_overlap port other.spec.port ≡ false

-- The servers were listed, and the ports are clear of each of them.
abbrev pub IsFree : ℕ → Option Text → List (Event Reply) → Type 0
IsFree port exclude past =
    (others : List ArmaServer) × Logged list_servers (ok others) past
    × All (IsClear port exclude) others

skipped-IsClear :
    (port : ℕ) (exclude : Option Text) (other : ArmaServer)
    → is_skipped exclude other ≡ true
    → IsClear port exclude other
unfolding is_skipped
skipped-IsClear port none other h differs running = ground arith
skipped-IsClear port (some name) other h differs running =
    absurd
      (differs (let same = (text_eq_iff other.name name).0 (ground arith) in ap some (sym same)))

module _ (port : ℕ) (exclude : Option Text) (P : List (Event Reply) → Call → Type 0) where
  -- the loop ends well only if each server is clear
  check_each-IsClear :
      (others : List ArmaServer) (past : List (Event Reply))
      → Holds P
          (λ h r. IfOk (λ _. (h ≡ past) × All (IsClear port exclude) others) r)
          past
          (check_each port exclude others)
  unfolding check_each
  check_each-IsClear [] past = at_ok (refl, tt)
  check_each-IsClear (other ∷ others) past = elim (Bool-cases (is_skipped exclude other)) [
    | inl skipped ↦ rw skipped (
        Holds-mono
          (λ h. elim [
            | ok _ ↦ λ (same, clear). (same, (skipped-IsClear port exclude other skipped, clear))
            | err e ↦ λ _. tt
          ])
          (check_each-IsClear others past))
    | inr checked ↦ elim (Bool-cases (port_ranges_overlap port other.spec.port)) [
      | inl overlap ↦ rw (checked, overlap) (at_err tt)
      | inr apart ↦
          rw (checked, apart)
            (Holds-mono
              (λ h. elim [
                | ok _ ↦ λ (same, clear). (same, ((λ _ _. refl), clear))
                | err e ↦ λ _. tt
              ])
              (check_each-IsClear others past))
    ]
  ]

  -- behind the list's reply
  listed-IsFree :
      (reply : Result Text (List ArmaServer)) (past : List (Event Reply))
      → Holds P
          (λ h r. IfOk (λ _. (h ≡ (list_servers, reply) ∷ past) × IsFree port exclude h) r)
          ((list_servers, reply) ∷ past)
          (or_internal [] reply >>= λ others. check_each port exclude others)
  unfolding or_internal ◌>>=◌
  listed-IsFree (err e) past = at_err tt
  listed-IsFree (ok others) past =
      Holds-mono
        (λ h. elim [
          | ok _ ↦ λ (same, clear). (same, (others, rw same (Memᴰ.head refl), clear))
          | err e ↦ λ _. tt
        ])
        (check_each-IsClear others _)

  pub check_port_conflict-IsFree :
      (past : List (Event Reply))
      → P past list_servers
      → Holds P
          (λ h r.
            IfOk
              (λ _.
                IsFree port exclude h
                × ((reply : Result Text (List ArmaServer)) × (h ≡ (list_servers, reply) ∷ past)))
              r)
          past
          (check_port_conflict port exclude)
  unfolding check_port_conflict
  check_port_conflict-IsFree past allowed = at_call allowed λ reply.
      Holds-mono (λ h. elim [ ok _ ↦ λ (same, free). (free, (reply, same)) | err e ↦ λ _. tt ])
        (listed-IsFree reply past)

-- The annotations are the request's metadata, under the prefix, the last value of a key standing.
abbrev pub IsMetadata : List (Text × Text) → Dict Text → Type 0
IsMetadata entries annotations =
    ((k : Text) → get (codes "metadata.magpie.skua.io/" ++ k) annotations ≡ last_of k entries)
    × ((k : Text)
        → strip_prefix (codes "metadata.magpie.skua.io/") k ≡ none
        → get k annotations ≡ none)

-- What the request asks of the metrics: a port of 16 bits, and the path.
abbrev pub IsScraped : CreateServerRequest → Option ArmaServerMetrics → Type 0
IsScraped r none = r.metrics_port ≡ none
IsScraped r (some m) =
    (port : ℕ) × (r.metrics_port ≡ some port) × (m.port ≡ port % 2 ^ 16) × (m.path ≡ r.metrics_path)

-- The server that a request asks for: it is to run, without headless clients of its own.
abbrev pub IsAsked : CreateServerRequest → ArmaServer → Type 0
IsAsked r obj =
    (obj.name ≡ r.name)
    × (obj.spec.port ≡ r.port % 2 ^ 16)
    × (obj.spec.mod_source_ids ≡ r.mod_source_ids)
    × (obj.spec.config_map ≡ r.config_map)
    × IsScraped r obj.spec.metrics
    × (obj.spec.desired_state ≡ DesiredState.running)
    × (obj.spec.headless_clients ≡ 0)
    × (obj.spec.cdlc ≡ [])
    × (obj.spec.profiling ≡ false)
    × (obj.status ≡ none)
    × IsMetadata r.metadata obj.annotations

module _ (r : CreateServerRequest) where
  -- The only calls of a creation: it lists the servers, and applies the one that was asked for.
  abbrev pub OfCreation : List (Event Reply) → Call → Type 0
  OfCreation past Call.list_servers = Unit
  OfCreation past (Call.apply_server name obj) =
      (name ≡ r.name) × IsDnsLabel name × IsAsked r obj × IsFree (r.port % 2 ^ 16) none past
  OfCreation past _ = ⊥

-- The server was applied, and the response tells of it as the API server gave it back.
abbrev pub IsCreated : CreateServerRequest → List (Event Reply) → ServerInfo → Type 0
IsCreated r past info =
    (obj : ArmaServer) × (applied : ArmaServer) × Logged (Call.apply_server r.name obj) (ok applied)
      past
    × (info ≡ to_info applied)
