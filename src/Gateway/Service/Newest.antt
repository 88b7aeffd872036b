-- ===== src/Gateway/Service/Newest.antt =====
-- Whose logs are read, and how much: services/gateway/src/service.rs, `get_server_logs`.
use mathlib.Core.List.{Memᴰ}
use magpie.Prelude.{
  ℕ, ◌≤◌, ◌≡◌, refl, arith, Bool, true, false, Option, none, some, List, [], ◌∷◌, ◌++◌, codes, Text,
  All, unwrap_or, if◌then◌else◌,
}
use magpie.Prelude.Prog.{
  ◌>>=◌, Result, ok, err, pure, request, Event, Holds, at_ok, at_err, at_call, IfOk, Logged,
}
use magpie.Gateway.Calls.{Call, Reply, Pod, list_pods, pod_logs}
use magpie.Gateway.Service.{or_internal}
use magpie.Gateway.Service.Logs.{
  is_newer, newest, first_pod, pod_selector, server_pod, tail_of, max_log_lines, Logs, lines,
  get_server_logs,
}

-- Created no later: a Pod without a time counts as the oldest.
abbrev pub IsNoLater : Option ℕ → Option ℕ → Type 0
IsNoLater none b = Unit
IsNoLater (some a) none = ⊥
IsNoLater (some a) (some b) = a ≤ b

-- One of the Pods, and none of them was created later.
abbrev pub IsNewest : List Pod → Pod → Type 0
IsNewest pods pod = Memᴰ pod pods × All (λ other. IsNoLater other.created pod.created) pods

older-IsNoLater : (a b : Option ℕ) → is_newer a b ≡ false → IsNoLater a b
unfolding is_newer
older-IsNoLater none b h = tt
older-IsNoLater (some a) none h = absurd (ground arith)
older-IsNoLater (some a) (some b) h = ground arith

All-IsNoLater :
    (pods : List Pod) (t : Option ℕ)
    → All (λ other. is_newer other.created t ≡ false) pods
    → All (λ other. IsNoLater other.created t) pods
All-IsNoLater [] t older = tt
All-IsNoLater (pod ∷ pods) t (h, older) =
    (older-IsNoLater pod.created t h, All-IsNoLater pods t older)

is_newer_irrefl : (a : Option ℕ) → is_newer a a ≡ false
unfolding is_newer
is_newer_irrefl none = refl
is_newer_irrefl (some a) = ground arith

-- the order of the times, an absent one first
older_trans :
    (a b c : Option ℕ) → is_newer a b ≡ false → is_newer b c ≡ false → is_newer a c ≡ false
unfolding is_newer
older_trans none b c h k = refl
older_trans (some a) none c h k = absurd (ground arith)
older_trans (some a) (some b) none h k = absurd (ground arith)
older_trans (some a) (some b) (some c) h k = ground arith

newer-older : (a b : Option ℕ) → is_newer a b ≡ true → is_newer b a ≡ false
unfolding is_newer
newer-older none b h = absurd (ground arith)
newer-older (some a) none h = refl
newer-older (some a) (some b) h = ground arith

second_or_later : {A : Type 0} {x a b : A} {l : List A} → Memᴰ x (a ∷ l) → Memᴰ x (a ∷ b ∷ l)
second_or_later (Memᴰ.head e) = Memᴰ.head e
second_or_later (Memᴰ.tail m) = Memᴰ.tail (Memᴰ.tail m)

-- the winner among `best` and the rest
abbrev Wins : Pod → List Pod → Pod → Type 0
Wins best rest winner =
    (is_newer best.created winner.created ≡ false)
    × All (λ other. is_newer other.created winner.created ≡ false) rest
    × Memᴰ winner (best ∷ rest)

newest-step :
    (best pod : Pod) (rest : List Pod) (b : Bool)
    → is_newer pod.created best.created ≡ b
    → ((p : Pod) → Wins p rest (newest p rest))
    → Wins best (pod ∷ rest) (newest (if b then pod else best) rest)
newest-step best pod rest true newer ih =
    let (older, others, mem) = ih pod in
    (
      older_trans best.created pod.created _ (newer-older pod.created best.created newer) older,
      (older, others),
      Memᴰ.tail mem,
    )
newest-step best pod rest false not_newer ih =
    let (older, others, mem) = ih best in
    (older, (older_trans pod.created best.created _ not_newer older, others), second_or_later mem)

newest-Wins : (best : Pod) (rest : List Pod) → Wins best rest (newest best rest)
unfolding newest
newest-Wins best [] = (is_newer_irrefl best.created, tt, Memᴰ.head refl)
newest-Wins best (pod ∷ rest) =
    newest-step best pod rest (is_newer pod.created best.created) refl (λ p. newest-Wins p rest)

module _ (id : Text) where
  -- the Pods of the game server of this name, and of no headless client
  abbrev pub own_pods : Text
  own_pods = codes "app=arma-server,armaserver=" ++ id

  -- Of the listed Pods of the server, the newest one's log is read, at most 5000 lines of it and at
  -- least one; nothing is written.
  abbrev pub OfLogs : List (Event Reply) → Call → Type 0
  OfLogs past (Call.list_pods selector) = selector ≡ own_pods
  OfLogs past (Call.pod_logs name tail previous) =
      (1 ≤ tail)
      × (tail ≤ max_log_lines)
      × ((pods : List Pod) × (pod : Pod) × Logged (list_pods own_pods) (ok pods) past
          × IsNewest pods pod
          × (name ≡ pod.name))
  OfLogs past _ = ⊥

-- The lines of the log that was read, and the Pod's name.
abbrev pub IsRead : List (Event Reply) → Logs → Type 0
IsRead past logs =
    (tail : ℕ) × (previous : Bool) × (raw : Text) × Logged (pod_logs logs.pod_name tail previous)
      (ok raw) past
    × (logs.log_lines ≡ lines raw)

tail_of-bounds : (n : Option ℕ) → (1 ≤ tail_of n) × (tail_of n ≤ max_log_lines)
unfolding tail_of
tail_of-bounds none = (omega arith, omega arith)
tail_of-bounds (some n) = (ground arith, ground arith)

module _ (id : Text) (tail_lines : Option ℕ) (previous : Option Bool) where
  -- behind the Pods' list
  listed-Holds :
      (reply : Result Text (List Pod))
      → Holds {A = Logs}
          (OfLogs id)
          (λ h r. IfOk (IsRead h) r)
          ((list_pods (pod_selector id), reply) ∷ [])
          (or_internal (codes "failed to list pods for " ++ (id ++ codes ": ")) reply
            >>= (λ pods. first_pod id pods)
            >>= λ pod.
                request (pod_logs pod.name (tail_of tail_lines) (unwrap_or previous false))
                >>= λ reply.
                    or_internal (codes "failed to read logs for " ++ (pod.name ++ codes ": ")) reply
                    >>= λ raw. pure (record { log_lines = lines raw; pod_name = pod.name }))
  unfolding or_internal first_pod pod_selector ◌>>=◌
  listed-Holds (err e) = at_err tt
  listed-Holds (ok []) = at_err tt
  listed-Holds (ok (pod ∷ rest)) =
      let (older, others, mem) = newest-Wins pod rest in
      let (low, high) = tail_of-bounds tail_lines in
      at_call
        (
          low,
          high,
          (
            pod ∷ rest,
            newest pod rest,
            Memᴰ.head refl,
            (mem, All-IsNoLater (pod ∷ rest) _ (older, others)),
            refl,
          ),
        )
        (elim [ err e ↦ at_err tt | ok raw ↦ at_ok (_, _, raw, Memᴰ.head refl, refl) ])

  -- Whatever the services reply, `get_server_logs` lists the Pods that the server's own labels select,
  -- and reads the log of one of them that none was created after, between 1 and 5000 lines of it; it
  -- calls nothing else, and succeeds only with the lines that it read.
  pub get_server_logs-OfLogs :
      Holds (OfLogs id) (λ h r. IfOk (IsRead h) r) [] (get_server_logs id tail_lines previous)
  unfolding get_server_logs server_pod pod_selector ◌>>=◌
  get_server_logs-OfLogs = at_call refl listed-Holds
