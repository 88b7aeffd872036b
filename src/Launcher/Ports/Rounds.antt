-- ===== src/Launcher/Ports/Rounds.antt =====
-- How long a server waits for its ports: services/launcher/src/launch.rs, `wait_for_ports_free`.
use magpie.Prelude.{
  ℕ, zero, suc, ◌+◌, ◌*◌, ◌%◌, ◌^◌, ◌≤◌, ◌<◌, ◌≡◌, refl, Option, none, some, Text, Bool-cases, inl,
  inr, arith, true, false, leb, sym, subst,
}
use magpie.Prelude.Prog.{Result, ok, err, run, run-bind, ◌>>=◌}
use magpie.Launcher.Calls.{Fallible, Call, Reply, bind, now, sleep}
use magpie.Launcher.Ports.{
  port_range_size, port_wait_timeout, port_wait_retry_interval, find_busy, busy_error, retry,
  wait_until, wait_for_ports_free,
}

-- A handler with a clock: it says the time, a probe takes none back, and a sleep lasts.
pub record HasClock {W : Type 0} (handler : (c : Call) → W → Reply c × W) (time : W → ℕ)
    : Type 0 where
  pub says : (w : W) → (handler now w).0 ≡ time w
  pub at_now : (w : W) → time w ≤ time (handler now w).1
  pub at_bind : (port : ℕ) (w : W) → time w ≤ time (handler (bind port) w).1
  pub at_sleep : (ms : ℕ) (w : W) → time w + ms ≤ time (handler (sleep ms) w).1

module _ {W : Type 0} (handler : (c : Call) → W → Reply c × W) (time : W → ℕ)
    (clock : HasClock handler time) (port : ℕ) where
  open clock use {says, at_now, at_bind, at_sleep}

  -- The port of an offset, of 16 bits.
  abbrev pub port_at : ℕ → ℕ
  port_at offset = (port + offset) % 2 ^ 16

  -- So many ports, from an offset on, were found free one after another, between two states.
  abbrev pub AllFree : ℕ → ℕ → W → W → Type 0
  AllFree zero offset w after = after ≡ w
  AllFree (suc left) offset w after =
      ((handler (bind (port_at offset)) w).0 ≡ true)
      × AllFree left (suc offset) (handler (bind (port_at offset)) w).1 after

  -- A port of the range was found bound, and what is left is the state behind its probe.
  abbrev pub IsBusy : ℕ → W → Type 0
  IsBusy busy after =
      (offset : ℕ) × (before : W) × (offset < 5)
      × (busy ≡ port_at offset)
      × ((handler (bind busy) before).0 ≡ false)
      × (after ≡ (handler (bind busy) before).1)

  -- The end of a wait: the five ports were found free by its last five calls; or a port of the range
  -- was found bound, and the call behind it told that the deadline is over.
  abbrev pub Waited : ℕ → Result Text Unit × W → Type 0
  Waited deadline (ok u, w) = (v : W) × AllFree 5 0 v w
  Waited deadline (err e, w) =
      (busy : ℕ) × (v : W) × IsBusy busy v
      × (w ≡ (handler now v).1)
      × (e ≡ busy_error port busy)
      × (deadline ≤ time w)

  -- what a round of probes finds
  abbrev Found : ℕ → ℕ → W → Option ℕ → W → Type 0
  Found left offset w none after = AllFree left offset w after
  Found left offset w (some busy) after = IsBusy busy after

  found_behind :
      (left offset : ℕ) (w : W) (found : Option ℕ) (after : W)
      → (handler (bind (port_at offset)) w).0 ≡ true
      → Found left (suc offset) (handler (bind (port_at offset)) w).1 found after
      → Found (suc left) offset w found after
  found_behind left offset w none after free seen = (free, seen)
  found_behind left offset w (some busy) after free seen = seen

  -- the probes give an answer, and take no time back
  probed :
      (left offset : ℕ) (w : W)
      → left + offset ≤ 5
      → (found : Option ℕ) × (after : W) × (time w ≤ time after)
        × (run {E = Text} handler (find_busy left port offset) w ≡ (ok found, after))
        × Found left offset w found after
  unfolding find_busy run ◌>>=◌
  probed zero offset w small = (none, w, omega arith, refl, refl)
  probed (suc left) offset w small =
      let p = (port + offset) % 2 ^ 16 in
      let step = at_bind p w in
      elim (Bool-cases (handler (bind p) w).0) [
        | inl free ↦
            let (found, after, later, is, seen) =
              probed left (suc offset) (handler (bind p) w).1 (omega arith) in
            (
              found,
              after,
              omega arith,
              rw (free, run, find_busy) is,
              found_behind left offset w found after free seen,
            )
        | inr busy ↦ (
          some p,
          (handler (bind p) w).1,
          step,
          rw (busy, run, find_busy) refl,
          (offset, w, omega arith, refl, busy, refl),
        )
      ]

  retry-Waited :
      (again : Fallible Unit) (deadline : ℕ) (found : Option ℕ) (v w : W)
      → Found 5 0 v found w
      → (time w < deadline
          → (w' : W) → time w + port_wait_retry_interval ≤ time w'
          → Waited deadline (run handler again w'))
      → Waited deadline (run handler (retry again deadline port found) w)
  unfolding retry run ◌>>=◌
  retry-Waited again deadline none v w seen next = (v, seen)
  retry-Waited again deadline (some busy) v w seen next =
      let t = says w in
      let later = at_now w in
      let slept = at_sleep port_wait_retry_interval (handler now w).1 in
      elim (Bool-cases (leb deadline (handler now w).0)) [
        | inl over ↦ rw (over, retry, run) (busy, w, seen, refl, refl, ground arith)
        | inr early ↦ rw (early, retry, run) (next (ground arith) _ (omega arith))
      ]

  wait_until-Waited :
      (rounds deadline : ℕ) (w : W)
      → deadline ≤ time w + rounds * port_wait_retry_interval
      → Waited deadline (run handler (wait_until (suc rounds) deadline port) w)
  unfolding wait_until
  wait_until-Waited zero deadline w enough =
      let (found, after, later, is, seen) = probed port_range_size 0 w (omega arith) in
      rw (run-bind handler (find_busy port_range_size port 0) _ w, is)
        (retry-Waited _ deadline found w after seen λ early. absurd (omega arith))
  wait_until-Waited (suc rounds) deadline w enough =
      let (found, after, later, is, seen) = probed port_range_size 0 w (omega arith) in
      rw (run-bind handler (find_busy port_range_size port 0) _ w, is)
        (retry-Waited _ deadline found w after seen
          λ early w' slept. wait_until-Waited rounds deadline w' (omega arith))

  -- On a system whose clock does not go back, and whose sleep lasts as long as it is asked to, the
  -- wait comes to an end within its 62 rounds: its last five calls found the five ports free, or the
  -- error names one of them that was found bound, and then two minutes have passed.
  pub wait_for_ports_free-Waited :
      (w : W) → Waited (time w + port_wait_timeout) (run handler (wait_for_ports_free port) w)
  unfolding wait_for_ports_free run ◌>>=◌
  wait_for_ports_free-Waited w =
      let later = at_now w in
      subst
        (λ t.
          Waited (time w + port_wait_timeout)
            (run handler (wait_until 62 (t + port_wait_timeout) port) (handler now w).1))
        (sym (says w))
        (wait_until-Waited 61 (time w + port_wait_timeout) (handler now w).1 (omega arith))
