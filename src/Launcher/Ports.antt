-- ===== src/Launcher/Ports.antt =====
-- The wait for the port range of a server: services/launcher/src/launch.rs, `wait_for_ports_free`.
-- Times are in milliseconds, and a port is 16 bits. The fuel is how many rounds are made at most;
-- 62 are enough, since each round but the last sleeps two seconds of the two minutes.
pub mod Rounds
use magpie.Prelude.{
  ℕ, zero, suc, ◌+◌, ◌-◌, ◌*◌, ◌%◌, ◌^◌, Bool, true, false, Option, none, some, List, [], ◌∷◌, ◌++◌,
  Text, codes, leb, decimal, if◌then◌else◌,
}
use magpie.Prelude.Prog.{Result, ok, err, pure, fail, ◌>>=◌, ◌>>◌, request}
use magpie.Launcher.Calls.{Fallible, bind, now, sleep}

abbrev pub port_range_size : ℕ
port_range_size = 5

abbrev pub port_wait_retry_interval : ℕ
port_wait_retry_interval = 2000

abbrev pub port_wait_timeout : ℕ
port_wait_timeout = 120000

-- the first of so many ports, from an offset on, that cannot be bound
unfoldable pub find_busy : ℕ → ℕ → ℕ → Fallible (Option ℕ)
unfolding ◌>>=◌
find_busy zero port offset = pure none
find_busy (suc left) port offset = request (bind ((port + offset) % 2 ^ 16)) >>= λ free.
    if free then find_busy left port (suc offset) else pure (some ((port + offset) % 2 ^ 16))

unfoldable pub busy_error : ℕ → ℕ → Text
busy_error port busy_port =
    codes "port "
    ++ decimal busy_port
    ++ codes " (in range "
    ++ decimal port
    ++ codes ".."
    ++ decimal ((port + port_range_size - 1) % 2 ^ 16)
    ++ codes ") still bound after 120s, giving up"

abbrev pub out_of_rounds : Text
out_of_rounds = []

-- behind the probe of a round: done, given up, or the next round
unfoldable pub retry : Fallible Unit → ℕ → ℕ → Option ℕ → Fallible Unit
unfolding ◌>>=◌ busy_error
retry again deadline port none = pure tt
retry again deadline port (some busy_port) = request now >>= λ t.
    if leb deadline t
    then fail (busy_error port busy_port)
    else request (sleep port_wait_retry_interval) >> again

unfoldable pub wait_until : ℕ → ℕ → ℕ → Fallible Unit
unfolding ◌>>=◌ find_busy retry
wait_until zero deadline port = fail out_of_rounds
wait_until (suc rounds) deadline port =
    let again = wait_until rounds deadline port in
    find_busy port_range_size port 0 >>= retry again deadline port

unfoldable pub wait_for_ports_free : ℕ → Fallible Unit
unfolding ◌>>=◌ wait_until
wait_for_ports_free port = do start ← request now; wait_until 62 (start + port_wait_timeout) port
