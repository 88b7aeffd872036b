-- ===== src/Launcher/Calls.antt =====
-- What services/launcher/src/launch.rs asks of the system.
use magpie.Prelude.{ℕ, Bool, List, Text}
use magpie.Prelude.Prog.{Result, Prog}

pub record Entry : Type 0 where
  pub name : Text
  pub is_dir : Bool

pub data Signal : Type 0 where
  sigterm sigint : Signal

-- `ExitStatus`: success, and otherwise the code, or the signal, in the text of the error
pub record ExitStatus : Type 0 where
  pub success : Bool
  pub code : Text

-- What comes first: the process ends, or a signal arrives.
pub data Event : Type 0 where
  exited : Result Text ExitStatus → Event
  received : Signal → Event

pub data Call : Type 0 where
  set_current_dir : Text → Call
  -- `UdpSocket::bind`, the socket dropped at once: whether the port was free
  bind : ℕ → Call
  -- `Instant::now`, in milliseconds
  now : Call
  sleep : ℕ → Call
  is_dir : Text → Call
  create_dir_all : Text → Call
  read_dir : Text → Call
  copy : Text → Text → Call
  spawn : Text → List Text → List (Text × Text) → Call
  -- a handler for the signal
  install : Signal → Call
  select : Call
  kill : Signal → Call
  wait : Call

abbrev pub Reply : Call → Type 0
Reply (set_current_dir path) = Result Text Unit
Reply (bind port) = Bool
Reply now = ℕ
Reply (sleep ms) = Unit
Reply (is_dir path) = Bool
Reply (create_dir_all path) = Result Text Unit
Reply (read_dir path) = Result Text (List (Result Text Entry))
Reply (copy src dst) = Result Text Unit
Reply (spawn program args env) = Result Text Unit
Reply (install kind) = Result Text Unit
Reply select = Event
Reply (kill signal) = Unit
Reply wait = Result Text ExitStatus

abbrev pub Fallible : Type 0 → Type 0
Fallible A = Prog Reply Text A
