-- ===== src/Engine.antt =====
-- core/state.hpp and core/state.cpp: the states of the engine and their names.
use fresh_core_native.Prelude.{Bytes, bytes}

pub data EngineState : Type 0 where
  boot active screen_off idle_candidate deep_idle maintenance aborting error_backoff : EngineState

pub EngineState-discrete : Discrete EngineState
EngineState-discrete = hlevel

unfoldable pub state_to_string : EngineState → Bytes
unfolding bytes
state_to_string boot = bytes "BOOT"
state_to_string active = bytes "ACTIVE"
state_to_string screen_off = bytes "SCREEN_OFF"
state_to_string idle_candidate = bytes "IDLE_CANDIDATE"
state_to_string deep_idle = bytes "DEEP_IDLE"
state_to_string maintenance = bytes "MAINTENANCE"
state_to_string aborting = bytes "ABORTING"
state_to_string error_backoff = bytes "ERROR_BACKOFF"
