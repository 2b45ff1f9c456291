-- ===== src/Runtime/Termination.antt =====
-- workspace_agent_harness/__init__.py: `_terminate_evaluator_process`. What the operating system does with
-- a signal is an argument, over a world `W`. A wait for the child ends after a second, also where the
-- child lives on.
use pan_agent.Base.{Bool, if◌then◌else◌}

pub data Signal : Type 0 where
  sigterm : Signal
  sigkill : Signal

-- How `os.killpg` ends: it returns, or raises `ProcessLookupError` or `PermissionError`
pub data Killed : Type 0 where
  delivered : Killed
  no_process : Killed
  not_permitted : Killed

-- `process.is_alive()`, `os.killpg(process.pid, signal)`, `process.terminate()` and `process.kill()`,
-- which send the child alone SIGTERM and SIGKILL, and `process.join(timeout=1)`
pub record Child (W : Type 0) : Type 0 where
  pub is_alive : W → Bool
  pub killpg : Signal → W → Killed × W
  pub send : Signal → W → W
  pub join : W → W

module _ {W : Type 0} (child : Child W) where
  unfoldable pub terminate_alive : W → W
  terminate_alive world = if child.is_alive world then child.send sigterm world else world

  -- The handlers around the first `os.killpg`
  unfoldable pub after_term : Killed × W → W
  after_term (delivered, world) = world
  after_term (no_process, world) = world
  after_term (not_permitted, world) = terminate_alive world

  -- The handlers around the second
  unfoldable pub after_kill : Killed × W → W
  after_kill (delivered, world) = world
  after_kill (no_process, world) = world
  after_kill (not_permitted, world) = child.send sigkill world

  unfoldable pub ask_to_end : Bool → W → W
  ask_to_end group_ready world =
      if group_ready then after_term (child.killpg sigterm world) else terminate_alive world

  unfoldable pub force_end : Bool → W → W
  force_end group_ready world =
      if group_ready then after_kill (child.killpg sigkill world) else child.send sigkill world

  unfoldable pub kill_alive : Bool → W → W
  kill_alive group_ready world =
      if child.is_alive world then child.join (force_end group_ready world) else world

  -- `is_started` is process.pid is not None
  unfoldable pub terminate_evaluator_process : Bool → Bool → W → W
  terminate_evaluator_process is_started group_ready world =
      if is_started
      then kill_alive group_ready (child.join (ask_to_end group_ready world))
      else world
