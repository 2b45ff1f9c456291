-- ===== src/Runtime/Stopped.antt =====
-- Proofs on `_terminate_evaluator_process` of workspace_agent_harness/__init__.py.
use pan_agent.Base.{◌≡◌, refl, Bool, true, false, Bool-cases, inl, inr}
use pan_agent.Runtime.Termination.{
  Signal, sigkill, Killed, delivered, no_process, not_permitted, Child, after_kill, force_end,
  kill_alive, ask_to_end, terminate_alive, terminate_evaluator_process,
}

module _ {W : Type 0} (child : Child W) where
  -- No process outlives SIGKILL by the wait for it, and one that cannot be found is not alive then.
  pub record IsMortal : Type 0 where
    pub by_group :
        (world world' : W)
        → child.killpg sigkill world ≡ (delivered, world')
        → child.is_alive (child.join world') ≡ false
    pub not_found :
        (world world' : W)
        → child.killpg sigkill world ≡ (no_process, world')
        → child.is_alive (child.join world') ≡ false
    pub by_itself : (world : W) → child.is_alive (child.join (child.send sigkill world)) ≡ false

  after_kill-ends :
      (world : W) (killed : Killed × W)
      → IsMortal
      → child.killpg sigkill world ≡ killed
      → child.is_alive (child.join (after_kill child killed)) ≡ false
  unfolding after_kill
  after_kill-ends world (delivered, world') mortal e = mortal.by_group world world' e
  after_kill-ends world (no_process, world') mortal e = mortal.not_found world world' e
  after_kill-ends world (not_permitted, world') mortal e = mortal.by_itself world'

  force_end-ends :
      (group_ready : Bool) (world : W)
      → IsMortal
      → child.is_alive (child.join (force_end child group_ready world)) ≡ false
  unfolding force_end
  force_end-ends true world mortal = after_kill-ends world (child.killpg sigkill world) mortal refl
  force_end-ends false world mortal = mortal.by_itself world

  kill_alive-ends :
      (group_ready : Bool) (world : W)
      → IsMortal
      → child.is_alive (kill_alive child group_ready world) ≡ false
  unfolding kill_alive
  kill_alive-ends group_ready world mortal = elim (Bool-cases (child.is_alive world)) [
    | inl alive ↦ rw alive (force_end-ends group_ready world mortal)
    | inr dead ↦ rw (dead, dead) refl
  ]

  -- Once a started evaluator's process is terminated it is not alive, whatever it makes of the first
  -- signal and whether or not its group may be signalled. Before the child has said that it is
  -- ready, no process group is signalled: nothing depends on what `os.killpg` would do. This takes
  -- that SIGKILL ends a process by the wait for it, and that one that is not found is not alive.
  pub terminate_evaluator_process-ends :
      (group_ready : Bool) (world : W)
      → IsMortal
      → (child.is_alive (terminate_evaluator_process child true group_ready world) ≡ false)
        × ((other : Signal → W → Killed × W) (is_started : Bool)
            → terminate_evaluator_process (record child { killpg = other }) is_started false world
              ≡ terminate_evaluator_process child is_started false world)
  unfolding terminate_evaluator_process kill_alive force_end ask_to_end terminate_alive
  terminate_evaluator_process-ends group_ready world mortal = (
    kill_alive-ends group_ready (child.join (ask_to_end child group_ready world)) mortal,
    λ other is_started. refl,
  )
