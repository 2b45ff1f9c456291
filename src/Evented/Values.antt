-- ===== src/Evented/Values.antt =====
-- The parts of `AgentLoop.run` that go on with a value.
use pan_agent.Base.{◌≡◌, refl}
use pan_agent.Evented.Machine.{
  RunState, Exit, value, returned, raised, key_error, Part, and_then, ◌>>=◌,
}

module _ {W : Type 0} where
  -- The end of a first part that goes on, and that of the rest.
  pub and_then-value :
      {A B : Type 0} (exit : Exit W A) (f : A → Part W B) {b : B} {s' : RunState W}
      → and_then exit f ≡ value b s'
      → (a : A) × (s : RunState W) × (exit ≡ value a s) × (f a s ≡ value b s')
  and_then-value (value a s) f h = (a, s, refl, h)
  and_then-value (returned r s) f h = cc
  and_then-value (raised e s) f h = cc
  and_then-value (key_error s) f h = cc

  pub value-state :
      {A : Type 0} {a b : A} {s s' : RunState W}
      → ◌≡◌ {A = Exit W A} (value a s) (value b s')
      → s ≡ s'
  value-state h = cc

  pub >>=-value :
      {A B : Type 0} (m : Part W A) (f : A → Part W B) (s : RunState W) {b : B} {s' : RunState W}
      → (m >>= f) s ≡ value b s'
      → (a : A) × (s'' : RunState W) × (m s ≡ value a s'') × (f a s'' ≡ value b s')
  unfolding ◌>>=◌
  >>=-value m f s h = and_then-value (m s) f h
