-- ===== src/Evented/Admitted.antt =====
-- What `_admission_error` has established of the calls of a candidate that it lets through.
use mathlib.Core.Path.{subst}
use pan_agent.Base.{
  ◌≡◌, refl, String, Bool, true, false, not, Option, none, some, List, [], ◌∷◌, str_eq,
  if◌then◌else◌,
}
use pan_agent.Base.Result.{not-eq-false}
use pan_agent.Base.Json.{get}
use pan_agent.Evented.Types.{
  ToolCall, Candidate, tool_call, tool_batch, final, malformed, EventTool,
}
use pan_agent.Evented.Machine.{Agent, RunState, value, Part, pure}
use pan_agent.Evented.Admission.{
  candidate_tool_calls, find_tool, tool_error, stop_or, calls_error, admission_error, is_in,
  has_only, is_full_text,
}
use pan_agent.Evented.Values.{>>=-value}

module _ {W : Type 0} (agent : Agent W) where
  -- The call names a known tool, and gives it the one argument that it takes.
  pub record IsCallable (c : ToolCall) : Type 0 where
    pub tool : EventTool W
    pub found : find_tool agent agent.tools c.tool_name ≡ some tool
    pub only_argument : has_only tool.definition.argument_name c.arguments ≡ true
    pub full_argument : is_full_text (get tool.definition.argument_name c.arguments) ≡ true

  -- The calls have ids that are not empty and not used, by earlier turns or by earlier calls.
  abbrev pub AreAdmitted : List ToolCall → List String → Type 0
  AreAdmitted [] used = Unit
  AreAdmitted (c ∷ calls) used =
      (str_eq c.call_id "" ≡ false)
      × (is_in c.call_id used ≡ false)
      × IsCallable c
      × AreAdmitted calls (c.call_id ∷ used)

  -- A test that would have returned an error was false.
  refuse-none :
      (b : Bool) (message : String) (k : Part W (Option String)) (s s' : RunState W)
      → (if b then pure (some message) else k) s ≡ value none s'
      → (b ≡ false) × (k s ≡ value none s')
  unfolding pure
  refuse-none true message k s s' h = cc
  refuse-none false message k s s' h = (refl, h)

  stop_or-none :
      (error : Option String) (more : Part W (Option String)) (s s' : RunState W)
      → stop_or agent error more s ≡ value none s'
      → (error ≡ none) × (more s ≡ value none s')
  unfolding pure
  stop_or-none none more s s' h = (refl, h)
  stop_or-none (some message) more s s' h = cc

  tool_error-none :
      (c : ToolCall) (tool : EventTool W) (s s' : RunState W)
      → tool_error agent c (some tool) s ≡ value none s'
      → (has_only tool.definition.argument_name c.arguments ≡ true)
        × (is_full_text (get tool.definition.argument_name c.arguments) ≡ true)
  unfolding tool_error
  tool_error-none c tool s s' h =
      let argument_name = tool.definition.argument_name in
      let (only, h) = refuse-none (not (has_only argument_name c.arguments)) _ _ s s' h in
      let (full, _) = refuse-none (not (is_full_text (get argument_name c.arguments))) _ _ s s' h in
      (not-eq-false _ only, not-eq-false _ full)

  found-IsCallable :
      (c : ToolCall) (found : Option (EventTool W)) (s s' : RunState W)
      → find_tool agent agent.tools c.tool_name ≡ found
      → tool_error agent c found s ≡ value none s'
      → IsCallable c
  found-IsCallable c none s s' is_found h = unfold tool_error pure in cc
  found-IsCallable c (some tool) s s' is_found h =
      let (only, full) = tool_error-none c tool s s' h in
      record { tool = tool; found = is_found; only_argument = only; full_argument = full }

  calls_error-none :
      (calls : List ToolCall) (used : List String) (s s' : RunState W)
      → calls_error agent calls used s ≡ value none s'
      → AreAdmitted calls used
  unfolding calls_error
  calls_error-none [] used s s' h = tt
  calls_error-none (c ∷ calls) used s s' h = do
    let (full, h) = refuse-none (str_eq c.call_id "") _ _ s s' h
    let (fresh, h) = refuse-none (is_in c.call_id used) _ _ s s' h
    let (error, s1, first, h) = >>=-value _ _ s h
    let (none_found, h) = stop_or-none error _ s1 s' h
    let first' : tool_error agent c (find_tool agent agent.tools c.tool_name) s ≡ value none s1 =
        subst (λ e. tool_error agent c (find_tool agent agent.tools c.tool_name) s ≡ value e s1)
          none_found first
    (
      full,
      fresh,
      found-IsCallable c (find_tool agent agent.tools c.tool_name) s s1 refl first',
      calls_error-none calls (c.call_id ∷ used) s1 s' h,
    )

  -- A candidate that `_admission_error` lets through has only calls with ids that are not empty, not
  -- used in earlier turns and not used twice, of known tools, each with the one argument that its
  -- tool takes, as a text that is not empty.
  pub admission_error-none :
      (candidate : Candidate) (used : List String) (s s' : RunState W)
      → admission_error agent candidate used s ≡ value none s'
      → AreAdmitted (candidate_tool_calls candidate) used
  unfolding admission_error
  admission_error-none (tool_call c _) used s s' h = calls_error-none (c ∷ []) used s s' h
  admission_error-none (tool_batch c d rest _) used s s' h =
      calls_error-none (c ∷ d ∷ rest) used s s' h
  admission_error-none (final _ _ _ _) used s s' h = tt
  admission_error-none (malformed _) used s s' h = tt
