-- ===== src/Plans/UpkeepRun.antt =====
-- What a run of src/brain/agent/task-runner.service.ts keeps of the state of the services.
use zxql_ai.Prelude.{ℕ, String, Option, none, some, List, [], ◌∷◌, ◌++◌, if-both, any}
use zxql_ai.Plans.{
  running, success, suspended, PlanStepType, tool, agent, condition, end, PlanStep, ExecutionPlan,
  SaveResult, saved, save_conflict, same_status, is_open,
}
use zxql_ai.Plans.Steps
use zxql_ai.Plans.Steps.{
  PlanRunContext, AgentRunEvent, Kernel, Focus, StepEnd, continues, suspends, throws, Stepped,
}
use zxql_ai.Plans.Run
use zxql_ai.Plans.Run.{
  After, next, returns, crashes, RunEnd, is_over, is_passed, run_steps, run_step, run,
}
use zxql_ai.Plans.Upkeep.{Keeping, save_then-keeps, run_tool_step-keeps, run_agent_step-keeps}

module _ {E : Type 0} (k : Kernel E) (P : E → Type 0) (h : Keeping k P) (context : PlanRunContext)
    (now : ℕ) where
  save_caught-keeps :
      (message : String) (f : Focus) (a : E × SaveResult)
      → P a.0
      → P (Run.save_caught k context now message f a).0
  save_caught-keeps message f (e, saved plan) p = p
  save_caught-keeps message f (e, save_conflict plan current) p = p

  catch_step-keeps : (a : Stepped E) → P a.0 → P (Run.catch_step k context now a).0
  unfolding Run.catch_step
  catch_step-keeps (e, events, continues f t c) p = p
  catch_step-keeps (e, events, suspends f) p = p
  catch_step-keeps (e, events, throws message f) p =
      let g = Steps.with_step (Steps.failed_step now message f.step) f in
      save_caught-keeps message g (k.save now (Steps.whole g) e) (h.saves now (Steps.whole g) e p)

  end_saved-keeps :
      (f : Focus) (t c : ℕ) (a : E × SaveResult) → P a.0 → P (Run.end_saved k context now f t c a).0
  unfolding Run.end_saved
  end_saved-keeps f t c (e, saved plan) p = p
  end_saved-keeps f t c (e, save_conflict plan current) p =
      catch_step-keeps (e, [], throws Steps.conflict_message (Steps.touched now plan f)) p

  run_type-keeps :
      (type : PlanStepType) (t c : ℕ) (f : Focus) (e : E)
      → P e
      → P (Run.run_type k context now type t c f e).0
  unfolding Run.run_type
  run_type-keeps end t c f e p =
      let g = Run.end_focus k context now f in
      end_saved-keeps g t c (k.save now (Steps.whole g) e) (h.saves now (Steps.whole g) e p)
  run_type-keeps tool t c f e p =
      catch_step-keeps _ (run_tool_step-keeps k P h context now f.step.tool_name f e p)
  run_type-keeps agent t c f e p = catch_step-keeps _ (run_agent_step-keeps k P h context now f e p)
  run_type-keeps condition t c f e p =
      let g = Run.set_status k context now success f in
      let then_on : Focus → StepEnd = λ f'. continues f' 0 0 in
      catch_step-keeps
        (Steps.save_then k context now g (Steps.step_event k context now g success none ∷ [])
          then_on e)
        (save_then-keeps k P h context now g _ then_on e p)

  started-keeps :
      (t c : ℕ) (f : Focus) (a : E × SaveResult) → P a.0 → P (Run.started k context now t c f a).0
  unfolding Run.started
  started-keeps t c f (e, save_conflict plan current) p = p
  started-keeps t c f (e, saved plan) p = run_type-keeps _ t c (Steps.touched now plan f) e p

  run_step-keeps : (t c : ℕ) (f : Focus) (e : E) → P e → P (run_step k context now t c f e).0
  unfolding run_step
  run_step-keeps t c f e p =
      let g = Run.set_status k context now running f in
      started-keeps t c g (k.save now (Steps.whole g) e) (h.saves now (Steps.whole g) e p)

  finished-keeps :
      (plan : ExecutionPlan) (t c : ℕ) (a : E × SaveResult)
      → P a.0
      → P (Run.finished k context now plan t c a).0
  finished-keeps plan t c (e, saved written) p = p
  finished-keeps plan t c (e, save_conflict written current) p = p

  finish-keeps :
      (plan : ExecutionPlan) (t c : ℕ) (e : E) → P e → P (Run.finish k context now plan t c e).0
  unfolding Run.finish
  finish-keeps plan t c e p =
      let final = Run.final_plan k context now plan in
      finished-keeps final t c (k.save now final e) (h.saves now final e p)

  after_step-keeps :
      (rest : ExecutionPlan → List PlanStep → ℕ → ℕ → E → E × List AgentRunEvent × RunEnd) (t c : ℕ)
      (a : E × List AgentRunEvent × After)
      → ((plan : ExecutionPlan) (before : List PlanStep) (t c : ℕ) (e : E)
          → P e
          → P (rest plan before t c e).0)
      → P a.0
      → P (Run.after_step k context now rest t c a).0
  unfolding Run.after_step
  after_step-keeps rest t c (e, events, next f t' c') r p = r f.plan _ _ _ e p
  after_step-keeps rest t c (e, events, returns plan) r p = p
  after_step-keeps rest t c (e, events, crashes message) r p = p

  abbrev KeptBy : E × List AgentRunEvent × RunEnd → Type 0
  KeptBy a = P a.0

  run_steps-keeps :
      (later : List PlanStep) (plan : ExecutionPlan) (before : List PlanStep) (t c : ℕ) (e : E)
      → P e
      → P (run_steps k context now later plan before t c e).0
  unfolding run_steps
  run_steps-keeps [] plan before t c e p = finish-keeps (record plan { steps = before }) t c e p
  run_steps-keeps (step ∷ later) plan before t c e p =
      let f : Focus = record { plan = plan; before = before; step = step; later = later } in
      if-both KeptBy (is_passed step) _ _
        (run_steps-keeps later plan (before ++ (step ∷ [])) t c e p)
        (if-both KeptBy (same_status step.status suspended) _ _ p (
          after_step-keeps (run_steps k context now later) t c (run_step k context now t c f e)
            (run_steps-keeps later) (run_step-keeps t c f e p)))

  begun-keeps : (a : E × SaveResult) → P a.0 → P (Run.begun k context now a).0
  unfolding Run.begun
  begun-keeps (e, save_conflict plan current) p = p
  begun-keeps (e, saved plan) p = run_steps-keeps plan.steps plan [] 0 0 e p

  run_plan-keeps :
      (plan : Option ExecutionPlan) (e : E) → P e → P (Run.run_plan k context now plan e).0
  unfolding Run.run_plan
  run_plan-keeps none e p = p
  run_plan-keeps (some plan) e p =
      let begin : ExecutionPlan = record plan { state = running } in
      if-both KeptBy (is_over plan.state) _ _ p (
        if-both KeptBy (any is_open plan.steps) _ _
          (begun-keeps (k.save now begin e) (h.saves now begin e p)) (finish-keeps plan 0 0 e p))

  -- What every operation of the services keeps, a run keeps.
  pub run-keeps : (id : ℕ) (tenant : String) (e : E) → P e → P (run k context now id tenant e).0
  unfolding run
  run-keeps id tenant e p = run_plan-keeps (k.find_plan id tenant e) e p
