-- ===== src/ReviewTasks/Shown.antt =====
-- What src/brain/review/review-task.service.ts shows of a task once it is decided.
use zxql_ai.Prelude.{
  ℕ, String, true, false, Option, none, some, ◌≡◌, ◌≢◌, refl, sym, ◌∙◌, ap, subst, arith, ◌==◌,
  nat_eq, string_eq, beq_refl,
}
use zxql_ai.ReviewTasks
use zxql_ai.ReviewTasks.{
  ReviewStatus, pending, approved, rejected, ReviewTask, Repository, ReviewResult, reviewed, failed,
  ReviewError, not_found, conflict, truthy, mark_approved, mark_rejected, decide_task,
  decide_by_status, get, found,
}
use zxql_ai.ReviewTasks.Decisions.{Lawful}

module _ {S : Type 0} (repo : Repository S) (h : Lawful repo) where
  -- A lookup for the tenant of the row.
  pub find_one-truthy :
      (id : ℕ) (tenant : String) (s : S) (row : ReviewTask)
      → (tenant == "") ≡ false
      → row.tenant_id ≡ tenant
      → repo.find_one id none s ≡ some row
      → repo.find_one id (truthy (some tenant)) s ≡ some row
  find_one-truthy id tenant s row full own e =
      rw full (subst (λ t. repo.find_one id (some t) s ≡ some row) own (h.with_tenant id s row e))

  -- A decision that goes through is written and shown.
  decide_task-shown :
      (mark : ReviewTask → ReviewTask) (tenant : String) (s : S) (row : ReviewTask)
      → (tenant == "") ≡ false
      → row.tenant_id ≡ tenant
      → repo.find_one row.id none s ≡ some row
      → row.status ≡ pending
      → (mark row).id ≡ row.id
      → (mark row).tenant_id ≡ row.tenant_id
      → let o = repo.find_one row.id (truthy (some tenant)) s in
        (decide_task repo mark row.id o s ≡ (repo.save (mark row) s, reviewed (mark row)))
        × (repo.find_one row.id (truthy (some tenant)) (repo.save (mark row) s) ≡ some (mark row))
  decide_task-shown mark tenant s row full own e p k same =
      let found = find_one-truthy row.id tenant s row full own e in
      let law =
        h.saved row.id s (mark row) row
          (subst (λ n. repo.find_one n none s ≡ some row) (sym k) e) in
      let here : ((mark row).id == row.id) ≡ true =
        subst (λ n. (n == row.id) ≡ true) (sym k) (beq_refl row.id) in
      (
        rw found (ap (λ x. decide_by_status repo mark row x s) p),
        find_one-truthy row.id tenant (repo.save (mark row) s) (mark row) full (same ∙ own)
            (law ∙ rw here refl),
      )

module _ {S : Type 0} (repo : Repository S) where
  -- A row that is decided is refused.
  decide_task-refused :
      (mark : ReviewTask → ReviewTask) (id : ℕ) (s : S) (o : Option ReviewTask) (row : ReviewTask)
      (status : ReviewStatus)
      → o ≡ some row
      → row.status ≡ status
      → status ≢ pending
      → decide_task repo mark id o s ≡ (s, failed (conflict status))
  decide_task-refused mark id s o row status e q d =
      rw e (ap (λ x. decide_by_status repo mark row x s) q ∙ refused status d)
    where
      refused :
          (x : ReviewStatus)
          → x ≢ pending
          → decide_by_status repo mark row x s ≡ (s, failed (conflict x))
      refused pending d = absurd (d refl)
      refused approved d = refl
      refused rejected d = refl

-- What a caller of the tenant meets after a decision that left `task` in the state `s`: the task is
-- shown so, and a second approval or rejection is refused for its status and changes nothing.
abbrev pub IsFinal : {S : Type 0} → Repository S → S → String → ReviewTask → Type 0
IsFinal repo s tenant task =
    (get repo task.id (some tenant) s ≡ reviewed task)
    × ((now : ℕ) (reviewer : String)
        → ReviewTasks.approve repo now task.id reviewer (some tenant) s
          ≡ (s, failed (conflict task.status)))
    × ((now : ℕ) (reviewer reason : String)
        → ReviewTasks.reject repo now task.id reviewer reason (some tenant) s
          ≡ (s, failed (conflict task.status)))

pub IsFinal-intro :
    {S : Type 0} (repo : Repository S) (s : S) (tenant : String) (task : ReviewTask)
    → repo.find_one task.id (truthy (some tenant)) s ≡ some task
    → task.status ≢ pending
    → IsFinal repo s tenant task
unfolding get ReviewTasks.approve ReviewTasks.reject
IsFinal-intro repo s tenant task e d = (
  ap (found repo task.id) e,
  (λ now reviewer.
      decide_task-refused repo (mark_approved now reviewer) task.id s _ task task.status e refl d),
  (λ now reviewer reason.
      decide_task-refused repo (mark_rejected now reviewer reason) task.id s _ task task.status e
        refl d),
)

-- A pending task of a tenant that a caller of the tenant approves or rejects: the call returns the
-- task with the reviewer, the time and, unless it is empty, the reason; from then on the tenant is
-- shown just that, and a second approval or rejection by the tenant is refused for the status and
-- changes nothing. The table keeps the laws that `Lawful` names.
pub decisions-IsFinal :
    {S : Type 0} (repo : Repository S)
    → Lawful repo
    → (now : ℕ) (reviewer reason tenant : String) (s : S) (row : ReviewTask)
    → (tenant == "") ≡ false
    → row.tenant_id ≡ tenant
    → repo.find_one row.id none s ≡ some row
    → row.status ≡ pending
    → let (a, yes_out) = ReviewTasks.approve repo now row.id reviewer (some tenant) s in
      let (b, no_out) = ReviewTasks.reject repo now row.id reviewer reason (some tenant) s in
      (yes_out ≡ reviewed (mark_approved now reviewer row))
      × IsFinal repo a tenant (mark_approved now reviewer row)
      × (no_out ≡ reviewed (mark_rejected now reviewer reason row))
      × IsFinal repo b tenant (mark_rejected now reviewer reason row)
unfolding ReviewTasks.approve ReviewTasks.reject mark_approved mark_rejected
decisions-IsFinal {S} repo h now reviewer reason tenant s row full own e p =
    let (x, y) =
      decide_task-shown repo h (mark_approved now reviewer) tenant s row full own e p refl refl in
    let (u, v) =
      decide_task-shown repo h (mark_rejected now reviewer reason) tenant s row full own e p refl
        refl in
    (
      ap (λ (z : S × ReviewResult). z.1) x,
      rw x
          (IsFinal-intro repo _ tenant (mark_approved now reviewer row) y (λ q. ground (arith, q))),
      ap (λ (z : S × ReviewResult). z.1) u,
      rw u (
          IsFinal-intro repo _ tenant (mark_rejected now reviewer reason row) v
            (λ q. ground (arith, q))),
    )
