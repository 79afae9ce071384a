-- ===== src/ReviewTasks/Decisions.antt =====
-- Histories of the tasks of src/brain/review/review-task.service.ts.
use zxql_ai.Prelude.{
  ℕ, String, Option, none, some, List, [], ◌∷◌, ◌≡◌, ◌≢◌, refl, sym, ◌∙◌, ap, subst, ◌⊎◌, inl, inr,
  arith, if◌then◌else◌, ◌==◌, nat_eq, nat_beq_iff, string_eq, Bool-cases, Memᴰ,
}
use zxql_ai.ReviewTasks
use zxql_ai.ReviewTasks.{
  ReviewStatus, pending, approved, rejected, ReviewTask, CreateReviewTaskInput, NewReviewTask,
  entity_of, Repository, ReviewResult, truthy, mark_approved, mark_rejected, decide_task,
  decide_by_status,
}

-- How a table answers after it is written.
pub record Lawful {S : Type 0} (repo : Repository S) : Type 0 where
  pub same_key :
      (id : ℕ) (s : S) (row : ReviewTask) → repo.find_one id none s ≡ some row → row.id ≡ id
  pub of_tenant :
      (id : ℕ) (tenant : String) (s : S) (row : ReviewTask)
      → repo.find_one id (some tenant) s ≡ some row
      → (repo.find_one id none s ≡ some row) × (row.tenant_id ≡ tenant)
  pub with_tenant :
      (id : ℕ) (s : S) (row : ReviewTask)
      → repo.find_one id none s ≡ some row
      → repo.find_one id (some row.tenant_id) s ≡ some row
  pub saved :
      (id : ℕ) (s : S) (task old : ReviewTask)
      → repo.find_one task.id none s ≡ some old
      → repo.find_one id none (repo.save task s)
        ≡ (if task.id == id then some task else repo.find_one id none s)
  pub created :
      (id : ℕ) (s : S) (row : ReviewTask) (now : ℕ) (entity : NewReviewTask)
      → repo.find_one id none s ≡ some row
      → repo.find_one id none (repo.insert now entity s).0 ≡ some row

-- The calls that write.
pub data ReviewCall : Type 0 where
  creates : ℕ → CreateReviewTaskInput → ReviewCall
  approves : (now id : ℕ) (reviewer : String) → Option String → ReviewCall
  rejects : (now id : ℕ) (reviewer reason : String) → Option String → ReviewCall

-- A caller without a tenant may decide every task, one with a tenant the tasks of it.
abbrev pub Permits : Option String → ReviewTask → Type 0
Permits none row = Unit {0}
Permits (some tenant) row = row.tenant_id ≡ tenant

-- What can become of a row under calls.
pub data Fate (calls : List ReviewCall) (row : ReviewTask) : ReviewTask → Type 0 where
  untouched : Fate calls row row
  by_approval :
      (now : ℕ) (reviewer : String) (tenant : Option String)
      → Memᴰ (approves now row.id reviewer tenant) calls
      → Permits (truthy tenant) row
      → row.status ≡ pending
      → Fate calls row (mark_approved now reviewer row)
  by_rejection :
      (now : ℕ) (reviewer reason : String) (tenant : Option String)
      → Memᴰ (rejects now row.id reviewer reason tenant) calls
      → Permits (truthy tenant) row
      → row.status ≡ pending
      → Fate calls row (mark_rejected now reviewer reason row)

Fate-later :
    (call : ReviewCall) (calls : List ReviewCall) (row out : ReviewTask)
    → Fate calls row out
    → Fate (call ∷ calls) row out
Fate-later call calls row _ untouched = untouched
Fate-later call calls row _ (by_approval now reviewer tenant m p q) =
    by_approval now reviewer tenant (Memᴰ.tail m) p q
Fate-later call calls row _ (by_rejection now reviewer reason tenant m p q) =
    by_rejection now reviewer reason tenant (Memᴰ.tail m) p q

-- A decided row stays as it is.
decided-stays :
    (calls : List ReviewCall) (row out : ReviewTask) (s : ReviewStatus)
    → row.status ≡ s
    → s ≢ pending
    → Fate calls row out
    → out ≡ row
decided-stays calls row _ s e d untouched = refl
decided-stays calls row _ s e d (by_approval now reviewer tenant m p q) = absurd (d (sym e ∙ q))
decided-stays calls row _ s e d (by_rejection now reviewer reason tenant m p q) =
    absurd (d (sym e ∙ q))

module _ {S : Type 0} (repo : Repository S) where
  unfoldable pub run_call : ReviewCall → S → S
  unfolding ReviewTasks.create ReviewTasks.approve ReviewTasks.reject
  run_call (creates now input) s = (ReviewTasks.create repo now input s).0
  run_call (approves now id reviewer tenant) s =
      (ReviewTasks.approve repo now id reviewer tenant s).0
  run_call (rejects now id reviewer reason tenant) s =
      (ReviewTasks.reject repo now id reviewer reason tenant s).0

  unfoldable pub run_calls : List ReviewCall → S → S
  unfolding run_call
  run_calls [] s = s
  run_calls (call ∷ calls) s = run_calls calls (run_call call s)

  -- A lookup for a tenant finds the row of the key, if it is of the tenant.
  find_one-Permits :
      Lawful repo
      → (id : ℕ) (tenant : Option String) (s : S) (row : ReviewTask)
      → repo.find_one id tenant s ≡ some row
      → (repo.find_one id none s ≡ some row) × Permits tenant row
  find_one-Permits h id none s row e = (e, tt)
  find_one-Permits h id (some tenant) s row e = h.of_tenant id tenant s row e

  -- A decision writes the row of its key, if that is pending, and no other.
  decide_task-lem :
      Lawful repo
      → (mark : ReviewTask → ReviewTask) (id j : ℕ) (s : S) (o : Option ReviewTask)
      → ((t : ReviewTask) → (mark t).id ≡ t.id)
      → ((t : ReviewTask) → o ≡ some t → repo.find_one id none s ≡ some t)
      → (repo.find_one j none (decide_task repo mark id o s).0 ≡ repo.find_one j none s)
        ⊎ ((t : ReviewTask) × (o ≡ some t)
            × (t.status ≡ pending)
            × (id ≡ j)
            × (repo.find_one j none (decide_task repo mark id o s).0 ≡ some (mark t)))
  decide_task-lem h mark id j s none k f = inl refl
  decide_task-lem h mark id j s (some t) k f = by_status t.status refl
    where
      by_status :
          (status : ReviewStatus)
          → t.status ≡ status
          → (repo.find_one j none (decide_by_status repo mark t status s).0
              ≡ repo.find_one j none s)
            ⊎ ((u : ReviewTask) × (◌≡◌ {A = Option ReviewTask} (some t) (some u))
                × (u.status ≡ pending)
                × (id ≡ j)
                × (repo.find_one j none (decide_by_status repo mark t status s).0 ≡ some (mark u)))
      by_status approved e = inl refl
      by_status rejected e = inl refl
      by_status pending e =
          let key : (mark t).id ≡ id = k t ∙ h.same_key id s t (f t refl) in
          let law =
            h.saved j s (mark t) t
              (subst (λ n. repo.find_one n none s ≡ some t) (sym key) (f t refl)) in
          elim (Bool-cases ((mark t).id == j)) [
            | inl same ↦
                inr (t, refl, e, sym key ∙ (nat_beq_iff (mark t).id j).0 same, law ∙ rw same refl)
            | inr other ↦ inl (law ∙ rw other refl)
          ]

  same_row :
      (id j : ℕ) (s : S) (t row : ReviewTask)
      → repo.find_one id none s ≡ some t
      → repo.find_one j none s ≡ some row
      → id ≡ j
      → t ≡ row
  same_row id j s t row a b k = ground (arith, a, b, k)

  -- What a call does to a row.
  run_call-Fate :
      Lawful repo
      → (call : ReviewCall) (calls : List ReviewCall) (s : S) (row : ReviewTask)
      → repo.find_one row.id none s ≡ some row
      → (out : ReviewTask) × (repo.find_one row.id none (run_call call s) ≡ some out)
        × Fate (call ∷ calls) row out
  unfolding run_call ReviewTasks.create ReviewTasks.approve ReviewTasks.reject
  run_call-Fate h (creates now input) calls s row e =
      (row, h.created row.id s row now (entity_of input) e, untouched)
  run_call-Fate h (approves now id reviewer tenant) calls s row e =
      elim (decide_task-lem h (mark_approved now reviewer) id row.id s
        (repo.find_one id (truthy tenant) s) (λ t. unfold mark_approved in refl)
        (λ t q. (find_one-Permits h id (truthy tenant) s t q).0)) [
          | inl same ↦ (row, same ∙ e, untouched)
          | inr (t, q, p, k, w) ↦
              let (here, permit) = find_one-Permits h id (truthy tenant) s t q in
              let same = same_row id row.id s t row here e k in
              (
                mark_approved now reviewer row,
                w ∙ ap (λ u. some (mark_approved now reviewer u)) same,
                by_approval now reviewer tenant
                    (Memᴰ.head (ap (λ n. approves now n reviewer tenant) (sym k)))
                    (subst (Permits (truthy tenant)) same permit)
                    (sym (ap (λ (u : ReviewTask). u.status) same) ∙ p),
              )
        ]
  run_call-Fate h (rejects now id reviewer reason tenant) calls s row e =
      elim (decide_task-lem h (mark_rejected now reviewer reason) id row.id s
        (repo.find_one id (truthy tenant) s) (λ t. unfold mark_rejected in refl)
        (λ t q. (find_one-Permits h id (truthy tenant) s t q).0)) [
          | inl same ↦ (row, same ∙ e, untouched)
          | inr (t, q, p, k, w) ↦
              let (here, permit) = find_one-Permits h id (truthy tenant) s t q in
              let same = same_row id row.id s t row here e k in
              (
                mark_rejected now reviewer reason row,
                w ∙ ap (λ u. some (mark_rejected now reviewer reason u)) same,
                by_rejection now reviewer reason tenant
                    (Memᴰ.head (ap (λ n. rejects now n reviewer reason tenant) (sym k)))
                    (subst (Permits (truthy tenant)) same permit)
                    (sym (ap (λ (u : ReviewTask). u.status) same) ∙ p),
              )
        ]

only-head {ℓ} : {A : Type ℓ} (x y : A) (ys : List A) → Memᴰ x (y ∷ []) → Memᴰ x (y ∷ ys)
only-head x y ys (Memᴰ.head e) = Memᴰ.head e
only-head x y ys (Memᴰ.tail m) = elim m [ ]

-- One call's fate, then the fate under the calls that follow it.
then-Fate :
    (call : ReviewCall) (calls : List ReviewCall) (row mid out : ReviewTask)
    → Fate (call ∷ []) row mid
    → Fate calls mid out
    → Fate (call ∷ calls) row out
then-Fate call calls row _ out untouched g = Fate-later call calls row out g
then-Fate call calls row _ out (by_approval now reviewer tenant m p q) g =
    rw
      (decided-stays calls (mark_approved now reviewer row) out approved
        (unfold mark_approved in refl) (λ e. ground (arith, e)) g)
      (by_approval now reviewer tenant (only-head _ call calls m) p q)
then-Fate call calls row _ out (by_rejection now reviewer reason tenant m p q) g =
    rw
      (decided-stays calls (mark_rejected now reviewer reason row) out rejected
        (unfold mark_rejected in refl) (λ e. ground (arith, e)) g)
      (by_rejection now reviewer reason tenant (only-head _ call calls m) p q)

-- A task that is in the table is there after any calls, either as it was or as one of the calls left
-- it: an approval or a rejection of its id, while it was pending, by a caller without a tenant or with
-- the task's tenant, whose reviewer, time and reason the row then shows, and which no call before or
-- after it overrides.
pub run_calls-Fate :
    {S : Type 0} (repo : Repository S)
    → Lawful repo
    → (calls : List ReviewCall) (s : S) (row : ReviewTask) → repo.find_one row.id none s ≡ some row
    → (out : ReviewTask) × (repo.find_one row.id none (run_calls repo calls s) ≡ some out)
      × Fate calls row out
unfolding run_calls
run_calls-Fate repo h [] s row e = (row, e, untouched)
run_calls-Fate repo h (call ∷ calls) s row e =
    let (mid, f, fate) = run_call-Fate repo h call [] s row e in
    let same_id : mid.id ≡ row.id = h.same_key row.id (run_call repo call s) mid f in
    let (out, g, fate') =
      run_calls-Fate repo h calls (run_call repo call s) mid
        (subst (λ n. repo.find_one n none (run_call repo call s) ≡ some mid) (sym same_id) f) in
    (
      out,
      subst (λ n. repo.find_one n none (run_calls repo calls (run_call repo call s)) ≡ some out)
          same_id g,
      then-Fate call calls row mid out fate fate',
    )
