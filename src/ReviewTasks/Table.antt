-- ===== src/ReviewTasks/Table.antt =====
-- A table in memory that keeps the laws which the proofs about src/brain/review/review-task.service.ts
-- ask of the repository.
use zxql_ai.Prelude.{
  ℕ, suc, String, Bool, true, false, ◌&&◌, Option, none, some, List, [], ◌∷◌, ◌++◌, ◌≡◌, refl, sym,
  ◌∙◌, ap, subst, inl, inr, arith, if◌then◌else◌, ◌==◌, nat_eq, nat_beq_iff, string_eq, str_eq_iff,
  beq_refl, Bool-cases, filter, length,
}
use zxql_ai.ReviewTasks.{
  ReviewStatus, pending, approved, rejected, ReviewTask, NewReviewTask, Repository,
}
use zxql_ai.ReviewTasks.Decisions.{Lawful}

abbrev first : ℕ → List ReviewTask → Option ReviewTask
first id [] = none
first id (row ∷ rows) = if row.id == id then some row else first id rows

abbrev owned : Option String → Option ReviewTask → Option ReviewTask
owned tenant none = none
owned none (some row) = some row
owned (some t) (some row) = if row.tenant_id == t then some row else none

abbrev replace : ReviewTask → List ReviewTask → List ReviewTask
replace task [] = []
replace task (row ∷ rows) =
    let rest = replace task rows in if row.id == task.id then task ∷ rest else row ∷ rest

abbrev new_row : ℕ → ℕ → NewReviewTask → ReviewTask
new_row id now input = record {
  id = id;
  tenant_id = input.tenant_id;
  session_id = input.session_id;
  graph_id = input.graph_id;
  node_id = input.node_id;
  tool_name = input.tool_name;
  payload = input.payload;
  status = input.status;
  reject_reason = none;
  created_by = input.created_by;
  reviewed_by = none;
  created_at = now;
  reviewed_at = none;
}

abbrev same_status : ReviewStatus → ReviewStatus → Bool
same_status pending pending = true
same_status approved approved = true
same_status rejected rejected = true
same_status _ _ = false

abbrev matches : Option String → Option ReviewStatus → ReviewTask → Bool
matches none none row = true
matches (some t) none row = row.tenant_id == t
matches none (some s) row = same_status row.status s
matches (some t) (some s) row = row.tenant_id == t && same_status row.status s

-- The keys are 1, 2, 3 and so on; no row is ever removed.
abbrev pub table : Repository (List ReviewTask)
table = record {
  find_one = λ id tenant rows. owned tenant (first id rows);
  find = λ tenant status rows. filter (matches tenant status) rows;
  insert = λ now input rows.
      (rows ++ (new_row (suc (length rows)) now input ∷ []), new_row (suc (length rows)) now input);
  save = replace;
}

first-same_key :
    (id : ℕ) (rows : List ReviewTask) (row : ReviewTask) → first id rows ≡ some row → row.id ≡ id
first-same_key id [] row e = ground (arith, e)
first-same_key id (x ∷ rows) row e = elim (Bool-cases (x.id == id)) [
  | inl q ↦
      let same : x ≡ row = ground (arith, e, q) in
      ap (λ (y : ReviewTask). y.id) (sym same) ∙ (nat_beq_iff x.id id).0 q
  | inr q ↦ first-same_key id rows row (ground (arith, e, q))
]

first-append :
    (id : ℕ) (rows more : List ReviewTask) (row : ReviewTask)
    → first id rows ≡ some row
    → first id (rows ++ more) ≡ some row
first-append id [] more row e = ground (arith, e)
first-append id (x ∷ rows) more row e = elim (Bool-cases (x.id == id)) [
  | inl q ↦ ground (arith, e, q)
  | inr q ↦ let ih = first-append id rows more row (ground (arith, e, q)) in ground (arith, q, ih)
]

first-replace_self :
    (task : ReviewTask) (rows : List ReviewTask) (old : ReviewTask)
    → first task.id rows ≡ some old
    → first task.id (replace task rows) ≡ some task
first-replace_self task [] old e = ground (arith, e)
first-replace_self task (x ∷ rows) old e = elim (Bool-cases (x.id == task.id)) [
  | inl q ↦ rw q (rw (beq_refl task.id) refl)
  | inr q ↦ let ih = first-replace_self task rows old (ground (arith, e, q)) in rw q (rw q ih)
]

first-replace_other :
    (task : ReviewTask) (id : ℕ) (rows : List ReviewTask)
    → (task.id == id) ≡ false
    → first id (replace task rows) ≡ first id rows
first-replace_other task id [] h = refl
first-replace_other task id (x ∷ rows) h =
    let ih = first-replace_other task id rows h in
    elim (Bool-cases (x.id == task.id)) [
      | inl q ↦
          let same : x.id ≡ task.id = (nat_beq_iff x.id task.id).0 q in
          let other : (x.id == id) ≡ false = subst (λ (n : ℕ). (n == id) ≡ false) (sym same) h in
          ground (arith, q, h, other, ih)
      | inr q ↦ ground (arith, q, ih)
    ]

first-replace :
    (id : ℕ) (rows : List ReviewTask) (task old : ReviewTask)
    → first task.id rows ≡ some old
    → first id (replace task rows) ≡ (if task.id == id then some task else first id rows)
first-replace id rows task old e = elim (Bool-cases (task.id == id)) [
  | inl q ↦
      let same : task.id ≡ id = (nat_beq_iff task.id id).0 q in
      rw q (
        subst (λ n. first n (replace task rows) ≡ some task) same
          (first-replace_self task rows old e))
  | inr q ↦ rw q (first-replace_other task id rows q)
]

owned-none : (o : Option ReviewTask) → owned none o ≡ o
owned-none none = refl
owned-none (some row) = refl

owned-some :
    (o : Option ReviewTask) (tenant : String) (row : ReviewTask)
    → owned (some tenant) o ≡ some row
    → (o ≡ some row) × (row.tenant_id ≡ tenant)
owned-some none tenant row e = ground (arith, e)
owned-some (some x) tenant row e = elim (Bool-cases (x.tenant_id == tenant)) [
  | inl q ↦
      let same : x ≡ row = ground (arith, e, q) in
      (
        ap (λ y. some y) same,
        ap (λ (y : ReviewTask). y.tenant_id) (sym same) ∙ (str_eq_iff x.tenant_id tenant).0 q,
      )
  | inr q ↦ ground (arith, e, q)
]

pub table-Lawful : Lawful table
table-Lawful = record {
  same_key = λ id rows row e. first-same_key id rows row (sym (owned-none (first id rows)) ∙ e);
  of_tenant = λ id tenant rows row e.
      let (found, own) = owned-some (first id rows) tenant row e in
      (owned-none (first id rows) ∙ found, own);
  with_tenant =
      λ id rows row e. rw (sym (owned-none (first id rows)) ∙ e) (rw (beq_refl row.tenant_id) refl);
  saved = λ id rows task old e.
      owned-none (first id (replace task rows))
      ∙ first-replace id rows task old (sym (owned-none (first task.id rows)) ∙ e)
      ∙ ap (λ (o : Option ReviewTask). if task.id == id then some task else o)
          (sym (owned-none (first id rows)));
  created = λ id rows row now input e.
      owned-none (first id (rows ++ (new_row (suc (length rows)) now input ∷ [])))
      ∙ first-append id rows _ row (sym (owned-none (first id rows)) ∙ e);
}
