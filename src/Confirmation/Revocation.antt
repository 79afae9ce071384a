-- ===== src/Confirmation/Revocation.antt =====
-- Histories of the operations of src/brain/confirmation.service.ts that can be revoked.
use zxql_ai.Prelude.{
  ℕ, ◌+◌, ◌≤◌, ◌<◌, String, ◌≡◌, refl, ◌≢◌, ◌⊎◌, inl, inr, Bool, true, false, ◌&&◌, Option, none,
  some, List, [], ◌∷◌, arith, ltb, if◌then◌else◌, ltb→lt, not-ltb→le, Bool-cases, Option-cases,
  ◌==◌, beq_refl, nat_eq, string_eq, str_eq_iff, filter,
}
use zxql_ai.Prelude.Map.{
  lookup, insert, delete, lookup-insert, lookup-delete, AllEntries, lookup-AllEntries,
  insert-AllEntries, delete-AllEntries,
}
use zxql_ai.Confirmation.{executed, ExecutedOperation, RegisterExecutedInput, Operations}
use zxql_ai.Confirmation.Window.{
  RevokeCheck, can, missing, other_tenant, was_revoked, too_late, can_revoke, register_executed,
  new_operation, noted, in_window, mark_revoked, mark_revoke_failed, cleanup_operations,
}

pub data RevokeCall : Type 0 where
  registers : (now : ℕ) (fresh : String) (input : RegisterExecutedInput) → RevokeCall
  revokes : (now : ℕ) (id tenant : String) → RevokeCall
  fails : (now : ℕ) (id tenant error : String) → RevokeCall
  cleans : (now : ℕ) → RevokeCall

-- The operations after a call.
unfoldable pub run_call : RevokeCall → Operations → Operations
run_call (registers now fresh input) m = (register_executed now fresh input m).0
run_call (revokes now id tenant) m = (mark_revoked now id tenant m).0
run_call (fails now id tenant error) m = (mark_revoke_failed now id tenant error m).0
run_call (cleans now) m = (cleanup_operations now m).0

unfoldable pub run_calls : List RevokeCall → Operations → Operations
run_calls [] m = m
run_calls (call ∷ calls) m = run_calls calls (run_call call m)

-- Whether the call revokes the operation, or registers one under its identifier.
unfoldable pub revoked_by : String → RevokeCall → Operations → ℕ
revoked_by key (revokes now id tenant) m =
    if id == key && (mark_revoked now id tenant m).1 then 1 else 0
revoked_by key (registers now fresh input) m = 0
revoked_by key (fails now id tenant error) m = 0
revoked_by key (cleans now) m = 0

abbrev pub registered_by : String → RevokeCall → ℕ
registered_by key (registers now fresh input) = if fresh == key then 1 else 0
registered_by key _ = 0

unfoldable pub revocations : String → List RevokeCall → Operations → ℕ
revocations key [] m = 0
revocations key (call ∷ calls) m = revoked_by key call m + revocations key calls (run_call call m)

unfoldable pub registrations : String → List RevokeCall → ℕ
registrations key [] = 0
registrations key (call ∷ calls) = registered_by key call + registrations key calls

abbrev held : Option ExecutedOperation → ℕ
held none = 0
held (some _) = 1

-- What the map of operations keeps.
abbrev IsRecorded : String → ExecutedOperation → Type 0
IsRecorded id op =
    (op.operation_id ≡ id)
    × (op.revoke_expires_at ≡ op.executed_at + 180000)
    × (op.status ≡ executed)

abbrev pub AllRecorded : Operations → Type 0
AllRecorded = AllEntries IsRecorded

check-cases :
    (c : RevokeCheck)
    → (c ≡ can) ⊎ ((c ≡ missing) ⊎ ((c ≡ other_tenant) ⊎ ((c ≡ was_revoked) ⊎ (c ≡ too_late))))
check-cases can = inl refl
check-cases missing = inr (inl refl)
check-cases other_tenant = inr (inr (inl refl))
check-cases was_revoked = inr (inr (inr (inl refl)))
check-cases too_late = inr (inr (inr (inr refl)))

-- A call of `mark_revoked` deletes the operation or leaves the map.
mark_revoked-cases :
    (now : ℕ) (id tenant : String) (m : Operations)
    → ((can_revoke now id tenant m ≡ can) × (mark_revoked now id tenant m ≡ (delete id m, true)))
      ⊎ (mark_revoked now id tenant m ≡ (m, false))
unfolding mark_revoked
mark_revoked-cases now id tenant m = elim (check-cases (can_revoke now id tenant m)) [
  | inl e ↦ inl (e, rw (e, mark_revoked) refl)
  | inr (inl e) ↦ inr (rw (e, mark_revoked) refl)
  | inr (inr (inl e)) ↦ inr (rw (e, mark_revoked) refl)
  | inr (inr (inr (inl e))) ↦ inr (rw (e, mark_revoked) refl)
  | inr (inr (inr (inr e))) ↦ inr (rw (e, mark_revoked) refl)
]

mark_revoke_failed-cases :
    (now : ℕ) (id tenant error : String) (m : Operations)
    → ((op : ExecutedOperation) × (lookup id m ≡ some op)
        × ((mark_revoke_failed now id tenant error m).0 ≡ insert id (noted error op) m))
      ⊎ ((mark_revoke_failed now id tenant error m).0 ≡ m)
unfolding mark_revoke_failed
mark_revoke_failed-cases now id tenant error m = elim (check-cases (can_revoke now id tenant m)) [
  | inl e ↦ elim (Option-cases (lookup id m)) [
    | inl none_there ↦ inr (rw (e, none_there, mark_revoke_failed) refl)
    | inr (op, there) ↦ inl (op, there, rw (e, there, mark_revoke_failed) refl)
  ]
  | inr (inl e) ↦ inr (rw (e, mark_revoke_failed) refl)
  | inr (inr (inl e)) ↦ inr (rw (e, mark_revoke_failed) refl)
  | inr (inr (inr (inl e))) ↦ inr (rw (e, mark_revoke_failed) refl)
  | inr (inr (inr (inr e))) ↦ inr (rw (e, mark_revoke_failed) refl)
]

filter-AllEntries :
    (p : String × ExecutedOperation → Bool) (m : Operations)
    → AllRecorded m
    → AllRecorded (filter p m)
filter-AllEntries p [] a = tt
filter-AllEntries p ((k, op) ∷ m) (here, a) = elim (Bool-cases (p (k, op))) [
  | inl t ↦ rw t (here, filter-AllEntries p m a)
  | inr t ↦ rw t (filter-AllEntries p m a)
]

run_call-AllRecorded :
    (call : RevokeCall) (m : Operations) → AllRecorded m → AllRecorded (run_call call m)
unfolding run_call register_executed new_operation cleanup_operations
run_call-AllRecorded (registers now fresh input) m a =
    insert-AllEntries IsRecorded fresh (new_operation now fresh input) m (refl, refl, refl) a
run_call-AllRecorded (revokes now id tenant) m a = elim (mark_revoked-cases now id tenant m) [
  | inl (_, e) ↦ rw (e, run_call) (delete-AllEntries IsRecorded id m a)
  | inr e ↦ rw (e, run_call) a
]
run_call-AllRecorded (fails now id tenant error) m a =
    elim (mark_revoke_failed-cases now id tenant error m) [
      | inl (op, there, e) ↦
          rw (e, run_call)
            (insert-AllEntries IsRecorded id (noted error op) m
              (lookup-AllEntries IsRecorded id op m a there) a)
      | inr e ↦ rw (e, run_call) a
    ]
run_call-AllRecorded (cleans now) m a = filter-AllEntries (in_window now) m a

run_calls-AllRecorded :
    (calls : List RevokeCall) (m : Operations) → AllRecorded m → AllRecorded (run_calls calls m)
unfolding run_calls
run_calls-AllRecorded [] m a = a
run_calls-AllRecorded (call ∷ calls) m a =
    run_calls-AllRecorded calls (run_call call m) (run_call-AllRecorded call m a)

-- What each answer of `can_revoke` means.
abbrev pub Explained : ℕ → String → String → Operations → RevokeCheck → Type 0
Explained now id tenant m can =
    (op : ExecutedOperation) × (lookup id m ≡ some op)
    × (op.tenant_id ≡ tenant)
    × (now ≤ op.executed_at + 180000)
Explained now id tenant m missing = lookup id m ≡ none
Explained now id tenant m other_tenant =
    (op : ExecutedOperation) × (lookup id m ≡ some op) × (op.tenant_id ≢ tenant)
Explained now id tenant m was_revoked = ⊥
Explained now id tenant m too_late =
    (op : ExecutedOperation) × (lookup id m ≡ some op) × (op.executed_at + 180000 < now)

can_revoke-Explained :
    (now : ℕ) (id tenant : String) (m : Operations)
    → AllRecorded m
    → Explained now id tenant m (can_revoke now id tenant m)
unfolding can_revoke
can_revoke-Explained now id tenant m a = elim (Option-cases (lookup id m)) [
  | inl e ↦ rw (e, Explained) e
  | inr (op, e) ↦
      let (_, window, status) = lookup-AllEntries IsRecorded id op m a e in
      elim (Bool-cases (op.tenant_id == tenant)) [
        | inr t ↦
            rw (e, t, Explained) (op, e, λ same. absurd (ground (arith, t, same, beq_refl tenant)))
        | inl t ↦ elim (Bool-cases (ltb op.revoke_expires_at now)) [
          | inl late ↦
              rw (e, t, status, late, Explained)
                (op, e, rw (← window) (ltb→lt op.revoke_expires_at now late))
          | inr late ↦
              rw (e, t, status, late, Explained)
                (
                  op,
                  e,
                  (str_eq_iff op.tenant_id tenant).0 t,
                  rw (← window) (not-ltb→le op.revoke_expires_at now late),
                )
        ]
      ]
]

-- After any history that starts with no operation, each answer of `can_revoke` says the truth: the
-- operation can be revoked by its tenant within three minutes of its run, and the other answers
-- stand for no such operation, another tenant, or a time after the window. The answer that it has
-- been revoked does not occur.
pub run_calls-Explained :
    (calls : List RevokeCall) (now : ℕ) (id tenant : String)
    → Explained now id tenant (run_calls calls []) (can_revoke now id tenant (run_calls calls []))
run_calls-Explained calls now id tenant =
    can_revoke-Explained now id tenant (run_calls calls []) (run_calls-AllRecorded calls [] tt)

held-le : (o : Option ExecutedOperation) → held o ≤ 1
held-le none = omega arith
held-le (some op) = omega arith

filter-held :
    (p : String × ExecutedOperation → Bool) (key : String) (m : Operations)
    → held (lookup key (filter p m)) ≤ held (lookup key m)
unfolding lookup
filter-held p key [] = omega arith
filter-held p key ((k, op) ∷ m) =
    ground (arith, filter-held p key m, held-le (lookup key (filter p m)))

can-held :
    (now : ℕ) (id tenant : String) (m : Operations)
    → can_revoke now id tenant m ≡ can
    → held (lookup id m) ≡ 1
unfolding can_revoke
can-held now id tenant m e = ground (arith, e)

-- One call: a revocation uses up the operation.
run_call-held :
    (key : String) (call : RevokeCall) (m : Operations)
    → revoked_by key call m + held (lookup key (run_call call m))
      ≤ held (lookup key m) + registered_by key call
unfolding run_call revoked_by register_executed new_operation cleanup_operations
run_call-held key (registers now fresh input) m =
    ground (arith, lookup-insert fresh key (new_operation now fresh input) m)
run_call-held key (cleans now) m = omega (arith, filter-held (in_window now) key m)
run_call-held key (fails now id tenant error) m =
    elim (mark_revoke_failed-cases now id tenant error m) [
      | inl (op, there, e) ↦
          rw (e, run_call)
            (ground (arith, lookup-insert id key (noted error op) m, there, str_eq_iff id key))
      | inr e ↦ rw (e, run_call) (omega arith)
    ]
run_call-held key (revokes now id tenant) m = elim (mark_revoked-cases now id tenant m) [
  | inl (ok, e) ↦
      rw (e, run_call, revoked_by)
        (ground (arith, lookup-delete id key m, can-held now id tenant m ok, str_eq_iff id key))
  | inr e ↦ rw (e, run_call, revoked_by) (ground arith)
]

revocations-held :
    (key : String) (calls : List RevokeCall) (m : Operations)
    → revocations key calls m ≤ held (lookup key m) + registrations key calls
unfolding revocations registrations
revocations-held key [] m = omega arith
revocations-held key (call ∷ calls) m =
    omega (arith, run_call-held key call m, revocations-held key calls (run_call call m))

-- In any history an operation is revoked at most once for the time that it stands in the map at the
-- start and once for each time that it is registered.
pub revocations-le :
    (key : String) (calls : List RevokeCall) (m : Operations)
    → revocations key calls m ≤ 1 + registrations key calls
revocations-le key calls m = omega (arith, revocations-held key calls m, held-le (lookup key m))
