-- ===== src/WriteGuard/Authority.antt =====
-- Who may confirm a pending write of src/brain/write-guard.service.ts, whatever the stores answer.
use zxql_ai.Prelude.{
  ℕ, ◌≤◌, String, ◌≡◌, refl, inl, inr, Bool, true, Option, none, some, arith, ltb, if◌then◌else◌,
  not-ltb→le, Bool-cases, Option-cases, nat_eq, string_eq,
}
use zxql_ai.Redis.{RedisClient}
use zxql_ai.WriteGuard.{
  WriteGuardStatus, load, pending, first_confirmed, confirmed, cancelled, expired, PendingWrite,
  Cell, WriteGuard,
}
use zxql_ai.WriteGuard.Service.{
  WriteGuardConfirmResult, refused, accepted, high_risk, customer_matches, acquire_token_lock, get,
  answer, advance, do_confirm, confirm,
}

-- What an accepted confirmation shows: the record has not expired, the customer is the record's, and
-- the record is either released or, for a high risk, waits for the second confirmation.
abbrev pub IsAuthorised : ℕ → Option String → WriteGuardConfirmResult → Type 0
IsAuthorised now customer (refused _) = Unit
IsAuthorised now customer (accepted w needs_second) =
    (now ≤ w.expires_at)
    × (customer_matches w.customer_id customer ≡ true)
    × (if needs_second
        then (w.status ≡ first_confirmed) × (high_risk w ≡ true) × (w.confirm_count ≡ 1)
        else (w.status ≡ confirmed) × (1 ≤ w.confirm_count))

abbrev pub IsLive : ℕ → Option (Bool × PendingWrite) → Type 0
IsLive now none = Unit
IsLive now (some (_, w)) = now ≤ w.expires_at

module _ {S : Type 0} (client : RedisClient S Cell) where
  get-IsLive :
      (now : ℕ) (token tenant : String) (s : WriteGuard S)
      → IsLive now (get client now token tenant s).1
  unfolding get
  get-IsLive now token tenant s = elim (Option-cases (load client now token tenant s).1) [
    | inl e ↦ rw (e, IsLive) tt
    | inr ((shared, w), e) ↦ elim (Bool-cases (ltb w.expires_at now)) [
      | inl t ↦ rw (e, t, IsLive) tt
      | inr t ↦ rw (e, t, IsLive) (not-ltb→le w.expires_at now t)
    ]
  ]

  -- By the status of the record.
  advance-IsAuthorised :
      (now : ℕ) (customer : Option String) (shared : Bool) (w : PendingWrite) (s : WriteGuard S)
      → now ≤ w.expires_at
      → customer_matches w.customer_id customer ≡ true
      → (t : WriteGuardStatus) → w.status ≡ t
      → IsAuthorised now customer (advance client now shared w s).1
  advance-IsAuthorised now customer shared w s le m pending e = elim (Bool-cases (high_risk w)) [
    | inl h ↦ rw (e, h) (le, m, (refl, h, refl))
    | inr h ↦ rw (e, h) (le, m, (refl, omega arith))
  ]
  advance-IsAuthorised now customer shared w s le m first_confirmed e =
      rw e (le, m, (refl, omega arith))
  advance-IsAuthorised now customer shared w s le m confirmed e = rw e tt
  advance-IsAuthorised now customer shared w s le m cancelled e = rw e tt
  advance-IsAuthorised now customer shared w s le m expired e = rw e (le, m, (refl, omega arith))

  do_confirm-IsAuthorised :
      (now : ℕ) (token tenant : String) (customer : Option String) (s : WriteGuard S)
      → IsAuthorised now customer (do_confirm client now token tenant customer s).1
  unfolding do_confirm answer
  do_confirm-IsAuthorised now token tenant customer s =
      let live = get-IsLive now token tenant s in
      elim (Option-cases (get client now token tenant s).1) [
        | inl e ↦ rw (e, IsAuthorised) tt
        | inr ((shared, w), e) ↦ elim (Bool-cases (customer_matches w.customer_id customer)) [
          | inl m ↦
              rw (e, m, IsAuthorised)
                (advance-IsAuthorised now customer shared w (get client now token tenant s).0
                  (rw e at live) m w.status refl)
          | inr m ↦ rw (e, m, IsAuthorised) tt
        ]
      ]

  -- Whatever the stores hold and answer, a confirmation that succeeds is one of a record that has
  -- not expired and whose customer, if it has one, is the caller; it releases the record, or, only
  -- for a record of high risk, asks for the second confirmation with the count at one.
  pub confirm-IsAuthorised :
      (now : ℕ) (fresh token tenant : String) (customer : Option String) (s : WriteGuard S)
      → IsAuthorised now customer (confirm client now fresh token tenant customer s).1
  unfolding confirm
  confirm-IsAuthorised now fresh token tenant customer s =
      elim (Option-cases (acquire_token_lock client now fresh token s).1) [
        | inl e ↦ rw (e, IsAuthorised) tt
        | inr (mark, e) ↦
            rw (e, IsAuthorised)
              (do_confirm-IsAuthorised now token tenant customer
                (acquire_token_lock client now fresh token s).0)
      ]
