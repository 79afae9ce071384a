-- ===== src/Middleware/Callers.antt =====
-- The buckets of src/common/rate-limiter.middleware.ts keep callers apart.
use Prim.Native.String.{◌++◌ as append, count}
use text.Mathlib.TextLemmas.{
  append_cancel_left, append_cancel_right, append_inj, append_assoc, length-append as count-append,
}
use zxql_ai.Prelude.{
  String, ◌≡◌, refl, sym, ap, ◌∙◌, ◌≢◌, inl, inr, Option, none, some, arith, if◌then◌else◌,
  Bool-cases, ◌==◌, nat_eq, string_eq, str_eq_iff,
}
use zxql_ai.RateLimiter.{RateLimitBucket, read, write}
use zxql_ai.Middleware.{Request, base_key, request_key, or_unknown}

-- Whom a request counts against.
pub data Caller : Type 0 where
  tenant_caller : String → Caller
  address_caller : String → Caller

unfoldable pub caller_of : Option String → Request → Caller
caller_of none req = address_caller (or_unknown req.ip)
caller_of (some tenant) req =
    if tenant == "" then address_caller (or_unknown req.ip) else tenant_caller tenant

caller_key : Caller → String
caller_key (tenant_caller t) = append "tenant:" t
caller_key (address_caller a) = append "ip:" a

base_key-caller :
    (tenant : Option String) (req : Request)
    → base_key tenant req ≡ caller_key (caller_of tenant req)
unfolding base_key caller_of caller_key
base_key-caller none req = refl
base_key-caller (some t) req = elim (Bool-cases (t == "")) [ inl e ↦ rw e refl | inr e ↦ rw e refl ]

prefixes : (s t : String) → append "tenant:" s ≢ append "ip:" t
prefixes s t e =
    let split : append "te" (append "nant:" s) ≡ append "ip" (append ":" t) =
      sym (append_assoc "te" "nant:" s) ∙ e ∙ append_assoc "ip" ":" t in
    absurd (te_ip ((append_inj split refl).0))
  where
    te_ip : ◌≡◌ {A = String} "te" "ip" → ⊥
    te_ip h = ground (arith, str_eq_iff "te" "ip")

caller_key-injective : (c d : Caller) → caller_key c ≡ caller_key d → c ≡ d
unfolding caller_key
caller_key-injective (tenant_caller s) (tenant_caller t) e =
    ap tenant_caller (append_cancel_left "tenant:" _ _ e)
caller_key-injective (address_caller s) (address_caller t) e =
    ap address_caller (append_cancel_left "ip:" _ _ e)
caller_key-injective (tenant_caller s) (address_caller t) e = absurd (prefixes s t e)
caller_key-injective (address_caller s) (tenant_caller t) e = absurd (prefixes t s (sym e))

endings : (s t : String) → append s ":read" ≢ append t ":write"
endings s t e =
    let split : append (append s ":re") "ad" ≡ append (append t ":wri") "te" =
      append_assoc s ":re" "ad" ∙ e ∙ sym (append_assoc t ":wri" "te") in
    let same : count (append s ":re") ≡ count (append t ":wri") = omega (
      arith,
      ap count split,
      count-append (append s ":re") "ad",
      count-append (append t ":wri") "te",
    ) in
    absurd (ad_te ((append_inj split same).1))
  where
    ad_te : ◌≡◌ {A = String} "ad" "te" → ⊥
    ad_te h = ground (arith, str_eq_iff "ad" "te")

same_caller :
    (s t : Option String) (p q : Request)
    → base_key s p ≡ base_key t q
    → caller_of s p ≡ caller_of t q
same_caller s t p q e =
    caller_key-injective (caller_of s p) (caller_of t q)
      (sym (base_key-caller s p) ∙ e ∙ base_key-caller t q)

-- Two requests with a method share a bucket only where they count against the same tenant or the
-- same address and are both reads or both writes.
pub request_key-injective :
    (s t : Option String) (b c : RateLimitBucket) (p q : Request)
    → request_key s (some b) p ≡ request_key t (some c) q
    → (caller_of s p ≡ caller_of t q) × (b ≡ c)
unfolding request_key
request_key-injective s t read read p q e =
    (same_caller s t p q (append_cancel_right _ _ ":read" e), refl)
request_key-injective s t read write p q e = absurd (endings (base_key s p) (base_key t q) e)
request_key-injective s t write read p q e = absurd (endings (base_key t q) (base_key s p) (sym e))
request_key-injective s t write write p q e =
    (same_caller s t p q (append_cancel_right _ _ ":write" e), refl)
