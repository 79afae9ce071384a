-- ===== src/RateLimiter/Keys.antt =====
-- The Redis keys of src/common/rate-limiter.ts are distinct for distinct keys and parts.
use Prim.Native.String.{◌++◌ as append, count}
use text.Mathlib.TextLemmas.{
  append_cancel_left, append_cancel_right, append_assoc, append_inj, length-append as count-append,
}
use zxql_ai.Prelude.{String, ◌≡◌, refl, sym, ap, ◌∙◌, ◌≢◌, arith, nat_eq, string_eq, str_eq_iff}
use zxql_ai.RateLimiter.{KeyPart, tokens_part, ts_part, part_name, build_key}

suffix : KeyPart → String
suffix part = append ":" (part_name part)

-- The last two characters.
endings : (a b : String) → append a "ns" ≢ append b "ts"
endings a b e =
    let same : count a ≡ count b =
      omega (arith, ap count e, count-append a "ns", count-append b "ts") in
    absurd (ns_ts ((append_inj e same).1))
  where
    ns_ts : ◌≡◌ {A = String} "ns" "ts" → ⊥
    ns_ts h = ground (arith, str_eq_iff "ns" "ts")

parts_apart : (k j : String) → append k (suffix tokens_part) ≢ append j (suffix ts_part)
unfolding suffix
parts_apart k j e =
    endings (append k ":toke") (append j ":")
      (append_assoc k ":toke" "ns" ∙ e ∙ sym (append_assoc j ":" "ts"))

pub build_key-injective :
    (k j : String) (p q : KeyPart) → build_key k p ≡ build_key j q → (k ≡ j) × (p ≡ q)
unfolding build_key suffix
build_key-injective k j tokens_part tokens_part e =
    (append_cancel_right k j _ (append_cancel_left "ai:rl:" _ _ e), refl)
build_key-injective k j tokens_part ts_part e =
    absurd (parts_apart k j (append_cancel_left "ai:rl:" _ _ e))
build_key-injective k j ts_part tokens_part e =
    absurd (parts_apart j k (sym (append_cancel_left "ai:rl:" _ _ e)))
build_key-injective k j ts_part ts_part e =
    (append_cancel_right k j _ (append_cancel_left "ai:rl:" _ _ e), refl)
