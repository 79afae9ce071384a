-- ===== src/Idempotency/Keys.antt =====
-- The keys of src/tools/idempotency-gate.service.ts: which of the request's parts names it, and the
-- canonical form of its arguments. `trim`, `stringify`, `number_text` and `sha256` stand for the
-- functions of the language and of its hash library.
use zxql_ai.Prelude.{
  ℕ, String, Bool, true, false, ◌&&◌, ◌||◌, Option, none, some, List, [], ◌∷◌, leb, if◌then◌else◌,
  ◌==◌, nat_eq, string_eq, any,
}
use zxql_ai.Prelude.Map.{lookup, insert}
use Prim.Native.String.{◌++◌ as append, count, compare}
use package.text.Mathlib.Text.{starts_with, find?, is_le}
use zxql_ai.Json.{
  Json, null, undefined, boolean, number, text, array, object, Items, end, item, Fields, no_fields,
  field, Number, finite, negative_zero, nan, infinity, negative_infinity, Args,
}
use zxql_ai.Executor.{IdempotencyCheckInput}
use zxql_ai.Idempotency.{
  IdempotencyKeySource, confirm_token, explicit, business_key, payload_hash, redis_ttl_sec,
  payload_ttl_sec,
}

abbrev letters_digits : String
letters_digits = "ABCDEFGHIJKLMNOPQRSTUVWXYZabcdefghijklmnopqrstuvwxyz0123456789"

abbrev is_one_of : String → String → Bool
is_one_of set c = is_found (find? set c)
  where
    is_found : Option ℕ → Bool
    is_found none = false
    is_found (some _) = true

all_of : String → String → Bool
all_of set String.[] = true
all_of set (String.◌∷◌ c s) = is_one_of set (String.◌∷◌ c String.[]) && all_of set s

-- `/^[A-Za-z0-9][A-Za-z0-9._:-]{7,127}$/`
unfoldable pub is_valid_explicit_key : String → Bool
unfolding all_of
is_valid_explicit_key String.[] = false
is_valid_explicit_key (String.◌∷◌ c s) =
    is_one_of letters_digits (String.◌∷◌ c String.[])
    && (all_of (append letters_digits "._:-") s && (leb 7 (count s) && leb (count s) 127))

abbrev volatile_arg_fields : List String
volatile_arg_fields =
    "confirm" ∷ "force" ∷ "idempotencyKey" ∷ "requestId" ∷ "sessionId" ∷ "timestamp" ∷ "remark" ∷ []

abbrev is_undefined : Json → Bool
is_undefined undefined = true
is_undefined _ = false

-- The place of a field among sorted ones.
unfoldable pub insert_field : String → Json → Fields → Fields
insert_field k v no_fields = field k v no_fields
insert_field k v (field j w rest) =
    if is_le (compare k j) then field k v (field j w rest) else field j w (insert_field k v rest)

module _ (trim : String → String) where
  unfoldable pub canonical_number : Number → Json
  canonical_number (finite s) = number (finite s)
  canonical_number negative_zero = number (finite "0")
  canonical_number nan = text "NaN"
  canonical_number infinity = text "Infinity"
  canonical_number negative_infinity = text "-Infinity"

  unfoldable mutual
    pub canonicalize : Bool → Json → Json
    canonicalize strip null = null
    canonicalize strip undefined = undefined
    canonicalize strip (boolean b) = boolean b
    canonicalize strip (number n) = canonical_number n
    canonicalize strip (text s) = text (trim s)
    canonicalize strip (array items) = array (canonical_items strip items)
    canonicalize strip (object fields) = object (canonical_fields strip fields)

    pub canonical_items : Bool → Items → Items
    canonical_items strip end = end
    canonical_items strip (item v rest) = item (canonicalize strip v) (canonical_items strip rest)

    -- The fields in the order of their keys, less the volatile and the undefined ones.
    pub canonical_fields : Bool → Fields → Fields
    canonical_fields strip no_fields = no_fields
    canonical_fields strip (field k v rest) =
        let later = canonical_fields strip rest in
        if strip && any (λ n. n == k) volatile_arg_fields || is_undefined v
        then later
        else insert_field k (canonicalize strip v) later

abbrev pick_value : String → Option Json → List (String × Json) → List (String × Json)
pick_value f none picked = picked
pick_value f (some undefined) picked = picked
pick_value f (some v) picked = insert f v picked

-- The declared fields that the arguments have.
unfoldable pub pick_business_fields : Args → List String → List (String × Json)
pick_business_fields args [] = []
pick_business_fields args (f ∷ fs) = pick_value f (lookup f args) (pick_business_fields args fs)

abbrev fields_of : List (String × Json) → Fields
fields_of [] = no_fields
fields_of ((k, v) ∷ rest) = field k v (fields_of rest)

pub record KeyChoice : Type 0 where
  pub material : String
  pub key_source : IdempotencyKeySource
  pub ttl_sec : ℕ

abbrev fields_or_none : Option (List String) → List String
fields_or_none none = []
fields_or_none (some fs) = fs

-- A text that is there and not empty.
abbrev pub given : Option String → Option String
given none = none
given (some s) = if s == "" then none else some s

abbrev is_confirm_call : Option String → Bool
is_confirm_call none = false
is_confirm_call (some id) = starts_with id "confirm-"

abbrev text_or_empty : Option String → String
text_or_empty none = ""
text_or_empty (some s) = s

abbrev trimmed : (String → String) → Option String → Option String
trimmed trim none = none
trimmed trim (some s) = some (trim s)

module _ (trim : String → String) (stringify : Json → String) (sha256 : String → String) where
  abbrev payload_material : Args → String
  payload_material args =
      append "payload:" (stringify (canonicalize trim true (object (fields_of args))))

  abbrev business_choice : Args → List (String × Json) → KeyChoice
  business_choice args [] = record {
    material = payload_material args;
    key_source = payload_hash;
    ttl_sec = payload_ttl_sec;
  }
  business_choice args (p ∷ ps) = record {
    material =
        append "business:" (stringify (canonicalize trim false (object (fields_of (p ∷ ps)))));
    key_source = business_key;
    ttl_sec = payload_ttl_sec;
  }

  unfoldable pub choose_key : IdempotencyCheckInput → KeyChoice
  unfolding pick_business_fields
  choose_key input = elim (given (trimmed trim input.explicit_key)) [
    | some key ↦ record {
      material = append "explicit:" key;
      key_source = explicit;
      ttl_sec = redis_ttl_sec;
    }
    | none ↦
        if is_confirm_call input.tool_call_id
        then record {
          material = append "token:" (text_or_empty input.tool_call_id);
          key_source = confirm_token;
          ttl_sec = redis_ttl_sec;
        }
        else business_choice input.args
            (pick_business_fields input.args (fields_or_none input.key_fields))
  ]

  unfoldable pub build_key : IdempotencyCheckInput → String
  unfolding choose_key
  build_key input = sha256 (
      append input.context.tenant_id
        (append "|" (append input.tool_name (append "|" (choose_key input).material))))
