-- ===== src/Middleware/Tests.antt =====
-- The middleware at concrete requests.
use zxql_ai.Prelude.{String, ◌≡◌, refl, some, nat_eq, string_eq}
use zxql_ai.RateLimiter.{read}
use zxql_ai.Middleware.{Request, base_key, request_key, bucket_of}
use zxql_ai.Middleware.Callers.{caller_of, request_key-injective}

abbrev from : String → Request
from ip = record { method = some "GET"; ip = some ip }

abbrev no_change : String → String
no_change s = s

bucket_of_a_read : bucket_of no_change (from "10.0.0.1") ≡ some read
unfolding bucket_of
bucket_of_a_read = refl

-- One tenant from two addresses.
request_key-injective_example :
    (caller_of (some "t1") (from "10.0.0.1") ≡ caller_of (some "t1") (from "10.0.0.2"))
    × (read ≡ read)
unfolding request_key base_key
request_key-injective_example =
    request_key-injective (some "t1") (some "t1") read read (from "10.0.0.1") (from "10.0.0.2") refl
