-- ===== src/Oauth.antt =====
-- core-api's services/oauth_state_store.py: the two stores of the Google login, whose values are read
-- once.
pub mod Single
use Prim.Native.String.{String, ◌++◌ as str_append}
use luve.Prelude.{ℕ, Option, none, some}
use luve.Python.Json.{
  Value, string, obj, Fields, field, end, loaded, decode_error, value_error, Runtime,
}

-- The calls of the Redis client: `set(key, value, ex=seconds)` and `getdel(key)`.
pub record Redis (R : Type 0) : Type 0 where
  pub set : String → String → ℕ → R → R
  pub getdel : String → R → Option String × R

abbrev pub tx_prefix : String
tx_prefix = "oauth:google:tx:"

abbrev pub code_prefix : String
code_prefix = "oauth:google:code:"

abbrev pub tx_ttl_seconds : ℕ
tx_ttl_seconds = 600

abbrev pub code_ttl_seconds : ℕ
code_ttl_seconds = 60

-- A mapping is returned; another value, or a text that is no JSON, is as no value.
unfoldable pub decoded : {N : Type 0} → Runtime N → Option String → Option (Fields N)
decoded rt none = none
decoded rt (some raw) = elim (rt.loads raw) [
  | loaded v ↦ elim v [ obj m ↦ some m | _ ↦ none ]
  | decode_error ↦ none
  | value_error ↦ none
]

-- `dumps` is `json.dumps`.
module _ {N R : Type 0} (rt : Runtime N) (dumps : Value N → String) (redis : Redis R) where
  unfoldable pub store_tx : String → String → R → R
  store_tx state nonce =
      redis.set (str_append tx_prefix state) (dumps (obj (field "nonce" (string nonce) end)))
        tx_ttl_seconds

  unfoldable pub pop_tx : String → R → Option (Fields N) × R
  pop_tx state r =
      let (raw, r') = redis.getdel (str_append tx_prefix state) r in (decoded rt raw, r')

module _ {R : Type 0} (redis : Redis R) where
  unfoldable pub store_code : String → String → R → R
  store_code code token = redis.set (str_append code_prefix code) token code_ttl_seconds

  unfoldable pub pop_code : String → R → Option String × R
  pop_code code r = redis.getdel (str_append code_prefix code) r
