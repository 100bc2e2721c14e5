-- ===== src/Oauth/Single.antt =====
-- What is stored is read once.
use Prim.Native.String.{String, ◌++◌ as str_append}
use text.Mathlib.TextLemmas.{append_cancel_left, append_assoc, cons-append}
use Prim.Native.Char.{code}
use luve.Prelude.{arith, ℕ, ◌≡◌, ◌≢◌, refl, ap, sym, ◌∙◌, none, some}
use luve.Python.Json.{Value, string, obj, Fields, field, end, loaded, Runtime}
use luve.Oauth.{
  code_ttl_seconds, tx_ttl_seconds, Redis, tx_prefix, code_prefix, store_tx, pop_tx, store_code,
  pop_code, decoded,
}

-- What Redis documents of the two calls, while no key expires: a key that is set is read and deleted by
-- `getdel`, which then finds nothing; and both calls leave what the other keys have.
pub record IsRedis {R : Type 0} (redis : Redis R) : Type 0 where
  pub reads :
      (key value : String) (ex : ℕ) (r : R)
      → (redis.getdel key (redis.set key value ex r)).0 ≡ some value
  pub deletes : (key : String) (r : R) → (redis.getdel key (redis.getdel key r).1).0 ≡ none
  pub others :
      (key other value : String) (ex : ℕ) (r : R)
      → key ≢ other
      → (redis.getdel key (redis.set other value ex r)).0 ≡ (redis.getdel key r).0
  pub leaves :
      (key other : String) (r : R)
      → key ≢ other
      → (redis.getdel key (redis.getdel other r).1).0 ≡ (redis.getdel key r).0

-- The code of a text's first character.
first : String → ℕ
first String.[] = 0
first (String.◌∷◌ c s) = code c

-- The two stores share no key.
tx≢code : (state handoff : String) → str_append tx_prefix state ≢ str_append code_prefix handoff
unfolding first
tx≢code state handoff e =
    let rest : str_append "tx:" state ≡ str_append "code:" handoff =
      append_cancel_left "oauth:google:" (str_append "tx:" state) (str_append "code:" handoff) (
        sym (append_assoc "oauth:google:" "tx:" state)
        ∙ e
        ∙ append_assoc "oauth:google:" "code:" handoff) in
    let firsts : first (str_append "tx:" state) ≡ first (str_append "code:" handoff) =
      ap first rest in
    let tx_first : first (str_append "tx:" state) ≡ 116 = ap first (cons-append "t" "x:" state) in
    let code_first : first (str_append "code:" handoff) ≡ 99 =
      ap first (cons-append "c" "ode:" handoff) in
    omega (arith, firsts, tx_first, code_first)

abbrev pub login : {N : Type 0} → String → Fields N
login nonce = field "nonce" (string nonce) end

module _ {N R : Type 0} (rt : Runtime N) (dumps : Value N → String) (redis : Redis R) where
  -- A login that is stored is read back though a handoff code is stored after it; a second read finds
  -- nothing, and the code is still there. Redis is as it documents, no key expires, and the text that
  -- `json.dumps` makes of the login is read back as the login.
  pub pop_tx-store_tx :
      (laws : IsRedis redis) (state nonce handoff token : String) (r : R)
      → rt.loads (dumps (obj (login nonce))) ≡ loaded (obj (login nonce))
      → let (popped, r') =
          pop_tx rt dumps redis state
            (store_code redis handoff token (store_tx rt dumps redis state nonce r)) in
        (popped ≡ some (login nonce))
        × ((pop_tx rt dumps redis state r').0 ≡ none)
        × ((pop_code redis handoff r').0 ≡ some token)
  unfolding pop_tx pop_code store_code store_tx decoded
  pop_tx-store_tx laws state nonce handoff token r reads_back =
      let key = str_append tx_prefix state in
      let other = str_append code_prefix handoff in
      let apart : key ≢ other = tx≢code state handoff in
      let stored = redis.set key (dumps (obj (login nonce))) tx_ttl_seconds r in
      let both = redis.set other token code_ttl_seconds stored in
      let got : (redis.getdel key both).0 ≡ some (dumps (obj (login nonce))) =
        laws.others key other token code_ttl_seconds stored apart
        ∙ laws.reads key (dumps (obj (login nonce))) tx_ttl_seconds r in
      (
        ap (decoded rt) got ∙ rw (reads_back, decoded) refl,
        ap (decoded rt) (laws.deletes key both),
        laws.leaves other key both (λ e. apart (sym e))
            ∙ laws.reads other token code_ttl_seconds stored,
      )
