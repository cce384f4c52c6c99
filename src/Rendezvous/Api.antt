-- ===== src/Rendezvous/Api.antt =====
-- The HTTP handlers and their shared state, crates/rendezvous/src/lib.rs. A handler is an action
-- on the state that answers with a response or an error; `none` is a request that gets no answer.
-- The request's environment gives the peer's address, both clocks and the generator's draws.
pub mod Handlers
pub mod Exchange
pub mod Claims
pub mod Metrics
use worddrop.Base.{
  ℕ, ◌+◌, ◌*◌, ◌^◌, ◌%◌, ◌/◌, ◌≡◌, Bool, ◌||◌, true, false, List, [], ◌∷◌, ◌++◌, Option, none, some,
  Text, codes, trim, is_empty, byte_len, Result, ok, err, map_err, ltb, if◌then◌else◌,
}
use worddrop.Base.Decimal.{to_string}
use worddrop.Rendezvous.Nameplate
use worddrop.Rendezvous.Nameplate.{Nameplate, NameplateError}
use worddrop.Rendezvous.Mailbox
use worddrop.Rendezvous.Mailbox.{
  Mailbox, Instant, Duration, PairState, ClaimError, max_ticket_length,
}
use worddrop.Rendezvous.RateLimiter
use worddrop.Rendezvous.RateLimiter.{RateLimiter, IpAddr, second}

abbrev pub create_limit_per_minute : ℕ
create_limit_per_minute = 10

abbrev pub access_limit_per_minute : ℕ
access_limit_per_minute = 60

abbrev pub default_ttl : Duration
default_ttl = 600 * second

abbrev pub u64_limit : ℕ
u64_limit = 2 ^ 64

-- `Mutex<T>`: a thread that panicked with the lock held has poisoned it.
pub record Mutex {ℓ} (A : Type ℓ) : Type ℓ where
  pub value : A
  pub poisoned : Bool

pub record AppState : Type 0 where
  pub pairs : Mutex Mailbox
  pub create_limiter : Mutex RateLimiter
  pub access_limiter : Mutex RateLimiter
  pub ttl : Duration
  pub allocate_total : ℕ
  pub claim_total : ℕ
  pub rate_limited_total : ℕ
  pub requests_total : ℕ

abbrev pub mutex {ℓ} : {A : Type ℓ} → A → Mutex A
mutex a = record { value = a; poisoned = false }

-- `AppState::with_ttl`
abbrev pub with_ttl : Duration → AppState
with_ttl ttl = record {
  pairs = mutex Mailbox.default;
  create_limiter = mutex RateLimiter.default;
  access_limiter = mutex RateLimiter.default;
  ttl = ttl;
  allocate_total = 0;
  claim_total = 0;
  rate_limited_total = 0;
  requests_total = 0;
}

-- `AppState::new`
abbrev pub new : AppState
new = with_ttl default_ttl

pub record ApiError : Type 0 where
  pub status : ℕ
  pub message : Text

pub record AllocateResponse : Type 0 where
  pub nameplate : ℕ
  pub expires_at : ℕ

-- What a request brings along.
pub record Request : Type 0 where
  pub ip : IpAddr
  pub now : Instant
  pub epoch : ℕ
  pub candidate : ℕ → Nameplate
  pub rounds : ℕ

abbrev pub Handler {ℓ} : Type ℓ → Type ℓ
Handler A = AppState → Option (Result ApiError A × AppState)

abbrev pub continue {ℓ} :
    {A B : Type ℓ}
    → (A → AppState → Option (Result ApiError B × AppState))
    → Option (Result ApiError A × AppState)
    → Option (Result ApiError B × AppState)
continue f none = none
continue f (some (ok a, s)) = f a s
continue f (some (err e, s)) = some (err e, s)

infixl 5 ◌>>=◌ ◌>>◌
abbrev pub ◌>>=◌ {ℓ} : {A B : Type ℓ} → Handler A → (A → Handler B) → Handler B
◌>>=◌ m f s = continue f (m s)

abbrev pub ◌>>◌ {ℓ} : {A B : Type ℓ} → Handler A → Handler B → Handler B
m >> k = m >>= λ _. k

abbrev pub pure {ℓ} : {A : Type ℓ} → A → Handler A
pure a s = some (ok a, s)

abbrev pub lift {ℓ} : {A : Type ℓ} → Result ApiError A → Handler A
lift r s = some (r, s)

abbrev pub modify : (AppState → AppState) → Handler (Unit {0})
modify f s = some (ok tt, f s)

abbrev pub api_error : ℕ → Text → ApiError
api_error status message = record { status = status; message = message }

abbrev pub lock_error : ApiError
lock_error = api_error 500 (codes "server state is unavailable")

-- `fetch_add(1)` on an `AtomicU64`, which wraps.
abbrev pub bump : ℕ → ℕ
bump n = (n + 1) % u64_limit

abbrev pub count_request : AppState → AppState
count_request s = record s { requests_total = bump s.requests_total }

abbrev pub count_allocate : AppState → AppState
count_allocate s = record s { allocate_total = bump s.allocate_total }

abbrev pub count_claim : AppState → AppState
count_claim s = record s { claim_total = bump s.claim_total }

-- `.lock().map_err(lock_error)?` before the rest of a locked section.
unfoldable pub locked {ℓ} : {A : Type ℓ} → Bool → Handler A → Handler A
locked true section s = some (err lock_error, s)
locked false section s = section s

unfoldable pub after_check :
    (RateLimiter → AppState → AppState) → Bool → RateLimiter → Handler (Unit {0})
after_check put true l s = some (ok tt, put l s)
after_check put false l s =
    let s' = put l s in
    some (
      err (api_error 429 (codes "rate limit exceeded")),
      record s' { rate_limited_total = bump s'.rate_limited_total },
    )

-- `rate_limit`, for the limiter that `limiter` and `put` name.
unfoldable pub rate_limit :
    (AppState → Mutex RateLimiter)
    → (RateLimiter → AppState → AppState)
    → ℕ
    → Request
    → Handler (Unit {0})
rate_limit limiter put limit r s =
    let (passed, l) = RateLimiter.check (limiter s).value r.ip limit r.now in
    locked (limiter s).poisoned (after_check put passed l) s

abbrev pub put_create : RateLimiter → AppState → AppState
put_create l s = record s { create_limiter = record s.create_limiter { value = l } }

abbrev pub put_access : RateLimiter → AppState → AppState
put_access l s = record s { access_limiter = record s.access_limiter { value = l } }

abbrev pub put_pairs : Mailbox → AppState → AppState
put_pairs m s = record s { pairs = record s.pairs { value = m } }

-- `validate_ticket`
unfoldable pub validate_ticket : Text → Result ApiError (Unit {0})
validate_ticket ticket =
    if is_empty (trim ticket)
    then err (api_error 400 (codes "ticket must not be empty"))
    else if ltb max_ticket_length (byte_len ticket)
    then err (api_error 400 (codes "ticket is too large"))
    else ok tt

-- `invalid_nameplate`
abbrev pub invalid_nameplate : NameplateError → ApiError
invalid_nameplate e = api_error 400 (Nameplate.message e)

-- `now_epoch().checked_add(ttl)`, in whole seconds.
unfoldable pub expiry : Request → AppState → Result ApiError ℕ
expiry r s =
    if ltb (r.epoch + s.ttl / second) u64_limit
    then ok (r.epoch + s.ttl / second)
    else err (api_error 500 (codes "expiry overflow"))

unfoldable pub allocated : Option (Nameplate × Mailbox) → Handler Nameplate
allocated none s = none
allocated (some (n, m)) s = some (ok n, put_pairs m s)

-- The locked section of `allocate`.
unfoldable pub allocate_pair : Request → Text → Handler Nameplate
allocate_pair r ticket s =
    locked s.pairs.poisoned
      (allocated (Mailbox.allocate r.rounds r.candidate s.pairs.value ticket s.ttl r.now)) s

abbrev pub limit_create : Request → Handler (Unit {0})
limit_create = rate_limit (λ s. s.create_limiter) put_create create_limit_per_minute

abbrev pub limit_access : Request → Handler (Unit {0})
limit_access = rate_limit (λ s. s.access_limiter) put_access access_limit_per_minute

-- `allocate`: POST /v1/pairs
unfoldable pub allocate : Request → Text → Handler AllocateResponse
allocate r ticket = do
  modify count_request
  modify count_allocate
  limit_create r
  lift (validate_ticket ticket)
  expires_at ← λ s. some (expiry r s, s)
  nameplate ← allocate_pair r ticket
  pure (record { nameplate = nameplate; expires_at = expires_at })

abbrev pub claim_error : ClaimError → ApiError
claim_error ClaimError.not_found = api_error 404 (codes "pair not found")
claim_error ClaimError.expired = api_error 410 (codes "pair has expired")

unfoldable pub claimed : Result ClaimError Text → Handler Text
claimed (ok ticket) s = some (ok ticket, count_claim s)
claimed (err e) s = some (err (claim_error e), s)

-- The locked section of `claim`, and the count of the successes.
unfoldable pub claim_pair : Request → Nameplate → Handler Text
claim_pair r n s =
    let (answer, m) = Mailbox.claim s.pairs.value n r.now in
    locked s.pairs.poisoned (λ t. claimed answer (put_pairs m t)) s

-- `claim`: POST /v1/pairs/{nameplate}/claim
unfoldable pub claim : Request → Text → Handler Text
claim r path = do
  modify count_request
  limit_access r
  nameplate ← lift (map_err invalid_nameplate (Nameplate.parse path))
  claim_pair r nameplate

-- `PairState::as_str`, and the same match in `status`.
abbrev pub as_str : PairState → Text
as_str PairState.pending = codes "pending"
as_str PairState.claimed = codes "claimed"
as_str PairState.expired = codes "expired"

abbrev pub state_or_missing : Option PairState → Result ApiError Text
state_or_missing none = err (api_error 404 (codes "pair not found"))
state_or_missing (some p) = ok (as_str p)

-- The locked section of `status`.
unfoldable pub status_pair : Request → Nameplate → Handler Text
status_pair r n s =
    locked s.pairs.poisoned (lift (state_or_missing (Mailbox.status s.pairs.value n r.now))) s

-- `status`: GET /v1/pairs/{nameplate}/status
unfoldable pub status : Request → Text → Handler Text
status r path = do
  modify count_request
  limit_access r
  nameplate ← lift (map_err invalid_nameplate (Nameplate.parse path))
  status_pair r nameplate

-- `health`; `contended` says that another thread holds the lock of the pairs.
unfoldable pub health : Bool → Handler Text
health contended s =
    let s' = count_request s in
    if s'.pairs.poisoned || contended
    then some (err (api_error 503 (codes "degraded")), s')
    else some (ok (codes "ok"), s')

-- One round of `cleanup_task`, crates/rendezvous/src/server.rs.
unfoldable pub cleanup : Instant → AppState → AppState
cleanup now s =
    if s.pairs.poisoned then s else put_pairs (Mailbox.purge_expired s.pairs.value now).1 s
