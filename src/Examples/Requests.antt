-- ===== src/Examples/Requests.antt =====
-- Requests to the rendezvous server, from its first state.
use worddrop.Base.{ℕ, ◌*◌, ◌≡◌, ◌≢◌, refl, some, ok, Text, codes, arith}
use worddrop.Base.Table.{lookup, insert, nat_eq}
use worddrop.Base.Decimal.{to_string, parse_u32, parse_digits}
use worddrop.Rendezvous.Nameplate
use worddrop.Rendezvous.Nameplate.{Nameplate, IsNameplate, parse}
use worddrop.Rendezvous.Mailbox
use worddrop.Rendezvous.Mailbox.{Mailbox, max_ticket_length}
use worddrop.Rendezvous.RateLimiter
use worddrop.Rendezvous.RateLimiter.{v4, second}
use worddrop.Rendezvous.Api
use worddrop.Rendezvous.Api.{
  AppState, Request, AllocateResponse, ApiError, limit_access, count_request, bump,
}
use worddrop.Rendezvous.Api.Exchange.{state_of_answer}
use worddrop.Rendezvous.Api.Claims.{claim_spent, exchange}

abbrev seven : ℕ → Nameplate
seven k = 7

seven-IsNameplate : (k : ℕ) → IsNameplate (seven k)
seven-IsNameplate k = (omega arith, omega arith)

abbrev ticket : Text
ticket = codes "blob"

abbrev giver : Request
giver = record { ip = v4 1; now = 5 * second; epoch = 1_700_000_000; candidate = seven; rounds = 1 }

abbrev taker : Request
taker = record { ip = v4 2; now = 9 * second; epoch = 1_700_000_004; candidate = seven; rounds = 0 }

abbrev response : AllocateResponse
response = record { nameplate = 7; expires_at = 1_700_000_600 }

abbrev given : AppState
given = state_of_answer Api.new (Api.allocate giver ticket Api.new)

given_lem : Api.allocate giver ticket Api.new ≡ some (ok response, given)
unfolding Api.allocate Api.rate_limit Api.locked Api.after_check RateLimiter.check
    RateLimiter.pop_old lookup Api.validate_ticket Api.expiry Api.allocate_pair Api.allocated
    Mailbox.allocate Mailbox.pick
given_lem = refl

abbrev let_in : AppState
let_in = state_of_answer given (limit_access taker (count_request given))

let_in_lem : limit_access taker (count_request given) ≡ some (ok tt, let_in)
unfolding Api.allocate Api.rate_limit Api.locked Api.after_check RateLimiter.check
    RateLimiter.pop_old lookup Api.validate_ticket Api.expiry Api.allocate_pair Api.allocated
    Mailbox.allocate Mailbox.pick
let_in_lem = refl

abbrev taken : AppState
taken = state_of_answer given (Api.claim taker (codes "7") given)

taken_lem : Api.claim taker (codes "7") given ≡ some (ok ticket, taken)
unfolding Api.allocate Api.rate_limit Api.locked Api.after_check RateLimiter.check
    RateLimiter.pop_old lookup Api.validate_ticket Api.expiry Api.allocate_pair Api.allocated
    Mailbox.allocate Mailbox.pick Api.claim Nameplate.parse Nameplate.in_range parse_u32
    parse_digits insert Api.claim_pair Api.claimed Mailbox.claim
taken_lem = refl

exchange_example : (s'' : AppState) × (Api.claim taker (to_string 7) given ≡ some (ok ticket, s''))
exchange_example =
    exchange giver taker ticket Api.new given let_in response seven-IsNameplate given_lem
      (omega arith) let_in_lem

claim_spent_example : Api.claim giver (codes "7") taken ≢ some (ok ticket, given)
claim_spent_example = claim_spent taker giver (codes "7") ticket ticket given taken given taken_lem
