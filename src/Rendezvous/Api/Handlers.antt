-- ===== src/Rendezvous/Api/Handlers.antt =====
-- What the handlers of crates/rendezvous/src/lib.rs do to the mailbox and to the counters.
use worddrop.Base.{◌≡◌, ◌≢◌, refl, Bool, true, false, some, Text, Result, ok, err, map_err}
use worddrop.Base.Decimal.{to_string}
use worddrop.Rendezvous.Nameplate
use worddrop.Rendezvous.Nameplate.{Nameplate, NameplateError, IsNameplate}
use worddrop.Rendezvous.Nameplate.Canonical.{parse_iff}
use worddrop.Rendezvous.RateLimiter.{RateLimiter}
use worddrop.Rendezvous.Api.{
  AppState, locked, after_check, ApiError, Request, Handler, rate_limit, limit_access, put_access,
  claim_pair, claim, count_request, invalid_nameplate, continue, lock_error,
}

-- Two states with the same mailbox, lifetime and count of claims.
pub record SamePairs (s s' : AppState) : Type 0 where
  pub pairs : s'.pairs ≡ s.pairs
  pub ttl : s'.ttl ≡ s.ttl
  pub claim_total : s'.claim_total ≡ s.claim_total

abbrev pub Answer {ℓ} : Type ℓ → Type ℓ
Answer A = Result ApiError A × AppState

pub same_pairs : (s : AppState) → SamePairs s s
same_pairs s = record { pairs = refl; ttl = refl; claim_total = refl }

locked_answers :
    (b : Bool) (section : Handler (Unit {0})) (s : AppState)
    → ((a : Answer (Unit {0})) × (section s ≡ some a) × SamePairs s a.1)
    → (a : Answer (Unit {0})) × (locked b section s ≡ some a) × SamePairs s a.1
unfolding locked
locked_answers true section s h = ((err lock_error, s), refl, same_pairs s)
locked_answers false section s h = h

after_check_answers :
    (b : Bool) (l : RateLimiter) (s : AppState)
    → (a : Answer (Unit {0})) × (after_check put_access b l s ≡ some a) × SamePairs s a.1
unfolding after_check
after_check_answers true l s =
    ((ok tt, put_access l s), refl, record { pairs = refl; ttl = refl; claim_total = refl })
after_check_answers false l s = (_, refl, record { pairs = refl; ttl = refl; claim_total = refl })

-- The limiter of the accesses always answers, and touches only itself and its counter.
pub limit_access_lem :
    (r : Request) (s : AppState)
    → (a : Answer (Unit {0})) × (limit_access r s ≡ some a) × SamePairs s a.1
unfolding rate_limit
limit_access_lem r s = locked_answers _ _ s (after_check_answers _ _ s)

pub counted_request : (s : AppState) {a : AppState} → SamePairs (count_request s) a → SamePairs s a
counted_request s same = record {
  pairs = same.pairs;
  ttl = same.ttl;
  claim_total = same.claim_total;
}

-- A path that is not the decimal form of a number from 1 to 9999 never reaches the mailbox: the
-- claim is answered with an error, and the mailbox and the count of claims stay as they were.
claim_rejects :
    (r : Request) (path : Text) (s : AppState)
    → ((n : Nameplate) → IsNameplate n → path ≢ to_string n)
    → (e : ApiError) × (s' : AppState) × (claim r path s ≡ some (err e, s')) × SamePairs s s'
unfolding claim
claim_rejects r path s words = after_limit (limit_access_lem r (count_request s))
  where
    after_parse :
        (a : AppState) (p : Result NameplateError Nameplate)
        → Nameplate.parse path ≡ p
        → SamePairs s a
        → (e : ApiError) × (s' : AppState) × (continue
              (claim_pair r)
              (some (map_err invalid_nameplate p, a))
            ≡ some (err e, s'))
          × SamePairs s s'
    after_parse a (ok n) h same =
        let (printed, range) = (parse_iff path n).0 h in absurd (words n range printed)
    after_parse a (err x) h same = (invalid_nameplate x, a, refl, same)

    after_limit :
        ((a : Answer (Unit {0})) × (limit_access r (count_request s) ≡ some a)
          × SamePairs (count_request s) a.1)
        → (e : ApiError) × (s' : AppState) × (claim r path s ≡ some (err e, s')) × SamePairs s s'
    after_limit ((ok u, a), h, same) =
        rw h (after_parse a (Nameplate.parse path) refl (counted_request s same))
    after_limit ((err e, a), h, same) = (e, a, rw h, counted_request s same)
