-- ===== src/Rendezvous/Api/Metrics.antt =====
-- The counters in text, `metrics` of crates/rendezvous/src/lib.rs, and the requests that only read.
use worddrop.Base.{
  ℕ, ◌≡◌, refl, ◌∙◌, Bool, true, false, ◌||◌, [], ◌∷◌, ◌++◌, some, Text, codes, Result, ok, err,
  map_err, if◌then◌else◌,
}
use worddrop.Base.Decimal.{to_string}
use worddrop.Rendezvous.Nameplate
use worddrop.Rendezvous.Nameplate.{Nameplate, NameplateError}
use worddrop.Rendezvous.Mailbox
use worddrop.Rendezvous.Api.{
  AppState, Request, Handler, continue, locked, count_request, limit_access, invalid_nameplate,
  status_pair, status, health, lock_error, ApiError,
}
use worddrop.Rendezvous.Api.Handlers.{
  SamePairs, Answer, same_pairs, limit_access_lem, counted_request,
}

abbrev newline : ℕ
newline = b'\n'

-- One metric: its help line, its type line and its value.
abbrev pub metric : Text → Text → Text → ℕ → Text
metric name help ty value =
    codes "# HELP "
    ++ name
    ++ codes " "
    ++ help
    ++ newline ∷ codes "# TYPE "
    ++ name
    ++ codes " "
    ++ ty
    ++ newline ∷ name
    ++ codes " "
    ++ to_string value
    ++ newline ∷ []

-- The gauge reads nothing when the lock is poisoned or another thread holds it.
abbrev pub pairs_active : Bool → AppState → ℕ
pairs_active contended s = if s.pairs.poisoned || contended then 0 else Mailbox.len s.pairs.value

-- `metrics`
unfoldable pub metrics : Bool → Handler Text
metrics contended s =
    let s' = count_request s in
    some (
      ok (
          metric (codes "worddrop_rendezvous_allocate_total")
            (codes "Total nameplate allocation requests received.") (codes "counter")
            s'.allocate_total
          ++ metric (codes "worddrop_rendezvous_claim_total")
              (codes "Total successful one-shot claims.") (codes "counter") s'.claim_total
          ++ metric (codes "worddrop_rendezvous_rate_limited_total")
              (codes "Total requests rejected by rate limiting.") (codes "counter")
              s'.rate_limited_total
          ++ metric (codes "worddrop_rendezvous_requests_total")
              (codes "Total HTTP requests served.") (codes "counter") s'.requests_total
          ++ metric (codes "worddrop_rendezvous_pairs_active")
              (codes "Number of pairs currently tracked in the mailbox.") (codes "gauge")
              (pairs_active contended s')),
      s',
    )

-- A handler that answers, and leaves the mailbox and the count of claims alone.
abbrev pub OnlyReads : Handler Text → AppState → Type 0
OnlyReads handler s = (a : Answer Text) × (handler s ≡ some a) × SamePairs s a.1

counted : (s : AppState) → SamePairs s (count_request s)
counted s = counted_request s (same_pairs (count_request s))

either_reads :
    (b : Bool) (s t : AppState) (x y : Result ApiError Text)
    → SamePairs s t
    → (a : Answer Text) × ((if b then some (x, t) else some (y, t)) ≡ some a) × SamePairs s a.1
either_reads true s t x y same = ((x, t), refl, same)
either_reads false s t x y same = ((y, t), refl, same)

health_reads : (contended : Bool) (s : AppState) → OnlyReads (health contended) s
unfolding health
health_reads contended s =
    either_reads (s.pairs.poisoned || contended) s (count_request s) _ _ (counted s)

locked_reads :
    (b : Bool) (section : Handler Text) (s : AppState)
    → OnlyReads section s
    → OnlyReads (locked b section) s
unfolding locked
locked_reads true section s h = ((err lock_error, s), refl, same_pairs s)
locked_reads false section s h = h

status_pair_reads : (r : Request) (n : Nameplate) (s : AppState) → OnlyReads (status_pair r n) s
unfolding status_pair
status_pair_reads r n s = locked_reads s.pairs.poisoned _ s (_, refl, same_pairs s)

status_reads : (r : Request) (path : Text) (s : AppState) → OnlyReads (status r path) s
unfolding status
status_reads r path s = after_limit (limit_access_lem r (count_request s))
  where
    after_parse :
        (a : AppState) (p : Result NameplateError Nameplate)
        → SamePairs s a
        → (b : Answer Text) × (continue (status_pair r) (some (map_err invalid_nameplate p, a))
            ≡ some b)
          × SamePairs s b.1
    after_parse a (ok n) same =
        let (b, h, kept) = status_pair_reads r n a in
        (
          b,
          h,
          record {
            pairs = kept.pairs ∙ same.pairs;
            ttl = kept.ttl ∙ same.ttl;
            claim_total = kept.claim_total ∙ same.claim_total;
          },
        )
    after_parse a (err x) same = ((err (invalid_nameplate x), a), refl, same)

    after_limit :
        ((a : Answer (Unit {0})) × (limit_access r (count_request s) ≡ some a)
          × SamePairs (count_request s) a.1)
        → OnlyReads (status r path) s
    after_limit ((ok u, a), h, same) =
        rw h (after_parse a (Nameplate.parse path) (counted_request s same))
    after_limit ((err e, a), h, same) = ((err e, a), rw h, counted_request s same)

-- Requests for the status of any path, for the health and for the metrics are all answered, and
-- none of them changes the mailbox, the lifetime of a pair or the count of claims.
status-OnlyReads :
    (r : Request) (path : Text) (contended : Bool) (s : AppState)
    → OnlyReads (status r path) s × OnlyReads (health contended) s × OnlyReads (metrics contended) s
unfolding metrics
status-OnlyReads r path contended s =
    (status_reads r path s, health_reads contended s, (_, refl, counted s))
