-- ===== src/Rendezvous/Api/Claims.antt =====
-- Claim requests to crates/rendezvous/src/lib.rs that are answered with a ticket.
use worddrop.Base.{
  ℕ, ◌+◌, ◌<◌, ◌≡◌, ◌≢◌, sym, ap, ◌∙◌, true, false, some, Text, Result, ok, err, map_err, arith,
  ==_self,
}
use worddrop.Base.Decimal.{to_string}
use mathlib.Core.Path.{ap₂, subst}
use worddrop.Rendezvous.Nameplate
use worddrop.Rendezvous.Nameplate.{Nameplate, NameplateError, IsNameplate}
use worddrop.Rendezvous.Nameplate.Canonical.{parse_iff, parse-to_string}
use worddrop.Rendezvous.Mailbox
use worddrop.Rendezvous.Mailbox.{Mailbox, ClaimError, Entry, get, status_of, max_ticket_length}
use worddrop.Rendezvous.Mailbox.View.{claim_lem, claim_ok_inv, claim_pending}
use worddrop.Rendezvous.Mailbox.Allocation.{allocate_self, allocate_lem}
use worddrop.Rendezvous.Api.{
  AppState, Mutex, locked, ApiError, Request, AllocateResponse, rate_limit, limit_access,
  put_access, claim_pair, claimed, claim, allocate, bump, count_request, count_claim,
  invalid_nameplate, put_pairs,
}
use worddrop.Rendezvous.Api.Exchange.{
  continue_ok, locked_ok, after_check_ok, state_of_answer, result_of_answer, allocate_ok,
}

limit_access_ok :
    (r : Request) (s t : AppState) (u : Unit {0})
    → limit_access r s ≡ some (ok u, t)
    → (t.pairs ≡ s.pairs) × (t.claim_total ≡ s.claim_total)
unfolding rate_limit
limit_access_ok r s t u h =
    let same = after_check_ok put_access _ _ s t u (locked_ok _ _ s t u h).1 in
    (ap (λ (x : AppState). x.pairs) same, ap (λ (x : AppState). x.claim_total) same)

abbrev ok_value : Text → Result ApiError Text → Result ClaimError Text
ok_value d (ok x) = ok x
ok_value d (err e) = ok d

claimed_ok :
    (answer : Result ClaimError Text) (s t : AppState) (ticket : Text)
    → claimed answer s ≡ some (ok ticket, t)
    → (answer ≡ ok ticket) × (t ≡ count_claim s)
unfolding claimed
claimed_ok (ok x) s t ticket h =
    (ap (ok_value x) (ap (result_of_answer (ok x)) h), ap (state_of_answer s) (sym h))
claimed_ok (err e) s t ticket h = absurd (ground arith)

claim_pair_ok :
    (r : Request) (n : Nameplate) (s t : AppState) (ticket : Text)
    → claim_pair r n s ≡ some (ok ticket, t)
    → ((Mailbox.claim s.pairs.value n r.now).0 ≡ ok ticket)
      × (t.pairs.value ≡ (Mailbox.claim s.pairs.value n r.now).1)
      × (t.claim_total ≡ bump s.claim_total)
unfolding claim_pair
claim_pair_ok r n s t ticket h =
    let section = (locked_ok _ _ s t ticket h).1 in
    let done = claimed_ok _ _ t ticket section in
    (
      done.0,
      ap (λ (x : AppState). x.pairs.value) done.1,
      ap (λ (x : AppState). x.claim_total) done.1,
    )

parsed :
    (path : Text) (n : Nameplate)
    → map_err invalid_nameplate (Nameplate.parse path) ≡ ok n
    → (path ≡ to_string n) × IsNameplate n
parsed path n h = (parse_iff path n).0 (inv (Nameplate.parse path) h)
  where
    inv : (p : Result NameplateError Nameplate) → map_err invalid_nameplate p ≡ ok n → p ≡ ok n
    inv (ok k) q = ground arith
    inv (err e) q = absurd (ground arith)

-- A claim request that is answered with a ticket named a number from 1 to 9999 in decimal form,
-- the mailbox gave that ticket for it, the mailbox is as its claim left it, and the count of
-- claims went up by one, modulo 2^64.
pub claim_ok :
    (r : Request) (path ticket : Text) (s s' : AppState)
    → claim r path s ≡ some (ok ticket, s')
    → (n : Nameplate) × IsNameplate n
      × (path ≡ to_string n)
      × ((Mailbox.claim s.pairs.value n r.now).0 ≡ ok ticket)
      × (s'.pairs.value ≡ (Mailbox.claim s.pairs.value n r.now).1)
      × (s'.claim_total ≡ bump s.claim_total)
unfolding claim
claim_ok r path ticket s s' h =
    let (u, t, limited, h1) = continue_ok _ (limit_access r (count_request s)) ticket s' h in
    let (n, t2, valid, h2) =
      continue_ok _ (some (map_err invalid_nameplate (Nameplate.parse path), t)) ticket s' h1 in
    let same = limit_access_ok r (count_request s) t u limited in
    let parse =
      parsed path n
        (ap (result_of_answer (map_err invalid_nameplate (Nameplate.parse path))) valid) in
    let through : t2 ≡ t = sym (ap (state_of_answer t) valid) in
    let (given, left, counted) = claim_pair_ok r n t2 s' ticket h2 in
    let pairs : t2.pairs ≡ s.pairs = ap (λ (x : AppState). x.pairs) through ∙ same.0 in
    (
      n,
      parse.1,
      parse.0,
      subst (λ (p : Mutex Mailbox). (Mailbox.claim p.value n r.now).0 ≡ ok ticket) pairs given,
      left ∙ ap (λ (p : Mutex Mailbox). (Mailbox.claim p.value n r.now).1) pairs,
      counted ∙ ap (λ (x : AppState). bump x.claim_total) through ∙ ap bump same.1,
    )

to_string_injective :
    (n k : Nameplate) → IsNameplate n → IsNameplate k → to_string n ≡ to_string k → n ≡ k
to_string_injective n k hn hk e =
    let read : ok n ≡ ok k =
      sym (parse-to_string n hn) ∙ ap Nameplate.parse e ∙ parse-to_string k hk in
    ground arith

spent :
    (m : Mailbox) (n : Nameplate) (now later : Mailbox.Instant) (t x : Text)
    → (Mailbox.claim m n now).0 ≡ ok t
    → (Mailbox.claim (Mailbox.claim m n now).1 n later).0 ≢ ok x
spent m n now later t x h k =
    let (e, stored, unclaimed, same) = claim_ok_inv m n now t h in
    let (d, stored', unclaimed', same') = claim_ok_inv (Mailbox.claim m n now).1 n later x k in
    let entry : get (Mailbox.claim m n now).1 n ≡ some (record e { claimed = true }) =
      (claim_lem m n n now).1 ∙ rw (==_self n, h, stored) in
    let both : some (record e { claimed = true }) ≡ some d = sym entry ∙ stored' in ground arith

-- Once a claim request has been answered with a ticket, no claim request for the same path gets
-- one from the state that the first left, whenever it comes.
pub claim_spent :
    (r later : Request) (path ticket again : Text) (s s' s'' : AppState)
    → claim r path s ≡ some (ok ticket, s')
    → claim later path s' ≢ some (ok again, s'')
claim_spent r later path ticket again s s' s'' h k =
    let (n, range, printed, given, left, counted) = claim_ok r path ticket s s' h in
    let (n', range', printed', given', left', counted') = claim_ok later path again s' s'' k in
    let same : n' ≡ n = to_string_injective n' n range' range (sym printed' ∙ printed) in
    spent s.pairs.value n r.now later.now ticket again given (
      ap₂ (λ (m : Mailbox) (j : ℕ). (Mailbox.claim m j later.now).0) (sym left) (sym same) ∙ given')

claim_pair_at :
    (r : Request) (n : Nameplate) (t : AppState) (p : Mutex Mailbox) (ticket : Text)
    → t.pairs ≡ p
    → p.poisoned ≡ false
    → (Mailbox.claim p.value n r.now).0 ≡ ok ticket
    → (s' : AppState) × (claim_pair r n t ≡ some (ok ticket, s'))
unfolding claim_pair locked claimed
claim_pair_at r n t p ticket e clean h =
    let m = (Mailbox.claim p.value n r.now).1 in
    (
      count_claim (put_pairs m t),
      ap
            (λ (q : Mutex Mailbox).
              locked q.poisoned
                (λ u.
                  claimed (Mailbox.claim q.value n r.now).0
                    (put_pairs (Mailbox.claim q.value n r.now).1 u))
                t)
            e
          ∙ rw (clean, h),
    )

-- The ticket of a request that got a nameplate is what the next claim of that nameplate, printed
-- in decimal, is answered with, if it comes before the ticket expires and the limiter lets it
-- through.
pub exchange :
    (giver taker : Request) (ticket : Text) (s s' t : AppState) (response : AllocateResponse)
    → ((k : ℕ) → IsNameplate (giver.candidate k))
    → allocate giver ticket s ≡ some (ok response, s')
    → taker.now < giver.now + s.ttl
    → limit_access taker (count_request s') ≡ some (ok tt, t)
    → (s'' : AppState) × (claim taker (to_string response.nameplate) s' ≡ some (ok ticket, s''))
unfolding claim
exchange giver taker ticket s s' t response range h early through =
    let (fits, (m, stored, value, clean)) = allocate_ok giver ticket s s' response h in
    let (valid, free, entries) =
      allocate_lem giver.rounds giver.candidate s.pairs.value ticket s.ttl giver.now
        response.nameplate m range stored in
    let n = response.nameplate in
    let entry : get m n
        ≡ some (record { ticket = ticket; expires_at = giver.now + s.ttl; claimed = false }) =
      allocate_self giver.rounds giver.candidate s.pairs.value ticket s.ttl giver.now n m stored in
    let given : (Mailbox.claim m n taker.now).0 ≡ ok ticket =
      claim_pending m n taker.now ticket (giver.now + s.ttl) entry early in
    let same = limit_access_ok taker (count_request s') t tt through in
    let (s'', done) = claim_pair_at taker n t s'.pairs ticket same.0 clean (rw value given) in
    (s'', rw (through, parse-to_string n valid) done)
