-- ===== src/Rendezvous/Api/Exchange.antt =====
-- Allocation requests to crates/rendezvous/src/lib.rs that are answered with a nameplate.
use worddrop.Base.{
  ℕ, ◌≤◌, ◌≡◌, refl, sym, ap, ◌∙◌, Bool, true, false, Option, none, some, Text, Result, ok, err,
  arith, byte_len,
}
use mathlib.Core.Path.{ap₂}
use worddrop.Rendezvous.Nameplate.{Nameplate}
use worddrop.Rendezvous.Mailbox
use worddrop.Rendezvous.Mailbox.{Mailbox, ClaimError, Entry, get, status_of, max_ticket_length}
use worddrop.Rendezvous.RateLimiter
use worddrop.Rendezvous.Api.{
  AppState, Mutex, locked, after_check, ApiError, Request, AllocateResponse, rate_limit,
  limit_create, validate_ticket, expiry, allocated, allocate_pair, allocate, count_request,
  count_allocate, continue, put_pairs, put_create,
}

abbrev pub state_of_answer {ℓ} :
    {A : Type ℓ} → AppState → Option (Result ApiError A × AppState) → AppState
state_of_answer s none = s
state_of_answer s (some (r, t)) = t

abbrev pub result_of_answer {ℓ} :
    {A : Type ℓ} → Result ApiError A → Option (Result ApiError A × AppState) → Result ApiError A
result_of_answer d none = d
result_of_answer d (some (r, t)) = r

module _ {A B : Type 0} where
  -- Inversion of a handler's step that went well.
  pub continue_ok :
      (f : A → AppState → Option (Result ApiError B × AppState))
      (m : Option (Result ApiError A × AppState)) (b : B) (s' : AppState)
      → continue f m ≡ some (ok b, s')
      → (a : A) × (t : AppState) × (m ≡ some (ok a, t)) × (f a t ≡ some (ok b, s'))
  continue_ok f none b s' h = cc
  continue_ok f (some (ok a, t)) b s' h = (a, t, refl, h)
  continue_ok f (some (err e, t)) b s' h = absurd (ground arith)

pub locked_ok :
    {A : Type 0} (b : Bool) (section : AppState → Option (Result ApiError A × AppState))
    (s t : AppState) (a : A)
    → locked b section s ≡ some (ok a, t)
    → (b ≡ false) × (section s ≡ some (ok a, t))
unfolding locked
locked_ok true section s t a h = absurd (ground arith)
locked_ok false section s t a h = (refl, h)

pub after_check_ok :
    (put : RateLimiter.RateLimiter → AppState → AppState) (b : Bool) (l : RateLimiter.RateLimiter)
    (s t : AppState) (u : Unit {0})
    → after_check put b l s ≡ some (ok u, t)
    → t ≡ put l s
unfolding after_check
after_check_ok put true l s t u h = ap (state_of_answer s) (sym h)
after_check_ok put false l s t u h = absurd (ground arith)

-- A request that passed the limiter of the allocations.
limit_create_ok :
    (r : Request) (s t : AppState) (u : Unit {0})
    → limit_create r s ≡ some (ok u, t)
    → (t.pairs ≡ s.pairs) × (t.ttl ≡ s.ttl)
unfolding rate_limit
limit_create_ok r s t u h =
    let same = after_check_ok put_create _ _ s t u (locked_ok _ _ s t u h).1 in
    (ap (λ (x : AppState). x.pairs) same, ap (λ (x : AppState). x.ttl) same)

allocated_ok :
    (o : Option (Nameplate × Mailbox)) (s t : AppState) (n : Nameplate)
    → allocated o s ≡ some (ok n, t)
    → (m : Mailbox) × (o ≡ some (n, m)) × (t ≡ put_pairs m s)
unfolding allocated
allocated_ok none s t n h = cc
allocated_ok (some (k, m)) s t n h =
    let same : k ≡ n = ground arith in
    (m, ap (λ (x : ℕ). some (x, m)) same, ap (state_of_answer s) (sym h))

allocate_pair_ok :
    (r : Request) (ticket : Text) (s t : AppState) (n : Nameplate)
    → allocate_pair r ticket s ≡ some (ok n, t)
    → (m : Mailbox) × (Mailbox.allocate r.rounds r.candidate s.pairs.value ticket s.ttl r.now
        ≡ some (n, m))
      × (t.pairs.value ≡ m)
      × (t.pairs.poisoned ≡ false)
unfolding allocate_pair
allocate_pair_ok r ticket s t n h =
    let (clean, section) = locked_ok _ _ s t n h in
    let (m, stored, state) = allocated_ok _ s t n section in
    (
      m,
      stored,
      ap (λ (x : AppState). x.pairs.value) state,
      ap (λ (x : AppState). x.pairs.poisoned) state ∙ clean,
    )

valid_ticket_fits :
    (ticket : Text) (u : Unit {0})
    → validate_ticket ticket ≡ ok u
    → byte_len ticket ≤ max_ticket_length
unfolding validate_ticket
valid_ticket_fits ticket u h = ground arith

assemble :
    (r : Request) (ticket : Text) (s t2 t3 s' : AppState) (response : AllocateResponse) (n e : ℕ)
    (m : Mailbox)
    → (t2.pairs ≡ s.pairs) × (t2.ttl ≡ s.ttl)
    → Mailbox.allocate r.rounds r.candidate t2.pairs.value ticket t2.ttl r.now ≡ some (n, m)
    → (t3.pairs.value ≡ m) × (t3.pairs.poisoned ≡ false)
    → (response.nameplate ≡ n) × (s' ≡ t3)
    → (Mailbox.allocate r.rounds r.candidate s.pairs.value ticket s.ttl r.now
        ≡ some (response.nameplate, m))
      × (s'.pairs.value ≡ m)
      × (s'.pairs.poisoned ≡ false)
assemble r ticket s t2 t3 s' response n e m same stored kept final = (
  ap₂ (λ (p : Mutex Mailbox) (d : ℕ). Mailbox.allocate r.rounds r.candidate p.value ticket d r.now)
        (sym same.0) (sym same.1)
      ∙ stored
      ∙ ap (λ (k : ℕ). some (k, m)) (sym final.0),
  ap (λ (x : AppState). x.pairs.value) final.1 ∙ kept.0,
  ap (λ (x : AppState). x.pairs.poisoned) final.1 ∙ kept.1,
)

pub answered :
    {A : Type 0} (x y : A) (s t : AppState)
    → ◌≡◌ {A = Option (Result ApiError A × AppState)} (some (ok x, s)) (some (ok y, t))
    → (x ≡ y) × (s ≡ t)
answered x y s t h = (ground arith, ap (state_of_answer s) h)

-- A request that got a nameplate had a ticket of at most 4096 bytes, and the mailbox is what its
-- `allocate` made of it for that ticket; the lock of the pairs was not poisoned.
pub allocate_ok :
    (r : Request) (ticket : Text) (s s' : AppState) (response : AllocateResponse)
    → allocate r ticket s ≡ some (ok response, s')
    → (byte_len ticket ≤ max_ticket_length)
      × ((m : Mailbox) × (Mailbox.allocate r.rounds r.candidate s.pairs.value ticket s.ttl r.now
            ≡ some (response.nameplate, m))
          × (s'.pairs.value ≡ m)
          × (s'.pairs.poisoned ≡ false))
unfolding allocate
allocate_ok r ticket s s' response h =
    let (u, t, limited, h1) =
      continue_ok _ (limit_create r (count_allocate (count_request s))) response s' h in
    let (v, t', valid, h2) = continue_ok _ (some (validate_ticket ticket, t)) response s' h1 in
    let (e, t2, epoch, h3) = continue_ok _ (some (expiry r t', t')) response s' h2 in
    let (n, t3, pair, h4) = continue_ok _ (allocate_pair r ticket t2) response s' h3 in
    let (m, stored, value, clean) = allocate_pair_ok r ticket t2 t3 n pair in
    let same = limit_create_ok r (count_allocate (count_request s)) t u limited in
    let through : t2 ≡ t = sym (ap (state_of_answer t) valid ∙ ap (state_of_answer t) epoch) in
    let last = answered (record { nameplate = n; expires_at = e }) response t3 s' h4 in
    let stored_at =
      assemble r ticket s t2 t3 s' response n e m
        (
          ap (λ (x : AppState). x.pairs) through ∙ same.0,
          ap (λ (x : AppState). x.ttl) through ∙ same.1,
        )
        stored (value, clean)
        (ap (λ (x : AllocateResponse). x.nameplate) (sym last.0), sym last.1) in
    (
      valid_ticket_fits ticket v (ap (result_of_answer (validate_ticket ticket)) valid),
      (m, stored_at.0, stored_at.1, stored_at.2),
    )
