-- ===== src/Client/Http/Answers.antt =====
-- When the HTTP backend of crates/cli/src/rendezvous_client.rs succeeds.
use worddrop.Base.{
  ℕ, ◌≡◌, ◌↔◌, refl, ap, ◌∙◌, ◌++◌, Option, none, some, Text, codes, ok, ◌>>=◌, >>=-eq-ok,
  ok_injective, err-ne-ok, ◌==◌, ==_iff, ==_self, Bool-cases, inl, inr,
}
use worddrop.Base.Decimal.{to_string}
use worddrop.Client.Http.{
  Exchanged, too_late, io_failed, tls_failed, response, Backend, Endpoint, on_exchanged,
  parse_response, request_text, endpoint, request, parsed, if_status, claim,
}

module _ {IoError : Type 0} (backend : Backend IoError) where
  -- One exchange with the endpoint, for a request, that was answered with the status and the body.
  abbrev pub IsAnswered : Text → Text → Option Text → ℕ → Text → Type 0
  IsAnswered method path body status answer =
      (e : Endpoint) × (text : Text) × (endpoint backend ≡ ok e)
      × (backend.exchange e.hostname e.port e.use_tls (request_text method path e.host_header body)
          ≡ response text)
      × (parse_response {IoError = IoError} text ≡ ok (status, answer))

  on_exchanged-ok :
      (x : Exchanged IoError) {r : ℕ × Text}
      → on_exchanged x ≡ ok r
      → (text : Text) × (x ≡ response text) × (parse_response {IoError = IoError} text ≡ ok r)
  on_exchanged-ok too_late h = absurd (err-ne-ok h)
  on_exchanged-ok (io_failed e) h = absurd (err-ne-ok h)
  on_exchanged-ok (tls_failed d) h = absurd (err-ne-ok h)
  on_exchanged-ok (response text) h = (text, refl, h)

  module _ {A : Type 0} (method path : Text) (body : Option Text) (wanted : ℕ) (kind : Text)
      (read : Text → Option A) (a : A) where
    accepted :
        (r : ℕ × Text)
        → if_status backend wanted (λ b. parsed backend kind b (read b)) r ≡ ok a
        → (r.0 ≡ wanted) × (read r.1 ≡ some a)
    accepted (status, b) h = elim (Bool-cases (status == wanted)) [
      | inl q ↦ ((==_iff status wanted).0 q, was_read (read b) (rw q at h))
      | inr q ↦ absurd (err-ne-ok (rw q at h))
    ]
      where
        was_read : (o : Option A) → parsed backend kind b o ≡ ok a → o ≡ some a
        was_read none e = absurd (err-ne-ok e)
        was_read (some x) e = ap some (ok_injective e)

    asked_iff :
        ((request backend method path body
            >>= if_status backend wanted (λ b. parsed backend kind b (read b)))
          ≡ ok a)
        ↔ ((answer : Text) × IsAnswered method path body wanted answer × (read answer ≡ some a))
    unfolding request
    asked_iff = (
      λ h.
          let (r, asked, taken) = >>=-eq-ok (request backend method path body) _ h in
          let (e, there, exchanged) = >>=-eq-ok (endpoint backend) _ asked in
          let (text, came, was) = on_exchanged-ok _ exchanged in
          let (status, made) = accepted r taken in
          (r.1, (e, text, there, came, was ∙ ap (λ (n : ℕ). ok (n, r.1)) status), made),
      λ (answer, (e, text, there, came, was), made). rw (there, came, was, ==_self wanted, made),
    )

  -- A claim gives a ticket exactly when the endpoint answers the claim request, which names the
  -- nameplate and has no body, with status 200 and a body that holds the ticket; the words are
  -- neither in the request nor matter.
  pub claim_iff :
      (nameplate : ℕ) (words ticket : Text)
      → (claim backend nameplate words ≡ ok ticket) ↔ (
          (answer : Text) × IsAnswered
            (codes "POST")
            (codes "/v1/pairs/" ++ (to_string nameplate ++ codes "/claim"))
            none
            200
            answer
          × (backend.bodies.claimed_ticket answer ≡ some ticket))
  unfolding claim
  claim_iff nameplate words ticket =
      asked_iff (codes "POST") (codes "/v1/pairs/" ++ (to_string nameplate ++ codes "/claim")) none
        200 (codes "claim") backend.bodies.claimed_ticket ticket
