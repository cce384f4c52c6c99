-- ===== src/Session/State/Paths.antt =====
-- The diagram of the phases of crates/core/src/session/state.rs, and the paths through it.
use worddrop.Base.{
  ℕ, ◌≤◌, ◌<◌, ◌≡◌, ◌↔◌, ◌⊎◌, inl, inr, refl, sym, ◌∙◌, Bool, true, false, List, [], ◌∷◌, length,
  ok, err, arith, ok-ne-err,
}
use mathlib.Core.Path.{subst}
use worddrop.Session.State.{
  SessionPhase, created, pending_pair, paired, transferring, done, Transition, start_pairing,
  pair_confirmed, transfer_started, completed, transition, is_terminal,
}

-- The diagram that the phases should follow.
infix 40 ◌⟶◌
pub data ◌⟶◌ : SessionPhase → SessionPhase → Type 0 where
  pair : created ⟶ pending_pair
  confirm : pending_pair ⟶ paired
  begin : paired ⟶ transferring
  complete : transferring ⟶ done
  abort : {p : SessionPhase} → is_terminal p ≡ false → p ⟶ SessionPhase.cancelled
  fail : {p : SessionPhase} → is_terminal p ≡ false → p ⟶ SessionPhase.failed

-- A transition is accepted only along an edge of the diagram.
transition-⟶ : (p q : SessionPhase) (e : Transition) → transition p e ≡ ok q → p ⟶ q
unfolding transition is_terminal
transition-⟶ p q e h = grind (arith, pair, confirm, begin, complete, abort, fail)

abbrev event_of : {p q : SessionPhase} → p ⟶ q → Transition
event_of pair = start_pairing
event_of confirm = pair_confirmed
event_of begin = transfer_started
event_of complete = completed
event_of (abort h) = Transition.cancelled
event_of (fail h) = Transition.failed

abort_ok :
    (p : SessionPhase)
    → is_terminal p ≡ false
    → (transition p Transition.cancelled ≡ ok SessionPhase.cancelled)
      × (transition p Transition.failed ≡ ok SessionPhase.failed)
unfolding transition is_terminal
abort_ok p h = ground arith

⟶-transition : {p q : SessionPhase} (s : p ⟶ q) → transition p (event_of s) ≡ ok q
unfolding transition
⟶-transition pair = refl
⟶-transition confirm = refl
⟶-transition begin = refl
⟶-transition complete = refl
⟶-transition {p} (abort h) = (abort_ok p h).0
⟶-transition {p} (fail h) = (abort_ok p h).1

-- Some event takes `p` to `q` exactly when the diagram has an edge from `p` to `q`.
transition_iff : (p q : SessionPhase) → ((e : Transition) × (transition p e ≡ ok q)) ↔ (p ⟶ q)
transition_iff p q = (λ (e, h). transition-⟶ p q e h, λ s. (event_of s, ⟶-transition s))

-- A phase is terminal exactly when it refuses every event, and the refusal names both.
is_terminal_iff :
    (p : SessionPhase)
    → (is_terminal p ≡ true)
      ↔ ((e : Transition) → transition p e ≡ err (record { from = p; event = e }))
unfolding transition is_terminal
is_terminal_iff created = (λ h e. absurd (cc h), λ h. absurd (ok-ne-err (h start_pairing)))
is_terminal_iff pending_pair = (λ h e. absurd (cc h), λ h. absurd (ok-ne-err (h pair_confirmed)))
is_terminal_iff paired = (λ h e. absurd (cc h), λ h. absurd (ok-ne-err (h transfer_started)))
is_terminal_iff transferring = (λ h e. absurd (cc h), λ h. absurd (ok-ne-err (h completed)))
is_terminal_iff done = (λ h e. refl, λ h. refl)
is_terminal_iff SessionPhase.cancelled = (λ h e. refl, λ h. refl)
is_terminal_iff SessionPhase.failed = (λ h e. refl, λ h. refl)

-- The events that were accepted, one after another, from the phase `p`.
abbrev pub Accepted : SessionPhase → List Transition → SessionPhase → Type 0
Accepted p [] q = p ≡ q
Accepted p (e ∷ es) q = (r : SessionPhase) × (transition p e ≡ ok r) × Accepted r es q

-- How many events a phase can accept at most.
abbrev rank : SessionPhase → ℕ
rank created = 4
rank pending_pair = 3
rank paired = 2
rank transferring = 1
rank _ = 0

rank_falls : (p r : SessionPhase) (e : Transition) → transition p e ≡ ok r → rank r < rank p
unfolding transition
rank_falls p r e h = ground arith

length-le-rank : (p q : SessionPhase) (es : List Transition) → Accepted p es q → length es ≤ rank p
length-le-rank p q [] a = omega arith
length-le-rank p q (e ∷ es) (r, h, a) = omega (arith, rank_falls p r e h, length-le-rank r q es a)

abbrev is_dead : SessionPhase → Bool
is_dead SessionPhase.cancelled = true
is_dead SessionPhase.failed = true
is_dead _ = false

-- The events still to come on the way to `done`.
abbrev remaining : SessionPhase → List Transition
remaining created = start_pairing ∷ pair_confirmed ∷ transfer_started ∷ completed ∷ []
remaining pending_pair = pair_confirmed ∷ transfer_started ∷ completed ∷ []
remaining paired = transfer_started ∷ completed ∷ []
remaining transferring = completed ∷ []
remaining _ = []

step_live :
    (p r : SessionPhase) (e : Transition)
    → transition p e ≡ ok r
    → (is_dead p ≡ false) × (is_dead r ≡ false → remaining p ≡ e ∷ remaining r)
unfolding transition
step_live p r e h = ground arith

alive : (p q : SessionPhase) (es : List Transition) → Accepted p es q → q ≡ done → is_dead p ≡ false
alive p q [] a d = subst (λ x. is_dead x ≡ false) (sym (a ∙ d)) refl
alive p q (e ∷ es) (r, h, a) d = (step_live p r e h).0

only_way :
    (p q : SessionPhase) (es : List Transition) → Accepted p es q → q ≡ done → es ≡ remaining p
only_way p q [] a d = subst (λ x. [] ≡ remaining x) (sym (a ∙ d)) refl
only_way p q (e ∷ es) (r, h, a) d =
    cc ((step_live p r e h).1 (alive r q es a d), only_way r q es a d)

abbrev pub is_done : SessionPhase → Bool
is_done done = true
is_done _ = false

done_only :
    (q : SessionPhase) (es : List Transition)
    → Accepted created es q
    → (is_done q ≡ false) ⊎ (es ≡ remaining created)
done_only done es a = inr (only_way created done es a refl)
done_only created es a = inl refl
done_only pending_pair es a = inl refl
done_only paired es a = inl refl
done_only transferring es a = inl refl
done_only SessionPhase.cancelled es a = inl refl
done_only SessionPhase.failed es a = inl refl

-- From a new session at most four events are accepted, whatever is sent; and one way only leads
-- to `done`: pairing begins, is confirmed, the transfer begins, and it completes.
pub path_to_done :
    (q : SessionPhase) (es : List Transition)
    → Accepted created es q
    → (length es ≤ 4)
      × ((is_done q ≡ false)
          ⊎ (es ≡ start_pairing ∷ pair_confirmed ∷ transfer_started ∷ completed ∷ []))
path_to_done q es a = (length-le-rank created q es a, done_only q es a)
