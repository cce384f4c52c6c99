-- ===== src/Pairing/Spake/Compare.antt =====
-- `constant_time_eq` of crates/core/src/pairing/spake.rs: the comparison without an early exit.
use Prim.Native.Nat.{bit_or, bit_xor}
use worddrop.Base.{
  ℕ, ◌<◌, ◌≡◌, ◌↔◌, refl, ap, drop, Bool, true, false, not, ◌&&◌, &&_split, [], ◌∷◌, length, All,
  ltb, ltb→lt, ◌==◌, ==_iff, Bool-cases, inl, inr, arith,
}
use mathlib.Core.Path.{ap₂}
use worddrop.Protocol.Bytes.{Bytes}
use worddrop.Pairing.Spake.{differing, constant_time_eq}
use worddrop.Pairing.Handshake.Hex.{pass, pass_lem}

abbrev both : Bool → Bool → Bool
both true b = b
both false b = not b

-- For two bytes: they differ in no bit exactly when they are equal, and gathering gives none
-- exactly when both have none.
byte_pair : ℕ → ℕ → Bool
byte_pair x y =
    both (bit_xor x y == 0) (x == y)
    && both (bit_or x y == 0) (x == 0 && y == 0)
    && ltb (bit_xor x y) 256
    && ltb (bit_or x y) 256

pairs_table : pass (λ x. pass (byte_pair x) 256) 256 ≡ true
unfolding pass byte_pair
pairs_table = refl

both_iff : (p q : Bool) → both p q ≡ true → (p ≡ true) ↔ (q ≡ true)
both_iff p q h = ground arith

byte_facts :
    (x y : ℕ)
    → x < 256
    → y < 256
    → ((bit_xor x y ≡ 0) ↔ (x ≡ y))
      × ((bit_or x y ≡ 0) ↔ ((x ≡ 0) × (y ≡ 0)))
      × (bit_xor x y < 256)
      × (bit_or x y < 256)
unfolding byte_pair
byte_facts x y small small' =
    let checked =
      pass_lem (byte_pair x) 256 y small'
        (pass_lem (λ z. pass (byte_pair z) 256) 256 x small pairs_table) in
    let third = &&_split _ (ltb (bit_or x y) 256) checked in
    let second = &&_split _ (ltb (bit_xor x y) 256) third.0 in
    let first = &&_split (both (bit_xor x y == 0) (x == y)) _ second.0 in
    let xor = both_iff (bit_xor x y == 0) (x == y) first.0 in
    let or = both_iff (bit_or x y == 0) (x == 0 && y == 0) first.1 in
    (
      (
        λ e. (==_iff x y).0 (xor.0 ((==_iff (bit_xor x y) 0).1 e)),
        λ e. (==_iff (bit_xor x y) 0).0 (xor.1 ((==_iff x y).1 e)),
      ),
      (
        λ e.
            let zeros = &&_split (x == 0) (y == 0) (or.0 ((==_iff (bit_or x y) 0).1 e)) in
            ((==_iff x 0).0 zeros.0, (==_iff y 0).0 zeros.1),
        λ e. (==_iff (bit_or x y) 0).0 (or.1 (rw ((==_iff x 0).1 e.0, (==_iff y 0).1 e.1))),
      ),
      ltb→lt _ 256 second.1,
      ltb→lt _ 256 third.1,
    )

abbrev head_or : ℕ → Bytes → ℕ
head_or d [] = d
head_or d (x ∷ a) = x

differing_lem :
    (d : ℕ) (a b : Bytes)
    → d < 256
    → All (λ x. x < 256) a
    → All (λ x. x < 256) b
    → length a ≡ length b
    → (differing d a b ≡ 0) ↔ ((d ≡ 0) × (a ≡ b))
unfolding differing
differing_lem d [] [] small p q e = (λ h. (h, refl), λ h. h.0)
differing_lem d [] (y ∷ b) small p q e = absurd (omega arith)
differing_lem d (x ∷ a) [] small p q e = absurd (omega arith)
differing_lem d (x ∷ a) (y ∷ b) small p q e =
    let here = byte_facts x y p.0 q.0 in
    let gathered = byte_facts d (bit_xor x y) small here.2 in
    let rest = differing_lem (bit_or d (bit_xor x y)) a b gathered.3 p.1 q.1 (omega arith) in
    (
      λ h.
          let (none_yet, tails) = rest.0 h in
          let zeros = gathered.1.0 none_yet in (zeros.0, ap₂ ◌∷◌ (here.0.0 zeros.1) tails),
      λ h.
          let heads : x ≡ y = ap (head_or 0) h.1 in
          let tails : a ≡ b = ap (drop 1) h.1 in rest.1 (gathered.1.1 (h.0, here.0.1 heads), tails),
    )

-- `constant_time_eq` on byte strings is equality.
pub constant_time_eq_iff :
    (a b : Bytes)
    → All (λ x. x < 256) a
    → All (λ x. x < 256) b
    → (constant_time_eq a b ≡ true) ↔ (a ≡ b)
unfolding constant_time_eq
constant_time_eq_iff a b p q = elim (Bool-cases (length a == length b)) [
  | inl same ↦
      let inner = differing_lem 0 a b (omega arith) p q ((==_iff (length a) (length b)).0 same) in
      rw same (
        (
          λ h. (inner.0 ((==_iff (differing 0 a b) 0).0 h)).1,
          λ e. (==_iff (differing 0 a b) 0).1 (inner.1 (refl, e)),
        ))
  | inr apart ↦ rw apart (
      (
        λ h. absurd (cc h),
        λ e. absurd (ground (arith, apart, (==_iff (length a) (length b)).1 (ap length e))),
      ))
]
