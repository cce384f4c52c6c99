-- ===== src/Rendezvous/RateLimiter.antt =====
-- `RateLimiter`, crates/rendezvous/src/mailbox.rs. A `VecDeque` is the list of its items from the
-- front; `duration_since` stops at zero, as `-` does.
pub mod Sliding
use worddrop.Base.{
  ℕ, ◌+◌, ◌-◌, ◌*◌, ◌^◌, ◌≡◌, Bool, true, false, List, [], ◌∷◌, ◌++◌, Option, none, some, length,
  leb, ◌==◌, ==_iff, ◌↔◌, if◌then◌else◌, arith,
}
use worddrop.Base.Table.{Table, Eq, lookup, insert}
use worddrop.Rendezvous.Mailbox.{Instant, Duration}

-- `std::net::IpAddr`, each address as its number.
pub data IpAddr : Type 0 where
  v4 : ℕ → IpAddr
  v6 : ℕ → IpAddr

abbrev pub same_ip : IpAddr → IpAddr → Bool
same_ip (v4 a) (v4 b) = a == b
same_ip (v6 a) (v6 b) = a == b
same_ip _ _ = false

pub same_ip_iff : (a b : IpAddr) → (same_ip a b ≡ true) ↔ (a ≡ b)
same_ip_iff (v4 a) (v4 b) = ground arith
same_ip_iff (v6 a) (v6 b) = ground arith
same_ip_iff (v4 a) (v6 b) = ground arith
same_ip_iff (v6 a) (v4 b) = ground arith

instance abbrev pub ip_eq : Eq IpAddr
ip_eq = record { beq = same_ip; beq_iff = same_ip_iff }

abbrev pub second : Duration
second = 1_000_000_000

abbrev pub window_length : Duration
window_length = 60 * second

pub record RateLimiter : Type 0 where
  pub entries : Table IpAddr (List Instant)

abbrev pub default : RateLimiter
default = record { entries = [] }

-- `entry(ip).or_default()`
abbrev pub or_default : Option (List Instant) → List Instant
or_default none = []
or_default (some w) = w

abbrev pub window : RateLimiter → IpAddr → List Instant
window l ip = or_default (lookup ip l.entries)

-- The loop that pops the front while it is 60 seconds old or more.
unfoldable pub pop_old : Instant → List Instant → List Instant
pop_old now [] = []
pop_old now (front ∷ rest) =
    if leb window_length (now - front) then pop_old now rest else front ∷ rest

-- `RateLimiter::check` at the instant `now`.
unfoldable pub check : RateLimiter → IpAddr → ℕ → Instant → Bool × RateLimiter
check l ip limit now =
    let w = pop_old now (window l ip) in
    if leb limit (length w)
    then (false, record { entries = insert ip w l.entries })
    else (true, record { entries = insert ip (w ++ now ∷ []) l.entries })
