-- ===== src/Client/Http.antt =====
-- `HttpBackend`, crates/cli/src/rendezvous_client.rs. The network answers a request for a host, a
-- port and a choice of TLS; the JSON library reads and writes the bodies.
pub mod Response
pub mod Answers
use worddrop.Base.{
  ℕ, zero, suc, ◌+◌, Bool, true, false, ◌&&◌, List, [], ◌∷◌, ◌++◌, Option, none, some, Text, codes,
  text_eq, byte_len, is_whitespace, trim, Result, ok, err, ◌>>=◌, map_err, ltb, ◌==◌, if◌then◌else◌,
}
use worddrop.Base.Decimal.{to_string, parse_u32}
use worddrop.Base.Table.{kept}
use worddrop.Client.{
  Allocation, PairState, from_str, RvError, http, io, bad_url, tls, timeout, parse, Url, UrlParser,
}

abbrev pub cr : ℕ
cr = 13

abbrev pub lf : ℕ
lf = 10

abbrev pub space : ℕ
space = 32

abbrev pub line_end : Text
line_end = cr ∷ lf ∷ []

-- How one exchange on a fresh connection ends; a response is what was read until the end.
pub data Exchanged (IoError : Type 0) : Type 0 where
  too_late : Exchanged IoError
  io_failed : IoError → Exchanged IoError
  tls_failed : Text → Exchanged IoError
  response : Text → Exchanged IoError

-- `serde_json` for the bodies of the three endpoints.
pub record Bodies : Type 0 where
  pub ticket_body : Text → Text
  pub allocation : Text → Option Allocation
  pub claimed_ticket : Text → Option Text
  pub state : Text → Option Text

pub record Backend (IoError : Type 0) : Type 0 where
  pub base : Text
  pub parse_url : UrlParser
  pub quoted : Text → Text
  pub exchange : Text → ℕ → Bool → Text → Exchanged IoError
  pub bodies : Bodies

-- `text.split_once("\r\n\r\n")`
abbrev pub starts_blank : Text → Bool
starts_blank (a ∷ b ∷ c ∷ d ∷ s) = a == cr && b == lf && c == cr && d == lf
starts_blank _ = false

abbrev pub drop_four : Text → Text
drop_four (a ∷ b ∷ c ∷ d ∷ s) = s
drop_four _ = []

abbrev pub onto_head : ℕ → Option (Text × Text) → Option (Text × Text)
onto_head c none = none
onto_head c (some (head, body)) = some (c ∷ head, body)

unfoldable pub split_head : Text → Option (Text × Text)
split_head [] = none
split_head (c ∷ s) =
    let rest = onto_head c (split_head s) in
    if starts_blank (c ∷ s) then some ([], drop_four (c ∷ s)) else rest

-- `lines().next()`: the text before the first line feed, less a carriage return right before it.
abbrev pub before_lf : Text → Text
before_lf [] = []
before_lf (c ∷ s) = let rest = c ∷ before_lf s in if c == lf then [] else rest

abbrev pub strip_cr : Text → Text
strip_cr [] = []
strip_cr (c ∷ []) = if c == cr then [] else c ∷ []
strip_cr (c ∷ d ∷ s) = c ∷ strip_cr (d ∷ s)

abbrev pub has_lf : Text → Bool
has_lf [] = false
has_lf (c ∷ s) = if c == lf then true else has_lf s

abbrev pub line_of : Text → Text
line_of s = if has_lf s then strip_cr (before_lf s) else before_lf s

abbrev pub first_line : Text → Option Text
first_line [] = none
first_line (c ∷ s) = some (line_of (c ∷ s))

-- `split_whitespace().nth(1)`
abbrev pub skip_space : Text → Text
skip_space [] = []
skip_space (c ∷ s) = if is_whitespace c then skip_space s else c ∷ s

abbrev pub word_of : Text → Text
word_of [] = []
word_of (c ∷ s) = let rest = c ∷ word_of s in if is_whitespace c then [] else rest

abbrev pub after_word : Text → Text
after_word [] = []
after_word (c ∷ s) = let rest = after_word s in if is_whitespace c then c ∷ s else rest

abbrev pub non_empty : Text → Option Text
non_empty [] = none
non_empty (c ∷ s) = some (c ∷ s)

abbrev pub second_word : Text → Option Text
second_word line = non_empty (word_of (skip_space (after_word (skip_space line))))

-- `parse::<u16>`
abbrev pub parse_u16 : Text → Option ℕ
parse_u16 code = kept (λ n. ltb n 65536) (parse_u32 code)

abbrev pub and_then {ℓ κ} : {A : Type ℓ} {B : Type κ} → Option A → (A → Option B) → Option B
and_then none f = none
and_then (some a) f = f a

abbrev pub status_of : Text → Option ℕ
status_of head = and_then (first_line head) λ line. and_then (second_word line) parse_u16

module _ {IoError : Type 0} where
  abbrev pub with_status : Text → Text → Option ℕ → Result (RvError IoError) (ℕ × Text)
  with_status head body none = err (parse (codes "status line") head)
  with_status head body (some status) = ok (status, body)

  abbrev pub with_head : Text → Option (Text × Text) → Result (RvError IoError) (ℕ × Text)
  with_head text none = err (parse (codes "response head") text)
  with_head text (some (head, body)) = with_status head body (status_of head)

  -- The reading of a response.
  unfoldable pub parse_response : Text → Result (RvError IoError) (ℕ × Text)
  parse_response text = with_head text (split_head text)

  abbrev pub on_exchanged : Exchanged IoError → Result (RvError IoError) (ℕ × Text)
  on_exchanged too_late = err timeout
  on_exchanged (io_failed e) = err (io e)
  on_exchanged (tls_failed detail) = err (tls detail)
  on_exchanged (response text) = parse_response text

pub record Endpoint : Type 0 where
  pub hostname : Text
  pub port : ℕ
  pub host_header : Text
  pub use_tls : Bool

-- The text of a request.
abbrev pub body_part : Option Text → Text
body_part none = line_end
body_part (some body) =
    codes "Content-Type: application/json"
    ++ (line_end
        ++ (codes "Content-Length: "
            ++ (to_string (byte_len body) ++ (line_end ++ (line_end ++ body)))))

unfoldable pub request_text : Text → Text → Text → Option Text → Text
request_text method path host body =
    method
    ++ (space ∷ path
        ++ (codes " HTTP/1.1"
            ++ (line_end
                ++ (codes "Host: "
                    ++ (host
                        ++ (line_end
                            ++ (codes "Connection: close" ++ (line_end ++ body_part body))))))))

-- `scheme` to the use of TLS.
abbrev pub tls_of : Text → Option Bool
tls_of scheme =
    if text_eq scheme (codes "http")
    then some false
    else if text_eq scheme (codes "https")
    then some true
    else none

abbrev pub or_bad {ℓ} :
    {IoError : Type 0} {A : Type ℓ} → Text → Text → Option A → Result (RvError IoError) A
or_bad url reason none = err (bad_url url reason)
or_bad url reason (some a) = ok a

abbrev pub host_with : Text → Option ℕ → Text
host_with hostname none = hostname
host_with hostname (some p) = hostname ++ (b':' ∷ to_string p)

module _ {IoError : Type 0} (backend : Backend IoError) where
  abbrev pub Answer {ℓ} : Type ℓ → Type ℓ
  Answer A = Result (RvError IoError) A

  abbrev pub with_url : Result Text Url → Answer Endpoint
  with_url (err source) = err (bad_url backend.base source)
  with_url (ok url) =
      or_bad backend.base
        (codes "unsupported scheme "
          ++ (backend.quoted url.scheme ++ codes " (http or https only)"))
        (tls_of url.scheme)
      >>= λ use_tls. or_bad backend.base (codes "missing host") url.host >>= λ hostname.
          or_bad backend.base (codes "missing port") url.known_port >>= λ port. ok (record {
            hostname = hostname;
            port = port;
            host_header = host_with hostname url.port;
            use_tls = use_tls;
          })

  -- `HttpBackend::endpoint`
  unfoldable pub endpoint : Answer Endpoint
  endpoint = with_url (backend.parse_url backend.base)

  -- `HttpBackend::request`, of which `request_inner` is the part within the time.
  unfoldable pub request : Text → Text → Option Text → Answer (ℕ × Text)
  request method path body = endpoint >>= λ e.
      on_exchanged
        (backend.exchange e.hostname e.port e.use_tls (request_text method path e.host_header body))

  abbrev pub parsed {ℓ} : {A : Type ℓ} → Text → Text → Option A → Answer A
  parsed kind body none = err (parse kind body)
  parsed kind body (some a) = ok a

  abbrev pub if_status {ℓ} : {A : Type ℓ} → ℕ → (Text → Answer A) → ℕ × Text → Answer A
  if_status wanted next (status, body) =
      if status == wanted then next body else err (http status body)

  abbrev pub pair_path : ℕ → Text → Text
  pair_path nameplate end = codes "/v1/pairs/" ++ (to_string nameplate ++ end)

  -- `HttpBackend::allocate`
  unfoldable pub allocate : Text → Answer Allocation
  allocate ticket =
      request (codes "POST") (codes "/v1/pairs") (some (backend.bodies.ticket_body ticket))
      >>= if_status 201 (λ body. parsed (codes "allocate") body (backend.bodies.allocation body))

  -- `HttpBackend::claim`
  unfoldable pub claim : ℕ → Text → Answer Text
  claim nameplate words =
      request (codes "POST") (pair_path nameplate (codes "/claim")) none
      >>= if_status 200 (λ body. parsed (codes "claim") body (backend.bodies.claimed_ticket body))

  abbrev pub state_in : Text → Text → Answer PairState
  state_in body value = parsed (codes "status state") body (from_str value)

  -- `HttpBackend::status`
  unfoldable pub status : ℕ → Answer PairState
  status nameplate =
      request (codes "GET") (pair_path nameplate (codes "/status")) none
      >>= if_status 200
          (λ body. parsed (codes "status") body (backend.bodies.state body) >>= state_in body)

  abbrev pub healthy : ℕ × Text → Answer (Unit {0})
  healthy (status, body) =
      if status == 200 && text_eq (trim body) (codes "ok") then ok tt else err (http status body)

  -- `HttpBackend::health`
  unfoldable pub health : Answer (Unit {0})
  health = request (codes "GET") (codes "/health") none >>= healthy

  -- `HttpBackend::publish` and `cleanup` do nothing.
  abbrev pub publish : Text → ℕ → Text → Answer (Unit {0})
  publish ticket nameplate words = ok tt

  abbrev pub cleanup : ℕ → Text → Answer (Unit {0})
  cleanup nameplate words = ok tt
