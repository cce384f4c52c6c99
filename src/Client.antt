-- ===== src/Client.antt =====
-- The rendezvous client of the command line, crates/cli/src/rendezvous_client.rs: errors, the parts of
-- a URL, and the choice of a backend. The URL library is a parameter.
pub mod Http
pub mod Mqtt
pub mod Dispatch
use worddrop.Base.Decimal.{to_string}
use worddrop.Base.{
  ℕ, Option, none, some, Bool, true, false, ◌||◌, Text, codes, text_eq, Result, ok, err,
  if◌then◌else◌, ◌++◌,
}

pub record Allocation : Type 0 where
  pub nameplate : ℕ
  pub expires_at : ℕ

-- `PairState`
pub data PairState : Type 0 where
  pending claimed expired : PairState

-- `PairState::from_str`
unfoldable pub from_str : Text → Option PairState
from_str value =
    if text_eq value (codes "pending")
    then some pending
    else if text_eq value (codes "claimed")
    then some claimed
    else if text_eq value (codes "expired")
    then some expired
    else none

-- `RvError`
pub data RvError (IoError : Type 0) : Type 0 where
  http : ℕ → Text → RvError IoError
  io : IoError → RvError IoError
  bad_url : Text → Text → RvError IoError
  tls mqtt invalid_ticket unimplemented : Text → RvError IoError
  timeout : RvError IoError
  parse : Text → Text → RvError IoError

-- What `Url::parse` gives: `port` is the port that is written, and `known_port` that or the default
-- of the scheme.
pub record Url : Type 0 where
  pub scheme : Text
  pub host : Option Text
  pub port : Option ℕ
  pub known_port : Option ℕ

abbrev pub UrlParser : Type 0
UrlParser = Text → Result Text Url

-- `Backend`
pub data Backend : Type 0 where
  http_backend mqtt_backend : Text → Backend
  invalid : Text → Backend

pub record RvClient : Type 0 where
  pub base : Text
  pub backend : Backend

abbrev pub is_http : Text → Bool
is_http scheme = text_eq scheme (codes "http") || text_eq scheme (codes "https")

abbrev pub is_mqtt : Text → Bool
is_mqtt scheme = text_eq scheme (codes "mqtt") || text_eq scheme (codes "mqtts")

-- `{scheme:?}` is the parameter `quoted`.
abbrev pub by_scheme : (Text → Text) → Text → Text → Backend
by_scheme quoted base scheme =
    if is_http scheme
    then http_backend base
    else if is_mqtt scheme
    then mqtt_backend base
    else invalid (
        codes "unsupported scheme "
        ++ (quoted scheme ++ codes " (http, https, mqtt or mqtts only)"))

abbrev pub choose : (Text → Text) → Text → Result Text Url → Backend
choose quoted base (ok url) = by_scheme quoted base url.scheme
choose quoted base (err source) = invalid (codes "cannot parse as a URL: " ++ source)

-- `RvClient::new`
unfoldable pub new : UrlParser → (Text → Text) → Text → RvClient
new parse_url quoted base = record { base = base; backend = choose quoted base (parse_url base) }

-- In seconds.
abbrev pub request_timeout : ℕ
request_timeout = 15

abbrev pub with_detail : Text → Text → Text → Text
with_detail chinese english detail =
    chinese ++ (codes ": " ++ (detail ++ (codes " / " ++ (english ++ (codes ": " ++ detail)))))

-- `Display` of an `RvError`; that of an `io::Error` is a parameter.
unfoldable pub show : {IoError : Type 0} → (IoError → Text) → RvError IoError → Text
show show_io (http status body) =
    codes "服务器返回 "
    ++ (to_string status
        ++ (codes ": "
            ++ (body
                ++ (codes " / rendezvous HTTP " ++ (to_string status ++ (codes ": " ++ body))))))
show show_io (io e) = codes "服务器连接错误 / rendezvous io error: " ++ show_io e
show show_io (bad_url url reason) =
    codes "服务器地址无效 "
    ++ (url
        ++ (codes ": "
            ++ (reason ++ (codes " / invalid rendezvous URL " ++ (url ++ (codes ": " ++ reason))))))
show show_io (tls detail) =
    with_detail (codes "TLS 握手失败") (codes "rendezvous TLS handshake failed") detail
show show_io (mqtt detail) = with_detail (codes "MQTT 错误") (codes "MQTT error") detail
show show_io (invalid_ticket detail) = with_detail (codes "配对凭证无效") (codes "invalid ticket") detail
show show_io timeout =
    codes "服务器请求超时（"
    ++ (to_string request_timeout
        ++ (codes " 秒） / rendezvous request timed out after "
            ++ (to_string request_timeout ++ codes "s")))
show show_io (parse kind body) =
    codes "解析 "
    ++ (kind ++ (codes " 响应失败 / failed to parse " ++ (kind ++ (codes " response: " ++ body))))
show show_io (unimplemented detail) =
    with_detail (codes "该后端暂未实现") (codes "this backend is not implemented yet") detail
