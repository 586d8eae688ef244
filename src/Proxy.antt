-- ===== src/Proxy.antt =====
-- The proxy in front of an application: serveHTTP, serveGet, serveNonGet, proxyToTarget and
-- isPassthrough (http/proxy_server.go). Regular expressions, RoundTrip of net/http, and ParseTXID
-- and FormatTXID of github.com/superfly/ltx are arguments. The positions that the polls read are a
-- list, at whose end the timeout is due.
mod Consistency
mod Examples
use litefs.Prelude.{
  ℕ, Bool, true, false, not, ◌&&◌, Option, none, some, List, [], ◌∷◌, ◌==◌, leb, if◌then◌else◌,
}

pub record Request : Type 0 where
  pub is_get : Bool
  pub path : List ℕ
  pub cookie : Option (List ℕ)

-- http.Response of the target
pub record TargetResponse : Type 0 where
  pub status : ℕ
  pub headers : List (List ℕ × List ℕ)
  pub body : List ℕ

-- What the client receives: the target's response with the cookie that is set, an error, or the
-- header "fly-replay".
pub data Served : Type 0 where
  proxied : Option (List ℕ) → TargetResponse → Served
  bad_gateway : Served
  gateway_timeout : Served
  replayed : List ℕ → Served

-- ProxyServer, with ParseTXID, whose value is used even if it fails, and FormatTXID
pub record ProxyServer : Type 0 where
  pub passthroughs : List (List ℕ → Bool)
  pub parse_txid : List ℕ → ℕ
  pub format_txid : ℕ → List ℕ

-- What the proxy meets while it serves a request: PrimaryInfo; the database's TXID at the first
-- poll and after each tick, if there is a database; the target's response; the TXID after it.
pub record Meets : Type 0 where
  pub is_primary : Bool
  pub info : Option (List ℕ)
  pub polls : Option (ℕ × List ℕ)
  pub target : Option TargetResponse
  pub after : Option ℕ

-- func (s *ProxyServer) isPassthrough(r *http.Request) bool
abbrev pub matches : List (List ℕ → Bool) → List ℕ → Bool
matches [] path = false
matches (re ∷ res) path = if re path then true else matches res path

unfoldable pub is_passthrough : ProxyServer → Request → Bool
is_passthrough s r = matches s.passthroughs r.path

-- The cookie for the TXID of the database, if there is one.
abbrev pub txid_cookie : ProxyServer → Option ℕ → Option (List ℕ)
txid_cookie s none = none
txid_cookie s (some txid) = some (s.format_txid txid)

abbrev pub proxy_response : Option (List ℕ) → Option TargetResponse → Served
proxy_response cookie none = bad_gateway
proxy_response cookie (some resp) = proxied cookie resp

-- func (s *ProxyServer) proxyToTarget(w http.ResponseWriter, r *http.Request, passthrough bool)
unfoldable pub proxy_to_target : ProxyServer → Request → Bool → Meets → Served
proxy_to_target s r passthrough m =
    proxy_response (if not passthrough && not r.is_get then txid_cookie s m.after else none)
      m.target

-- "Wait for database to catch up to TXID.": the position that ends the loop, or the timeout.
abbrev pub wait_txid : ℕ → ℕ → List ℕ → Option ℕ
wait_txid txid pos [] = if leb txid pos then some pos else none
wait_txid txid pos (next ∷ polls) =
    let rest = wait_txid txid next polls in if leb txid pos then some pos else rest

abbrev pub client_txid : ProxyServer → Option (List ℕ) → ℕ
client_txid s none = 0
client_txid s (some value) = s.parse_txid value

abbrev pub after_wait : ProxyServer → Request → Meets → Option ℕ → Served
after_wait s r m none = gateway_timeout
after_wait s r m (some pos) = proxy_to_target s r false m

abbrev pub at_database : ProxyServer → Request → Meets → ℕ → Option (ℕ × List ℕ) → Served
at_database s r m txid none = proxy_to_target s r false m
at_database s r m txid (some (pos, polls)) = after_wait s r m (wait_txid txid pos polls)

-- func (s *ProxyServer) serveGet(w http.ResponseWriter, r *http.Request)
unfoldable pub serve_get : ProxyServer → Request → Meets → Served
unfolding proxy_to_target
serve_get s r m =
    let txid = client_txid s r.cookie in
    if txid == 0 then proxy_to_target s r false m else at_database s r m txid m.polls

abbrev pub to_primary : ProxyServer → Request → Meets → Option (List ℕ) → Served
to_primary s r m none = proxy_to_target s r false m
to_primary s r m (some hostname) = replayed hostname

-- func (s *ProxyServer) serveNonGet(w http.ResponseWriter, r *http.Request)
unfoldable pub serve_non_get : ProxyServer → Request → Meets → Served
unfolding proxy_to_target
serve_non_get s r m = if m.is_primary then proxy_to_target s r false m else to_primary s r m m.info

-- func (s *ProxyServer) serveHTTP(w http.ResponseWriter, r *http.Request)
unfoldable pub serve_http : ProxyServer → Request → Meets → Served
unfolding is_passthrough proxy_to_target serve_get serve_non_get
serve_http s r m =
    if is_passthrough s r
    then proxy_to_target s r true m
    else if r.is_get
    then serve_get s r m
    else serve_non_get s r m
