-- ===== src/Proxy/Examples.antt =====
-- A client writes at the primary, and reads at a replica that lacks the transaction at the first
-- poll.
use litefs.Prelude.{ℕ, ◌≡◌, ◌≢◌, refl, true, false, none, some, List, [], ◌∷◌}
use litefs.Proxy.{
  Request, TargetResponse, proxied, gateway_timeout, ProxyServer, Meets, is_passthrough, serve_http,
  serve_get, proxy_to_target,
}
use litefs.Proxy.Consistency.{ReadAt, read_your_writes}

abbrev parse : List ℕ → ℕ
parse [] = 0
parse (txid ∷ rest) = txid

abbrev proxy : ProxyServer
proxy = record { passthroughs = []; parse_txid = parse; format_txid = λ txid. txid ∷ [] }

abbrev write : Request
write = record { is_get = false; path = 47 ∷ []; cookie = none }

abbrev read : Request
read = record { is_get = true; path = 47 ∷ []; cookie = some (5 ∷ []) }

abbrev response : TargetResponse
response = record { status = 200; headers = []; body = 1 ∷ [] }

-- The database of the primary is at transaction 5 after the write.
abbrev at_primary : Meets
at_primary = record {
  is_primary = true;
  info = none;
  polls = some (4, []);
  target = some response;
  after = some 5;
}

abbrev at_replica : Meets
at_replica = record {
  is_primary = false;
  info = some (9 ∷ []);
  polls = some (4, 5 ∷ []);
  target = some response;
  after = some 5;
}

not_zero : ◌≢◌ {A = ℕ} 5 0
not_zero = λ e. absurd (cc e)

no_passthrough : (r : Request) → is_passthrough proxy r ≡ false
unfolding is_passthrough
no_passthrough r = refl

read_your_writes_example :
    (serve_http proxy write at_primary ≡ proxied (some (5 ∷ [])) response)
    × ReadAt proxy read at_replica 5 4 (5 ∷ [])
read_your_writes_example =
    read_your_writes proxy proxy write read at_primary at_replica response 5 4 (5 ∷ [])
      (no_passthrough write) refl refl refl refl not_zero (no_passthrough read) refl refl refl refl

caught_up : serve_http proxy read at_replica ≡ proxied none response
unfolding is_passthrough serve_http serve_get proxy_to_target
caught_up = refl

too_late : serve_http proxy read (record at_replica { polls = some (3, 4 ∷ []) }) ≡ gateway_timeout
unfolding is_passthrough serve_http serve_get proxy_to_target
too_late = refl
