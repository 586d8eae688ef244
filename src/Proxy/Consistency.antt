-- ===== src/Proxy/Consistency.antt =====
-- A client reads its own writes through the proxies of http/proxy_server.go.
use litefs.Prelude.{
  ℕ, ◌≤◌, ◌<◌, arith, true, false, not, ◌&&◌, Bool-cases, ◌≡◌, refl, sym, ap, subst, inl, inr, ◌∙◌,
  ◌≢◌, Option, none, some, List, [], ◌∷◌, ◌==◌, ==_ne, leb, if◌then◌else◌,
}
use litefs.Proxy.{
  Request, TargetResponse, proxied, gateway_timeout, ProxyServer, Meets, is_passthrough,
  proxy_to_target, wait_txid, serve_get, serve_non_get, serve_http, at_database, after_wait,
  client_txid, proxy_response, txid_cookie, to_primary,
}

-- How the wait ends: at the first position that has the transaction, or after positions that lack it.
pub data Waited (txid : ℕ) : ℕ → List ℕ → Option ℕ → Type 0 where
  caught_up : {pos : ℕ} {polls : List ℕ} → txid ≤ pos → Waited txid pos polls (some pos)
  timed_out : {pos : ℕ} → pos < txid → Waited txid pos [] none
  later :
      {pos next : ℕ} {polls : List ℕ} {r : Option ℕ}
      → pos < txid
      → Waited txid next polls r
      → Waited txid pos (next ∷ polls) r

wait_txid-Waited :
    (txid pos : ℕ) (polls : List ℕ) → Waited txid pos polls (wait_txid txid pos polls)
wait_txid-Waited txid pos [] = elim (Bool-cases (leb txid pos)) [
  | inl y ↦
      subst (λ b. Waited txid pos [] (if b then some pos else none)) (sym y)
        (caught_up (ground (arith, y)))
  | inr n ↦
      subst (λ b. Waited txid pos [] (if b then some pos else none)) (sym n)
        (timed_out (ground (arith, n)))
]
wait_txid-Waited txid pos (next ∷ polls) = elim (Bool-cases (leb txid pos)) [
  | inl y ↦
      subst
        (λ b. Waited txid pos (next ∷ polls) (if b then some pos else wait_txid txid next polls))
        (sym y) (caught_up (ground (arith, y)))
  | inr n ↦
      subst
        (λ b. Waited txid pos (next ∷ polls) (if b then some pos else wait_txid txid next polls))
        (sym n) (later (ground (arith, n)) (wait_txid-Waited txid next polls))
]

-- How a read of a client that has seen a transaction ends: the target gets it after a position that
-- has the transaction, or the polls end before.
pub data ReadAt (s : ProxyServer) (r : Request) (m : Meets) (txid pos : ℕ) (polls : List ℕ)
    : Type 0 where
  consistent :
      (at : ℕ)
      → Waited txid pos polls (some at)
      → serve_http s r m ≡ proxy_response none m.target
      → ReadAt s r m txid pos polls
  too_late :
      Waited txid pos polls none → serve_http s r m ≡ gateway_timeout → ReadAt s r m txid pos polls

proxy_to_target-get :
    (s : ProxyServer) (r : Request) (m : Meets)
    → r.is_get ≡ true
    → proxy_to_target s r false m ≡ proxy_response none m.target
unfolding proxy_to_target
proxy_to_target-get s r m g =
    ap (λ b. proxy_response (if true && not b then txid_cookie s m.after else none) m.target) g

proxy_to_target-write :
    (s : ProxyServer) (r : Request) (m : Meets)
    → r.is_get ≡ false
    → proxy_to_target s r false m ≡ proxy_response (txid_cookie s m.after) m.target
unfolding proxy_to_target
proxy_to_target-write s r m g =
    ap (λ b. proxy_response (if true && not b then txid_cookie s m.after else none) m.target) g

serve_http-get :
    (s : ProxyServer) (r : Request) (m : Meets)
    → is_passthrough s r ≡ false
    → r.is_get ≡ true
    → serve_http s r m ≡ serve_get s r m
unfolding serve_http
serve_http-get s r m p g =
    ap
      (λ b.
        if b
        then proxy_to_target s r true m
        else if r.is_get
        then serve_get s r m
        else serve_non_get s r m)
      p
    ∙ ap (λ b. if b then serve_get s r m else serve_non_get s r m) g

serve_http-write :
    (s : ProxyServer) (r : Request) (m : Meets)
    → is_passthrough s r ≡ false
    → r.is_get ≡ false
    → m.is_primary ≡ true
    → serve_http s r m ≡ proxy_response (txid_cookie s m.after) m.target
unfolding serve_http serve_non_get
serve_http-write s r m p g primary =
    ap
      (λ b.
        if b
        then proxy_to_target s r true m
        else if r.is_get
        then serve_get s r m
        else serve_non_get s r m)
      p
    ∙ ap (λ b. if b then serve_get s r m else serve_non_get s r m) g
    ∙ ap (λ b. if b then proxy_to_target s r false m else to_primary s r m m.info) primary
    ∙ proxy_to_target-write s r m g

-- A GET request whose cookie has a TXID, at a node with the database.
serve_http-ReadAt :
    (s : ProxyServer) (r : Request) (m : Meets) (txid pos : ℕ) (polls : List ℕ)
    → is_passthrough s r ≡ false
    → r.is_get ≡ true
    → client_txid s r.cookie ≡ txid
    → txid ≢ 0
    → m.polls ≡ some (pos, polls)
    → ReadAt s r m txid pos polls
unfolding serve_get
serve_http-ReadAt s r m txid pos polls p g c nz d =
    ends (wait_txid txid pos polls) refl (wait_txid-Waited txid pos polls)
  where
    waits : serve_http s r m ≡ after_wait s r m (wait_txid txid pos polls)
    waits =
        serve_http-get s r m p g
        ∙ ap (λ t. if t == 0 then proxy_to_target s r false m else at_database s r m t m.polls) c
        ∙ ap (λ b. if b then proxy_to_target s r false m else at_database s r m txid m.polls)
            (==_ne txid 0 nz)
        ∙ ap (λ o. at_database s r m txid o) d

    ends :
        (o : Option ℕ)
        → wait_txid txid pos polls ≡ o
        → Waited txid pos polls o
        → ReadAt s r m txid pos polls
    ends none e w = too_late w (waits ∙ ap (after_wait s r m) e)
    ends (some at) e w =
        consistent at w (waits ∙ ap (after_wait s r m) e ∙ proxy_to_target-get s r m g)

-- A write that the proxy of the primary passes to its target sets a cookie, if the target responds;
-- a GET request with this cookie is passed to the target of another node with the database only
-- after a position that has the TXID of the database after the write, and times out otherwise.
-- Neither request matches a passthrough expression, and ParseTXID reads the TXID, which is not 0,
-- that FormatTXID wrote.
pub read_your_writes :
    (primary replica : ProxyServer) (write read : Request) (there here : Meets)
    (resp : TargetResponse) (txid pos : ℕ) (polls : List ℕ)
    → is_passthrough primary write ≡ false
    → write.is_get ≡ false
    → there.is_primary ≡ true
    → there.target ≡ some resp
    → there.after ≡ some txid
    → txid ≢ 0
    → is_passthrough replica read ≡ false
    → read.is_get ≡ true
    → read.cookie ≡ some (primary.format_txid txid)
    → replica.parse_txid (primary.format_txid txid) ≡ txid
    → here.polls ≡ some (pos, polls)
    → (serve_http primary write there ≡ proxied (read.cookie) resp)
      × ReadAt replica read here txid pos polls
read_your_writes primary replica write read there here resp txid pos polls pw gw pr tr af nz pg gg
      ck parses po =
    (
      serve_http-write primary write there pw gw pr
          ∙ ap (λ o. proxy_response (txid_cookie primary o) there.target) af
          ∙ ap (λ o. proxy_response (some (primary.format_txid txid)) o) tr
          ∙ ap (λ o. proxied o resp) (sym ck),
      serve_http-ReadAt replica read here txid pos polls pg gg
          (ap (client_txid replica) ck ∙ parses) nz po,
    )
