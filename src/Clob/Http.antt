-- ===== src/Clob/Http.antt =====
-- Signed requests of the trading client: `L2Headers` (clob/auth.go) and `doRequest` (clob/client.go).
use polymarket_go.Clob.Types.{ApiCreds}
use polymarket_go.Prelude.{
  none, some, Option, ℕ, List, [], ◌∷◌, ◌++◌, Text, lit, text_eq, Result, ok, err, if◌then◌else◌,
  ◌==◌,
}
use polymarket_go.Prelude.Strings.{decimal}
use polymarket_go.Clob.Errors.{panicked, GoError, context_done, failed, wrapped}
use polymarket_go.Clob.Deps.{Deps, Response}
use polymarket_go.Clob.Auth.{build_hmac_signature}
use polymarket_go.Clob.Orders.Build.{Client}
use polymarket_go.Clob.Effects.{◌>>=◌, Io, lift, or_wrap}

-- The path before the first question mark.
unfoldable pub sign_path : Text → Text
sign_path [] = []
sign_path (c ∷ s) = if c == b'?' then [] else c ∷ sign_path s

module _ {W : Type 0} (d : Deps W) (c : Client) where
  unfoldable pub l2_headers : ApiCreds → Text → Text → Text → Io W (List (Text × Text))
  l2_headers creds method path body w =
      let (now, w1) = d.now_unix w in
      let timestamp = decimal now in
      elim (build_hmac_signature d creds.api_secret timestamp method path body) [
        | err e ↦ (err e, w1)
        | ok sig ↦ (
          ok (
              (lit "POLY_ADDRESS", d.address_hex c.address)
              ∷ (lit "POLY_SIGNATURE", sig)
              ∷ (lit "POLY_TIMESTAMP", timestamp)
              ∷ (lit "POLY_API_KEY", creds.api_key)
              ∷ (lit "POLY_PASSPHRASE", creds.api_passphrase)
              ∷ []),
          w1,
        )
      ]

  -- The body, unpacked where it is gzip.
  unfoldable pub read_response : Response → Result GoError Text
  read_response resp =
      if resp.gzipped
      then elim resp.body [
        | err e ↦ err (wrapped (lit "gzip reader") e)
        | ok raw ↦ elim (d.gunzip raw) [
          | err e ↦ err (wrapped (lit "gzip reader") e)
          | ok (err e) ↦ err (wrapped (lit "read body") e)
          | ok (ok text) ↦ ok text
        ]
      ]
      else elim resp.body [ err e ↦ err (wrapped (lit "read body") e) | ok text ↦ ok text ]

  unfoldable pub check_status : Text → Text → ℕ → Text → Result GoError Text
  check_status method path status body =
      if status == 200
      then ok body
      else err (
          failed (
            lit "CLOB "
            ++ (method
                ++ (lit " "
                    ++ (path ++ (lit " returned " ++ (decimal status ++ (lit ": " ++ body))))))))

  abbrev pub fixed_headers : Text → List (Text × Text)
  fixed_headers method =
      (lit "Content-Type", lit "application/json")
      ∷ (lit "Accept", lit "*/*")
      ∷ (lit "User-Agent", lit "go_clob_client")
      ∷ (if text_eq method (lit "GET") then (lit "Accept-Encoding", lit "gzip") ∷ [] else [])

  -- The request itself: sent, read, and its status checked.
  unfoldable pub exchange : Text → Text → Text → List (Text × Text) → Io W Text
  exchange method path body headers = do
    req ← or_wrap (lit "create request") (
        lift (
          d.new_request (record {
            method = method;
            url = c.host ++ path;
            headers = headers ++ fixed_headers method;
            body = body;
          })))
    resp ← d.http_do req
    text ← lift (read_response resp)
    lift (check_status method path resp.status text)

  -- What follows the headers. Without credentials `L2Headers` panics, after it has read the clock.
  unfoldable pub send_signed : Option ApiCreds → Text → Text → Text → Io W Text
  unfolding l2_headers exchange
  send_signed none method path body w = (err panicked, (d.now_unix w).1)
  send_signed (some creds) method path body w =
      (or_wrap (lit "build L2 headers") (l2_headers creds method (sign_path path) body)
          >>= exchange method path body)
        w

  -- `doRequest` with a body that is already marshalled; no body is the empty text.
  unfoldable pub do_request : Text → Text → Text → Io W Text
  unfolding send_signed
  do_request method path body w =
      if d.cancelled w then (err context_done, w) else send_signed c.creds method path body w
