-- ===== src/Clob/Credentials.antt =====
-- API credentials (clob/auth.go) and the constructor of the trading client (clob/client.go). The
-- private key itself is inside `Deps`; here it is its address.

use polymarket_go.Clob.Auth.{sign_clob_auth_message}
use polymarket_go.Prelude.Strings.{trim_right, trim_prefix, to_lower, decimal}
use polymarket_go.Prelude.{
  none, some, if◌then◌else◌, ◌∷◌, ◌==◌, ◌++◌, ℕ, wrap_err, ok, lit, is_empty, err, [], Text, Result,
  List,
}
use polymarket_go.Clob.Errors.{wrapped, failed, GoError}
use polymarket_go.Clob.Orders.Build.{Client}
use polymarket_go.Clob.Types.{ApiCreds}
use polymarket_go.Clob.Deps.{Response, Deps, Address}
use polymarket_go.Clob.Effects.{or_wrap, lift, decode_with, Io, ◌>>=◌}

module _ {W : Type 0} (d : Deps W) where
  unfoldable pub l1_headers : Address → ℕ → ℕ → Io W (List (Text × Text))
  l1_headers address' chain_id nonce w =
      let (timestamp, w1) = d.now_unix w in
      elim (sign_clob_auth_message d address' chain_id timestamp nonce) [
        | err e ↦ (err e, w1)
        | ok sig ↦ (
          ok (
              (lit "POLY_ADDRESS", d.address_hex address')
              ∷ (lit "POLY_SIGNATURE", sig)
              ∷ (lit "POLY_TIMESTAMP", decimal timestamp)
              ∷ (lit "POLY_NONCE", decimal nonce)
              ∷ []),
          w1,
        )
      ]

  -- The decoder of the reply's three fields is a parameter.
  module _ (decode_creds : Text → Result GoError ApiCreds) where
    unfoldable pub read_creds : Text → Response → Result GoError ApiCreds
    read_creds path resp =
        if resp.status == 200
        then wrap_err (wrapped (lit "decode auth response")) (decode_with decode_creds resp.body)
        else err
            (failed (lit "auth endpoint " ++ (path ++ (lit " returned " ++ decimal resp.status))))

    unfoldable pub call_auth_endpoint : Text → Text → Text → Address → ℕ → Io W ApiCreds
    unfolding l1_headers read_creds
    call_auth_endpoint host path method address' chain_id = do
      headers ← l1_headers address' chain_id 0
      req ← or_wrap (lit "create request") (
          lift (
            d.new_request (record {
              method = method;
              url = trim_right b'/' host ++ path;
              headers =
                  headers
                  ++ (lit "Content-Type", lit "application/json") ∷ (lit "Accept", lit "*/*") ∷ [];
              body = [];
            })))
      resp ← d.http_do req
      lift (read_creds path resp)

    -- The second endpoint, where the first failed.
    unfoldable pub or_derive :
        Text → Address → ℕ → Result GoError ApiCreds × W → Result GoError ApiCreds × W
    unfolding call_auth_endpoint
    or_derive host address' chain_id (ok creds, w) = (ok creds, w)
    or_derive host address' chain_id (err e, w) =
        or_wrap (lit "derive api creds")
          (call_auth_endpoint host (lit "/auth/derive-api-key") (lit "GET") address' chain_id) w

    unfoldable pub derive_api_creds : Text → Address → ℕ → Io W ApiCreds
    unfolding or_derive
    derive_api_creds host address' chain_id w =
        or_derive host address' chain_id
          (call_auth_endpoint host (lit "/auth/api-key") (lit "POST") address' chain_id w)

    -- `InitAuth`: the client's credentials are set on success only.
    unfoldable pub init_auth : Client → W → Result GoError (Unit {0}) × Client × W
    init_auth c w = elim (derive_api_creds c.host c.address c.chain_id w).0 [
      | err e ↦ (err e, c, (derive_api_creds c.host c.address c.chain_id w).1)
      | ok creds ↦ (
        ok tt,
        record c { creds = some creds },
        (derive_api_creds c.host c.address c.chain_id w).1,
      )
    ]

  -- `NewClient`; `parse_key` gives the address of a private key. There are no credentials yet.
  unfoldable pub new_client :
      (Text → Result GoError Address) → Text → Text → ℕ → ℕ → Text → Result GoError Client
  new_client parse_key host private_key_hex chain_id sig_type funder_addr =
      elim (parse_key (trim_prefix private_key_hex (lit "0x"))) [
        | err e ↦ err (wrapped (lit "parse private key") e)
        | ok address' ↦ ok (record {
          host = trim_right b'/' host;
          address = address';
          funder = if is_empty funder_addr then address' else d.hex_to_address funder_addr;
          creds = none;
          chain_id = chain_id;
          sig_type = sig_type;
        })
      ]

  unfoldable pub funder_text : Client → Text
  funder_text c = to_lower (d.address_hex c.funder)
