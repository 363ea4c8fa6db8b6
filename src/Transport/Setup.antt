-- ===== src/Transport/Setup.antt =====
-- transport.New, h3.New and tlsconf.New: the settings that they fill in.
use polymarket_go.Clob.Errors.{failed, GoError}
use polymarket_go.Prelude.Words.{pos, negsuc, ℤ}
use polymarket_go.Transport.Session.{flush, new_store, Files, Store}
use polymarket_go.Prelude.{
  none, [], ◌∷◌, some, zero, err, lit, suc, ok, is_empty, Result, if◌then◌else◌, Bool, false, List,
  ◌*◌, Option, Text, ℕ,
}
use polymarket_go.Clob.Effects.{return, or_wrap, Io, ◌>>=◌}

pub record TlsParams (S K : Type 0) : Type 0 where
  pub server_name : Text
  pub next_protos : List Text
  pub store : Store S
  pub key_log_writer : Option K

pub data TlsVersion : Type 0 where
  tls12 tls13 : TlsVersion

-- The fields of `tls.Config` that are set.
pub record TlsConfig (S K : Type 0) : Type 0 where
  pub server_name : Text
  pub next_protos : List Text
  pub min_version : TlsVersion
  pub max_version : TlsVersion
  pub client_session_cache : Store S
  pub key_log_writer : Option K

-- tlsconf.New.
unfoldable pub new_tls_config : {S K : Type 0} → TlsParams S K → TlsConfig S K
new_tls_config p = record {
  server_name = p.server_name;
  next_protos = p.next_protos;
  min_version = tls13;
  max_version = tls13;
  client_session_cache = p.store;
  key_log_writer = p.key_log_writer;
}

-- `Config` of transport/h3; durations are nanoseconds.
pub record H3Config (S K T : Type 0) : Type 0 where
  pub tls_client_config : Option (TlsConfig S K)
  pub token_store : Option T
  pub keep_alive : ℤ
  pub max_idle : ℤ
  pub handshake_idle : ℤ

pub record QuicConfig (T : Type 0) : Type 0 where
  pub handshake_idle_timeout : ℤ
  pub max_idle_timeout : ℤ
  pub keep_alive_period : ℤ
  pub token_store : Option T
  pub enable_datagrams : Bool

pub record RoundTripper (S K T U : Type 0) : Type 0 where
  pub tls_client_config : TlsConfig S K
  pub quic_config : QuicConfig T
  pub udp : U

abbrev pub second : ℕ
second = 1000000000

-- A duration that is not positive gives way to the default.
abbrev pub or_default : ℤ → ℕ → ℤ
or_default (negsuc n) default = pos default
or_default (pos zero) default = pos default
or_default (pos (suc n)) default = pos (suc n)

-- `Config` of transport.
pub record TransportConfig : Type 0 where
  pub host : Text
  pub port : Text
  pub session_path : Text
  pub dial_timeout : ℤ

pub record Transport (S K T U : Type 0) : Type 0 where
  pub rt : RoundTripper S K T U
  pub store : Store S

-- net.ListenUDP on every address and a free port; quic.NewLRUTokenStore; the ends of an HTTP/3
-- transport, of a QUIC transport and of a socket.
pub record Network (W T U : Type 0) : Type 0 where
  pub listen_udp : Io W U
  pub new_lru_token_store : ℕ → ℕ → T
  pub close_http3 : W → W
  pub close_quic : W → W
  pub close_udp : U → Io W (Unit {0})

-- The port, and the default of the timeout, once they are filled in.
abbrev pub with_defaults : TransportConfig → TransportConfig
with_defaults cfg = record cfg {
  port = if is_empty cfg.port then lit "443" else cfg.port;
  dial_timeout = or_default cfg.dial_timeout (10 * second);
}

module _ {W S K T U : Type 0} (net : Network W T U) where
  abbrev pub quic_config_of : H3Config S K T → QuicConfig T
  quic_config_of cfg = record {
    handshake_idle_timeout = or_default cfg.handshake_idle (5 * second);
    max_idle_timeout = or_default cfg.max_idle (60 * second);
    keep_alive_period = or_default cfg.keep_alive (15 * second);
    token_store = cfg.token_store;
    enable_datagrams = false;
  }

  -- h3.New. `Clone` of a configuration is the configuration.
  unfoldable pub new_round_tripper : H3Config S K T → Io W (RoundTripper S K T U)
  new_round_tripper cfg w = elim cfg.tls_client_config [
    | none ↦ (err (failed (lit "h3: TLSClientConfig required")), w)
    | some tls ↦
        (do
          udp ← net.listen_udp
          return (record {
            tls_client_config = record tls { next_protos = lit "h3" ∷ [] };
            quic_config = quic_config_of cfg;
            udp = udp;
          }))
          w
  ]

  -- The HTTP/3 transport, the QUIC transport and the socket, in this order; the error is the socket's.
  unfoldable pub close_round_tripper : RoundTripper S K T U → Io W (Unit {0})
  close_round_tripper r w = net.close_udp r.udp (net.close_quic (net.close_http3 w))

  module _ (fs : Files W) where
    abbrev pub connect : Text → Store S × W → Result GoError (Transport S K T U) × W
    connect host (store, w) =
        (do
          rt ← or_wrap (lit "h3") (
              new_round_tripper (record {
                tls_client_config = some (
                    new_tls_config (record {
                      server_name = host;
                      next_protos = lit "h3" ∷ [];
                      store = store;
                      key_log_writer = none;
                    }));
                token_store = some (net.new_lru_token_store 16 4);
                keep_alive = pos 0;
                max_idle = pos 0;
                handshake_idle = pos 0;
              }))
          return (record { rt = rt; store = store }))
          w

    unfoldable pub new_transport : TransportConfig → Io W (Transport S K T U)
    unfolding new_store new_round_tripper new_tls_config
    new_transport cfg w =
        if is_empty cfg.host
        then (err (failed (lit "transport: Host required")), w)
        else let cfg1 = with_defaults cfg in connect cfg1.host (new_store fs cfg1.session_path w)

    -- Both errors are dropped.
    unfoldable pub close_transport : Transport S K T U → Io W (Unit {0})
    unfolding flush close_round_tripper
    close_transport t w =
        let (closed, v) = close_round_tripper t.rt w in
        let (flushed, store, u) = flush fs t.store v in (ok tt, u)
