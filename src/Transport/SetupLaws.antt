-- ===== src/Transport/SetupLaws.antt =====
-- What a transport that was made has (transport/transport.go, transport/h3/h3.go).
use polymarket_go.Prelude.Words.{ℤ, pos}
use polymarket_go.Prelude.{
  refl, ◌*◌, inl, ◌∷◌, arith, lit, inr, [], Result-cases, ◌≢◌, ok, Text, ◌≡◌,
}
use polymarket_go.Transport.Session.{new_store, Store, Files}
use polymarket_go.Transport.Setup.{
  second, tls13, Transport, new_tls_config, TransportConfig, new_round_tripper, new_transport,
  Network,
}

module _ {W S K T U : Type 0} (net : Network W T U) (fs : Files W) where
  -- What a transport has, by the host and the store it was made with.
  pub record IsReady (host : Text) (store : Store S) (t : Transport S K T U) : Type 0 where
    pub named : host ≢ []
    pub server : t.rt.tls_client_config.server_name ≡ host
    pub protocol : t.rt.tls_client_config.next_protos ≡ lit "h3" ∷ []
    pub oldest : t.rt.tls_client_config.min_version ≡ tls13
    pub newest : t.rt.tls_client_config.max_version ≡ tls13
    pub cache : t.rt.tls_client_config.client_session_cache ≡ store
    pub flushed : t.store ≡ store
    pub handshake : t.rt.quic_config.handshake_idle_timeout ≡ pos (5 * second)
    pub idle : t.rt.quic_config.max_idle_timeout ≡ pos (60 * second)
    pub alive : t.rt.quic_config.keep_alive_period ≡ pos (15 * second)

  -- A transport that was made speaks HTTP/3 with TLS 1.3 to a host that is not empty, keeps its
  -- TLS sessions in the store that it flushes when it is closed, which starts empty, and has the default
  -- times.
  pub new_transport-IsReady :
      (cfg : TransportConfig) (w v : W) (t : Transport S K T U)
      → new_transport net fs cfg w ≡ (ok t, v)
      → IsReady cfg.host (new_store fs cfg.session_path w).0 t
  unfolding new_transport new_round_tripper new_tls_config
  new_transport-IsReady cfg w v t h =
      let w1 = (new_store {S = S} fs cfg.session_path w).1 in
      elim (Result-cases (net.listen_udp w1).0) [
        | inr (x, e) ↦ absurd (ground arith)
        | inl (udp, e) ↦ record {
          named = ground arith;
          server = ground arith;
          protocol = ground arith;
          oldest = ground arith;
          newest = ground arith;
          cache = ground arith;
          flushed = ground arith;
          handshake = ground arith;
          idle = ground arith;
          alive = ground arith;
        }
      ]

  -- The port and the dial timeout change nothing.
  pub new_transport_unused :
      (cfg : TransportConfig) (port : Text) (timeout : ℤ) (w : W)
      → new_transport {S = S} {K = K} net fs (record cfg { port = port; dial_timeout = timeout }) w
        ≡ new_transport net fs cfg w
  unfolding new_transport
  new_transport_unused cfg port timeout w = refl
