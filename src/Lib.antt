-- ===== src/Lib.antt =====
-- A verification library for polymarket-go, a Go client for Polymarket's order book (package clob),
-- with its feeds and market data (package polymarket) and its HTTP/3 transport (package transport).
--
-- The program. `Client` (clob/client.go) builds orders from options, signs them by EIP-712
-- (clob/auth.go), posts and cancels them by signed HTTP requests, and caches tick sizes
-- (clob/cache.go, clob/prefetch.go). `OnChainClient` (clob/onchain.go) collects operations on
-- positions in a `TxBuilder` and hands the calls to the relayer (clob/relayer.go): the batch is
-- encoded, estimated, given a gas limit, signed, held against the RelayHub's gas guard, simulated,
-- submitted, and polled until it is confirmed. The feeds (polymarket/ws.go, polymarket/userws.go)
-- keep a websocket open by the loop of polymarket/wsconn.go and turn frames into events for
-- callbacks. The scanner (polymarket/scanner.go) reads markets from the Gamma API and finds the index
-- of a question; polymarket/market.go has the fees. transport/transport.go sets up HTTP/3 with the
-- store of TLS sessions of transport/session/store.go.
--
-- The modules:
--   Prelude            bytes and texts, results, lists and machine words
--   Clob.Errors        the sentinels, RelayerError and the preflight report
--   Clob.Deps          what the code takes from go-ethereum, the network, clocks and JSON, as a record
--   Clob.Effects       calls that read and change the world, with their errors
--   Clob.Relayer       Gas, Sign, Preflight, Submit and Poll: clob/relayer.go, each with its laws;
--                      those of Poll stand in PollLaws and WaitLaws
--   Clob.Onchain       Builder, Approval and Setup: clob/onchain.go, each with its laws
--   Clob.Types         clob/types.go; Clob.Json has the decoders of replies as parameters
--   Clob.Auth          clob/auth.go: hashes, signatures, salt and timestamp of an id
--   Clob.Http          `L2Headers` and `doRequest`
--   Clob.Orders        Amounts, Build and Post: the order part of clob/client.go; Clob.Floats has the
--                      operations of float64 and of the decimal library as parameters
--   Clob.Market        `GetTickSize` and its cache, `PrefetchTickSizes` in Prefetch and
--                      `PrefetchFeeRates` in FeeRates
--   Clob.Account       `GetOrders`; Queries and Inventory: the other calls of clob/prefetch.go and
--                      clob/dataapi.go
--   Clob.Credentials   API credentials (clob/auth.go), `NewClient` and `InitAuth` (clob/client.go)
--   Clob.Flex          clob/flex.go; Polymarket.Flex is polymarket/flex.go
--   Polymarket.Ws      Events, Dispatch, Subscribe, Connection and Setup: polymarket/ws.go; Loop and
--                      Deadman: polymarket/wsconn.go
--   Polymarket.UserWs  polymarket/userws.go; its constructor and setters are Polymarket.UserSetup
--   Polymarket.Scanner  Http, Gamma, Index and Rtt: polymarket/scanner.go
--   Polymarket.Market  polymarket/market.go, with Fees and Expiry
--   Transport          Session: transport/session/store.go; Setup: transport/transport.go,
--                      transport/h3/h3.go and transport/tlsconf/tlsconf.go
--   Clob.Fixture       concrete libraries and clients for the modules of witnesses
--
-- How it is modelled. A method that talks to the network is a function of the world that gives a
-- result or an error and the next world; `Deps W` holds the calls on a world of any type W, so a
-- theorem holds for every behaviour of the network, the clock and the context. Bytes are numbers, and
-- addresses, hashes and strings lists of them. An int64 or a uint64 keeps its wrap-around. A `nil`
-- pointer is `none`; a panic is the error `panicked`, which the callers pass on. Callbacks are the
-- list of what they are called with. Names are those of the Go code in another spelling, and long
-- functions are cut into stages that are composed in their order.
--
-- Bounds and fuel. `WaitForConfirmed` loops without a bound and takes fuel; with more fuel than polls
-- after which it goes on it returns (`wait_for_confirmed_first`). `GetOrders` takes fuel too, and as
-- much as there are pages is enough (`get_orders-Pages`), and so does `GetInventory`
-- (`get_inventory-PositionPages`). The search for a gas limit has the twelve rounds of the code, the
-- request with retries its three attempts and `DeriveQuestionIndex` its 256 questions. `batchStrings`
-- takes the number of strings as fuel, which is enough as each batch takes one at least. Theorems on
-- call data ask for fewer than 2 ^ 58 bytes, so that no sum of gas wraps.
--
-- What is not modelled. Logging, but for what `LogRTT` logs; timeouts of single calls and the locks
-- of shared maps: a method is one step. Requests that run in goroutines (the two of a prefetch batch,
-- the twenty of `PrefetchFeeRates`, the first round of `LogRTT`) follow one another, and a request
-- that panics in them for want of credentials counts as one that failed, where the Go program ends.
-- The messages of errors that print addresses, floats or gas figures with `%v`, `%q` or `%f` keep
-- their fixed words only; the messages that the code searches are complete. The nil error and the nil
-- result do not occur as arguments of `RelayerError.Error` and `classifyRelayerFailure`. How a
-- session of the connection loop ends is an input of the loop; the deadman timer, which may end it,
-- is a function of its own. float64, calendars, JSON, gob, TLS and QUIC are parameters. `RoundTrip`
-- and `CloseIdleConnections` of the transports only pass a call on.
mod Prelude
pub mod Clob
pub mod Polymarket
pub mod Transport
