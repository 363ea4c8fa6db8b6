-- ===== src/Clob/Errors.antt =====
-- Errors of the on-chain client: the sentinels and `RelayerError` of clob/relayer.go, and the
-- preflight report of clob/onchain.go that an error carries.
use polymarket_go.Prelude.{ℕ, Bool, true, false, ◌||◌, [], ◌++◌, Option, none, some, Text, lit}
use polymarket_go.Prelude.Strings.{decimal, decimal_int}
use polymarket_go.Prelude.Words.{ℤ}

-- The sentinel errors.
pub data ErrorKind : Type 0 where
  batch_too_large relayer_guard_gas estimate_reverted inner_relayed_call_failed : ErrorKind
  relayer_rate_limited : ErrorKind

abbrev pub kind_eq : ErrorKind → ErrorKind → Bool
kind_eq batch_too_large batch_too_large = true
kind_eq relayer_guard_gas relayer_guard_gas = true
kind_eq estimate_reverted estimate_reverted = true
kind_eq inner_relayed_call_failed inner_relayed_call_failed = true
kind_eq relayer_rate_limited relayer_rate_limited = true
kind_eq _ _ = false

unfoldable pub kind_text : ErrorKind → Text
kind_text batch_too_large = lit "relayer batch too large"
kind_text relayer_guard_gas = lit "relayer guard gas"
kind_text estimate_reverted = lit "relayer estimate reverted"
kind_text inner_relayed_call_failed = lit "relayer inner call failed"
kind_text relayer_rate_limited = lit "relayer rate limited"

pub record TxPreflightReport : Type 0 where
  pub ops : ℕ
  pub proxy_wallet : Text
  pub relay : Text
  pub nonce : Text
  pub outer_gas_limit : ℕ
  pub inner_gas_estimate : ℕ
  pub gas_margin : ℕ
  pub signed_gas_limit : ℕ
  pub relay_call_intrinsic_gas : ℕ
  pub approx_max_signed_gas : ℕ
  pub approx_guard_headroom : ℤ
  pub encoded_function_bytes : ℕ
  pub relay_call_bytes : ℕ
  pub relay_hub_simulation_ok : Bool

-- `FitsRelayGuard`.
unfoldable pub fits_relay_guard : TxPreflightReport → Bool
fits_relay_guard r = r.relay_hub_simulation_ok

-- A value of Go's `error` that is not nil: a cancelled context; a panic, which is no error value, as
-- the call does not return; an error of a library or of `fmt.Errorf`, by its text; one of
-- `fmt.Errorf("…: %w", err)`; and a `*RelayerError` whose `Err` is set, or nil.
pub data GoError : Type 0 where
  context_done : GoError
  panicked : GoError
  failed : Text → GoError
  wrapped : Text → GoError → GoError
  relayer : ErrorKind → Option TxPreflightReport → GoError → GoError
  relayer_alone : ErrorKind → Option TxPreflightReport → GoError

-- The bracket that a report adds to the message.
unfoldable pub report_text : TxPreflightReport → Text
unfolding decimal decimal_int
report_text r =
    lit " (ops="
    ++ decimal r.ops
    ++ lit " estimate="
    ++ decimal r.inner_gas_estimate
    ++ lit " signed_gas="
    ++ decimal r.signed_gas_limit
    ++ lit " outer_gas="
    ++ decimal r.outer_gas_limit
    ++ lit " approx_max="
    ++ decimal r.approx_max_signed_gas
    ++ lit " guard_headroom="
    ++ decimal_int r.approx_guard_headroom
    ++ lit ")"

unfoldable pub report_suffix : Option TxPreflightReport → Text
unfolding report_text
report_suffix none = []
report_suffix (some report) = report_text report

-- `Error()`.
unfoldable pub message : GoError → Text
unfolding kind_text report_suffix
message context_done = lit "context canceled"
message panicked = []
message (failed t) = t
message (wrapped t e) = t ++ lit ": " ++ message e
message (relayer k r e) = kind_text k ++ (lit ": " ++ (message e ++ report_suffix r))
message (relayer_alone k r) = kind_text k ++ report_suffix r

-- `errors.Is(err, target)` at a sentinel, by `Unwrap` and `RelayerError.Is`.
unfoldable pub is_error : GoError → ErrorKind → Bool
is_error context_done target = false
is_error panicked target = false
is_error (failed t) target = false
is_error (wrapped t e) target = is_error e target
is_error (relayer k r e) target = kind_eq target k || is_error e target
is_error (relayer_alone k r) target = kind_eq target k
