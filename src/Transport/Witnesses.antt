-- ===== src/Transport/Witnesses.antt =====
-- The theorem of the session store at a file system on which every write fails.
use polymarket_go.Clob.Errors.{failed}
use polymarket_go.Transport.SessionLaws.{
  run_refines, flush_op, put_op, run, get_op, StoreOp, replay,
}
use polymarket_go.Prelude.{ok, suc, [], none, some, ◌≡◌, ◌∷◌, lit, err, text_eq, ℕ, List}
use polymarket_go.Transport.Session.{new_store, Files}

abbrev failing_disk : Files ℕ
failing_disk = record {
  dir = λ path. path;
  mkdir_all = λ path w. (err (failed (lit "read-only")), suc w);
  create_temp = λ dir pattern w. (ok pattern, suc w);
  open_file = λ path w. (ok path, suc w);
  close = λ file w. suc w;
  remove = λ file w. suc w;
  rename = λ from to w. (ok tt, suc w);
  encode_keys = λ file keys w. (ok tt, suc w);
  decode_keys = λ file w. (ok (lit "b" ∷ []), suc w);
  range_order = λ keys w. (keys, w);
  now = λ w. (w, suc w);
}

-- The key b, which the file holds, has no session.
abbrev requests : List (StoreOp ℕ)
requests =
    get_op (lit "b")
    ∷ put_op (lit "a") (some 5)
    ∷ flush_op
    ∷ get_op (lit "a")
    ∷ put_op (lit "a") none
    ∷ get_op (lit "a")
    ∷ []

run_refines_example :
    (let (s, v) = new_store failing_disk (lit "sessions") 0 in run failing_disk requests s v)
    ≡ none ∷ some 5 ∷ none ∷ []
unfolding replay text_eq
run_refines_example = run_refines failing_disk (lit "sessions") requests 0
