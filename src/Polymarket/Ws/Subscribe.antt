-- ===== src/Polymarket/Ws/Subscribe.antt =====
-- The subscription of the market feed (polymarket/ws.go): `batchStrings` and the messages of `Run`.
use polymarket_go.Prelude.{
  ℕ, zero, suc, Bool, true, false, ◌≤◌, ◌<◌, ◌≡◌, refl, List, [], ◌∷◌, ◌++◌, Text, lit, length,
  take, drop, All, map, take-append-drop, length-take, length-drop, arith, ap, ◌∙◌,
}

pub record MarketSubscribe : Type 0 where
  pub assets_ids : List Text
  pub type : Text
  pub operation : Text
  pub initial_dump : Bool
  pub level : ℕ
  pub custom_feature_enabled : Bool

-- The loop, with the number of strings left as its fuel.
unfoldable pub batches_from : ℕ → List Text → ℕ → List (List Text)
batches_from fuel [] size = []
batches_from zero (x ∷ xs) size = []
batches_from (suc fuel) (x ∷ xs) size =
    take size (x ∷ xs) ∷ batches_from fuel (drop size (x ∷ xs)) size

unfoldable pub batch_strings : List Text → ℕ → List (List Text)
unfolding batches_from
batch_strings s size = batches_from (length s) s size

unfoldable pub batch_message : Text → List Text → MarketSubscribe
batch_message operation batch = record {
  assets_ids = batch;
  type = lit "market";
  operation = operation;
  initial_dump = true;
  level = 2;
  custom_feature_enabled = true;
}

-- All but the first name the operation.
unfoldable pub subscribe_messages : List (List Text) → List MarketSubscribe
unfolding batch_message
subscribe_messages [] = []
subscribe_messages (b ∷ bs) = batch_message [] b ∷ map (batch_message (lit "subscribe")) bs

-- `SubscribeTokens` and `UnsubscribeTokens` on a connection; without one nothing is sent.
unfoldable pub token_message : Bool → Text → List Text → List MarketSubscribe
token_message false operation ids = []
token_message true operation ids =
    record {
      assets_ids = ids;
      type = lit "market";
      operation = operation;
      initial_dump = false;
      level = 0;
      custom_feature_enabled = false;
    }
    ∷ []

unfoldable pub run_messages : List Text → List MarketSubscribe
unfolding batch_strings subscribe_messages
run_messages token_ids = subscribe_messages (batch_strings token_ids 100)

abbrev pub concat : List (List Text) → List Text
concat [] = []
concat (b ∷ bs) = b ++ concat bs

batches_from-concat :
    (fuel : ℕ) (s : List Text) (size : ℕ)
    → 0 < size
    → length s ≤ fuel
    → concat (batches_from fuel s size) ≡ s
unfolding batches_from
batches_from-concat fuel [] size p h = refl
batches_from-concat zero (x ∷ xs) size p h = ground arith
batches_from-concat (suc fuel) (x ∷ xs) (suc size) p h =
    rw
      (batches_from-concat fuel (drop size xs) (suc size) p (omega (arith, length-drop size xs, h)))
      (take-append-drop (suc size) (x ∷ xs))
batches_from-concat (suc fuel) (x ∷ xs) zero p h = ground arith

-- The batches of a positive size, one after the other, are the strings.
pub batch_strings-concat : (s : List Text) (size : ℕ) → 0 < size → concat (batch_strings s size) ≡ s
unfolding batch_strings
batch_strings-concat s size p = batches_from-concat (length s) s size p (omega arith)

abbrev pub IsBatch : ℕ → List Text → Type 0
IsBatch size b = (0 < length b) × (length b ≤ size)

batches_from-IsBatch :
    (fuel : ℕ) (s : List Text) (size : ℕ) → 0 < size → All (IsBatch size) (batches_from fuel s size)
unfolding batches_from
batches_from-IsBatch fuel [] size p = tt
batches_from-IsBatch zero (x ∷ xs) size p = tt
batches_from-IsBatch (suc fuel) (x ∷ xs) size p = (
  (omega (arith, length-take size (x ∷ xs)), omega (arith, length-take size (x ∷ xs))),
  batches_from-IsBatch fuel (drop size (x ∷ xs)) size p,
)

abbrev pub ids_of : List MarketSubscribe → List Text
ids_of [] = []
ids_of (m ∷ ms) = m.assets_ids ++ ids_of ms

map-ids_of : (op : Text) (bs : List (List Text)) → ids_of (map (batch_message op) bs) ≡ concat bs
unfolding batch_message
map-ids_of op [] = refl
map-ids_of op (b ∷ bs) = ap (λ l. b ++ l) (map-ids_of op bs)

subscribe_messages-ids_of : (bs : List (List Text)) → ids_of (subscribe_messages bs) ≡ concat bs
unfolding subscribe_messages
subscribe_messages-ids_of [] = refl
subscribe_messages-ids_of (b ∷ bs) = ap (λ l. b ++ l) (map-ids_of (lit "subscribe") bs)

abbrev pub IsMessage : MarketSubscribe → Type 0
IsMessage m = IsBatch 100 m.assets_ids × (m.initial_dump ≡ true)

map-IsMessage :
    (op : Text) (bs : List (List Text))
    → All (IsBatch 100) bs
    → All IsMessage (map (batch_message op) bs)
unfolding batch_message
map-IsMessage op [] h = tt
map-IsMessage op (b ∷ bs) h = ((h.0, refl), map-IsMessage op bs h.1)

subscribe_messages-IsMessage :
    (bs : List (List Text)) → All (IsBatch 100) bs → All IsMessage (subscribe_messages bs)
unfolding subscribe_messages
subscribe_messages-IsMessage [] h = tt
subscribe_messages-IsMessage (b ∷ bs) h = ((h.0, refl), map-IsMessage (lit "subscribe") bs h.1)

-- The messages that a connection is opened with subscribe to every token, in order and once each, in
-- messages of one to a hundred tokens that ask for the initial dump.
pub run_messages_cover :
    (token_ids : List Text)
    → (ids_of (run_messages token_ids) ≡ token_ids) × All IsMessage (run_messages token_ids)
unfolding run_messages batch_strings
run_messages_cover token_ids = (
  subscribe_messages-ids_of (batch_strings token_ids 100)
      ∙ batch_strings-concat token_ids 100 (omega arith),
  subscribe_messages-IsMessage (batch_strings token_ids 100)
      (batches_from-IsBatch (length token_ids) token_ids 100 (omega arith)),
)
