-- ===== src/Clob/Orders/PostLaws.antt =====
-- What is posted for a batch of orders (clob/client.go).
use polymarket_go.Clob.Effects.{annotate-ok, continue-ok}
use polymarket_go.Clob.Http.{do_request}
use polymarket_go.Clob.Orders.Post.{
  owned_request, request_of, post_orders, send_orders, requests_of,
}
use polymarket_go.Clob.Types.{marshal, ApiCreds, PostOrderRequest, SignedOrder, PostOrderArg}
use polymarket_go.Clob.Orders.Build.{Client}
use polymarket_go.Clob.Json.{PostOrderResponse, Json}
use polymarket_go.Clob.Deps.{Deps}
use polymarket_go.Prelude.{
  ◌∙◌, lit, refl, inr, inl, Result-cases, none, ltb, subst, Bool-cases, arith, ◌≤◌, ok, ◌∷◌, some,
  length, [], ◌≡◌, Option, List, Text,
}

module _ {W : Type 0} (d : Deps W) (j : Json) (c : Client) where
  -- The request that carries one order: it is signed and not nil, the owner is the client's key, and
  -- the type and the flags are those of the argument.
  pub record IsRequestFor (arg : PostOrderArg) (r : PostOrderRequest) : Type 0 where
    pub so : SignedOrder
    pub creds : ApiCreds
    pub present : arg.order ≡ some so
    pub authenticated : c.creds ≡ some creds
    pub order : r.order ≡ marshal d so
    pub owner : r.owner ≡ creds.api_key
    pub typed : r.order_type ≡ arg.order_type
    pub post_only : r.post_only ≡ arg.post_only
    pub deferred : r.defer_exec ≡ arg.defer_exec

  -- One request for each order, in order.
  pub data RequestsFor : List PostOrderArg → List PostOrderRequest → Type 0 where
    no_orders : RequestsFor [] []
    one_order :
        {arg : PostOrderArg} {r : PostOrderRequest} {args : List PostOrderArg}
        {rs : List PostOrderRequest}
        → IsRequestFor arg r
        → RequestsFor args rs
        → RequestsFor (arg ∷ args) (r ∷ rs)

  owned_request-IsRequestFor :
      (o : Option SignedOrder) (k : Option ApiCreds) (arg : PostOrderArg) (r : PostOrderRequest)
      → arg.order ≡ o
      → c.creds ≡ k
      → owned_request d j c o k arg ≡ ok r
      → IsRequestFor arg r
  owned_request-IsRequestFor none k arg r p q h = absurd (ground arith)
  owned_request-IsRequestFor (some so) none arg r p q h = absurd (ground arith)
  owned_request-IsRequestFor (some so) (some creds) arg r p q h = record {
    so = so;
    creds = creds;
    present = p;
    authenticated = q;
    order = ground arith;
    owner = ground arith;
    typed = ground arith;
    post_only = ground arith;
    deferred = ground arith;
  }

  requests_of-RequestsFor :
      (orders : List PostOrderArg) (requests : List PostOrderRequest)
      → requests_of d j c orders ≡ ok requests
      → RequestsFor orders requests
  unfolding requests_of request_of
  requests_of-RequestsFor [] requests h =
      let e : [] ≡ requests = ground arith in subst (RequestsFor []) e no_orders
  requests_of-RequestsFor (arg ∷ args) requests h = elim (Result-cases (request_of d j c arg)) [
    | inr (x, e) ↦ absurd (ground arith)
    | inl (r, e) ↦ elim (Result-cases (requests_of d j c args)) [
      | inr (x, f) ↦ absurd (ground arith)
      | inl (rs, f) ↦
          let e' : r ∷ rs ≡ requests = ground arith in
          subst (RequestsFor (arg ∷ args)) e' (
            one_order (owned_request-IsRequestFor arg.order c.creds arg r refl refl e)
              (requests_of-RequestsFor args rs f))
    ]
  ]

  -- What stands behind an accepted batch of orders.
  pub record IsPosted (orders : List PostOrderArg) (w v : W) (rs : List PostOrderResponse)
      : Type 0 where
    pub requests : List PostOrderRequest
    pub raw : Text
    pub few : length orders ≤ 15
    pub carried : RequestsFor orders requests
    pub posted :
        do_request d c (lit "POST") (lit "/orders") (j.encode_orders requests) w ≡ (ok raw, v)
    pub answered : j.decode_post_orders raw ≡ ok rs

  send_orders-ok :
      (requests : List PostOrderRequest) (w v : W) (rs : List PostOrderResponse)
      → send_orders d j c requests w ≡ (ok rs, v)
      → (raw : Text) × (do_request d c (lit "POST") (lit "/orders") (j.encode_orders requests) w
          ≡ (ok raw, v))
        × (j.decode_post_orders raw ≡ ok rs)
  unfolding send_orders
  send_orders-ok requests w v rs h =
      let (raw, w1, e, k) =
        continue-ok (do_request d c (lit "POST") (lit "/orders") (j.encode_orders requests) w) _ rs
          v h in
      let read = annotate-ok (lit "parse post_orders response") _ rs v k in
      (raw, e ∙ (λ i. (ok raw, (read i).1)), (λ i. (read i).0))

  -- If a batch of orders is posted without an error, there are at most 15, none of them is nil, and the
  -- body that was posted has one request for each, in order, with its signed order, the client's key,
  -- its type and its flags; the result is what the reply decodes to.
  pub post_orders-IsPosted :
      (orders : List PostOrderArg) (w v : W) (rs : List PostOrderResponse)
      → post_orders d j c orders w ≡ (ok rs, v)
      → IsPosted orders w v rs
  unfolding post_orders
  post_orders-IsPosted orders w v rs h = elim (Bool-cases (ltb 15 (length orders))) [
    | inl t ↦ absurd (ground arith)
    | inr f ↦ elim (Result-cases (requests_of d j c orders)) [
      | inr (x, e) ↦ absurd (ground arith)
      | inl (requests, e) ↦
          let (raw, p, a) = send_orders-ok requests w v rs (ground arith) in
          record {
            requests = requests;
            raw = raw;
            few = ground arith;
            carried = requests_of-RequestsFor orders requests e;
            posted = p;
            answered = a;
          }
    ]
  ]
