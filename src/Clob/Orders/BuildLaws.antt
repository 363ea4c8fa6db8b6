-- ===== src/Clob/Orders/BuildLaws.antt =====
-- What an order that was built satisfies, and that an id makes it repeatable (clob/client.go).
use polymarket_go.Clob.Orders.Amounts.{compute_order_amounts}
use polymarket_go.Clob.Auth.{timestamp_from_id, salt_from_id, sign_order}
use polymarket_go.Prelude.{
  none, refl, ◌∷◌, ◌++◌, ℕ, List, Option, ◌≡◌, ◌≢◌, ap, subst, ◌∙◌, false, [], Text, text_eq_iff,
  Result-cases, ok, some, arith, inl, inr, ◌⊎◌, Option-cases,
}
use polymarket_go.Prelude.Words.{pos, ℤ}
use polymarket_go.Prelude.Strings.{parse_int}
use polymarket_go.Clob.Deps.{Deps}
use polymarket_go.Clob.Types.{
  SignedOrder, PostOrderArg, OrderData, RoundConfig, rounding_configs, side_buy, side_sell,
}
use polymarket_go.Clob.Floats.{Floats}
use polymarket_go.Clob.Orders.Build.{
  or_zero, no_opts, with_deterministic_id, order_of, OrderOption, apply_option, sign_built,
  build_order, apply_options, build_with, choose_timestamp, choose_salt, Client, finish_order,
  OrderOpts, check_opts, check_size, fee_adjusted, parse_token_id, min_buy_shares, is_misaligned,
  check_order,
}

module _ (f : Floats) {W : Type 0} (d : Deps W) where
  -- The checks that an order has passed, for the options and the arguments it was built from: the
  -- side and the order type are given, the tick size is known, the size (after fee adjustment) is
  -- aligned and on BUY not below the minimum, and the token id is a number.
  pub record IsChecked (oo : OrderOpts f) (token_id : Text) (price size : f.F) (rc : RoundConfig)
      (good : f.F) (token : ℤ) : Type 0 where
    pub side_known : (oo.side ≡ side_buy) ⊎ (oo.side ≡ side_sell)
    pub typed : oo.order_type ≢ []
    pub tick_known : rounding_configs oo.tick_size ≡ some rc
    pub adjusted : fee_adjusted f oo price size ≡ ok good
    pub aligned : is_misaligned f rc good ≡ false
    pub enough : oo.side ≡ side_buy → f.lt good (min_buy_shares f) ≡ false
    pub parsed : parse_int token_id ≡ some token

  check_opts-ok :
      (oo : OrderOpts f) (rc : RoundConfig)
      → check_opts f oo ≡ ok rc
      → ((oo.side ≡ side_buy) ⊎ (oo.side ≡ side_sell))
        × (oo.order_type ≢ [])
        × (rounding_configs oo.tick_size ≡ some rc)
  unfolding check_opts
  check_opts-ok oo rc h = elim (Option-cases (rounding_configs oo.tick_size)) [
    | inl e ↦ absurd (ground arith)
    | inr (c, e) ↦ (
      ground (arith, text_eq_iff oo.side side_buy, text_eq_iff oo.side side_sell),
      ground arith,
      ground arith,
    )
  ]

  check_size-ok :
      (oo : OrderOpts f) (rc : RoundConfig) (size good : f.F)
      → check_size f oo rc size ≡ ok good
      → (size ≡ good)
        × (is_misaligned f rc size ≡ false)
        × (oo.side ≡ side_buy → f.lt size (min_buy_shares f) ≡ false)
  unfolding check_size
  check_size-ok oo rc size good h =
      (ground arith, ground arith, λ e. ground (arith, text_eq_iff oo.side side_buy))

  check_order-IsChecked :
      (oo : OrderOpts f) (token_id : Text) (price size good : f.F) (rc : RoundConfig) (token : ℤ)
      → check_order f d oo token_id price size ≡ ok (rc, good, token)
      → IsChecked oo token_id price size rc good token
  unfolding check_order parse_token_id
  check_order-IsChecked oo token_id price size good rc token h =
      elim (Result-cases (check_opts f oo)) [
        | inr (x, e) ↦ absurd (ground arith)
        | inl (rc1, e1) ↦ elim (Result-cases (fee_adjusted f oo price size)) [
          | inr (x, e) ↦ absurd (ground arith)
          | inl (s1, e2) ↦ elim (Result-cases (check_size f oo rc1 s1)) [
            | inr (x, e) ↦ absurd (ground arith)
            | inl (s2, e3) ↦ elim (Option-cases (parse_int token_id)) [
              | inl e ↦ absurd (ground arith)
              | inr (n, e4) ↦
                  let (k1, k2, k3) = check_opts-ok oo rc1 e1 in
                  let (m1, m2, m3) = check_size-ok oo rc1 s1 s2 e3 in
                  let p : rc1 ≡ rc = ground arith in
                  let q : s2 ≡ good = ground arith in
                  let r : n ≡ token = ground arith in
                  subst (λ c. IsChecked oo token_id price size c good token) p
                    (subst (λ g. IsChecked oo token_id price size rc1 g token) (m1 ∙ q)
                      (record {
                        side_known = k1;
                        typed = k2;
                        tick_known = k3;
                        adjusted = e2;
                        aligned = m2;
                        enough = m3;
                        parsed = e4 ∙ ap some r;
                      }))
            ]
          ]
        ]
      ]

  -- What `finishOrder` puts round an order: its signature and the options.
  finish_order-ok :
      (c : Client) (oo : OrderOpts f) (o : OrderData) (arg : PostOrderArg)
      → finish_order f d c oo o ≡ ok arg
      → (so : SignedOrder) × (arg.order ≡ some so)
        × (sign_order d c.chain_id o oo.neg_risk ≡ ok so.signature)
        × (so.order ≡ o)
        × (so.expiration ≡ some (or_zero f d oo.expiration))
        × (arg.order_type ≡ oo.order_type)
        × (arg.post_only ≡ oo.post_only)
        × (arg.defer_exec ≡ oo.defer_exec)
  unfolding finish_order
  finish_order-ok c oo o arg h = elim (Result-cases (sign_order d c.chain_id o oo.neg_risk)) [
    | inr (x, e) ↦ absurd (ground arith)
    | inl (sig, e) ↦
        let so : SignedOrder = record {
          order = o;
          expiration = some (or_zero f d oo.expiration);
          signature = sig;
        } in
        (so, ground arith, e, refl, refl, ground arith, ground arith, ground arith)
  ]

  -- The order that a successful build returns, for the options it was built from.
  pub record IsBuilt (c : Client) (oo : OrderOpts f) (token_id : Text) (price size : f.F)
      (arg : PostOrderArg) : Type 0 where
    pub rc : RoundConfig
    pub good : f.F
    pub token : ℤ
    pub salt : ℕ
    pub time : ℤ
    pub checked : IsChecked oo token_id price size rc good token
    pub so : SignedOrder
    pub carried : arg.order ≡ some so
    pub ordered :
        so.order ≡ order_of f d c oo token (compute_order_amounts f oo.side good price rc) salt time
    pub salted : oo.id ≢ [] → salt ≡ salt_from_id d oo.id
    pub timed : (t : ℤ) → oo.timestamp ≡ some t → time ≡ t
    pub signed : sign_order d c.chain_id so.order oo.neg_risk ≡ ok so.signature
    pub expires : so.expiration ≡ some (or_zero f d oo.expiration)
    pub typed : arg.order_type ≡ oo.order_type

  choose_salt_lem : (id : Text) (w : W) → id ≢ [] → (choose_salt f d id w).0 ≡ salt_from_id d id
  unfolding choose_salt
  choose_salt_lem id w h = ground arith

  choose_timestamp_lem :
      (o : Option ℤ) (w : W) (t : ℤ) → o ≡ some t → (choose_timestamp f d o w).0 ≡ t
  unfolding choose_timestamp
  choose_timestamp_lem none w t h = absurd (ground arith)
  choose_timestamp_lem (some s) w t h = ground arith

  -- An order that was built has passed every check, carries the amounts computed from the checked
  -- size, the salt of its id and the timestamp of its options where they are given, and is signed
  -- for the client's chain as it stands.
  pub build_with-IsBuilt :
      (c : Client) (oo : OrderOpts f) (token_id : Text) (price size : f.F) (w w' : W)
      (arg : PostOrderArg)
      → build_with f d c oo token_id price size w ≡ (ok arg, w')
      → IsBuilt c oo token_id price size arg
  unfolding build_with sign_built
  build_with-IsBuilt c oo token_id price size w w' arg h =
      elim (Result-cases (check_order f d oo token_id price size)) [
        | inr (x, e) ↦ absurd (ground arith)
        | inl ((rc, good, token), e) ↦
            let amounts = compute_order_amounts f oo.side good price rc in
            let (salt, w1) = choose_salt f d oo.id w in
            let time = (choose_timestamp f d oo.timestamp w1).0 in
            let o = order_of f d c oo token amounts salt time in
            let k : finish_order f d c oo o ≡ ok arg = ground arith in
            let (so, q, s, p, x, t, po, de) = finish_order-ok c oo o arg k in
            record {
              rc = rc;
              good = good;
              token = token;
              salt = salt;
              time = time;
              checked = check_order-IsChecked oo token_id price size good rc token e;
              so = so;
              carried = q;
              ordered = p;
              salted = choose_salt_lem oo.id w;
              timed = choose_timestamp_lem oo.timestamp w1;
              signed = rw p s;
              expires = x;
              typed = t;
            }
      ]

  -- With an id that is not empty and a timestamp among the options, the outcome, errors included,
  -- does not depend on the clock or the random numbers.
  pub build_with_repeatable :
      (c : Client) (oo : OrderOpts f) (token_id : Text) (price size : f.F) (w v : W) (t : ℤ)
      → oo.id ≢ []
      → oo.timestamp ≡ some t
      → (build_with f d c oo token_id price size w).0
        ≡ (build_with f d c oo token_id price size v).0
  unfolding build_with sign_built
  build_with_repeatable c oo token_id price size w v t hid ht =
      elim (Result-cases (check_order f d oo token_id price size)) [
        | inr (x, e) ↦ rw (e, build_with)
        | inl ((rc, good, token), e) ↦ ground (
          arith,
          choose_salt_lem oo.id w hid,
          choose_salt_lem oo.id v hid,
          choose_timestamp_lem oo.timestamp (choose_salt f d oo.id w).1 t ht,
          choose_timestamp_lem oo.timestamp (choose_salt f d oo.id v).1 t ht,
        )
      ]

  last_option :
      (o : OrderOpts f) (opts : List (OrderOption f)) (x : OrderOption f)
      → apply_options f d o (opts ++ x ∷ []) ≡ apply_option f d (apply_options f d o opts) x
  unfolding apply_options
  last_option o [] x = refl
  last_option o (y ∷ opts) x = last_option (apply_option f d o y) opts x

  -- Options that end with a deterministic id that is not empty make the outcome repeatable: two
  -- builds from the same inputs agree whatever the clock and the random numbers give.
  pub build_order_deterministic :
      (c : Client) (token_id : Text) (price size : f.F) (opts : List (OrderOption f)) (id : Text)
      (w v : W)
      → id ≢ []
      → (build_order f d c token_id price size (opts ++ with_deterministic_id id ∷ []) w).0
        ≡ (build_order f d c token_id price size (opts ++ with_deterministic_id id ∷ []) v).0
  unfolding build_order apply_option
  build_order_deterministic c token_id price size opts id w v h =
      rw (last_option (no_opts f) opts (with_deterministic_id id))
        (build_with_repeatable c _ token_id price size w v (pos (timestamp_from_id d id)) h refl)
