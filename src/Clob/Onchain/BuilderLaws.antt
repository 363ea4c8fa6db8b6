-- ===== src/Clob/Onchain/BuilderLaws.antt =====
-- What a chain of calls on a `TxBuilder` of clob/onchain.go amounts to.
use polymarket_go.Prelude.{
  length-map, map, All, true, lit, length-append, Result-cases, append_assoc, ℕ, ◌+◌, ◌≤◌, ◌≡◌,
  refl, ap, ◌∙◌, Bool, List, [], ◌∷◌, ◌++◌, Text, Result, ok, err, none, some, is_none,
  if◌then◌else◌, length, arith, append-nil, inl, inr, Option-cases, sym,
}
use polymarket_go.Prelude.Words.{ℤ}
use polymarket_go.Clob.Errors.{GoError}
use polymarket_go.Clob.Deps.{Address, address, flag, ctf, Deps, ProxyCallArg}
use polymarket_go.Clob.Onchain.{pos, OnChainClient}
use polymarket_go.Clob.Onchain.Builder.{
  to_call, new_tx, calls_of, proxy_calls, approve_from, approve_operator, TxOp, TxBuilder,
  add_packed, split, merge, convert, redeem, approve,
}

-- The methods that add to a transaction, with their arguments.
pub data BuildOp : Type 0 where
  splits : Text → ℤ → Bool → BuildOp
  merges : Text → ℤ → Bool → BuildOp
  converts : Text → ℤ → ℤ → BuildOp
  redeems : Text → BuildOp
  approves : Bool → BuildOp

-- How many calls a method adds.
abbrev pub width : BuildOp → ℕ
width (approves neg) = 2
width _ = 1

abbrev pub total_width : List BuildOp → ℕ
total_width [] = 0
total_width (o ∷ os) = width o + total_width os

module _ {W : Type 0} (d : Deps W) where
  unfoldable pub apply : TxBuilder → BuildOp → TxBuilder
  apply b (splits condition_id amount neg) = split d b condition_id amount neg
  apply b (merges condition_id amount neg) = merge d b condition_id amount neg
  apply b (converts market_id index_set amount) = convert d b market_id index_set amount
  apply b (redeems condition_id) = redeem d b condition_id
  apply b (approves neg) = approve d b neg

  -- `b.Split(…).Merge(…)…`.
  unfoldable pub chain : TxBuilder → List BuildOp → TxBuilder
  chain b [] = b
  chain b (o ∷ os) = chain (apply b o) os

  apply_sticky : (b : TxBuilder) (o : BuildOp) (e : GoError) → b.error ≡ some e → apply b o ≡ b
  unfolding apply split merge convert redeem approve
  apply_sticky b (splits condition_id amount neg) e h = ground arith
  apply_sticky b (merges condition_id amount neg) e h = ground arith
  apply_sticky b (converts market_id index_set amount) e h = ground arith
  apply_sticky b (redeems condition_id) e h = ground arith
  apply_sticky b (approves neg) e h = ground arith

  -- Once an operation has failed, every later method leaves the builder as it is.
  pub chain_sticky :
      (b : TxBuilder) (os : List BuildOp) (e : GoError) → b.error ≡ some e → chain b os ≡ b
  unfolding chain
  chain_sticky b [] e h = refl
  chain_sticky b (o ∷ os) e h = ap (λ c. chain c os) (apply_sticky b o e h) ∙ chain_sticky b os e h

  -- The operations grow by `width` calls, at the end, when no error arises.
  Adds : TxBuilder → ℕ → TxBuilder → Type 0
  Adds b n c =
      (c.oc ≡ b.oc)
      × ((new : List TxOp) × (c.ops ≡ b.ops ++ new)
          × (length new ≤ n)
          × (c.error ≡ none → length new ≡ n))

  add_packed-Adds :
      (b : TxBuilder) (r : Result GoError (Address × Text))
      → b.error ≡ none
      → Adds b 1 (add_packed b r)
  unfolding Adds add_packed
  add_packed-Adds b (ok (target, calldata)) h =
      (refl, (record { target = target; calldata = calldata } ∷ [], refl, omega arith, λ _. refl))
  add_packed-Adds b (err e) h = (refl, ([], sym (append-nil b.ops), omega arith, λ x. cc))

  guarded-Adds :
      (b c : TxBuilder) (n : ℕ)
      → (b.error ≡ none → Adds b n c)
      → Adds b n (if is_none b.error then c else b)
  unfolding Adds
  guarded-Adds b c n h = elim (Option-cases b.error) [
    | inl e ↦ rw e (h e)
    | inr (x, e) ↦ rw e (refl, ([], sym (append-nil b.ops), omega arith, λ y. cc))
  ]

  approve_operator-Adds :
      (b : TxBuilder) (op : TxOp) (operator : Address)
      → b.error ≡ none
      → Adds b 2 (approve_operator d (record b { ops = b.ops ++ op ∷ [] }) operator)
  unfolding Adds approve_operator
  approve_operator-Adds b op operator h =
      elim (Result-cases
        (d.abi_pack ctf (lit "setApprovalForAll") (address operator ∷ flag true ∷ []))) [
          | inl (cd, e) ↦
              rw (e, approve_operator)
                (
                  refl,
                  (
                    op ∷ record { target = b.oc.ctf_addr; calldata = cd } ∷ [],
                    append_assoc b.ops (op ∷ []) _,
                    omega arith,
                    λ _. refl,
                  ),
                )
          | inr (x, e) ↦ rw (e, approve_operator) (refl, (op ∷ [], refl, omega arith, λ y. cc))
        ]

  approve_from-Adds :
      (b : TxBuilder) (spender : Address) (r : Result GoError Text)
      → b.error ≡ none
      → Adds b 2 (approve_from d b spender r)
  unfolding Adds approve_from
  approve_from-Adds b spender (err e) h = (refl, ([], sym (append-nil b.ops), omega arith, λ y. cc))
  approve_from-Adds b spender (ok cd) h = approve_operator-Adds b _ spender h

  approve-Adds : (b : TxBuilder) (neg : Bool) → b.error ≡ none → Adds b 2 (approve d b neg)
  unfolding approve
  approve-Adds b neg h = guarded-Adds b _ 2 (approve_from-Adds b _ _)

  apply-Adds : (b : TxBuilder) (o : BuildOp) → b.error ≡ none → Adds b (width o) (apply b o)
  unfolding apply split merge convert redeem
  apply-Adds b (splits condition_id amount neg) h = guarded-Adds b _ 1 (add_packed-Adds b _)
  apply-Adds b (merges condition_id amount neg) h = guarded-Adds b _ 1 (add_packed-Adds b _)
  apply-Adds b (converts market_id index_set amount) h = guarded-Adds b _ 1 (add_packed-Adds b _)
  apply-Adds b (redeems condition_id) h = guarded-Adds b _ 1 (add_packed-Adds b _)
  apply-Adds b (approves neg) h = approve-Adds b neg h

  Adds-trans :
      (a b c : TxBuilder) (m n : ℕ) → Adds a m b → b.error ≡ none → Adds b n c → Adds a (m + n) c
  unfolding Adds
  Adds-trans a b c m n (p, (new, e, le, eq)) h (q, (more, f, le', eq')) = (
    q ∙ p,
    (
      new ++ more,
      f ∙ ap (λ l. l ++ more) e ∙ append_assoc a.ops new more,
      omega (arith, length-append new more),
      λ k. omega (arith, length-append new more, eq h, eq' k),
    ),
  )

  nothing-Adds : (b : TxBuilder) → Adds b 0 b
  unfolding Adds
  nothing-Adds b = (refl, ([], sym (append-nil b.ops), omega arith, λ _. refl))

  weaken-Adds :
      (a b : TxBuilder) (m n : ℕ) (e : GoError) → b.error ≡ some e → Adds a m b → Adds a (m + n) b
  unfolding Adds
  weaken-Adds a b m n e h (p, (new, q, le, eq)) = (p, (new, q, omega arith, λ k. cc))

  chain_step-Adds :
      (a b : TxBuilder) (m n : ℕ) (c : TxBuilder)
      → Adds a m b
      → (b.error ≡ none → Adds b n c)
      → ((e : GoError) → b.error ≡ some e → c ≡ b)
      → Adds a (m + n) c
  chain_step-Adds a b m n c h k stuck = elim (Option-cases b.error) [
    | inl e ↦ Adds-trans a b c m n h e (k e)
    | inr (x, e) ↦ rw (stuck x e) (weaken-Adds a b m n x e h)
  ]

  -- From a builder with no error, a chain of methods appends at most as many operations as the
  -- methods ask for, exactly as many when it ends without an error, and keeps the client.
  chain-Adds :
      (b : TxBuilder) (os : List BuildOp) → b.error ≡ none → Adds b (total_width os) (chain b os)
  unfolding chain
  chain-Adds b [] h = nothing-Adds b
  chain-Adds b (o ∷ os) h =
      chain_step-Adds b (apply b o) (width o) (total_width os) (chain (apply b o) os)
        (apply-Adds b o h) (chain-Adds (apply b o) os) (λ e. chain_sticky (apply b o) os e)

abbrev pub PlainCall : ProxyCallArg → Type 0
PlainCall c = (c.type_code ≡ 1) × (c.value ≡ pos 0)

calls-PlainCall : (ops : List TxOp) → All PlainCall (map to_call ops)
calls-PlainCall [] = tt
calls-PlainCall (op ∷ ops) = ((refl, refl), calls-PlainCall ops)

calls_of_lem :
    (ops : List TxOp) (cs : List ProxyCallArg)
    → calls_of ops ≡ ok cs
    → (1 ≤ length cs) × (length cs ≡ length ops) × All PlainCall cs
unfolding calls_of
calls_of_lem [] cs h = cc
calls_of_lem (op ∷ ops) cs h =
    let e : map to_call (op ∷ ops) ≡ cs = cc in
    rw (← e) (omega arith, length-map (op ∷ ops) to_call, calls-PlainCall (op ∷ ops))

-- What `proxyCalls` gives for a transaction built from scratch by a chain of methods: if it
-- succeeds, there is at least one call, there are as many as the methods ask for, and each is a
-- plain call that carries no value.
pub proxy_calls-chain :
    {W : Type 0} (d : Deps W) (oc : OnChainClient) (os : List BuildOp) (cs : List ProxyCallArg)
    → proxy_calls (chain d (new_tx oc) os) ≡ ok cs
    → (1 ≤ length cs) × (length cs ≡ total_width os) × All PlainCall cs
unfolding proxy_calls Adds new_tx
proxy_calls-chain d oc os cs h = elim (Option-cases (chain d (new_tx oc) os).error) [
  | inl e ↦
      let (p, (new, q, le, eq)) = chain-Adds d (new_tx oc) os refl in
      let r : calls_of (chain d (new_tx oc) os).ops ≡ ok cs = ground arith in
      let (one, len, plain) = calls_of_lem _ cs r in (one, len ∙ ap length q ∙ eq e, plain)
  | inr (x, e) ↦ absurd (ground arith)
]
