-- ===== src/Clob/Onchain/ApprovalLaws.antt =====
-- What `EnsureApproval` of clob/onchain.go does to its cache.
use polymarket_go.Prelude.{
  sym, refl, arith, inr, Bool-cases, inl, text_eq-ne, text_eq_refl, ◌≡◌, ◌≢◌, true, [], Text,
  Result, ok, err, ◌⊎◌,
}
use polymarket_go.Clob.Errors.{GoError}
use polymarket_go.Clob.Deps.{Deps, Address}
use polymarket_go.Clob.Onchain.{OnChainClient}
use polymarket_go.Clob.Onchain.Approval.{is_approved, ensure_approval, send_approval, note_approval}

-- The cache after a call with the given result: a failure leaves the client as it was; a success
-- leaves the spender approved and every other address as it was, and changes no other field.
abbrev pub Cached : OnChainClient → Address → Result GoError Text → OnChainClient → Type 0
Cached oc spender r oc' =
    (((e : GoError) × (r ≡ err e)) × (oc' ≡ oc))
    ⊎ (((tx_id : Text) × (r ≡ ok tx_id))
        × (is_approved oc'.approved spender ≡ true)
        × ((a : Address) → a ≢ spender → is_approved oc'.approved a ≡ is_approved oc.approved a)
        × (oc' ≡ record oc { approved = oc'.approved }))

module _ {W : Type 0} (d : Deps W) where
  note_approval-Cached :
      (oc : OnChainClient) (spender : Address) (p : Result GoError Text × W)
      → Cached oc spender (note_approval d oc spender p).0 (note_approval d oc spender p).1
  unfolding note_approval is_approved
  note_approval-Cached oc spender (err e, w) = inl ((_, refl), refl)
  note_approval-Cached oc spender (ok tx_id, w) = inr (
    (tx_id, refl),
    rw (text_eq_refl spender),
    (λ a ne. rw (text_eq-ne spender a (λ q. ne (sym q)))),
    refl,
  )

  send_approval-Cached :
      (oc : OnChainClient) (spender : Address) (packed : Result GoError Text) (w : W)
      → Cached oc spender
          (send_approval d oc spender packed w).0
          (send_approval d oc spender packed w).1
  unfolding send_approval
  send_approval-Cached oc spender (err e) w = inl ((e, refl), refl)
  send_approval-Cached oc spender (ok calldata) w = note_approval-Cached oc spender _

  -- A failure leaves the client as it was; a success leaves the spender approved and every other
  -- address as it was, and changes no other field.
  pub ensure_approval-Cached :
      (oc : OnChainClient) (spender : Address) (w : W)
      → Cached oc spender (ensure_approval d oc spender w).0 (ensure_approval d oc spender w).1
  unfolding ensure_approval
  ensure_approval-Cached oc spender w = elim (Bool-cases (is_approved oc.approved spender)) [
    | inl t ↦ rw t (inr (([], refl), t, (λ a ne. refl), refl))
    | inr f ↦ rw f (send_approval-Cached oc spender _ w)
  ]

  ensure_approval_cached :
      (oc : OnChainClient) (spender : Address) (v : W)
      → is_approved oc.approved spender ≡ true
      → ensure_approval d oc spender v ≡ (ok [], oc, v)
  unfolding ensure_approval
  ensure_approval_cached oc spender v h = rw h

  -- After a success, a second call for the same spender succeeds with no transaction: the world
  -- and the client stay as they are.
  pub ensure_approval_twice :
      (oc : OnChainClient) (spender : Address) (w v : W) (tx_id : Text)
      → (ensure_approval d oc spender w).0 ≡ ok tx_id
      → ensure_approval d (ensure_approval d oc spender w).1 spender v
        ≡ (ok [], (ensure_approval d oc spender w).1, v)
  ensure_approval_twice oc spender w v tx_id h = elim (ensure_approval-Cached oc spender w) [
    | inl f ↦ absurd (ground (arith, f.0.1))
    | inr s ↦ ensure_approval_cached (ensure_approval d oc spender w).1 spender v s.1
  ]
