-- ===== src/Polymarket/Ws/ConnectionLaws.antt =====
-- What is written on a connection of the market feed, in which order (polymarket/ws.go).
use polymarket_go.Polymarket.Ws.Subscribe.{run_messages, MarketSubscribe, token_message}
use polymarket_go.Polymarket.Ws.Connection.{
  tokens_sent, not_connected, conn_cleared, session_ended, now_connected, conn_set, write_failed,
  written, dialled, started, ending, reading, cleared, stepped, dial_failed, registered, away,
  Reachable, Step, Feed, opening, send_tokens, new_feed, dial, Phase,
}
use polymarket_go.Prelude.{
  arith, [], ◌∷◌, ap, ◌∙◌, refl, subst, append_assoc, append-nil, inr, sym, ◌⊎◌, inl, false, true,
  ◌≡◌, ◌++◌, Text, Bool, List,
}

abbrev pub IsPrefix : List MarketSubscribe → List MarketSubscribe → Type 0
IsPrefix ms all = (rest : List MarketSubscribe) × (ms ++ rest ≡ all)

-- What was sent is a part of the subscription, if there is no connection, or starts with all of it.
abbrev pub InOrder : List MarketSubscribe → Bool → List MarketSubscribe → Type 0
InOrder all conn sent = ((conn ≡ false) × IsPrefix sent all) ⊎ IsPrefix all sent

abbrev HasFlags : Phase → Bool → Bool → Type 0
HasFlags away conn connected = (conn ≡ false) × (connected ≡ false)
HasFlags (opening ms) conn connected = (conn ≡ false) × (connected ≡ false)
HasFlags registered conn connected = (conn ≡ true) × (connected ≡ false)
HasFlags reading conn connected = (conn ≡ true) × (connected ≡ true)
HasFlags ending conn connected = conn ≡ connected
HasFlags cleared conn connected = conn ≡ false

abbrev HasSent : List MarketSubscribe → Phase → Bool → List MarketSubscribe → Type 0
HasSent all away conn sent = InOrder all conn sent
HasSent all (opening ms) conn sent = sent ++ ms ≡ all
HasSent all registered conn sent = IsPrefix all sent
HasSent all reading conn sent = IsPrefix all sent
HasSent all ending conn sent = InOrder all conn sent
HasSent all cleared conn sent = InOrder all conn sent

abbrev IsFeed : List MarketSubscribe → Phase → Bool → Bool → List MarketSubscribe → Type 0
IsFeed all p conn connected sent = HasFlags p conn connected × HasSent all p conn sent

IsPrefix-append :
    (all sent more : List MarketSubscribe) → IsPrefix all sent → IsPrefix all (sent ++ more)
IsPrefix-append all sent more (rest, e) =
    (rest ++ more, sym (append_assoc all rest more) ∙ ap (λ l. l ++ more) e)

InOrder-append :
    (all sent more : List MarketSubscribe) → InOrder all true sent → InOrder all true (sent ++ more)
InOrder-append all sent more (inl (e, p)) = absurd (ground arith)
InOrder-append all sent more (inr p) = inr (IsPrefix-append all sent more p)

IsFeed-append :
    (all : List MarketSubscribe) (p : Phase) (connected : Bool) (sent more : List MarketSubscribe)
    → IsFeed all p true connected sent
    → IsFeed all p true connected (sent ++ more)
IsFeed-append all away connected sent more ((e, q), o) = absurd (ground arith)
IsFeed-append all (opening ms) connected sent more ((e, q), o) = absurd (ground arith)
IsFeed-append all registered connected sent more (f, o) = (f, IsPrefix-append all sent more o)
IsFeed-append all reading connected sent more (f, o) = (f, IsPrefix-append all sent more o)
IsFeed-append all ending connected sent more (f, o) = (f, InOrder-append all sent more o)
IsFeed-append all cleared connected sent more (f, o) = absurd (ground arith)

token_message-IsFeed :
    (all : List MarketSubscribe) (p : Phase) (conn connected : Bool) (sent : List MarketSubscribe)
    (operation : Text) (ids : List Text)
    → IsFeed all p conn connected sent
    → IsFeed all p conn connected (sent ++ token_message conn operation ids)
unfolding token_message
token_message-IsFeed all p true connected sent operation ids h =
    IsFeed-append all p connected sent _ h
token_message-IsFeed all p false connected sent operation ids h = rw (append-nil sent) h

abbrev IsFeedState : List Text → Feed → Type 0
IsFeedState token_ids s = IsFeed (run_messages token_ids) s.phase s.has_conn s.connected s.sent

-- The invariant at the phase that the state is known to be in.
at_phase :
    (token_ids : List Text) (s : Feed) (p : Phase)
    → s.phase ≡ p
    → IsFeedState token_ids s
    → IsFeed (run_messages token_ids) p s.has_conn s.connected s.sent
at_phase token_ids s p e h =
    subst (λ q. IsFeed (run_messages token_ids) q s.has_conn s.connected s.sent) e h

InOrder-cleared :
    (all : List MarketSubscribe) (conn : Bool) (sent : List MarketSubscribe)
    → InOrder all conn sent
    → InOrder all false sent
InOrder-cleared all conn sent (inl (e, p)) = inl (refl, p)
InOrder-cleared all conn sent (inr p) = inr p

Step-IsFeedState :
    (token_ids : List Text) (s t : Feed)
    → Step token_ids s t
    → IsFeedState token_ids s
    → IsFeedState token_ids t
unfolding dial send_tokens
Step-IsFeedState ids _ _ (dial_failed s e) h =
    let i = at_phase ids s away e h in (i.0.0 ∙ sym i.0.1, i.1)
Step-IsFeedState ids _ _ (dialled s e) h = let i = at_phase ids s away e h in (i.0, refl)
Step-IsFeedState ids _ _ (written s m ms e) h =
    let i = at_phase ids s (opening (m ∷ ms)) e h in (i.0, append_assoc s.sent (m ∷ []) ms ∙ i.1)
Step-IsFeedState ids _ _ (write_failed s m ms e) h =
    let i = at_phase ids s (opening (m ∷ ms)) e h in (i.0.0 ∙ sym i.0.1, inl (i.0.0, (m ∷ ms, i.1)))
Step-IsFeedState ids _ _ (conn_set s e) h =
    let i = at_phase ids s (opening []) e h in
    ((refl, i.0.1), ([], ap (λ l. l ++ []) (sym i.1) ∙ append-nil _ ∙ append-nil _))
Step-IsFeedState ids _ _ (now_connected s e) h =
    let i = at_phase ids s registered e h in ((i.0.0, refl), i.1)
Step-IsFeedState ids _ _ (session_ended s e) h =
    let i = at_phase ids s reading e h in (i.0.0 ∙ sym i.0.1, inr i.1)
Step-IsFeedState ids _ _ (conn_cleared s e) h =
    let i = at_phase ids s ending e h in
    (refl, InOrder-cleared (run_messages ids) s.has_conn s.sent i.1)
Step-IsFeedState ids _ _ (not_connected s e) h =
    let i = at_phase ids s cleared e h in ((i.0, refl), i.1)
Step-IsFeedState ids _ _ (tokens_sent s operation tokens true) h =
    token_message-IsFeed (run_messages ids) s.phase s.has_conn s.connected s.sent operation tokens h
Step-IsFeedState ids _ _ (tokens_sent s operation tokens false) h = h

Reachable-IsFeedState :
    (token_ids : List Text) (s : Feed) → Reachable token_ids s → IsFeedState token_ids s
unfolding new_feed
Reachable-IsFeedState ids _ started = ((refl, refl), inl (refl, (run_messages ids, refl)))
Reachable-IsFeedState ids t (stepped s _ r step) =
    Step-IsFeedState ids s t step (Reachable-IsFeedState ids s r)

abbrev pub HasConnWhenConnected : Phase → Bool → Bool → Type 0
HasConnWhenConnected p conn connected = (connected ≡ false) ⊎ (conn ≡ true) ⊎ (p ≡ cleared)

HasFlags-HasConnWhenConnected :
    (p : Phase) (conn connected : Bool)
    → HasFlags p conn connected
    → HasConnWhenConnected p conn connected
HasFlags-HasConnWhenConnected away conn connected h = inl h.1
HasFlags-HasConnWhenConnected (opening ms) conn connected h = inl h.1
HasFlags-HasConnWhenConnected registered conn connected h = inl h.1
HasFlags-HasConnWhenConnected reading conn connected h = inr (inl h.0)
HasFlags-HasConnWhenConnected ending true connected h = inr (inl refl)
HasFlags-HasConnWhenConnected ending false connected h = inl (sym h)
HasFlags-HasConnWhenConnected cleared conn connected h = inr (inr refl)

HasSent-InOrder :
    (all : List MarketSubscribe) (p : Phase) (conn connected : Bool) (sent : List MarketSubscribe)
    → IsFeed all p conn connected sent
    → InOrder all conn sent
HasSent-InOrder all away conn connected sent h = h.1
HasSent-InOrder all (opening ms) conn connected sent h = inl (h.0.0, (ms, h.1))
HasSent-InOrder all registered conn connected sent h = inr h.1
HasSent-InOrder all reading conn connected sent h = inr h.1
HasSent-InOrder all ending conn connected sent h = h.1
HasSent-InOrder all cleared conn connected sent h = h.1

-- However the loop's steps and the calls of SubscribeTokens and UnsubscribeTokens interleave, what
-- was written on a connection is a part of the initial subscription, as long as the connection is
-- not set, or starts with all of it; and when the feed is said to be connected a connection is set,
-- but for the moment between the two resets at its end.
pub Reachable-InOrder :
    (token_ids : List Text) (s : Feed)
    → Reachable token_ids s
    → InOrder (run_messages token_ids) s.has_conn s.sent
      × HasConnWhenConnected s.phase s.has_conn s.connected
Reachable-InOrder ids s r =
    let h = Reachable-IsFeedState ids s r in
    (
      HasSent-InOrder (run_messages ids) s.phase s.has_conn s.connected s.sent h,
      HasFlags-HasConnWhenConnected s.phase s.has_conn s.connected h.0,
    )
