-- ===== src/Clob/Account/HeartbeatLaws.antt =====
-- The heartbeat id inside an error (clob/prefetch.go).
use polymarket_go.Prelude.{none, Option, Result}
use polymarket_go.Clob.Account.Queries.{
  recover_heartbeat, read_heartbeat, post_heartbeat, json_part, heartbeat_body,
}
use polymarket_go.Clob.Http.{do_request}
use polymarket_go.Prelude.{arith, ◌≢◌, ◌≡◌, ◌∷◌, ◌++◌, some, refl, ok, lit, err, [], Text}
use polymarket_go.Prelude.Digits.{to_byte-append, from_byte-append, Lacks}
use polymarket_go.Clob.Json.{Json}
use polymarket_go.Clob.Errors.{message, GoError}
use polymarket_go.Clob.Deps.{Deps}
use polymarket_go.Clob.Orders.Build.{Client}

-- The part between braces that a message holds, where no brace opens before it and none closes after.
pub json_part-append :
    (pre mid post : Text)
    → Lacks b'{' pre
    → Lacks b'}' post
    → json_part (pre ++ b'{' ∷ (mid ++ b'}' ∷ post)) ≡ some (b'{' ∷ (mid ++ b'}' ∷ []))
unfolding json_part
json_part-append pre mid post hp hq =
    rw (from_byte-append b'{' pre (mid ++ b'}' ∷ post) hp, to_byte-append b'}' (b'{' ∷ mid) post hq)
      refl

module _ {W : Type 0} (d : Deps W) (j : Json) (c : Client) where
  -- Which id a part names: the one that it decodes to, or none, where it does not decode or the id
  -- is empty.
  pub data Names (part : Text) : Option Text → Type 0 where
    names_id :
        {found : Text} → j.decode_heartbeat part ≡ ok found → found ≢ [] → Names part (some found)
    names_empty : j.decode_heartbeat part ≡ ok [] → Names part none
    no_heartbeat : {x : GoError} → j.decode_heartbeat part ≡ err x → Names part none

  -- What is returned for the id that was named.
  abbrev pub found_or : GoError → Option Text → Result GoError Text
  found_or e (some found) = ok found
  found_or e none = err e

  -- A heartbeat whose request fails with a message that holds one part in braces returns the id that the
  -- part names, without an error; and it returns the request's own error only where the part names none.
  pub post_heartbeat_failed :
      (id : Text) (w v : W) (e : GoError) (pre mid post : Text) (named : Option Text)
      → do_request d c (lit "POST") (lit "/v1/heartbeats") (heartbeat_body d j c id) w ≡ (err e, v)
      → message e ≡ pre ++ b'{' ∷ (mid ++ b'}' ∷ post)
      → Lacks b'{' pre
      → Lacks b'}' post
      → Names (b'{' ∷ (mid ++ b'}' ∷ [])) named
      → post_heartbeat d j c id w ≡ (found_or e named, v)
  unfolding post_heartbeat read_heartbeat recover_heartbeat
  post_heartbeat_failed id w v e pre mid post _ h m hp hq (names_id {found = []} k ne) =
      absurd (ne refl)
  post_heartbeat_failed id w v e pre mid post _ h m hp hq (names_id {found = b ∷ bs} k ne) =
      rw (h, m, json_part-append pre mid post hp hq) (ground arith)
  post_heartbeat_failed id w v e pre mid post _ h m hp hq (names_empty k) =
      rw (h, m, json_part-append pre mid post hp hq) (ground arith)
  post_heartbeat_failed id w v e pre mid post _ h m hp hq (no_heartbeat k) =
      rw (h, m, json_part-append pre mid post hp hq) (ground arith)
