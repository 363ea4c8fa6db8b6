-- ===== src/Transport/SessionLaws.antt =====
-- The session store of transport/session/store.go as a map from keys to sessions.
use polymarket_go.Clob.Errors.{GoError}
use polymarket_go.Transport.Session.{
  is_due, new_store, save, Store, delete, put, flush, saved, get, lookup, Files, put_entry,
}
use polymarket_go.Prelude.{
  ◌∙◌, ap, true, err, ok, refl, inr, [], inl, not, text_eq_iff, ◌∷◌, ◌||◌, arith, is_empty, some,
  none, Bool-cases, text_eq, Result, ◌≡◌, if◌then◌else◌, Option, Text, List,
}

-- What is asked of a store: a session, its change or removal, or a flush.
pub data StoreOp (S : Type 0) : Type 0 where
  get_op : Text → StoreOp S
  put_op : Text → Option S → StoreOp S
  flush_op : StoreOp S

module _ {S : Type 0} where
  -- The answers of a map that is a function.
  unfoldable pub replay : List (StoreOp S) → (Text → Option S) → List (Option S)
  replay [] m = []
  replay (get_op key ∷ ops) m = m key ∷ replay ops m
  replay (put_op key cs ∷ ops) m = replay ops (λ k. if text_eq key k then cs else m k)
  replay (flush_op ∷ ops) m = replay ops m

  lookup-delete :
      (key k : Text) (entries : List (Text × S))
      → lookup k (delete key entries) ≡ (if text_eq key k then none else lookup k entries)
  unfolding lookup delete
  lookup-delete key k [] = ground arith
  lookup-delete key k (e ∷ entries) =
      let rest = lookup-delete key k entries in
      ground (arith, rest, text_eq_iff key e.0, text_eq_iff k e.0, text_eq_iff key k)

  lookup-put_entry :
      (key k : Text) (cs : Option S) (entries : List (Text × S))
      → lookup k (put_entry key cs entries) ≡ (if text_eq key k then cs else lookup k entries)
  unfolding put_entry lookup
  lookup-put_entry key k none entries = lookup-delete key k entries
  lookup-put_entry key k (some cs) entries =
      let rest = lookup-delete key k entries in
      ground (arith, rest, text_eq_iff k key, text_eq_iff key k)

  module _ {W : Type 0} (fs : Files W) where
    unfoldable pub run : List (StoreOp S) → Store S → W → List (Option S)
    unfolding get put flush
    run [] s w = []
    run (get_op key ∷ ops) s w = get s key ∷ run ops s w
    run (put_op key cs ∷ ops) s w = let (s1, v) = put fs s key cs w in run ops s1 v
    run (flush_op ∷ ops) s w = let (e, s1, v) = flush fs s w in run ops s1 v

    saved-entries :
        (s : Store S) (r : Result GoError (Unit {0}) × W) → (saved fs s r).1.entries ≡ s.entries
    unfolding saved
    saved-entries s (ok u, w) = refl
    saved-entries s (err e, w) = refl

    -- A flush keeps every session, whether it fails or not.
    pub flush-entries : (s : Store S) (w : W) → (flush fs s w).1.entries ≡ s.entries
    unfolding flush
    flush-entries s w = elim (Bool-cases (is_empty s.path || not s.dirty)) [
      | inl t ↦ rw t refl
      | inr f ↦ rw f (saved-entries s (save fs s w))
    ]

    put-entries :
        (s : Store S) (key : Text) (cs : Option S) (w : W)
        → (put fs s key cs w).0.entries ≡ put_entry key cs s.entries
    unfolding put
    put-entries s key cs w =
        let s1 = record s { entries = put_entry key cs s.entries; dirty = true } in
        elim (Bool-cases (is_due (fs.now w).0 s.last_save)) [
          | inl t ↦ rw t (flush-entries s1 (fs.now w).1)
          | inr f ↦ rw f refl
        ]

    run-replay :
        (ops : List (StoreOp S)) (s : Store S) (m : Text → Option S) (w : W)
        → ((k : Text) → lookup k s.entries ≡ m k)
        → run ops s w ≡ replay ops m
    unfolding run replay get
    run-replay [] s m w h = refl
    run-replay (get_op key ∷ ops) s m w h =
        ap (λ o. o ∷ run ops s w) (h key) ∙ ap (λ os. m key ∷ os) (run-replay ops s m w h)
    run-replay (put_op key cs ∷ ops) s m w h = run-replay ops _ _ _ (λ k.
        ap (lookup k) (put-entries s key cs w)
        ∙ lookup-put_entry key k cs s.entries
        ∙ ap (λ o. if text_eq key k then cs else o) (h k))
    run-replay (flush_op ∷ ops) s m w h =
        run-replay ops _ m _ (λ k. ap (lookup k) (flush-entries s w) ∙ h k)

    -- Whatever the file system, the clock and the order of a map do, and whatever the file at the path
    -- holds, a new store answers any sequence of gets, puts and flushes as an empty map from keys to
    -- sessions does: a get gives what the last put of its key gave, a put of no session removes, and a
    -- flush, also one that fails, changes no answer.
    pub run_refines :
        (path : Text) (ops : List (StoreOp S)) (w : W)
        → (let (s, v) = new_store fs path w in run ops s v) ≡ replay ops (λ k. none)
    unfolding new_store lookup
    run_refines path ops w = run-replay ops _ (λ k. none) _ (λ k. refl)
