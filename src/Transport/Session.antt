-- ===== src/Transport/Session.antt =====
-- The store of TLS sessions (transport/session/store.go). Files, their encoding, the clock and the order in
-- which Go walks a map are operations of a record.
use polymarket_go.Clob.Errors.{GoError}
use polymarket_go.Prelude.{
  not, ◌||◌, err, ◌-◌, false, is_empty, ltb, text_eq, [], if◌then◌else◌, true, ok, some, ◌∷◌, none,
  Bool, Result, lit, Option, List, Text, ℕ,
}
use polymarket_go.Clob.Effects.{Io, ◌>>=◌}

pub record Files (W : Type 0) : Type 0 where
  -- path/filepath and os; an open file is known by its name
  pub dir : Text → Text
  pub mkdir_all : Text → Io W (Unit {0})
  pub create_temp : Text → Text → Io W Text
  pub open_file : Text → Io W Text
  pub close : Text → W → W
  pub remove : Text → W → W
  pub rename : Text → Text → Io W (Unit {0})
  -- encoding/gob
  pub encode_keys : Text → List Text → Io W (Unit {0})
  pub decode_keys : Text → Io W (List Text)
  -- the keys of a map in the order of a `range`
  pub range_order : List Text → W → List Text × W
  -- time.Now, in nanoseconds
  pub now : W → ℕ × W

-- A map as its entries, the newest first.
pub record Store (S : Type 0) : Type 0 where
  pub path : Text
  pub entries : List (Text × S)
  pub dirty : Bool
  -- none is the zero time, which is long past
  pub last_save : Option ℕ

-- Five seconds since the last save.
abbrev pub is_due : ℕ → Option ℕ → Bool
is_due now none = true
is_due now (some saved) = ltb 5000000000 (now - saved)

module _ {W : Type 0} (fs : Files W) where
  abbrev pub after_write : Text → Result GoError (Unit {0}) × W → Result GoError (Unit {0}) × W
  after_write file (ok u, v) = (ok u, fs.close file v)
  after_write file (err e, v) = (err e, fs.remove file (fs.close file v))

  -- A temporary file is removed when it could not be written.
  unfoldable pub write_keys : Text → List Text → Io W (Unit {0})
  write_keys file keys w = after_write file (fs.encode_keys file keys w)

  abbrev pub after_open : Result GoError Text × W → W
  after_open (err e, v) = v
  after_open (ok file, v) = let (keys, u) = fs.decode_keys file v in fs.close file u

  -- The keys that the file holds are decoded and dropped.
  unfoldable pub load : Text → W → W
  load path w = if is_empty path then w else after_open (fs.open_file path w)

module _ {S : Type 0} where
  unfoldable pub lookup : Text → List (Text × S) → Option S
  lookup key [] = none
  lookup key (e ∷ entries) =
      let rest = lookup key entries in if text_eq key e.0 then some e.1 else rest

  unfoldable pub delete : Text → List (Text × S) → List (Text × S)
  delete key [] = []
  delete key (e ∷ entries) =
      let rest = delete key entries in if text_eq key e.0 then rest else e ∷ rest

  -- The map after `Put`; none is a nil session.
  unfoldable pub put_entry : Text → Option S → List (Text × S) → List (Text × S)
  put_entry key none entries = delete key entries
  put_entry key (some cs) entries = (key, cs) ∷ delete key entries

  abbrev pub keys_of : List (Text × S) → List Text
  keys_of [] = []
  keys_of (e ∷ entries) = e.0 ∷ keys_of entries

  unfoldable pub get : Store S → Text → Option S
  get s session_key = lookup session_key s.entries

  module _ {W : Type 0} (fs : Files W) where
    -- The keys of the sessions, and no session, are written to a new file that takes the path's place.
    unfoldable pub save : Store S → Io W (Unit {0})
    unfolding write_keys
    save s w =
        (do
          _ ← fs.mkdir_all (fs.dir s.path)
          file ← fs.create_temp (fs.dir s.path) (lit ".sess-*")
          _ ← (λ v.
              let (keys, u) = fs.range_order (keys_of s.entries) v in write_keys fs file keys u)
          fs.rename file s.path)
          w

    unfoldable pub saved :
        Store S → Result GoError (Unit {0}) × W → Result GoError (Unit {0}) × Store S × W
    saved s (err e, w) = (err e, s, w)
    saved s (ok u, w) =
        let (t, v) = fs.now w in (ok u, record s { dirty = false; last_save = some t }, v)

    unfoldable pub flush : Store S → W → Result GoError (Unit {0}) × Store S × W
    unfolding save saved
    flush s w = if is_empty s.path || not s.dirty then (ok tt, s, w) else saved s (save s w)

    abbrev pub drop_error : Result GoError (Unit {0}) × Store S × W → Store S × W
    drop_error (e, s, w) = (s, w)

    -- The flush's error is dropped.
    unfoldable pub put : Store S → Text → Option S → W → Store S × W
    unfolding put_entry flush
    put s session_key cs w =
        let s1 = record s { entries = put_entry session_key cs s.entries; dirty = true } in
        let (now, v) = fs.now w in
        if is_due now s.last_save then drop_error (flush s1 v) else (s1, v)

    unfoldable pub new_store : Text → W → Store S × W
    unfolding load
    new_store path w =
        (record { path = path; entries = []; dirty = false; last_save = none }, load fs path w)
