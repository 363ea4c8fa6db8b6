-- ===== src/Polymarket/Market/Expiry.antt =====
-- `DaysToExpiry` of polymarket/market.go, over the times of the Go library in New York.
use polymarket_go.Prelude.Strings.{to_lower}
use polymarket_go.Clob.Flex.{parse_int64}
use polymarket_go.Prelude.Words.{ℤ, pos, negsuc}
use polymarket_go.Clob.Errors.{GoError}
use polymarket_go.Prelude.{
  if◌then◌else◌, ◌∷◌, ◌==◌, ℕ, text_eq, suc, ok, lit, err, [], Text, Result, List, Bool,
}

-- time.Now in that zone, its year, 16:00 of a day, `Before`, `AddDate(1, 0, 0)` and the whole days, hours
-- divided by 24, between two times.
pub record Calendar (W : Type 0) : Type 1 where
  pub Time : Type 0
  pub now : W → Time × W
  pub year : Time → ℤ
  pub at_four : ℤ → ℕ → ℤ → Time
  pub before : Time → Time → Bool
  pub next_year : Time → Time
  pub days_between : Time → Time → ℤ

abbrev pub month_names : List Text
month_names =
    lit "january"
    ∷ lit "february"
    ∷ lit "march"
    ∷ lit "april"
    ∷ lit "may"
    ∷ lit "june"
    ∷ lit "july"
    ∷ lit "august"
    ∷ lit "september"
    ∷ lit "october"
    ∷ lit "november"
    ∷ lit "december"
    ∷ []

-- The place of a name, from n on; 0 is a name that is missing.
unfoldable pub month_from : ℕ → List Text → Text → ℕ
month_from n [] name = 0
month_from n (m ∷ ms) name = if text_eq m name then n else month_from (suc n) ms name

unfoldable pub month_number : Text → ℕ
unfolding month_from
month_number name = month_from 1 month_names (to_lower name)

-- `strings.Split(s, "-")`: the first part, and the others.
unfoldable pub split_dash : Text → Text × List Text
split_dash [] = ([], [])
split_dash (c ∷ s) =
    let (part, parts) = split_dash s in if c == b'-' then ([], part ∷ parts) else (c ∷ part, parts)

abbrev pub last_of : Text → List Text → Text
last_of x [] = x
last_of x (y ∷ ys) = last_of y ys

-- The days, or the hundredth of a day that is left.
pub data Days : Type 0 where
  one_day : Days
  expired : Days
  whole_days : ℕ → Days

abbrev pub at_least_one : ℤ → Days
at_least_one (pos n) = whole_days (suc n)
at_least_one (negsuc n) = whole_days 1

module _ {W : Type 0} (t : Calendar W) where
  open t use {Time}

  -- From now to the day, this year or the next.
  unfoldable pub days_until : ℕ → ℤ → Time → Days
  days_until month day now =
      let expiry = t.at_four (t.year now) month day in
      let later = t.next_year expiry in
      if t.before expiry now
      then if t.before later now then expired else at_least_one (t.days_between later now)
      else at_least_one (t.days_between expiry now)

  unfoldable pub days_to_day : ℕ → Result GoError ℤ → W → Days × W
  unfolding days_until
  days_to_day month (err e) w = (one_day, w)
  days_to_day month (ok day) w = let (now, v) = t.now w in (days_until month day now, v)

  abbrev pub days_of_parts : Text → List Text → W → Days × W
  days_of_parts first [] w = (one_day, w)
  days_of_parts first (p ∷ ps) w =
      if month_number first == 0
      then (one_day, w)
      else days_to_day (month_number first) (parse_int64 (last_of p ps)) w

  unfoldable pub days_to_expiry : Text → W → Days × W
  unfolding month_number split_dash days_to_day
  days_to_expiry date_str w = let (first, rest) = split_dash date_str in days_of_parts first rest w
