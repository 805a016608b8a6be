-- ===== src/Tenants/Periods.antt =====
-- `validate_effective_period` and `effective_at` of contracts.py.
use businessos.Prelude.{
  ℕ, Bool, true, false, not, ◌&&◌, ◌||◌, Option, none, some, ltb, leb, ◌≡◌, arith,
}
use businessos.Errors.{Error, Result, ok, business_error, ◌>>◌, require}

-- A date, a datetime without a time zone, or an instant; each kind is ordered by its number.
pub data TemporalValue : Type 0 where
  date : ℕ → TemporalValue
  naive : ℕ → TemporalValue
  aware : ℕ → TemporalValue

abbrev pub invalid_effective_period : Error
invalid_effective_period = business_error "invalid_effective_dates" 422

abbrev is_datetime : Option TemporalValue → Bool
is_datetime none = false
is_datetime (some (date d)) = false
is_datetime (some (naive n)) = true
is_datetime (some (aware n)) = true

abbrev is_date : Option TemporalValue → Bool
is_date none = false
is_date (some (date d)) = true
is_date (some (naive n)) = false
is_date (some (aware n)) = false

abbrev is_naive : Option TemporalValue → Bool
is_naive (some (naive n)) = true
is_naive _ = false

abbrev moment : TemporalValue → ℕ
moment (date d) = d
moment (naive n) = n
moment (aware n) = n

abbrev is_empty : Option TemporalValue → Option TemporalValue → Bool
is_empty none end = false
is_empty (some start) none = false
is_empty (some start) (some end) = leb (moment end) (moment start)

unfoldable pub validate_effective_period :
    Option TemporalValue → Option TemporalValue → Result (Unit {0})
validate_effective_period start end = do
  require (not ((is_datetime start || is_datetime end) && (is_date start || is_date end)))
      invalid_effective_period
  require (not (is_naive start || is_naive end)) invalid_effective_period
  require (not (is_empty start end)) invalid_effective_period

-- The checks of the kind of the instant.
abbrev is_comparable : Option TemporalValue → Option TemporalValue → TemporalValue → Bool
is_comparable start end (date d) = not (is_datetime start || is_datetime end)
is_comparable start end (naive n) = false
is_comparable start end (aware n) = not (is_date start || is_date end)

abbrev begins : Option TemporalValue → TemporalValue → Bool
begins none instant = true
begins (some start) instant = leb (moment start) (moment instant)

abbrev continues : Option TemporalValue → TemporalValue → Bool
continues none instant = true
continues (some end) instant = ltb (moment instant) (moment end)

unfoldable pub effective_at :
    Option TemporalValue → Option TemporalValue → TemporalValue → Result Bool
unfolding validate_effective_period
effective_at start end instant = do
  validate_effective_period start end
  validate_effective_period start none
  require (is_comparable start end instant) invalid_effective_period
  ok (begins start instant && continues end instant)

-- A period that is valid on both sides of a bound of its kind is split there: an instant that is
-- effective in the whole is effective in exactly one part.
pub effective_at_split :
    (start end : Option TemporalValue) (bound instant : TemporalValue) (whole first second : Bool)
    → effective_at start end instant ≡ ok whole
    → effective_at start (some bound) instant ≡ ok first
    → effective_at (some bound) end instant ≡ ok second
    → (whole ≡ first || second) × ((first && second) ≡ false)
unfolding effective_at
effective_at_split start end bound instant whole first second h k l = ground (arith, h, k, l)
