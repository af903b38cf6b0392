-- ===== src/Alerts/Range.antt =====
-- `is_alert_in_time_range` of delfin/common/alert_util.py, and the query that `AlertController.sync` of
-- delfin/api/v1/alerts.py makes for it. Times are natural numbers of milliseconds; as in Python, a
-- time of 0 counts as none.
use delfin.Prelude.{
  ℕ, zero, suc, Bool, true, false, not, ◌&&◌, Option, none, some, List, [], filter, leb,
  if◌then◌else◌,
}
use delfin.Errors.{Result, ok, err, invalid_input, storage_not_found}

-- A value of the query: none, a number, or a text that `int` refuses.
pub data Time : Type 0 where
  absent : Time
  time : ℕ → Time
  malformed : Time

pub record Query : Type 0 where
  pub begin_time : Time
  pub end_time : Time

abbrev pub in_bounds : Option ℕ → Option ℕ → ℕ → Bool
in_bounds (some b) (some e) t = leb b t && leb t e
in_bounds (some b) none t = leb b t
in_bounds none (some e) t = leb t e
in_bounds none none t = false

abbrev pub number : Time → Result (Option ℕ)
number absent = ok none
number (time zero) = ok none
number (time (suc n)) = ok (some (suc n))
number malformed = err invalid_input

abbrev in_parsed : Result (Option ℕ) → Result (Option ℕ) → ℕ → Bool
in_parsed (err x) e t = true
in_parsed (ok b) (err x) t = true
in_parsed (ok b) (ok e) t = in_bounds b e t

-- `none` stands for no query, or an empty one.
unfoldable pub is_alert_in_time_range : Option Query → ℕ → Bool
is_alert_in_time_range none t = true
is_alert_in_time_range (some q) t = in_parsed (number q.begin_time) (number q.end_time) t

abbrev pub out_of_order : Option ℕ → Option ℕ → Bool
out_of_order (some b) (some e) = leb e b
out_of_order b e = false

abbrev pub given : Option ℕ → Option ℕ
given none = none
given (some zero) = none
given (some (suc n)) = some (suc n)

abbrev pub time_of : Option ℕ → Time
time_of none = absent
time_of (some n) = time n

-- The query that is sent on, for the times of the request and a storage that is there or not.
unfoldable pub sync_query : Option ℕ → Option ℕ → Bool → Result Query
sync_query b e stored =
    if out_of_order (given b) (given e)
    then err invalid_input
    else if not stored
    then err storage_not_found
    else ok (record { begin_time = time_of b; end_time = time_of e })

-- What the drivers keep of the alerts that a storage has; nothing is asked of them if the request is
-- refused.
abbrev pub in_range_alerts : Result Query → List ℕ → Result (List ℕ)
in_range_alerts (err x) ts = err x
in_range_alerts (ok q) ts = ok (filter (is_alert_in_time_range (some q)) ts)

-- The alerts between the times of a request, where a side without a time is open.
abbrev pub between : Option ℕ → Option ℕ → ℕ → Bool
between b e t =
    elim b [ none ↦ true | some n ↦ leb n t ] && elim e [ none ↦ true | some n ↦ leb t n ]

abbrev pub is_none : Option ℕ → Bool
is_none none = true
is_none (some n) = false

-- What is kept for a request on a stored storage.
abbrev pub kept : Option ℕ → Option ℕ → List ℕ → Result (List ℕ)
kept b e ts =
    if out_of_order (given b) (given e)
    then err invalid_input
    else if is_none (given b) && is_none (given e)
    then ok []
    else ok (filter (between (given b) (given e)) ts)
