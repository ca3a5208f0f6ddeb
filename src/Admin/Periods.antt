-- ===== src/Admin/Periods.antt =====
-- internal/admin/admin.go: the period of the email list. A query is a map of its values, of which a
-- missing one reads as the empty text. The parsing of dates and numbers, their printing and SQLite's
-- LIKE are parameters.
use doevoe.Base.{
  ℕ, ℤ, ◌+◌, ◌-◌, ◌*◌, ltb, Text, Bool, not, ◌&&◌, Option, none, some, List, [], ◌∷◌, ◌++◌, codes,
  text_eq, is_empty, if◌then◌else◌,
}
use doevoe.Store.{hour, fmt_time}

-- time.ParseInLocation with a date, in nanoseconds, and the numbers of the query.
pub record Parsing : Type 0 where
  pub date : Text → Option ℕ
  pub page_number : Text → ℕ  -- strconv.Atoi; a negative number, which is page 1, reads as 0
  pub domain_number : Text → ℤ  -- strconv.ParseInt, whose error is dropped
  pub decimal : ℕ → Text
  pub format_int : ℤ → Text  -- strconv.FormatInt
  pub like : Text → Text → Bool

abbrev pub day : ℕ
day = 24 * hour

-- url.Values with one value for each key
abbrev pub Query : Type 0
Query = List (Text × Text)

abbrev pub get : Text → Query → Text
get key [] = []
get key ((k, v) ∷ rest) = if text_eq k key then v else get key rest

pub record EmailRange : Type 0 where
  pub key : Text
  pub label : Text
  pub title : Text
  pub days : ℕ

-- emailRanges
abbrev pub week_range : EmailRange
week_range = record { key = codes "7d"; label = codes "7d"; title = codes "Last 7 days"; days = 7 }

abbrev pub email_ranges : List EmailRange
email_ranges =
    record { key = codes "1d"; label = codes "24h"; title = codes "Last 24 hours"; days = 1 }
    ∷ week_range
    ∷ record { key = codes "30d"; label = codes "30d"; title = codes "Last 30 days"; days = 30 }
    ∷ record { key = codes "90d"; label = codes "90d"; title = codes "Last 90 days"; days = 90 }
    ∷ record { key = codes "all"; label = codes "All"; title = codes "All time"; days = 0 }
    ∷ []

-- lookupEmailRange
abbrev pub range_in : Text → List EmailRange → Option EmailRange
range_in key [] = none
range_in key (r ∷ rs) = if text_eq r.key key then some r else range_in key rs

-- emailWindow; 0 stands for the empty string in the bounds.
pub record EmailWindow : Type 0 where
  pub range : Text
  pub from_date : Text
  pub to_date : Text
  pub created_from : ℕ
  pub created_to : ℕ
  pub label : Text

-- presetWindow
unfoldable pub preset_window : EmailRange → ℕ → EmailWindow
preset_window r at = record {
  range = r.key;
  from_date = [];
  to_date = [];
  created_from = if ltb 0 r.days then fmt_time (at - r.days * day) else 0;
  created_to = 0;
  label = r.title;
}

-- The date as it is echoed, and the bound, for each end of a custom period.
abbrev pub from_bound : Option ℕ → ℕ
from_bound none = 0
from_bound (some d) = fmt_time d

abbrev pub to_bound : Option ℕ → ℕ
to_bound none = 0
to_bound (some d) = fmt_time (d + day)

abbrev pub echoed : Text → Option ℕ → Text
echoed raw none = []
echoed raw (some d) = raw

unfoldable pub window_label : Text → Text → Option Text
window_label from to =
    if not (is_empty from) && not (is_empty to)
    then some (from ++ (32 ∷ 226 ∷ 134 ∷ 146 ∷ 32 ∷ []) ++ to)
    else if not (is_empty from)
    then some (codes "From " ++ from)
    else if not (is_empty to)
    then some (codes "Up to " ++ to)
    else none

-- customWindow, with the dates as they parsed.
unfoldable pub custom_labelled :
    Text → Text → Option ℕ → Option ℕ → Option Text → Option EmailWindow
custom_labelled from_raw to_raw from to none = none
custom_labelled from_raw to_raw from to (some label) = some (record {
  range = codes "custom";
  from_date = echoed from_raw from;
  to_date = echoed to_raw to;
  created_from = from_bound from;
  created_to = to_bound to;
  label = label;
})

unfoldable pub custom_of : Text → Text → Option ℕ → Option ℕ → Option EmailWindow
unfolding custom_labelled
custom_of from_raw to_raw from to =
    custom_labelled from_raw to_raw from to (window_label (echoed from_raw from) (echoed to_raw to))

unfoldable pub custom_window : Parsing → Text → Text → Option EmailWindow
unfolding custom_of
custom_window p from_raw to_raw = custom_of from_raw to_raw (p.date from_raw) (p.date to_raw)

unfoldable pub preset_or_default : ℕ → Option EmailRange → EmailWindow
unfolding preset_window
preset_or_default at (some r) = preset_window r at
preset_or_default at none = preset_window week_range at

unfoldable pub window_or : ℕ → Text → Option EmailWindow → EmailWindow
unfolding preset_or_default
window_or at range (some win) = win
window_or at range none = preset_or_default at (range_in range email_ranges)

-- resolveEmailWindow
unfoldable pub resolve_email_window : Parsing → Query → ℕ → EmailWindow
unfolding window_or custom_window
resolve_email_window p q at =
    window_or at (get (codes "range") q)
      (custom_window p (get (codes "from") q) (get (codes "to") q))
