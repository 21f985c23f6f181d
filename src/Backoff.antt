-- ===== src/Backoff.antt =====
-- config/JobBackoffSettings.cpp: how long a task of a job waits after each failure. The vector
-- `values_` is a list of integers; std::upper_bound is the first element above its argument, which
-- is what it finds in an increasing range.
pub mod Parse
pub mod Next
pub mod RoundTrip
use text.Mathlib.Text.{◌==◌ as str_eq}
use bistro.Base.{
  String, Bool, true, false, Option, none, some, List, [], ◌∷◌, ◌++◌, ◌<◌, ◌+◌, ◌==◌, ◌&&◌, not,
  Outcome, ok, throw, fatal, require, check, is_nil, ◌>>=◌, ◌>>◌, if◌then◌else◌,
}
use bistro.Base.Int.{ℤ, pos, pos_part, neg_part, ltb_ℤ, eqb_ℤ}
use bistro.Base.Word.{to_i32}
use bistro.Base.Dynamic
use bistro.Base.Dynamic.{Dynamic, Items}

-- if/common.thrift
pub record BackoffDuration : Type 0 where
  pub no_more_backoffs : Bool
  pub seconds : ℤ

pub record JobBackoffSettings : Type 0 where
  pub values : List ℤ
  pub repeat : Bool

-- values_.back(), or nothing if the vector is empty.
abbrev pub back : List ℤ → Option ℤ
back [] = none
back (v ∷ []) = some v
back (v ∷ w ∷ vs) = back (w ∷ vs)

-- The checks on one integer, before it is pushed onto `values_`.
unfoldable pub accept_value : List ℤ → ℤ → Outcome (Unit {0})
accept_value values val =
    require (ltb_ℤ (pos 0) val) "Backoff times must be positive: " >> elim (back values) [
      | none ↦ ok tt
      | some last ↦
          require (not (eqb_ℤ last val)) "Duplicate backoff time: "
          >> require (not (ltb_ℤ val last)) "Backoff times must be in increasing order"
    ]

-- The branch for a string, after which the loop stops.
unfoldable pub finish : List ℤ → String → Outcome JobBackoffSettings
finish values s =
    if str_eq s "repeat"
    then if is_nil values
      then throw "No backoff interval given before 'repeat'"
      else ok (record { values = values; repeat = true })
    else if str_eq s "fail"
    then ok (record { values = values; repeat = false })
    else throw "Unknown string in backoff settings: "

-- The loop of the constructor.
unfoldable pub parse_items : List ℤ → Items → Outcome JobBackoffSettings
parse_items values Items.nil = ok (record { values = values; repeat = false })
parse_items values (Items.item (Dynamic.int n) rest) =
    let next = parse_items (values ++ to_i32 n ∷ []) rest in
    accept_value values (to_i32 n) >>= λ _. next
parse_items values (Items.item (Dynamic.string s) rest) = finish values s
parse_items values (Items.item _ rest) = throw "Invalid backoff value: "

-- JobBackoffSettings(const dynamic&)
unfoldable pub parse : Dynamic → Outcome JobBackoffSettings
unfolding parse_items accept_value finish
parse (Dynamic.array Items.nil) = throw "Backoff setting is empty"
parse (Dynamic.array (Items.item d ds)) = parse_items [] (Items.item d ds)
parse _ = throw "Expected array; got "

unfoldable pub upper_bound : List ℤ → ℤ → Option ℤ
upper_bound [] x = none
upper_bound (v ∷ vs) x = if ltb_ℤ x v then some v else upper_bound vs x

abbrev pub wait : ℤ → BackoffDuration
wait seconds = record { no_more_backoffs = false; seconds = seconds }

-- A job with "backoff": ["fail"] that issues an "incomplete_backoff" status waits a minute.
abbrev pub no_more : BackoffDuration
no_more = record { no_more_backoffs = true; seconds = pos 60 }

-- values_.back() of an empty vector is undefined; `fatal` stands for it.
unfoldable pub get_next : JobBackoffSettings → BackoffDuration → Outcome BackoffDuration
unfolding upper_bound
get_next s cur = check (not cur.no_more_backoffs) >> elim (upper_bound s.values cur.seconds) [
  | some v ↦ ok (wait v)
  | none ↦
      if s.repeat
      then elim (back s.values) [ none ↦ fatal | some last ↦ ok (wait last) ]
      else ok no_more
]

unfoldable pub items_of : List ℤ → Items → Items
items_of [] tail = tail
items_of (v ∷ vs) tail = Items.item (Dynamic.int v) (items_of vs tail)

unfoldable pub to_dynamic : JobBackoffSettings → Dynamic
unfolding items_of
to_dynamic s = Dynamic.array (
    items_of s.values
      (Items.item (Dynamic.string (if s.repeat then "repeat" else "fail")) Items.nil))

-- The default constructor.
abbrev ints : List ℤ → Items
ints vs = items_of vs (Items.item (Dynamic.string "repeat") Items.nil)

unfoldable pub default_settings : Outcome JobBackoffSettings
unfolding parse items_of
default_settings = parse (
    Dynamic.array (
      ints (
        pos 15
        ∷ pos 30
        ∷ pos 60
        ∷ pos 300
        ∷ pos 900
        ∷ pos 3600
        ∷ pos 7200
        ∷ pos 21600
        ∷ pos 86400
        ∷ [])))
