-- ===== src/Cron.antt =====
-- cron/CrontabSelector.{h,cpp}: a set of integers, listed or evenly spaced, with a least and a greatest
-- permissible value. Sums and differences of int64_t are those of two's complement.
pub mod Matches
pub mod Multiples
pub mod Ranges
pub mod First
pub mod Built
pub mod Standard
pub mod Search
pub mod Order
pub mod Days
pub mod Fits
pub mod Times
pub mod Moves
pub mod Found
pub mod Dates
pub mod Safe
pub mod Present
pub mod Made
pub mod Clock
pub mod Stamps
use Prim.Native.Char.{Char, code}
use Prim.Native.String
use text.Mathlib.Text.{◌==◌ as str_eq}
use bistro.Base.{
  ℕ, suc, ◌%◌, ◌+◌, ◌==◌, String, Bool, true, false, not, ◌&&◌, ◌||◌, Option, none, some, List, [],
  ◌∷◌, is_nil, contains, Outcome, ok, throw, ◌>>=◌, if◌then◌else◌,
}
use bistro.Base.Int.{ℤ, pos, negsuc, pos_part, neg_part, ◌+ℤ◌, ◌-ℤ◌, ltb_ℤ, eqb_ℤ, int_eq}
use bistro.Base.Word.{from_u64, to_u64}
use bistro.Base.Dynamic.{Dynamic, Items, Fields}

pub record CrontabSelector : Type 0 where
  pub sorted_values : List ℤ
  pub start : ℤ
  pub end_ : ℤ
  pub period : ℤ
  pub min_val : ℤ
  pub max_val : ℤ

abbrev pub to_i64 : ℤ → ℤ
to_i64 z = from_u64 (to_u64 z)

-- The remainder of an int64_t, which has the sign of the first number.
abbrev pub rem_ℤ : ℤ → ℤ → ℤ
rem_ℤ (pos a) b = pos (a % (pos_part b + neg_part b))
rem_ℤ (negsuc a) b = pos 0 -ℤ pos (suc a % (pos_part b + neg_part b))

-- std::lower_bound in a sorted range.
unfoldable pub lower_bound : List ℤ → ℤ → Option ℤ
lower_bound [] t = none
lower_bound (v ∷ vs) t = if ltb_ℤ v t then lower_bound vs t else some v

-- The value that is found, and whether it wrapped to the first one.
unfoldable pub find_first_match : CrontabSelector → ℤ → ℤ × Bool
find_first_match s t = elim s.sorted_values [
  | v ∷ vs ↦ elim (lower_bound (v ∷ vs) t) [ none ↦ (v, true) | some w ↦ (w, false) ]
  | [] ↦
      if ltb_ℤ t s.start
      then (s.start, false)
      else let gone = rem_ℤ (to_i64 (t -ℤ s.start)) s.period in
        let next = to_i64 (t +ℤ rem_ℤ (to_i64 (s.period -ℤ gone)) s.period) in
        if ltb_ℤ s.end_ next then (s.start, true) else (next, false)
]

unfoldable pub empty : CrontabSelector → Bool
empty s =
    is_nil s.sorted_values
    && eqb_ℤ s.min_val s.start
    && eqb_ℤ s.max_val s.end_
    && eqb_ℤ (pos 1) s.period

-- tolower
unfoldable pub lower_char : Char → String → String → Char
lower_char c (Prim.Native.String.◌∷◌ upper uppers) (Prim.Native.String.◌∷◌ lower lowers) =
    if code c == code upper then lower else lower_char c uppers lowers
lower_char c _ _ = c

unfoldable pub lower : String → String
lower Prim.Native.String.[] = ""
lower (Prim.Native.String.◌∷◌ c s) =
    Prim.Native.String.◌∷◌ (lower_char c "ABCDEFGHIJKLMNOPQRSTUVWXYZ" "abcdefghijklmnopqrstuvwxyz")
      (lower s)

-- std::sort
unfoldable pub insert_value : ℤ → List ℤ → List ℤ
insert_value v [] = v ∷ []
insert_value v (w ∷ ws) = if ltb_ℤ w v then w ∷ insert_value v ws else v ∷ w ∷ ws

unfoldable pub sort_values : List ℤ → List ℤ
sort_values [] = []
sort_values (v ∷ vs) = insert_value v (sort_values vs)

-- `as_int` is folly::dynamic::asInt; `str_to_value` may be null.
module _ (as_int : Dynamic → Outcome ℤ) (str_to_value : Option (String → Outcome ℤ))
    (min_val max_val : ℤ) where
  unfoldable pub value_of : Dynamic → Outcome ℤ
  value_of (Dynamic.int n) = ok n
  value_of (Dynamic.string s) = elim str_to_value [
    | none ↦ throw "Cannot parse string "
    | some parse ↦ parse (lower s)
  ]
  value_of _ = throw "Cannot parse "

  unfoldable pub parse_value : Dynamic → Outcome ℤ
  parse_value d = value_of d >>= λ res.
      if ltb_ℤ res min_val || ltb_ℤ max_val res then throw "Value out of range" else ok res

  unfoldable pub parse_values : Items → Outcome (List ℤ)
  parse_values Items.nil = ok []
  parse_values (Items.item d ds) = parse_value d >>= λ v. parse_values ds >>= λ vs. ok (v ∷ vs)

  unfoldable pub parse_field : String → Dynamic → CrontabSelector → Outcome CrontabSelector
  parse_field key d s =
      if str_eq key "period"
      then (as_int d >>= λ period.
          if ltb_ℤ period (pos 1) || not (ltb_ℤ period (max_val -ℤ min_val))
          then throw "period not in range"
          else ok (record s { period = period }))
      else (parse_value d >>= λ val.
          if str_eq key "start"
          then ok (record s { start = val })
          else if str_eq key "end"
          then ok (record s { end_ = val })
          else throw "Unknown key: ")

  unfoldable pub parse_fields : Fields → CrontabSelector → Outcome CrontabSelector
  parse_fields Fields.end s = ok s
  parse_fields (Fields.field key d fields) s = parse_field key d s >>= parse_fields fields

  unfoldable pub all_values : CrontabSelector
  all_values = record {
    sorted_values = [];
    start = min_val;
    end_ = max_val;
    period = pos 1;
    min_val = min_val;
    max_val = max_val;
  }

  -- The constructor.
  unfoldable pub make_selector : Dynamic → Outcome CrontabSelector
  make_selector (Dynamic.int n) =
      parse_value (Dynamic.int n) >>= λ v. ok (record all_values { sorted_values = v ∷ [] })
  make_selector (Dynamic.string s) =
      parse_value (Dynamic.string s) >>= λ v. ok (record all_values { sorted_values = v ∷ [] })
  make_selector (Dynamic.array ds) =
      parse_values ds >>= λ vs. ok (record all_values { sorted_values = sort_values vs })
  make_selector (Dynamic.object fields) = parse_fields fields all_values
  make_selector _ = throw "Bad type for crontab selector: "
