-- ===== src/Series/Parsers/Rows.antt =====
-- `fred_json`, `alfred_json` and `twelvedata_json`: what each takes from a document.
use invest.Base.{
  ℕ, ◌≡◌, refl, sym, subst, ap, Bool, true, false, ◌||◌, Option, none, some, String, List, [], ◌∷◌,
  arith,
}
use invest.Common.Dates.{Date}
use invest.Common.Decimal.{Decimal}
use invest.Common.Json.{Json, object, Fields, get_field, has_field, is_text, text_of}
use invest.Common.Numerals.{read_decimal, iso_date}
use invest.Common.Text.{Text, is_literal, strip}
use invest.Series.Repo.{Point}
use invest.Series.Parsers.{
  utc_midnight, Reading, read, parse_error, crashed, value_unless, iso_date_of, is_fred_missing,
  fred_point, fred_row, alfred_point, alfred_row, first_word, twelvedata_point, twelvedata_row,
  ◌>>=◌,
}

-- The readers of JSON documents.
pub data Format : Type 0 where
  fred alfred twelvedata : Format

abbrev pub rows_key : Format → String
rows_key fred = "observations"
rows_key alfred = "observations"
rows_key twelvedata = "values"

-- The document says that the request failed.
abbrev pub reports_error : Format → Fields → Bool
reports_error fred fields = has_field "error_message" fields
reports_error alfred fields = has_field "error_message" fields
reports_error twelvedata fields =
    is_text "error" (get_field "status" fields) || has_field "code" fields

-- A text stands for a value, or says that there is none.
abbrev pub StandsFor : Bool → Text → Option Decimal → Type 0
StandsFor missing raw none = missing ≡ true
StandsFor missing raw (some v) = (missing ≡ false) × (read_decimal raw ≡ some v)

-- Each row beside its point.
abbrev pub Each {ℓ} : {A : Type ℓ} → (A → Point → Type 0) → List A → List Point → Type 0
Each P [] [] = Unit
Each P (r ∷ rows) (p ∷ ps) = P r p × Each P rows ps
Each P _ _ = ⊥

value_unless-StandsFor :
    (missing : Bool) (raw : Text) (v : Option Decimal)
    → value_unless missing raw ≡ read v
    → StandsFor missing raw v
unfolding value_unless
value_unless-StandsFor missing raw none h = ground arith
value_unless-StandsFor missing raw (some v) h = ground arith

value_unless_of_StandsFor :
    (missing : Bool) (raw : Text) (v : Option Decimal)
    → StandsFor missing raw v
    → value_unless missing raw ≡ read v
unfolding value_unless
value_unless_of_StandsFor missing raw none h = ground arith
value_unless_of_StandsFor missing raw (some v) h = ground arith

read-injective {ℓ} : {A : Type ℓ} {a b : A} → read a ≡ read b → a ≡ b
read-injective h = cc

>>=-eq-read {ℓ κ} :
    {A : Type ℓ} {B : Type κ} (m : Reading A) (f : A → Reading B) {b : B}
    → (m >>= f) ≡ read b
    → (a : A) × (m ≡ read a) × (f a ≡ read b)
>>=-eq-read (read a) f h = (a, refl, h)
>>=-eq-read (parse_error r) f h = cc
>>=-eq-read crashed f h = cc

-- The row is a dict with this value under the key.
abbrev pub Holds : String → Json → Json → Type 0
Holds key (object fields) j = get_field key fields ≡ some j
Holds key row j = ⊥

module _ (repr : Json → Text) (week_date : Text → Option Date) where
  abbrev pub IsDate : Text → Date → Type 0
  IsDate s d = iso_date week_date s ≡ some d

  abbrev pub HasValue : Json → Option Decimal → Type 0
  HasValue value v = let raw = strip (text_of repr value) in StandsFor (is_fred_missing raw) raw v

  -- What a row says, by format.
  abbrev pub IsPoint : Format → Json → Point → Type 0
  IsPoint fred row (day, v, vintage_at) =
      (date : Json) × (value : Json) × Holds "date" row date
      × Holds "value" row value
      × IsDate (text_of repr date) day
      × HasValue value v
      × (vintage_at ≡ none)
  IsPoint alfred row (day, v, vintage_at) =
      (date : Json) × (value : Json) × (start : Json) × (vintage : Date) × Holds "date" row date
      × Holds "value" row value
      × Holds "realtime_start" row start
      × IsDate (text_of repr date) day
      × IsDate (text_of repr start) vintage
      × HasValue value v
      × (vintage_at ≡ some (utc_midnight vintage))
  IsPoint twelvedata row (day, v, vintage_at) =
      (stamp : Json) × (close : Json) × Holds "datetime" row stamp
      × Holds "close" row close
      × IsDate (first_word (text_of repr stamp)) day
      × (let raw = strip (text_of repr close) in StandsFor (is_literal "" raw) raw v)
      × (vintage_at ≡ none)

  iso_date_of-IsDate : (s : Text) (d : Date) → iso_date_of week_date s ≡ read d → IsDate s d
  unfolding iso_date_of
  iso_date_of-IsDate s d h = ground arith

  iso_date_of_is : (s : Text) (d : Date) → IsDate s d → iso_date_of week_date s ≡ read d
  unfolding iso_date_of
  iso_date_of_is s d h = rw h

  -- A date and a value that are read one after the other.
  unfoldable pub dated_value : Text → Bool → Text → Option ℕ → Reading Point
  dated_value day missing raw vintage_at = do
    d ← iso_date_of week_date day
    v ← value_unless missing raw
    read (d, v, vintage_at)

  abbrev ReadsAs : Text → Bool → Text → Option ℕ → Point → Type 0
  ReadsAs day missing raw vintage_at p =
      IsDate day p.0 × StandsFor missing raw p.1 × (p.2 ≡ vintage_at)

  dated_value-ReadsAs :
      (day : Text) (missing : Bool) (raw : Text) (vintage_at : Option ℕ) (p : Point)
      → dated_value day missing raw vintage_at ≡ read p
      → ReadsAs day missing raw vintage_at p
  unfolding dated_value
  dated_value-ReadsAs day missing raw vintage_at p h =
      let (d, is_day, k) = >>=-eq-read (iso_date_of week_date day) _ h in
      let (v, is_value, e) = >>=-eq-read (value_unless missing raw) _ k in
      let same = read-injective e in
      (
        subst (IsDate day) (ap (λ (q : Point). q.0) same) (iso_date_of-IsDate _ _ is_day),
        subst (StandsFor missing raw) (ap (λ (q : Point). q.1) same)
            (value_unless-StandsFor _ _ _ is_value),
        sym (ap (λ (q : Point). q.2) same),
      )

  dated_value_of_ReadsAs :
      (day : Text) (missing : Bool) (raw : Text) (vintage_at : Option ℕ) (p : Point)
      → ReadsAs day missing raw vintage_at p
      → dated_value day missing raw vintage_at ≡ read p
  unfolding dated_value
  dated_value_of_ReadsAs day missing raw vintage_at (d, v, n) (e, s, same) =
      rw (iso_date_of_is _ _ e, value_unless_of_StandsFor _ _ _ s, same)

  fred_point_reads :
      (row : Json) (date value : Option Json) (p : Point)
      → fred_point repr week_date row date value ≡ read p
      → (d : Json) × (v : Json) × (date ≡ some d)
        × (value ≡ some v)
        × IsDate (text_of repr d) p.0
        × HasValue v p.1
        × (p.2 ≡ none)
  fred_point_reads row none value p h = cc
  fred_point_reads row (some d) none p h = cc
  fred_point_reads row (some d) (some v) p h =
      let raw = strip (text_of repr v) in
      let (is_day, is_value, same) =
        dated_value-ReadsAs (text_of repr d) (is_fred_missing raw) raw none p
          (unfold dated_value in h) in
      (d, v, refl, refl, is_day, is_value, same)

  twelvedata_point_reads :
      (row : Json) (date value : Option Json) (p : Point)
      → twelvedata_point repr week_date row date value ≡ read p
      → (d : Json) × (v : Json) × (date ≡ some d)
        × (value ≡ some v)
        × ReadsAs
            (first_word (text_of repr d))
            (is_literal "" (strip (text_of repr v)))
            (strip (text_of repr v))
            none
            p
  twelvedata_point_reads row none value p h = cc
  twelvedata_point_reads row (some d) none p h = cc
  twelvedata_point_reads row (some d) (some v) p h =
      let raw = strip (text_of repr v) in
      (
        d,
        v,
        refl,
        refl,
        dated_value-ReadsAs (first_word (text_of repr d)) (is_literal "" raw) raw none p
            (unfold dated_value in h),
      )

  alfred_point_reads :
      (row : Json) (date value start : Option Json) (p : Point)
      → alfred_point repr week_date row date value start ≡ read p
      → (d : Json) × (v : Json) × (t : Json) × (vintage : Date) × (date ≡ some d)
        × (value ≡ some v)
        × (start ≡ some t)
        × IsDate (text_of repr t) vintage
        × ReadsAs
            (text_of repr d)
            (is_fred_missing (strip (text_of repr v)))
            (strip (text_of repr v))
            (some (utc_midnight vintage))
            p
  alfred_point_reads row none value start p h = cc
  alfred_point_reads row (some d) none start p h = cc
  alfred_point_reads row (some d) (some v) none p h = cc
  alfred_point_reads row (some d) (some v) (some t) p h =
      let raw = strip (text_of repr v) in
      let (day, is_day, k) = >>=-eq-read (iso_date_of week_date (text_of repr d)) _ h in
      let (vintage, is_vintage, l) = >>=-eq-read (iso_date_of week_date (text_of repr t)) _ k in
      let back : dated_value (text_of repr d) (is_fred_missing raw) raw
            (some (utc_midnight vintage))
          ≡ read p =
        unfold dated_value in rw is_day l in
      (
        d,
        v,
        t,
        vintage,
        refl,
        refl,
        refl,
        iso_date_of-IsDate _ _ is_vintage,
        dated_value-ReadsAs (text_of repr d) (is_fred_missing raw) raw (some (utc_midnight vintage))
            p back,
      )

  -- The reader of a row, by format.
  abbrev pub reader : Format → Json → Reading Point
  reader fred = fred_row repr week_date
  reader alfred = alfred_row repr week_date
  reader twelvedata = twelvedata_row repr week_date

  pub reader-IsPoint :
      (f : Format) (row : Json) (p : Point) → reader f row ≡ read p → IsPoint f row p
  unfolding fred_row alfred_row twelvedata_row
  reader-IsPoint fred (object fields) p h = fred_point_reads (object fields) _ _ p h
  reader-IsPoint twelvedata (object fields) p h =
      let (d, v, hd, hv, (is_day, is_value, same)) =
        twelvedata_point_reads (object fields) _ _ p h in
      (d, v, hd, hv, is_day, is_value, same)
  reader-IsPoint alfred (object fields) p h =
      let (d, v, t, vintage, hd, hv, ht, is_vintage, (is_day, is_value, same)) =
        alfred_point_reads (object fields) _ _ _ p h in
      (d, v, t, vintage, hd, hv, ht, is_day, is_vintage, is_value, same)
  reader-IsPoint f row p h = cc

  pub reader_of_IsPoint :
      (f : Format) (row : Json) (p : Point) → IsPoint f row p → reader f row ≡ read p
  unfolding fred_row alfred_row twelvedata_row
  reader_of_IsPoint fred (object fields) p (d, v, hd, hv, is_day, is_value, same) =
      rw (hd, hv)
        (unfold dated_value in dated_value_of_ReadsAs _ _ _ none p (is_day, is_value, same))
  reader_of_IsPoint fred _ p h = absurd h.2
  reader_of_IsPoint twelvedata (object fields) p (d, v, hd, hv, is_day, is_value, same) =
      rw (hd, hv)
        (unfold dated_value in dated_value_of_ReadsAs _ _ _ none p (is_day, is_value, same))
  reader_of_IsPoint twelvedata _ p h = absurd h.2
  reader_of_IsPoint alfred (object fields) p
        (d, v, t, vintage, hd, hv, ht, is_day, is_vintage, is_value, same) =
      rw
        (
          hd,
          hv,
          ht,
          iso_date_of_is _ _ is_day,
          iso_date_of_is _ _ is_vintage,
          value_unless_of_StandsFor _ _ _ is_value,
        )
        (ap (λ n. read (p.0, p.1, n)) (sym same))
  reader_of_IsPoint alfred _ p h = absurd h.4
