-- ===== src/Series/Calendar/Reader.antt =====
-- `fred_release_dates` of mios/series/calendar.py, and the reads of `CalendarRepo`.
use mathlib.Core.Option.{some-injective, none-ne-some}
use invest.Base.{
  ◌⊎◌, All, subst, Option-cases, arith, ◌≡◌, refl, sym, ap, ◌∙◌, ◌≢◌, inl, inr, Bool, true, false,
  ◌||◌, Option, none, some, String, List, [], ◌∷◌, if◌then◌else◌, Bool-cases,
}
use invest.Common.Dates.{Date}
use invest.Common.Json.{
  Json, LoadedJson, json_value, json_error, json_crash, null, array, object, Items, Fields,
  elements, get_field, has_field, is_falsy, text_of,
}
use invest.Common.Numerals.{iso_date}
use invest.Common.Text.{Text}
use invest.Series.Calendar.{
  ScheduledRelease, ReleaseDates, release_dates, calendar_error, calendar_crash,
}

-- `not value`, for a value that may be missing.
abbrev pub missing_or_falsy : Option Json → Bool
missing_or_falsy none = true
missing_or_falsy (some j) = is_falsy j

-- `value is None`
abbrev pub is_none : Option Json → Bool
is_none none = true
is_none (some null) = true
is_none (some j) = false

-- `str` of a list or a dict, the reader of dates with a week, and a text as a `String`.
module _ (repr : Json → Text) (week_date : Text → Option Date) (string_of : Text → String) where
  -- `str(row.get(key))`
  abbrev pub str_of : Option Json → Text
  str_of none = text_of repr null
  str_of (some j) = text_of repr j

  abbrev pub release_on : Option Date → Option Json → Option Json → Option ScheduledRelease
  release_on none name release_id = none
  release_on (some day) name release_id = some (record {
    provider_release_id = string_of (str_of release_id);
    release_name = string_of (str_of name);
    release_date = day;
  })

  -- One row, which is passed over where it has no date, name or identifier.
  unfoldable pub release_of_row : Json → Option ScheduledRelease
  release_of_row (object row) =
      let raw_date = get_field "date" row in
      let name = get_field "release_name" row in
      let release_id = get_field "release_id" row in
      if missing_or_falsy raw_date || (missing_or_falsy name || is_none release_id)
      then none
      else release_on (iso_date week_date (str_of raw_date)) name release_id
  release_of_row row = none

  abbrev pub with_release : Option ScheduledRelease → List ScheduledRelease → List ScheduledRelease
  with_release none out = out
  with_release (some release) out = release ∷ out

  unfoldable pub usable_rows : List Json → List ScheduledRelease
  unfolding release_of_row
  usable_rows [] = []
  usable_rows (row ∷ rows) = with_release (release_of_row row) (usable_rows rows)

  abbrev pub some_releases : List ScheduledRelease → ReleaseDates
  some_releases [] = calendar_error "none usable"
  some_releases (release ∷ out) = release_dates (release ∷ out)

  abbrev pub listed : Option Json → ReleaseDates
  listed (some (array rows)) = some_releases (usable_rows (elements rows))
  listed rows = calendar_error "no list"

  unfoldable pub read_document : LoadedJson → ReleaseDates
  unfolding usable_rows
  read_document json_error = calendar_error "not JSON"
  read_document json_crash = calendar_crash
  read_document (json_value (object fields)) =
      if has_field "error_message" fields
      then calendar_error "provider error"
      else listed (get_field "release_dates" fields)
  read_document (json_value j) = calendar_error "not an object"

  -- `json.loads`
  unfoldable pub fred_release_dates : (String → LoadedJson) → String → ReleaseDates
  unfolding read_document
  fred_release_dates loads payload = read_document (loads payload)

  -- The row states the release: it has a date that is read, a name that is not empty, and an identifier
  -- that is not None.
  abbrev pub IsRow : Json → ScheduledRelease → Type 0
  IsRow row release =
      (fields : Fields) × (day : Json) × (name : Json) × (id : Json) × (row ≡ object fields)
      × (get_field "date" fields ≡ some day)
      × (is_falsy day ≡ false)
      × (get_field "release_name" fields ≡ some name)
      × (is_falsy name ≡ false)
      × (get_field "release_id" fields ≡ some id)
      × (is_none (some id) ≡ false)
      × (iso_date week_date (text_of repr day) ≡ some release.release_date)
      × (release ≡ record {
        provider_release_id = string_of (text_of repr id);
        release_name = string_of (text_of repr name);
        release_date = release.release_date;
      })

  -- The releases are those of the rows that state one, in order.
  abbrev pub Picks : List Json → List ScheduledRelease → Type 0
  Picks [] rs = rs ≡ []
  Picks (row ∷ rows) rs =
      ((r : ScheduledRelease) × (rest : List ScheduledRelease) × IsRow row r
        × (rs ≡ r ∷ rest)
        × Picks rows rest)
      ⊎ (((r : ScheduledRelease) → ¬ IsRow row r) × Picks rows rs)

  release_of-IsRow :
      (fields : Fields) (day name id : Option Json) (r : ScheduledRelease)
      → get_field "date" fields ≡ day
      → get_field "release_name" fields ≡ name
      → get_field "release_id" fields ≡ id
      → (if missing_or_falsy day || (missing_or_falsy name || is_none id)
          then none
          else release_on (iso_date week_date (str_of day)) name id)
        ≡ some r
      → IsRow (object fields) r
  release_of-IsRow fields none name id r d n i e = cc
  release_of-IsRow fields (some day) none id r d n i e = absurd (ground arith)
  release_of-IsRow fields (some day) (some name) none r d n i e = absurd (ground arith)
  release_of-IsRow fields (some day) (some name) (some id) r d n i e =
      elim (Bool-cases (is_falsy day)) [
        | inl f ↦ let k : none ≡ some r = (rw f at e) in cc
        | inr f ↦ elim (Bool-cases (is_falsy name)) [
          | inl g ↦ let k : none ≡ some r = (rw (f, g) at e) in cc
          | inr g ↦ elim (Bool-cases (is_none (some id))) [
            | inl h ↦ let k : none ≡ some r = (rw (f, g, h) at e) in cc
            | inr h ↦ elim (Option-cases (iso_date week_date (text_of repr day))) [
              | inl u ↦ let k : none ≡ some r = (rw (f, g, h, u) at e) in cc
              | inr (date, u) ↦
                  let k : some (record {
                    provider_release_id = string_of (text_of repr id);
                    release_name = string_of (text_of repr name);
                    release_date = date;
                  })
                      ≡ some r =
                    (rw (f, g, h, u) at e) in
                  let same = some-injective _ _ k in
                  let on : date ≡ r.release_date =
                    ap (λ (x : ScheduledRelease). x.release_date) same in
                  (
                    fields,
                    day,
                    name,
                    id,
                    refl,
                    d,
                    f,
                    n,
                    g,
                    i,
                    h,
                    u ∙ ap some on,
                    sym same
                        ∙ ap
                            (λ (t : Date). record {
                              provider_release_id = string_of (text_of repr id);
                              release_name = string_of (text_of repr name);
                              release_date = t;
                            })
                            on,
                  )
            ]
          ]
        ]
      ]

  IsRow-release_of_row :
      (row : Json) (r : ScheduledRelease) → IsRow row r → release_of_row row ≡ some r
  unfolding release_of_row
  IsRow-release_of_row row r (fields, day, name, id, o, d, f, n, g, i, h, u, same) =
      ap release_of_row o ∙ rw (d, n, i) (rw (f, g, h, u) (ap some (sym same)))

  release_of_row-IsRow :
      (row : Json) (r : ScheduledRelease) → release_of_row row ≡ some r → IsRow row r
  unfolding release_of_row
  release_of_row-IsRow (object fields) r e = release_of-IsRow fields _ _ _ r refl refl refl e
  release_of_row-IsRow _ r e = cc

  usable_rows-Picks : (rows : List Json) → Picks rows (usable_rows rows)
  unfolding usable_rows
  usable_rows-Picks [] = refl
  usable_rows-Picks (row ∷ rows) = elim (Option-cases (release_of_row row)) [
    | inl e ↦ rw e (
        inr (
          (λ r is. none-ne-some r (sym e ∙ IsRow-release_of_row row r is)),
          usable_rows-Picks rows,
        ))
    | inr (r, e) ↦
        rw e (inl (r, usable_rows rows, release_of_row-IsRow row r e, refl, usable_rows-Picks rows))
  ]

  Picks-none :
      (rows : List Json)
      → usable_rows rows ≡ []
      → All (λ row. (r : ScheduledRelease) → ¬ IsRow row r) rows
  unfolding usable_rows
  Picks-none [] e = tt
  Picks-none (row ∷ rows) e = elim (Option-cases (release_of_row row)) [
    | inl q ↦ (
      λ r is. none-ne-some r (sym q ∙ IsRow-release_of_row row r is),
      Picks-none rows (rw q at e),
    )
    | inr (r, q) ↦ let k : r ∷ usable_rows rows ≡ [] = (rw q at e) in cc
  ]

  -- What a document gives: the releases of the rows that state one, of which there is one at least; or
  -- a failure, where it is no object with a list that has such a row, or reports an error; or another
  -- exception, where reading the payload as JSON raised it.
  abbrev pub IsReadOf : LoadedJson → ReleaseDates → Type 0
  IsReadOf document (release_dates rs) =
      (fields : Fields) × (rows : Items) × (document ≡ json_value (object fields))
      × (has_field "error_message" fields ≡ false)
      × (get_field "release_dates" fields ≡ some (array rows))
      × Picks (elements rows) rs
      × (rs ≢ [])
  IsReadOf document (calendar_error message) =
      (document ≢ json_crash)
      × ((fields : Fields) (rows : Items)
          → document ≡ json_value (object fields)
          → has_field "error_message" fields ≡ false
          → get_field "release_dates" fields ≡ some (array rows)
          → All (λ row. (r : ScheduledRelease) → ¬ IsRow row r) (elements rows))
  IsReadOf document calendar_crash = document ≡ json_crash

  object-injective :
      {fields fields' : Fields}
      → json_value (object fields) ≡ json_value (object fields')
      → fields ≡ fields'
  object-injective h = cc

  array-injective : {js ks : Items} → some (array js) ≡ some (array ks) → js ≡ ks
  array-injective h = cc

  IsReadOf-rows :
      (fields : Fields) (rows : Items) (rs : List ScheduledRelease)
      → has_field "error_message" fields ≡ false
      → get_field "release_dates" fields ≡ some (array rows)
      → usable_rows (elements rows) ≡ rs
      → IsReadOf (json_value (object fields)) (some_releases rs)
  IsReadOf-rows fields rows [] e g u = (
    (λ h. cc),
    λ fields' rows' same e' g'. Picks-none (elements rows') (
        ap (λ js. usable_rows (elements js))
          (array-injective
            (sym g' ∙ ap (get_field "release_dates") (sym (object-injective same)) ∙ g))
        ∙ u),
  )
  IsReadOf-rows fields rows (r ∷ rs) e g u =
      (fields, rows, refl, e, g, subst (Picks (elements rows)) u (usable_rows-Picks _), λ h. cc)

  IsReadOf-listed :
      (fields : Fields) (found : Option Json)
      → has_field "error_message" fields ≡ false
      → get_field "release_dates" fields ≡ found
      → IsReadOf (json_value (object fields)) (listed found)
  IsReadOf-listed fields (some (array rows)) e g =
      IsReadOf-rows fields rows (usable_rows (elements rows)) e g refl
  IsReadOf-listed fields _ e g = (
    (λ h. cc),
    λ fields' rows' same e' g'.
        let k = ap (get_field "release_dates") (object-injective same) ∙ g' in cc,
  )

  IsReadOf-document : (document : LoadedJson) → IsReadOf document (read_document document)
  unfolding read_document
  IsReadOf-document json_crash = refl
  IsReadOf-document json_error = ((λ h. cc), λ fields rows same e g. cc)
  IsReadOf-document (json_value (object fields)) =
      elim (Bool-cases (has_field "error_message" fields)) [
        | inl e ↦ rw e (
          (λ h. cc),
          λ fields' rows' same e' g'.
              let k = ap (has_field "error_message") (object-injective same) ∙ e' in cc,
        )
        | inr e ↦ rw e (IsReadOf-listed fields (get_field "release_dates" fields) e refl)
      ]
  IsReadOf-document (json_value _) = ((λ h. cc), λ fields rows same e g. cc)

  -- The reader of release dates gives the releases of the rows of the payload's list that state one, in
  -- their order, and never none of them: a row with a date and a name that are not falsy, an identifier
  -- that is not None, and a date that reads as ISO. It fails where the payload is no object with a list
  -- that has such a row, and wherever the object reports an error; and it raises another exception
  -- exactly where `json.loads` raises one that is no JSONDecodeError.
  pub fred_release_dates-IsReadOf :
      (loads : String → LoadedJson) (payload : String)
      → IsReadOf (loads payload) (fred_release_dates loads payload)
  unfolding fred_release_dates
  fred_release_dates-IsReadOf loads payload = IsReadOf-document (loads payload)
