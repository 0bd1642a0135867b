-- ===== src/Series/Parsers/Answers.antt =====
-- `fred_json`, `alfred_json` and `twelvedata_json`: what a call gives, on every branch.
use invest.Base.{
  ◌≡◌, refl, sym, subst, ◌∙◌, ap, ◌≢◌, ◌⊎◌, inl, inr, false, Option, some, String, List, [], ◌∷◌,
  ◌++◌, All, All-imp, Bool-cases, if◌then◌else◌,
}
use invest.Common.Dates.{Date}
use invest.Common.Json.{
  Json, LoadedJson, json_value, json_error, json_crash, array, object, Items, Fields, elements,
  get_field,
}
use invest.Common.Text.{Text}
use invest.Series.Repo.{Point}
use invest.Series.Parsers.{
  Refusal, provider_error, Reading, read, parse_error, crashed, ◌>>=◌, read_rows, load_object,
  list_of, observations, twelvedata_values, fred_json, alfred_json, twelvedata_json,
}
use invest.Series.Parsers.Rows.{
  Format, fred, alfred, twelvedata, rows_key, reports_error, Each, IsPoint, reader, reader-IsPoint,
  reader_of_IsPoint,
}
use invest.Series.Parsers.Raises.{reader-ne-crashed}

-- The loop stops at the first row that has no point.
abbrev StopsAt : (Json → Reading Point) → List Json → Reading Point → Type 0
StopsAt row rows outcome =
    (before : List Json) × (r : Json) × (after : List Json) × (rows ≡ before ++ r ∷ after)
    × All (λ x. (p : Point) × (row x ≡ read p)) before
    × (row r ≡ outcome)

abbrev EndsRows : (Json → Reading Point) → List Json → Reading (List Point) → Type 0
EndsRows row rows (read ps) = Each (λ r p. row r ≡ read p) rows ps
EndsRows row rows (parse_error why) = StopsAt row rows (parse_error why)
EndsRows row rows crashed = StopsAt row rows crashed

read-ne-parse_error :
    {p : Point} {why : Refusal} → ◌≢◌ {A = Reading Point} (read p) (parse_error why)
read-ne-parse_error h = cc

module _ (row : Json → Reading Point) (r : Json) (rows : List Json) where
  stops_later :
      (p : Point) (outcome : Reading Point)
      → row r ≡ read p
      → StopsAt row rows outcome
      → StopsAt row (r ∷ rows) outcome
  stops_later p outcome e (before, x, after, splits, all, fails) =
      (r ∷ before, x, after, ap (◌∷◌ r) splits, ((p, e), all), fails)

  step_rows :
      (o : Reading Point) (rest : Reading (List Point))
      → row r ≡ o
      → EndsRows row rows rest
      → EndsRows row (r ∷ rows) (o >>= λ p. rest >>= λ ps. read (p ∷ ps))
  step_rows (read p) (read ps) e h = (e, h)
  step_rows (read p) (parse_error why) e h = stops_later p (parse_error why) e h
  step_rows (read p) crashed e h = stops_later p crashed e h
  step_rows (parse_error why) rest e h = ([], r, rows, refl, tt, e)
  step_rows crashed rest e h = ([], r, rows, refl, tt, e)

read_rows-EndsRows :
    (row : Json → Reading Point) (rows : List Json) → EndsRows row rows (read_rows row rows)
unfolding read_rows
read_rows-EndsRows row [] = tt
read_rows-EndsRows row (r ∷ rows) =
    step_rows row r rows (row r) (read_rows row rows) refl (read_rows-EndsRows row rows)

Each-imp :
    {P Q : Json → Point → Type 0} (rows : List Json) (ps : List Point)
    → ((r : Json) (p : Point) → P r p → Q r p)
    → Each P rows ps
    → Each Q rows ps
Each-imp [] [] f h = tt
Each-imp (r ∷ rows) (p ∷ ps) f h = (f r p h.0, Each-imp rows ps f h.1)
Each-imp [] (p ∷ ps) f h = absurd h
Each-imp (r ∷ rows) [] f h = absurd h

module _ (repr : Json → Text) (week_date : Text → Option Date) (loads : String → LoadedJson) where
  abbrev pub parser : Format → String → Reading (List Point)
  parser fred = fred_json repr week_date loads
  parser alfred = alfred_json repr week_date loads
  parser twelvedata = twelvedata_json repr week_date loads

  -- The payload is an object that reports no error and has the list of rows.
  abbrev pub HasRows : Format → LoadedJson → List Json → Type 0
  HasRows f document rows =
      (fields : Fields) × (js : Items) × (document ≡ json_value (object fields))
      × (reports_error f fields ≡ false)
      × (get_field (rows_key f) fields ≡ some (array js))
      × (rows ≡ elements js)

  -- What a call gives.
  abbrev pub Answers : Format → LoadedJson → Reading (List Point) → Type 0
  Answers f document (read ps) =
      (rows : List Json) × HasRows f document rows × Each (IsPoint repr week_date f) rows ps
  Answers f document (parse_error why) =
      (document ≢ json_crash)
      × (((rows : List Json) → ¬ HasRows f document rows)
          ⊎ ((before : List Json) × (r : Json) × (after : List Json) × HasRows f document
                (before ++ r ∷ after)
              × All (λ x. (p : Point) × IsPoint repr week_date f x p) before
              × ((p : Point) → ¬ IsPoint repr week_date f r p)))
  Answers f document crashed = document ≡ json_crash

  HasRows-loaded :
      (f : Format) (document : LoadedJson) (rows : List Json)
      → HasRows f document rows
      → document ≢ json_crash
  HasRows-loaded f document rows (fields, js, same, e, g, r) crash = cc

  answer_rows :
      (f : Format) (document : LoadedJson) (rows : List Json) (o : Reading (List Point))
      → HasRows f document rows
      → EndsRows (reader repr week_date f) rows o
      → Answers f document o
  answer_rows f document rows (read ps) h e =
      (rows, h, Each-imp rows ps (reader-IsPoint repr week_date f) e)
  answer_rows f document rows (parse_error why) h (before, r, after, splits, all, fails) = (
    HasRows-loaded f document rows h,
    inr (
      before,
      r,
      after,
      subst (HasRows f document) splits h,
      All-imp before (λ x (p, e). (p, reader-IsPoint repr week_date f x p e)) all,
      λ p is. read-ne-parse_error (sym (reader_of_IsPoint repr week_date f r p is) ∙ fails),
    ),
  )
  answer_rows f document rows crashed h (before, r, after, splits, all, fails) =
      absurd (reader-ne-crashed repr week_date f r fails)

  abbrev rows_of : Format → Fields → Reading (List Json)
  rows_of f fields =
      if reports_error f fields
      then parse_error provider_error
      else list_of (get_field (rows_key f) fields)

  -- The parts of `HasRows`, for a document that is known.
  HasRows-object :
      (f : Format) (fields : Fields) (rows : List Json)
      → HasRows f (json_value (object fields)) rows
      → (reports_error f fields ≡ false)
        × ((js : Items) × (get_field (rows_key f) fields ≡ some (array js)))
  HasRows-object f fields rows (fields', js, same, e, g, r) =
      let eq : fields ≡ fields' = cc in
      (ap (reports_error f) eq ∙ e, (js, ap (get_field (rows_key f)) eq ∙ g))

  answer_list :
      (f : Format) (fields : Fields) (found : Option Json)
      → reports_error f fields ≡ false
      → get_field (rows_key f) fields ≡ found
      → Answers f
          (json_value (object fields))
          (list_of found >>= read_rows (reader repr week_date f))
  answer_list f fields (some (array js)) e g =
      answer_rows f (json_value (object fields)) (elements js) _ (fields, js, refl, e, g, refl)
        (read_rows-EndsRows (reader repr week_date f) (elements js))
  answer_list f fields _ e g =
      ((λ h. cc), inl λ rows h. let (js, k) = (HasRows-object f fields rows h).1 in cc)

  answer_document :
      (f : Format) (document : LoadedJson)
      → Answers f document (
          load_object document >>= λ fields.
          rows_of f fields >>= read_rows (reader repr week_date f))
  unfolding load_object
  answer_document f (json_value (object fields)) = elim (Bool-cases (reports_error f fields)) [
    | inl e ↦ rw e ((λ h. cc), inl λ rows h. let k = (HasRows-object f fields rows h).0 in cc)
    | inr e ↦ rw e (answer_list f fields (get_field (rows_key f) fields) e refl)
  ]
  answer_document f json_crash = refl
  answer_document f json_error = ((λ h. cc), inl λ rows h. cc)
  answer_document f (json_value _) = ((λ h. cc), inl λ rows h. cc)

  -- For each JSON format and each payload, the parser gives the points of the rows, one for each row
  -- and in their order, each with the date, the value and the vintage that its row states; or it
  -- raises ParseError, and then the payload is no object with a list of rows and without a report of
  -- an error, or it has a first row that states no point. It raises another exception exactly where
  -- `json.loads` raises one that is no JSONDecodeError.
  pub parser-Answers :
      (f : Format) (payload : String) → Answers f (loads payload) (parser f payload)
  unfolding fred_json alfred_json twelvedata_json observations twelvedata_values
  parser-Answers fred payload = answer_document fred (loads payload)
  parser-Answers alfred payload = answer_document alfred (loads payload)
  parser-Answers twelvedata payload = answer_document twelvedata (loads payload)
