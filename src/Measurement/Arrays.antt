-- ===== src/Measurement/Arrays.antt =====
-- The Java arrays of getResults and getRawResults (src/c/measurement.c).
use java_ubench_agent.Prelude.{
  ℕ, suc, ◌+◌, ◌≤◌, Bool, true, false, ◌&&◌, Option, none, some, ◌≡◌, ◌≢◌, refl, sym, if◌then◌else◌,
  ◌∙◌, ap, List, [], ◌∷◌, All, length, length-set, length-replicate, set, replicate, lt→ltb, arith,
  subst,
}
use java_ubench_agent.Strutil.{Text}
use java_ubench_agent.Measurement.State.{World, Outcome, returned, fault}
use java_ubench_agent.Measurement.Results.{
  cons_row, store_each, Objects, names_array, add_rows, add_all_rows, Results, give, fill_results,
  make_results,
}
use java_ubench_agent.Measurement.Rows.{HasWidth}

module _ {ℓ} {A : Type ℓ} (ok : A → Bool) (all_ok : (a : A) → ok a ≡ true) where
  -- Values that fit are stored, in an array of the same size.
  pub store_each-fits :
      (array : List A) (i : ℕ) (vs : List A)
      → i + length vs ≤ length array
      → (array' : List A) × (store_each ok array i vs ≡ some array')
        × (length array' ≡ length array)
  unfolding store_each
  store_each-fits array i [] le = (array, refl, refl)
  store_each-fits array i (v ∷ vs) le =
      let (array', stores, same) =
        store_each-fits (set array i v) (suc i) vs (omega (arith, le, length-set array i v)) in
      (
        array',
        rw (all_ok v, lt→ltb i (length array) (omega (arith, le))) stores,
        same ∙ length-set array i v,
      )

  store_each-cons :
      (x : A) (array : List A) (i : ℕ) (vs : List A) {array' : List A}
      → store_each ok array i vs ≡ some array'
      → i + length vs ≤ length array
      → store_each ok (x ∷ array) (suc i) vs ≡ some (x ∷ array')
  unfolding store_each
  store_each-cons x array i [] stores le = ap some (ap (◌∷◌ x) (ground (arith, stores)))
  store_each-cons x array i (v ∷ vs) stores le =
      let inside = lt→ltb i (length array) (omega (arith, le)) in
      let inside' = lt→ltb (suc i) (suc (length array)) (omega (arith, le)) in
      rw (all_ok v, inside')
        (store_each-cons x (set array i v) (suc i) vs (rw (all_ok v, inside) at stores)
          (omega (arith, le, length-set array i v)))

  -- As many values as the array has entries replace them.
  pub store_each-full :
      (array vs : List A) → length array ≡ length vs → store_each ok array 0 vs ≡ some vs
  unfolding store_each
  store_each-full [] [] same = refl
  store_each-full [] (v ∷ vs) same = absurd (omega (arith, same))
  store_each-full (x ∷ array) [] same = absurd (omega (arith, same))
  store_each-full (x ∷ array) (v ∷ vs) same =
      rw (all_ok v, lt→ltb 0 (suc (length array)) (omega arith))
        (store_each-cons v array 0 vs (store_each-full array vs (omega (arith, same)))
          (omega (arith, same)))

pub add_rows-full :
    (n : ℕ) (array : List ℕ) (rows : List (List ℕ))
    → length array ≡ n
    → All (λ r. length r ≡ n) rows
    → add_rows array rows ≡ some rows
unfolding add_rows
add_rows-full n array [] size wide = refl
add_rows-full n array (r ∷ rows) size wide =
    let stores = store_each-full (λ v. true) (λ v. refl) array r (size ∙ sym wide.0) in
    rw (stores, add_rows) (ap (cons_row (some r)) (add_rows-full n r rows wide.0 wide.1))

pub add_rows-fits :
    (n : ℕ) (array : List ℕ) (rows : List (List ℕ))
    → length array ≡ n
    → All (λ r. length r ≤ n) rows
    → (rows' : List (List ℕ)) × (add_rows array rows ≡ some rows') × All (λ r. length r ≡ n) rows'
unfolding add_rows
add_rows-fits n array [] size wide = ([], refl, tt)
add_rows-fits n array (r ∷ rows) size wide =
    let (array', stores, same) =
      store_each-fits (λ v. true) (λ v. refl) array 0 r (omega (arith, size, wide.0)) in
    let (rows', adds, wide') = add_rows-fits n array' rows (same ∙ size) wide.1 in
    (array' ∷ rows', rw (stores, add_rows) (ap (cons_row (some array')) adds), (same ∙ size, wide'))

-- A JVM that makes every object and every string.
abbrev pub all_made : Objects
all_made = record {
  results_class_found = true;
  string_class_found = true;
  names_made = true;
  string_made = λ name. true;
  constructor_found = true;
  results_made = true;
  values_made = true;
  add_data_found = true;
}

-- Names and rows of the size of the arrays arrive in the object as they are.
pub make_results-give :
    (w : World) (size : ℕ) (names : List (Option Text)) (rows : Option (List (List ℕ)))
    → length names ≡ size
    → HasWidth size rows
    → make_results all_made w size names rows ≡ give w names rows
unfolding make_results names_array
make_results-give w size names rows same wide =
    ap (λ columns. fill_results all_made w size columns rows)
      (store_each-full (λ name. true) (λ name. refl) (replicate size none) names
        (length-replicate size none ∙ sym same))
    ∙ ap (give w names) (rows_eq rows wide)
  where
    rows_eq : (o : Option (List (List ℕ))) → HasWidth size o → add_all_rows (replicate size 0) o ≡ o
    rows_eq none h = refl
    rows_eq (some rs) h = add_rows-full size (replicate size 0) rs (length-replicate size 0) h

-- Every row, and the header, has as many entries as the arrays.
abbrev pub IsTable : ℕ → Results → Type 0
IsTable size res = (length res.event_names ≡ size) × All (λ r. length r ≡ size) res.rows

module _ (w : World) (size : ℕ) (names : List (Option Text)) (rows : List (List ℕ))
    (columns_fit : length names ≤ size) (rows_fit : All (λ r. length r ≤ size) rows) where
  -- On names and rows that fit, the result is a table if the JVM makes everything.
  pub make_results-IsTable :
      (res : Results) × (make_results all_made w size names (some rows) ≡ returned (some res) w)
      × IsTable size res
  unfolding make_results names_array
  make_results-IsTable =
      let (columns, names_stored, same) =
        store_each-fits (λ name. true) (λ name. refl) (replicate size none) 0 names
          (omega (arith, columns_fit, length-replicate {A = Option Text} size none)) in
      let (rows', added, wide) =
        add_rows-fits size (replicate size 0) rows (length-replicate size 0) rows_fit in
      (
        record { event_names = columns; rows = rows' },
        ap (λ o. fill_results all_made w size o (some rows)) names_stored
            ∙ ap (give w columns) added,
        (same ∙ length-replicate size none, wide),
      )

  -- And it is defined if the JVM makes the array of the names and the strings.
  pub make_results-defined :
      (objects : Objects)
      → objects.names_made ≡ true
      → ((name : Option Text) → objects.string_made name ≡ true)
      → make_results objects w size names (some rows) ≢ fault
  unfolding make_results
  make_results-defined objects made strings =
      if-defined (objects.results_class_found && objects.string_class_found) _ _ filled
        (λ h. ground (arith, h))
    where
      if-defined :
          (b : Bool) (x y : Outcome (Option Results))
          → x ≢ fault
          → y ≢ fault
          → (if b then x else y) ≢ fault
      if-defined true x y hx hy = hx
      if-defined false x y hx hy = hy

      filled : fill_results objects w size (names_array objects size names) (some rows) ≢ fault
      filled =
          let (columns, stored, _) =
            store_each-fits objects.string_made strings (replicate size none) 0 names
              (omega (arith, columns_fit, length-replicate {A = Option Text} size none)) in
          let named : names_array objects size names ≡ some columns =
            unfold names_array in
            ap
              (λ b.
                if b then store_each objects.string_made (replicate size none) 0 names else none)
              made
            ∙ stored in
          let (rows', added, _) =
            add_rows-fits size (replicate size 0) rows (length-replicate size 0) rows_fit in
          subst (λ o. fill_results objects w size o (some rows) ≢ fault) (sym named)
            (if-defined
              (objects.constructor_found
                && (objects.results_made && (objects.values_made && objects.add_data_found)))
              (give w columns (add_rows (replicate size 0) rows)) (returned none w)
              (subst (λ o. give w columns o ≢ fault) (sym added) (λ h. ground (arith, h)))
              (λ h. ground (arith, h)))
