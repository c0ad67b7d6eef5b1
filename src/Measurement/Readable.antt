-- ===== src/Measurement/Readable.antt =====
-- On sound event sets the loops of getResults and getRawResults read inside the snapshots
-- (src/c/measurement.c).
use java_ubench_agent.Prelude.{
  ℕ, zero, suc, ◌+◌, ◌-◌, ◌≤◌, ◌<◌, ℤ, int_eq, to_bits, sub64, Option, some, ◌≡◌, refl, sym, ◌∙◌,
  ◌⊎◌, inl, inr, List, [], ◌∷◌, All, All-get, arith, subst, ltb, get_elem?, get_elem?-lt, length,
  Bool-cases,
}
use mathlib.Core.Path.{ap₂}
use java_ubench_agent.Events.Types.{Snapshot, EventInfo, Getter, type_start, type_end}
use java_ubench_agent.Events.Getters.{
  call_get, call_get_raw, event_value, event_raw_value, getter_papi, getter_raw_papi, is_papi_ok,
}
use java_ubench_agent.Events.Resolution.{raw_of}
use java_ubench_agent.Events.Differences.{event_value-call_get, event_raw_value-call_get_raw}
use java_ubench_agent.Measurement.Create.Building.{IsIndexed}
use java_ubench_agent.Measurement.Results.{
  Found, found, missing, find_from, find_first_matching_snapshot_type, cons_value, cons_row, row,
  raw_row, row_at, raw_row_at, result_rows, raw_rows,
}
use java_ubench_agent.Measurement.Session.{IsWide}
use java_ubench_agent.Measurement.Sound.{IsReadable}

-- The computation has a value.
abbrev pub Has {ℓ} : {A : Type ℓ} → Option A → Type ℓ
Has {A = A} o = (a : A) × (o ≡ some a)

counter :
    (s : Snapshot) (info : EventInfo)
    → IsWide s
    → IsIndexed info
    → Has (get_elem? s.papi_events info.papi_index)
counter s info wide indexed =
    get_elem?-lt s.papi_events info.papi_index (omega (arith, wide, indexed))

call_get-Has :
    (g : Getter) (start end : Snapshot) (info : EventInfo)
    → IsWide start
    → IsWide end
    → IsIndexed info
    → Has (call_get g start end info)
unfolding call_get getter_papi
call_get-Has Getter.wall_clock_time start end info ws we indexed = (_, refl)
call_get-Has Getter.thread_time start end info ws we indexed = (_, refl)
call_get-Has Getter.jvm_compilations start end info ws we indexed = (_, refl)
call_get-Has Getter.context_switch_forced start end info ws we indexed = (_, refl)
call_get-Has Getter.thread_time_rusage start end info ws we indexed = (_, refl)
call_get-Has Getter.papi start end info ws we indexed =
    let (a, at_end) = counter end info we indexed in
    let (b, at_start) = counter start info ws indexed in
    elim (Bool-cases (is_papi_ok start.papi_rc1)) [
      | inr bad ↦ (to_bits 64 start.papi_rc1, ground (arith, bad))
      | inl ok ↦ elim (Bool-cases (is_papi_ok start.papi_rc2)) [
        | inr bad ↦ (to_bits 64 start.papi_rc2, ground (arith, ok, bad))
        | inl ok2 ↦ elim (Bool-cases (is_papi_ok end.papi_rc1)) [
          | inr bad ↦ (to_bits 64 end.papi_rc1, ground (arith, ok, ok2, bad))
          | inl ok3 ↦ (sub64 a b, ground (arith, ok, ok2, ok3, at_end, at_start))
        ]
      ]
    ]

call_get_raw-Has :
    (g : Getter) (s : Snapshot) (info : EventInfo)
    → IsWide s
    → IsIndexed info
    → Has (call_get_raw (raw_of g) s info)
unfolding call_get_raw getter_raw_papi
call_get_raw-Has Getter.wall_clock_time s info w indexed = (_, refl)
call_get_raw-Has Getter.thread_time s info w indexed = (_, refl)
call_get_raw-Has Getter.jvm_compilations s info w indexed = (_, refl)
call_get_raw-Has Getter.context_switch_forced s info w indexed = (_, refl)
call_get_raw-Has Getter.thread_time_rusage s info w indexed = (_, refl)
call_get_raw-Has Getter.papi s info w indexed =
    let (a, at) = counter s info w indexed in
    elim (Bool-cases (is_papi_ok s.papi_rc1)) [
      | inr bad ↦ (to_bits 64 s.papi_rc1, ground (arith, bad))
      | inl ok ↦ elim (Bool-cases (is_papi_ok s.papi_rc2)) [
        | inr bad ↦ (to_bits 64 s.papi_rc2, ground (arith, ok, bad))
        | inl ok2 ↦ (a, ground (arith, ok, ok2, at))
      ]
    ]

cons_value-Has : (v : Option ℕ) (vs : Option (List ℕ)) → Has v → Has vs → Has (cons_value v vs)
cons_value-Has v vs (a, e) (b, e') = (a ∷ b, ap₂ cons_value e e')

cons_row-Has :
    (r : Option (List ℕ)) (rs : Option (List (List ℕ))) → Has r → Has rs → Has (cons_row r rs)
cons_row-Has r rs (a, e) (b, e') = (a ∷ b, ap₂ cons_row e e')

row-Has :
    (events : List EventInfo) (start end : Snapshot)
    → All IsReadable events
    → IsWide start
    → IsWide end
    → Has (row events start end)
unfolding row
row-Has [] start end can ws we = ([], refl)
row-Has (event ∷ events) start end can ws we =
    let (v, e) = call_get-Has can.0.getter start end event ws we can.0.indexed in
    cons_value-Has (event_value event start end) (row events start end)
      (v, event_value-call_get can.0.getter event start end can.0.op_get ∙ e)
      (row-Has events start end can.1 ws we)

raw_row-Has :
    (events : List EventInfo) (s : Snapshot)
    → All IsReadable events
    → IsWide s
    → Has (raw_row events s)
unfolding raw_row
raw_row-Has [] s can w = (_, refl)
raw_row-Has (event ∷ events) s can w =
    let (v, e) = call_get_raw-Has can.0.getter s event w can.0.indexed in
    cons_value-Has (event_raw_value event s) (raw_row events s)
      (v, event_raw_value-call_get_raw (raw_of can.0.getter) event s can.0.op_get_raw ∙ e)
      (raw_row-Has events s can.1 w)

-- A search below `i + left` finds an index there, or none.
abbrev Inside : ℕ → ℕ → Found → Type 0
Inside i bound f = (f ≡ missing) ⊎ ((k : ℕ) × (f ≡ found k) × (i ≤ k) × (k < bound))

find_from-Inside :
    (cells : List Snapshot) (left i : ℕ) (type : ℤ)
    → i + left ≤ length cells
    → Inside i (i + left) (find_from cells left i type)
unfolding find_from
find_from-Inside cells zero i type le = inl refl
find_from-Inside cells (suc left) i type le =
    let (s, at) = get_elem?-lt cells i (omega (arith, le)) in
    elim (Bool-cases (int_eq s.type type)) [
      | inl hit ↦ inr (i, ground (arith, at, hit), omega arith, omega arith)
      | inr miss ↦
          let next : find_from cells (suc left) i type ≡ find_from cells left (suc i) type =
            ground (arith, at, miss) in
          elim (find_from-Inside cells left (suc i) type (omega (arith, le))) [
            | inl never ↦ inl (next ∙ never)
            | inr (k, at_k, ge, lt) ↦ inr (k, next ∙ at_k, omega (arith, ge), omega (arith, lt))
          ]
    ]

find_first-Inside :
    (cells : List Snapshot) (i i_max : ℕ) (type : ℤ)
    → i ≤ i_max
    → i_max ≤ length cells
    → Inside i i_max (find_first_matching_snapshot_type cells (found i) i_max type)
unfolding find_first_matching_snapshot_type
find_first-Inside cells i i_max type le inside =
    subst (λ b. Inside i b (find_from cells (i_max - i) i type)) (omega (arith, le))
      (find_from-Inside cells (i_max - i) i type (omega (arith, le, inside)))

module _ (cells : List Snapshot) (events : List EventInfo) (wide : All IsWide cells)
    (can : All IsReadable events) where
  raw_row_at-Has : (i : ℕ) → i < length cells → Has (raw_row_at events (get_elem? cells i))
  raw_row_at-Has i lt =
      let (s, at) = get_elem?-lt cells i lt in
      subst (λ o. Has (raw_row_at events o)) (sym at)
        (raw_row-Has events s can (All-get IsWide cells i wide at))

  row_at-Has :
      (i j : ℕ)
      → i < length cells
      → j < length cells
      → Has (row_at events (get_elem? cells i) (get_elem? cells j))
  row_at-Has i j lt lt' =
      let (s, at) = get_elem?-lt cells i lt in
      let (t, at') = get_elem?-lt cells j lt' in
      subst (λ o. Has (row_at events o (get_elem? cells j))) (sym at)
        (subst (λ o. Has (row_at events (some s) o)) (sym at')
          (row-Has events s t can (All-get IsWide cells i wide at)
            (All-get IsWide cells j wide at')))

  pub raw_rows-Has : (left i : ℕ) → i + left ≤ length cells → Has (raw_rows cells events left i)
  unfolding raw_rows
  raw_rows-Has zero i le = ([], refl)
  raw_rows-Has (suc left) i le =
      cons_row-Has _ _ (raw_row_at-Has i (omega (arith, le)))
        (raw_rows-Has left (suc i) (omega (arith, le)))

  -- There is fuel for another round while the index is below the end.
  pub result_rows-Has :
      (fuel i i_max : ℕ)
      → i_max ≤ length cells
      → i_max < i + fuel
      → i ≤ i_max
      → Has (result_rows cells events fuel i i_max)
  unfolding result_rows
  result_rows-Has zero i i_max inside lt le = absurd (omega (arith, lt, le))
  result_rows-Has (suc fuel) i i_max inside lt le = elim (Bool-cases (ltb i i_max)) [
    | inr done ↦ ([], ground (arith, done))
    | inl more ↦ elim (find_first-Inside cells i i_max type_start le inside) [
      | inl never ↦ ([], ground (arith, more, never))
      | inr (j, starts, ge, below) ↦
          elim (find_first-Inside cells j i_max type_end (omega (arith, below)) inside) [
            | inl never ↦ ([], ground (arith, more, starts, never))
            | inr (k, ends, after, last) ↦
                let here =
                  row_at-Has j k (omega (arith, below, inside)) (omega (arith, last, inside)) in
                let rest =
                  result_rows-Has fuel (suc k) i_max inside (omega (arith, lt, ge, after))
                    (omega (arith, last)) in
                let (rows, has) = cons_row-Has _ _ here rest in
                (rows, ground (arith, more, starts, ends) ∙ has)
          ]
    ]
  ]
