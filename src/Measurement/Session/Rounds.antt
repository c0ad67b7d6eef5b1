-- ===== src/Measurement/Session/Rounds.antt =====
-- Rounds of Measurement.start and Measurement.stop keep an event set remembering the right rounds.
use java_ubench_agent.Prelude.{
  ℕ, zero, suc, ◌-◌, ◌≤◌, ◌<◌, some, ◌≡◌, refl, sym, ◌∙◌, ap, List, [], ◌∷◌, ◌++◌, get_elem?, set,
  take, length, length-append, get_elem?-set_ne, All, All-set, All-get, arith, subst, ◌⊎◌, inl, inr,
  dec_lt,
}
use java_ubench_agent.Events.Types.{Snapshot}
use java_ubench_agent.Measure.{ubench_measure_start, ubench_measure_stop}
use java_ubench_agent.Measurement.State.{Config}
use java_ubench_agent.Measurement.Recording.{start_one, stop_one}
use java_ubench_agent.Measurement.Bounds.{
  IsReady, Written, write_index, start_one-Records, stop_one-Records,
}
use java_ubench_agent.Measurement.Session.{
  Round, and_then, measure_round, measure_rounds, remember, remembered, twice, twice-eq, IsWide,
  Stored, Stored-take, Stored-push, start-IsWide, stop-IsWide, Remembers,
}

take_all : (n : ℕ) (xs : List Round) → length xs ≤ n → take n xs ≡ xs
take_all zero [] h = refl
take_all zero (x ∷ xs) h = absurd (omega arith)
take_all (suc n) [] h = refl
take_all (suc n) (x ∷ xs) h = ap (◌∷◌ x) (take_all n xs (omega arith))

length-take : (n : ℕ) (xs : List Round) → n ≤ length xs → length (take n xs) ≡ n
length-take zero xs h = refl
length-take (suc n) [] h = absurd (omega arith)
length-take (suc n) (x ∷ xs) h = ap suc (length-take n xs (omega arith))

-- Two writes to a pair behind the stored ones, with the indices and the backends given by equations.
pushed :
    (used : ℕ) (ys : List Round) (cells : List Snapshot) (x : Round) (i j used' used'' : ℕ)
    (old old' : Snapshot)
    → Stored used ys cells
    → All IsWide cells
    → i ≡ twice (length ys)
    → j ≡ suc (twice (length ys))
    → used' ≡ used
    → used'' ≡ used
    → get_elem? cells i ≡ some old
    → get_elem? (set cells i (ubench_measure_start x.0 used old)) j ≡ some old'
    → record {
      stored : Stored used'' (ys ++ x ∷ []) (
          set
            (set cells i (ubench_measure_start x.0 used old))
            j
            (ubench_measure_stop x.1 used' old'));
      wide : All IsWide (
          set
            (set cells i (ubench_measure_start x.0 used old))
            j
            (ubench_measure_stop x.1 used' old'));
    }
pushed used ys cells x i j used' used'' old old' h wide ei ej eu eu' at at' = record {
  stored =
      subst (λ u. Stored u (ys ++ x ∷ []) after) (sym eu')
        (subst
          (λ u. Stored used (ys ++ x ∷ []) (
            set (set cells i (ubench_measure_start x.0 used old)) j
              (ubench_measure_stop x.1 u old')))
          (sym eu)
          (subst
            (λ k. Stored used (ys ++ x ∷ []) (
              set (set cells i (ubench_measure_start x.0 used old)) k
                (ubench_measure_stop x.1 used old')))
            (sym ej)
            (subst
              (λ k. Stored used (ys ++ x ∷ []) (
                set (set cells k (ubench_measure_start x.0 used old)) (suc (twice (length ys)))
                  (ubench_measure_stop x.1 used old')))
              (sym ei)
              (Stored-push used ys cells x old old' h (ap (get_elem? cells) (sym ei) ∙ at)
                (ap (get_elem? cells) (sym ej) ∙ there) (All-get IsWide cells i wide at) wide'))));
  wide =
      All-set IsWide (set cells i first) j (ubench_measure_stop x.1 used' old')
        (All-set IsWide cells i first wide
          (start-IsWide x.0 used old (All-get IsWide cells i wide at)))
        (stop-IsWide x.1 used' old' wide');
}
  where
    first : Snapshot
    first = ubench_measure_start x.0 used old

    after : List Snapshot
    after = set (set cells i first) j (ubench_measure_stop x.1 used' old')

    there : get_elem? cells j ≡ some old'
    there = sym (get_elem?-set_ne cells i j first (λ e. absurd (omega (arith, e, ei, ej)))) ∙ at'

    wide' : IsWide old'
    wide' = All-get IsWide cells j wide there

module _ {m : ℕ} {xs : List Round} {c : Config} {cells : List Snapshot}
    (rem : Remembers m xs c cells) where
  -- How many rounds stay: all, or all but the last one.
  kept_count : record {
    at : write_index c ≡ twice (length (take (m - 1) xs));
    below : length (take (m - 1) xs) < m;
  }
  kept_count =
      let k = length (take (m - 1) xs) in
      let cases : ((length xs < m) × (k ≡ length xs)) ⊎ ((length xs ≡ m) × (k ≡ m - 1)) =
        elim (dec_lt (length xs) m) [
          | yes room ↦ inl (room, ap length (take_all (m - 1) xs (omega arith)))
          | no full ↦ inr (omega (arith, rem.count), length-take (m - 1) xs (omega arith))
        ] in
      record {
        at = ground (
          arith,
          twice-eq m,
          twice-eq (length xs),
          twice-eq k,
          rem.ready.room,
          rem.index,
          rem.size,
        );
        below = omega (arith, rem.size, twice-eq m, rem.ready.room);
      }

  open kept_count use {at, below}

  count : ℕ
  count = length (take (m - 1) xs)

  -- The start of a round writes to the even index, the stop to the odd one behind it.
  module _ (x : Round) where
    abbrev start_fn : Snapshot → Snapshot
    start_fn = ubench_measure_start x.0 c.used_backends

    record Started (c' : Config) : Type 0 where
      written : Written start_fn c cells (write_index c) c'
      ready : IsReady c' (set cells (write_index c) (start_fn written.old))
      used : c'.used_backends ≡ c.used_backends
      size : c'.data_size ≡ c.data_size
      index : c'.data_index ≡ suc (twice (length (take (m - 1) xs)))

    started : (c' : Config) × (start_one x.0 c ≡ some c') × Started c'
    started =
        let (c', e, (w, r)) = start_one-Records x.0 c cells rem.ready in
        (
          c',
          e,
          record {
            written = w;
            ready = r;
            used = ap (λ y. y.used_backends) w.result;
            size = ap (λ y. y.data_size) w.result;
            index = omega (arith, ap (λ y. y.data_index) w.result, at);
          },
        )

    stopped :
        {c' : Config} (s : Started c')
        → (c'' : Config) × (stop_one x.1 c' ≡ some c'')
          × ((cells'' : List Snapshot) × Remembers m (remember m xs x) c'' cells''
              × (c''.used_events ≡ c.used_events)
              × (c''.used_events_count ≡ c.used_events_count)
              × (c''.used_backends ≡ c.used_backends))
    stopped {c'} s =
        let k = length (take (m - 1) xs) in
        let cells' = set cells (write_index c) (start_fn s.written.old) in
        let lt : c'.data_index < c'.data_size =
          omega (arith, s.index, s.size, rem.size, twice-eq m, twice-eq k, below) in
        let (c'', e, (w, r)) = stop_one-Records x.1 c' cells' s.ready lt in
        (
          c'',
          e,
          (
            _,
            record {
              ready = r;
              size = ap (λ y. y.data_size) w.result ∙ s.size ∙ rem.size;
              count = omega (arith, below, length-append (take (m - 1) xs) (x ∷ []));
              index = omega (
                arith,
                ap (λ y. y.data_index) w.result,
                s.index,
                twice-eq k,
                twice-eq (length (remember m xs x)),
                length-append (take (m - 1) xs) (x ∷ []),
              );
              stored = (behind w).stored;
              wide = (behind w).wide;
            },
            ap (λ y. y.used_events) w.result ∙ ap (λ y. y.used_events) s.written.result,
            ap (λ y. y.used_events_count) w.result ∙ ap (λ y. y.used_events_count) s.written.result,
            ap (λ y. y.used_backends) w.result ∙ s.used,
          ),
        )
      where
        behind :
            {c'' : Config}
            (w : Written
              (ubench_measure_stop x.1 c'.used_backends)
              c'
              (set cells (write_index c) (start_fn s.written.old))
              c'.data_index
              c'')
            → record {
              stored : Stored c''.used_backends (remember m xs x) (
                  set
                    (set cells (write_index c) (start_fn s.written.old))
                    c'.data_index
                    (ubench_measure_stop x.1 c'.used_backends w.old));
              wide : All IsWide (
                  set
                    (set cells (write_index c) (start_fn s.written.old))
                    c'.data_index
                    (ubench_measure_stop x.1 c'.used_backends w.old));
            }
        behind {c''} w =
            pushed c.used_backends (take (m - 1) xs) cells x (write_index c) c'.data_index
              c'.used_backends c''.used_backends s.written.old w.old
              (Stored-take c.used_backends (m - 1) xs cells rem.stored) rem.wide at s.index s.used
              (ap (λ y. y.used_backends) w.result ∙ s.used) s.written.was w.was

    -- One round.
    pub round-Remembers :
        (c'' : Config) × (measure_round x c ≡ some c'')
        × ((cells'' : List Snapshot) × Remembers m (remember m xs x) c'' cells''
            × (c''.used_events ≡ c.used_events)
            × (c''.used_events_count ≡ c.used_events_count)
            × (c''.used_backends ≡ c.used_backends))
    round-Remembers =
        let (c', e, s) = started in
        let (c'', e', rest) = stopped s in (c'', ap (λ o. and_then o (stop_one x.1)) e ∙ e', rest)

-- On an event set for `m` rounds that remembers some rounds, any number of further rounds of
-- Measurement.start and Measurement.stop all return: no write leaves the snapshots. After each the
-- event set remembers the first `m - 1` rounds of those before and, behind them, the new one, and
-- the events of the event set and the backends in use are the same.
pub rounds-Remembers :
    (m : ℕ) (rounds xs : List Round) (c : Config) (cells : List Snapshot)
    → Remembers m xs c cells
    → (c' : Config) × (measure_rounds rounds c ≡ some c')
      × ((cells' : List Snapshot) × Remembers m (remembered m xs rounds) c' cells'
          × (c'.used_events ≡ c.used_events)
          × (c'.used_events_count ≡ c.used_events_count)
          × (c'.used_backends ≡ c.used_backends))
rounds-Remembers m [] xs c cells rem = (c, refl, (cells, rem, refl, refl, refl))
rounds-Remembers m (x ∷ rounds) xs c cells rem =
    let (c1, e1, (cells1, rem1, ev1, n1, u1)) = round-Remembers rem x in
    let (c2, e2, (cells2, rem2, ev2, n2, u2)) =
      rounds-Remembers m rounds (remember m xs x) c1 cells1 rem1 in
    (
      c2,
      ap (λ o. and_then o (measure_rounds rounds)) e1 ∙ e2,
      (cells2, rem2, ev2 ∙ ev1, n2 ∙ n1, u2 ∙ u1),
    )
