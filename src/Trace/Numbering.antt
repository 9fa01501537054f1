-- ===== src/Trace/Numbering.antt =====
-- The numbers of a run's events (src/transit_scholar/layer3/trace/service.py).
mod Examples
use transit_scholar.Base.{
  ℕ, ◌+◌, ◌≤◌, ◌<◌, String, ◌≡◌, ◌≢◌, refl, sym, subst, ap, ◌∙◌, Bool, true, false, Option, none,
  some, ◌⊎◌, inl, inr, str_eq, eq_iff, arith, if◌then◌else◌, Bool-cases, Option-cases,
}
use transit_scholar.Base.Result.{Result, ok, err, >>=-eq-ok, Result-cases}
use transit_scholar.Records.{AgentRun, AgentTraceEvent, Payload, Tables, Database}
use transit_scholar.Execution.{ExecutionError, non_empty, given_or_new, get_run}
use transit_scholar.Integrity.Lookups.{get_run-found}
use transit_scholar.Trace.{
  serialize_payload, check_session, traced_run, count_event, new_event, insert_event, append_to,
  append_event,
}

module _ (t : Tables) where
  abbrev pub IsEvent : Database t → String → AgentTraceEvent → Type 0
  IsEvent db k e = t.trace_events.get db.trace_events k ≡ some e

  -- the run of an event has counted it
  pub record IsCounted (db : Database t) (e : AgentTraceEvent) : Type 0 where
    pub run : AgentRun
    pub there : t.agent_runs.get db.agent_runs e.agent_run_id ≡ some run
    pub positive : 1 ≤ e.sequence
    pub bound : e.sequence ≤ run.trace_sequence

  pub record IsNumbered (db : Database t) : Type 0 where
    pub counted : (k : String) (e : AgentTraceEvent) → IsEvent db k e → IsCounted db e
    pub distinct :
        (j k : String) (d e : AgentTraceEvent)
        → IsEvent db j d
        → IsEvent db k e
        → d.agent_run_id ≡ e.agent_run_id
        → d.sequence ≡ e.sequence
        → j ≡ k

  -- every event of the run comes before a number
  abbrev pub AllBefore : Database t → String → ℕ → Type 0
  AllBefore db run_id number =
      (k : String) (e : AgentTraceEvent)
      → IsEvent db k e
      → e.agent_run_id ≡ run_id
      → e.sequence < number

  abbrev counted_rows : Database t → AgentRun → Database t
  counted_rows db run = record db {
    agent_runs = t.agent_runs.assign (count_event run) db.agent_runs;
  }

  module _ (db : Database t) (run : AgentRun)
      (there : t.agent_runs.get db.agent_runs run.agent_run_id ≡ some run) where
    count_event-IsNumbered : IsNumbered db → IsNumbered (counted_rows db run)
    unfolding count_event
    count_event-IsNumbered numbered = record {
      counted = λ k e h.
          let was = numbered.counted k e h in
          let put =
            t.agent_runs.get-assign (count_event run) run db.agent_runs e.agent_run_id there in
          elim (Bool-cases (str_eq run.agent_run_id e.agent_run_id)) [
            | inl same ↦
                let owner : run.agent_run_id ≡ e.agent_run_id = (eq_iff _ _).0 same in
                let one : was.run ≡ run = ground (arith, was.there, owner, there) in
                let less : e.sequence ≤ run.trace_sequence = rw (← one) was.bound in
                record {
                  run = count_event run;
                  there = ground (arith, put, same);
                  positive = was.positive;
                  bound = omega (arith, less);
                }
            | inr other ↦ record {
              run = was.run;
              there = ground (arith, put, other, was.there);
              positive = was.positive;
              bound = was.bound;
            }
          ];
      distinct = numbered.distinct;
    }

    count_event-AllBefore :
        IsNumbered db → AllBefore (counted_rows db run) run.agent_run_id (run.trace_sequence + 1)
    count_event-AllBefore numbered k e h owner =
        let was = numbered.counted k e h in
        let at : t.agent_runs.get db.agent_runs run.agent_run_id ≡ some was.run =
          rw (← owner) was.there in
        let one : was.run ≡ run = ground (arith, at, there) in
        let less : e.sequence ≤ run.trace_sequence = rw (← one) was.bound in omega (arith, less)

  -- a new event with a number after all others of its run
  module _ (db : Database t) (row : AgentTraceEvent) (rows : t.trace_events.Rows)
      (added : t.trace_events.add row db.trace_events ≡ some rows) where
    abbrev grown : Database t
    grown = record db { trace_events = rows }

    -- an event afterwards is the new one or one from before
    IsEvent-cases :
        (k : String) (e : AgentTraceEvent)
        → IsEvent grown k e
        → ((row ≡ e) × (row.event_id ≡ k)) ⊎ IsEvent db k e
    IsEvent-cases k e h =
        let put = t.trace_events.get-add row db.trace_events rows k added in
        elim (Bool-cases (str_eq row.event_id k)) [
          | inl new ↦ inl (ground (arith, put, new, h), (eq_iff row.event_id k).0 new)
          | inr old ↦ inr (ground (arith, put, old, h))
        ]

    still-IsCounted : (e : AgentTraceEvent) → IsCounted db e → IsCounted grown e
    still-IsCounted e c = record {
      run = c.run;
      there = c.there;
      positive = c.positive;
      bound = c.bound;
    }

    -- an event from before has another number
    not_before :
        (k : String) (d e : AgentTraceEvent)
        → AllBefore db row.agent_run_id row.sequence
        → row ≡ d
        → IsEvent db k e
        → e.agent_run_id ≡ d.agent_run_id
        → e.sequence ≢ d.sequence
    not_before k d e before same h owner number =
        let own : e.agent_run_id ≡ row.agent_run_id = rw same owner in
        let equal : e.sequence ≡ row.sequence = rw same number in
        omega (arith, before k e h own, equal)

    grown-IsNumbered :
        IsCounted db row
        → AllBefore db row.agent_run_id row.sequence
        → IsNumbered db
        → IsNumbered grown
    grown-IsNumbered fits before numbered = record {
      counted = λ k e h. elim (IsEvent-cases k e h) [
        | inl (same, named) ↦ rw (← same) (still-IsCounted row fits)
        | inr was ↦ still-IsCounted e (numbered.counted k e was)
      ];
      distinct = λ j k d e hj hk owner number. elim (IsEvent-cases j d hj) [
        | inl (d_new, j_new) ↦ elim (IsEvent-cases k e hk) [
          | inl (e_new, k_new) ↦ sym j_new ∙ k_new
          | inr old ↦ elim (not_before k d e before d_new old (sym owner) (sym number)) [ ]
        ]
        | inr d_old ↦ elim (IsEvent-cases k e hk) [
          | inl (e_new, k_new) ↦ elim (not_before j e d before e_new d_old owner number) [ ]
          | inr old ↦ numbered.distinct j k d e d_old old owner number
        ]
      ];
    }

  insert_event-IsNumbered :
      (db : Database t) (made : Result ExecutionError AgentTraceEvent)
      → ((row : AgentTraceEvent)
          → made ≡ ok row
          → IsCounted db row × AllBefore db row.agent_run_id row.sequence)
      → IsNumbered db
      → IsNumbered (insert_event t db made).1
  unfolding insert_event
  insert_event-IsNumbered db (err e) facts numbered = numbered
  insert_event-IsNumbered db (ok row) facts numbered =
      elim (Option-cases (t.trace_events.add row db.trace_events)) [
        | inl taken ↦ rw (taken, insert_event) numbered
        | inr (rows, added) ↦
            let (fits, before) = facts row refl in
            rw (added, insert_event) (grown-IsNumbered db row rows added fits before numbered)
      ]

  new_event-numbers :
      (run : AgentRun) (event_type : String) (payload : Payload) (session event_id : Option String)
      (new_id : String) (row : AgentTraceEvent)
      → new_event run event_type payload session event_id new_id ≡ ok row
      → (row.agent_run_id ≡ run.agent_run_id) × (row.sequence ≡ run.trace_sequence)
  unfolding new_event
  new_event-numbers run event_type payload session event_id new_id row h =
      let (id, _, h1) = >>=-eq-ok (given_or_new event_id "event_id" new_id) _ h in
      let (kind, _, h2) = >>=-eq-ok (non_empty event_type "event_type") _ h1 in
      let (text, _, built) = >>=-eq-ok (serialize_payload payload) _ h2 in ground (arith, built)

  append_to-IsNumbered :
      (db : Database t) (found : Result ExecutionError AgentRun) (event_type : String)
      (payload : Payload) (session event_id : Option String) (new_id : String)
      → ((run : AgentRun)
          → found ≡ ok run
          → t.agent_runs.get db.agent_runs run.agent_run_id ≡ some run)
      → IsNumbered db
      → IsNumbered (append_to t db found event_type payload session event_id new_id).1
  unfolding append_to count_event
  append_to-IsNumbered db (err e) event_type payload session event_id new_id there numbered =
      numbered
  append_to-IsNumbered db (ok run) event_type payload session event_id new_id there numbered =
      let at = there run refl in
      let counted = count_event run in
      let put = t.agent_runs.get-assign counted run db.agent_runs run.agent_run_id at in
      insert_event-IsNumbered (counted_rows db run)
        (new_event counted event_type payload session event_id new_id)
        (λ row h.
          let (owner, number) =
            new_event-numbers counted event_type payload session event_id new_id row h in
          (
            record {
              run = counted;
              there = ground (arith, put, (eq_iff run.agent_run_id run.agent_run_id).1 refl, owner);
              positive = omega (arith, number);
              bound = omega (arith, number);
            },
            rw (owner, number) (count_event-AllBefore db run at numbered),
          ))
        (count_event-IsNumbered db run at numbered)

  traced_run-found :
      (db : Database t) (agent_run_id : String) (session : Option String) (run : AgentRun)
      → traced_run t db agent_run_id session ≡ ok run
      → t.agent_runs.get db.agent_runs run.agent_run_id ≡ some run
  unfolding traced_run
  traced_run-found db agent_run_id session run h =
      let (r, r_ok, h1) = >>=-eq-ok (get_run t db agent_run_id) _ h in
      let (_, _, built) = >>=-eq-ok (check_session t db r session) _ h1 in
      let same : r ≡ run = ground (arith, built) in
      rw (← same) (get_run-found t db agent_run_id r r_ok)

  -- Appending an event, whether it succeeds or raises at any point, keeps the events of every run numbered: from 1 on,
  -- no number twice in a run, none above the run's counter.
  pub append_event-IsNumbered :
      (db : Database t) (agent_run_id event_type : String) (payload : Payload)
      (session event_id : Option String) (new_id : String)
      → IsNumbered db
      → IsNumbered (append_event t db agent_run_id event_type payload session event_id new_id).1
  unfolding append_event
  append_event-IsNumbered db agent_run_id event_type payload session event_id new_id numbered =
      append_to-IsNumbered db (traced_run t db agent_run_id session) event_type payload session
        event_id new_id (traced_run-found db agent_run_id session) numbered
