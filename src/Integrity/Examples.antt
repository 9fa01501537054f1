-- ===== src/Integrity/Examples.antt =====
-- The theorems about the services, applied to a small database.
use transit_scholar.Base.{String, true, ◌≢◌, ◌⊎◌, ◌≡◌, ◌↔◌, refl, none, some, List, [], ◌∷◌, Memᴰ}
use transit_scholar.Base.Result.{ok, err}
use transit_scholar.Base.Text.{strip}
use transit_scholar.Records.{is_one_of}
use transit_scholar.Ledger.Lookup.{
  get_session, get_owned_query, get_owned_claim, checked_status, claim_status, invalid_claim_input,
  optional_claim_value,
}
use transit_scholar.Ledger.Claims.{create_claim, get_claim, list_claims, update_claim}
use transit_scholar.Ledger.Queries.{create_query, get_query, update_query_status}
use transit_scholar.Ledger.Reads.{
  get_query_exact, create_query-get_query, update_claim_partial, list_claims_exact,
}
use transit_scholar.Integrity.History.{
  Call, set_run_status, make_query, set_query_status, make_claim, perform, perform_all,
  perform_all-IsConsistent, returns, raises, is_refused, Step, call, commit, step, Transaction,
  IsSound,
}
use transit_scholar.Integrity.History.Atomic.{Lost, perform_atomic}
use transit_scholar.Integrity.Sample.{
  tables, session, query, claim, database, database-IsConsistent,
}

get_query_exact_example : get_query tables database "s" "q" ≡ ok query
unfolding strip tables database
get_query_exact_example =
    get_query_exact tables database session query (refl, refl) (refl, refl) refl refl

create_query-get_query_example :
    get_query tables
      (create_query tables database "s" "dwell time" "active" none none "n").1
      "s"
      "n"
    ≡ ok (record {
      query_id = "n";
      research_session_id = "s";
      query_text = "dwell time";
      status = "active";
      parent_query_id = none;
    })
unfolding strip create_query get_session tables database checked_status is_one_of
create_query-get_query_example =
    create_query-get_query tables database "s" "dwell time" "active" none none "n" _ (refl, refl)
      refl

update_claim_partial_example :
    ((update_claim tables database "s" "c" (some "rejected") (some " ")).0
      ≡ err (invalid_claim_input "rationale"))
    × (get_claim tables
          (update_claim tables database "s" "c" (some "rejected") (some " ")).1
          "s"
          "c"
        ≡ ok (record claim { status = "rejected" }))
    × ((other : String)
        → other ≢ "c"
        → tables.claims.get
            (update_claim tables database "s" "c" (some "rejected") (some " ")).1.claims
            other
          ≡ tables.claims.get database.claims other)
unfolding strip get_claim get_session get_owned_claim claim_status is_one_of tables database
update_claim_partial_example =
    update_claim_partial tables database "s" "c" "rejected" " " "rejected" claim refl refl refl

list_claims_exact_example :
    Memᴰ claim (claim ∷ [])
    ↔ ((tables.claims.get database.claims "c" ≡ some claim) × (claim.research_session_id ≡ "s"))
unfolding strip list_claims get_session tables database
list_claims_exact_example =
    list_claims_exact tables database "s" session (claim ∷ []) claim refl refl

-- the rows of the sample are committed
abbrev start : Transaction tables
start = record { now = database; committed = database; is_active = true }

-- the third call raises, since the session has no such query; the last is refused, since the claim is there
abbrev calls : List Step
calls =
    call (make_query "s" "dwell time" "active" none none "n")
    ∷ call (set_run_status "r" "paused")
    ∷ call (set_query_status "s" "missing" "completed")
    ∷ commit
    ∷ call (make_claim "s" "x" "proposed" none (some "c") "d")
    ∷ []

perform_all-IsConsistent_example : IsSound tables (perform_all tables calls start)
perform_all-IsConsistent_example =
    perform_all-IsConsistent tables calls start
      (record { now = database-IsConsistent; committed = database-IsConsistent })

it_raises : (perform tables (set_query_status "s" "missing" "completed") database).0 ≡ raises
unfolding perform strip tables database update_query_status get_session get_owned_query
it_raises = refl

-- a claim whose identifier is taken
abbrev taken : Call
taken = make_claim "s" "x" "proposed" none (some "c") "d"

it_is_refused : (perform tables taken database).0 ≡ is_refused
unfolding perform strip tables database create_claim get_session claim_status is_one_of
    optional_claim_value
it_is_refused = refl

it_fails : (perform tables taken database).0 ≢ returns
it_fails h = cc (h, it_is_refused)

perform_atomic_example :
    (((perform tables taken database).0 ≡ raises) × (step tables (call taken) start ≡ start))
    ⊎ (((perform tables taken database).0 ≡ is_refused)
        × Lost tables start (step tables (call taken) start))
perform_atomic_example = perform_atomic tables taken start refl refl it_fails
