-- ===== src/States/RoundTrip/Examples.antt =====
-- A state saved for a session of a small database.
use transit_scholar.Base.{String, ◌≡◌, ◌≢◌, refl, some}
use transit_scholar.Base.Text.{strip}
use transit_scholar.Base.Result.{ok}
use transit_scholar.Records.{ResearchState, json}
use transit_scholar.Trace.{serialize_payload}
use transit_scholar.States.{save_research_state, load_research_state}
use transit_scholar.States.RoundTrip.{save-load}
use transit_scholar.Integrity.Sample.{tables, database}

abbrev row : ResearchState
row = record { research_session_id = "s"; payload_json = "{}" }

save-load_example :
    (serialize_payload (json "{}") ≡ ok "{}")
    × (load_research_state tables
          (save_research_state tables database "r" " s" (json "{}")).1
          "r"
          " s"
        ≡ ok (some row))
    × ((other : String)
        → other ≢ "s"
        → tables.states.get
            (save_research_state tables database "r" " s" (json "{}")).1.states
            other
          ≡ tables.states.get database.states other)
unfolding strip save_research_state tables database
save-load_example = save-load tables database "r" " s" (json "{}") row refl
