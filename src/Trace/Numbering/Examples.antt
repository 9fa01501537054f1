-- ===== src/Trace/Numbering/Examples.antt =====
-- An event appended to a run of a small database.
use transit_scholar.Base.{none, some}
use transit_scholar.Records.{json}
use transit_scholar.Trace.{append_event}
use transit_scholar.Trace.Numbering.{IsNumbered, append_event-IsNumbered}
use transit_scholar.Integrity.Sample.{tables, database}

database-IsNumbered : IsNumbered tables database
unfolding tables database
database-IsNumbered = record { counted = λ k e h. cc; distinct = λ j k d e hj hk owner number. cc }

append_event-IsNumbered_example :
    IsNumbered tables
      (append_event tables database "r" "run.started" (json "{}") (some "s") none "n").1
append_event-IsNumbered_example =
    append_event-IsNumbered tables database "r" "run.started" (json "{}") (some "s") none "n"
      database-IsNumbered
