-- ===== src/Ledger/Evidence.antt =====
-- The evidence operations of src/transit_scholar/layer3/ledger/service.py.
use Prim.Native.Char.{code}
use transit_scholar.Base.{
  ℕ, ◌+◌, String, Bool, true, false, not, ◌&&◌, ◌||◌, Option, none, some, List, [], ◌∷◌, leb,
  str_eq, ◌==◌, is_some, if◌then◌else◌,
}
use transit_scholar.Base.Result.{Result, ok, err, ◌>>=◌, ◌>>◌, guard}
use transit_scholar.Records.{
  ResearchSession, EvidenceLocator, QueryProvenance, PaperProvenance, Payload, json,
  not_serializable, ResearchEvidence, EvidenceRecord, Tables, Database,
}
use transit_scholar.Ledger.Lookup.{
  LedgerError, invalid_evidence_input, refused, no_agent_run, found, get_session, get_owned_query,
  get_owned_evidence,
}

-- `source_kind.casefold() == "paper"`: only ASCII letters fold to the letters of "paper"
codes : String → List ℕ
codes String.[] = []
codes (String.◌∷◌ c s) = (let n = code c in if leb 65 n && leb n 90 then n + 32 else n) ∷ codes s

same_codes : List ℕ → List ℕ → Bool
same_codes [] [] = true
same_codes (a ∷ xs) (b ∷ ys) = a == b && same_codes xs ys
same_codes _ _ = false

unfoldable pub is_paper : String → Bool
unfolding codes same_codes
is_paper source_kind = same_codes (codes source_kind) (codes "paper")

abbrev pub conflict : LedgerError
conflict = invalid_evidence_input "source identities conflict"

-- `a != b`, for two optional texts of which neither is None
abbrev pub differ : Option String → Option String → Bool
differ (some a) (some b) = not (str_eq a b)
differ _ _ = false

unfoldable pub resolve_source_identity :
    Option String → Option String → Result LedgerError (Option String)
resolve_source_identity none canonical_source_version = ok canonical_source_version
resolve_source_identity (some parse_run_id) none = ok (some parse_run_id)
resolve_source_identity (some parse_run_id) (some canonical_source_version) =
    if str_eq parse_run_id canonical_source_version then ok (some parse_run_id) else err conflict

unfoldable pub locator_identity : EvidenceLocator → Result LedgerError (Option String)
unfolding resolve_source_identity
locator_identity l = resolve_source_identity l.parse_run_id l.canonical_source_version

unfoldable pub provenance_identity : Option PaperProvenance → Result LedgerError (Option String)
unfolding resolve_source_identity
provenance_identity none = ok none
provenance_identity (some p) = resolve_source_identity p.parse_run_id p.canonical_source_version

-- `value if value is not None else identity`
abbrev pub or_identity : Option String → String → Option String
or_identity none identity = some identity
or_identity (some value) identity = some value

-- `locator.model_copy(update=updates)`, with the two fields that may be filled in
unfoldable pub fill_locator : Option String → EvidenceLocator → EvidenceLocator
fill_locator none l = l
fill_locator (some identity) l = record l {
  parse_run_id = or_identity l.parse_run_id identity;
  canonical_source_version = or_identity l.canonical_source_version identity;
}

-- the block of `admit_evidence` for Paper evidence
unfoldable pub complete_paper : ResearchEvidence → Result LedgerError ResearchEvidence
unfolding locator_identity provenance_identity fill_locator
complete_paper evidence = do
  mine ← locator_identity evidence.locator
  theirs ← provenance_identity evidence.paper_provenance
  -- identities are not empty texts, so each test `if identity` is `identity is not None`
  guard (not (differ mine theirs)) conflict
  ok (record evidence { locator = fill_locator theirs evidence.locator })

unfoldable pub completed : ResearchEvidence → Result LedgerError ResearchEvidence
unfolding complete_paper is_paper
completed evidence =
    if is_paper evidence.locator.source_kind then complete_paper evidence else ok evidence

-- the block of `_validate_evidence_provenance` for Paper evidence
unfoldable pub validate_paper : ResearchEvidence → Result LedgerError (Unit {0})
unfolding locator_identity provenance_identity
validate_paper evidence = do
  mine ← locator_identity evidence.locator
  theirs ← provenance_identity evidence.paper_provenance
  guard (is_some mine || is_some theirs) (invalid_evidence_input "stable source identity")
  guard (not (differ mine theirs)) conflict

-- `query_provenance is None or query_provenance.query_id == source_query_id`
abbrev pub query_matches : Option QueryProvenance → String → Bool
query_matches none source_query_id = true
query_matches (some p) source_query_id = str_eq p.query_id source_query_id

abbrev pub matches : Option String → String → Bool
matches none value = true
matches (some given) value = str_eq given value

abbrev pub session_matches : Option QueryProvenance → String → Bool
session_matches none session_id = true
session_matches (some p) session_id = matches p.session_id session_id

abbrev pub paper_matches : Option PaperProvenance → Option String → Bool
paper_matches none paper_id = true
paper_matches (some p) paper_id = matches paper_id p.paper_id

unfoldable pub dumps : Payload → Result LedgerError String
dumps (json text) = ok text
dumps not_serializable = err (invalid_evidence_input "JSON-serializable")

module _ (t : Tables) where
  -- `research_session.agent_run.workspace_id`
  unfoldable pub session_workspace : Database t → ResearchSession → Result LedgerError String
  session_workspace db research_session = do
    run ← found (t.agent_runs.get db.agent_runs research_session.agent_run_id) no_agent_run
    ok run.workspace_id

  unfoldable pub validate_evidence_provenance :
      Database t → ResearchSession → String → ResearchEvidence → Result LedgerError (Unit {0})
  unfolding validate_paper is_paper session_workspace
  validate_evidence_provenance db research_session source_query_id evidence = do
    if is_paper evidence.locator.source_kind then validate_paper evidence else ok tt
    guard (query_matches evidence.query_provenance source_query_id)
        (invalid_evidence_input "source_query_id")
    guard (session_matches evidence.query_provenance research_session.research_session_id)
        (invalid_evidence_input "research_session_id")
    workspace_id ← session_workspace db research_session
    guard (str_eq evidence.locator.workspace_id workspace_id) (invalid_evidence_input "workspace")
    guard (paper_matches evidence.paper_provenance evidence.locator.paper_id)
        (invalid_evidence_input "locator.paper_id")

  -- the row that `admit_evidence` builds; `source_query_id` is kept as it is given
  unfoldable pub new_evidence :
      Database t → String → String → ResearchEvidence → String → Result LedgerError EvidenceRecord
  unfolding completed validate_evidence_provenance dumps
  new_evidence db research_session_id source_query_id given new_id = do
    research_session ← get_session t db research_session_id
    get_owned_query t db research_session.research_session_id source_query_id
    evidence ← completed given
    validate_evidence_provenance db research_session source_query_id evidence
    retrieval ← dumps evidence.retrieval_provenance
    rerank ← dumps evidence.rerank_provenance
    ok (record {
      evidence_id = new_id;
      research_session_id = research_session.research_session_id;
      source_query_id = source_query_id;
      locator = evidence.locator;
      text_snapshot = evidence.text;
      source_metadata = record {
        source_kind = evidence.source_kind;
        paper_provenance = evidence.paper_provenance;
        section_name = evidence.section_name;
      };
      retrieval_provenance = record {
        retrieval_evidence_id = evidence.evidence_id;
        query_provenance = evidence.query_provenance;
        retrieval_provenance = retrieval;
        rerank_provenance = rerank;
        final_rank = evidence.final_rank;
      };
    })

  -- `session.add(row)`, `flush`, `refresh`
  unfoldable pub insert_evidence :
      Database t
      → Result LedgerError EvidenceRecord
      → Result LedgerError EvidenceRecord × Database t
  insert_evidence db (err e) = (err e, db)
  insert_evidence db (ok row) = elim (t.evidence.add row db.evidence) [
    | none ↦ (err refused, db)
    | some rows ↦ (ok row, record db { evidence = rows })
  ]

  unfoldable pub admit_evidence :
      Database t
      → String
      → String
      → ResearchEvidence
      → String
      → Result LedgerError EvidenceRecord × Database t
  unfolding new_evidence insert_evidence
  admit_evidence db research_session_id source_query_id evidence new_id =
      insert_evidence db (new_evidence db research_session_id source_query_id evidence new_id)

  unfoldable pub get_evidence : Database t → String → String → Result LedgerError EvidenceRecord
  get_evidence db research_session_id evidence_id = do
    get_session t db research_session_id
    get_owned_evidence t db research_session_id evidence_id

  unfoldable pub list_evidence : Database t → String → Result LedgerError (List EvidenceRecord)
  list_evidence db research_session_id = do
    research_session ← get_session t db research_session_id
    ok (
        t.evidence.select (λ e. str_eq e.research_session_id research_session.research_session_id)
          db.evidence)
