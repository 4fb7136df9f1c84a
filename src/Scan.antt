-- ===== src/Scan.antt =====
-- backend/app/scan.py: the scan of some files of a project into its tables. Embeddings, metrics and the
-- cache of parses are left out; work in batches gives what the items give one by one.
pub mod Parsing
pub mod Writing
pub mod Attempts
pub mod Snapshot
pub mod Degrees
pub mod Prepared
pub mod Files
pub mod Indexing
pub mod Fresh
pub mod Committed
use cgraph.Prelude.{ℕ, Bool, Option, List}
use cgraph.Text.{Text}
use cgraph.Graph.{Tables, FileEdge}

-- what `stat` and `read_text` say of a path; `text` is none where it cannot be read
pub record DiskFile : Type 0 where
  pub is_file : Bool
  pub mtime_ns : ℕ
  pub size : ℕ
  pub text : Option Text

abbrev pub Disk : Type 0
Disk = Text → Option DiskFile

-- an import as an indexer finds it
pub record Import : Type 0 where
  pub spec : Text
  pub kind : Text
  pub raw : Text

-- a row of `filenode` that a scan writes, and one of `filetext`
pub record NodeRow : Type 0 where
  pub path : Text
  pub language : Text
  pub loc : ℕ
  pub complexity : ℕ
  pub file_hash : ℕ
  pub file_mtime_ns : ℕ
  pub file_size : ℕ

pub record FileText : Type 0 where
  pub path : Text
  pub content : Text

pub data ApiTable : Type 0 where
  api_route api_call api_include api_route_contract api_call_meta ts_type_def : ApiTable

-- A row of one of the API tables: where it was found, the other file that an include names (empty in the
-- other tables), the other columns of the unique key as one number, and the columns that are no key.
pub record ApiRow : Type 0 where
  pub table : ApiTable
  pub source_path : Text
  pub child_source_path : Text
  pub key : ℕ
  pub body : ℕ

-- the tables of the project
pub record Db : Type 0 where
  pub graph : Tables
  pub texts : List FileText
  pub api : List ApiRow
  pub next_id : ℕ

-- The settings; what the digests, `splitlines`, the indexers and the resolution of paths and of imports
-- give; and whether a statement of the database fails.
pub record Env : Type 0 where
  pub max_file_bytes : ℕ
  pub digest : Text → ℕ
  pub oversized_digest : ℕ → ℕ → ℕ
  pub splitlines : Text → List Text
  pub is_supported : Text → Bool
  pub language : Text → Text
  pub complexity : Text → Text → ℕ
  pub parse_imports : Text → Text → List Import
  pub resolve_spec : Text → Text → Option Text
  pub resolve_under_root : Text → Option Text
  pub api_rows : Text → Text → List ApiRow
  pub db_fails : Bool

-- the kinds of `hash_kind`
pub data HashKind : Type 0 where
  content oversized stat_only : HashKind

pub record FileSnapshot : Type 0 where
  pub rel : Text
  pub mtime_ns : ℕ
  pub size : ℕ
  pub file_hash : ℕ
  pub hash_kind : HashKind

-- what `_prepare_scan_files_async` hands to the writing
pub record PreparedScanData : Type 0 where
  pub present : List Text
  pub removed : List Text
  pub node_rows : List NodeRow
  pub edge_map : List FileEdge
  pub search_rows : List FileText
  pub api_rows : List ApiRow
  pub removed_edge_neighbors : List Text
  pub snapshot : List FileSnapshot
